-- ===== src/Common/Sort/Laws.antt =====
-- Sorting: the result is in order, holds the same elements, and forgets the order of the input.
use Prim.Native.String.{String}
use mathlib.Core.Path.{◌≡◌}
use mathlib.Core.Logic.{inl, inr}
use mathlib.Core.Bool.{true}
use mathlib.Core.List.{List, [], ◌∷◌, Perm}
use mathlib.Core.List.Perm
use cluster_inventory_api.Common.Tests.{Bool-cases}
use cluster_inventory_api.Common.Lists.{All, All-weaken}
use cluster_inventory_api.Common.Text.Order.{text_leb, text_leb_total, text_leb_trans}
use cluster_inventory_api.Common.Sort.{insert_by, sort_by}

module _ {A : Type 0} (key : A → String) where
  -- Each element comes no later than those behind it.
  abbrev pub IsSorted : List A → Type 0
  IsSorted [] = Unit
  IsSorted (x ∷ xs) = All (λ y. text_leb (key x) (key y) ≡ true) xs × IsSorted xs

  pub insert_by-perm : (a : A) (xs : List A) → Perm (insert_by key a xs) (a ∷ xs)
  unfolding insert_by
  insert_by-perm a [] = Perm.refl (a ∷ [])
  insert_by-perm a (x ∷ xs) = elim (Bool-cases (text_leb (key a) (key x))) [
    | inl h ↦ rw h (Perm.refl (a ∷ x ∷ xs))
    | inr h ↦ rw h (Perm.trans (Perm.cons x (insert_by-perm a xs)) (Perm.swap a x xs))
  ]

  pub sort_by-perm : (xs : List A) → Perm (sort_by key xs) xs
  unfolding sort_by
  sort_by-perm [] = Perm.refl []
  sort_by-perm (x ∷ xs) =
      Perm.trans (insert_by-perm x (sort_by key xs)) (Perm.cons x (sort_by-perm xs))

  pub insert_by-All :
      (P : A → Type 0) (a : A) (xs : List A) → P a → All P xs → All P (insert_by key a xs)
  unfolding insert_by
  insert_by-All P a [] p h = (p, tt)
  insert_by-All P a (x ∷ xs) p (q, h) = elim (Bool-cases (text_leb (key a) (key x))) [
    | inl e ↦ rw e (p, (q, h))
    | inr e ↦ rw e (q, insert_by-All P a xs p h)
  ]

  pub sort_by-All : (P : A → Type 0) (xs : List A) → All P xs → All P (sort_by key xs)
  unfolding sort_by
  sort_by-All P [] h = tt
  sort_by-All P (x ∷ xs) (p, h) = insert_by-All P x (sort_by key xs) p (sort_by-All P xs h)

  insert_by-IsSorted : (a : A) (xs : List A) → IsSorted xs → IsSorted (insert_by key a xs)
  unfolding insert_by
  insert_by-IsSorted a [] h = (tt, tt)
  insert_by-IsSorted a (x ∷ xs) (low, h) = elim (Bool-cases (text_leb (key a) (key x))) [
    | inl e ↦
        rw e
          ((e, All-weaken _ _ (λ y p. text_leb_trans (key a) (key x) (key y) e p) xs low), (low, h))
    | inr e ↦
        rw e
          (insert_by-All _ a xs (text_leb_total (key a) (key x) e) low, insert_by-IsSorted a xs h)
  ]

  pub sort_by-IsSorted : (xs : List A) → IsSorted (sort_by key xs)
  unfolding sort_by
  sort_by-IsSorted [] = tt
  sort_by-IsSorted (x ∷ xs) = insert_by-IsSorted x (sort_by key xs) (sort_by-IsSorted xs)
