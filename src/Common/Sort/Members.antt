-- ===== src/Common/Sort/Members.antt =====
-- Sorting texts keeps who is listed, and lists nobody twice.
use Prim.Native.String.{String}
use mathlib.Core.Path.{◌≡◌, sym}
use mathlib.Core.Logic.{◌≢◌, ◌⊎◌, inl, inr}
use mathlib.Core.List.{List, [], ◌∷◌}
use cluster_inventory_api.Common.Tests.{Bool-cases}
use cluster_inventory_api.Common.Lists.{All, In, Distinct, All-of_In, In-All}
use cluster_inventory_api.Common.Text.Order.{text_leb}
use cluster_inventory_api.Common.Sort.{insert_by, sort_by}
use cluster_inventory_api.Common.Sort.Laws.{insert_by-All, sort_by-All}

module _ {A : Type 0} (key : A → String) where
  In-insert_by : (a x : A) (xs : List A) → (x ≡ a) ⊎ In a xs → In a (insert_by key x xs)
  unfolding insert_by
  In-insert_by a x [] h = h
  In-insert_by a x (y ∷ ys) (inl e) = elim (Bool-cases (text_leb (key x) (key y))) [
    | inl t ↦ rw t (inl e)
    | inr t ↦ rw t (inr (In-insert_by a x ys (inl e)))
  ]
  In-insert_by a x (y ∷ ys) (inr h) = elim (Bool-cases (text_leb (key x) (key y))) [
    | inl t ↦ rw t (inr h)
    | inr t ↦ rw t (elim h [ inl e ↦ inl e | inr k ↦ inr (In-insert_by a x ys (inr k)) ])
  ]

  pub In-sort_by : (a : A) (xs : List A) → In a xs → In a (sort_by key xs)
  unfolding sort_by
  In-sort_by a [] h = h
  In-sort_by a (x ∷ xs) (inl e) = In-insert_by a x (sort_by key xs) (inl e)
  In-sort_by a (x ∷ xs) (inr h) = In-insert_by a x (sort_by key xs) (inr (In-sort_by a xs h))

  pub In-sort_by_inv : (a : A) (xs : List A) → In a (sort_by key xs) → In a xs
  In-sort_by_inv a xs h =
      In-All (λ x. In x xs) (sort_by key xs)
        (sort_by-All key (λ x. In x xs) xs (All-of_In (λ x. In x xs) xs (λ x k. k))) h

  insert_by-Distinct :
      (x : A) (xs : List A) → All (λ y. y ≢ x) xs → Distinct xs → Distinct (insert_by key x xs)
  unfolding insert_by
  insert_by-Distinct x [] h d = (tt, tt)
  insert_by-Distinct x (y ∷ ys) (ne, h) (new, d) = elim (Bool-cases (text_leb (key x) (key y))) [
    | inl t ↦ rw t ((ne, h), (new, d))
    | inr t ↦
        rw t
          (insert_by-All key (λ z. z ≢ y) x ys (λ e. ne (sym e)) new, insert_by-Distinct x ys h d)
  ]

  pub sort_by-Distinct : (xs : List A) → Distinct xs → Distinct (sort_by key xs)
  unfolding sort_by
  sort_by-Distinct [] d = tt
  sort_by-Distinct (x ∷ xs) (new, d) =
      insert_by-Distinct x (sort_by key xs) (sort_by-All key (λ y. y ≢ x) xs new)
        (sort_by-Distinct xs d)
