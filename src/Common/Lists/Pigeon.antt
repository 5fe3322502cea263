-- ===== src/Common/Lists/Pigeon.antt =====
-- A list of distinct elements of another, as long as it, is a permutation of it.
use Prim.Native.Nat.{suc}
use mathlib.Core.Path.{◌≡◌, refl, sym, ◌∙◌}
use mathlib.Core.Logic.{◌≢◌, inl, inr}
use mathlib.Core.List.{List, [], ◌∷◌, Perm}
use mathlib.Core.List.Perm
use native.Mathlib.Omega.{arith}
use cluster_inventory_api.Common.Lists.{All, In, Distinct, length}

-- What is left of a list when one occurrence of `a` is taken out.
record Taken {A : Type 0} (a : A) (ys : List A) : Type 0 where
  rest : List A
  perm : Perm ys (a ∷ rest)
  shorter : length ys ≡ suc (length rest)
  kept : (b : A) → In b ys → b ≢ a → In b rest

module _ {A : Type 0} where
  take_out : (a : A) (ys : List A) → In a ys → Taken a ys
  take_out a [] h = absurd h
  take_out a (y ∷ ys) (inl e) = record {
    rest = ys;
    perm = rw e (Perm.refl (a ∷ ys));
    shorter = refl;
    kept = λ b h ne. elim h [ inl k ↦ absurd (ne (sym k ∙ e)) | inr k ↦ k ];
  }
  take_out a (y ∷ ys) (inr h) =
      let t = take_out a ys h in
      record {
        rest = y ∷ t.rest;
        perm = Perm.trans (Perm.cons y t.perm) (Perm.swap a y t.rest);
        shorter = omega (arith, t.shorter);
        kept = λ b k ne. elim k [ inl e ↦ inl e | inr m ↦ inr (t.kept b m ne) ];
      }

  move :
      (a : A) (ys : List A) (t : Taken a ys) (xs : List A)
      → All (λ x. x ≢ a) xs
      → All (λ x. In x ys) xs
      → All (λ x. In x t.rest) xs
  move a ys t [] h k = tt
  move a ys t (x ∷ xs) (n, h) (i, k) = (t.kept x i n, move a ys t xs h k)

  pub perm_of_Distinct :
      (xs ys : List A) → Distinct xs → All (λ x. In x ys) xs → length xs ≡ length ys → Perm xs ys
  perm_of_Distinct [] [] d h e = Perm.refl []
  perm_of_Distinct [] (y ∷ ys) d h e = absurd (omega arith)
  perm_of_Distinct (x ∷ xs) ys (n, d) (i, h) e =
      let t = take_out x ys i in
      let ih = perm_of_Distinct xs t.rest d (move x ys t xs n h) (omega (arith, t.shorter)) in
      Perm.trans (Perm.cons x ih) (Perm.symm t.perm)
