-- ===== src/Conformance/Matrix/Order.antt =====
-- The order of the entries of conformance/report.go's matrix: slices.SortFunc by cmp.Or of the texts.
use Prim.Native.String.{String}
use mathlib.Core.Path.{◌≡◌, refl, sym, subst, ap₂}
use mathlib.Core.Logic.{inl, inr}
use mathlib.Core.List.{Perm}
use mathlib.Core.List.Perm
use native.Mathlib.Omega.{arith}
use text.Mathlib.TextEquality.{eq_iff}
use cluster_inventory_api.Common.{
  true, false, List, [], ◌∷◌, ◌==◌, All, All-weaken, Bool-cases, text_leb, if◌then◌else◌,
}
use cluster_inventory_api.Common.Text.Order.{text_leb_total, text_leb_trans, text_leb_antisym}
use cluster_inventory_api.Conformance.Matrix.Rows.{insert_entry-All}
use cluster_inventory_api.Conformance.Matrix.{
  Entry, sort_keys, keys_leb, insert_entry, sort_entries,
}

pub keys_leb_total : (xs ys : List String) → keys_leb xs ys ≡ false → keys_leb ys xs ≡ true
unfolding keys_leb
keys_leb_total [] ys h = cc
keys_leb_total (x ∷ xs) [] h = refl
keys_leb_total (x ∷ xs) (y ∷ ys) h =
    ground (arith, eq_iff x y, eq_iff y x, keys_leb_total xs ys, text_leb_total x y)

pub keys_leb_trans :
    (xs ys zs : List String) → keys_leb xs ys ≡ true → keys_leb ys zs ≡ true → keys_leb xs zs ≡ true
unfolding keys_leb
keys_leb_trans [] ys zs h k = refl
keys_leb_trans (x ∷ xs) [] zs h k = cc
keys_leb_trans (x ∷ xs) (y ∷ ys) [] h k = cc
keys_leb_trans (x ∷ xs) (y ∷ ys) (z ∷ zs) h k = elim (Bool-cases (x == y)) [
  | inl e ↦
      subst (λ w. (if w == z then keys_leb xs zs else text_leb w z) ≡ true) (sym ((eq_iff x y).0 e))
        (ground (arith, keys_leb_trans xs ys zs))
  | inr n ↦ elim (Bool-cases (y == z)) [
    | inl e ↦
        subst (λ w. (if x == w then keys_leb xs zs else text_leb x w) ≡ true) ((eq_iff y z).0 e)
          (rw n (ground arith))
    | inr m ↦
        let low : text_leb x y ≡ true = ground arith in
        let high : text_leb y z ≡ true = ground arith in
        elim (Bool-cases (x == z)) [
          | inl e ↦
              let back = subst (λ w. text_leb y w ≡ true) (sym ((eq_iff x z).0 e)) high in
              cc ((eq_iff x y).1 (text_leb_antisym x y low back), n)
          | inr e ↦ rw e (text_leb_trans x y z low high)
        ]
  ]
]

pub keys_leb_antisym :
    (xs ys : List String) → keys_leb xs ys ≡ true → keys_leb ys xs ≡ true → xs ≡ ys
unfolding keys_leb
keys_leb_antisym [] [] h k = refl
keys_leb_antisym [] (y ∷ ys) h k = cc
keys_leb_antisym (x ∷ xs) [] h k = cc
keys_leb_antisym (x ∷ xs) (y ∷ ys) h k = elim (Bool-cases (x == y)) [
  | inl e ↦
      let same = (eq_iff x y).0 e in
      let flipped = (eq_iff y x).1 (sym same) in
      ap₂ ◌∷◌ same (keys_leb_antisym xs ys (rw e at h) (rw flipped at k))
  | inr n ↦
      let flipped : (y == x) ≡ false = ground (arith, eq_iff x y, eq_iff y x) in
      cc ((eq_iff x y).1 (text_leb_antisym x y (rw n at h) (rw flipped at k)), n)
]

-- The entries are in the order of their texts.
abbrev pub IsOrdered : List Entry → Type 0
IsOrdered [] = Unit
IsOrdered (e ∷ es) = All (λ x. keys_leb (sort_keys e) (sort_keys x) ≡ true) es × IsOrdered es

insert_entry-perm : (e : Entry) (es : List Entry) → Perm (insert_entry e es) (e ∷ es)
unfolding insert_entry
insert_entry-perm e [] = Perm.refl (e ∷ [])
insert_entry-perm e (x ∷ xs) = elim (Bool-cases (keys_leb (sort_keys e) (sort_keys x))) [
  | inl h ↦ rw h (Perm.refl (e ∷ x ∷ xs))
  | inr h ↦ rw h (Perm.trans (Perm.cons x (insert_entry-perm e xs)) (Perm.swap e x xs))
]

pub sort_entries-perm : (es : List Entry) → Perm (sort_entries es) es
unfolding sort_entries
sort_entries-perm [] = Perm.refl []
sort_entries-perm (e ∷ es) =
    Perm.trans (insert_entry-perm e (sort_entries es)) (Perm.cons e (sort_entries-perm es))

insert_entry-IsOrdered :
    (e : Entry) (es : List Entry) → IsOrdered es → IsOrdered (insert_entry e es)
unfolding insert_entry
insert_entry-IsOrdered e [] h = (tt, tt)
insert_entry-IsOrdered e (x ∷ xs) (low, h) =
    elim (Bool-cases (keys_leb (sort_keys e) (sort_keys x))) [
      | inl t ↦ rw t (
        (
          t,
          All-weaken _ _ (λ y q. keys_leb_trans (sort_keys e) (sort_keys x) (sort_keys y) t q) xs
              low,
        ),
        (low, h),
      )
      | inr t ↦ rw t (
        insert_entry-All _ e xs (keys_leb_total (sort_keys e) (sort_keys x) t) low,
        insert_entry-IsOrdered e xs h,
      )
    ]

pub sort_entries-IsOrdered : (es : List Entry) → IsOrdered (sort_entries es)
unfolding sort_entries
sort_entries-IsOrdered [] = tt
sort_entries-IsOrdered (e ∷ es) =
    insert_entry-IsOrdered e (sort_entries es) (sort_entries-IsOrdered es)
