-- ===== src/Common/Lists.antt =====
-- Lists over the native numbers, membership as a test, and predicates by recursion.
pub mod Pigeon
use Prim.Native.Nat.{ℕ, zero, suc, ◌+◌, ◌≤◌}
use Prim.Native.String.{String}
use mathlib.Core.Path.{◌≡◌, refl, subst}
use mathlib.Core.Logic.{◌≢◌, ◌⊎◌, inl, inr, ◌↔◌}
use mathlib.Core.Bool.{Bool, true, false, ◌||◌}
use mathlib.Core.Option.{Option, none, some}
use mathlib.Core.List.{List, [], ◌∷◌, ◌++◌, map}
use native.Mathlib.Omega.{arith}
use text.Mathlib.Text.{◌==◌}
use text.Mathlib.TextEquality.{eq_iff}
use cluster_inventory_api.Common.Tests.{if◌then◌else◌}

abbrev pub All {ℓ κ} : {A : Type ℓ} → (A → Type κ) → List A → Type κ
All P [] = Unit
All P (x ∷ xs) = P x × All P xs

abbrev pub Exists {ℓ} : {A : Type ℓ} → (A → Type 0) → List A → Type 0
Exists P [] = ⊥
Exists P (x ∷ xs) = P x ⊎ Exists P xs

-- `a` occurs in the list.
abbrev pub In : {A : Type 0} → A → List A → Type 0
In a xs = Exists (λ x. x ≡ a) xs

-- No value occurs twice.
abbrev pub Distinct : {A : Type 0} → List A → Type 0
Distinct [] = Unit
Distinct (x ∷ xs) = All (λ y. y ≢ x) xs × Distinct xs

abbrev pub length {ℓ} : {A : Type ℓ} → List A → ℕ
length [] = 0
length (x ∷ xs) = suc (length xs)

-- len(xs) == 0
abbrev pub is_empty {ℓ} : {A : Type ℓ} → List A → Bool
is_empty [] = true
is_empty (x ∷ xs) = false

-- slices.ContainsFunc
unfoldable pub any {ℓ} : {A : Type ℓ} → (A → Bool) → List A → Bool
any p [] = false
any p (x ∷ xs) = p x || any p xs

-- The first element that passes: slices.IndexFunc, where only the element found is used.
unfoldable pub find {ℓ} : {A : Type ℓ} → (A → Bool) → List A → Option A
find p [] = none
find p (x ∷ xs) = if p x then some x else find p xs

-- slices.Contains, at texts
unfoldable pub contains : List String → String → Bool
contains [] a = false
contains (x ∷ xs) a = x == a || contains xs a

-- The elements that pass: slices.DeleteFunc by the negated test.
unfoldable pub keep {ℓ} : {A : Type ℓ} → (A → Bool) → List A → List A
keep p [] = []
keep p (x ∷ xs) = let rest = keep p xs in if p x then x ∷ rest else rest

pub contains_iff : (xs : List String) (a : String) → (contains xs a ≡ true) ↔ In a xs
unfolding contains
contains_iff [] a = ((λ h. cc), (λ h. elim h [ ]))
contains_iff (x ∷ xs) a = (
  (λ h. ground (arith, eq_iff x a, contains_iff xs a)),
  (λ h. ground (arith, eq_iff x a, contains_iff xs a)),
)

module _ {ℓ} {A : Type ℓ} where
  pub is_empty-eq-true : (xs : List A) → is_empty xs ≡ true → xs ≡ []
  is_empty-eq-true [] h = refl
  is_empty-eq-true (x ∷ xs) h = cc

  pub length-append : (xs ys : List A) → length (xs ++ ys) ≡ length xs + length ys
  length-append [] ys = omega arith
  length-append (x ∷ xs) ys = omega (arith, length-append xs ys)

  pub length-map {κ} : {B : Type κ} (f : A → B) (xs : List A) → length (map f xs) ≡ length xs
  length-map f [] = refl
  length-map f (x ∷ xs) = omega (arith, length-map f xs)

  pub All-append {κ} : (P : A → Type κ) (xs ys : List A) → All P xs → All P ys → All P (xs ++ ys)
  All-append P [] ys h k = k
  All-append P (x ∷ xs) ys (p, h) k = (p, All-append P xs ys h k)

  pub All-weaken {κ μ} :
      (P : A → Type κ) (Q : A → Type μ) (f : (x : A) → P x → Q x) (xs : List A)
      → All P xs
      → All Q xs
  All-weaken P Q f [] h = tt
  All-weaken P Q f (x ∷ xs) (p, h) = (f x p, All-weaken P Q f xs h)

  pub All-keep {κ} : (P : A → Type κ) (p : A → Bool) (xs : List A) → All P xs → All P (keep p xs)
  unfolding keep
  All-keep P p [] h = tt
  All-keep P p (x ∷ xs) (q, h) = go (p x) (All-keep P p xs h)
    where
      go : (b : Bool) → All P (keep p xs) → All P (if b then x ∷ keep p xs else keep p xs)
      go true k = (q, k)
      go false k = k

module _ {A : Type 0} where
  pub In-All : (P : A → Type 0) {a : A} (xs : List A) → All P xs → In a xs → P a
  In-All P [] h k = absurd k
  In-All P (x ∷ xs) (p, h) (inl e) = subst P e p
  In-All P (x ∷ xs) (p, h) (inr k) = In-All P xs h k

  pub All-of_In : (P : A → Type 0) (xs : List A) → ((a : A) → In a xs → P a) → All P xs
  All-of_In P [] f = tt
  All-of_In P (x ∷ xs) f = (f x (inl refl), All-of_In P xs (λ a k. f a (inr k)))
