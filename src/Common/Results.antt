-- ===== src/Common/Results.antt =====
-- Go's `(value, error)` results, the early return on an error, and loops that stop at the first.
use mathlib.Core.Path.{◌≡◌, refl}
use mathlib.Core.Logic.{◌⊎◌, inl, inr}
use mathlib.Core.Bool.{Bool, true, false}
use mathlib.Core.List.{List, [], ◌∷◌}
use cluster_inventory_api.Common.Lists.{All}

pub data Fallible {ℓ} (E : Type 0) (A : Type ℓ) : Type ℓ where
  ok : A → Fallible E A
  err : E → Fallible E A

infixl 5 ◌>>=◌ ◌>>◌
abbrev pub ◌>>=◌ {ℓ κ} :
    {E : Type 0} {A : Type ℓ} {B : Type κ} → Fallible E A → (A → Fallible E B) → Fallible E B
ok value >>= next = next value
err fault >>= next = err fault

abbrev pub ◌>>◌ {ℓ} :
    {E : Type 0} {B : Type ℓ} → Fallible E (Unit {0}) → Fallible E B → Fallible E B
first >> second = first >>= λ _. second

-- if test { return err }
abbrev pub reject_if : {E : Type 0} → Bool → E → Fallible E (Unit {0})
reject_if true e = err e
reject_if false e = ok tt

-- for _, x := range xs { if err := f(x); err != nil { return err } }
unfoldable pub for_each {ℓ} :
    {E : Type 0} {A : Type ℓ} → (A → Fallible E (Unit {0})) → List A → Fallible E (Unit {0})
for_each f [] = ok tt
for_each f (x ∷ xs) = f x >> for_each f xs

module _ {κ} {E : Type 0} {B : Type κ} where
  pub >>-eq-ok :
      (m : Fallible E (Unit {0})) (k : Fallible E B) {b : B}
      → (m >> k) ≡ ok b
      → (m ≡ ok tt) × (k ≡ ok b)
  >>-eq-ok (ok u) k h = (refl, h)
  >>-eq-ok (err e) k h = cc

module _ {ℓ} {E : Type 0} {A : Type ℓ} where
  pub >>=-eq-ok {κ} :
      {B : Type κ} (first : Fallible E A) (next : A → Fallible E B) {result : B}
      → (first >>= next) ≡ ok result
      → (got : A) × (first ≡ ok got) × (next got ≡ ok result)
  >>=-eq-ok (ok got) next e = (got, refl, e)
  >>=-eq-ok (err fault) next e = cc

  pub ok_injective : (a b : A) → Path (Fallible E A) (ok a) (ok b) → a ≡ b
  ok_injective a b h = cc

  pub for_each-eq-ok :
      (f : A → Fallible E (Unit {0})) (xs : List A)
      → for_each f xs ≡ ok tt
      → All (λ x. f x ≡ ok tt) xs
  unfolding for_each
  for_each-eq-ok f [] h = tt
  for_each-eq-ok f (x ∷ xs) h =
      let (p, q) = >>-eq-ok (f x) (for_each f xs) h in (p, for_each-eq-ok f xs q)

  pub for_each-ok_of_All :
      (f : A → Fallible E (Unit {0})) (xs : List A)
      → All (λ x. f x ≡ ok tt) xs
      → for_each f xs ≡ ok tt
  unfolding for_each
  for_each-ok_of_All f [] h = refl
  for_each-ok_of_All f (x ∷ xs) (p, q) = rw p (for_each-ok_of_All f xs q)

-- What a passed guard leaves.
pub rejected-eq-ok :
    {E : Type 0} (test : Bool) (e : E) (k : Fallible E (Unit {0}))
    → (reject_if test e >> k) ≡ ok tt
    → (test ≡ false) × (k ≡ ok tt)
rejected-eq-ok true e k h = cc
rejected-eq-ok false e k h = (refl, h)

pub reject_if-eq-ok : {E : Type 0} (test : Bool) (e : E) → reject_if test e ≡ ok tt → test ≡ false
reject_if-eq-ok true e h = cc
reject_if-eq-ok false e h = refl

-- A row of checks: the first error is returned.
unfoldable pub first_error : {E : Type 0} → List (Fallible E (Unit {0})) → Fallible E (Unit {0})
first_error [] = ok tt
first_error (m ∷ rest) = m >> first_error rest

pub first_error-eq-ok :
    {E : Type 0} (ms : List (Fallible E (Unit {0})))
    → first_error ms ≡ ok tt
    → All (λ m. m ≡ ok tt) ms
unfolding first_error
first_error-eq-ok [] h = tt
first_error-eq-ok (m ∷ rest) h =
    let (p, q) = >>-eq-ok m (first_error rest) h in (p, first_error-eq-ok rest q)

pub first_error-ok_of_All :
    {E : Type 0} (ms : List (Fallible E (Unit {0})))
    → All (λ m. m ≡ ok tt) ms
    → first_error ms ≡ ok tt
unfolding first_error
first_error-ok_of_All [] h = refl
first_error-ok_of_All (m ∷ rest) (p, q) = rw p (first_error-ok_of_All rest q)

pub Fallible-cases {ℓ} :
    {E : Type 0} {A : Type ℓ} (m : Fallible E A) → ((a : A) × (m ≡ ok a)) ⊎ ((e : E) × (m ≡ err e))
Fallible-cases (ok a) = inl (a, refl)
Fallible-cases (err e) = inr (e, refl)
