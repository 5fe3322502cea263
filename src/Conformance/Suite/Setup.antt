-- ===== src/Conformance/Suite/Setup.antt =====
-- Early ends of `Run`: a rule for the stages of the set-up, and what the set-up hands on.
use cluster_inventory_api.Common.{
  String, ◌≡◌, refl, Bool, true, false, List, [], ◌∷◌, All, Fallible, ok, err, ◌>>=◌, first_error,
  >>-eq-ok, >>=-eq-ok,
}
use cluster_inventory_api.Conformance.Types.{Requirement, ConformanceReport, Options}
use cluster_inventory_api.Conformance.Errors.{Error, run_fault, invalid_filter}
use cluster_inventory_api.Conformance.Options.{validate_options}
use cluster_inventory_api.Conformance.Platform.{Platform}
use cluster_inventory_api.Conformance.Report.{Verified, lift_option}
use cluster_inventory_api.Conformance.Report.Accepted.{lift_option-eq-ok}
use cluster_inventory_api.Conformance.Suite.{
  World, Stop, fail_setup, or_fail, parsed, unless, with_version, set_up_steps, set_up,
}

-- If the stage stops, it stops with `P`.
abbrev pub Stops {ℓ} : {A : Type ℓ} → (Stop → Type 0) → Fallible Stop A → Type 0
Stops P (err stop) = P stop
Stops P (ok a) = Unit

module _ (P : Stop → Type 0) where
  pub or_fail-Stops :
      (r : ConformanceReport) (m : Verified)
      → ((e : Error) → m ≡ err e → P (fail_setup r e))
      → Stops P (or_fail r m)
  or_fail-Stops r (ok u) h = tt
  or_fail-Stops r (err e) h = h e refl

  pub unless-Stops : (test : Bool) (stop : Stop) → P stop → Stops P (unless test (err stop))
  unless-Stops true stop h = tt
  unless-Stops false stop h = h

  first_error-Stops :
      (ms : List (Fallible Stop (Unit {0}))) → All (λ m. Stops P m) ms → Stops P (first_error ms)
  unfolding first_error
  first_error-Stops [] h = tt
  first_error-Stops (ok u ∷ ms) (p, h) = first_error-Stops ms h
  first_error-Stops (err stop ∷ ms) (p, h) = p

  bind-Stops {ℓ κ} :
      {A : Type ℓ} {B : Type κ} (m : Fallible Stop A) (k : A → Fallible Stop B)
      → Stops P m
      → ((a : A) → m ≡ ok a → Stops P (k a))
      → Stops P (m >>= k)
  bind-Stops (ok a) k p h = h a refl
  bind-Stops (err stop) k p h = p

  parsed-Stops :
      (r : ConformanceReport) (m : Fallible String (List String → Bool))
      → ((text : String) → m ≡ err text → P (fail_setup r (run_fault (invalid_filter text))))
      → Stops P (parsed r m)
  parsed-Stops r (ok filter) h = tt
  parsed-Stops r (err text) h = h text refl

  module _ (p : Platform) (w : World) (o : Options) (r : ConformanceReport) where
    -- Each stage stops with `P`: then so does the set-up.
    pub set_up-Stops :
        Stops P (or_fail r (lift_option (validate_options o)))
        → ((text : String)
            → w.parse_filter o.test_filter ≡ err text
            → P (fail_setup r (run_fault (invalid_filter text))))
        → ((filter : List String → Bool) → All (λ m. Stops P m) (set_up_steps p w o r filter))
        → Stops P (set_up p w o r)
    unfolding set_up
    set_up-Stops first parse rest = bind-Stops _ _ first (λ u valid.
        bind-Stops (parsed r (w.parse_filter o.test_filter)) _
          (parsed-Stops r (w.parse_filter o.test_filter) parse)
          (λ filter e.
            bind-Stops _ _ (first_error-Stops (set_up_steps p w o r filter) (rest filter))
              (λ u e. tt)))

or_fail-eq-ok : (r : ConformanceReport) (m : Verified) → or_fail r m ≡ ok tt → m ≡ ok tt
or_fail-eq-ok r (ok u) h = refl
or_fail-eq-ok r (err e) h = cc

-- A set-up that goes on has only added the server's version.
pub set_up-eq-ok :
    (p : Platform) (w : World) (o : Options) (r : ConformanceReport)
    {end : ConformanceReport × (Requirement → Bool)}
    → set_up p w o r ≡ ok end
    → (end.0 ≡ with_version w.server_version r) × (validate_options o ≡ ok tt)
unfolding set_up
set_up-eq-ok p w o r h =
    let (valid, h₁) = >>-eq-ok (or_fail r (lift_option (validate_options o))) _ h in
    let (filter, _, h₂) = >>=-eq-ok (parsed r (w.parse_filter o.test_filter)) _ h₁ in
    let (_, h₃) = >>-eq-ok (first_error (set_up_steps p w o r filter)) _ h₂ in
    (cc h₃, lift_option-eq-ok (validate_options o) (or_fail-eq-ok r _ valid))
