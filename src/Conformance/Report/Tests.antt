-- ===== src/Conformance/Report/Tests.antt =====
-- The tests of a profile that `validateProfile` accepts.
use mathlib.Core.List.{Perm}
use cluster_inventory_api.Common.{
  String, ◌≡◌, ◌≢◌, ◌⊎◌, inl, inr, refl, ap, sym, Bool, Bool-cases, true, false, not, List, [], ◌∷◌,
  map, ◌==◌, length, length-map, find, contains, is_blank, All, In, Distinct, ok, >>-eq-ok, eq_iff,
  arith, ◌&&◌, ◌∙◌, rejected-eq-ok, reject_if-eq-ok,
}
use cluster_inventory_api.Common.Lists.Pigeon.{perm_of_Distinct}
use cluster_inventory_api.Conformance.Types.{
  Outcome, passed, not_supported, Requirement, optional, TestResult,
}
use cluster_inventory_api.Conformance.Catalog.{catalog}
use cluster_inventory_api.Conformance.Summary.Counts.{IsKnown}
use cluster_inventory_api.Conformance.Report.{
  same_requirement, is_other, is_passed, is_not_supported, differs_from_catalog, validate_test,
  scan_tests,
}

-- A test that follows the rules of a report: its requirement is the catalog's, its outcome is one
-- of the five, it gives a reason unless it passed, and only an optional check is not supported.
pub record IsReported (t : TestResult) : Type 0 where
  pub listed : In t.requirement catalog
  pub known : IsKnown t.outcome
  pub reasoned : (t.outcome ≡ passed) ⊎ (is_blank t.message ≡ false)
  pub claimed : t.outcome ≡ not_supported → optional t.requirement ≡ true

same_requirement_eq : (a b : Requirement) → same_requirement a b ≡ true → a ≡ b
unfolding same_requirement
same_requirement_eq a b h = ground (
  arith,
  eq_iff a.id b.id,
  eq_iff a.description b.description,
  eq_iff a.level b.level,
  eq_iff a.feature b.feature,
  eq_iff a.scope b.scope,
  eq_iff a.ref b.ref,
)

find_listed :
    (p : Requirement → Bool) (r : Requirement) (rs : List Requirement)
    → differs_from_catalog r (find p rs) ≡ false
    → In r rs
unfolding find
find_listed p r [] h = absurd (ground arith)
find_listed p r (s ∷ rs) h = elim (Bool-cases (p s)) [
  | inl e ↦ inl (sym (same_requirement_eq r s (ground arith)))
  | inr e ↦ inr (find_listed p r rs (rw e at h))
]

reasoned_of :
    (o : Outcome) (blank : Bool)
    → not (is_passed o) && blank ≡ false
    → (o ≡ passed) ⊎ (blank ≡ false)
reasoned_of passed blank h = inl refl
reasoned_of _ false h = inr refl
reasoned_of _ true h = ground arith

IsKnown-of : (o : Outcome) → is_other o ≡ false → IsKnown o
IsKnown-of (Outcome.other s) h = cc
IsKnown-of _ h = tt

claimed_of :
    (o : Outcome) (claimable : Bool)
    → is_not_supported o && not claimable ≡ false
    → o ≡ not_supported
    → claimable ≡ true
claimed_of o claimable h e = ground arith

validate_test-IsReported : (t : TestResult) → validate_test t ≡ ok tt → IsReported t
unfolding validate_test
validate_test-IsReported t h =
    let (a, h₁) = rejected-eq-ok _ _ _ h in
    let (b, h₂) = rejected-eq-ok _ _ _ h₁ in
    let (c, d) = rejected-eq-ok _ _ _ h₂ in
    record {
      listed = find_listed (λ req. req.id == t.requirement.id) t.requirement catalog a;
      known = IsKnown-of t.outcome b;
      reasoned = reasoned_of t.outcome (is_blank t.message) c;
      claimed = claimed_of t.outcome (optional t.requirement) (reject_if-eq-ok _ _ d);
    }

-- The identifiers of the tests, in order.
abbrev pub ids : List TestResult → List String
ids [] = []
ids (t ∷ rest) = t.requirement.id ∷ ids rest

-- No identifier was seen before.
abbrev AllNew : List String → List TestResult → Type 0
AllNew seen tests = All (λ id. contains seen id ≡ false) (ids tests)

new_tail :
    (seen : List String) (id : String) (rest : List TestResult)
    → AllNew (id ∷ seen) rest
    → AllNew seen rest × All (λ j. j ≢ id) (ids rest)
unfolding contains
new_tail seen id [] h = (tt, tt)
new_tail seen id (t ∷ rest) (e, h) =
    let (a, b) = new_tail seen id rest h in
    ((ground arith, a), ((λ same. ground (arith, eq_iff id t.requirement.id)), b))

scan_tests_sound :
    (seen : List String) (tests : List TestResult)
    → scan_tests seen tests ≡ ok tt
    → All IsReported tests × AllNew seen tests × Distinct (ids tests)
unfolding scan_tests
scan_tests_sound seen [] h = (tt, tt, tt)
scan_tests_sound seen (t ∷ rest) h = elim (Bool-cases (contains seen t.requirement.id)) [
  | inl e ↦ absurd (cc (rw e at h))
  | inr e ↦
      let (a, b) = >>-eq-ok (validate_test t) _ (rw e at h) in
      let (c, d, k) = scan_tests_sound (t.requirement.id ∷ seen) rest b in
      let (f, g) = new_tail seen t.requirement.id rest d in
      ((validate_test-IsReported t a, c), (e, f), (g, k))
]

Distinct-requirements :
    (tests : List TestResult)
    → Distinct (ids tests)
    → Distinct (map (λ (t : TestResult). t.requirement) tests)
Distinct-requirements [] h = tt
Distinct-requirements (t ∷ rest) (n, h) = (other_ids t rest n, Distinct-requirements rest h)
  where
    other_ids :
        (t : TestResult) (rest : List TestResult)
        → All (λ j. j ≢ t.requirement.id) (ids rest)
        → All (λ r. r ≢ t.requirement) (map (λ (t : TestResult). t.requirement) rest)
    other_ids t [] n = tt
    other_ids t (u ∷ rest) (n, m) =
        ((λ e. n (ap (λ (r : Requirement). r.id) e)), other_ids t rest m)

All-listed :
    (tests : List TestResult)
    → All IsReported tests
    → All (λ r. In r catalog) (map (λ (t : TestResult). t.requirement) tests)
All-listed [] h = tt
All-listed (t ∷ rest) (k, h) = (k.listed, All-listed rest h)

-- Accepted tests, as many as the catalog has checks, are the catalog's checks in some order, each
-- once and unmodified.
pub scan_tests-perm :
    (tests : List TestResult)
    → scan_tests [] tests ≡ ok tt
    → length tests ≡ length catalog
    → All IsReported tests × Perm (map (λ (t : TestResult). t.requirement) tests) catalog
scan_tests-perm tests h e =
    let (a, b, d) = scan_tests_sound [] tests h in
    (
      a,
      perm_of_Distinct _ catalog (Distinct-requirements tests d) (All-listed tests a)
          (length-map (λ (t : TestResult). t.requirement) tests ∙ e),
    )
