-- ===== src/Conformance/Summary/Counts.antt =====
-- The statistics of `summarize`.
use cluster_inventory_api.Common.{
  ℕ, ◌+◌, ◌≡◌, refl, String, Bool, true, false, List, [], ◌∷◌, All, length, if◌then◌else◌, arith,
}
use cluster_inventory_api.Conformance.Types.{Outcome, TestResult, Statistics}
use cluster_inventory_api.Conformance.Summary.{
  record_outcome, Tally, tally_test, tally, empty_tally, summarize,
}
use cluster_inventory_api.Conformance.Summary.Verdict.{is_unknown, is_skipped}

abbrev pub is_passed : Outcome → Bool
is_passed Outcome.passed = true
is_passed _ = false

abbrev pub is_failed : Outcome → Bool
is_failed Outcome.failed = true
is_failed _ = false

abbrev pub is_not_supported : Outcome → Bool
is_not_supported Outcome.not_supported = true
is_not_supported _ = false

-- How many tests have such an outcome.
abbrev pub count : (Outcome → Bool) → List TestResult → ℕ
count p [] = 0
count p (t ∷ rest) = if p t.outcome then count p rest + 1 else count p rest

-- Each counter of `b` is that of `a` and the tests' share.
record Adds (a b : Statistics) (tests : List TestResult) : Type 0 where
  passed : b.passed ≡ a.passed + count is_passed tests
  failed : b.failed ≡ a.failed + count is_failed tests
  skipped : b.skipped ≡ a.skipped + count is_skipped tests
  unknown : b.unknown ≡ a.unknown + count is_unknown tests
  not_supported : b.not_supported ≡ a.not_supported + count is_not_supported tests
  total : b.total ≡ a.total

record_outcome-Adds :
    (t : TestResult) (rest : List TestResult) (a b : Statistics)
    → Adds (record_outcome t.outcome a) b rest
    → Adds a b (t ∷ rest)
unfolding record_outcome
record_outcome-Adds t rest a b h = ground arith

tally_test-stats :
    (supported : List String) (t : TestResult) (s : Tally)
    → (tally_test supported t s).stats ≡ record_outcome t.outcome s.stats
unfolding tally_test
tally_test-stats supported t s = ground arith

tally-Adds :
    (supported : List String) (tests : List TestResult) (s : Tally)
    → Adds s.stats (tally supported tests s).stats tests
unfolding tally
tally-Adds supported [] s = ground arith
tally-Adds supported (t ∷ rest) s =
    record_outcome-Adds t rest s.stats _ (
      rw (tally_test-stats supported t s) at (tally-Adds supported rest (tally_test supported t s)))

-- Each counter of the summary is the number of tests with that outcome, gating or not, and the
-- total is the number of tests.
pub summarize-counts :
    (tests : List TestResult) (supported : List String)
    → let s = (summarize tests supported).0 in
      (s.passed ≡ count is_passed tests)
      × (s.failed ≡ count is_failed tests)
      × (s.skipped ≡ count is_skipped tests)
      × (s.unknown ≡ count is_unknown tests)
      × (s.not_supported ≡ count is_not_supported tests)
      × (s.total ≡ length tests)
unfolding summarize
summarize-counts tests supported =
    let h = tally-Adds supported tests (empty_tally (length tests)) in omega arith

-- An outcome that is one of the five.
abbrev pub IsKnown : Outcome → Type 0
IsKnown (Outcome.other s) = ⊥
IsKnown _ = Unit

counts-length :
    (tests : List TestResult)
    → All (λ (t : TestResult). IsKnown t.outcome) tests
    → count is_passed tests
        + count is_failed tests
        + count is_skipped tests
        + count is_unknown tests
        + count is_not_supported tests
      ≡ length tests
counts-length [] h = refl
counts-length (t ∷ rest) (k, h) = ground (arith, counts-length rest h)

-- Where every outcome is one of the five, the five counters add up to the total.
summarize-total :
    (tests : List TestResult) (supported : List String)
    → All (λ (t : TestResult). IsKnown t.outcome) tests
    → let s = (summarize tests supported).0 in
      s.passed + s.failed + s.skipped + s.unknown + s.not_supported ≡ s.total
summarize-total tests supported known =
    let (a, b, c, d, e, f) = summarize-counts tests supported in
    omega (arith, counts-length tests known)
