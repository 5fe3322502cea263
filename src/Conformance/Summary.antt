-- ===== src/Conformance/Summary.antt =====
-- The statistics and results of a report: the end of conformance/catalog.go.
pub mod Verdict
pub mod Counts
pub mod Overall
use cluster_inventory_api.Common.{
  ℕ, suc, ◌+◌, String, Bool, ◌||◌, not, List, [], ◌∷◌, contains, length, ltb, nat_eq, is_empty,
  if◌then◌else◌,
}
use cluster_inventory_api.Conformance.Types.{
  Outcome, Result, success, failure, partial, undetermined, optional, TestResult, Statistics,
  ProfileReport, ConformanceReport,
}

unfoldable pub gate : TestResult → List String → Bool
gate t supported = not (optional t.requirement) || contains supported t.requirement.feature

-- A missing key of a Go map reads as zero.
unfoldable pub result_rank : Result → ℕ
result_rank success = 0
result_rank partial = 1
result_rank undetermined = 2
result_rank failure = 3
result_rank (Result.other s) = 0

unfoldable pub combine : Result → Result → Result
unfolding result_rank
combine a b = if ltb (result_rank a) (result_rank b) then b else a

-- The first switch of the loop of `summarize`.
unfoldable pub record_outcome : Outcome → Statistics → Statistics
record_outcome Outcome.passed s = record s { passed = s.passed + 1 }
record_outcome Outcome.failed s = record s { failed = s.failed + 1 }
record_outcome Outcome.skipped s = record s { skipped = s.skipped + 1 }
record_outcome Outcome.unknown s = record s { unknown = s.unknown + 1 }
record_outcome Outcome.not_supported s = record s { not_supported = s.not_supported + 1 }
record_outcome (Outcome.other text) s = s

-- The second switch, for a test that gates.
unfoldable pub worsen : Outcome → Result → Result
unfolding combine
worsen Outcome.failed result = combine result failure
worsen Outcome.not_supported result = combine result failure
worsen Outcome.unknown result = combine result undetermined
worsen Outcome.skipped result = combine result partial
worsen Outcome.passed result = result
worsen (Outcome.other text) result = result

-- The variables of the loop.
pub record Tally : Type 0 where
  pub stats : Statistics
  pub result : Result
  pub gated : ℕ

unfoldable pub tally_test : List String → TestResult → Tally → Tally
unfolding record_outcome worsen gate
tally_test supported t s =
    let stats = record_outcome t.outcome s.stats in
    if gate t supported
    then record { stats = stats; result = worsen t.outcome s.result; gated = s.gated + 1 }
    else record { stats = stats; result = s.result; gated = s.gated }

unfoldable pub tally : List String → List TestResult → Tally → Tally
unfolding tally_test
tally supported [] s = s
tally supported (t ∷ rest) s = tally supported rest (tally_test supported t s)

abbrev pub empty_tally : ℕ → Tally
empty_tally total = record {
  stats = record {
    passed = 0;
    failed = 0;
    skipped = 0;
    unknown = 0;
    not_supported = 0;
    total = total;
  };
  result = success;
  gated = 0;
}

unfoldable pub summarize : List TestResult → List String → Statistics × Result
unfolding tally
summarize tests supported =
    let end = tally supported tests (empty_tally (length tests)) in
    (end.stats, if nat_eq end.gated 0 then combine end.result undetermined else end.result)

-- The loop of `overall` over the profiles.
unfoldable pub combine_profiles : Result → List ProfileReport → Result
unfolding combine
combine_profiles result [] = result
combine_profiles result (p ∷ rest) = combine_profiles (combine result p.result) rest

unfoldable pub overall_of : List ProfileReport → List String → Result
unfolding combine_profiles
overall_of profiles errors =
    let start = if is_empty profiles then undetermined else success in
    let result = combine_profiles start profiles in
    if is_empty errors then result else combine result undetermined

unfoldable pub overall : ConformanceReport → Result
unfolding overall_of
overall r = overall_of r.profiles r.errors
