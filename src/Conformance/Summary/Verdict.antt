-- ===== src/Conformance/Summary/Verdict.antt =====
-- The result of `summarize` against a description that reads no order.
use cluster_inventory_api.Common.{
  ◌≡◌, refl, ◌∙◌, String, Bool, true, false, not, ◌&&◌, ◌||◌, List, [], ◌∷◌, any, nat_eq,
  if◌then◌else◌, arith, length, Bool-cases, inl, inr,
}
use cluster_inventory_api.Conformance.Types.{
  Outcome, Result, success, failure, partial, undetermined, TestResult,
}
use cluster_inventory_api.Conformance.Summary.{
  gate, combine, worsen, Tally, tally_test, tally, empty_tally, summarize,
}

abbrev pub fails : Outcome → Bool
fails Outcome.failed = true
fails Outcome.not_supported = true
fails _ = false

abbrev pub is_unknown : Outcome → Bool
is_unknown Outcome.unknown = true
is_unknown _ = false

abbrev pub is_skipped : Outcome → Bool
is_skipped Outcome.skipped = true
is_skipped _ = false

-- Some test that gates has such an outcome.
abbrev pub some_gated : (Outcome → Bool) → List TestResult → List String → Bool
some_gated p tests supported = any (λ t. gate t supported && p t.outcome) tests

abbrev pub some_gates : List TestResult → List String → Bool
some_gates tests supported = any (λ t. gate t supported) tests

-- A failing check decides; else one that is not determined, or no check at all; else a skipped one.
abbrev pub verdict : List TestResult → List String → Result
verdict tests supported =
    if some_gated fails tests supported
    then failure
    else if some_gated is_unknown tests supported || not (some_gates tests supported)
    then undetermined
    else if some_gated is_skipped tests supported
    then partial
    else success

-- The loop's result from a start: the worst of the start and the outcomes that gate.
abbrev worst_from : Result → (fail undecided skip : Bool) → Result
worst_from start fail undecided skip =
    if fail
    then combine start failure
    else if undecided
    then combine start undetermined
    else if skip
    then combine start partial
    else start

worst_from-worsen :
    (outcome : Outcome) (start : Result) (fail undecided skip : Bool)
    → worst_from (worsen outcome start) fail undecided skip
      ≡ worst_from start
          (fails outcome || fail)
          (is_unknown outcome || undecided)
          (is_skipped outcome || skip)
unfolding worsen
worst_from-worsen Outcome.passed start fail undecided skip = ground arith
worst_from-worsen Outcome.failed start fail undecided skip = ground arith
worst_from-worsen Outcome.skipped start fail undecided skip = ground arith
worst_from-worsen Outcome.unknown start fail undecided skip = ground arith
worst_from-worsen Outcome.not_supported start fail undecided skip = ground arith
worst_from-worsen (Outcome.other s) start fail undecided skip = ground arith

-- One round of the loop, whether or not the test gates.
tally_test-result :
    (supported : List String) (t : TestResult) (s : Tally) (fail undecided skip : Bool)
    → worst_from (tally_test supported t s).result fail undecided skip
      ≡ worst_from s.result
          (gate t supported && fails t.outcome || fail)
          (gate t supported && is_unknown t.outcome || undecided)
          (gate t supported && is_skipped t.outcome || skip)
tally_test-result supported t s fail undecided skip = elim (Bool-cases (gate t supported)) [
  | inl e ↦ unfold tally_test in rw e (worst_from-worsen t.outcome s.result fail undecided skip)
  | inr e ↦ unfold tally_test in rw e refl
]

tally-result :
    (supported : List String) (tests : List TestResult) (s : Tally)
    → (tally supported tests s).result
      ≡ worst_from s.result
          (some_gated fails tests supported)
          (some_gated is_unknown tests supported)
          (some_gated is_skipped tests supported)
unfolding tally any
tally-result supported [] s = refl
tally-result supported (t ∷ rest) s =
    tally-result supported rest (tally_test supported t s) ∙ tally_test-result supported t s _ _ _

tally-gated :
    (supported : List String) (tests : List TestResult) (s : Tally)
    → nat_eq (tally supported tests s).gated 0
      ≡ (nat_eq s.gated 0 && not (some_gates tests supported))
unfolding tally any
tally-gated supported [] s = ground arith
tally-gated supported (t ∷ rest) s =
    tally-gated supported rest (tally_test supported t s) ∙ ground arith

-- The result of `summarize` is that of the description `verdict`, for any tests and any claims: the
-- worst outcome among the checks that gate, and undetermined where none gates.
pub summarize-eq-verdict :
    (tests : List TestResult) (supported : List String)
    → (summarize tests supported).1 ≡ verdict tests supported
unfolding summarize combine
summarize-eq-verdict tests supported = ground (
  arith,
  tally-result supported tests (empty_tally (length tests)),
  tally-gated supported tests (empty_tally (length tests)),
)
