-- ===== src/Conformance/Suite/Checked.antt =====
-- The rows that Run writes: outcomes filled in, and those of the checks chosen.
use cluster_inventory_api.Common.{
  String, ◌≡◌, ◌⊎◌, refl, inl, inr, Bool, Bool-cases, true, false, not, ◌&&◌, List, [], ◌∷◌, map,
  All, has_ink, is_space, is_blank, ink-not_blank, arith,
}
use cluster_inventory_api.Conformance.Types.{
  Outcome, passed, not_supported, Requirement, optional, TestResult,
}
use cluster_inventory_api.Conformance.Checks.{Snapshot, outcome, check}
use cluster_inventory_api.Conformance.Checks.Outcomes.{IsSound, check-IsSound}
use cluster_inventory_api.Conformance.Checks.Claims.{Fits, IsFirm, check-Fits}
use cluster_inventory_api.Conformance.Summary.Counts.{IsKnown}
use cluster_inventory_api.Conformance.Report.{is_other, is_passed, is_not_supported}
use cluster_inventory_api.Conformance.Suite.{excluded_by_filter, run_check}
use cluster_inventory_api.Conformance.Suite.Rows.{IsRow, AreRows}

-- An outcome that any requirement may have, with a reason.
abbrev pub IsPlain : Outcome → Type 0
IsPlain o = (is_other o ≡ false) × (is_not_supported o ≡ false)

pub AreRows-outcomes :
    (state : Outcome) (message : String) (reqs : List Requirement)
    → IsPlain state
    → has_ink message ≡ true
    → AreRows reqs (map (λ req. outcome req state message) reqs)
unfolding outcome
AreRows-outcomes state message [] h ink = tt
AreRows-outcomes state message (r ∷ reqs) h ink = (
  record {
    about = refl;
    known = h.0;
    reasoned = rw (ink-not_blank message ink) (ground arith);
    claimed = rw h.1 refl;
  },
  AreRows-outcomes state message reqs h ink,
)

known_not_other : (o : Outcome) → IsKnown o → is_other o ≡ false
known_not_other (Outcome.other s) h = absurd h
known_not_other Outcome.passed h = refl
known_not_other _ h = refl

reasoned_of :
    (o : Outcome) (message : String)
    → (o ≡ passed) ⊎ (has_ink message ≡ true)
    → not (is_passed o) && is_blank message ≡ false
reasoned_of o message (inl e) = rw e refl
reasoned_of o message (inr e) = rw (ink-not_blank message e) (ground arith)

claimed_of :
    (o : Outcome) (allowed : Bool)
    → (o ≡ not_supported → allowed ≡ true)
    → is_not_supported o && not allowed ≡ false
claimed_of Outcome.not_supported allowed h = rw (h refl) refl
claimed_of Outcome.passed allowed h = refl
claimed_of _ allowed h = refl

IsRow-sound : (req : Requirement) (t : TestResult) → IsSound req t → Fits req t → IsRow req t
IsRow-sound req t s f = record {
  about = s.about;
  known = known_not_other t.outcome s.known;
  reasoned = reasoned_of t.outcome t.message s.reasoned;
  claimed = claimed_of t.outcome (optional req) f.claimed;
}

run_check-IsRow :
    (chosen : Requirement → Bool) (s : Snapshot) (req : Requirement)
    → IsFirm req
    → IsRow req (run_check chosen s req)
run_check-IsRow chosen s req firm = elim (Bool-cases (chosen req)) [
  | inl e ↦
      unfold run_check in
      rw e (IsRow-sound req (check req s) (check-IsSound req s) (check-Fits req s firm))
  | inr e ↦
      unfold run_check outcome in
      rw e (record {
        about = refl;
        known = refl;
        reasoned = unfold has_ink is_space in ink-not_blank excluded_by_filter refl;
        claimed = refl;
      })
]

pub AreRows-checks :
    (chosen : Requirement → Bool) (s : Snapshot) (reqs : List Requirement)
    → All IsFirm reqs
    → AreRows reqs (map (run_check chosen s) reqs)
AreRows-checks chosen s [] h = tt
AreRows-checks chosen s (r ∷ reqs) (f, h) =
    (run_check-IsRow chosen s r f, AreRows-checks chosen s reqs h)
