-- ===== src/Conformance/Suite/Complete.antt =====
-- What the report of a run lists, wherever `Run` of conformance/suite.go ends.
use cluster_inventory_api.Common.{
  subst, String, ◌≡◌, inl, inr, refl, sym, ap, ap₂, Bool, Bool-cases, List, [], ◌∷◌, ◌++◌, map,
  Option, some, Fallible, ok, err,
}
use cluster_inventory_api.Conformance.Types.{
  Outcome, Requirement, TestResult, ProfileReport, ConformanceReport, Options,
}
use cluster_inventory_api.Conformance.Errors.{Error, error_text}
use cluster_inventory_api.Conformance.Catalog.{catalog}
use cluster_inventory_api.Conformance.Checks.{ApiError, Snapshot, outcome}
use cluster_inventory_api.Conformance.Checks.Outcomes.{check-IsSound}
use cluster_inventory_api.Conformance.Options.{defaults}
use cluster_inventory_api.Conformance.Platform.{Platform}
use cluster_inventory_api.Conformance.Report.{Verified}
use cluster_inventory_api.Conformance.Suite.Setup.{
  set_up-eq-ok, Stops, or_fail-Stops, unless-Stops, set_up-Stops,
}
use cluster_inventory_api.Conformance.Suite.{
  World, new_report, finish_profile, finish, append_tests, Stop, abort, fill_all, fail_setup,
  with_version, set_up, run_check, observed_report, conclude, ended, run, observe,
}

abbrev pub requirements : List TestResult → List Requirement
requirements = map (λ (t : TestResult). t.requirement)

-- One profile, and no test yet.
abbrev pub IsFresh : List ProfileReport → Type 0
IsFresh ps = (p : ProfileReport) × (ps ≡ p ∷ []) × (p.tests ≡ [])

-- One profile, with the catalog's checks in the catalog's order.
abbrev pub ListsCatalog : List ProfileReport → Type 0
ListsCatalog ps = (p : ProfileReport) × (ps ≡ p ∷ []) × (requirements p.tests ≡ catalog)

requirements_of_outcomes :
    (state : Outcome) (message : String) (reqs : List Requirement)
    → requirements (map (λ req. outcome req state message) reqs) ≡ reqs
unfolding outcome
requirements_of_outcomes state message [] = refl
requirements_of_outcomes state message (r ∷ rest) =
    ap (λ l. r ∷ l) (requirements_of_outcomes state message rest)

run_check-requirement :
    (chosen : Requirement → Bool) (s : Snapshot) (req : Requirement)
    → (run_check chosen s req).requirement ≡ req
run_check-requirement chosen s req = elim (Bool-cases (chosen req)) [
  | inl e ↦ unfold run_check in rw e (check-IsSound req s).about
  | inr e ↦ unfold run_check in rw e refl
]

requirements_of_checks :
    (chosen : Requirement → Bool) (s : Snapshot) (reqs : List Requirement)
    → requirements (map (run_check chosen s) reqs) ≡ reqs
requirements_of_checks chosen s [] = refl
requirements_of_checks chosen s (r ∷ rest) =
    ap₂ ◌∷◌ (run_check-requirement chosen s r) (requirements_of_checks chosen s rest)

appended :
    (tests : List TestResult) (ps : List ProfileReport)
    → requirements tests ≡ catalog
    → IsFresh ps
    → ListsCatalog (append_tests tests ps)
appended tests ps h (p, one, none_yet) =
    (record p { tests = p.tests ++ tests }, ap (append_tests tests) one, rw none_yet h)

finished : (ps : List ProfileReport) → ListsCatalog ps → ListsCatalog (map finish_profile ps)
unfolding finish_profile
finished ps (p, one, all) = (finish_profile p, ap (map finish_profile) one, all)

abort-ListsCatalog :
    (r : ConformanceReport) (e : Error)
    → ListsCatalog r.profiles
    → ListsCatalog (abort r e).report.profiles
unfolding abort finish
abort-ListsCatalog r e h = finished r.profiles h

fill_all-ListsCatalog :
    (state : Outcome) (message : String) (r : ConformanceReport)
    → IsFresh r.profiles
    → ListsCatalog (fill_all state message r).profiles
unfolding fill_all
fill_all-ListsCatalog state message r h =
    appended _ r.profiles (requirements_of_outcomes state message catalog) h

fail_setup-ListsCatalog :
    (r : ConformanceReport) (e : Error)
    → IsFresh r.profiles
    → ListsCatalog (fail_setup r e).report.profiles
unfolding fail_setup
fail_setup-ListsCatalog r e h =
    abort-ListsCatalog (fill_all Outcome.unknown (error_text e) r) e (fill_all-ListsCatalog _ _ r h)

with_version-IsFresh :
    (v : Fallible ApiError (Option String)) (r : ConformanceReport)
    → IsFresh r.profiles
    → IsFresh (with_version v r).profiles
unfolding with_version
with_version-IsFresh (ok (some v)) r h = h
with_version-IsFresh _ r h = h

new_report-IsFresh : (p : Platform) (w : World) (o : Options) → IsFresh (new_report p w o).profiles
unfolding new_report
new_report-IsFresh p w o = (_, refl, refl)

abbrev Listed : Stop → Type 0
Listed stop = ListsCatalog stop.report.profiles

set_up-Listed :
    (p : Platform) (w : World) (o : Options) (r : ConformanceReport)
    → IsFresh r.profiles
    → Stops Listed (set_up p w o r)
set_up-Listed p w o r h =
    let v = with_version-IsFresh w.server_version r h in
    set_up-Stops Listed p w o r (or_fail-Stops Listed r _ (λ e _. fail_setup-ListsCatalog r e h))
      (λ text e. fail_setup-ListsCatalog r _ h)
      (λ filter. (
        unless-Stops Listed _ _ (abort-ListsCatalog _ _ (fill_all-ListsCatalog _ _ r h)),
        (
          or_fail-Stops Listed r _ (λ e _. fail_setup-ListsCatalog r e h),
          (
            or_fail-Stops Listed r _ (λ e _. fail_setup-ListsCatalog r e h),
            (
              or_fail-Stops Listed _ _ (λ e _. fail_setup-ListsCatalog _ e v),
              (or_fail-Stops Listed _ _ (λ e _. fail_setup-ListsCatalog _ e v), tt),
            ),
          ),
        ),
      ))

conclude-ListsCatalog :
    (r : ConformanceReport) (m : Verified)
    → ListsCatalog r.profiles
    → ListsCatalog (conclude r m).0.profiles
unfolding conclude
conclude-ListsCatalog r (ok u) h = h
conclude-ListsCatalog r (err e) h = abort-ListsCatalog r e h

observed-ListsCatalog :
    (o : Options) (r : ConformanceReport) (chosen : Requirement → Bool) (s : Snapshot)
    → IsFresh r.profiles
    → ListsCatalog (observed_report o r chosen s).profiles
unfolding observed_report
observed-ListsCatalog o r chosen s h =
    finished _ (appended _ r.profiles (requirements_of_checks chosen s catalog) h)

ended-ListsCatalog :
    (p : Platform) (w : World) (o : Options) (r : ConformanceReport)
    (m : Fallible Stop (ConformanceReport × (Requirement → Bool)))
    → set_up p w o r ≡ m
    → IsFresh r.profiles
    → Stops Listed m
    → ListsCatalog (ended p w o m).0.profiles
ended-ListsCatalog p w o r (err stop) e fresh h = h
ended-ListsCatalog p w o r (ok (r', chosen)) e fresh h =
    let (same, _) = set_up-eq-ok p w o r e in
    conclude-ListsCatalog _ _ (
      observed-ListsCatalog o r' chosen (observe w o) (
        subst (λ x. IsFresh x.profiles) (sym same) (with_version-IsFresh w.server_version r fresh)))

-- Whatever the options and the world, and wherever the run ends, its report has one profile, whose
-- tests are for the catalog's requirements in the catalog's order.
pub run-ListsCatalog :
    (p : Platform) (w : World) (options : Options) → ListsCatalog (run p w options).0.profiles
unfolding run
run-ListsCatalog p w options =
    let o = defaults options in
    let r = new_report p w o in
    let fresh = new_report-IsFresh p w o in
    ended-ListsCatalog p w o r (set_up p w o r) refl fresh (set_up-Listed p w o r fresh)
