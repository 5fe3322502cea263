-- ===== src/Conformance/Suite/Succeeds.antt =====
-- The error of `Run` and the result of its report.
use cluster_inventory_api.Common.{
  String, ◌≡◌, ◌≢◌, ◌↔◌, List, [], ◌∷◌, ◌++◌, map, Bool, none, Fallible, ok, err, arith,
}
use cluster_inventory_api.Conformance.Types.{
  Outcome, success, Requirement, ConformanceReport, Options,
}
use cluster_inventory_api.Conformance.Errors.{Error, error_text}
use cluster_inventory_api.Conformance.Summary.Overall.{overall_of-success}
use cluster_inventory_api.Conformance.Options.{defaults}
use cluster_inventory_api.Conformance.Platform.{Platform}
use cluster_inventory_api.Conformance.Report.{Verified}
use cluster_inventory_api.Conformance.Suite.{
  World, new_report, finish, finish_profile, Stop, abort, fill_all, fail_setup, set_up, conclude,
  ended, run,
}
use cluster_inventory_api.Conformance.Suite.Setup.{Stops, or_fail-Stops, unless-Stops, set_up-Stops}

some_entry : (xs : List String) (x : String) → xs ++ x ∷ [] ≢ []
some_entry [] x h = cc
some_entry (y ∷ xs) x h = cc

-- A report with an error is no success.
abort-fails : (r : ConformanceReport) (e : Error) → (abort r e).report.result ≢ success
unfolding abort finish
abort-fails r e h =
    let errors = r.errors ++ error_text e ∷ [] in
    let (_, _, none_left) = (overall_of-success (map finish_profile r.profiles) errors).0 h in
    some_entry r.errors (error_text e) none_left

abbrev Fails : Stop → Type 0
Fails stop = stop.report.result ≢ success

fail_setup-Fails : (r : ConformanceReport) (e : Error) → Fails (fail_setup r e)
unfolding fail_setup
fail_setup-Fails r e = abort-fails (fill_all Outcome.unknown (error_text e) r) e

set_up-Fails :
    (p : Platform) (w : World) (o : Options) (r : ConformanceReport) → Stops Fails (set_up p w o r)
set_up-Fails p w o r =
    let step = λ (x : ConformanceReport) (m : Verified).
      or_fail-Stops Fails x m (λ e _. fail_setup-Fails x e) in
    set_up-Stops Fails p w o r (step r _) (λ text e. fail_setup-Fails r _)
      (λ filter. (
        unless-Stops Fails _ _ (abort-fails _ _),
        (step r _, (step r _, (step _ _, (step _ _, tt)))),
      ))

conclude-success_iff :
    (r : ConformanceReport) (m : Verified)
    → ((conclude r m).1 ≡ none) ↔ ((conclude r m).0.result ≡ success)
unfolding conclude
conclude-success_iff r (ok u) = ((λ h. ground arith), (λ h. ground arith))
conclude-success_iff r (err e) = ((λ h. cc), (λ h. absurd (abort-fails r e h)))

ended-success_iff :
    (p : Platform) (w : World) (o : Options)
    (m : Fallible Stop (ConformanceReport × (Requirement → Bool)))
    → Stops Fails m
    → ((ended p w o m).1 ≡ none) ↔ ((ended p w o m).0.result ≡ success)
ended-success_iff p w o (err stop) h = ((λ e. cc), (λ e. absurd (h e)))
ended-success_iff p w o (ok (r, chosen)) h = conclude-success_iff _ _

-- A run returns no error exactly when its report's result is success, in every mode and however
-- the run ends.
pub run-success_iff :
    (p : Platform) (w : World) (options : Options)
    → ((run p w options).1 ≡ none) ↔ ((run p w options).0.result ≡ success)
unfolding run
run-success_iff p w options =
    let o = defaults options in
    ended-success_iff p w o (set_up p w o (new_report p w o))
      (set_up-Fails p w o (new_report p w o))
