-- ===== src/Conformance/Report/Accepted.antt =====
-- What ValidateReport has established when it accepts a report.
use mathlib.Core.List.{Perm}
use cluster_inventory_api.Common.{
  ap, ◌∙◌, ◌≡◌, ◌≢◌, refl, sym, Bool, true, false, not, ◌||◌, List, [], ◌∷◌, map, is_empty, All, ok,
  err, >>-eq-ok, >>=-eq-ok, first_error, first_error-eq-ok, reject_if-eq-ok, arith, str_eq→eq,
  Fallible,
}
use cluster_inventory_api.Conformance.Types.{
  result_text, TestResult, Statistics, ProfileReport, ConformanceReport,
}
use cluster_inventory_api.Conformance.Catalog.{catalog}
use cluster_inventory_api.Conformance.Errors.{OptionFault}
use cluster_inventory_api.Conformance.Summary.{summarize, overall}
use cluster_inventory_api.Conformance.Summary.Verdict.{verdict, summarize-eq-verdict}
use cluster_inventory_api.Conformance.Options.{submission, validate_features}
use cluster_inventory_api.Conformance.Platform.{Platform}
use cluster_inventory_api.Conformance.Report.{
  lift_option, only_profile, same_statistics, validate_profile, metadata_list, validate_metadata,
  is_publishable, validate_submission, validate_development, validate_report, profile_steps,
  submission_steps, header_steps, body_steps,
}
use cluster_inventory_api.Conformance.Report.Tests.{IsReported, scan_tests-perm}

-- A profile whose tests are the catalog's checks, each once, and whose summary is theirs.
pub record IsComplete (p : ProfileReport) : Type 0 where
  pub claims : validate_features p.supported_features ≡ ok tt
  pub reported : All IsReported p.tests
  pub complete : Perm (map (λ (t : TestResult). t.requirement) p.tests) catalog
  pub counted : p.statistics ≡ (summarize p.tests p.supported_features).0
  pub judged : result_text p.result ≡ result_text (verdict p.tests p.supported_features)

of_not : {b : Bool} → not b ≡ false → b ≡ true
of_not {b} h = ground arith

same_statistics_eq : (a b : Statistics) → same_statistics a b ≡ true → b ≡ a
unfolding same_statistics
same_statistics_eq a b h = ground arith

pub lift_option-eq-ok : (m : Fallible OptionFault (Unit {0})) → lift_option m ≡ ok tt → m ≡ ok tt
lift_option-eq-ok (ok u) h = refl
lift_option-eq-ok (err e) h = cc

neither : (a b : Bool) → (not a || not b) ≡ false → (a ≡ true) × (b ≡ true)
neither a b h = ground arith

validate_profile-IsComplete : (p : ProfileReport) → validate_profile p ≡ ok tt → IsComplete p
unfolding validate_profile
validate_profile-IsComplete p h =
    let steps = first_error-eq-ok (profile_steps p) h in
    let (stats, result) = neither _ _ (reject_if-eq-ok _ _ steps.1.1.1.1.0) in
    let full = of_not (reject_if-eq-ok _ _ steps.1.1.0) in
    let (reported, perm) = scan_tests-perm p.tests steps.1.1.1.0 (ground (arith, full)) in
    record {
      claims = lift_option-eq-ok _ steps.1.0;
      reported = reported;
      complete = perm;
      counted = same_statistics_eq (summarize p.tests p.supported_features).0 p.statistics stats;
      judged =
          sym (str_eq→eq _ _ result)
          ∙ ap result_text (summarize-eq-verdict p.tests p.supported_features);
    }

only_profile-eq-ok :
    (ps : List ProfileReport) (p : ProfileReport) → only_profile ps ≡ ok p → ps ≡ p ∷ []
only_profile-eq-ok [] p h = cc
only_profile-eq-ok (q ∷ []) p h = cc
only_profile-eq-ok (q ∷ r ∷ ps) p h = cc

empty_of : {A : Type 0} (xs : List A) → is_empty xs ≡ true → xs ≡ []
empty_of [] h = refl
empty_of (x ∷ xs) h = cc

-- Rules for a report that may be submitted.
pub record IsSubmittable (platform : Platform) (r : ConformanceReport) : Type 0 where
  pub mode : r.run_mode ≡ submission
  pub described : metadata_list platform r ≡ []
  pub publishable : is_publishable r.result ≡ true
  pub observed : r.environment.observed_profiles ≢ []

validate_submission-IsSubmittable :
    (platform : Platform) (r : ConformanceReport)
    → validate_submission platform r ≡ ok tt
    → IsSubmittable platform r
unfolding validate_submission validate_metadata
validate_submission-IsSubmittable platform r h =
    let steps = first_error-eq-ok (submission_steps platform r) h in
    let described = of_not (reject_if-eq-ok _ _ steps.1.0) in
    let observed = reject_if-eq-ok _ _ steps.1.1.1.1.0 in
    record {
      mode = str_eq→eq r.run_mode submission (of_not (reject_if-eq-ok _ _ steps.0));
      described = empty_of (metadata_list platform r) described;
      publishable = of_not (reject_if-eq-ok _ _ steps.1.1.1.0);
      observed = λ e. cc (observed, ap is_empty e);
    }

validate_development-IsComplete :
    (platform : Platform) (r : ConformanceReport)
    → validate_development platform r ≡ ok tt
    → (p : ProfileReport) × (r.profiles ≡ p ∷ [])
      × IsComplete p
      × (result_text r.result ≡ result_text (overall r))
unfolding validate_development
validate_development-IsComplete platform r h =
    let (_, rest) = >>-eq-ok (first_error (header_steps platform r)) _ h in
    let (p, one, checked) =
      >>=-eq-ok (only_profile r.profiles) (λ p. first_error (body_steps r p)) rest in
    let steps = first_error-eq-ok (body_steps r p) checked in
    (
      p,
      only_profile-eq-ok r.profiles p one,
      validate_profile-IsComplete p steps.1.0,
      str_eq→eq _ _ (of_not (reject_if-eq-ok _ _ steps.1.1.0)),
    )

-- A report that ValidateReport accepts has exactly one profile; its tests are the catalog's checks,
-- each once and unmodified, with known outcomes and reasons; its statistics and result are those of
-- its tests, and the report's result is the overall one. One accepted as a submission is a
-- submission run with nothing missing in its metadata, a result of success or partial, and observed
-- profiles.
pub validate_report-accepted :
    (platform : Platform) (r : ConformanceReport) (submitted : Bool)
    → validate_report platform r submitted ≡ ok tt
    → ((p : ProfileReport) × (r.profiles ≡ p ∷ [])
        × IsComplete p
        × (result_text r.result ≡ result_text (overall r)))
      × (submitted ≡ true → IsSubmittable platform r)
unfolding validate_report
validate_report-accepted platform r submitted h =
    let (checked, rest) = >>-eq-ok (validate_development platform r) _ h in
    (
      validate_development-IsComplete platform r checked,
      (λ e. validate_submission-IsSubmittable platform r (rw e at rest)),
    )
