-- ===== src/Conformance/Suite.antt =====
-- One run of the suite: newReport, connect, Run and finish of conformance/suite.go. What the run
-- observes is the world's: the clock, the clients' answers, the label filter and the deadline.
mod Begin
pub mod Setup
pub mod Complete
pub mod Succeeds
pub mod Rows
pub mod Reasons
pub mod Frame
pub mod Checked
pub mod Valid
unfoldable pub use Begin.*
use cluster_inventory_api.Common.{
  String, Bool, true, false, ◌||◌, List, [], ◌∷◌, ◌++◌, map, Option, none, some, ◌==◌,
  if◌then◌else◌, any, keep, sort_by, Fallible, ok, err, first_error, ◌>>=◌, ◌>>◌,
}
use cluster_inventory_api.Apis.{ClusterProfile, cluster_profile_kind}
use cluster_inventory_api.Conformance.Types.{
  Outcome, skipped, unknown, Result, success, result_text, ObjectReference, Requirement, optional,
  TestResult, ProfileReport, ConformanceReport, Options,
}
use cluster_inventory_api.Conformance.Errors.{
  Error, run_fault, invalid_filter, nothing_selected, unreadable_namespace, not_success, error_text,
}
use cluster_inventory_api.Conformance.Catalog.{catalog}
use cluster_inventory_api.Conformance.Summary.{summarize, overall}
use cluster_inventory_api.Conformance.Options.{
  defaults, submission, producer_profile, validate_options,
}
use cluster_inventory_api.Conformance.Checks.{ApiError, ApiResource, Snapshot, outcome, check}
use cluster_inventory_api.Conformance.Platform.{Platform}
use cluster_inventory_api.Conformance.Report.{
  Verified, lift_option, validate_metadata, validate_report,
}

abbrev pub excluded_by_filter : String
excluded_by_filter = "Excluded by test filter"

-- finish: the summary of one profile
unfoldable pub finish_profile : ProfileReport → ProfileReport
unfolding summarize
finish_profile p =
    let s = summarize p.tests p.supported_features in record p { statistics = s.0; result = s.1 }

unfoldable pub finish : ConformanceReport → ConformanceReport
unfolding finish_profile overall
finish r =
    let summed = record r { profiles = map finish_profile r.profiles } in
    record summed { result = overall summed }

-- report.Profiles[0].Tests = append(...); a new report has one profile
abbrev pub append_tests : List TestResult → List ProfileReport → List ProfileReport
append_tests tests [] = []
append_tests tests (p ∷ rest) = record p { tests = p.tests ++ tests } ∷ rest

-- Where a run ends early: the report so far, and the error.
pub record Stop : Type 0 where
  pub report : ConformanceReport
  pub error : Error

unfoldable pub abort : ConformanceReport → Error → Stop
unfolding finish
abort report e = record {
  report = finish (record report { errors = report.errors ++ error_text e ∷ [] });
  error = e;
}

unfoldable pub fill_all : Outcome → String → ConformanceReport → ConformanceReport
unfolding outcome catalog
fill_all state message report = record report {
  profiles = append_tests (map (λ req. outcome req state message) catalog) report.profiles;
}

unfoldable pub fail_setup : ConformanceReport → Error → Stop
unfolding abort fill_all
fail_setup report e = abort (fill_all unknown (error_text e) report) e

-- if err != nil { return failSetup(err) }
abbrev pub or_fail : ConformanceReport → Verified → Fallible Stop (Unit {0})
or_fail report (ok u) = ok u
or_fail report (err e) = err (fail_setup report e)

abbrev pub parsed :
    ConformanceReport → Fallible String (List String → Bool) → Fallible Stop (List String → Bool)
parsed report (ok filter) = ok filter
parsed report (err text) = err (fail_setup report (run_fault (invalid_filter text)))

unfoldable pub selected : (List String → Bool) → Requirement → Bool
selected filter req = filter (
    req.id
    ∷ (if optional req then "Optional" else "Required")
    ∷ cluster_profile_kind
    ∷ producer_profile
    ∷ req.feature
    ∷ [])

unfoldable pub with_version :
    Fallible ApiError (Option String) → ConformanceReport → ConformanceReport
with_version (ok (some v)) report = record report {
  environment = record (report.environment) { kubernetes_version = v };
}
with_version _ report = report

abbrev pub namespace_check : String → Option ApiError → Verified
namespace_check namespace none = ok tt
namespace_check namespace (some e) =
    if e.forbidden then ok tt else err (run_fault (unreadable_namespace namespace e.text))

-- The rest of the set-up, once the filter is parsed.
abbrev pub set_up_steps :
    Platform
    → World
    → Options
    → ConformanceReport
    → (List String → Bool)
    → List (Fallible Stop (Unit {0}))
set_up_steps p w o report filter =
    let versioned = with_version w.server_version report in
    unless (any (selected filter) catalog)
      (err (abort (fill_all skipped excluded_by_filter report) (run_fault nothing_selected)))
    ∷ or_fail report (if o.run_mode == submission then validate_metadata p report else ok tt)
    ∷ or_fail report (connect w)
    ∷ or_fail versioned (fault_check w.deadline client_error)
    ∷ or_fail versioned (namespace_check o.namespace (w.namespace_fault o.namespace))
    ∷ []

-- `Run` up to the first observation: the options are defaulted already.
unfoldable pub set_up :
    Platform
    → World
    → Options
    → ConformanceReport
    → Fallible Stop (ConformanceReport × (Requirement → Bool))
set_up p w o report = do
  or_fail report (lift_option (validate_options o))
  filter ← parsed report (w.parse_filter o.test_filter)
  first_error (set_up_steps p w o report filter)
  ok (with_version w.server_version report, selected filter)

abbrev pub fault_of {ℓ} : {A : Type ℓ} → Fallible ApiError A → Option ApiError
fault_of (ok a) = none
fault_of (err e) = some e

abbrev pub found_resources :
    Fallible ApiError (Option (List ApiResource)) → Option (List ApiResource)
found_resources (ok resources) = resources
found_resources (err e) = none

abbrev pub found_profiles : Fallible ApiError (List ClusterProfile) → List ClusterProfile
found_profiles (ok profiles) = profiles
found_profiles (err e) = []

-- The list is asked for only where discovery answered; otherwise its error stands for both.
abbrev pub listed :
    Fallible ApiError (Option (List ApiResource))
    → Fallible ApiError (List ClusterProfile)
    → Fallible ApiError (List ClusterProfile)
listed (ok resources) answer = answer
listed (err e) answer = err e

unfoldable pub observe : World → Options → Snapshot
unfolding sort_by keep
observe w o =
    let answer = listed w.resources (w.list_profiles o.namespace) in
    let profiles = sort_by (λ (p : ClusterProfile). p.metadata.name) (found_profiles answer) in
    record {
      resources = found_resources w.resources;
      api_error = fault_of w.resources;
      profiles = profiles;
      managed =
          keep
            (λ (p : ClusterProfile).
              o.cluster_manager == "" || p.spec.cluster_manager.name == o.cluster_manager)
            profiles;
      profile_error = fault_of answer;
      expected = o.expected_clusters;
    }

abbrev pub object_reference : ClusterProfile → ObjectReference
object_reference p = record {
  namespace = p.metadata.namespace;
  name = p.metadata.name;
  uid = p.metadata.uid;
  resource_version = p.metadata.resource_version;
}

unfoldable pub run_check : (Requirement → Bool) → Snapshot → Requirement → TestResult
unfolding check outcome
run_check chosen s req = if chosen req then check req s else outcome req skipped excluded_by_filter

-- The report behind the loop over the catalog, finished.
unfoldable pub observed_report :
    Options → ConformanceReport → (Requirement → Bool) → Snapshot → ConformanceReport
unfolding finish run_check catalog
observed_report o report chosen s = finish (record report {
  environment = record (report.environment) {
    observed_profiles = report.environment.observed_profiles ++ map object_reference s.profiles;
  };
  profiles = append_tests (map (run_check chosen s) catalog) report.profiles;
})

abbrev pub is_success : Result → Bool
is_success success = true
is_success _ = false

-- The end of `Run`, given what the submission's own validation said.
unfoldable pub conclude : ConformanceReport → Verified → ConformanceReport × Option Error
unfolding abort
conclude report (err e) = let stop = abort report e in (stop.report, some stop.error)
conclude report (ok u) = (
  report,
  if is_success report.result
      then none
      else some (run_fault (not_success (result_text report.result))),
)

abbrev pub ended :
    Platform
    → World
    → Options
    → Fallible Stop (ConformanceReport × (Requirement → Bool))
    → ConformanceReport × Option Error
ended p w o (err stop) = (stop.report, some stop.error)
ended p w o (ok (report, chosen)) =
    let final = observed_report o report chosen (observe w o) in
    conclude final (if o.run_mode == submission then validate_report p final true else ok tt)

unfoldable pub run : Platform → World → Options → ConformanceReport × Option Error
run p w options = let o = defaults options in ended p w o (set_up p w o (new_report p w o))
