-- ===== src/Conformance/Report.antt =====
-- The validation of reports: validURL to validateProfile of conformance/report.go.
mod Metadata
pub mod Tests
pub mod Accepted
unfoldable pub use Metadata.*
use Prim.Native.String
use cluster_inventory_api.Common.{
  String, Bool, true, false, not, ◌&&◌, ◌||◌, List, [], ◌∷◌, Option, none, some, ◌==◌, nat_eq,
  if◌then◌else◌, is_empty, length, any, find, contains, concat, is_blank, Fallible, ok, err, ◌>>◌,
  reject_if, first_error, ◌>>=◌,
}
use cluster_inventory_api.Apis.{group_version, cluster_profile_kind}
use cluster_inventory_api.Conformance.Types.{
  Outcome, passed, not_supported, outcome_text, Result, result_text, ObjectReference, Requirement,
  optional, TestResult, Statistics, ProfileReport, ConformanceReport,
}
use cluster_inventory_api.Conformance.Errors.{
  OptionFault, ReportFault, unsupported_schema, invalid_date, unknown_catalog, unknown_revision,
  profile_count, wrong_result, unknown_role, wrong_summary, incomplete_catalog, duplicate_check,
  modified_requirement, invalid_outcome, missing_reason, required_unsupported, development_report,
  no_server_version, no_observed, unacceptable_result, invalid_observed, Error, option_fault,
  report_fault,
}
use cluster_inventory_api.Conformance.Catalog.{catalog, spec_revision, api_revision, spec_ref}
use cluster_inventory_api.Conformance.Summary.{summarize, overall}
use cluster_inventory_api.Conformance.Options.{
  submission, producer_profile, validate_inventory, validate_run_mode, validate_features,
}
use cluster_inventory_api.Conformance.Platform.{Platform}

abbrev pub report_version : String
report_version = "conformance.multicluster.x-k8s.io/v1alpha1"

abbrev pub report_kind : String
report_kind = "ConformanceReport"

-- An option check in a chain of report checks.
abbrev pub lift_option : Fallible OptionFault (Unit {0}) → Verified
lift_option (ok u) = ok u
lift_option (err fault) = err (option_fault fault)

abbrev pub reject_report : Bool → ReportFault → Verified
reject_report test fault = reject_if test (report_fault fault)

-- `==` of two requirements
unfoldable pub same_requirement : Requirement → Requirement → Bool
same_requirement a b =
    a.id == b.id
    && a.description == b.description
    && a.level == b.level
    && a.feature == b.feature
    && a.scope == b.scope
    && a.ref == b.ref

-- `==` of two statistics
unfoldable pub same_statistics : Statistics → Statistics → Bool
same_statistics a b =
    nat_eq a.passed b.passed
    && nat_eq a.failed b.failed
    && nat_eq a.skipped b.skipped
    && nat_eq a.unknown b.unknown
    && nat_eq a.not_supported b.not_supported
    && nat_eq a.total b.total

-- `==` of two results, which are texts
abbrev pub same_result : Result → Result → Bool
same_result a b = result_text a == result_text b

abbrev pub is_other : Outcome → Bool
is_other (Outcome.other s) = true
is_other _ = false

abbrev pub is_passed : Outcome → Bool
is_passed passed = true
is_passed _ = false

abbrev pub is_not_supported : Outcome → Bool
is_not_supported not_supported = true
is_not_supported _ = false

abbrev differs_from_catalog : Requirement → Option Requirement → Bool
differs_from_catalog r none = true
differs_from_catalog r (some known) = not (same_requirement r known)

-- One round of the loop of `validateProfile`, behind the test for duplicates.
unfoldable pub validate_test : TestResult → Verified
validate_test t = do
  reject_report
      (differs_from_catalog t.requirement (find (λ req. req.id == t.requirement.id) catalog))
      (modified_requirement t.requirement.id)
  reject_report (is_other t.outcome) (invalid_outcome (outcome_text t.outcome) t.requirement.id)
  reject_report (not (is_passed t.outcome) && is_blank t.message)
      (missing_reason t.requirement.id (outcome_text t.outcome))
  reject_report (is_not_supported t.outcome && not (optional t.requirement))
      (required_unsupported t.requirement.id)

unfoldable pub scan_tests : List String → List TestResult → Verified
scan_tests seen [] = ok tt
scan_tests seen (t ∷ rest) =
    let later = validate_test t >> scan_tests (t.requirement.id ∷ seen) rest in
    if contains seen t.requirement.id
    then err (report_fault (duplicate_check t.requirement.id))
    else later

abbrev pub profile_steps : ProfileReport → List Verified
profile_steps p =
    let summary = summarize p.tests p.supported_features in
    reject_report
      (not (p.name == producer_profile)
        || not (p.api == cluster_profile_kind)
        || not (p.role == "producer"))
      unknown_role
    ∷ lift_option (validate_features p.supported_features)
    ∷ reject_report (not (nat_eq (length p.tests) (length catalog)))
        (incomplete_catalog (length catalog) (length p.tests))
    ∷ scan_tests [] p.tests
    ∷ reject_report
        (not (same_statistics summary.0 p.statistics) || not (same_result summary.1 p.result))
        wrong_summary
    ∷ []

unfoldable pub validate_profile : ProfileReport → Verified
validate_profile p = first_error (profile_steps p)

-- The test of one observed object of a submission, given the keys seen before it.
unfoldable pub is_invalid_object : String → List (String × String) → ObjectReference → Bool
unfolding any
is_invalid_object namespace seen o =
    not (o.namespace == namespace)
    || o.name == ""
    || o.uid == ""
    || o.resource_version == ""
    || any (λ (k : String × String). k.0 == o.namespace && k.1 == o.name) seen

unfoldable pub scan_objects : String → List (String × String) → List ObjectReference → Verified
scan_objects namespace seen [] = ok tt
scan_objects namespace seen (o ∷ rest) =
    let later = scan_objects namespace ((o.namespace, o.name) ∷ seen) rest in
    if is_invalid_object namespace seen o
    then err (report_fault (invalid_observed (concat (o.namespace ∷ "/" ∷ o.name ∷ []))))
    else later

abbrev pub is_publishable : Result → Bool
is_publishable Result.success = true
is_publishable Result.partial = true
is_publishable _ = false

abbrev pub submission_steps : Platform → ConformanceReport → List Verified
submission_steps p r =
    reject_report (not (r.run_mode == submission)) development_report
    ∷ validate_metadata p r
    ∷ reject_report (r.environment.kubernetes_version == "") no_server_version
    ∷ reject_report (not (is_publishable r.result)) (unacceptable_result (result_text r.result))
    ∷ reject_report (is_empty r.environment.observed_profiles) no_observed
    ∷ scan_objects r.environment.inventory_namespace [] r.environment.observed_profiles
    ∷ []

unfoldable pub validate_submission : Platform → ConformanceReport → Verified
validate_submission p r = first_error (submission_steps p r)

abbrev pub date_check : Option String → Verified
date_check none = ok tt
date_check (some cause) = err (report_fault (invalid_date cause))

-- The profile of a report that has exactly one.
abbrev pub only_profile : List ProfileReport → Fallible Error ProfileReport
only_profile (p ∷ []) = ok p
only_profile _ = err (report_fault profile_count)

abbrev pub header_steps : Platform → ConformanceReport → List Verified
header_steps p r =
    reject_report (not (r.api_version == report_version) || not (r.kind == report_kind))
      (unsupported_schema r.api_version r.kind)
    ∷ date_check (p.date_fault r.date)
    ∷ lift_option (validate_run_mode r.run_mode)
    ∷ reject_report
        (not (r.specification.revision == spec_revision)
          || not (r.specification.url == spec_ref "")
          || not (r.suite.catalog_digest == p.catalog_digest))
        unknown_catalog
    ∷ reject_report
        (not (r.api.group_version == group_version) || not (r.api.revision == api_revision))
        unknown_revision
    ∷ []

abbrev pub body_steps : ConformanceReport → ProfileReport → List Verified
body_steps r profile =
    lift_option
      (validate_inventory r.environment.inventory_namespace r.environment.expected_clusters)
    ∷ validate_profile profile
    ∷ reject_report (not (same_result r.result (overall r))) wrong_result
    ∷ []

-- `ValidateReport` up to the submission rules.
unfoldable pub validate_development : Platform → ConformanceReport → Verified
validate_development p r = do
  first_error (header_steps p r)
  profile ← only_profile r.profiles
  first_error (body_steps r profile)

unfoldable pub validate_report : Platform → ConformanceReport → Bool → Verified
validate_report p r submitted = do
  validate_development p r
  if submitted then validate_submission p r else ok tt
