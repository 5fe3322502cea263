-- ===== src/Conformance/Tests.antt =====
-- A run of the suite against a small inventory, and the theorems of the suite at it.
mod Output
use mathlib.Core.List.{Perm}
use cluster_inventory_api.Common.{
  ◌≤◌, ◌+◌, In, Distinct, concat, join, first_error, for_each, text_leb, trim_space, find, keep,
  sort, sort_by, has_ink, is_space, String, ◌≡◌, ◌≢◌, ◌↔◌, refl, true, false, List, [], ◌∷◌, length,
  map, none, some, pos, ok, find, keep, sort, sort_by, has_ink, is_space, All, contains, any,
}
use cluster_inventory_api.Apis.{
  Condition, ClusterProfile, label_cluster_manager_key, label_inventory_member_id_key, lookup,
}
use cluster_inventory_api.Conformance.Types.{
  passed, failed, skipped, result_text, success, failure, partial, Source, Options, TestResult,
  ProfileReport, ConformanceReport,
}
use cluster_inventory_api.Conformance.Platform.{Platform}
use cluster_inventory_api.Conformance.Catalog.{
  namespaced, member_id_value, member_uniqueness, joined_presence, api_availability, catalog,
  spec_ref, features, feature_names,
}
use cluster_inventory_api.Conformance.Summary.{
  summarize, tally, tally_test, worsen, record_outcome, combine, result_rank, gate, overall,
  overall_of, combine_profiles,
}
use cluster_inventory_api.Conformance.Options.{
  defaults, validate_options, validate_features, validate_inventory, validate_run_mode,
  validate_formats, scan_features,
}
use cluster_inventory_api.Conformance.Checks.{
  Snapshot, check, check_api, check_resource, check_profiles, check_representation,
  check_uniqueness, check_fields, scan_fields, report_missing, inspect, has_condition, report_ids,
  duplicated, collect_ids, missing_ids, names_of, push_name, member_id, namespaced_name, outcome,
}
use cluster_inventory_api.Conformance.Report.{
  validate_metadata, metadata_list, source_faults, contact_faults, valid_url, is_commit,
  validate_report, validate_development, validate_profile, validate_test, scan_tests,
  same_requirement, same_statistics, validate_submission, scan_objects, is_invalid_object,
}
use cluster_inventory_api.Conformance.Suite.Complete.{ListsCatalog, run-ListsCatalog}
use cluster_inventory_api.Conformance.Suite.Succeeds.{run-success_iff}
use cluster_inventory_api.Conformance.Report.Accepted.{
  IsComplete, IsSubmittable, validate_report-accepted,
}
use cluster_inventory_api.Conformance.Summary.Verdict.{
  verdict, is_skipped, is_unknown, summarize-eq-verdict,
}
use cluster_inventory_api.Conformance.Summary.Counts.{
  count, is_passed, is_failed, is_not_supported, summarize-counts,
}
use cluster_inventory_api.Conformance.Summary.Overall.{RanksLowest, overall-success_iff}
use cluster_inventory_api.Conformance.Checks.Uniqueness.{
  UniquenessMeans, check_uniqueness-UniquenessMeans,
}
use cluster_inventory_api.Conformance.Checks.FieldOutcomes.{FieldsSay, check_fields-FieldsSay}
use cluster_inventory_api.Conformance.Checks.Outcomes.{IsSound, check-IsSound}
use cluster_inventory_api.Conformance.Checks.Claims.{Fits, catalog-Fits}
use cluster_inventory_api.Conformance.Options.Features.{validate_features_iff}
use cluster_inventory_api.Conformance.Suite.{
  World, run, set_up, new_report, connect, finish_profile, finish, abort, fill_all, fail_setup,
  selected, with_version, observe, run_check, observed_report, conclude,
}

abbrev member : String → String → List Condition → ClusterProfile
member name id conditions = record {
  metadata = record {
    namespace = "fleet";
    name = name;
    uid = "u";
    resource_version = "7";
    labels = (label_cluster_manager_key, "hub") ∷ (label_inventory_member_id_key, id) ∷ [];
  };
  spec = record { display_name = name; cluster_manager = record { name = "hub" } };
  status = record {
    conditions = conditions;
    version = record { kubernetes = "v1.33.0" };
    properties = [];
    access_providers = [];
  };
}

abbrev joined : Condition
joined = record { type = "Joined"; status = "True"; reason = "Joined"; message = "" }

abbrev west : ClusterProfile
west = member "west" "2" (joined ∷ [])

abbrev east : ClusterProfile
east = member "east" "1" (joined ∷ [])

abbrev twin : ClusterProfile
twin = member "twin" "1" []

abbrev machine : Platform
machine = record {
  date_fault = λ s. none;
  parse_url = λ s. some (record { scheme = "https"; host = "example.org" });
  catalog_digest = "d";
}

abbrev hub : World
hub = record {
  now = "2026-01-01T00:00:00Z";
  parse_filter = λ s. ok (λ labels. true);
  has_kubernetes = false;
  has_inventory = false;
  has_config = true;
  load_fault = none;
  kubernetes_fault = none;
  inventory_fault = none;
  server_version = ok (some "v1.33.0");
  deadline = none;
  namespace_fault = λ s. none;
  resources = ok (some (record { name = "clusterprofiles"; namespaced = true } ∷ []));
  list_profiles = λ s. ok (west ∷ east ∷ []);
}

abbrev source : Source
source = record {
  version = "v1";
  revision = "0123456789012345678901234567890123456789";
  dirty = false;
}

abbrev settings : Options
settings = record {
  kubeconfig = "";
  context = "";
  namespace = "fleet";
  cluster_manager = "hub";
  expected_clusters = pos 2;
  apis = [];
  profiles = [];
  supported_features = "Joined" ∷ "InventoryMemberID" ∷ [];
  test_filter = "";
  run_mode = "submission";
  implementation = record {
    organization = "org";
    project = "hub";
    source = source;
    mode = "";
    url = "https://example.org";
    contact = "a@example.org" ∷ [];
    reproduction = "https://example.org/r";
  };
  suite = source;
  report_directory = "";
  report_formats = [];
  report_per_api = false;
  timeout = pos 0;
}

abbrev final : ConformanceReport
final = (run machine hub settings).0

run_result : final.result ≡ success
unfolding run defaults set_up new_report connect finish_profile finish abort fill_all fail_setup
    selected with_version observe run_check observed_report conclude validate_options
    validate_features validate_inventory validate_run_mode validate_formats scan_features features
    feature_names catalog spec_ref validate_metadata metadata_list source_faults contact_faults
    valid_url is_commit check check_api check_resource check_profiles check_representation
    check_uniqueness check_fields scan_fields report_missing inspect has_condition report_ids
    duplicated collect_ids missing_ids names_of push_name member_id namespaced_name outcome
    summarize tally tally_test worsen record_outcome combine result_rank gate overall overall_of
    combine_profiles validate_report validate_development validate_profile validate_test scan_tests
    same_requirement same_statistics validate_submission scan_objects is_invalid_object lookup
    contains any find keep sort sort_by has_ink is_space concat join first_error for_each text_leb
    trim_space
run_result = refl

final-accepted : validate_report machine final true ≡ ok tt
unfolding run defaults set_up new_report connect finish_profile finish abort fill_all fail_setup
    selected with_version observe run_check observed_report conclude validate_options
    validate_features validate_inventory validate_run_mode validate_formats scan_features features
    feature_names catalog spec_ref validate_metadata metadata_list source_faults contact_faults
    valid_url is_commit check check_api check_resource check_profiles check_representation
    check_uniqueness check_fields scan_fields report_missing inspect has_condition report_ids
    duplicated collect_ids missing_ids names_of push_name member_id namespaced_name outcome
    summarize tally tally_test worsen record_outcome combine result_rank gate overall overall_of
    combine_profiles validate_report validate_development validate_profile validate_test scan_tests
    same_requirement same_statistics validate_submission scan_objects is_invalid_object lookup
    contains any find keep sort sort_by has_ink is_space concat join first_error for_each text_leb
    trim_space
final-accepted = refl

run-ListsCatalog_example : ListsCatalog final.profiles
run-ListsCatalog_example = run-ListsCatalog machine hub settings

run-success_iff_example : ((run machine hub settings).1 ≡ none) ↔ (final.result ≡ success)
run-success_iff_example = run-success_iff machine hub settings

validate_report-accepted_example :
    ((p : ProfileReport) × (final.profiles ≡ p ∷ [])
      × IsComplete p
      × (result_text final.result ≡ result_text (overall final)))
    × (true ≡ true → IsSubmittable machine final)
validate_report-accepted_example = validate_report-accepted machine final true final-accepted

-- A failed check that gates, a skipped one that does not, and a passed one.
abbrev tests : List TestResult
tests =
    record { requirement = member_id_value; outcome = failed; message = "empty" }
    ∷ record { requirement = joined_presence; outcome = skipped; message = "filtered" }
    ∷ record { requirement = namespaced; outcome = passed; message = "" }
    ∷ []

summarize-eq-verdict_example : (summarize tests []).1 ≡ verdict tests []
summarize-eq-verdict_example = summarize-eq-verdict tests []

summarize-counts_example :
    let s = (summarize tests []).0 in
    (s.passed ≡ count is_passed tests)
    × (s.failed ≡ count is_failed tests)
    × (s.skipped ≡ count is_skipped tests)
    × (s.unknown ≡ count is_unknown tests)
    × (s.not_supported ≡ count is_not_supported tests)
    × (s.total ≡ length tests)
summarize-counts_example = summarize-counts tests []

overall-success_iff_example : (overall final ≡ success) ↔ (
    (final.profiles ≢ [])
    × All (λ (p : ProfileReport). RanksLowest p.result) final.profiles
    × (final.errors ≡ []))
overall-success_iff_example = overall-success_iff final

check_uniqueness-UniquenessMeans_example :
    UniquenessMeans
      (check_uniqueness member_uniqueness (west ∷ east ∷ twin ∷ [])).outcome
      (west ∷ east ∷ twin ∷ [])
check_uniqueness-UniquenessMeans_example =
    check_uniqueness-UniquenessMeans member_uniqueness (west ∷ east ∷ twin ∷ [])

check_fields-FieldsSay_example :
    FieldsSay joined_presence
      (check_fields joined_presence (east ∷ twin ∷ [])).outcome
      (east ∷ twin ∷ [])
check_fields-FieldsSay_example = check_fields-FieldsSay joined_presence (east ∷ twin ∷ [])

abbrev claims : List String
claims = "Joined" ∷ "InventoryMemberUniqueness" ∷ []

validate_features_iff_example : (validate_features claims ≡ ok tt) ↔ (
    All (λ f. In f features) claims
    × Distinct claims
    × (In "InventoryMemberUniqueness" claims → In "InventoryMemberID" claims))
validate_features_iff_example = validate_features_iff claims

-- Discovery was forbidden, so that the inventory was not listed.
abbrev blind : Snapshot
blind = record {
  resources = none;
  api_error = some (record { text = "forbidden"; not_found = false; forbidden = true });
  profiles = [];
  managed = [];
  profile_error = some (record { text = "forbidden"; not_found = false; forbidden = true });
  expected = pos 0;
}

check-IsSound_example : IsSound api_availability (check api_availability blind)
check-IsSound_example = check-IsSound api_availability blind

catalog-Fits_example : All (λ req. Fits req (check req blind)) catalog
catalog-Fits_example = catalog-Fits blind

abbrev rows : List TestResult
rows = map (λ req. record { requirement = req; outcome = passed; message = "" }) catalog

rows-accepted : scan_tests [] rows ≡ ok tt
unfolding scan_tests validate_test catalog find contains same_requirement spec_ref concat trim_space
rows-accepted = refl

rows-length : length rows ≡ length catalog
unfolding catalog
rows-length = refl
