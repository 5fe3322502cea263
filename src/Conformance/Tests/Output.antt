-- ===== src/Conformance/Tests/Output.antt =====
-- The theorems on what the suite writes and reads again, at a small inventory's run.
use mathlib.Core.Path.{◌≡◌, refl, sym, ap, ◌∙◌}
use mathlib.Core.Logic.{◌≢◌, ◌↔◌, inl, inr}
use cluster_inventory_api.Common.{
  String, true, false, List, [], ◌∷◌, ◌==◌, none, some, ok, err, ok_injective, ℕ, All, concat, join,
  first_error, for_each, text_leb, trim_space, find, keep, sort, sort_by, has_ink, is_space,
  contains, any,
}
use cluster_inventory_api.Apis.{lookup}
use cluster_inventory_api.Conformance.Types.{
  passed, failed, success, partial, ProfileReport, ConformanceReport,
}
use cluster_inventory_api.Conformance.Catalog.{
  catalog, joined_presence, member_id_presence, spec_ref, features, feature_names,
}
use cluster_inventory_api.Conformance.Summary.{
  summarize, tally, tally_test, worsen, record_outcome, combine, result_rank, gate, overall,
  overall_of, combine_profiles,
}
use cluster_inventory_api.Conformance.Options.{
  defaults, validate_options, validate_features, validate_inventory, validate_run_mode,
  validate_formats, scan_features,
}
use cluster_inventory_api.Conformance.Checks.{
  check, check_api, check_resource, check_profiles, check_representation, check_uniqueness,
  check_fields, scan_fields, report_missing, inspect, has_condition, report_ids, duplicated,
  collect_ids, missing_ids, names_of, push_name, member_id, namespaced_name, outcome,
}
use cluster_inventory_api.Conformance.Report.{
  validate_metadata, metadata_list, source_faults, contact_faults, valid_url, is_commit,
  validate_report, validate_development, validate_profile, validate_test, scan_tests,
  same_requirement, same_statistics, validate_submission, scan_objects, is_invalid_object,
}
use cluster_inventory_api.Conformance.Suite.{
  run, set_up, new_report, connect, finish_profile, finish, abort, fill_all, fail_setup, selected,
  with_version, observe, run_check, observed_report, conclude,
}
use cluster_inventory_api.Conformance.Suite.Valid.{run-valid}
use cluster_inventory_api.Conformance.Files.{
  Files, Attempt, complete, Desk, atomic_write, write_reports, write_each, file_name, compact,
}
use cluster_inventory_api.Conformance.Files.Atomic.{IsAtomic, atomic_write-IsAtomic}
use cluster_inventory_api.Conformance.Files.Written.{IsKnownFormat, path_of, IsSeparate}
use cluster_inventory_api.Conformance.Files.Reports.{IsWritten, Meets, write_reports-Meets}
use cluster_inventory_api.Conformance.Matrix.{
  Visit, Decoder, Entry, visit, collect, collect_file, read_report, sort_entries, lines_of,
  zero_group, escape_cell, feature_status,
}
use cluster_inventory_api.Conformance.Matrix.Collected.{Gathers, collect_iff}
use cluster_inventory_api.Conformance.Matrix.Cells.{
  IsCell, escape_cell-IsCell, HasPassed, feature_status-passed_iff,
}
use cluster_inventory_api.Conformance.Matrix.Groups.{IsTabled, collect-IsTabled}
use cluster_inventory_api.Conformance.Flags.{split_list, csv_text}
use cluster_inventory_api.Conformance.Flags.Csv.{IsItem, split_list-stable}
use cluster_inventory_api.Conformance.GoTest.{run_conformance}
use cluster_inventory_api.Conformance.GoTest.Passes.{run_conformance-passes}
use cluster_inventory_api.Conformance.Await.{
  Race, Worker, returned, Reach, cancels, answers, sends, gives_up, called, later, IsSound,
  Reach-IsSound,
}
use cluster_inventory_api.Conformance.Command.{Shell, panicked, validate_paths, run_command}
use cluster_inventory_api.Conformance.Command.Validates.{
  IsValidFile, validate_paths-ok_iff, run_command-safe,
}
use cluster_inventory_api.Conformance.Tests.{machine, hub, settings, final, final-accepted}

settings-valid : validate_options (defaults settings) ≡ ok tt
unfolding validate_options defaults validate_features validate_inventory validate_run_mode
    validate_formats scan_features features feature_names contains any for_each
settings-valid = refl

run-valid_example : validate_development machine (run machine hub settings).0 ≡ ok tt
run-valid_example =
    run-valid machine hub settings refl settings-valid
      (record { kubernetes = λ t h. cc; inventory = λ t h. cc; deadline = λ t h. cc })

-- Writes that succeed, by one temporary file.
abbrev calm : Attempt
calm = record {
  created = ok ".report.tmp";
  write = complete;
  close = none;
  chmod = none;
  rename = none;
  remove = none;
}

abbrev empty_disk : Files
empty_disk = λ path. none

calm-apart : (temp : String) → calm.created ≡ ok temp → temp ≢ "report.yaml"
calm-apart temp h e = cc (ap (λ s. s == "report.yaml") (ok_injective ".report.tmp" temp h ∙ e))

atomic_write-IsAtomic_example :
    IsAtomic empty_disk "report.yaml" "kind" (atomic_write calm "report.yaml" "kind" empty_disk)
atomic_write-IsAtomic_example =
    atomic_write-IsAtomic calm "report.yaml" "kind" empty_disk calm-apart

abbrev desk : Desk
desk = record {
  render = λ format. ok format;
  path_of = λ name. name;
  make_directory = none;
  attempt = λ n. calm;
}

html_yaml : path_of desk false "html" ≢ path_of desk false "yaml"
unfolding file_name concat
html_yaml e = cc (ap (λ s. s == "report.html") e)

desk-paths :
    (f g : String)
    → IsKnownFormat f
    → IsKnownFormat g
    → f ≢ g
    → path_of desk false f ≢ path_of desk false g
desk-paths f g (inl a) (inl b) ne e = ne (a ∙ sym b)
desk-paths f g (inr a) (inr b) ne e = ne (a ∙ sym b)
desk-paths f g (inl a) (inr b) ne e =
    html_yaml (sym (ap (path_of desk false) a) ∙ e ∙ ap (path_of desk false) b)
desk-paths f g (inr a) (inl b) ne e =
    html_yaml (sym (ap (path_of desk false) b) ∙ sym e ∙ ap (path_of desk false) a)

temp_html : ".report.tmp" ≢ path_of desk false "html"
unfolding file_name concat
temp_html e = cc (ap (λ s. s == ".report.tmp") e)

temp_yaml : ".report.tmp" ≢ path_of desk false "yaml"
unfolding file_name concat
temp_yaml e = cc (ap (λ s. s == ".report.tmp") e)

desk-temps :
    (n : ℕ) (temp f : String)
    → IsKnownFormat f
    → calm.created ≡ ok temp
    → temp ≢ path_of desk false f
desk-temps n temp f (inl a) h e =
    temp_html (ok_injective ".report.tmp" temp h ∙ e ∙ ap (path_of desk false) a)
desk-temps n temp f (inr a) h e =
    temp_yaml (ok_injective ".report.tmp" temp h ∙ e ∙ ap (path_of desk false) a)

desk-IsSeparate : IsSeparate desk false
desk-IsSeparate = record { paths = desk-paths; temps = desk-temps }

write_reports-Meets_example :
    Meets desk false
      ("html" ∷ "yaml" ∷ [])
      empty_disk
      (write_reports desk false ("html" ∷ "yaml" ∷ []) empty_disk)
write_reports-Meets_example =
    write_reports-Meets desk false ("html" ∷ "yaml" ∷ []) empty_disk desk-IsSeparate

-- A directory with one report, and its decoder.
abbrev decoder : Decoder
decoder = record { first = λ text. ok final; ends = λ text. true }

abbrev visits : List Visit
visits =
    record {
      fault = none;
      is_dir = true;
      extension = "";
      path = "reports";
      content = err "a directory";
      relative = ok ".";
    }
    ∷ record {
      fault = none;
      is_dir = false;
      extension = ".yaml";
      path = "reports/hub.yaml";
      content = ok "kind";
      relative = ok "hub.yaml";
    }
    ∷ []

abbrev entries : List Entry
entries = record { report = final; path = "hub.yaml" } ∷ []

visits-collected : collect machine decoder visits ≡ ok entries
unfolding collect visit collect_file read_report
visits-collected = rw final-accepted refl

collect_iff_example :
    (collect machine decoder visits ≡ ok entries) ↔ Gathers machine decoder visits entries
collect_iff_example = collect_iff machine decoder visits entries

collect-IsTabled_example : IsTabled entries (lines_of zero_group (sort_entries entries))
collect-IsTabled_example = collect-IsTabled machine decoder visits entries visits-collected

escape_cell-IsCell_example : IsCell false (escape_cell "a|b<c>")
escape_cell-IsCell_example = escape_cell-IsCell false "a|b<c>"

split_list-stable_example :
    All IsItem (split_list "a, b,,c")
    × (split_list (csv_text (some (split_list "a, b,,c"))) ≡ split_list "a, b,,c")
split_list-stable_example = split_list-stable "a, b,,c"

abbrev desks : String → ConformanceReport → Desk
desks directory report = desk

settings-IsSeparate :
    let o = defaults settings in
    IsSeparate (desks o.report_directory (run machine hub o).0) o.report_per_api
unfolding defaults
settings-IsSeparate = desk-IsSeparate

settings-passes : (run_conformance machine hub desks settings empty_disk).errors ≡ []
unfolding run_conformance write_reports write_each atomic_write file_name compact run defaults
    set_up new_report connect finish_profile finish abort fill_all fail_setup selected with_version
    observe run_check observed_report conclude validate_options validate_features validate_inventory
    validate_run_mode validate_formats scan_features features feature_names catalog spec_ref
    validate_metadata metadata_list source_faults contact_faults valid_url is_commit check check_api
    check_resource check_profiles check_representation check_uniqueness check_fields scan_fields
    report_missing inspect has_condition report_ids duplicated collect_ids missing_ids names_of
    push_name member_id namespaced_name outcome summarize tally tally_test worsen record_outcome
    combine result_rank gate overall overall_of combine_profiles validate_report
    validate_development validate_profile validate_test scan_tests same_requirement same_statistics
    validate_submission scan_objects is_invalid_object lookup contains any find keep sort sort_by
    has_ink is_space concat join first_error for_each text_leb trim_space
settings-passes = refl

run_conformance-passes_example :
    let o = defaults settings in
    let report = (run machine hub o).0 in
    let now = (run_conformance machine hub desks settings empty_disk).files in
    (report.result ≡ success)
    × All (IsWritten (desks o.report_directory report) o.report_per_api now) o.report_formats
run_conformance-passes_example =
    run_conformance-passes machine hub desks settings empty_disk settings-IsSeparate settings-passes

-- The deadline passes while the server answers: the call returns the deadline's error, and the
-- goroutine still sends.
abbrev expired : Race String
expired = record {
  fault = some "deadline";
  buffer = some (ok "v1.33.0");
  worker = Worker.ended;
  caller = returned (err "deadline");
}

expired-Reach : Reach (ok "v1.33.0") none expired
expired-Reach =
    later
      (later (later (later called (cancels "deadline" refl)) (answers refl))
        (gives_up "deadline" refl refl))
      (sends (ok "v1.33.0") refl refl)

Reach-IsSound_example : IsSound (ok "v1.33.0") expired
Reach-IsSound_example = Reach-IsSound (ok "v1.33.0") expired-Reach

abbrev shell : Shell
shell = record {
  read_file = λ path. ok "kind";
  walk = λ directory. visits;
  url_text = λ path. path;
  refused = λ text. none;
  parse_matrix = λ args. ok ("reports", 0);
}

validate_paths-ok_iff_example :
    ((validate_paths machine decoder shell ("hub.yaml" ∷ [])).end ≡ ok tt)
    ↔ All (IsValidFile machine decoder shell) ("hub.yaml" ∷ [])
validate_paths-ok_iff_example =
    validate_paths-ok_iff machine decoder shell ("hub.yaml" ∷ []) (λ text. refl)

run_command-safe_example :
    (run_command machine decoder shell ("matrix" ∷ "reports" ∷ [])).end ≢ err panicked
run_command-safe_example = run_command-safe machine decoder shell ("matrix" ∷ "reports" ∷ [])

-- A profile that claims two features, of which one has a failed test.
abbrev claims : ProfileReport
claims = record {
  name = "core";
  api = "v1alpha2";
  role = "hub";
  supported_features = "Joined" ∷ "InventoryMemberID" ∷ [];
  result = partial;
  statistics = record {
    passed = 1;
    failed = 1;
    skipped = 0;
    unknown = 0;
    not_supported = 0;
    total = 2;
  };
  tests =
      record { requirement = joined_presence; outcome = passed; message = "" }
      ∷ record { requirement = member_id_presence; outcome = failed; message = "not reported" }
      ∷ [];
}

feature_status-passed_iff_example :
    (feature_status claims "Joined" ≡ "passed")
    ↔ ((contains claims.supported_features "Joined" ≡ true) × HasPassed "Joined" claims.tests)
feature_status-passed_iff_example = feature_status-passed_iff claims "Joined" (refl, (refl, tt))
