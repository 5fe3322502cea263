-- ===== src/Conformance/Errors.antt =====
-- The errors of the suite, one type for each function family that returns them, and their texts.
use cluster_inventory_api.Common.{ℕ, String, List, [], ◌∷◌, map, concat, join, decimal, quote}

-- suite.go: validateInventory, validateRunMode, validateOptions, validateFeatures; and
-- validateFormats of report.go
pub data OptionFault : Type 0 where
  no_namespace negative_expected nonpositive_timeout dependent_uniqueness : OptionFault
  filtered_submission : OptionFault
  unknown_run_mode unknown_api unknown_profile : String → OptionFault
  unknown_feature duplicate_feature unknown_format : String → OptionFault

-- report.go: validateMetadata
pub data MetadataFault : Type 0 where
  required short_revision unclean : String → MetadataFault
  bad_url bad_reproduction no_contact empty_contact : MetadataFault

-- report.go: ValidateReport, validateSubmission, validateProfile
pub data ReportFault : Type 0 where
  unsupported_schema : String → String → ReportFault
  invalid_date : String → ReportFault
  unknown_catalog unknown_revision profile_count wrong_result : ReportFault
  unknown_role wrong_summary : ReportFault
  incomplete_catalog : ℕ → ℕ → ReportFault
  duplicate_check modified_requirement : String → ReportFault
  invalid_outcome missing_reason : String → String → ReportFault
  required_unsupported : String → ReportFault
  development_report no_server_version no_observed : ReportFault
  unacceptable_result invalid_observed : String → ReportFault

-- suite.go: Run
pub data RunFault : Type 0 where
  invalid_filter : String → RunFault
  nothing_selected : RunFault
  -- an error of a client, passed on as it is
  client_fault : String → RunFault
  unreadable_namespace : String → String → RunFault
  not_success : String → RunFault

pub data Error : Type 0 where
  option_fault : OptionFault → Error
  -- errors.Join
  metadata_faults : List MetadataFault → Error
  report_fault : ReportFault → Error
  run_fault : RunFault → Error

unfoldable pub option_text : OptionFault → String
option_text no_namespace =
    "namespace is required: select an inventory managed by the implementation"
option_text negative_expected = "expected-clusters must not be negative"
option_text nonpositive_timeout = "timeout must be positive"
option_text dependent_uniqueness = "InventoryMemberUniqueness requires InventoryMemberID support"
option_text filtered_submission =
    "submission runs cannot filter checks; select APIs, profiles, and supported features instead"
option_text (unknown_run_mode s) = concat ("unknown run-mode " ∷ quote s ∷ [])
option_text (unknown_api s) = concat ("unknown API " ∷ quote s ∷ [])
option_text (unknown_profile s) = concat ("unknown profile " ∷ quote s ∷ [])
option_text (unknown_feature s) = concat ("unknown supported feature " ∷ quote s ∷ [])
option_text (duplicate_feature s) = concat ("duplicate supported feature " ∷ quote s ∷ [])
option_text (unknown_format s) = concat ("unknown report format " ∷ quote s ∷ [])

unfoldable pub metadata_text : MetadataFault → String
metadata_text (required name) = concat (name ∷ " is required" ∷ [])
metadata_text (short_revision name) = concat (name ∷ ".revision must be a full source commit" ∷ [])
metadata_text (unclean name) = concat (name ∷ " source must be clean for submission" ∷ [])
metadata_text bad_url = "implementation.url must be an absolute HTTP(S) URL"
metadata_text bad_reproduction = concat (
    "implementation.reproduction must identify a reproducible source artifact "
    ∷ "with an absolute HTTP(S) URL" ∷ [])
metadata_text no_contact = "implementation.contact is required"
metadata_text empty_contact = "implementation.contact entries must not be empty"

unfoldable pub report_text : ReportFault → String
report_text (unsupported_schema version kind) =
    concat ("unsupported report schema " ∷ version ∷ "/" ∷ kind ∷ [])
report_text (invalid_date cause) = concat ("invalid report date: " ∷ cause ∷ [])
report_text unknown_catalog =
    "unknown specification or check catalog; validate with the matching suite revision"
report_text unknown_revision = "unknown tested API revision"
report_text profile_count = "report must contain the selected producer profile exactly once"
report_text wrong_result = "overall result does not match profile results and errors"
report_text unknown_role = "unknown profile, API, or role"
report_text wrong_summary = "profile statistics or result does not match its checks"
report_text (incomplete_catalog want have) =
    concat ("incomplete catalog: expected " ∷ decimal want ∷ " checks, got " ∷ decimal have ∷ [])
report_text (duplicate_check id) = concat ("duplicate check " ∷ quote id ∷ [])
report_text (modified_requirement id) = concat ("unknown or modified requirement " ∷ quote id ∷ [])
report_text (invalid_outcome state id) =
    concat ("invalid outcome " ∷ quote state ∷ " for " ∷ id ∷ [])
report_text (missing_reason id state) = concat (id ∷ " requires a reason for " ∷ state ∷ [])
report_text (required_unsupported id) =
    concat ("required check " ∷ id ∷ " cannot be not-supported" ∷ [])
report_text development_report = "development reports cannot be submitted"
report_text no_server_version = "observed Kubernetes version is required for submission"
report_text no_observed = "submission must identify observed profiles"
report_text (unacceptable_result result) =
    concat (result ∷ " reports cannot be accepted as conformance submissions" ∷ [])
report_text (invalid_observed key) = concat ("invalid observed profile " ∷ quote key ∷ [])

unfoldable pub run_text : RunFault → String
run_text (invalid_filter cause) = concat ("invalid test filter: " ∷ cause ∷ [])
run_text nothing_selected = "no checks selected"
run_text (client_fault text) = text
run_text (unreadable_namespace namespace cause) =
    concat ("read inventory namespace " ∷ quote namespace ∷ ": " ∷ cause ∷ [])
run_text (not_success result) = concat ("conformance result: " ∷ result ∷ [])

-- err.Error(); errors.Join puts each text on a line of its own.
unfoldable pub error_text : Error → String
unfolding option_text metadata_text report_text run_text
error_text (option_fault fault) = option_text fault
error_text (metadata_faults faults) = join "\n" (map metadata_text faults)
error_text (report_fault fault) = report_text fault
error_text (run_fault fault) = run_text fault
