-- ===== src/Conformance/Options.antt =====
-- The defaults and the validation of a run's options: the beginning of conformance/suite.go, and
-- validateFormats of conformance/report.go.
pub mod Features
use cluster_inventory_api.Common.{
  String, Bool, true, false, not, ◌&&◌, ◌||◌, List, [], ◌∷◌, ◌==◌, if◌then◌else◌, is_empty,
  contains, ℤ, pos, is_negative, is_positive, is_zero, Fallible, ok, err, ◌>>=◌, ◌>>◌, reject_if,
  for_each,
}
use cluster_inventory_api.Apis.{cluster_profile_kind}
use cluster_inventory_api.Conformance.Types.{Source, Implementation, Options}
use cluster_inventory_api.Conformance.Errors.{
  OptionFault, no_namespace, negative_expected, nonpositive_timeout, dependent_uniqueness,
  filtered_submission, unknown_run_mode, unknown_api, unknown_profile, unknown_feature,
  duplicate_feature, unknown_format,
}
use cluster_inventory_api.Conformance.Catalog.{features}

abbrev pub development : String
development = "development"

abbrev pub submission : String
submission = "submission"

abbrev pub producer_profile : String
producer_profile = "CLUSTERPROFILE-PRODUCER"

abbrev pub Checked : Type 0
Checked = Fallible OptionFault (Unit {0})

-- 30 * time.Second, in nanoseconds
abbrev pub default_timeout : ℤ
default_timeout = pos 30_000_000_000

abbrev pub or_default : String → String → String
or_default s d = if s == "" then d else s

unfoldable pub defaults : Options → Options
defaults o = record o {
  run_mode = or_default o.run_mode development;
  timeout = if is_zero o.timeout then default_timeout else o.timeout;
  implementation = record (o.implementation) { mode = or_default o.implementation.mode "default" };
  suite = record (o.suite) { version = or_default o.suite.version "development" };
  report_formats = if is_empty o.report_formats then "html" ∷ [] else o.report_formats;
  report_directory = or_default o.report_directory ".";
}

unfoldable pub validate_inventory : String → ℤ → Checked
validate_inventory namespace expected = do
  reject_if (namespace == "") no_namespace
  reject_if (is_negative expected) negative_expected

unfoldable pub validate_run_mode : String → Checked
validate_run_mode mode =
    reject_if (not (mode == development) && not (mode == submission)) (unknown_run_mode mode)

-- The loop of `validateFeatures`; `seen` holds the names read so far.
unfoldable pub scan_features : List String → List String → Checked
scan_features seen [] = ok tt
scan_features seen (f ∷ rest) =
    let later = scan_features (f ∷ seen) rest in
    if not (contains features f)
    then err (unknown_feature f)
    else if contains seen f
    then err (duplicate_feature f)
    else later

unfoldable pub validate_features : List String → Checked
unfolding scan_features
validate_features names = do
  scan_features [] names
  reject_if (contains names "InventoryMemberUniqueness" && not (contains names "InventoryMemberID"))
      dependent_uniqueness

unfoldable pub validate_formats : List String → Checked
unfolding for_each
validate_formats =
    for_each (λ format.
      reject_if (not (format == "html") && not (format == "yaml")) (unknown_format format))

unfoldable pub validate_options : Options → Checked
unfolding validate_inventory validate_run_mode validate_features validate_formats
validate_options o = do
  validate_inventory o.namespace o.expected_clusters
  reject_if (not (is_positive o.timeout)) nonpositive_timeout
  validate_run_mode o.run_mode
  for_each (λ api. reject_if (not (api == cluster_profile_kind)) (unknown_api api)) o.apis
  for_each (λ profile. reject_if (not (profile == producer_profile)) (unknown_profile profile))
      o.profiles
  validate_features o.supported_features
  validate_formats o.report_formats
  reject_if (o.run_mode == submission && not (o.test_filter == "")) filtered_submission
