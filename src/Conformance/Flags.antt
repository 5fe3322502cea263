-- ===== src/Conformance/Flags.antt =====
-- The command line of a run: csvFlag, splitList, RegisterFlags and optionsWithLegacyFilter of
-- conformance/suite.go.
pub mod Csv
use cluster_inventory_api.Common.{
  String, Bool, true, false, List, [], ◌∷◌, Option, none, some, ◌==◌, if◌then◌else◌, concat, join,
  keep, map, not, trim_space, ℤ, Fallible, ok, err, quote,
}
use cluster_inventory_api.Common.Text.{split}
use cluster_inventory_api.Conformance.Types.{Source, Implementation, Options}
use cluster_inventory_api.Conformance.Options.{defaults}

-- csvFlag's String, for a target that may be nil
unfoldable pub csv_text : Option (List String) → String
unfolding join concat
csv_text none = ""
csv_text (some items) = join "," items

-- The loop of `splitList`: every item trimmed, and those left empty dropped.
unfoldable pub kept_items : List String → List String
unfolding trim_space
kept_items [] = []
kept_items (item ∷ rest) =
    let later = kept_items rest in if trim_space item == "" then later else trim_space item ∷ later

unfoldable pub split_list : String → List String
unfolding split kept_items
split_list s = kept_items (split 44 s)

-- The flag package's readers of typed values.
pub record Readers : Type 0 where
  pub read_int : String → Fallible String ℤ
  pub read_bool : String → Fallible String Bool
  pub read_duration : String → Fallible String ℤ

-- The value that a flag of RegisterFlags writes to.
pub data Flag : Type 0 where
  text_flag : (String → Options → Options) → Flag
  int_flag : (ℤ → Options → Options) → Flag
  bool_flag : (Bool → Options → Options) → Flag
  csv_flag : (List String → Options → Options) → Flag
  duration_flag : (ℤ → Options → Options) → Flag
  output_flag : Flag

abbrev pub set_implementation : (Implementation → Implementation) → Options → Options
set_implementation f o = record o { implementation = f o.implementation }

abbrev pub set_build : (Source → Source) → Options → Options
set_build f = set_implementation (λ i. record i { source = f i.source })

abbrev pub set_suite : (Source → Source) → Options → Options
set_suite f o = record o { suite = f o.suite }

-- The flags, in the order they are registered in.
abbrev pub flags : List (String × Flag)
flags =
    ("kubeconfig", text_flag (λ v o. record o { kubeconfig = v }))
    ∷ ("context", text_flag (λ v o. record o { context = v }))
    ∷ ("namespace", text_flag (λ v o. record o { namespace = v }))
    ∷ ("cluster-manager", text_flag (λ v o. record o { cluster_manager = v }))
    ∷ ("expected-clusters", int_flag (λ n o. record o { expected_clusters = n }))
    ∷ ("apis", csv_flag (λ vs o. record o { apis = vs }))
    ∷ ("profiles", csv_flag (λ vs o. record o { profiles = vs }))
    ∷ ("supported-features", csv_flag (λ vs o. record o { supported_features = vs }))
    ∷ ("test-filter", text_flag (λ v o. record o { test_filter = v }))
    ∷ ("run-mode", text_flag (λ v o. record o { run_mode = v }))
    ∷ ("organization", text_flag (λ v. set_implementation (λ i. record i { organization = v })))
    ∷ ("project", text_flag (λ v. set_implementation (λ i. record i { project = v })))
    ∷ ("version", text_flag (λ v. set_build (λ s. record s { version = v })))
    ∷ ("revision", text_flag (λ v. set_build (λ s. record s { revision = v })))
    ∷ ("dirty", bool_flag (λ b. set_build (λ s. record s { dirty = b })))
    ∷ ("mode", text_flag (λ v. set_implementation (λ i. record i { mode = v })))
    ∷ ("url", text_flag (λ v. set_implementation (λ i. record i { url = v })))
    ∷ ("contact", csv_flag (λ vs. set_implementation (λ i. record i { contact = vs })))
    ∷ ("reproduction", text_flag (λ v. set_implementation (λ i. record i { reproduction = v })))
    ∷ ("suite-version", text_flag (λ v. set_suite (λ s. record s { version = v })))
    ∷ ("suite-revision", text_flag (λ v. set_suite (λ s. record s { revision = v })))
    ∷ ("suite-dirty", bool_flag (λ b. set_suite (λ s. record s { dirty = b })))
    ∷ ("report-dir", text_flag (λ v o. record o { report_directory = v }))
    ∷ ("report-format", csv_flag (λ vs o. record o { report_formats = vs }))
    ∷ ("report-output", output_flag)
    ∷ ("timeout", duration_flag (λ n o. record o { timeout = n }))
    ∷ []

abbrev with_value :
    {A : Type 0} → (A → Options → Options) → Options → Fallible String A → Fallible String Options
with_value set o (ok value) = ok (set value o)
with_value set o (err e) = err e

-- One flag's `Set`.
unfoldable pub set_flag : Readers → Flag → String → Options → Fallible String Options
unfolding split_list
set_flag r (text_flag set) v o = ok (set v o)
set_flag r (int_flag set) v o = with_value set o (r.read_int v)
set_flag r (bool_flag set) v o = with_value set o (r.read_bool v)
set_flag r (csv_flag set) v o = ok (set (split_list v) o)
set_flag r (duration_flag set) v o = with_value set o (r.read_duration v)
set_flag r output_flag v o =
    if v == "single"
    then ok (record o { report_per_api = false })
    else if v == "per-api"
    then ok (record o { report_per_api = true })
    else err (concat ("unknown report-output " ∷ quote v ∷ []))

abbrev pub register_flags : Options → Options
register_flags o = defaults o

-- The flag of a name, as the flag set looks it up.
unfoldable pub flag_named : String → List (String × Flag) → Option Flag
flag_named name [] = none
flag_named name (f ∷ rest) =
    let later = flag_named name rest in if f.0 == name then some f.1 else later

-- optionsWithLegacyFilter; `legacy` is the value of ginkgo.label-filter, where that flag is defined.
unfoldable pub options_with_legacy_filter : Option String → Options → Options
unfolding concat
options_with_legacy_filter none o = o
options_with_legacy_filter (some legacy) o = if legacy == "" then o else record o {
  test_filter =
      if o.test_filter == ""
      then legacy
      else concat ("(" ∷ o.test_filter ∷ ") && (" ∷ legacy ∷ ")" ∷ []);
}
