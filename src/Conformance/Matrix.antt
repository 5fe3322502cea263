-- ===== src/Conformance/Matrix.antt =====
-- The matrix of accepted reports: ReadReport and GenerateMatrix of conformance/report.go.
mod Reading
pub mod Documents
pub mod Collected
pub mod Rows
pub mod Cells
pub mod Order
pub mod Groups
unfoldable pub use Reading.*
use Prim.Native.Char.{Char, code}
use Prim.Native.String
use mathlib.Core.Option
use cluster_inventory_api.Common.{
  String, Bool, true, false, not, ◌&&◌, ◌||◌, List, [], ◌∷◌, ◌++◌, map, Option, none, some, ◌==◌,
  nat_eq, if◌then◌else◌, is_empty, contains, concat, join, text_leb, Fallible, ok, err, ◌>>=◌, ◌>>◌,
}
use cluster_inventory_api.Conformance.Types.{
  Outcome, passed, outcome_text, result_text, TestResult, ProfileReport, ConformanceReport,
}
use cluster_inventory_api.Conformance.Errors.{Error, error_text}
use cluster_inventory_api.Conformance.Catalog.{features}
use cluster_inventory_api.Conformance.Platform.{Platform}
use cluster_inventory_api.Conformance.Report.{is_passed, validate_report}

-- The texts that the entries are sorted by.
abbrev pub sort_keys : Entry → List String
sort_keys e =
    let r = e.report in
    r.specification.revision ∷ r.suite.source.revision ∷ r.api.revision
    ∷ r.implementation.organization ∷ r.implementation.project ∷ r.implementation.source.version
    ∷ r.implementation.mode ∷ r.date ∷ e.path ∷ []

-- cmp.Or of the comparisons, not above zero
unfoldable pub keys_leb : List String → List String → Bool
unfolding text_leb
keys_leb [] ys = true
keys_leb (x ∷ xs) [] = false
keys_leb (x ∷ xs) (y ∷ ys) = let later = keys_leb xs ys in if x == y then later else text_leb x y

unfoldable pub insert_entry : Entry → List Entry → List Entry
unfolding keys_leb
insert_entry e [] = e ∷ []
insert_entry e (x ∷ xs) =
    let later = insert_entry e xs in
    if keys_leb (sort_keys e) (sort_keys x) then e ∷ x ∷ xs else x ∷ later

unfoldable pub sort_entries : List Entry → List Entry
unfolding insert_entry
sort_entries [] = []
sort_entries (e ∷ rest) = insert_entry e (sort_entries rest)

-- The loop of `featureStatus`.
unfoldable pub status_of : String → List TestResult → String
status_of feature [] = outcome_text passed
status_of feature (t ∷ rest) =
    let later = status_of feature rest in
    if t.requirement.feature == feature && not (is_passed t.outcome)
    then outcome_text t.outcome
    else later

unfoldable pub feature_status : ProfileReport → String → String
unfolding status_of
feature_status p feature =
    if not (contains p.supported_features feature) then "Unclaimed" else status_of feature p.tests

-- "&lt;" or "&gt;", by its letter, before a text
abbrev pub entity : Char → String → String
entity letter s = String.◌∷◌ "&" (String.◌∷◌ letter (String.◌∷◌ "t" (String.◌∷◌ ";" s)))

-- escapeCell, a strings.Replacer of single characters
unfoldable pub escape_cell : String → String
escape_cell String.[] = ""
escape_cell (String.◌∷◌ c s) =
    let rest = escape_cell s in
    if nat_eq (code c) 124
    then String.◌∷◌ "\\" (String.◌∷◌ "|" rest)
    else if nat_eq (code c) 10 || nat_eq (code c) 13
    then String.◌∷◌ " " rest
    else if nat_eq (code c) 60
    then entity "l" rest
    else if nat_eq (code c) 62
    then entity "g" rest
    else String.◌∷◌ c rest

-- matrixGroup
pub record Group : Type 0 where
  pub spec : String
  pub suite : String
  pub api : String

abbrev pub group_of : Entry → Group
group_of e = record {
  spec = e.report.specification.revision;
  suite = e.report.suite.source.revision;
  api = e.report.api.revision;
}

unfoldable pub same_group : Group → Group → Bool
same_group a b = a.spec == b.spec && a.suite == b.suite && a.api == b.api

-- A table of the matrix: a heading, or a row of the table above it.
pub data Line : Type 0 where
  heading : Entry → Line
  row : Entry → Line

-- The loop over the sorted entries; `group` is that of the table open.
unfoldable pub lines_of : Group → List Entry → List Line
unfolding same_group
lines_of group [] = []
lines_of group (e ∷ rest) =
    let later = lines_of (group_of e) rest in
    if same_group (group_of e) group then row e ∷ later else heading e ∷ row e ∷ later

abbrev pub columns : List String
columns =
    "Implementation" ∷ "Version / commit" ∷ "Mode" ∷ "Profile" ∷ "Result" ∷ "Inventory" ∷ "Run date"
      ∷ features
    ++ "Report" ∷ []

-- strings.Repeat("---|", n) for a list of n
abbrev pub rules : List String → String
rules [] = ""
rules (x ∷ rest) = concat ("---|" ∷ rules rest ∷ [])

-- The profile of a row; a report without one is not accepted.
abbrev pub first_profile : List ProfileReport → Option ProfileReport
first_profile [] = none
first_profile (p ∷ rest) = some p

abbrev pub profile_cells : (String → String) → Entry → ProfileReport → String
profile_cells url_text e p =
    let r = e.report in
    concat (
      "| "
      ∷ escape_cell r.implementation.organization
      ∷ " / "
      ∷ escape_cell r.implementation.project
      ∷ " | "
      ∷ escape_cell r.implementation.source.version
      ∷ " / `"
      ∷ r.implementation.source.revision
      ∷ "` | "
      ∷ escape_cell r.implementation.mode
      ∷ " | "
      ∷ p.name
      ∷ " | "
      ∷ result_text p.result
      ∷ " | "
      ∷ escape_cell r.environment.inventory_namespace
      ∷ " | "
      ∷ r.date
      ∷ " |"
      ∷ concat (map (λ f. concat (" " ∷ feature_status p f ∷ " |" ∷ [])) features)
      ∷ " [YAML]("
      ∷ url_text e.path
      ∷ ") |\n"
      ∷ [])

abbrev pub print_heading : Entry → String
print_heading e =
    let r = e.report in
    concat (
      "## "
      ∷ r.api.group_version
      ∷ "\n\nSpecification: `"
      ∷ r.specification.revision
      ∷ "` · Suite: `"
      ∷ r.suite.source.revision
      ∷ "` · API types: `"
      ∷ r.api.revision
      ∷ "`\n\n| "
      ∷ join " | " columns
      ∷ " |\n|"
      ∷ rules columns
      ∷ "\n"
      ∷ [])

-- `url_text` is url.URL's String for a path.
unfoldable pub print_line : (String → String) → Line → Option String
unfolding concat join features feature_status escape_cell
print_line url_text (heading e) = some (print_heading e)
print_line url_text (row e) =
    Option.map (profile_cells url_text e) (first_profile e.report.profiles)

abbrev pub prefixed : Option String → Option String → Option String
prefixed none later = none
prefixed (some text) later = Option.map (λ s. concat (text ∷ s ∷ [])) later

-- Where a row has no profile, the source's index panics: `none`.
unfoldable pub print_lines : (String → String) → List Line → Option String
unfolding print_line
print_lines url_text [] = some ""
print_lines url_text (l ∷ rest) = prefixed (print_line url_text l) (print_lines url_text rest)

abbrev pub introduction : String
introduction = concat (
    "# Cluster Inventory API conformance\n\nEach row is a submitted run. "
    ∷ "Only success denotes conformance for the required checks and claimed features. "
    ∷ "Unclaimed recommendations remain visible in the linked report.\n\n" ∷ [])

abbrev pub zero_group : Group
zero_group = record { spec = ""; suite = ""; api = "" }

abbrev pub printed_matrix : (String → String) → List Entry → Option String
printed_matrix url_text entries =
    prefixed
      (some
        (concat (introduction ∷ (if is_empty entries then "No accepted reports.\n" else "") ∷ [])))
      (print_lines url_text (lines_of zero_group entries))

-- The text that GenerateMatrix writes, where every entry has a profile.
unfoldable pub generate_matrix :
    Platform → Decoder → (String → String) → List Visit → Fallible String (Option String)
unfolding collect sort_entries lines_of print_lines
generate_matrix p d url_text visits = do
  entries ← collect p d visits
  ok (printed_matrix url_text (sort_entries entries))
