-- ===== src/Conformance/Command/Validates.antt =====
-- What conformance/cmd/report/main.go's run promises by its exit.
use Prim.Native.String.{String}
use mathlib.Core.Path.{◌≡◌, refl, ap, ◌∙◌}
use mathlib.Core.Logic.{◌≢◌, ◌↔◌, inl, inr}
use cluster_inventory_api.Common.{
  true, List, [], ◌∷◌, Option, none, some, ◌==◌, ◌||◌, not, nat_eq, ℕ, All, Bool-cases, Fallible,
  ok, err, >>=-eq-ok, >>-eq-ok,
}
use cluster_inventory_api.Conformance.Platform.{Platform}
use cluster_inventory_api.Conformance.Types.{ConformanceReport}
use cluster_inventory_api.Conformance.Report.{validate_report}
use cluster_inventory_api.Conformance.Matrix.{Decoder, read_report, accepted}
use cluster_inventory_api.Conformance.Matrix.Documents.{HoldsOne, read_report_iff, located-eq-ok}
use cluster_inventory_api.Conformance.Matrix.Rows.{generate_matrix-total}
use cluster_inventory_api.Conformance.Command.{
  Shell, panicked, CommandRun, valid_line, checked_report, print_then, printed, validate_paths,
  shown, matrix_of, validate_command, run_command,
}

-- The file holds one report and nothing behind it, and the report is accepted as a submission.
abbrev pub IsValidFile : Platform → Decoder → Shell → String → Type 0
IsValidFile p d sh path =
    (r : ConformanceReport) × HoldsOne d (sh.read_file path) r × (validate_report p r true ≡ ok tt)

print_then-eq-ok :
    (refused : Option String) (text : String) (later : CommandRun)
    → (print_then refused text later).end ≡ ok tt
    → later.end ≡ ok tt
print_then-eq-ok none text later h = h
print_then-eq-ok (some e) text later h = cc

print_then-safe :
    (refused : Option String) (text : String) (later : CommandRun)
    → later.end ≢ err panicked
    → (print_then refused text later).end ≢ err panicked
print_then-safe none text later h = h
print_then-safe (some e) text later h = λ k. cc

module _ (p : Platform) (d : Decoder) (sh : Shell) where
  checked_report-eq-ok :
      (path : String) (r : ConformanceReport)
      → checked_report p d sh path ≡ ok r
      → IsValidFile p d sh path
  checked_report-eq-ok path r h =
      let (got, read, h1) = >>=-eq-ok (read_report d path (sh.read_file path)) _ h in
      let (valid, _) = >>-eq-ok (accepted p path got) _ h1 in
      (got, (read_report_iff d path (sh.read_file path) got).0 read, located-eq-ok path _ valid)

  IsValidFile-checked :
      (path : String)
      → IsValidFile p d sh path
      → (r : ConformanceReport) × (checked_report p d sh path ≡ ok r)
  IsValidFile-checked path (r, one, valid) =
      (r, rw ((read_report_iff d path (sh.read_file path) r).1 one, valid) refl)

  printed-eq-ok :
      (path : String) (m : Fallible String ConformanceReport) (later : CommandRun)
      → (printed sh path m later).end ≡ ok tt
      → ((r : ConformanceReport) × (m ≡ ok r)) × (later.end ≡ ok tt)
  printed-eq-ok path (err e) later h = cc
  printed-eq-ok path (ok r) later h =
      ((r, refl), print_then-eq-ok (sh.refused (valid_line path r)) (valid_line path r) later h)

  printed-goes :
      (path : String) (m : Fallible String ConformanceReport) (later : CommandRun)
      (r : ConformanceReport)
      → ((text : String) → sh.refused text ≡ none)
      → m ≡ ok r
      → (printed sh path m later).end ≡ later.end
  printed-goes path (err e) later r quiet h = cc
  printed-goes path (ok x) later r quiet h =
      ap (λ refused. (print_then refused (valid_line path x) later).end) (quiet (valid_line path x))

  -- Where the output takes every text, the validate command ends without an error exactly when each
  -- file holds one report, nothing behind it, and the report is accepted as a submission.
  pub validate_paths-ok_iff :
      (paths : List String)
      → ((text : String) → sh.refused text ≡ none)
      → ((validate_paths p d sh paths).end ≡ ok tt) ↔ All (IsValidFile p d sh) paths
  unfolding validate_paths
  validate_paths-ok_iff [] quiet = ((λ h. tt), (λ h. refl))
  validate_paths-ok_iff (path ∷ rest) quiet =
      let ih = validate_paths-ok_iff rest quiet in
      let m = checked_report p d sh path in
      let later = validate_paths p d sh rest in
      (
        (λ h.
            let ((r, e), k) = printed-eq-ok path m later h in
            (checked_report-eq-ok path r e, ih.0 k)),
        (λ v.
            let (r, e) = IsValidFile-checked path v.0 in
            printed-goes path m later r quiet e ∙ ih.1 v.1),
      )

  printed-safe :
      (path : String) (m : Fallible String ConformanceReport) (later : CommandRun)
      → later.end ≢ err panicked
      → (printed sh path m later).end ≢ err panicked
  printed-safe path (err e) later h k = cc
  printed-safe path (ok r) later h k =
      print_then-safe (sh.refused (valid_line path r)) (valid_line path r) later h k

  validate_paths-safe : (paths : List String) → (validate_paths p d sh paths).end ≢ err panicked
  unfolding validate_paths
  validate_paths-safe [] k = cc
  validate_paths-safe (path ∷ rest) k =
      printed-safe path _ (validate_paths p d sh rest) (validate_paths-safe rest) k

  shown-safe : (m : Fallible String (Option String)) → m ≢ ok none → (shown sh m).end ≢ err panicked
  shown-safe (err e) h k = cc
  shown-safe (ok none) h k = h refl
  shown-safe (ok (some text)) h k =
      print_then-safe (sh.refused text) text (record { output = []; end = ok tt }) (λ e. cc) k

  matrix_of-safe : (m : Fallible String (String × ℕ)) → (matrix_of p d sh m).end ≢ err panicked
  matrix_of-safe (err e) k = cc
  matrix_of-safe (ok (directory, left)) k =
      elim (Bool-cases (directory == "" || not (nat_eq left 0))) [
        | inl t ↦ cc (rw t at k)
        | inr t ↦
            shown-safe _ (generate_matrix-total p d sh.url_text (sh.walk directory)) (rw t at k)
      ]

  validate_command-safe : (args : List String) → (validate_command p d sh args).end ≢ err panicked
  validate_command-safe [] k = cc
  validate_command-safe (path ∷ rest) k = validate_paths-safe (path ∷ rest) k

-- Whatever its arguments and files, and whatever a decoder gives for them, the report command never
-- panics at the first profile of a report that has none.
pub run_command-safe :
    (p : Platform) (d : Decoder) (sh : Shell) (args : List String)
    → (run_command p d sh args).end ≢ err panicked
unfolding run_command
run_command-safe p d sh [] k = cc
run_command-safe p d sh (name ∷ args) k = elim (Bool-cases (name == "validate")) [
  | inl t ↦ validate_command-safe p d sh args (rw t at k)
  | inr t ↦ elim (Bool-cases (name == "matrix")) [
    | inl m ↦ matrix_of-safe p d sh (sh.parse_matrix args) (rw m at (rw t at k))
    | inr m ↦ cc (rw m at (rw t at k))
  ]
]
