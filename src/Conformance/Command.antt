-- ===== src/Conformance/Command.antt =====
-- The report command: run of conformance/cmd/report/main.go.
pub mod Validates
use cluster_inventory_api.Common.{
  String, Bool, true, false, List, [], ◌∷◌, ◌++◌, Option, none, some, ◌==◌, ◌||◌, not, nat_eq, ℕ,
  if◌then◌else◌, concat, quote, Fallible, ok, err, ◌>>=◌, ◌>>◌,
}
use cluster_inventory_api.Conformance.Types.{ConformanceReport, result_text}
use cluster_inventory_api.Conformance.Platform.{Platform}
use cluster_inventory_api.Conformance.Matrix.{
  Visit, Decoder, read_report, accepted, generate_matrix,
}

-- The files and the standard output: os.ReadFile, the walk of a directory, url.URL's String, the error
-- of writing a text, and the flag package's parse of the matrix command's arguments, which gives the
-- directory and the number of arguments left.
pub record Shell : Type 0 where
  pub read_file : String → Fallible String String
  pub walk : String → List Visit
  pub url_text : String → String
  pub refused : String → Option String
  pub parse_matrix : List String → Fallible String (String × ℕ)

-- What was printed, and the error. An index out of range is a panic.
pub data CommandFault : Type 0 where
  failed : String → CommandFault
  panicked : CommandFault

pub record CommandRun : Type 0 where
  pub output : List String
  pub end : Fallible CommandFault (Unit {0})

abbrev pub valid_line : String → ConformanceReport → String
valid_line path r = concat ("Valid: " ∷ path ∷ " (" ∷ result_text r.result ∷ ")\n" ∷ [])

abbrev pub checked_report : Platform → Decoder → Shell → String → Fallible String ConformanceReport
checked_report p d sh path = do r ← read_report d path (sh.read_file path); accepted p path r; ok r

-- A text is printed, by the error of writing it, and then `later` runs.
abbrev pub print_then : Option String → String → CommandRun → CommandRun
print_then (some e) text later = record { output = []; end = err (failed e) }
print_then none text later = record { output = text ∷ later.output; end = later.end }

-- Behind the check of one path: the line it prints, and then `later`.
abbrev pub printed : Shell → String → Fallible String ConformanceReport → CommandRun → CommandRun
printed sh path (err e) later = record { output = []; end = err (failed e) }
printed sh path (ok r) later = print_then (sh.refused (valid_line path r)) (valid_line path r) later

unfoldable pub validate_paths : Platform → Decoder → Shell → List String → CommandRun
unfolding read_report
validate_paths p d sh [] = record { output = []; end = ok tt }
validate_paths p d sh (path ∷ rest) =
    printed sh path (checked_report p d sh path) (validate_paths p d sh rest)

abbrev pub shown : Shell → Fallible String (Option String) → CommandRun
shown sh (err e) = record { output = []; end = err (failed e) }
shown sh (ok none) = record { output = []; end = err panicked }
shown sh (ok (some text)) = print_then (sh.refused text) text (record { output = []; end = ok tt })

abbrev pub matrix_of : Platform → Decoder → Shell → Fallible String (String × ℕ) → CommandRun
matrix_of p d sh (err e) = record { output = []; end = err (failed e) }
matrix_of p d sh (ok (directory, left)) =
    if directory == "" || not (nat_eq left 0)
    then record {
      output = [];
      end = err (failed "matrix requires --reports-dir and no positional arguments");
    }
    else shown sh (generate_matrix p d sh.url_text (sh.walk directory))

abbrev pub validate_command : Platform → Decoder → Shell → List String → CommandRun
validate_command p d sh [] = record {
  output = [];
  end = err (failed "validate requires at least one report");
}
validate_command p d sh (path ∷ rest) = validate_paths p d sh (path ∷ rest)

unfoldable pub run_command : Platform → Decoder → Shell → List String → CommandRun
unfolding validate_paths generate_matrix
run_command p d sh [] = record {
  output = [];
  end =
      err (
        failed "usage: report validate <report.yaml>... | report matrix --reports-dir <directory>");
}
run_command p d sh (name ∷ args) =
    if name == "validate"
    then validate_command p d sh args
    else if name == "matrix"
    then matrix_of p d sh (sh.parse_matrix args)
    else record {
      output = [];
      end = err (failed (concat ("unknown report command " ∷ quote name ∷ [])));
    }
