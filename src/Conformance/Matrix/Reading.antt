-- ===== src/Conformance/Matrix/Reading.antt =====
-- What the matrix is made of: ReadReport, and the walk of GenerateMatrix, of conformance/report.go.
use cluster_inventory_api.Common.{
  String, Bool, true, not, ◌&&◌, ◌||◌, List, [], ◌∷◌, Option, none, some, ◌==◌, if◌then◌else◌,
  concat, Fallible, ok, err, ◌>>=◌, ◌>>◌,
}
use cluster_inventory_api.Conformance.Types.{ConformanceReport}
use cluster_inventory_api.Conformance.Errors.{Error, error_text}
use cluster_inventory_api.Conformance.Platform.{Platform}
use cluster_inventory_api.Conformance.Report.{validate_report}

-- One call of filepath.WalkDir's function: its error, the entry, and what the calls on it return; `rest`
-- is what the decoder gives behind the first document, where `none` is the end of the file.
pub record Visit : Type 0 where
  pub fault : Option String
  pub is_dir : Bool
  pub extension : String
  pub path : String
  pub content : Fallible String String
  pub relative : Fallible String String

-- The YAML decoder: the first document, and whether a text ends behind it.
pub record Decoder : Type 0 where
  pub first : String → Fallible String ConformanceReport
  pub ends : String → Bool

abbrev pub decoded : String → Fallible String ConformanceReport → Fallible String ConformanceReport
decoded path (ok r) = ok r
decoded path (err cause) = err (concat ("decode " ∷ path ∷ ": " ∷ cause ∷ []))

unfoldable pub read_report :
    Decoder → String → Fallible String String → Fallible String ConformanceReport
unfolding concat
read_report d path content = do
  text ← content
  report ← decoded path (d.first text)
  if d.ends text
      then ok report
      else err (concat (path ∷ " must contain exactly one report document" ∷ []))

pub record Entry : Type 0 where
  pub report : ConformanceReport
  pub path : String

abbrev pub located : String → Fallible Error (Unit {0}) → Fallible String (Unit {0})
located path (ok u) = ok u
located path (err e) = err (concat (path ∷ ": " ∷ error_text e ∷ []))

abbrev pub accepted : Platform → String → ConformanceReport → Fallible String (Unit {0})
accepted p path r = located path (validate_report p r true)

-- The end of one call for a YAML file.
unfoldable pub collect_file : Platform → Decoder → Visit → Fallible String Entry
unfolding read_report
collect_file p d v = do
  report ← read_report d v.path v.content
  accepted p v.path report
  relative ← v.relative
  ok (record { report = report; path = relative })

abbrev pub is_yaml : Visit → Bool
is_yaml v = not v.is_dir && (v.extension == ".yaml" || v.extension == ".yml")

-- One call of the function that walks, before those of `later`.
unfoldable pub visit :
    Platform
    → Decoder
    → Visit
    → Option String
    → Fallible String (List Entry)
    → Fallible String (List Entry)
unfolding collect_file
visit p d v (some e) later = err e
visit p d v none later =
    if is_yaml v
    then (do entry ← collect_file p d v; entries ← later; ok (entry ∷ entries))
    else later

-- The walk, which stops at the first error.
unfoldable pub collect : Platform → Decoder → List Visit → Fallible String (List Entry)
unfolding visit
collect p d [] = ok []
collect p d (v ∷ rest) = visit p d v v.fault (collect p d rest)
