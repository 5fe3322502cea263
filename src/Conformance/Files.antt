-- ===== src/Conformance/Files.antt =====
-- Writing reports: atomicWrite and WriteReports of conformance/report.go, on a map of files. What the
-- operating system answers is the attempt's.
pub mod Atomic
pub mod Written
pub mod Reports
use cluster_inventory_api.Common.{
  ℕ, ◌+◌, String, Bool, true, false, List, [], ◌∷◌, ◌++◌, Option, none, some, ◌==◌, if◌then◌else◌,
  is_empty, concat, Fallible, ok, err, reject_if,
}
use cluster_inventory_api.Conformance.Types.{ConformanceReport}
use cluster_inventory_api.Conformance.Errors.{OptionFault, option_text}
use cluster_inventory_api.Conformance.Options.{validate_formats}

-- The content of each path, where there is a file.
abbrev pub Files : Type 0
Files = String → Option String

abbrev pub update : Files → String → Option String → Files
update files path content q = if path == q then content else files q

-- A write puts down all of its data, or a part of it and returns an error.
pub data WriteResult : Type 0 where
  complete : WriteResult
  torn : (landed cause : String) → WriteResult

-- What the calls of one `atomicWrite` return: the temporary file's name or the error of CreateTemp, and
-- the errors of Close, Chmod, Rename and Remove.
pub record Attempt : Type 0 where
  pub created : Fallible String String
  pub write : WriteResult
  pub close : Option String
  pub chmod : Option String
  pub rename : Option String
  pub remove : Option String

-- A call's end: every state of the files on the way, the last one, and the errors joined.
pub record Ending : Type 0 where
  pub trace : List Files
  pub files : Files
  pub errors : List String

abbrev pub error_list : Option String → List String
error_list none = []
error_list (some e) = e ∷ []

abbrev pub landed_text : WriteResult → String → String
landed_text complete text = text
landed_text (torn part cause) text = part

abbrev pub write_errors : WriteResult → List String
write_errors complete = []
write_errors (torn part cause) = cause ∷ []

-- The deferred Remove: an error that says that the file does not exist is dropped.
abbrev pub remove_temp : Option String → String → List Files → Files → List String → Ending
remove_temp answer temp before files errors = elim (files temp) [
  | none ↦ record { trace = before ++ files ∷ []; files = files; errors = errors }
  | some content ↦ elim answer [
    | none ↦ record {
      trace = before ++ files ∷ update files temp none ∷ [];
      files = update files temp none;
      errors = errors;
    }
    | some e ↦ record { trace = before ++ files ∷ []; files = files; errors = errors ++ e ∷ [] }
  ]
]

abbrev pub renamed : String → String → Files → Files
renamed temp path files = update (update files path (files temp)) temp none

-- The rest of the call, by the errors of Write and Close and those of Chmod and Rename; `written` is
-- the state with the temporary file written.
abbrev pub publish :
    Option String
    → String
    → String
    → List Files
    → Files
    → (early : List String) (chmod rename : Option String) → Ending
publish remove temp path before written (e ∷ rest) chmod rename =
    remove_temp remove temp before written (e ∷ rest)
publish remove temp path before written [] (some e) rename =
    remove_temp remove temp before written (e ∷ [])
publish remove temp path before written [] none (some e) =
    remove_temp remove temp before written (e ∷ [])
publish remove temp path before written [] none none =
    remove_temp remove temp (before ++ written ∷ []) (renamed temp path written) []

abbrev pub write_temp : Attempt → String → String → Files → Fallible String String → Ending
write_temp a path text files (err e) = record { trace = files ∷ []; files = files; errors = e ∷ [] }
write_temp a path text files (ok temp) =
    publish a.remove temp path (files ∷ update files temp (some "") ∷ [])
      (update files temp (some (landed_text a.write text)))
      (write_errors a.write ++ error_list a.close) a.chmod a.rename

unfoldable pub atomic_write : Attempt → String → String → Files → Ending
atomic_write a path text files = write_temp a path text files a.created

-- filepath.Join(dir, base + "." + format), as a name in the directory
unfoldable pub file_name : Bool → String → String
unfolding concat
file_name per_api format =
    concat ("report" ∷ (if per_api then "-clusterprofile" else "") ∷ "." ∷ format ∷ [])

-- slices.Compact
unfoldable pub compact : List String → List String
compact [] = []
compact (x ∷ []) = x ∷ []
compact (x ∷ y ∷ rest) = let later = compact (y ∷ rest) in if x == y then later else x ∷ later

-- The templates and the encoder, filepath.Join with the directory, the error of MkdirAll, and the
-- answers of the operating system to each write, in their order.
pub record Desk : Type 0 where
  pub render : String → Fallible String String
  pub path_of : String → String
  pub make_directory : Option String
  pub attempt : ℕ → Attempt

pub data WriteFault : Type 0 where
  no_format : WriteFault
  bad_format : OptionFault → WriteFault
  failed : List String → WriteFault

-- The loop over the formats.
unfoldable pub write_each :
    Desk → Bool → ℕ → List String → Files → Files × Fallible WriteFault (Unit {0})
unfolding atomic_write file_name
write_each d per_api n [] files = (files, ok tt)
write_each d per_api n (format ∷ rest) files = elim (d.render format) [
  | err e ↦ (files, err (failed (e ∷ [])))
  | ok text ↦
      let end = atomic_write (d.attempt n) (d.path_of (file_name per_api format)) text files in
      let later = write_each d per_api (n + 1) rest end.files in
      if is_empty end.errors then later else (end.files, err (failed end.errors))
]

-- By the answers of validateFormats and of MkdirAll.
abbrev pub write_valid :
    Desk
    → Bool
    → List String
    → Files
    → Fallible OptionFault (Unit {0})
    → Option String
    → Files × Fallible WriteFault (Unit {0})
write_valid d per_api formats files (err fault) made = (files, err (bad_format fault))
write_valid d per_api formats files (ok u) (some e) = (files, err (failed (e ∷ [])))
write_valid d per_api formats files (ok u) none = write_each d per_api 0 (compact formats) files

unfoldable pub write_reports :
    Desk → Bool → List String → Files → Files × Fallible WriteFault (Unit {0})
unfolding write_each compact validate_formats
write_reports d per_api formats files =
    if is_empty formats
    then (files, err no_format)
    else write_valid d per_api formats files (validate_formats formats) d.make_directory
