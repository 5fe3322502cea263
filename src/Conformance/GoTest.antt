-- ===== src/Conformance/GoTest.antt =====
-- The suite inside a Go test: RunConformance and TestConformance of conformance/suite.go.
pub mod Passes
use cluster_inventory_api.Common.{
  String, Bool, List, [], ◌∷◌, ◌++◌, Option, none, some, ℕ, Fallible, ok, err,
}
use cluster_inventory_api.Conformance.Types.{Result, ProfileReport, ConformanceReport, Options}
use cluster_inventory_api.Conformance.Errors.{Error}
use cluster_inventory_api.Conformance.Options.{defaults}
use cluster_inventory_api.Conformance.Platform.{Platform}
use cluster_inventory_api.Conformance.Suite.{World, run}
use cluster_inventory_api.Conformance.Files.{Files, Desk, WriteFault, write_reports}
use cluster_inventory_api.Conformance.Flags.{options_with_legacy_filter}

-- What makes the Go test fail.
pub data TestError : Type 0 where
  unwritten : WriteFault → TestError
  unmet : Error → TestError

pub record TestRun : Type 0 where
  pub files : Files
  pub errors : List TestError
  pub logged : Option (Result × ℕ)

abbrev pub write_error : Fallible WriteFault (Unit {0}) → List TestError
write_error (ok u) = []
write_error (err fault) = unwritten fault ∷ []

abbrev pub run_error : Option Error → List TestError
run_error none = []
run_error (some e) = unmet e ∷ []

-- The result and the first profile's total; an index out of range is `none`.
abbrev pub logged_line : Result → List ProfileReport → Option (Result × ℕ)
logged_line result [] = none
logged_line result (p ∷ rest) = some (result, p.statistics.total)

-- `desk` writes a report into a directory; the world's answers include the test's own deadline.
unfoldable pub run_conformance :
    Platform → World → (String → ConformanceReport → Desk) → Options → Files → TestRun
unfolding defaults run write_reports
run_conformance p w desk options files =
    let o = defaults options in
    let (report, fault) = run p w o in
    let (left, written) =
      write_reports (desk o.report_directory report) o.report_per_api o.report_formats files in
    record {
      files = left;
      errors = write_error written ++ run_error fault;
      logged = logged_line report.result report.profiles;
    }

-- TestConformance, with the values of the command line's flags.
unfoldable pub test_conformance :
    Platform
    → World
    → (String → ConformanceReport → Desk)
    → Option String
    → Options
    → Files
    → TestRun
unfolding run_conformance options_with_legacy_filter
test_conformance p w desk legacy options =
    run_conformance p w desk (options_with_legacy_filter legacy options)
