-- ===== src/Conformance/GoTest/Passes.antt =====
-- What a Go test of conformance/suite.go's RunConformance shows when it passes.
use mathlib.Core.Path.{◌≡◌, refl}
use mathlib.Core.Logic.{◌≢◌}
use cluster_inventory_api.Common.{
  String, Bool, List, [], ◌∷◌, ◌++◌, Option, none, some, All, Fallible, ok, err,
}
use cluster_inventory_api.Conformance.Types.{
  Result, success, ProfileReport, ConformanceReport, Options,
}
use cluster_inventory_api.Conformance.Errors.{Error}
use cluster_inventory_api.Conformance.Options.{defaults}
use cluster_inventory_api.Conformance.Platform.{Platform}
use cluster_inventory_api.Conformance.Suite.{World, run}
use cluster_inventory_api.Conformance.Suite.Complete.{ListsCatalog, run-ListsCatalog}
use cluster_inventory_api.Conformance.Suite.Succeeds.{run-success_iff}
use cluster_inventory_api.Conformance.Files.{Files, Desk, WriteFault, write_reports}
use cluster_inventory_api.Conformance.Files.Written.{IsSeparate}
use cluster_inventory_api.Conformance.Files.Reports.{IsWritten, Meets, write_reports-Meets}
use cluster_inventory_api.Conformance.GoTest.{write_error, run_error, logged_line, run_conformance}

logged-ListsCatalog :
    (result : Result) (ps : List ProfileReport) → ListsCatalog ps → logged_line result ps ≢ none
logged-ListsCatalog result [] (p, one, all) h = cc
logged-ListsCatalog result (p ∷ rest) listed h = cc

-- RunConformance always has a profile to log: its index is never out of range.
pub run_conformance-logs :
    (p : Platform) (w : World) (desk : String → ConformanceReport → Desk) (options : Options)
    (files : Files)
    → (run_conformance p w desk options files).logged ≢ none
unfolding run_conformance
run_conformance-logs p w desk options files =
    logged-ListsCatalog _ _ (run-ListsCatalog p w (defaults options))

no_errors :
    (m : Fallible WriteFault (Unit {0})) (fault : Option Error)
    → write_error m ++ run_error fault ≡ []
    → (m ≡ ok tt) × (fault ≡ none)
no_errors (ok u) none h = (refl, refl)
no_errors (ok u) (some e) h = cc
no_errors (err e) fault h = cc

Meets-ok :
    (d : Desk) (per_api : Bool) (formats : List String) (old : Files)
    (end : Files × Fallible WriteFault (Unit {0}))
    → end.1 ≡ ok tt
    → Meets d per_api formats old end
    → All (IsWritten d per_api end.0) formats
Meets-ok d per_api formats old (now, ok u) h (_, _, _, written) = written
Meets-ok d per_api formats old (now, err e) h meets = cc

-- When the Go test has no error, the run's result is success and each format asked for has the whole
-- rendering of the run's report at its path, where the paths of the reports and of the temporary files
-- are different.
pub run_conformance-passes :
    (p : Platform) (w : World) (desk : String → ConformanceReport → Desk) (options : Options)
    (files : Files)
    → (let o = defaults options in
        IsSeparate (desk o.report_directory (run p w o).0) o.report_per_api)
    → (run_conformance p w desk options files).errors ≡ []
    → (let o = defaults options in
        let report = (run p w o).0 in
        let now = (run_conformance p w desk options files).files in
        (report.result ≡ success)
        × All (IsWritten (desk o.report_directory report) o.report_per_api now) o.report_formats)
unfolding run_conformance
run_conformance-passes p w desk options files separate h =
    let o = defaults options in
    let report = (run p w o).0 in
    let d = desk o.report_directory report in
    let end = write_reports d o.report_per_api o.report_formats files in
    let (written, met) = no_errors end.1 (run p w o).1 h in
    (
      (run-success_iff p w o).0 met,
      Meets-ok d o.report_per_api o.report_formats files end written
          (write_reports-Meets d o.report_per_api o.report_formats files separate),
    )
