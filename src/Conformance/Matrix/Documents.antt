-- ===== src/Conformance/Matrix/Documents.antt =====
-- When ReadReport of conformance/report.go returns a report.
use mathlib.Core.Path.{◌≡◌, refl, ap, ◌∙◌}
use mathlib.Core.Logic.{◌↔◌}
use Prim.Native.String.{String}
use cluster_inventory_api.Common.{
  Bool, true, false, if◌then◌else◌, Fallible, ok, err, >>=-eq-ok, ok_injective,
}
use cluster_inventory_api.Conformance.Types.{ConformanceReport}
use cluster_inventory_api.Conformance.Errors.{Error}
use cluster_inventory_api.Conformance.Matrix.{Decoder, decoded, located, read_report}

pub located-eq-ok :
    (path : String) (m : Fallible Error (Unit {0})) → located path m ≡ ok tt → m ≡ ok tt
located-eq-ok path (ok u) h = refl
located-eq-ok path (err e) h = cc

decoded-eq-ok :
    (path : String) (m : Fallible String ConformanceReport) (r : ConformanceReport)
    → decoded path m ≡ ok r
    → m ≡ ok r
decoded-eq-ok path (ok a) r h = h
decoded-eq-ok path (err e) r h = cc

ended_report :
    (ends : Bool) (report r : ConformanceReport) (fault : String)
    → (if ends then ok report else err fault) ≡ ok r
    → (report ≡ r) × (ends ≡ true)
ended_report true report r fault h = (ok_injective report r h, refl)
ended_report false report r fault h = cc

-- A file that can be read and holds one report, with nothing behind it
pub record HoldsOne (d : Decoder) (content : Fallible String String) (r : ConformanceReport)
    : Type 0 where
  pub text : String
  pub read : content ≡ ok text
  pub first : d.first text ≡ ok r
  pub ends : d.ends text ≡ true

pub read_report_iff :
    (d : Decoder) (path : String) (content : Fallible String String) (r : ConformanceReport)
    → (read_report d path content ≡ ok r) ↔ HoldsOne d content r
unfolding read_report
read_report_iff d path content r = (
  (λ h.
      let (text, read, h1) = >>=-eq-ok content _ h in
      let (report, first, h2) = >>=-eq-ok (decoded path (d.first text)) _ h1 in
      let (same, ends) = ended_report (d.ends text) report r _ h2 in
      record {
        text = text;
        read = read;
        first = decoded-eq-ok path (d.first text) report first ∙ ap ok same;
        ends = ends;
      }),
  (λ h. rw (h.read, h.first, h.ends) refl),
)
