-- ===== src/Conformance/Suite/Rows.antt =====
-- The rows of a run's report under the validation of a report's tests.
use cluster_inventory_api.Common.{
  String, ◌≡◌, suc, refl, ap, true, false, not, ◌&&◌, List, [], ◌∷◌, some, ◌==◌, eq_refl, length,
  find, contains, is_blank, ok,
}
use cluster_inventory_api.Conformance.Types.{Requirement, optional, TestResult}
use cluster_inventory_api.Conformance.Catalog.{catalog}
use cluster_inventory_api.Conformance.Report.{
  is_other, is_passed, is_not_supported, same_requirement, validate_test, scan_tests,
}

-- A test that a run may write for a requirement.
pub record IsRow (req : Requirement) (t : TestResult) : Type 0 where
  pub about : t.requirement ≡ req
  pub known : is_other t.outcome ≡ false
  pub reasoned : not (is_passed t.outcome) && is_blank t.message ≡ false
  pub claimed : is_not_supported t.outcome && not (optional req) ≡ false

-- One row for each requirement, in order.
abbrev pub AreRows : List Requirement → List TestResult → Type 0
AreRows [] [] = Unit
AreRows (req ∷ reqs) (t ∷ tests) = IsRow req t × AreRows reqs tests
AreRows _ _ = ⊥

-- The requirements are the catalog's, and no identifier comes twice or was seen before.
abbrev pub AreScannable : List String → List Requirement → Type 0
AreScannable seen [] = Unit
AreScannable seen (r ∷ rest) =
    (contains seen r.id ≡ false)
    × (find (λ req. req.id == r.id) catalog ≡ some r)
    × AreScannable (r.id ∷ seen) rest

same_requirement_refl : (r : Requirement) → same_requirement r r ≡ true
unfolding same_requirement
same_requirement_refl r = simp eq_refl

validate_row :
    (req : Requirement) (t : TestResult)
    → find (λ r. r.id == req.id) catalog ≡ some req
    → IsRow req t
    → validate_test t ≡ ok tt
unfolding validate_test
validate_row req t h row =
    rw (row.about, h, same_requirement_refl req, row.known, row.reasoned, row.claimed) refl

pub scan_rows :
    (seen : List String) (reqs : List Requirement) (tests : List TestResult)
    → AreScannable seen reqs
    → AreRows reqs tests
    → scan_tests seen tests ≡ ok tt
unfolding scan_tests
scan_rows seen [] [] h rows = refl
scan_rows seen [] (t ∷ tests) h rows = absurd rows
scan_rows seen (r ∷ reqs) [] h rows = absurd rows
scan_rows seen (r ∷ reqs) (t ∷ tests) (new, listed, h) (row, rows) =
    let valid = validate_row r t listed row in
    let later = scan_rows (r.id ∷ seen) reqs tests h rows in rw (valid, row.about, new) later

pub length-rows :
    (reqs : List Requirement) (tests : List TestResult)
    → AreRows reqs tests
    → length tests ≡ length reqs
length-rows [] [] h = refl
length-rows [] (t ∷ tests) h = absurd h
length-rows (r ∷ reqs) [] h = absurd h
length-rows (r ∷ reqs) (t ∷ tests) (_, h) = ap suc (length-rows reqs tests h)

pub catalog-AreScannable : AreScannable [] catalog
unfolding contains find catalog
catalog-AreScannable = (
  refl,
  refl,
  (
    refl,
    refl,
    (
      refl,
      refl,
      (
        refl,
        refl,
        (
          refl,
          refl,
          (refl, refl, (refl, refl, (refl, refl, (refl, refl, (refl, refl, (refl, refl, tt)))))),
        ),
      ),
    ),
  ),
)
