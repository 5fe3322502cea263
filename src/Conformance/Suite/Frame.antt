-- ===== src/Conformance/Suite/Frame.antt =====
-- What every report of a run keeps of the new report: a header that validates, and one producer
-- profile with claims that validate; and what finishing such a report gives.
use cluster_inventory_api.Common.{
  ℕ, String, ◌≡◌, refl, ap, true, List, [], ◌∷◌, ◌++◌, map, none, eq_refl, nat_eq, In, sort, ok,
  first_error, arith,
}
use cluster_inventory_api.Common.Sort.Laws.{sort_by-All}
use cluster_inventory_api.Common.Sort.Members.{In-sort_by, In-sort_by_inv, sort_by-Distinct}
use cluster_inventory_api.Apis.{cluster_profile_kind}
use cluster_inventory_api.Conformance.Types.{
  TestResult, Statistics, ProfileReport, ConformanceReport, Options, result_text,
}
use cluster_inventory_api.Conformance.Catalog.{catalog, features, spec_ref}
use cluster_inventory_api.Conformance.Summary.{summarize, overall}
use cluster_inventory_api.Conformance.Options.{
  producer_profile, validate_inventory, validate_run_mode, validate_features,
}
use cluster_inventory_api.Conformance.Options.Features.{validate_features_iff}
use cluster_inventory_api.Conformance.Platform.{Platform}
use cluster_inventory_api.Conformance.Report.{
  same_statistics, same_result, header_steps, only_profile, validate_profile, body_steps,
  validate_development,
}
use cluster_inventory_api.Conformance.Suite.{
  World, new_report, finish_profile, finish, append_tests,
}
use cluster_inventory_api.Conformance.Suite.Rows.{
  AreRows, scan_rows, length-rows, catalog-AreScannable,
}

-- The parts of a report that a run writes once.
pub record HasHeader (p : Platform) (r : ConformanceReport) : Type 0 where
  pub header : first_error (header_steps p r) ≡ ok tt
  pub inventory :
      validate_inventory r.environment.inventory_namespace r.environment.expected_clusters ≡ ok tt

-- A profile of the producer, with these tests.
pub record IsProducer (tests : List TestResult) (q : ProfileReport) : Type 0 where
  pub name : q.name ≡ producer_profile
  pub api : q.api ≡ cluster_profile_kind
  pub role : q.role ≡ "producer"
  pub claims : validate_features q.supported_features ≡ ok tt
  pub holds : q.tests ≡ tests

-- The report has a header that validates, and one such profile.
pub record IsFramed (p : Platform) (tests : List TestResult) (r : ConformanceReport) : Type 0 where
  pub header : HasHeader p r
  pub profile : ProfileReport
  pub single : r.profiles ≡ profile ∷ []
  pub producer : IsProducer tests profile

same_statistics_refl : (a : Statistics) → same_statistics a a ≡ true
unfolding same_statistics
same_statistics_refl a = ground arith

nat_eq_of_eq : {m n : ℕ} → m ≡ n → nat_eq m n ≡ true
nat_eq_of_eq h = ground arith

finish_profile-valid :
    (tests : List TestResult) (q : ProfileReport)
    → IsProducer tests q
    → AreRows catalog tests
    → validate_profile (finish_profile q) ≡ ok tt
unfolding validate_profile finish_profile first_error
finish_profile-valid tests q h rows =
    let scanned = scan_rows [] catalog tests catalog-AreScannable rows in
    let full = nat_eq_of_eq (length-rows catalog tests rows) in
    rw
      (
        h.holds,
        h.name,
        h.api,
        h.role,
        h.claims,
        full,
        scanned,
        same_statistics_refl (summarize tests q.supported_features).0,
        eq_refl (result_text (summarize tests q.supported_features).1),
      )
      refl

body_steps-valid :
    (r : ConformanceReport) (q : ProfileReport)
    → validate_inventory r.environment.inventory_namespace r.environment.expected_clusters ≡ ok tt
    → validate_profile q ≡ ok tt
    → same_result r.result (overall r) ≡ true
    → first_error (body_steps r q) ≡ ok tt
unfolding first_error
body_steps-valid r q inventory profile result = rw (inventory, profile, result) refl

-- A finished report with one row for each check of the catalog validates.
pub finish-valid :
    (p : Platform) (tests : List TestResult) (r : ConformanceReport)
    → IsFramed p tests r
    → AreRows catalog tests
    → validate_development p (finish r) ≡ ok tt
unfolding validate_development finish
finish-valid p tests r h rows =
    let one : only_profile (finish r).profiles ≡ ok (finish_profile h.profile) =
      ap (λ ps. only_profile (map finish_profile ps)) h.single in
    rw (h.header.header, one)
      (body_steps-valid (finish r) (finish_profile h.profile) h.header.inventory
        (finish_profile-valid tests h.profile h.producer rows)
        (eq_refl (result_text (overall (finish r)))))

validate_features-sort :
    (names : List String) → validate_features names ≡ ok tt → validate_features (sort names) ≡ ok tt
unfolding sort
validate_features-sort names h =
    let (listed, distinct, dependent) = (validate_features_iff names).0 h in
    (validate_features_iff (sort names)).1 (
      sort_by-All (λ s. s) (λ f. In f features) names listed,
      sort_by-Distinct (λ s. s) names distinct,
      (λ u.
          In-sort_by (λ s. s) "InventoryMemberID" names
            (dependent (In-sort_by_inv (λ s. s) "InventoryMemberUniqueness" names u))),
    )

-- The new report of a run with valid options.
pub new_report-IsFramed :
    (p : Platform) (w : World) (o : Options)
    → p.date_fault w.now ≡ none
    → validate_run_mode o.run_mode ≡ ok tt
    → validate_inventory o.namespace o.expected_clusters ≡ ok tt
    → validate_features o.supported_features ≡ ok tt
    → IsFramed p [] (new_report p w o)
unfolding new_report first_error
new_report-IsFramed p w o dated mode inventory claims = record {
  header = record {
    header = rw (dated, mode, eq_refl p.catalog_digest, eq_refl (spec_ref "")) refl;
    inventory = inventory;
  };
  profile = _;
  single = refl;
  producer = record {
    name = refl;
    api = refl;
    role = refl;
    claims = validate_features-sort o.supported_features claims;
    holds = refl;
  };
}

-- Appending to a profile without tests.
pub append_tests-IsFramed :
    (p : Platform) (tests : List TestResult) (r : ConformanceReport)
    → IsFramed p [] r
    → IsFramed p tests (record r { profiles = append_tests tests r.profiles })
append_tests-IsFramed p tests r h = record {
  header = record { header = h.header.header; inventory = h.header.inventory };
  profile = record (h.profile) { tests = h.profile.tests ++ tests };
  single = ap (append_tests tests) h.single;
  producer = record {
    name = h.producer.name;
    api = h.producer.api;
    role = h.producer.role;
    claims = h.producer.claims;
    holds = ap (λ l. l ++ tests) h.producer.holds;
  };
}
