-- ===== src/Conformance/Suite/Valid.antt =====
-- The report of a run with valid options, under the validation of reports.
use cluster_inventory_api.Common.{
  String, ◌≡◌, refl, ap, sym, inl, inr, subst, Bool, Bool-cases, true, ◌==◌, List, [], ◌++◌, map,
  Option, none, some, if◌then◌else◌, has_ink, is_space, Fallible, ok, err, >>-eq-ok,
}
use cluster_inventory_api.Conformance.Types.{
  Outcome, skipped, unknown, Requirement, ObjectReference, TestResult, ConformanceReport, Options,
}
use cluster_inventory_api.Conformance.Catalog.{catalog}
use cluster_inventory_api.Conformance.Errors.{
  Error, error_text, run_fault, invalid_filter, nothing_selected,
}
use cluster_inventory_api.Conformance.Options.{
  defaults, submission, validate_options, validate_inventory, validate_run_mode, validate_features,
}
use cluster_inventory_api.Conformance.Checks.{ApiError, Snapshot, outcome}
use cluster_inventory_api.Conformance.Checks.Claims.{catalog-IsFirm}
use cluster_inventory_api.Conformance.Platform.{Platform}
use cluster_inventory_api.Conformance.Report.{
  Verified, validate_metadata, validate_development, lift_option,
}
use cluster_inventory_api.Conformance.Suite.{
  World, new_report, excluded_by_filter, finish, finish_profile, Stop, abort, fill_all, fail_setup,
  or_fail, with_version, set_up, run_check, object_reference, observed_report, observe, conclude,
  ended, run, connect, namespace_check, fault_check, client_error,
}
use cluster_inventory_api.Conformance.Suite.Setup.{
  Stops, or_fail-Stops, unless-Stops, set_up-Stops, set_up-eq-ok,
}
use cluster_inventory_api.Conformance.Suite.Rows.{AreRows}
use cluster_inventory_api.Conformance.Suite.Reasons.{
  Speaks, Explains, invalid_filter-ink, validate_metadata-Explains, connect-Explains,
  fault_check-Explains, namespace_check-Explains,
}
use cluster_inventory_api.Conformance.Suite.Frame.{
  IsFramed, finish-valid, new_report-IsFramed, append_tests-IsFramed,
}
use cluster_inventory_api.Conformance.Suite.Checked.{AreRows-outcomes, AreRows-checks}

module _ (p : Platform) where
  abbrev IsValid : ConformanceReport → Type 0
  IsValid r = validate_development p r ≡ ok tt

  -- Another error, and another summary.
  add_error-IsFramed :
      (tests : List TestResult) (r : ConformanceReport) (errors : List String)
      → IsFramed p tests r
      → IsFramed p tests (record r { errors = errors })
  add_error-IsFramed tests r errors h = record {
    header = record { header = h.header.header; inventory = h.header.inventory };
    profile = h.profile;
    single = h.single;
    producer = h.producer;
  }

  finish-IsFramed :
      (tests : List TestResult) (r : ConformanceReport)
      → IsFramed p tests r
      → IsFramed p tests (finish r)
  unfolding finish finish_profile
  finish-IsFramed tests r h = record {
    header = record { header = h.header.header; inventory = h.header.inventory };
    profile = finish_profile h.profile;
    single = ap (map finish_profile) h.single;
    producer = record {
      name = h.producer.name;
      api = h.producer.api;
      role = h.producer.role;
      claims = h.producer.claims;
      holds = h.producer.holds;
    };
  }

  abort-IsValid :
      (tests : List TestResult) (r : ConformanceReport) (e : Error)
      → IsFramed p tests r
      → AreRows catalog tests
      → IsValid (abort r e).report
  unfolding abort
  abort-IsValid tests r e h rows = finish-valid p tests _ (add_error-IsFramed tests r _ h) rows

  fill_all-IsFramed :
      (state : Outcome) (message : String) (r : ConformanceReport)
      → IsFramed p [] r
      → IsFramed p (map (λ req. outcome req state message) catalog) (fill_all state message r)
  unfolding fill_all
  fill_all-IsFramed state message r h = append_tests-IsFramed p _ r h

  fail_setup-IsValid :
      (r : ConformanceReport) (e : Error)
      → IsFramed p [] r
      → has_ink (error_text e) ≡ true
      → IsValid (fail_setup r e).report
  unfolding fail_setup
  fail_setup-IsValid r e h ink =
      abort-IsValid _ (fill_all unknown (error_text e) r) e
        (fill_all-IsFramed unknown (error_text e) r h)
        (AreRows-outcomes unknown (error_text e) catalog (refl, refl) ink)

  with_version-IsFramed :
      (v : Fallible ApiError (Option String)) (tests : List TestResult) (r : ConformanceReport)
      → IsFramed p tests r
      → IsFramed p tests (with_version v r)
  unfolding with_version
  with_version-IsFramed (ok (some v)) tests r h = record {
    header = record { header = h.header.header; inventory = h.header.inventory };
    profile = h.profile;
    single = h.single;
    producer = h.producer;
  }
  with_version-IsFramed (ok none) tests r h = h
  with_version-IsFramed (err e) tests r h = h

  observed-IsFramed :
      (r : ConformanceReport) (observed : List ObjectReference)
      → IsFramed p [] r
      → IsFramed p []
          (record r { environment = record (r.environment) { observed_profiles = observed } })
  observed-IsFramed r observed h = record {
    header = record { header = h.header.header; inventory = h.header.inventory };
    profile = h.profile;
    single = h.single;
    producer = h.producer;
  }

  observed_report-IsFramed :
      (o : Options) (r : ConformanceReport) (chosen : Requirement → Bool) (s : Snapshot)
      → IsFramed p [] r
      → IsFramed p (map (run_check chosen s) catalog) (observed_report o r chosen s)
  unfolding observed_report
  observed_report-IsFramed o r chosen s h =
      let observed = r.environment.observed_profiles ++ map object_reference s.profiles in
      let seen : ConformanceReport = record r {
        environment = record (r.environment) { observed_profiles = observed };
      } in
      finish-IsFramed _ _ (
        append_tests-IsFramed p (map (run_check chosen s) catalog) seen
          (observed-IsFramed r observed h))

  observed_report-IsValid :
      (o : Options) (r : ConformanceReport) (chosen : Requirement → Bool) (s : Snapshot)
      → IsFramed p [] r
      → IsValid (observed_report o r chosen s)
  unfolding observed_report
  observed_report-IsValid o r chosen s h =
      let observed = r.environment.observed_profiles ++ map object_reference s.profiles in
      let seen : ConformanceReport = record r {
        environment = record (r.environment) { observed_profiles = observed };
      } in
      finish-valid p (map (run_check chosen s) catalog) _
        (append_tests-IsFramed p (map (run_check chosen s) catalog) seen
          (observed-IsFramed r observed h))
        (AreRows-checks chosen s catalog catalog-IsFirm)

  abbrev ValidStop : Stop → Type 0
  ValidStop stop = IsValid stop.report

  or_fail-valid :
      (r : ConformanceReport) (m : Verified)
      → IsFramed p [] r
      → Explains m
      → Stops ValidStop (or_fail r m)
  or_fail-valid r m h ex =
      or_fail-Stops ValidStop r m (λ e k. fail_setup-IsValid r e h (subst Explains k ex))

  module _ (w : World) (speaks : Speaks w) (o : Options) where
    set_up-valid :
        (r : ConformanceReport)
        → IsFramed p [] r
        → validate_options o ≡ ok tt
        → Stops ValidStop (set_up p w o r)
    set_up-valid r h valid =
        let versioned = with_version-IsFramed w.server_version [] r h in
        let skip = fill_all-IsFramed skipped excluded_by_filter r h in
        set_up-Stops ValidStop p w o r
          (or_fail-valid r (lift_option (validate_options o)) h (rw valid tt))
          (λ text e.
            fail_setup-IsValid r (run_fault (invalid_filter text)) h (invalid_filter-ink text))
          (λ filter. (
            unless-Stops ValidStop _ _ (
                abort-IsValid _ (fill_all skipped excluded_by_filter r) (run_fault nothing_selected)
                  skip
                  (AreRows-outcomes skipped excluded_by_filter catalog (refl, refl)
                    (unfold has_ink is_space in refl))),
            (
              or_fail-valid r _ h (metadata_step r),
              (
                or_fail-valid r (connect w) h (connect-Explains w speaks),
                (
                  or_fail-valid _ (fault_check w.deadline client_error) versioned
                      (fault_check-Explains w.deadline speaks.deadline),
                  (
                    or_fail-valid _ (namespace_check o.namespace (w.namespace_fault o.namespace))
                        versioned
                        (namespace_check-Explains o.namespace (w.namespace_fault o.namespace)),
                    tt,
                  ),
                ),
              ),
            ),
          ))
      where
        metadata_step :
            (r : ConformanceReport)
            → Explains (if o.run_mode == submission then validate_metadata p r else ok tt)
        metadata_step r = elim (Bool-cases (o.run_mode == submission)) [
          | inl e ↦ rw e (validate_metadata-Explains p r)
          | inr e ↦ rw e tt
        ]

    conclude-IsValid :
        (tests : List TestResult) (r : ConformanceReport) (m : Verified)
        → IsFramed p tests r
        → AreRows catalog tests
        → IsValid r
        → IsValid (conclude r m).0
    unfolding conclude
    conclude-IsValid tests r (ok u) h rows valid = valid
    conclude-IsValid tests r (err e) h rows valid = abort-IsValid tests r e h rows

    ended-IsValid :
        (r : ConformanceReport) (m : Fallible Stop (ConformanceReport × (Requirement → Bool)))
        → Stops ValidStop m
        → ((end : ConformanceReport × (Requirement → Bool)) → m ≡ ok end → IsFramed p [] end.0)
        → IsValid (ended p w o m).0
    ended-IsValid r (err stop) h framed = h
    ended-IsValid r (ok (report, chosen)) h framed =
        let s = observe w o in
        let final = observed_report-IsFramed o report chosen s (framed (report, chosen) refl) in
        let rows = AreRows-checks chosen s catalog catalog-IsFirm in
        conclude-IsValid _ (observed_report o report chosen s) _ final rows
          (observed_report-IsValid o report chosen s (framed (report, chosen) refl))

-- What the frame of a new report needs of valid options.
valid_parts :
    (o : Options)
    → validate_options o ≡ ok tt
    → (validate_inventory o.namespace o.expected_clusters ≡ ok tt)
      × (validate_run_mode o.run_mode ≡ ok tt)
      × (validate_features o.supported_features ≡ ok tt)
unfolding validate_options
valid_parts o h =
    let (inventory, h₁) = >>-eq-ok (validate_inventory o.namespace o.expected_clusters) _ h in
    let (_, h₂) = >>-eq-ok _ _ h₁ in
    let (mode, h₃) = >>-eq-ok (validate_run_mode o.run_mode) _ h₂ in
    let (_, h₄) = >>-eq-ok _ _ h₃ in
    let (_, h₅) = >>-eq-ok _ _ h₄ in
    let (claims, _) = >>-eq-ok (validate_features o.supported_features) _ h₅ in
    (inventory, mode, claims)

-- Where the defaulted options are valid, the clock's text is a date and the clients' errors say
-- something, the report of a run passes ValidateReport's rules for development reports, however the
-- run ends.
pub run-valid :
    (p : Platform) (w : World) (options : Options)
    → p.date_fault w.now ≡ none
    → validate_options (defaults options) ≡ ok tt
    → Speaks w
    → validate_development p (run p w options).0 ≡ ok tt
unfolding run
run-valid p w options dated valid speaks =
    let o = defaults options in
    let r = new_report p w o in
    let (inventory, mode, claims) = valid_parts o valid in
    let framed = new_report-IsFramed p w o dated mode inventory claims in
    ended-IsValid p w speaks o r (set_up p w o r) (set_up-valid p w speaks o r framed valid)
      (λ end e.
        subst (λ x. IsFramed p [] x) (sym (set_up-eq-ok p w o r e).0)
          (with_version-IsFramed p w.server_version [] r framed))
