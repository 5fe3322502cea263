-- ===== src/Conformance/Suite/Begin.antt =====
-- What a run observes, its new report and its connection: newReport and connect of
-- conformance/suite.go.
use cluster_inventory_api.Common.{
  String, Bool, ◌&&◌, List, [], ◌∷◌, Option, none, some, if◌then◌else◌, sort, concat, Fallible, ok,
  err, ◌>>◌,
}
use cluster_inventory_api.Apis.{ClusterProfile, group_version, cluster_profile_kind}
use cluster_inventory_api.Conformance.Types.{Result, undetermined, ConformanceReport, Options}
use cluster_inventory_api.Conformance.Errors.{Error, run_fault, client_fault}
use cluster_inventory_api.Conformance.Catalog.{spec_revision, spec_ref, api_revision}
use cluster_inventory_api.Conformance.Summary.{empty_tally}
use cluster_inventory_api.Conformance.Options.{producer_profile}
use cluster_inventory_api.Conformance.Checks.{ApiError, ApiResource}
use cluster_inventory_api.Conformance.Platform.{Platform}
use cluster_inventory_api.Conformance.Report.{Verified, report_version, report_kind}

pub record World : Type 0 where
  -- time.Now() in RFC 3339
  pub now : String
  -- ginkgo's ParseLabelFilter: the filter, or the error's text
  pub parse_filter : String → Fallible String (List String → Bool)
  -- which of the clients and the configuration the options carry
  pub has_kubernetes : Bool
  pub has_inventory : Bool
  pub has_config : Bool
  -- the errors of loading a kubeconfig and of making the two clients
  pub load_fault : Option String
  pub kubernetes_fault : Option String
  pub inventory_fault : Option String
  -- the server's version, nil where it is not told
  pub server_version : Fallible ApiError (Option String)
  -- ctx.Err() behind the first request
  pub deadline : Option String
  pub namespace_fault : String → Option ApiError
  pub resources : Fallible ApiError (Option (List ApiResource))
  pub list_profiles : String → Fallible ApiError (List ClusterProfile)

unfoldable pub new_report : Platform → World → Options → ConformanceReport
unfolding sort
new_report p w o = record {
  api_version = report_version;
  kind = report_kind;
  date = w.now;
  run_mode = o.run_mode;
  implementation = o.implementation;
  suite = record { source = o.suite; catalog_digest = p.catalog_digest };
  specification = record { revision = spec_revision; url = spec_ref "" };
  api = record { group_version = group_version; revision = api_revision };
  environment = record {
    kubernetes_version = "";
    inventory_namespace = o.namespace;
    cluster_manager = o.cluster_manager;
    expected_clusters = o.expected_clusters;
    observed_profiles = [];
  };
  profiles =
      record {
        name = producer_profile;
        api = cluster_profile_kind;
        role = "producer";
        supported_features = sort o.supported_features;
        result = Result.other "";
        statistics = (empty_tally 0).stats;
        tests = [];
      }
      ∷ [];
  result = undetermined;
  errors = [];
}

abbrev pub fault_check : Option String → (String → Error) → Verified
fault_check none wrap = ok tt
fault_check (some text) wrap = err (wrap text)

abbrev pub client_error : String → Error
client_error text = run_fault (client_fault text)

abbrev pub unless : {E : Type 0} → Bool → Fallible E (Unit {0}) → Fallible E (Unit {0})
unless test m = if test then ok tt else m

-- The errors of `connect`; the clients themselves are the world's.
unfoldable pub connect : World → Verified
connect w = if w.has_kubernetes && w.has_inventory then ok tt else do
  unless w.has_config
      (fault_check w.load_fault (λ text. client_error (concat ("load kubeconfig: " ∷ text ∷ []))))
  unless w.has_kubernetes (fault_check w.kubernetes_fault client_error)
  unless w.has_inventory (fault_check w.inventory_fault client_error)
