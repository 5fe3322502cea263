-- ===== src/Conformance/Types.antt =====
-- The report's schema and the options of a run: conformance/types.go.
use cluster_inventory_api.Common.{String, ℕ, ℤ, Bool, not, List, ◌==◌}

-- `type Outcome string`: a decoded report may hold any text.
pub data Outcome : Type 0 where
  passed failed skipped unknown not_supported : Outcome
  other : String → Outcome

-- `type Result string`
pub data Result : Type 0 where
  success failure partial undetermined : Result
  other : String → Result

abbrev pub outcome_text : Outcome → String
outcome_text Outcome.passed = "passed"
outcome_text Outcome.failed = "failed"
outcome_text Outcome.skipped = "skipped"
outcome_text Outcome.unknown = "unknown"
outcome_text Outcome.not_supported = "not-supported"
outcome_text (Outcome.other s) = s

abbrev pub result_text : Result → String
result_text Result.success = "success"
result_text Result.failure = "failure"
result_text Result.partial = "partial"
result_text Result.undetermined = "unknown"
result_text (Result.other s) = s

pub record Source : Type 0 where
  pub version : String
  pub revision : String
  pub dirty : Bool

pub record Implementation : Type 0 where
  pub organization : String
  pub project : String
  pub source : Source
  pub mode : String
  pub url : String
  pub contact : List String
  pub reproduction : String

pub record Specification : Type 0 where
  pub revision : String
  pub url : String

pub record SuiteInfo : Type 0 where
  pub source : Source
  pub catalog_digest : String

pub record ApiInfo : Type 0 where
  pub group_version : String
  pub revision : String

pub record ObjectReference : Type 0 where
  pub namespace : String
  pub name : String
  pub uid : String
  pub resource_version : String

pub record Environment : Type 0 where
  pub kubernetes_version : String
  pub inventory_namespace : String
  pub cluster_manager : String
  pub expected_clusters : ℤ
  pub observed_profiles : List ObjectReference

pub record Requirement : Type 0 where
  pub id : String
  pub description : String
  pub level : String
  pub feature : String
  pub scope : String
  pub ref : String

-- Requirement.Optional
abbrev pub optional : Requirement → Bool
optional r = not (r.feature == "")

pub record TestResult : Type 0 where
  pub requirement : Requirement
  pub outcome : Outcome
  pub message : String

pub record Statistics : Type 0 where
  pub passed : ℕ
  pub failed : ℕ
  pub skipped : ℕ
  pub unknown : ℕ
  pub not_supported : ℕ
  pub total : ℕ

pub record ProfileReport : Type 0 where
  pub name : String
  pub api : String
  pub role : String
  pub supported_features : List String
  pub result : Result
  pub statistics : Statistics
  pub tests : List TestResult

pub record ConformanceReport : Type 0 where
  pub api_version : String
  pub kind : String
  pub date : String
  pub run_mode : String
  pub implementation : Implementation
  pub suite : SuiteInfo
  pub specification : Specification
  pub api : ApiInfo
  pub environment : Environment
  pub profiles : List ProfileReport
  pub result : Result
  pub errors : List String

-- The connection fields (kubeconfig, context, config, the injected clients) are in `Suite.World`.
pub record Options : Type 0 where
  pub kubeconfig : String
  pub context : String
  pub namespace : String
  pub cluster_manager : String
  pub expected_clusters : ℤ
  pub apis : List String
  pub profiles : List String
  pub supported_features : List String
  pub test_filter : String
  pub run_mode : String
  pub implementation : Implementation
  pub suite : Source
  pub report_directory : String
  pub report_formats : List String
  pub report_per_api : Bool
  pub timeout : ℤ
