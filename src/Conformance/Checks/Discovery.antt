-- ===== src/Conformance/Checks/Discovery.antt =====
-- What the checks read, and the check of the discovered API: snapshot, outcome and checkAPI of
-- conformance/checks.go.
use cluster_inventory_api.Common.{
  String, Bool, not, ◌&&◌, List, [], ◌∷◌, Option, none, some, ◌==◌, if◌then◌else◌, find, concat, ℤ,
}
use cluster_inventory_api.Apis.{ClusterProfile, cluster_profile_resource}
use cluster_inventory_api.Conformance.Types.{
  Outcome, passed, failed, unknown, Requirement, TestResult,
}

-- An error of a Kubernetes client: its text, and what apierrors.IsNotFound and IsForbidden say.
pub record ApiError : Type 0 where
  pub text : String
  pub not_found : Bool
  pub forbidden : Bool

-- metav1.APIResource, as far as the checks read it
pub record ApiResource : Type 0 where
  pub name : String
  pub namespaced : Bool

pub record Snapshot : Type 0 where
  pub resources : Option (List ApiResource)
  pub api_error : Option ApiError
  pub profiles : List ClusterProfile
  pub managed : List ClusterProfile
  pub profile_error : Option ApiError
  pub expected : ℤ

unfoldable pub outcome : Requirement → Outcome → String → TestResult
outcome req state message = record { requirement = req; outcome = state; message = message }

-- `checkAPI` once discovery has answered without an error.
unfoldable pub check_resource : Requirement → Snapshot → Option ApiResource → TestResult
unfolding outcome
check_resource req s none = outcome req failed "clusterprofiles is not served"
check_resource req s (some resource) =
    if req.id == "ClusterProfileNamespaced" && not resource.namespaced
    then outcome req failed "clusterprofiles is cluster scoped"
    else elim s.profile_error [
      | none ↦ outcome req passed ""
      | some e ↦
          if req.id == "ClusterProfileAPIAvailability"
          then outcome req unknown (concat ("Cannot list the inventory: " ∷ e.text ∷ []))
          else outcome req passed ""
    ]

unfoldable pub check_api : Requirement → Snapshot → TestResult
unfolding check_resource
check_api req s = elim s.api_error [
  | some e ↦
      if e.not_found
      then outcome req failed "API group version is not served"
      else outcome req unknown (concat ("API discovery failed: " ∷ e.text ∷ []))
  | none ↦ elim s.resources [
    | none ↦ outcome req unknown "API discovery returned no resources"
    | some resources ↦
        check_resource req s (find (λ a. a.name == cluster_profile_resource) resources)
  ]
]
