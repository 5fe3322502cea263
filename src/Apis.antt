-- ===== src/Apis.antt =====
-- The API types of multicluster.x-k8s.io/v1alpha2: apis/v1alpha2/*.go. Metadata, conditions and
-- raw extensions are apimachinery's; what the program reads of them is kept.
pub mod DeepCopy
mod Tests
use cluster_inventory_api.Common.{
  String, Bool, Option, List, ℕ, [], ◌∷◌, none, some, ◌==◌, if◌then◌else◌,
}

-- metav1.ObjectMeta, as far as the program reads it
pub record ObjectMeta : Type 0 where
  pub namespace : String
  pub name : String
  pub uid : String
  pub resource_version : String
  pub labels : List (String × String)

-- metav1.Condition, as far as the program reads and writes it
pub record Condition : Type 0 where
  pub type : String
  pub status : String
  pub reason : String
  pub message : String

pub record ClusterManager : Type 0 where
  pub name : String

pub record ClusterProfileSpec : Type 0 where
  pub display_name : String
  pub cluster_manager : ClusterManager

pub record ClusterVersion : Type 0 where
  pub kubernetes : String

pub record Property : Type 0 where
  pub name : String
  pub value : String
  pub last_observed_time : String

-- `extension` is the raw bytes of the runtime.RawExtension.
pub record NamedExtension : Type 0 where
  pub name : String
  pub extension : List ℕ

-- A nil slice of extensions is `none`.
pub record Cluster : Type 0 where
  pub server : String
  pub tls_server_name : String
  pub insecure_skip_tls_verify : Bool
  pub certificate_authority_data : List ℕ
  pub proxy_url : String
  pub disable_compression : Bool
  pub extensions : Option (List NamedExtension)

pub record AccessProvider : Type 0 where
  pub name : String
  pub cluster : Cluster

pub record ClusterProfileStatus : Type 0 where
  pub conditions : List Condition
  pub version : ClusterVersion
  pub properties : List Property
  pub access_providers : List AccessProvider

pub record ClusterProfile : Type 0 where
  pub metadata : ObjectMeta
  pub spec : ClusterProfileSpec
  pub status : ClusterProfileStatus

abbrev pub group : String
group = "multicluster.x-k8s.io"

abbrev pub version : String
version = "v1alpha2"

-- GroupVersion.String()
abbrev pub group_version : String
group_version = "multicluster.x-k8s.io/v1alpha2"

abbrev pub cluster_profile_kind : String
cluster_profile_kind = "ClusterProfile"

abbrev pub cluster_profile_resource : String
cluster_profile_resource = "clusterprofiles"

abbrev pub label_cluster_manager_key : String
label_cluster_manager_key = "x-k8s.io/cluster-manager"

abbrev pub label_inventory_member_id_key : String
label_inventory_member_id_key = "multicluster.x-k8s.io/inventory-member-id"

-- A read of a Go map with string keys.
unfoldable pub lookup {ℓ} : {V : Type ℓ} → String → List (String × V) → Option V
lookup key [] = none
lookup key ((k, v) ∷ rest) = if k == key then some v else lookup key rest
