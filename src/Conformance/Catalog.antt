-- ===== src/Conformance/Catalog.antt =====
-- The check catalog: conformance/catalog.go, with the constants of conformance/types.go.
use cluster_inventory_api.Common.{String, List, [], ◌∷◌, ◌==◌, concat, if◌then◌else◌}
use cluster_inventory_api.Conformance.Types.{Requirement, optional}

abbrev pub spec_revision : String
spec_revision = "3300d87b960c22051c66f1d1072e424a5cda5b5d"

abbrev pub api_revision : String
api_revision = "dc460e8ca90ddc100fb5c7ba3ad082f11b200537"

unfoldable pub spec_ref : String → String
spec_ref anchor =
    let base = concat (
      "https://github.com/kubernetes/enhancements/blob/" ∷ spec_revision
      ∷ "/keps/sig-multicluster/4322-cluster-inventory/README.md" ∷ []) in
    if anchor == "" then base else concat (base ∷ "#" ∷ anchor ∷ [])

abbrev pub api_availability : Requirement
api_availability = record {
  id = "ClusterProfileAPIAvailability";
  description = "ClusterProfile is served in multicluster.x-k8s.io/v1alpha2";
  level = "MUST";
  feature = "";
  scope = "api";
  ref = spec_ref "";
}

abbrev pub namespaced : Requirement
namespaced = record {
  id = "ClusterProfileNamespaced";
  description = "ClusterProfile is namespace scoped";
  level = "MUST";
  feature = "";
  scope = "api";
  ref = spec_ref "how-should-we-organize-clusterprofile-objects-on-a-hub-cluster";
}

abbrev pub representation : Requirement
representation = record {
  id = "RegisteredClusterRepresentation";
  description = "Registered clusters are represented in the selected inventory";
  level = "MUST";
  feature = "";
  scope = "manager";
  ref = spec_ref "whats-the-relationship-between-the-clusterprofile-api-and-cluster-inventory";
}

abbrev pub manager_value : Requirement
manager_value = record {
  id = "ClusterManagerLabelValue";
  description = "A cluster manager label, when present, equals spec.clusterManager.name";
  level = "MUST";
  feature = "";
  scope = "manager";
  ref = spec_ref "cluster-manager";
}

abbrev pub member_id_value : Requirement
member_id_value = record {
  id = "InventoryMemberIDValue";
  description = "An inventory member ID, when present, is non-empty";
  level = "MUST";
  feature = "";
  scope = "manager";
  ref = spec_ref "uniqueness-of-the-clusterprofile-object";
}

abbrev pub manager_presence : Requirement
manager_presence = record {
  id = "ClusterManagerLabelPresence";
  description = "Cluster manager labels are provided";
  level = "MAY";
  feature = "ClusterManagerLabel";
  scope = "manager";
  ref = spec_ref "cluster-manager";
}

abbrev pub member_id_presence : Requirement
member_id_presence = record {
  id = "InventoryMemberIDPresence";
  description = "Inventory member IDs are provided";
  level = "SHOULD";
  feature = "InventoryMemberID";
  scope = "manager";
  ref = spec_ref "uniqueness-of-the-clusterprofile-object";
}

abbrev pub member_uniqueness : Requirement
member_uniqueness = record {
  id = "InventoryMemberUniqueness";
  description = "Each member ID occurs at most once within an inventory";
  level = "SHOULD";
  feature = "InventoryMemberUniqueness";
  scope = "inventory";
  ref = spec_ref "uniqueness-of-the-clusterprofile-object";
}

abbrev pub healthy_presence : Requirement
healthy_presence = record {
  id = "ControlPlaneHealthyPresence";
  description = "ControlPlaneHealthy is reported";
  level = "Informative";
  feature = "ControlPlaneHealthy";
  scope = "manager";
  ref = spec_ref "conditions";
}

abbrev pub joined_presence : Requirement
joined_presence = record {
  id = "JoinedPresence";
  description = "Joined is reported";
  level = "SHOULD";
  feature = "Joined";
  scope = "manager";
  ref = spec_ref "conditions";
}

abbrev pub version_presence : Requirement
version_presence = record {
  id = "KubernetesVersionPresence";
  description = "Kubernetes version is reported";
  level = "Informative";
  feature = "KubernetesVersion";
  scope = "manager";
  ref = spec_ref "version";
}

unfoldable pub catalog : List Requirement
catalog =
    api_availability ∷ namespaced ∷ representation ∷ manager_value ∷ member_id_value
    ∷ manager_presence ∷ member_id_presence ∷ member_uniqueness ∷ healthy_presence ∷ joined_presence
    ∷ version_presence ∷ []

-- The initialiser of `features`.
unfoldable pub feature_names : List Requirement → List String
feature_names [] = []
feature_names (req ∷ rest) =
    let later = feature_names rest in if optional req then req.feature ∷ later else later

unfoldable pub features : List String
unfolding catalog feature_names
features = feature_names catalog
