-- ===== src/Seed/Checked.antt =====
-- What a seeded ClusterProfile has, for the suite's checks of a profile's fields.
use cluster_inventory_api.Common.{
  ◌≡◌, refl, subst, String, true, false, List, [], ◌∷◌, some, ◌==◌, eq_refl, ne→str_eq, concat,
  has_ink, is_space, ink_here, ink_later, All,
}
use cluster_inventory_api.Apis.{
  ClusterProfile, label_cluster_manager_key, label_inventory_member_id_key, lookup,
}
use cluster_inventory_api.Conformance.Types.{Requirement, passed}
use cluster_inventory_api.Conformance.Catalog.{
  manager_value, member_id_value, manager_presence, member_id_presence, healthy_presence,
  joined_presence, version_presence,
}
use cluster_inventory_api.Conformance.Checks.{
  fine, has_condition, inspect, scan_fields, check_fields, report_missing, outcome,
}

pub suffixed : (name : String) → (concat (name ∷ "-id" ∷ []) == "") ≡ false
unfolding has_ink is_space
suffixed name =
    let ink = ink_later name ("-id" ∷ []) (ink_here "-id" [] refl) in
    ne→str_eq (concat (name ∷ "-id" ∷ [])) "" (λ e. cc (subst (λ s. has_ink s ≡ true) e ink))

-- What every seeded object has in its status, for the checks.
pub record HasStatus (o : ClusterProfile) : Type 0 where
  pub version : o.status.version.kubernetes ≡ "v1.35.0"
  pub is_healthy : has_condition "ControlPlaneHealthy" o.status.conditions ≡ true
  pub is_joined : has_condition "Joined" o.status.conditions ≡ true

-- What an object that the seeder makes has in its labels
pub record HasLabels (manager : String) (o : ClusterProfile) : Type 0 where
  pub manager_name : o.spec.cluster_manager.name ≡ manager
  pub manager_label : lookup label_cluster_manager_key o.metadata.labels ≡ some manager
  pub member_label :
      (id : String) × (lookup label_inventory_member_id_key o.metadata.labels ≡ some id)
      × ((id == "") ≡ false)

-- The requirements that a ClusterProfile meets by its status, and those that it meets by its labels
abbrev pub status_requirements : List Requirement
status_requirements = healthy_presence ∷ joined_presence ∷ version_presence ∷ []

abbrev pub label_requirements : List Requirement
label_requirements = manager_value ∷ member_id_value ∷ manager_presence ∷ member_id_presence ∷ []

pub HasStatus-fine :
    (o : ClusterProfile) → HasStatus o → All (λ req. inspect req o ≡ fine) status_requirements
unfolding inspect
HasStatus-fine o h = (rw h.is_healthy refl, (rw h.is_joined refl, (rw h.version refl, tt)))

pub HasLabels-fine :
    (manager : String) (o : ClusterProfile)
    → HasLabels manager o
    → All (λ req. inspect req o ≡ fine) label_requirements
unfolding inspect
HasLabels-fine manager o h =
    let (id, labelled, filled) = h.member_label in
    (
      rw (h.manager_label, h.manager_name, eq_refl manager) refl,
      (rw (labelled, filled) refl, (rw h.manager_label refl, (rw (labelled, filled) refl, tt))),
    )

pub check_fields-one :
    (req : Requirement) (o : ClusterProfile)
    → inspect req o ≡ fine
    → (check_fields req (o ∷ [])).outcome ≡ passed
unfolding check_fields scan_fields report_missing outcome
check_fields-one req o h = rw (scan_fields, h) refl

-- The checks of these requirements pass on the object.
abbrev pub PassesAll : List Requirement → ClusterProfile → Type 0
PassesAll reqs o = All (λ req. (check_fields req (o ∷ [])).outcome ≡ passed) reqs
