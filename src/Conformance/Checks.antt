-- ===== src/Conformance/Checks.antt =====
-- The checks of the observed inventory: conformance/checks.go.
mod Discovery
pub mod Uniqueness
pub mod Fields
pub mod Readings
pub mod FieldOutcomes
pub mod Outcomes
pub mod Claims
unfoldable pub use Discovery.*
use cluster_inventory_api.Common.{
  ℕ, suc, String, Bool, true, false, not, ◌&&◌, List, [], ◌∷◌, ◌++◌, map, Option, none, some, ◌==◌,
  nat_eq, ltb, if◌then◌else◌, is_empty, length, any, find, concat, join, decimal, quote, sort, ℤ,
  pos, negsuc,
}
use cluster_inventory_api.Apis.{
  ClusterProfile, Condition, lookup, label_cluster_manager_key, label_inventory_member_id_key,
}
use cluster_inventory_api.Conformance.Types.{
  passed, failed, skipped, unknown, not_supported, Requirement, TestResult,
}

-- types.NamespacedName.String
unfoldable pub namespaced_name : ClusterProfile → String
namespaced_name p = concat (p.metadata.namespace ∷ "/" ∷ p.metadata.name ∷ [])

abbrev pub text_or_empty : Option String → String
text_or_empty none = ""
text_or_empty (some s) = s

unfoldable pub member_id : ClusterProfile → String
unfolding lookup
member_id p = text_or_empty (lookup label_inventory_member_id_key p.metadata.labels)

-- ids[id] = append(ids[id], name)
unfoldable pub push_name :
    String → String → List (String × List String) → List (String × List String)
push_name id name [] = (id, name ∷ []) ∷ []
push_name id name ((k, names) ∷ rest) =
    if k == id then (k, names ++ name ∷ []) ∷ rest else (k, names) ∷ push_name id name rest

-- ids[id]; a missing key reads as the empty slice
unfoldable pub names_of : String → List (String × List String) → List String
names_of id [] = []
names_of id ((k, names) ∷ rest) = if k == id then names else names_of id rest

unfoldable pub missing_ids : List ClusterProfile → List String
unfolding member_id namespaced_name
missing_ids [] = []
missing_ids (p ∷ rest) =
    let later = missing_ids rest in if member_id p == "" then namespaced_name p ∷ later else later

-- The map that the loop of `checkUniqueness` builds.
unfoldable pub collect_ids :
    List (String × List String) → List ClusterProfile → List (String × List String)
unfolding member_id namespaced_name push_name
collect_ids ids [] = ids
collect_ids ids (p ∷ rest) =
    collect_ids (if member_id p == "" then ids else push_name (member_id p) (namespaced_name p) ids)
      rest

-- The first of the sorted keys with more than one name.
unfoldable pub duplicated : List (String × List String) → Option String
unfolding names_of sort find
duplicated ids = find (λ id. ltb 1 (length (names_of id ids))) (sort (map (λ e. e.0) ids))

-- The end of `checkUniqueness`, given the ID that its second loop stops at.
unfoldable pub report_ids :
    Requirement → List (String × List String) → List String → Option String → TestResult
unfolding outcome sort
report_ids req ids missing (some id) = outcome req failed (
    concat ("Member ID " ∷ quote id ∷ " is duplicated: " ∷ join ", " (sort (names_of id ids)) ∷ []))
report_ids req ids [] none = outcome req passed ""
report_ids req ids (name ∷ names) none = outcome req skipped (
    concat (
      "Uniqueness cannot be determined; missing member IDs: "
      ∷ join ", " (sort (name ∷ names))
      ∷ []))

unfoldable pub check_uniqueness : Requirement → List ClusterProfile → TestResult
unfolding missing_ids collect_ids duplicated report_ids
check_uniqueness req profiles =
    let ids = collect_ids [] profiles in report_ids req ids (missing_ids profiles) (duplicated ids)

-- What one profile says of a requirement: it breaks it, does not report it, or neither.
pub data Finding : Type 0 where
  broken : String → Finding
  missing : Finding
  fine : Finding

-- meta.FindStatusCondition(conditions, type) == nil
unfoldable pub has_condition : String → List Condition → Bool
unfolding any
has_condition type = any (λ (c : Condition). c.type == type)

abbrev pub missing_if : Bool → Finding
missing_if test = if test then missing else fine

abbrev pub is_absent : Option String → Bool
is_absent none = true
is_absent (some s) = false

-- The labels that differ from a text.
abbrev differs_from : String → Option String → Bool
differs_from s none = false
differs_from s (some label) = not (label == s)

abbrev is_blank_label : Option String → Bool
is_blank_label none = false
is_blank_label (some label) = label == ""

-- One round of the loop of `checkFields`.
unfoldable pub inspect : Requirement → ClusterProfile → Finding
inspect req p =
    let manager = lookup label_cluster_manager_key p.metadata.labels in
    let id = lookup label_inventory_member_id_key p.metadata.labels in
    if req.id == "ClusterManagerLabelValue"
    then if differs_from p.spec.cluster_manager.name manager
      then broken (
          concat (
            namespaced_name p
            ∷ ": cluster manager label does not match spec.clusterManager.name"
            ∷ []))
      else fine
    else if req.id == "InventoryMemberIDValue"
    then if is_blank_label id
      then broken (concat (namespaced_name p ∷ ": inventory member ID is empty" ∷ []))
      else fine
    else if req.id == "ClusterManagerLabelPresence"
    then missing_if (is_absent manager)
    else if req.id == "InventoryMemberIDPresence"
    then missing_if (text_or_empty id == "")
    else if req.id == "ControlPlaneHealthyPresence"
    then missing_if (not (has_condition "ControlPlaneHealthy" p.status.conditions))
    else if req.id == "JoinedPresence"
    then missing_if (not (has_condition "Joined" p.status.conditions))
    else if req.id == "KubernetesVersionPresence"
    then missing_if (p.status.version.kubernetes == "")
    else fine

-- The end of `checkFields`, given the names that do not report.
unfoldable pub report_missing : Requirement → List String → TestResult
unfolding outcome sort
report_missing req [] = outcome req passed ""
report_missing req (name ∷ names) =
    outcome req (if req.level == "SHOULD" then failed else not_supported)
      (concat ("Not reported on: " ∷ join ", " (sort (name ∷ names)) ∷ []))

unfoldable pub scan_fields : Requirement → List String → List ClusterProfile → TestResult
unfolding report_missing outcome
scan_fields req names [] = report_missing req names
scan_fields req names (p ∷ rest) = elim (inspect req p) [
  | broken message ↦ outcome req failed message
  | missing ↦ scan_fields req (names ++ namespaced_name p ∷ []) rest
  | fine ↦ scan_fields req names rest
]

unfoldable pub check_fields : Requirement → List ClusterProfile → TestResult
unfolding scan_fields
check_fields req profiles = scan_fields req [] profiles

-- s.expected > 0 && len(profiles) != s.expected
abbrev pub differs_from_expected : ℤ → ℕ → Bool
differs_from_expected (pos n) count = ltb 0 n && not (nat_eq count n)
differs_from_expected (negsuc n) count = false

abbrev pub expected_text : ℤ → String
expected_text (pos n) = decimal n
expected_text (negsuc n) = concat ("-" ∷ decimal (suc n) ∷ [])

unfoldable pub check_representation : Requirement → Snapshot → List ClusterProfile → TestResult
unfolding outcome
check_representation req s profiles =
    if is_empty profiles
    then outcome req failed "No managed ClusterProfile; register at least one member before running"
    else if differs_from_expected s.expected (length profiles)
    then outcome req failed (
        concat (
          "Expected "
          ∷ expected_text s.expected
          ∷ " managed profiles, observed "
          ∷ decimal (length profiles)
          ∷ []))
    else outcome req passed ""

-- `check` behind the list of the inventory, for the profiles in the requirement's scope.
unfoldable pub check_profiles : Requirement → Snapshot → List ClusterProfile → TestResult
unfolding check_representation check_uniqueness check_fields outcome
check_profiles req s profiles =
    if req.id == "RegisteredClusterRepresentation"
    then check_representation req s profiles
    else if is_empty profiles
    then outcome req unknown "No profiles to verify"
    else if req.id == "InventoryMemberUniqueness"
    then check_uniqueness req profiles
    else check_fields req profiles

unfoldable pub check : Requirement → Snapshot → TestResult
unfolding check_api check_profiles outcome
check req s = if req.scope == "api" then check_api req s else elim s.profile_error [
  | some e ↦ outcome req unknown (concat ("Cannot list the inventory: " ∷ e.text ∷ []))
  | none ↦ check_profiles req s (if req.scope == "inventory" then s.profiles else s.managed)
]
