-- ===== src/Conformance/Checks/Readings.antt =====
-- The requirements that `checkFields` checks, by their IDs: what it is for a profile to break one,
-- and not to report on one.
use cluster_inventory_api.Common.{
  String, ◌≡◌, ◌≢◌, ◌↔◌, ◌⊎◌, ◌∙◌, ap, inl, inr, refl, subst, true, false, Bool, not, List, [], ◌∷◌,
  Option, none, some, ◌==◌, if◌then◌else◌, Exists, Bool-cases, str_eq→eq, str_eq→ne, eq→str_eq,
  ne→str_eq, any,
}
use cluster_inventory_api.Apis.{
  Condition, ClusterProfile, lookup, label_cluster_manager_key, label_inventory_member_id_key,
}
use cluster_inventory_api.Conformance.Types.{Requirement}
use cluster_inventory_api.Conformance.Checks.{
  Finding, broken, missing, fine, inspect, has_condition, differs_from, is_blank_label, missing_if,
  is_absent, text_or_empty,
}
use cluster_inventory_api.Conformance.Checks.Fields.{IsBroken, Finding-cases}

abbrev pub Reports : String → ClusterProfile → Type 0
Reports type p = Exists (λ (c : Condition). c.type ≡ type) p.status.conditions

abbrev manager_of : ClusterProfile → Option String
manager_of p = lookup label_cluster_manager_key p.metadata.labels

abbrev id_of : ClusterProfile → Option String
id_of p = lookup label_inventory_member_id_key p.metadata.labels

-- The profile has the label that the requirement is about, with a wrong value.
pub data Breaks (id : String) (p : ClusterProfile) : Type 0 where
  other_manager :
      (m : String)
      → id ≡ "ClusterManagerLabelValue"
      → lookup label_cluster_manager_key p.metadata.labels ≡ some m
      → m ≢ p.spec.cluster_manager.name
      → Breaks id p
  empty_id :
      id ≡ "InventoryMemberIDValue"
      → lookup label_inventory_member_id_key p.metadata.labels ≡ some ""
      → Breaks id p

-- The profile lacks what the requirement wants reported.
pub data Misses (id : String) (p : ClusterProfile) : Type 0 where
  no_manager :
      id ≡ "ClusterManagerLabelPresence"
      → lookup label_cluster_manager_key p.metadata.labels ≡ none
      → Misses id p
  no_id :
      id ≡ "InventoryMemberIDPresence"
      → (lookup label_inventory_member_id_key p.metadata.labels ≡ none)
        ⊎ (lookup label_inventory_member_id_key p.metadata.labels ≡ some "")
      → Misses id p
  no_health : id ≡ "ControlPlaneHealthyPresence" → ¬ Reports "ControlPlaneHealthy" p → Misses id p
  no_join : id ≡ "JoinedPresence" → ¬ Reports "Joined" p → Misses id p
  no_version : id ≡ "KubernetesVersionPresence" → p.status.version.kubernetes ≡ "" → Misses id p

behind : (s t : String) (P : Type 0) → (s == t) ≡ false → (s ≡ t) ⊎ P → P
behind s t P e (inl h) = cc (e, eq→str_eq s t h)
behind s t P e (inr h) = h

pub has_condition-Exists :
    (type : String) (cs : List Condition)
    → (has_condition type cs ≡ true) ↔ Exists (λ (c : Condition). c.type ≡ type) cs
unfolding has_condition any
has_condition-Exists type [] = ((λ h. cc), (λ h. absurd h))
has_condition-Exists type (c ∷ cs) =
    let ih = has_condition-Exists type cs in
    elim (Bool-cases (c.type == type)) [
      | inl e ↦ rw e ((λ h. inl (str_eq→eq c.type type e)), (λ h. refl))
      | inr e ↦ rw e ((λ h. inr (ih.0 h)), (λ h. ih.1 (behind c.type type _ e h)))
    ]

no_condition :
    (type : String) (p : ClusterProfile)
    → ¬ Reports type p
    → has_condition type p.status.conditions ≡ false
no_condition type p h = elim (Bool-cases (has_condition type p.status.conditions)) [
  | inl e ↦ absurd (h ((has_condition-Exists type p.status.conditions).0 e))
  | inr e ↦ e
]

pub Breaks-IsBroken :
    (req : Requirement) (p : ClusterProfile) → Breaks req.id p → IsBroken (inspect req p)
unfolding inspect
Breaks-IsBroken req p (other_manager m e at_label differs) =
    rw (e, at_label, ne→str_eq m p.spec.cluster_manager.name differs) tt
Breaks-IsBroken req p (empty_id e at_label) = rw (e, at_label) tt

Misses-missing :
    (req : Requirement) (p : ClusterProfile) → Misses req.id p → inspect req p ≡ missing
unfolding inspect
Misses-missing req p (no_manager e h) = rw (e, h) refl
Misses-missing req p (no_id e (inl h)) = rw (e, h) refl
Misses-missing req p (no_id e (inr h)) = rw (e, h) refl
Misses-missing req p (no_health e h) = rw (e, no_condition "ControlPlaneHealthy" p h) refl
Misses-missing req p (no_join e h) = rw (e, no_condition "Joined" p h) refl
Misses-missing req p (no_version e h) = rw (e, h) refl

-- What a finding says of the profile
abbrev Says : String → ClusterProfile → Finding → Type 0
Says id p (broken message) = Breaks id p
Says id p missing = Misses id p
Says id p fine = Unit

manager_value-Says :
    (id message : String) (p : ClusterProfile) (label : Option String)
    → lookup label_cluster_manager_key p.metadata.labels ≡ label
    → id ≡ "ClusterManagerLabelValue"
    → Says id p (if differs_from p.spec.cluster_manager.name label then broken message else fine)
manager_value-Says id message p none at_label h = tt
manager_value-Says id message p (some m) at_label h =
    elim (Bool-cases (m == p.spec.cluster_manager.name)) [
      | inl e ↦ rw e tt
      | inr e ↦ rw e (other_manager m h at_label (str_eq→ne m p.spec.cluster_manager.name e))
    ]

id_value-Says :
    (id message : String) (p : ClusterProfile) (label : Option String)
    → lookup label_inventory_member_id_key p.metadata.labels ≡ label
    → id ≡ "InventoryMemberIDValue"
    → Says id p (if is_blank_label label then broken message else fine)
id_value-Says id message p none at_label h = tt
id_value-Says id message p (some m) at_label h = elim (Bool-cases (m == "")) [
  | inl e ↦ rw e (empty_id h (at_label ∙ ap some (str_eq→eq m "" e)))
  | inr e ↦ rw e tt
]

manager_presence-Says :
    (id : String) (p : ClusterProfile) (label : Option String)
    → lookup label_cluster_manager_key p.metadata.labels ≡ label
    → id ≡ "ClusterManagerLabelPresence"
    → Says id p (missing_if (is_absent label))
manager_presence-Says id p none at_label h = no_manager h at_label
manager_presence-Says id p (some m) at_label h = tt

id_presence-Says :
    (id : String) (p : ClusterProfile) (label : Option String)
    → lookup label_inventory_member_id_key p.metadata.labels ≡ label
    → id ≡ "InventoryMemberIDPresence"
    → Says id p (missing_if (text_or_empty label == ""))
id_presence-Says id p none at_label h = no_id h (inl at_label)
id_presence-Says id p (some m) at_label h = elim (Bool-cases (m == "")) [
  | inl e ↦ rw e (no_id h (inr (at_label ∙ ap some (str_eq→eq m "" e))))
  | inr e ↦ rw e tt
]

-- A finding by a test says nothing where the test fails.
missing_if-Says :
    (id : String) (p : ClusterProfile) (test : Bool)
    → (test ≡ true → Misses id p)
    → Says id p (missing_if test)
missing_if-Says id p true h = h refl
missing_if-Says id p false h = tt

unreported :
    (type : String) (p : ClusterProfile)
    → not (has_condition type p.status.conditions) ≡ true
    → ¬ Reports type p
unreported type p h k = cc (h, (has_condition-Exists type p.status.conditions).1 k)

-- The requirements on the status, which `inspect` tests last
status-Says :
    (id : String) (p : ClusterProfile)
    → Says id p (
        if id == "ControlPlaneHealthyPresence"
        then missing_if (not (has_condition "ControlPlaneHealthy" p.status.conditions))
        else if id == "JoinedPresence"
        then missing_if (not (has_condition "Joined" p.status.conditions))
        else if id == "KubernetesVersionPresence"
        then missing_if (p.status.version.kubernetes == "")
        else fine)
status-Says id p = elim (Bool-cases (id == "ControlPlaneHealthyPresence")) [
  | inl e ↦ rw e (
      missing_if-Says id p _
        (λ h. no_health (str_eq→eq id _ e) (unreported "ControlPlaneHealthy" p h)))
  | inr e ↦ rw e (elim (Bool-cases (id == "JoinedPresence")) [
    | inl e ↦
        rw e (missing_if-Says id p _ (λ h. no_join (str_eq→eq id _ e) (unreported "Joined" p h)))
    | inr e ↦ rw e (elim (Bool-cases (id == "KubernetesVersionPresence")) [
      | inl e ↦ rw e (
          missing_if-Says id p _
            (λ h. no_version (str_eq→eq id _ e) (str_eq→eq p.status.version.kubernetes "" h)))
      | inr e ↦ rw e tt
    ])
  ])
]

inspect-Says : (req : Requirement) (p : ClusterProfile) → Says req.id p (inspect req p)
unfolding inspect
inspect-Says req p = elim (Bool-cases (req.id == "ClusterManagerLabelValue")) [
  | inl e ↦ rw e (manager_value-Says req.id _ p _ refl (str_eq→eq req.id _ e))
  | inr e ↦ rw e (elim (Bool-cases (req.id == "InventoryMemberIDValue")) [
    | inl e ↦ rw e (id_value-Says req.id _ p _ refl (str_eq→eq req.id _ e))
    | inr e ↦ rw e (elim (Bool-cases (req.id == "ClusterManagerLabelPresence")) [
      | inl e ↦ rw e (manager_presence-Says req.id p _ refl (str_eq→eq req.id _ e))
      | inr e ↦ rw e (elim (Bool-cases (req.id == "InventoryMemberIDPresence")) [
        | inl e ↦ rw e (id_presence-Says req.id p _ refl (str_eq→eq req.id _ e))
        | inr e ↦ rw e (status-Says req.id p)
      ])
    ])
  ])
]

pub inspect-Misses :
    (req : Requirement) (p : ClusterProfile) → inspect req p ≡ missing → Misses req.id p
inspect-Misses req p e = subst (Says req.id p) e (inspect-Says req p)

pub IsBroken-Breaks :
    (req : Requirement) (p : ClusterProfile) → IsBroken (inspect req p) → Breaks req.id p
IsBroken-Breaks req p h = elim (Finding-cases (inspect req p)) [
  | inl (m, e) ↦ subst (Says req.id p) e (inspect-Says req p)
  | inr (inl e) ↦ absurd (subst IsBroken e h)
  | inr (inr e) ↦ absurd (subst IsBroken e h)
]

pub fine-Meets :
    (req : Requirement) (p : ClusterProfile)
    → inspect req p ≡ fine
    → (¬ Breaks req.id p) × (¬ Misses req.id p)
fine-Meets req p e =
    ((λ h. subst IsBroken e (Breaks-IsBroken req p h)), (λ h. cc (e, Misses-missing req p h)))
