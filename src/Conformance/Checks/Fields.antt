-- ===== src/Conformance/Checks/Fields.antt =====
-- `checkFields`: what its outcomes say of the profiles.
use cluster_inventory_api.Common.{
  String, ◌≡◌, ◌≢◌, ◌⊎◌, inl, inr, refl, sym, subst, List, [], ◌∷◌, ◌++◌, some, ◌==◌, All, Exists,
  Bool-cases, str_eq→eq, eq→str_eq,
}
use cluster_inventory_api.Apis.{ClusterProfile, lookup, label_cluster_manager_key}
use cluster_inventory_api.Conformance.Types.{Outcome, passed, failed, not_supported, Requirement}
use cluster_inventory_api.Conformance.Checks.{
  Finding, broken, missing, fine, namespaced_name, inspect, report_missing, scan_fields,
  check_fields,
}

abbrev pub IsBroken : Finding → Type 0
IsBroken (broken message) = Unit
IsBroken _ = ⊥

pub Finding-cases : (f : Finding) → ((m : String) × (f ≡ broken m)) ⊎ (f ≡ missing) ⊎ (f ≡ fine)
Finding-cases (broken m) = inl (m, refl)
Finding-cases missing = inr (inl refl)
Finding-cases fine = inr (inr refl)

module _ (req : Requirement) where
  -- What the scan of the remaining profiles says, given the names found missing before them.
  abbrev pub FieldsMean : Outcome → List String → List ClusterProfile → Type 0
  FieldsMean passed names ps = (names ≡ []) × All (λ p. inspect req p ≡ fine) ps
  FieldsMean failed names ps =
      Exists (λ p. IsBroken (inspect req p)) ps
      ⊎ ((req.level ≡ "SHOULD") × ((names ≢ []) ⊎ Exists (λ p. inspect req p ≡ missing) ps))
  FieldsMean not_supported names ps =
      (req.level ≢ "SHOULD")
      × All (λ p. ¬ IsBroken (inspect req p)) ps
      × ((names ≢ []) ⊎ Exists (λ p. inspect req p ≡ missing) ps)
  FieldsMean _ names ps = ⊥

  report_missing-FieldsMean :
      (names : List String) → FieldsMean (report_missing req names).outcome names []
  unfolding report_missing
  report_missing-FieldsMean [] = (refl, tt)
  report_missing-FieldsMean (name ∷ names) = elim (Bool-cases (req.level == "SHOULD")) [
    | inl e ↦ rw e (inr (str_eq→eq req.level "SHOULD" e, inl (λ h. cc)))
    | inr e ↦ rw e ((λ h. cc (e, eq→str_eq req.level "SHOULD" h)), tt, inl (λ h. cc))
  ]

  -- A profile that is fine changes nothing.
  FieldsMean-fine :
      (o : Outcome) (names : List String) (p : ClusterProfile) (ps : List ClusterProfile)
      → inspect req p ≡ fine
      → FieldsMean o names ps
      → FieldsMean o names (p ∷ ps)
  FieldsMean-fine passed names p ps e (a, h) = (a, (e, h))
  FieldsMean-fine failed names p ps e (inl h) = inl (inr h)
  FieldsMean-fine failed names p ps e (inr (a, inl h)) = inr (a, inl h)
  FieldsMean-fine failed names p ps e (inr (a, inr h)) = inr (a, inr (inr h))
  FieldsMean-fine not_supported names p ps e (a, b, inl h) =
      (a, ((λ x. subst IsBroken e x), b), inl h)
  FieldsMean-fine not_supported names p ps e (a, b, inr h) =
      (a, ((λ x. subst IsBroken e x), b), inr (inr h))
  FieldsMean-fine _ names p ps e h = absurd h

  some_name : (names : List String) (name : String) → names ++ name ∷ [] ≢ []
  some_name [] name h = cc
  some_name (n ∷ names) name h = cc

  -- A profile found missing joins the names, which are then not empty.
  FieldsMean-missing :
      (o : Outcome) (names : List String) (p : ClusterProfile) (ps : List ClusterProfile)
      → inspect req p ≡ missing
      → FieldsMean o (names ++ namespaced_name p ∷ []) ps
      → FieldsMean o names (p ∷ ps)
  FieldsMean-missing passed names p ps e (a, h) = absurd (some_name names _ a)
  FieldsMean-missing failed names p ps e (inl h) = inl (inr h)
  FieldsMean-missing failed names p ps e (inr (a, h)) = inr (a, inr (inl e))
  FieldsMean-missing not_supported names p ps e (a, b, h) =
      (a, ((λ x. subst IsBroken e x), b), inr (inl e))
  FieldsMean-missing _ names p ps e h = absurd h

  scan_fields-FieldsMean :
      (names : List String) (ps : List ClusterProfile)
      → FieldsMean (scan_fields req names ps).outcome names ps
  unfolding scan_fields
  scan_fields-FieldsMean names [] = report_missing-FieldsMean names
  scan_fields-FieldsMean names (p ∷ ps) = elim (Finding-cases (inspect req p)) [
    | inl (m, e) ↦ rw (e, scan_fields) (inl (inl (subst IsBroken (sym e) tt)))
    | inr (inl e) ↦
        rw (e, scan_fields)
          (FieldsMean-missing _ names p ps e
            (scan_fields-FieldsMean (names ++ namespaced_name p ∷ []) ps))
    | inr (inr e) ↦
        rw (e, scan_fields) (FieldsMean-fine _ names p ps e (scan_fields-FieldsMean names ps))
  ]

-- What `checkFields` says of the profiles by its outcome: passed, that every profile is fine;
-- failed, that one breaks the requirement, or that one does not report what SHOULD be reported;
-- not supported, that none breaks it and one does not report what need not be. No other outcome.
pub check_fields-FieldsMean :
    (req : Requirement) (ps : List ClusterProfile)
    → FieldsMean req (check_fields req ps).outcome [] ps
check_fields-FieldsMean req ps = unfold check_fields in scan_fields-FieldsMean req [] ps

-- A cluster manager label, where there is one, is the manager of the specification.
abbrev pub HasManagerLabel : ClusterProfile → Type 0
HasManagerLabel p =
    (m : String)
    → lookup label_cluster_manager_key p.metadata.labels ≡ some m
    → m ≡ p.spec.cluster_manager.name

abbrev pub manager_value_id : String
manager_value_id = "ClusterManagerLabelValue"
