-- ===== src/Conformance/Checks/Claims.antt =====
-- Which requirements can be reported as not supported.
use cluster_inventory_api.Common.{
  String, ◌≡◌, inl, inr, refl, subst, Bool, Option-cases, true, false, not, ◌&&◌, List, [], ◌∷◌,
  Option, none, some, ◌==◌, if◌then◌else◌, is_empty, arith, All, All-weaken, Exists,
}
use cluster_inventory_api.Apis.{ClusterProfile}
use cluster_inventory_api.Conformance.Types.{
  Outcome, not_supported, Requirement, optional, TestResult,
}
use cluster_inventory_api.Conformance.Catalog.{catalog}
use cluster_inventory_api.Conformance.Checks.{
  ApiResource, Snapshot, missing, fine, outcome, check_resource, check_api, check_uniqueness,
  inspect, check_fields, check_representation, check_profiles, check,
}
use cluster_inventory_api.Conformance.Checks.Uniqueness.{
  UniquenessMeans, check_uniqueness-UniquenessMeans,
}
use cluster_inventory_api.Conformance.Checks.Fields.{FieldsMean, check_fields-FieldsMean}

-- A profile is found to miss what the requirement asks for only where the requirement is optional.
abbrev pub IsFirm : Requirement → Type 0
IsFirm req = (p : ClusterProfile) → inspect req p ≡ missing → optional req ≡ true

-- A result of a requirement that claims no more than the requirement allows.
pub record Fits (req : Requirement) (t : TestResult) : Type 0 where
  pub claimed : t.outcome ≡ not_supported → optional req ≡ true

abbrev IsOther : Outcome → Type 0
IsOther not_supported = ⊥
IsOther _ = Unit

module _ (req : Requirement) where
  if-Fits :
      (test : Bool) (t u : TestResult) → Fits req t → Fits req u → Fits req (if test then t else u)
  if-Fits true t u p q = p
  if-Fits false t u p q = q

  missing_optional :
      (ps : List ClusterProfile)
      → IsFirm req
      → Exists (λ p. inspect req p ≡ missing) ps
      → optional req ≡ true
  missing_optional [] firm h = absurd h
  missing_optional (p ∷ ps) firm (inl e) = firm p e
  missing_optional (p ∷ ps) firm (inr h) = missing_optional ps firm h

  fields_claim :
      (ps : List ClusterProfile)
      → IsFirm req
      → FieldsMean req not_supported [] ps
      → optional req ≡ true
  fields_claim ps firm (_, _, inl h) = absurd (h refl)
  fields_claim ps firm (_, _, inr h) = missing_optional ps firm h

  check_fields-Fits : (ps : List ClusterProfile) → IsFirm req → Fits req (check_fields req ps)
  check_fields-Fits ps firm = record {
    claimed = λ e.
        fields_claim ps firm
          (subst (λ o. FieldsMean req o [] ps) e (check_fields-FieldsMean req ps));
  }

  check_uniqueness-Fits : (ps : List ClusterProfile) → Fits req (check_uniqueness req ps)
  check_uniqueness-Fits ps = record {
    claimed =
        λ e. absurd (subst (λ o. UniquenessMeans o ps) e (check_uniqueness-UniquenessMeans req ps));
  }

  stated : (o : Outcome) (message : String) → IsOther o → Fits req (outcome req o message)
  unfolding outcome
  stated o message h = record { claimed = λ e. absurd (subst IsOther e h) }

  check_resource-Fits :
      (s : Snapshot) (found : Option ApiResource) → Fits req (check_resource req s found)
  check_resource-Fits s none = unfold check_resource in stated _ _ tt
  check_resource-Fits s (some a) = elim (Option-cases s.profile_error) [
    | inl e ↦ unfold check_resource in rw e (if-Fits _ _ _ (stated _ _ tt) (stated _ _ tt))
    | inr (fault, e) ↦
        unfold check_resource in
        rw e (
          if-Fits (req.id == "ClusterProfileNamespaced" && not a.namespaced) _ _ (stated _ _ tt) (
            if-Fits (req.id == "ClusterProfileAPIAvailability") _ _ (stated _ _ tt)
              (stated _ _ tt)))
  ]

  check_api-Fits : (s : Snapshot) → Fits req (check_api req s)
  check_api-Fits s = elim (Option-cases s.api_error) [
    | inl e ↦
        unfold check_api in
        rw e (elim (Option-cases s.resources) [
          | inl none_given ↦ rw none_given (stated _ _ tt)
          | inr (resources, given) ↦ rw given (check_resource-Fits s _)
        ])
    | inr (fault, e) ↦ unfold check_api in rw e (if-Fits _ _ _ (stated _ _ tt) (stated _ _ tt))
  ]

  check_representation-Fits :
      (s : Snapshot) (ps : List ClusterProfile) → Fits req (check_representation req s ps)
  unfolding check_representation
  check_representation-Fits s ps =
      if-Fits (is_empty ps) _ _ (stated _ _ tt) (if-Fits _ _ _ (stated _ _ tt) (stated _ _ tt))

  check_profiles-Fits :
      (s : Snapshot) (ps : List ClusterProfile) → IsFirm req → Fits req (check_profiles req s ps)
  check_profiles-Fits s ps firm =
      unfold check_profiles in
      if-Fits (req.id == "RegisteredClusterRepresentation") _ _ (check_representation-Fits s ps) (
        if-Fits (is_empty ps) _ _ (stated _ _ tt) (
          if-Fits (req.id == "InventoryMemberUniqueness") _ _ (check_uniqueness-Fits ps)
            (check_fields-Fits ps firm)))

  pub check-Fits : (s : Snapshot) → IsFirm req → Fits req (check req s)
  check-Fits s firm =
      unfold check in
      if-Fits (req.scope == "api") _ _ (check_api-Fits s) (elim (Option-cases s.profile_error) [
        | inl e ↦ rw e (check_profiles-Fits s _ firm)
        | inr (fault, e) ↦ rw e (stated _ _ tt)
      ])

pub catalog-IsFirm : All IsFirm catalog
unfolding catalog inspect
catalog-IsFirm =
    let api = λ (p : ClusterProfile) (h : fine ≡ missing). absurd (cc h) in
    (
      api,
      (
        api,
        (
          api,
          (
            (λ p h. ground arith),
            (
              (λ p h. ground arith),
              (
                (λ p h. refl),
                (
                  (λ p h. refl),
                  ((λ p h. refl), ((λ p h. refl), ((λ p h. refl), ((λ p h. refl), tt)))),
                ),
              ),
            ),
          ),
        ),
      ),
    )

-- Whatever was observed, the only checks of the catalog that may be reported as not supported are
-- those of optional requirements.
pub catalog-Fits : (s : Snapshot) → All (λ req. Fits req (check req s)) catalog
catalog-Fits s = All-weaken _ _ (λ req firm. check-Fits req s firm) catalog catalog-IsFirm
