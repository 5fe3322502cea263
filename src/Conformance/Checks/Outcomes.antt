-- ===== src/Conformance/Checks/Outcomes.antt =====
-- What every check's result has: its requirement, a known outcome, and a reason unless it passed.
use cluster_inventory_api.Common.{
  String, ◌≡◌, ◌⊎◌, inl, inr, refl, Bool, Option-cases, true, false, not, ◌&&◌, List, [], ◌∷◌, ◌++◌,
  Option, none, some, ◌==◌, if◌then◌else◌, is_empty, concat, has_ink, is_space, ink_here, ink_later,
  arith,
}
use cluster_inventory_api.Apis.{ClusterProfile}
use cluster_inventory_api.Conformance.Types.{
  Outcome, passed, not_supported, Requirement, TestResult,
}
use cluster_inventory_api.Conformance.Summary.Counts.{IsKnown}
use cluster_inventory_api.Conformance.Checks.Fields.{Finding-cases}
use cluster_inventory_api.Conformance.Checks.{
  ApiResource, Snapshot, broken, outcome, check_resource, check_api, namespaced_name, report_ids,
  check_uniqueness, inspect, report_missing, scan_fields, check_fields, check_representation,
  check_profiles, check,
}

pub record IsSound (req : Requirement) (t : TestResult) : Type 0 where
  pub about : t.requirement ≡ req
  pub known : IsKnown t.outcome
  pub reasoned : (t.outcome ≡ passed) ⊎ (has_ink t.message ≡ true)

module _ (req : Requirement) where
  pub outcome-IsSound :
      (o : Outcome) (message : String)
      → IsKnown o
      → has_ink message ≡ true
      → IsSound req (outcome req o message)
  unfolding outcome
  outcome-IsSound o message k h = record { about = refl; known = k; reasoned = inr h }

  passed-IsSound : IsSound req (outcome req passed "")
  unfolding outcome
  passed-IsSound = record { about = refl; known = tt; reasoned = inl refl }

  -- A result with a fixed reason, or one that begins with a fixed text.
  stated :
      (o : Outcome) (message : String)
      → IsKnown o
      → has_ink message ≡ true
      → IsSound req (outcome req o message)
  stated o message k h = outcome-IsSound o message k h

  begun :
      (o : Outcome) (start : String) (rest : List String)
      → IsKnown o
      → has_ink start ≡ true
      → IsSound req (outcome req o (concat (start ∷ rest)))
  begun o start rest k h = outcome-IsSound o _ k (ink_here start rest h)

  if-IsSound :
      (test : Bool) (t u : TestResult)
      → IsSound req t
      → IsSound req u
      → IsSound req (if test then t else u)
  if-IsSound true t u p q = p
  if-IsSound false t u p q = q

  check_resource-IsSound :
      (s : Snapshot) (found : Option ApiResource) → IsSound req (check_resource req s found)
  unfolding has_ink is_space
  check_resource-IsSound s none = unfold check_resource in stated _ _ tt refl
  check_resource-IsSound s (some a) = elim (Option-cases s.profile_error) [
    | inl e ↦
        unfold check_resource in
        if-IsSound (req.id == "ClusterProfileNamespaced" && not a.namespaced) _ _
          (stated _ _ tt refl) (rw e passed-IsSound)
    | inr (fault, e) ↦
        unfold check_resource in
        if-IsSound (req.id == "ClusterProfileNamespaced" && not a.namespaced) _ _
          (stated _ _ tt refl)
          (rw e (
            if-IsSound (req.id == "ClusterProfileAPIAvailability") _ _ (begun _ _ _ tt refl)
              passed-IsSound))
  ]

  check_api-IsSound : (s : Snapshot) → IsSound req (check_api req s)
  unfolding has_ink is_space
  check_api-IsSound s = elim (Option-cases s.api_error) [
    | inl e ↦
        unfold check_api in
        rw e (elim (Option-cases s.resources) [
          | inl none_given ↦ rw none_given (stated _ _ tt refl)
          | inr (resources, given) ↦ rw given (check_resource-IsSound s _)
        ])
    | inr (fault, e) ↦
        unfold check_api in
        rw e (if-IsSound fault.not_found _ _ (stated _ _ tt refl) (begun _ _ _ tt refl))
  ]

  report_ids-IsSound :
      (ids : List (String × List String)) (names : List String) (found : Option String)
      → IsSound req (report_ids req ids names found)
  unfolding has_ink is_space report_ids
  report_ids-IsSound ids names (some id) = begun _ _ _ tt refl
  report_ids-IsSound ids [] none = passed-IsSound
  report_ids-IsSound ids (name ∷ names) none = begun _ _ _ tt refl

  report_missing-IsSound : (names : List String) → IsSound req (report_missing req names)
  unfolding has_ink is_space report_missing
  report_missing-IsSound [] = passed-IsSound
  report_missing-IsSound (name ∷ names) = begun _ _ _ (level_known (req.level == "SHOULD")) refl
    where
      level_known : (test : Bool) → IsKnown (if test then Outcome.failed else not_supported)
      level_known true = tt
      level_known false = tt

  -- The text of a broken profile begins with the profile's name, which has a slash.
  named_ink :
      (p : ClusterProfile) (rest : List String) → has_ink (concat (namespaced_name p ∷ rest)) ≡ true
  unfolding has_ink is_space namespaced_name
  named_ink p rest = ink_here _ rest (ink_later _ _ (ink_here "/" _ refl))

  broken_ink : (p : ClusterProfile) {m : String} → inspect req p ≡ broken m → has_ink m ≡ true
  unfolding inspect
  broken_ink p {m} e = ground (
    arith,
    named_ink p (": cluster manager label does not match spec.clusterManager.name" ∷ []),
    named_ink p (": inventory member ID is empty" ∷ []),
  )

  scan_fields-IsSound :
      (names : List String) (ps : List ClusterProfile) → IsSound req (scan_fields req names ps)
  unfolding scan_fields
  scan_fields-IsSound names [] = report_missing-IsSound names
  scan_fields-IsSound names (p ∷ ps) = elim (Finding-cases (inspect req p)) [
    | inl (m, e) ↦ rw (e, scan_fields) (stated _ m tt (broken_ink p e))
    | inr (inl e) ↦ rw (e, scan_fields) (scan_fields-IsSound (names ++ namespaced_name p ∷ []) ps)
    | inr (inr e) ↦ rw (e, scan_fields) (scan_fields-IsSound names ps)
  ]

  check_representation-IsSound :
      (s : Snapshot) (ps : List ClusterProfile) → IsSound req (check_representation req s ps)
  unfolding has_ink is_space check_representation
  check_representation-IsSound s ps =
      if-IsSound (is_empty ps) _ _ (stated _ _ tt refl)
        (if-IsSound _ _ _ (begun _ _ _ tt refl) passed-IsSound)

  check_profiles-IsSound :
      (s : Snapshot) (ps : List ClusterProfile) → IsSound req (check_profiles req s ps)
  unfolding has_ink is_space
  check_profiles-IsSound s ps =
      unfold check_profiles check_uniqueness check_fields in
      if-IsSound (req.id == "RegisteredClusterRepresentation") _ _
        (check_representation-IsSound s ps)
        (if-IsSound (is_empty ps) _ _ (stated _ _ tt refl) (
          if-IsSound (req.id == "InventoryMemberUniqueness") _ _ (report_ids-IsSound _ _ _)
            (scan_fields-IsSound [] ps)))

  -- Whatever was observed, the result of a check is about its requirement, has one of the five
  -- outcomes, and has a message that is not blank unless it passed.
  pub check-IsSound : (s : Snapshot) → IsSound req (check req s)
  unfolding has_ink is_space
  check-IsSound s =
      unfold check in
      if-IsSound (req.scope == "api") _ _ (check_api-IsSound s)
        (elim (Option-cases s.profile_error) [
          | inl e ↦ rw e (check_profiles-IsSound s _)
          | inr (fault, e) ↦ rw e (begun _ _ _ tt refl)
        ])
