-- ===== src/Conformance/Checks/FieldOutcomes.antt =====
-- What the outcomes of `checkFields` say of the profiles.
use cluster_inventory_api.Common.{
  ◌≡◌, ◌≢◌, ◌⊎◌, inl, inr, refl, List, [], ◌∷◌, All, All-weaken, Exists,
}
use cluster_inventory_api.Apis.{ClusterProfile}
use cluster_inventory_api.Conformance.Types.{Outcome, passed, failed, not_supported, Requirement}
use cluster_inventory_api.Conformance.Checks.{check_fields}
use cluster_inventory_api.Conformance.Checks.Fields.{FieldsMean, check_fields-FieldsMean}
use cluster_inventory_api.Conformance.Checks.Readings.{
  Breaks, Misses, Breaks-IsBroken, inspect-Misses, IsBroken-Breaks, fine-Meets,
}

Exists-map :
    (P Q : ClusterProfile → Type 0)
    → ((p : ClusterProfile) → P p → Q p)
    → (ps : List ClusterProfile) → Exists P ps
    → Exists Q ps
Exists-map P Q f [] h = h
Exists-map P Q f (p ∷ ps) (inl h) = inl (f p h)
Exists-map P Q f (p ∷ ps) (inr h) = inr (Exists-map P Q f ps h)

-- What an outcome says of profiles, by what they break and miss
abbrev pub FieldsSay : Requirement → Outcome → List ClusterProfile → Type 0
FieldsSay req passed ps = All (λ p. (¬ Breaks req.id p) × (¬ Misses req.id p)) ps
FieldsSay req failed ps =
    Exists (Breaks req.id) ps ⊎ ((req.level ≡ "SHOULD") × Exists (Misses req.id) ps)
FieldsSay req not_supported ps =
    (req.level ≢ "SHOULD") × All (λ p. ¬ Breaks req.id p) ps × Exists (Misses req.id) ps
FieldsSay req _ ps = ⊥

FieldsMean-FieldsSay :
    (req : Requirement) (ps : List ClusterProfile) (o : Outcome)
    → FieldsMean req o [] ps
    → FieldsSay req o ps
FieldsMean-FieldsSay req ps passed (e, h) = All-weaken _ _ (fine-Meets req) ps h
FieldsMean-FieldsSay req ps failed (inl h) = inl (Exists-map _ _ (IsBroken-Breaks req) ps h)
FieldsMean-FieldsSay req ps failed (inr (s, inl h)) = absurd (h refl)
FieldsMean-FieldsSay req ps failed (inr (s, inr h)) =
    inr (s, Exists-map _ _ (inspect-Misses req) ps h)
FieldsMean-FieldsSay req ps not_supported (s, b, inl h) = absurd (h refl)
FieldsMean-FieldsSay req ps not_supported (s, b, inr h) = (
  s,
  All-weaken _ _ (λ p unbroken h. unbroken (Breaks-IsBroken req p h)) ps b,
  Exists-map _ _ (inspect-Misses req) ps h,
)
FieldsMean-FieldsSay req ps _ h = absurd h

-- The check of a field passes only where every profile has the value wanted and reports what is
-- wanted; it fails only where a profile has a wrong value, or where one does not report what SHOULD be
-- reported; it is not supported only where none has a wrong value and one does not report what need
-- not be reported. There is no other outcome. A wrong value is a manager label other than
-- spec.clusterManager.name or an empty member ID; not reported is a missing manager label, a missing or
-- empty member ID, no condition of the type ControlPlaneHealthy or Joined, or an empty version.
pub check_fields-FieldsSay :
    (req : Requirement) (ps : List ClusterProfile) → FieldsSay req (check_fields req ps).outcome ps
check_fields-FieldsSay req ps = FieldsMean-FieldsSay req ps _ (check_fields-FieldsMean req ps)
