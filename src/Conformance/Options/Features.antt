-- ===== src/Conformance/Options/Features.antt =====
-- What `validateFeatures` accepts.
use cluster_inventory_api.Common.{
  String, ◌≡◌, ◌≢◌, ◌↔◌, refl, true, false, List, [], ◌∷◌, All, In, Distinct, All-weaken, contains,
  contains_iff, ok, >>-eq-ok, arith, eq_iff,
}
use cluster_inventory_api.Conformance.Catalog.{features}
use cluster_inventory_api.Conformance.Options.{scan_features, validate_features}

-- The names are claimable, and none is read twice.
abbrev Fresh : List String → List String → Type 0
Fresh seen names =
    All (λ f. contains features f ≡ true) names
    × All (λ f. contains seen f ≡ false) names
    × Distinct names

fresh_tail :
    (seen : List String) (f : String) (rest : List String)
    → All (λ g. contains (f ∷ seen) g ≡ false) rest
    → All (λ g. contains seen g ≡ false) rest × All (λ g. g ≢ f) rest
unfolding contains
fresh_tail seen f [] h = (tt, tt)
fresh_tail seen f (g ∷ rest) (e, h) =
    let (a, b) = fresh_tail seen f rest h in
    ((ground arith, a), ((λ same. ground (arith, eq_iff f g)), b))

fresh_cons :
    (seen : List String) (f : String) (rest : List String)
    → All (λ g. contains seen g ≡ false) rest
    → All (λ g. g ≢ f) rest
    → All (λ g. contains (f ∷ seen) g ≡ false) rest
unfolding contains
fresh_cons seen f [] h k = tt
fresh_cons seen f (g ∷ rest) (a, h) (b, k) =
    (ground (arith, eq_iff f g), fresh_cons seen f rest h k)

scan_features_sound :
    (seen names : List String) → scan_features seen names ≡ ok tt → Fresh seen names
unfolding scan_features
scan_features_sound seen [] h = (tt, tt, tt)
scan_features_sound seen (f ∷ rest) h =
    let known : contains features f ≡ true = ground arith in
    let new : contains seen f ≡ false = ground arith in
    let (a, b, c) = scan_features_sound (f ∷ seen) rest (ground arith) in
    let (d, e) = fresh_tail seen f rest b in ((known, a), (new, d), (e, c))

scan_features_complete :
    (seen names : List String) → Fresh seen names → scan_features seen names ≡ ok tt
unfolding scan_features
scan_features_complete seen [] h = refl
scan_features_complete seen (f ∷ rest) ((known, a), (new, d), (e, c)) =
    rw known (rw new (scan_features_complete (f ∷ seen) rest (a, fresh_cons seen f rest d e, c)))

unseen : (names : List String) → All (λ f. contains [] f ≡ false) names
unfolding contains
unseen [] = tt
unseen (f ∷ rest) = (refl, unseen rest)

-- `validateFeatures` accepts exactly the lists of distinct catalog features in which a claim of
-- InventoryMemberUniqueness comes with one of InventoryMemberID.
pub validate_features_iff :
    (names : List String)
    → (validate_features names ≡ ok tt) ↔ (
        All (λ f. In f features) names
        × Distinct names
        × (In "InventoryMemberUniqueness" names → In "InventoryMemberID" names))
unfolding validate_features
validate_features_iff names = (
  (λ h.
      let (scanned, dependent) = >>-eq-ok (scan_features [] names) _ h in
      let (a, b, c) = scan_features_sound [] names scanned in
      (
        All-weaken _ _ (λ f e. (contains_iff features f).0 e) names a,
        c,
        (λ u.
            (contains_iff names "InventoryMemberID").0
              (ground (arith, (contains_iff names "InventoryMemberUniqueness").1 u))),
      )),
  (λ h.
      let scanned =
        scan_features_complete [] names
          (All-weaken _ _ (λ f e. (contains_iff features f).1 e) names h.0, unseen names, h.1) in
      rw scanned (
        ground (
          arith,
          contains_iff names "InventoryMemberUniqueness",
          contains_iff names "InventoryMemberID",
          h.2,
        ))),
)
