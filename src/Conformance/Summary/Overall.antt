-- ===== src/Conformance/Summary/Overall.antt =====
-- `combine` and `overall`: how the results of profiles and the run's errors decide the report.
use cluster_inventory_api.Common.{String, ◌≡◌, ◌≢◌, ◌↔◌, refl, List, [], ◌∷◌, All, arith}
use cluster_inventory_api.Conformance.Types.{Result, success, ProfileReport, ConformanceReport}
use cluster_inventory_api.Conformance.Summary.{
  result_rank, combine, combine_profiles, overall_of, overall,
}

-- A result that counts as success: success itself, or a text that is none of the four.
abbrev pub RanksLowest : Result → Type 0
RanksLowest r = result_rank r ≡ 0

combine-success : (a b : Result) → (combine a b ≡ success) ↔ ((a ≡ success) × RanksLowest b)
unfolding combine
combine-success a b = ((λ h. (ground arith, ground arith)), (λ h. ground arith))

combine_profiles-success :
    (start : Result) (ps : List ProfileReport)
    → (combine_profiles start ps ≡ success)
      ↔ ((start ≡ success) × All (λ (p : ProfileReport). RanksLowest p.result) ps)
unfolding combine_profiles
combine_profiles-success start [] = ((λ h. (h, tt)), (λ h. h.0))
combine_profiles-success start (p ∷ rest) =
    let ih = combine_profiles-success (combine start p.result) rest in
    let both = combine-success start p.result in
    (
      (λ h. let (q, low) = ih.0 h in let (a, b) = both.0 q in (a, (b, low))),
      (λ h. ih.1 (both.1 (h.0, h.1.0), h.1.1)),
    )

pub overall_of-success :
    (ps : List ProfileReport) (errors : List String)
    → (overall_of ps errors ≡ success)
      ↔ ((ps ≢ []) × All (λ (p : ProfileReport). RanksLowest p.result) ps × (errors ≡ []))
overall_of-success [] [] = unfold overall_of in ((λ h. cc), (λ h. absurd (h.0 refl)))
overall_of-success (p ∷ rest) [] =
    let whole = combine_profiles-success success (p ∷ rest) in
    unfold overall_of in ((λ h. ((λ e. cc), (whole.0 h).1, refl)), (λ h. whole.1 (refl, h.1)))
overall_of-success ps (e ∷ errors) =
    ((λ h. unfold overall_of combine in ground arith), (λ h. absurd (ground arith)))

-- A report is a success exactly when it has profiles, every profile's result counts as success,
-- and the run recorded no error.
pub overall-success_iff :
    (r : ConformanceReport)
    → (overall r ≡ success) ↔ (
        (r.profiles ≢ [])
        × All (λ (p : ProfileReport). RanksLowest p.result) r.profiles
        × (r.errors ≡ []))
unfolding overall
overall-success_iff r = overall_of-success r.profiles r.errors
