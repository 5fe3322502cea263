-- ===== src/Conformance/Matrix/Cells.antt =====
-- The cells of conformance/report.go's matrix: featureStatus and escapeCell.
use Prim.Native.Char.{Char, code}
use mathlib.Core.Path.{◌≡◌, refl, ap}
use mathlib.Core.Logic.{◌↔◌, ◌≢◌, inl, inr}
use native.Mathlib.Omega.{arith}
use text.Mathlib.TextEquality.{eq_iff}
use cluster_inventory_api.Common.{
  String, Bool, true, false, List, [], ◌∷◌, ◌==◌, All, Bool-cases, nat_eq, contains, ◌||◌,
}
use cluster_inventory_api.Conformance.Types.{Outcome, outcome_text, TestResult, ProfileReport}
use cluster_inventory_api.Conformance.Report.{is_passed, is_other}
use cluster_inventory_api.Conformance.Matrix.{entity, status_of, feature_status, escape_cell}

-- A text that stays in its cell: no line break, no angle bracket, and no bar but one behind a
-- backslash. `escaped` says that the text stands behind a backslash.
abbrev pub IsCell : Bool → String → Type 0
IsCell escaped String.[] = Unit
IsCell escaped (String.◌∷◌ c s) =
    (code c ≡ 124 → escaped ≡ true)
    × (code c ≢ 10)
    × (code c ≢ 13)
    × (code c ≢ 60)
    × (code c ≢ 62)
    × IsCell (nat_eq (code c) 92) s

-- A character that is no bar, line break or angle bracket.
plain-IsCell :
    (escaped : Bool) (c : Char) (s : String)
    → nat_eq (code c) 124 ≡ false
    → (nat_eq (code c) 10 || nat_eq (code c) 13) ≡ false
    → nat_eq (code c) 60 ≡ false
    → nat_eq (code c) 62 ≡ false
    → IsCell (nat_eq (code c) 92) s
    → IsCell escaped (String.◌∷◌ c s)
plain-IsCell escaped c s bar line less more h = (
  (λ e. ground arith),
  (λ e. ground arith),
  (λ e. ground arith),
  (λ e. ground arith),
  (λ e. ground arith),
  h,
)

escaped_bar-IsCell :
    (escaped : Bool) (s : String)
    → IsCell false s
    → IsCell escaped (String.◌∷◌ "\\" (String.◌∷◌ "|" s))
escaped_bar-IsCell escaped s h = plain-IsCell escaped "\\" (String.◌∷◌ "|" s) refl refl refl refl (
  (λ e. refl),
  (λ e. ground arith),
  (λ e. ground arith),
  (λ e. ground arith),
  (λ e. ground arith),
  h,
)

-- The characters of an entity, and the blank that stands for a line break.
abbrev IsSafe : Char → Type 0
IsSafe c =
    (nat_eq (code c) 124 ≡ false)
    × ((nat_eq (code c) 10 || nat_eq (code c) 13) ≡ false)
    × (nat_eq (code c) 60 ≡ false)
    × (nat_eq (code c) 62 ≡ false)

safe-IsCell :
    (c : Char) (escaped : Bool) (s : String)
    → IsSafe c
    → ((after : Bool) → IsCell after s)
    → IsCell escaped (String.◌∷◌ c s)
safe-IsCell c escaped s (bar, line, less, more) h =
    plain-IsCell escaped c s bar line less more (h _)

entity-IsCell :
    (letter : Char) (escaped : Bool) (s : String)
    → IsSafe letter
    → ((after : Bool) → IsCell after s)
    → IsCell escaped (entity letter s)
entity-IsCell letter escaped s safe h =
    let end : (after : Bool) → IsCell after (String.◌∷◌ ";" s) =
      λ after. safe-IsCell ";" after s (refl, refl, refl, refl) h in
    let t : (after : Bool) → IsCell after (String.◌∷◌ "t" (String.◌∷◌ ";" s)) =
      λ after. safe-IsCell "t" after (String.◌∷◌ ";" s) (refl, refl, refl, refl) end in
    let text = String.◌∷◌ "t" (String.◌∷◌ ";" s) in
    safe-IsCell "&" escaped (String.◌∷◌ letter text) (refl, refl, refl, refl)
      (λ after. safe-IsCell letter after text safe t)

-- Whatever text a report holds, escapeCell makes a cell of it.
pub escape_cell-IsCell : (escaped : Bool) (s : String) → IsCell escaped (escape_cell s)
unfolding escape_cell
escape_cell-IsCell escaped String.[] = tt
escape_cell-IsCell escaped (String.◌∷◌ c s) =
    let rest : (after : Bool) → IsCell after (escape_cell s) =
      λ after. escape_cell-IsCell after s in
    elim (Bool-cases (nat_eq (code c) 124)) [
      | inl bar ↦ rw bar (escaped_bar-IsCell escaped (escape_cell s) (rest false))
      | inr bar ↦ elim (Bool-cases (nat_eq (code c) 10 || nat_eq (code c) 13)) [
        | inl line ↦
            rw (bar, line) (safe-IsCell " " escaped (escape_cell s) (refl, refl, refl, refl) rest)
        | inr line ↦ elim (Bool-cases (nat_eq (code c) 60)) [
          | inl less ↦
              rw (bar, line, less)
                (entity-IsCell "l" escaped (escape_cell s) (refl, refl, refl, refl) rest)
          | inr less ↦ elim (Bool-cases (nat_eq (code c) 62)) [
            | inl more ↦
                rw (bar, line, less, more)
                  (entity-IsCell "g" escaped (escape_cell s) (refl, refl, refl, refl) rest)
            | inr more ↦
                rw (bar, line, less, more) (plain-IsCell escaped c _ bar line less more (rest _))
          ]
        ]
      ]
    ]

-- The tests of a feature have all passed.
abbrev pub HasPassed : String → List TestResult → Type 0
HasPassed feature =
    All (λ (t : TestResult). t.requirement.feature ≡ feature → is_passed t.outcome ≡ true)

outcome_text-passed :
    (o : Outcome) → is_other o ≡ false → outcome_text o ≡ "passed" → is_passed o ≡ true
outcome_text-passed Outcome.passed k e = refl
outcome_text-passed Outcome.failed k e = ap (λ s. s == "passed") e
outcome_text-passed Outcome.skipped k e = ap (λ s. s == "passed") e
outcome_text-passed Outcome.unknown k e = ap (λ s. s == "passed") e
outcome_text-passed Outcome.not_supported k e = ap (λ s. s == "passed") e
outcome_text-passed (Outcome.other s) k e = cc

status_of-passed_iff :
    (feature : String) (tests : List TestResult)
    → All (λ (t : TestResult). is_other t.outcome ≡ false) tests
    → (status_of feature tests ≡ "passed") ↔ HasPassed feature tests
unfolding status_of
status_of-passed_iff feature [] h = ((λ e. tt), (λ e. refl))
status_of-passed_iff feature (t ∷ rest) (k, h) =
    let ih = status_of-passed_iff feature rest h in
    let named = eq_iff t.requirement.feature feature in
    elim (Bool-cases (t.requirement.feature == feature)) [
      | inl e ↦ elim (Bool-cases (is_passed t.outcome)) [
        | inl o ↦ rw (e, o) ((λ s. ((λ f. refl), ih.0 s)), (λ s. ih.1 s.1))
        | inr o ↦
            rw (e, o)
              ((λ s. cc (outcome_text-passed t.outcome k s, o)), (λ s. cc (s.0 (named.0 e))))
      ]
      | inr e ↦ rw e ((λ s. ((λ f. cc (named.1 f, e)), ih.0 s)), (λ s. ih.1 s.1))
    ]

unclaimed_not_passed : ◌≢◌ {A = String} "Unclaimed" "passed"
unclaimed_not_passed e = cc (ap (λ s. s == "passed") e)

-- In a report whose outcomes are all known, a feature's cell reads "passed" exactly when the profile
-- claims the feature and all of the feature's tests have passed.
pub feature_status-passed_iff :
    (p : ProfileReport) (feature : String)
    → All (λ (t : TestResult). is_other t.outcome ≡ false) p.tests
    → (feature_status p feature ≡ "passed")
      ↔ ((contains p.supported_features feature ≡ true) × HasPassed feature p.tests)
unfolding feature_status
feature_status-passed_iff p feature known =
    let ih = status_of-passed_iff feature p.tests known in
    elim (Bool-cases (contains p.supported_features feature)) [
      | inl e ↦ rw e ((λ s. (refl, ih.0 s)), (λ s. ih.1 s.1))
      | inr e ↦ rw e ((λ s. absurd (unclaimed_not_passed s)), (λ s. cc (s.0)))
    ]
