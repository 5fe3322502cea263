-- ===== src/Common/Text/Trim.antt =====
-- strings.TrimSpace again, and the characters that trimming and splitting leave.
use Prim.Native.Char.{code}
use Prim.Native.String
use Prim.Native.String.{String, [], ◌∷◌}
use Prim.Native.Nat.{ℕ}
use mathlib.Core.Path.{◌≡◌, refl, sym, subst, ap, ◌∙◌}
use mathlib.Core.Logic.{inl, inr}
use mathlib.Core.Bool.{false, ◌&&◌}
use mathlib.Core.List.{List}
use mathlib.Core.List
use text.Mathlib.Text.{◌==◌}
use text.Mathlib.TextLemmas.{cons-append, nil-append}
use cluster_inventory_api.Common.Tests.{nat_eq, Bool-cases, if◌then◌else◌}
use cluster_inventory_api.Common.Lists.{All, All-append}
use cluster_inventory_api.Common.Text.{
  is_space, trim_left, trim_right, trim_space, split_from, split,
}
use cluster_inventory_api.Common.Text.Split.{IsFree}

trim_right_idem : (s : String) → trim_right (trim_right s) ≡ trim_right s
unfolding trim_right
trim_right_idem [] = refl
trim_right_idem (c ∷ s) = elim (Bool-cases (is_space (code c) && trim_right s == "")) [
  | inl t ↦ rw t refl
  | inr t ↦ rw t (rw (trim_right_idem s) (rw t refl))
]

-- The text does not begin with a blank.
abbrev Starts : String → Type 0
Starts [] = Unit
Starts (c ∷ s) = is_space (code c) ≡ false

trim_left-Starts : (s : String) → Starts (trim_left s)
unfolding trim_left
trim_left-Starts [] = tt
trim_left-Starts (c ∷ s) = elim (Bool-cases (is_space (code c))) [
  | inl t ↦ rw t (trim_left-Starts s)
  | inr t ↦ subst Starts (ap (λ b. if b then trim_left s else c ∷ s) (sym t)) t
]

trim_right-Starts : (s : String) → Starts s → Starts (trim_right s)
unfolding trim_right
trim_right-Starts [] h = tt
trim_right-Starts (c ∷ s) h =
    subst Starts (ap (λ b. if b && trim_right s == "" then "" else c ∷ trim_right s) (sym h)) h

Starts-trim_left : (s : String) → Starts s → trim_left s ≡ s
unfolding trim_left
Starts-trim_left [] h = refl
Starts-trim_left (c ∷ s) h = ap (λ b. if b then trim_left s else c ∷ s) h

pub trim_space_idem : (s : String) → trim_space (trim_space s) ≡ trim_space s
unfolding trim_space
trim_space_idem s =
    ap trim_right (
      Starts-trim_left (trim_right (trim_left s))
        (trim_right-Starts (trim_left s) (trim_left-Starts s)))
    ∙ trim_right_idem (trim_left s)

module _ (sep : ℕ) where
  trim_left-IsFree : (s : String) → IsFree sep s → IsFree sep (trim_left s)
  unfolding trim_left
  trim_left-IsFree [] h = tt
  trim_left-IsFree (c ∷ s) (h, hs) = elim (Bool-cases (is_space (code c))) [
    | inl t ↦ rw t (trim_left-IsFree s hs)
    | inr t ↦ rw t (h, hs)
  ]

  trim_right-IsFree : (s : String) → IsFree sep s → IsFree sep (trim_right s)
  unfolding trim_right
  trim_right-IsFree [] h = tt
  trim_right-IsFree (c ∷ s) (h, hs) = elim (Bool-cases (is_space (code c) && trim_right s == "")) [
    | inl t ↦ rw t tt
    | inr t ↦ rw t (h, trim_right-IsFree s hs)
  ]

  pub trim_space-IsFree : (s : String) → IsFree sep s → IsFree sep (trim_space s)
  unfolding trim_space
  trim_space-IsFree s h = trim_right-IsFree (trim_left s) (trim_left-IsFree s h)

  IsFree-append : (s t : String) → IsFree sep s → IsFree sep t → IsFree sep (String.◌++◌ s t)
  IsFree-append [] t h k = rw (nil-append t) k
  IsFree-append (c ∷ s) t (h, hs) k = rw (cons-append c s t) (h, IsFree-append s t hs k)

  split_from-IsFree :
      (parts : List String) (cur s : String)
      → All (IsFree sep) parts
      → IsFree sep cur
      → All (IsFree sep) (split_from sep parts cur s)
  unfolding split_from
  split_from-IsFree parts cur [] h k = All-append (IsFree sep) parts _ h (k, tt)
  split_from-IsFree parts cur (c ∷ s) h k = elim (Bool-cases (nat_eq (code c) sep)) [
    | inl t ↦ rw t (
        split_from-IsFree (List.◌++◌ parts (List.◌∷◌ cur List.[])) "" s
          (All-append (IsFree sep) parts _ h (k, tt)) tt)
    | inr t ↦ rw t (
        split_from-IsFree parts (String.◌++◌ cur (c ∷ [])) s h
          (IsFree-append cur (c ∷ []) k (t, tt)))
  ]

  -- No piece has the separator.
  pub split-IsFree : (s : String) → All (IsFree sep) (split sep s)
  unfolding split
  split-IsFree s = split_from-IsFree List.[] "" s tt tt
