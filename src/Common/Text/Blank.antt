-- ===== src/Common/Text/Blank.antt =====
-- When strings.TrimSpace leaves nothing.
use Prim.Native.Char.{Char, code}
use Prim.Native.String
use Prim.Native.String.{String, [], ◌∷◌}
use mathlib.Core.Path.{◌≡◌, refl, ap, ◌∙◌}
use mathlib.Core.Bool.{Bool, true, false, ◌||◌, ◌&&◌, not}
use mathlib.Core.List.{List, [], ◌∷◌}
use native.Mathlib.Omega.{arith}
use text.Mathlib.Text.{◌==◌}
use text.Mathlib.TextPositions.{eq_refl}
use text.Mathlib.TextLemmas.{cons-append, nil-append, cons≢nil}
use cluster_inventory_api.Common.Tests.{ne→str_eq, if◌then◌else◌}
use cluster_inventory_api.Common.Text.{is_space, trim_left, trim_right, trim_space, concat}

-- strings.TrimSpace(s) == ""
abbrev pub is_blank : String → Bool
is_blank s = trim_space s == ""

-- Some character is not a space.
unfoldable pub has_ink : String → Bool
has_ink [] = false
has_ink (c ∷ s) = not (is_space (code c)) || has_ink s

cons_ne_empty : (c : Char) (s : String) → (c ∷ s == "") ≡ false
cons_ne_empty c s = ne→str_eq (c ∷ s) "" cons≢nil

shortened_ink :
    (c : Char) (rest : String) (space ink : Bool)
    → (rest == "") ≡ not ink
    → ((if space && rest == "" then "" else c ∷ rest) == "") ≡ not (not space || ink)
shortened_ink c rest false ink h = cons_ne_empty c rest
shortened_ink c rest true true h = rw h (cons_ne_empty c rest)
shortened_ink c rest true false h = rw h (eq_refl "")

trim_right_ink : (s : String) → (trim_right s == "") ≡ not (has_ink s)
unfolding trim_right has_ink
trim_right_ink [] = refl
trim_right_ink (c ∷ s) =
    shortened_ink c (trim_right s) (is_space (code c)) (has_ink s) (trim_right_ink s)

trim_left_ink : (s : String) → has_ink (trim_left s) ≡ has_ink s
unfolding trim_left has_ink
trim_left_ink [] = refl
trim_left_ink (c ∷ s) = ground (arith, trim_left_ink s)

pub is_blank_lem : (s : String) → is_blank s ≡ not (has_ink s)
unfolding trim_space
is_blank_lem s = trim_right_ink (trim_left s) ∙ ap not (trim_left_ink s)

ink-append : (s t : String) → has_ink (String.◌++◌ s t) ≡ (has_ink s || has_ink t)
unfolding has_ink
ink-append [] t = rw nil-append
ink-append (c ∷ s) t = rw cons-append (ground (arith, ink-append s t))

pub ink-not_blank : (s : String) → has_ink s ≡ true → is_blank s ≡ false
ink-not_blank s h = is_blank_lem s ∙ ap not h

-- A text that begins with a piece that is not blank is not blank.
pub concat-not_blank :
    (s : String) (rest : List String) → has_ink s ≡ true → is_blank (concat (s ∷ rest)) ≡ false
unfolding concat
concat-not_blank s rest h =
    ink-not_blank (String.◌++◌ s (concat rest)) (ground (arith, ink-append s (concat rest)))

-- One piece that is not blank makes the whole not blank.
pub ink_here :
    (s : String) (rest : List String) → has_ink s ≡ true → has_ink (concat (s ∷ rest)) ≡ true
unfolding concat
ink_here s rest h = ground (arith, ink-append s (concat rest))

pub ink_later :
    (s : String) (rest : List String)
    → has_ink (concat rest) ≡ true
    → has_ink (concat (s ∷ rest)) ≡ true
unfolding concat
ink_later s rest h = ground (arith, ink-append s (concat rest))
