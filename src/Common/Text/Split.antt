-- ===== src/Common/Text/Split.antt =====
-- strings.Split of what strings.Join put together.
use Prim.Native.Char.{Char, code}
use Prim.Native.String
use Prim.Native.String.{String, [], ◌∷◌}
use Prim.Native.Nat.{ℕ}
use mathlib.Core.Path.{◌≡◌, refl, sym, ap, ap₂, ◌∙◌}
use mathlib.Core.Bool.{true, false}
use mathlib.Core.List
use mathlib.Core.List.{List}
use text.Mathlib.TextLemmas.{cons-append, nil-append, append-nil, append_assoc}
use native.Mathlib.Omega.{arith}
use cluster_inventory_api.Common.Tests.{nat_eq}
use cluster_inventory_api.Common.Lists.{All}
use cluster_inventory_api.Common.Text.{split_from, split, concat, join}

-- No character of the text is the separator.
abbrev pub IsFree : ℕ → String → Type 0
IsFree sep [] = Unit
IsFree sep (c ∷ s) = (nat_eq (code c) sep ≡ false) × IsFree sep s

snoc-append :
    (cur piece : String) (c : Char)
    → String.◌++◌ (String.◌++◌ cur (c ∷ [])) piece ≡ String.◌++◌ cur (c ∷ piece)
snoc-append cur piece c =
    append_assoc cur (c ∷ []) piece
    ∙ ap (String.◌++◌ cur) (cons-append c [] piece ∙ ap (◌∷◌ c) (nil-append piece))

step :
    (sep : ℕ) (parts : List String) (cur : String) (c : Char) (rest : String)
    → nat_eq (code c) sep ≡ false
    → split_from sep parts cur (c ∷ rest) ≡ split_from sep parts (String.◌++◌ cur (c ∷ [])) rest
unfolding split_from
step sep parts cur c rest h = rw h refl

split_from-free :
    (sep : ℕ) (parts : List String) (cur piece rest : String)
    → IsFree sep piece
    → split_from sep parts cur (String.◌++◌ piece rest)
      ≡ split_from sep parts (String.◌++◌ cur piece) rest
split_from-free sep parts cur [] rest h =
    ap (split_from sep parts cur) (nil-append rest)
    ∙ ap (λ s. split_from sep parts s rest) (sym (append-nil cur))
split_from-free sep parts cur (c ∷ piece) rest (ne, h) =
    ap (split_from sep parts cur) (cons-append c piece rest)
    ∙ step sep parts cur c (String.◌++◌ piece rest) ne
    ∙ split_from-free sep parts (String.◌++◌ cur (c ∷ [])) piece rest h
    ∙ ap (λ s. split_from sep parts s rest) (snoc-append cur piece c)

close :
    (sep : Char) (parts : List String) (cur rest : String)
    → split_from (code sep) parts cur (sep ∷ rest)
      ≡ split_from (code sep) (List.◌++◌ parts (List.◌∷◌ cur List.[])) "" rest
unfolding split_from
close sep parts cur rest = rw same_code refl
  where
    same_code : nat_eq (code sep) (code sep) ≡ true
    same_code = ground arith

split_from-join :
    (sep : Char) (parts : List String) (x : String) (xs : List String)
    → All (IsFree (code sep)) (List.◌∷◌ x xs)
    → split_from (code sep) parts "" (join (sep ∷ []) (List.◌∷◌ x xs))
      ≡ mathlib.Core.List.◌++◌ parts (List.◌∷◌ x xs)
unfolding join concat split_from
split_from-join sep parts x List.[] (h, _) =
    ap (split_from (code sep) parts "") (sym (append-nil x))
    ∙ split_from-free (code sep) parts "" x "" h
    ∙ ap (λ s. List.◌++◌ parts (List.◌∷◌ s List.[])) (nil-append x)
split_from-join sep parts x (List.◌∷◌ y ys) (h, hs) =
    let later = join (sep ∷ []) (List.◌∷◌ y ys) in
    split_from-free (code sep) parts "" x _ h
    ∙ ap₂ (split_from (code sep) parts) (nil-append x) (
        cons-append sep [] (String.◌++◌ later "")
        ∙ ap (◌∷◌ sep) (nil-append (String.◌++◌ later "") ∙ append-nil later))
    ∙ close sep parts x later
    ∙ split_from-join sep (List.◌++◌ parts (List.◌∷◌ x List.[])) y ys hs
    ∙ List.append_assoc parts (List.◌∷◌ x List.[]) (List.◌∷◌ y ys)

-- Splitting at a separator what it joins gives the items, where there is one and none has it.
pub split-join :
    (sep : Char) (x : String) (xs : List String)
    → All (IsFree (code sep)) (List.◌∷◌ x xs)
    → split (code sep) (join (sep ∷ []) (List.◌∷◌ x xs)) ≡ List.◌∷◌ x xs
unfolding split
split-join sep x xs h = split_from-join sep List.[] x xs h
