-- ===== src/Conformance/Matrix/Rows.antt =====
-- The rows made of what the walk of conformance/report.go's GenerateMatrix collects.
use mathlib.Core.Path.{◌≡◌, refl, sym, ap, ◌∙◌}
use mathlib.Core.Logic.{◌≢◌, inl, inr}
use Prim.Native.String.{String}
use mathlib.Core.Option
use cluster_inventory_api.Common.{
  true, List, [], ◌∷◌, Option, none, some, All, Bool-cases, ok, >>=-eq-ok, ok_injective,
}
use cluster_inventory_api.Conformance.Platform.{Platform}
use cluster_inventory_api.Conformance.Report.Accepted.{validate_report-accepted}
use cluster_inventory_api.Conformance.Matrix.{
  Visit, Decoder, Entry, prefixed, print_heading, row, collect, insert_entry, sort_entries,
  sort_keys, keys_leb, same_group, group_of, Group, lines_of, print_line, print_lines,
  profile_cells, first_profile, printed_matrix, generate_matrix, zero_group,
}
use cluster_inventory_api.Conformance.Matrix.Collected.{
  IsAccepted, Gathers-IsAccepted, collect-Gathers,
}

module _ {ℓ} (P : Entry → Type ℓ) where
  pub insert_entry-All : (e : Entry) (es : List Entry) → P e → All P es → All P (insert_entry e es)
  unfolding insert_entry
  insert_entry-All e [] h k = (h, tt)
  insert_entry-All e (x ∷ xs) h (hx, hs) =
      elim (Bool-cases (keys_leb (sort_keys e) (sort_keys x))) [
        | inl t ↦ rw t (h, (hx, hs))
        | inr t ↦ rw t (hx, insert_entry-All e xs h hs)
      ]

  pub sort_entries-All : (es : List Entry) → All P es → All P (sort_entries es)
  unfolding sort_entries
  sort_entries-All [] h = tt
  sort_entries-All (e ∷ es) (h, k) = insert_entry-All e (sort_entries es) h (sort_entries-All es k)

abbrev IsPrinted : Option String → Type 0
IsPrinted o = (text : String) × (o ≡ some text)

prefixed-IsPrinted :
    (first rest : Option String)
    → IsPrinted first
    → IsPrinted rest
    → IsPrinted (prefixed first rest)
prefixed-IsPrinted (some a) (some b) h k = (_, refl)
prefixed-IsPrinted none rest (text, h) k = cc
prefixed-IsPrinted (some a) none h (text, k) = cc

row-IsPrinted :
    (p : Platform) (url_text : String → String) (e : Entry)
    → IsAccepted p e
    → IsPrinted (print_line url_text (row e))
unfolding print_line
row-IsPrinted p url_text e h =
    let ((profile, only, complete, overall), submitted) =
      validate_report-accepted p e.report true h in
    (
      profile_cells url_text e profile,
      ap (λ ps. Option.map (profile_cells url_text e) (first_profile ps)) only,
    )

lines_of-IsPrinted :
    (p : Platform) (url_text : String → String) (group : Group) (es : List Entry)
    → All (IsAccepted p) es
    → IsPrinted (print_lines url_text (lines_of group es))
unfolding lines_of print_lines print_line
lines_of-IsPrinted p url_text group [] h = ("", refl)
lines_of-IsPrinted p url_text group (e ∷ es) (h, k) =
    let later = lines_of-IsPrinted p url_text (group_of e) es k in
    let rows = prefixed-IsPrinted _ _ (row-IsPrinted p url_text e h) later in
    elim (Bool-cases (same_group (group_of e) group)) [
      | inl t ↦ rw t rows
      | inr t ↦ rw t (prefixed-IsPrinted _ _ (print_heading e, refl) rows)
    ]

printed_matrix-IsPrinted :
    (p : Platform) (url_text : String → String) (es : List Entry)
    → All (IsAccepted p) es
    → IsPrinted (printed_matrix url_text es)
printed_matrix-IsPrinted p url_text es h =
    prefixed-IsPrinted (some _) _ (_, refl) (lines_of-IsPrinted p url_text zero_group es h)

none_not_some : (text : String) → Path (Option String) none (some text) → ⊥
none_not_some text e = cc

-- GenerateMatrix never indexes an empty list of profiles: whatever the directory holds, it fails with
-- an error or writes a table.
pub generate_matrix-total :
    (p : Platform) (d : Decoder) (url_text : String → String) (visits : List Visit)
    → generate_matrix p d url_text visits ≢ ok none
unfolding generate_matrix
generate_matrix-total p d url_text visits h =
    let (entries, collected, h1) = >>=-eq-ok (collect p d visits) _ h in
    let sound =
      Gathers-IsAccepted p d visits entries (collect-Gathers p d visits entries collected) in
    let (text, printed) =
      printed_matrix-IsPrinted p url_text (sort_entries entries)
        (sort_entries-All (IsAccepted p) entries sound) in
    let nothing = ok_injective _ none h1 in absurd (none_not_some text (sym nothing ∙ printed))
