-- ===== src/Conformance/Flags/Csv.antt =====
-- The list-valued flags of conformance/suite.go: csvFlag's String and Set.
use Prim.Native.String.{String}
use mathlib.Core.Path.{◌≡◌, refl, ap, ◌∙◌}
use mathlib.Core.Logic.{◌≢◌, inl, inr}
use text.Mathlib.TextEquality.{eq_iff}
use cluster_inventory_api.Common.{
  List, [], ◌∷◌, ◌==◌, some, All, All-weaken, trim_space, Bool-cases, ne→str_eq,
}
use cluster_inventory_api.Common.Text.{split}
use cluster_inventory_api.Common.Text.Split.{IsFree, split-join}
use cluster_inventory_api.Common.Text.Trim.{trim_space_idem, trim_space-IsFree, split-IsFree}
use cluster_inventory_api.Conformance.Flags.{csv_text, kept_items, split_list}

-- A text that a list flag can hold: not empty, without a comma, and without blanks around it.
pub record IsItem (s : String) : Type 0 where
  pub free : IsFree 44 s
  pub trimmed : trim_space s ≡ s
  pub filled : s ≢ ""

kept_items-AreItems : (items : List String) → All IsItem items → kept_items items ≡ items
unfolding kept_items
kept_items-AreItems [] h = refl
kept_items-AreItems (x ∷ xs) (h, hs) =
    rw (h.trimmed, ne→str_eq x "" h.filled) (ap (x ∷◌) (kept_items-AreItems xs hs))

-- What a list flag prints of its items, it reads back as the same items.
pub split_list-csv_text :
    (items : List String) → All IsItem items → split_list (csv_text (some items)) ≡ items
unfolding split_list csv_text
split_list-csv_text [] h = refl
split_list-csv_text (x ∷ xs) h =
    ap kept_items (split-join "," x xs (All-weaken IsItem (IsFree 44) (λ s i. i.free) (x ∷ xs) h))
    ∙ kept_items-AreItems (x ∷ xs) h

kept_items-All : (items : List String) → All (IsFree 44) items → All IsItem (kept_items items)
unfolding kept_items
kept_items-All [] h = tt
kept_items-All (x ∷ xs) (h, hs) = elim (Bool-cases (trim_space x == "")) [
  | inl t ↦ rw t (kept_items-All xs hs)
  | inr t ↦ rw t (
    record {
      free = trim_space-IsFree 44 x h;
      trimmed = trim_space_idem x;
      filled = λ e. cc ((eq_iff (trim_space x) "").1 e, t);
    },
    kept_items-All xs hs,
  )
]

-- Whatever text a list flag is set to, its items have no comma, no blanks around them and are not
-- empty; so the flag's own text, set again, gives the same items.
pub split_list-stable :
    (s : String)
    → All IsItem (split_list s) × (split_list (csv_text (some (split_list s))) ≡ split_list s)
unfolding split_list
split_list-stable s =
    let items = kept_items-All (split 44 s) (split-IsFree 44 s) in
    (items, split_list-csv_text (split_list s) items)
