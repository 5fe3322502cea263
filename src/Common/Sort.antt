-- ===== src/Common/Sort.antt =====
-- slices.Sort and slices.SortFunc, as a stable insertion sort by a key.
pub mod Laws
pub mod Members
use Prim.Native.String.{String}
use mathlib.Core.List.{List, [], ◌∷◌}
use cluster_inventory_api.Common.Tests.{if◌then◌else◌}
use cluster_inventory_api.Common.Text.Order.{text_leb}

module _ {ℓ} {A : Type ℓ} where
  unfoldable pub insert_by : (A → String) → A → List A → List A
  insert_by key a [] = a ∷ []
  insert_by key a (x ∷ xs) =
      let rest = insert_by key a xs in if text_leb (key a) (key x) then a ∷ x ∷ xs else x ∷ rest

  unfoldable pub sort_by : (A → String) → List A → List A
  unfolding insert_by
  sort_by key [] = []
  sort_by key (x ∷ xs) = insert_by key x (sort_by key xs)

-- slices.Sort at texts
unfoldable pub sort : List String → List String
unfolding sort_by
sort = sort_by (λ s. s)
