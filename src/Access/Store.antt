-- ===== src/Access/Store.antt =====
-- The exec configs that pointers share, and the frame of an allocation and of a write.
use cluster_inventory_api.Common.{
  ℕ, zero, suc, ◌<◌, ◌≤◌, ◌∙◌, ◌≡◌, ◌≢◌, refl, ap, List, [], ◌∷◌, ◌++◌, Option, none, some, length,
  arith,
}
use cluster_inventory_api.Access.{ExecConfig}

abbrev pub Store : Type 0
Store = List ExecConfig

-- *p
unfoldable pub fetch : Store → ℕ → Option ExecConfig
fetch [] a = none
fetch (c ∷ rest) zero = some c
fetch (c ∷ rest) (suc a) = fetch rest a

-- *p = c
unfoldable pub assign : Store → ℕ → ExecConfig → Store
assign [] a new = []
assign (c ∷ rest) zero new = new ∷ rest
assign (c ∷ rest) (suc a) new = c ∷ assign rest a new

-- Every address below `n` holds in `t` what it holds in `s`.
pub record Keeps (n : ℕ) (s t : Store) : Type 0 where
  pub same : (a : ℕ) → a < n → fetch t a ≡ fetch s a

pub fetch-append : (s t : Store) (a : ℕ) → a < length s → fetch (s ++ t) a ≡ fetch s a
unfolding fetch
fetch-append [] t a h = absurd (omega arith)
fetch-append (c ∷ s) t zero h = refl
fetch-append (c ∷ s) t (suc a) h = fetch-append s t a (omega arith)

pub fetch-new : (s : Store) (c : ExecConfig) → fetch (s ++ c ∷ []) (length s) ≡ some c
unfolding fetch
fetch-new [] c = refl
fetch-new (d ∷ s) c = fetch-new s c

pub fetch-assign_other :
    (s : Store) (a b : ℕ) (new : ExecConfig) → a ≢ b → fetch (assign s b new) a ≡ fetch s a
unfolding fetch assign
fetch-assign_other [] a b new h = refl
fetch-assign_other (c ∷ s) zero zero new h = absurd (h refl)
fetch-assign_other (c ∷ s) zero (suc b) new h = refl
fetch-assign_other (c ∷ s) (suc a) zero new h = refl
fetch-assign_other (c ∷ s) (suc a) (suc b) new h =
    fetch-assign_other s a b new (λ e. h (omega arith))

pub fetch-assign_same :
    (s : Store) (a : ℕ) (old new : ExecConfig)
    → fetch s a ≡ some old
    → fetch (assign s a new) a ≡ some new
unfolding fetch assign
fetch-assign_same [] a old new h = cc
fetch-assign_same (c ∷ s) zero old new h = refl
fetch-assign_same (c ∷ s) (suc a) old new h = fetch-assign_same s a old new h

pub Keeps-assign :
    (n : ℕ) (s t : Store) (b : ℕ) (new : ExecConfig)
    → Keeps n s t
    → n ≤ b
    → Keeps n s (assign t b new)
Keeps-assign n s t b new h far = record {
  same = λ a low. fetch-assign_other t a b new (omega arith) ∙ h.same a low;
}

pub Keeps-alloc : (s : Store) (c : ExecConfig) → Keeps (length s) s (s ++ c ∷ [])
Keeps-alloc s c = record { same = λ a low. fetch-append s (c ∷ []) a low }

pub Keeps-refl : (n : ℕ) (s : Store) → Keeps n s s
Keeps-refl n s = record { same = λ a low. refl }

pub assign-fetch : (s : Store) (a : ℕ) (c : ExecConfig) → fetch s a ≡ some c → assign s a c ≡ s
unfolding fetch assign
assign-fetch [] a c h = refl
assign-fetch (d ∷ s) zero c h = cc
assign-fetch (d ∷ s) (suc a) c h = ap (λ t. d ∷ t) (assign-fetch s a c h)
