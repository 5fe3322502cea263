-- ===== src/Apis/DeepCopy/Layout.antt =====
-- What it is for a part of a memory to denote a value, and for a copy to be deep.
use mathlib.Core.Path.{◌≡◌, refl, sym, subst, ap, ◌∙◌}
use mathlib.Core.List
use native.Mathlib.Omega.{arith}
use cluster_inventory_api.Common.{
  ℕ, zero, suc, ◌≤◌, List, [], ◌∷◌, ◌++◌, Option, none, some, length,
}
use cluster_inventory_api.Apis.DeepCopy.{
  Cell, Memory, fetch, Arrays, array_at, copy_all, stored, copy_array, copy_slice, copy_flat, Slice,
}

-- The later memory has the earlier one's arrays as they were.
abbrev pub Grows : Memory → Memory → Type 0
Grows m n = (more : Memory) × (n ≡ m ++ more)

pub Grows-refl : (m : Memory) → Grows m m
Grows-refl m = ([], sym (List.append-nil m))

pub Grows-trans : (l m n : Memory) → Grows l m → Grows m n → Grows l n
Grows-trans l m n (a, e) (b, f) = (a ++ b, f ∙ ap (λ x. x ++ b) e ∙ List.append_assoc l a b)

pub Grows-length : (m n : Memory) → Grows m n → length m ≤ length n
Grows-length m n (more, e) = rw e (length-append m more)
  where
    length-append : (xs ys : Memory) → length xs ≤ length (xs ++ ys)
    length-append [] ys = omega arith
    length-append (x ∷ xs) ys = omega (arith, length-append xs ys)

fetch-append :
    (m more : Memory) (a : ℕ) (c : Cell) → fetch m a ≡ some c → fetch (m ++ more) a ≡ some c
unfolding fetch
fetch-append [] more a c h = cc
fetch-append (x ∷ m) more zero c h = h
fetch-append (x ∷ m) more (suc a) c h = fetch-append m more a c h

fetch-last : (m : Memory) (c : Cell) → fetch (m ++ c ∷ []) (length m) ≡ some c
unfolding fetch
fetch-last [] c = refl
fetch-last (x ∷ m) c = fetch-last m c

-- `shows m k a v`: in the memory m, a denotes v, through addresses from k on.
pub record Layout (A V : Type 0) : Type 1 where
  pub shows : Memory → ℕ → A → V → Type 0
  pub grow : (m n : Memory) (k : ℕ) (a : A) (v : V) → Grows m n → shows m k a v → shows n k a v
  pub lower : (m : Memory) (j k : ℕ) (a : A) (v : V) → j ≤ k → shows m k a v → shows m j a v

-- A copy denotes what its source denotes, through addresses of its own, and changes no array that was
-- there.
abbrev pub IsDeepCopy : {A V : Type 0} → Layout A V → (Memory → A → Memory × A) → Type 0
IsDeepCopy {A} {V} L copy =
    (m : Memory) (a : A) (v : V)
    → L.shows m 0 a v
    → Grows m (copy m a).0 × L.shows (copy m a).0 (length m) (copy m a).1 v

abbrev pub flat : (A : Type 0) → Layout A A
flat A = record { shows = λ m k a v. a ≡ v; grow = λ m n k a v g h. h; lower = λ m j k a v le h. h }

pub flat-IsDeepCopy : (A : Type 0) → IsDeepCopy (flat A) copy_flat
flat-IsDeepCopy A m a v h = (Grows-refl m, h)

module _ {A V : Type 0} (L : Layout A V) where
  abbrev pub ShowsAll : Memory → ℕ → List A → List V → Type 0
  ShowsAll m k [] [] = Unit
  ShowsAll m k [] (v ∷ vs) = ⊥
  ShowsAll m k (x ∷ xs) [] = ⊥
  ShowsAll m k (x ∷ xs) (v ∷ vs) = L.shows m k x v × ShowsAll m k xs vs

  ShowsAll-grow :
      (m n : Memory) (k : ℕ) (xs : List A) (vs : List V)
      → Grows m n
      → ShowsAll m k xs vs
      → ShowsAll n k xs vs
  ShowsAll-grow m n k [] [] g h = tt
  ShowsAll-grow m n k [] (v ∷ vs) g h = absurd h
  ShowsAll-grow m n k (x ∷ xs) [] g h = absurd h
  ShowsAll-grow m n k (x ∷ xs) (v ∷ vs) g (h, hs) =
      (L.grow m n k x v g h, ShowsAll-grow m n k xs vs g hs)

  ShowsAll-lower :
      (m : Memory) (j k : ℕ) (xs : List A) (vs : List V)
      → j ≤ k
      → ShowsAll m k xs vs
      → ShowsAll m j xs vs
  ShowsAll-lower m j k [] [] le h = tt
  ShowsAll-lower m j k [] (v ∷ vs) le h = absurd h
  ShowsAll-lower m j k (x ∷ xs) [] le h = absurd h
  ShowsAll-lower m j k (x ∷ xs) (v ∷ vs) le (h, hs) =
      (L.lower m j k x v le h, ShowsAll-lower m j k xs vs le hs)

  copy_all-ShowsAll :
      (copy : Memory → A → Memory × A)
      → IsDeepCopy L copy
      → (m : Memory) (xs : List A) (vs : List V) → ShowsAll m 0 xs vs
      → Grows m (copy_all copy m xs).0
        × ShowsAll (copy_all copy m xs).0 (length m) (copy_all copy m xs).1 vs
  unfolding copy_all
  copy_all-ShowsAll copy deep m [] [] h = (Grows-refl m, tt)
  copy_all-ShowsAll copy deep m [] (v ∷ vs) h = absurd h
  copy_all-ShowsAll copy deep m (x ∷ xs) [] h = absurd h
  copy_all-ShowsAll copy deep m (x ∷ xs) (v ∷ vs) (h, hs) =
      let (m₁, y) = copy m x in
      let (g, shown) = deep m x v h in
      let (g', later) = copy_all-ShowsAll copy deep m₁ xs vs (ShowsAll-grow m m₁ 0 xs vs g hs) in
      let (m₂, ys) = copy_all copy m₁ xs in
      (
        Grows-trans m m₁ m₂ g g',
        (
          L.grow m₁ m₂ (length m) y v g' shown,
          ShowsAll-lower m₂ (length m) (length m₁) ys vs (Grows-length m m₁ g) later,
        ),
      )

  -- A slice of the elements, where nil denotes `none`.
  module _ (arrays : Arrays A) where
    abbrev pub ShowsSlice : Memory → ℕ → Slice → Option (List V) → Type 0
    ShowsSlice m k none w = w ≡ none
    ShowsSlice m k (some a) w =
        (c : Cell) × (xs : List A) × (vs : List V) × (k ≤ a)
        × (fetch m a ≡ some c)
        × (arrays.elements c ≡ some xs)
        × (w ≡ some vs)
        × ShowsAll m k xs vs

    pub ShowsSlice-grow :
        (m n : Memory) (k : ℕ) (s : Slice) (w : Option (List V))
        → Grows m n
        → ShowsSlice m k s w
        → ShowsSlice n k s w
    ShowsSlice-grow m n k none w g h = h
    ShowsSlice-grow m n k (some a) w (more, e) (c, xs, vs, le, at_a, stores, same, all) = (
      c,
      xs,
      vs,
      le,
      ap (λ x. fetch x a) e ∙ fetch-append m more a c at_a,
      stores,
      same,
      ShowsAll-grow m n k xs vs (more, e) all,
    )

    pub ShowsSlice-lower :
        (m : Memory) (j k : ℕ) (s : Slice) (w : Option (List V))
        → j ≤ k
        → ShowsSlice m k s w
        → ShowsSlice m j s w
    ShowsSlice-lower m j k none w le h = h
    ShowsSlice-lower m j k (some a) w le (c, xs, vs, low, at_a, stores, same, all) =
        (c, xs, vs, omega (arith, le, low), at_a, stores, same, ShowsAll-lower m j k xs vs le all)

    abbrev pub slice : Layout Slice (Option (List V))
    slice = record { shows = ShowsSlice; grow = ShowsSlice-grow; lower = ShowsSlice-lower }

    -- What the array is stored as is what is read of it.
    abbrev pub Reads : Type 0
    Reads = (xs : List A) → arrays.elements (arrays.make xs) ≡ some xs

    stored-ShowsSlice :
        Reads
        → (m n : Memory) (ys : List A) (vs : List V) (w : Option (List V)) → Grows m n
        → ShowsAll n (length m) ys vs
        → w ≡ some vs
        → Grows m (stored arrays (n, ys)).0
          × ShowsSlice (stored arrays (n, ys)).0 (length m) (stored arrays (n, ys)).1 w
    stored-ShowsSlice reads m n ys vs w g all same =
        let cells : Memory = arrays.make ys ∷ [] in
        let last : Grows n (n ++ cells) = (cells, refl) in
        (
          Grows-trans m n (n ++ cells) g last,
          (
            arrays.make ys,
            ys,
            vs,
            Grows-length m n g,
            fetch-last n (arrays.make ys),
            reads ys,
            same,
            ShowsAll-grow n (n ++ cells) (length m) ys vs last all,
          ),
        )

    pub slice-IsDeepCopy :
        (copy : Memory → A → Memory × A)
        → IsDeepCopy L copy
        → Reads
        → IsDeepCopy slice (copy_slice arrays copy)
    unfolding copy_slice
    slice-IsDeepCopy copy deep reads m none w h = (Grows-refl m, h)
    slice-IsDeepCopy copy deep reads m (some a) w (c, xs, vs, le, at_a, stores, same, all) =
        let found : array_at arrays (fetch m a) ≡ some xs = ap (array_at arrays) at_a ∙ stores in
        let (g, shown) = copy_all-ShowsAll copy deep m xs vs all in
        let (n, ys) = copy_all copy m xs in
        subst
          (λ o.
            Grows m (copy_array arrays copy m (some a) o).0
            × ShowsSlice (copy_array arrays copy m (some a) o).0 (length m)
                (copy_array arrays copy m (some a) o).1 w)
          (sym found) (stored-ShowsSlice reads m n ys vs w g shown same)

-- A copy made behind others, of a part that denoted its value before them.
pub next-copied :
    {A V : Type 0} (L : Layout A V) (copy : Memory → A → Memory × A)
    → IsDeepCopy L copy
    → (m n : Memory) (a : A) (v : V) → Grows m n
    → L.shows m 0 a v
    → Grows n (copy n a).0 × L.shows (copy n a).0 (length m) (copy n a).1 v
next-copied L copy deep m n a v g h =
    let (later, shown) = deep n a v (L.grow m n 0 a v g h) in
    (later, L.lower (copy n a).0 (length m) (length n) (copy n a).1 v (Grows-length m n g) shown)
