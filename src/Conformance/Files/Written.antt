-- ===== src/Conformance/Files/Written.antt =====
-- The loop of WriteReports over the formats, and what it leaves at their paths.
use cluster_inventory_api.Common.{
  ℕ, ◌+◌, ◌≡◌, ◌≢◌, ◌⊎◌, refl, sym, ap, ◌∙◌, inl, inr, subst, String, Bool, Bool-cases, true, false,
  not, ◌&&◌, List, [], ◌∷◌, Option, some, ◌==◌, is_empty-eq-true, Fallible-cases, is_empty, All,
  All-weaken, ok, for_each-eq-ok, reject_if-eq-ok, arith, str_eq→eq, str_eq→ne,
}
use cluster_inventory_api.Conformance.Options.{validate_formats}
use cluster_inventory_api.Conformance.Files.{
  Files, atomic_write, file_name, compact, Desk, write_each,
}
use cluster_inventory_api.Conformance.Files.Atomic.{atomic_write-IsAtomic, atomic_write-other}

abbrev pub IsKnownFormat : String → Type 0
IsKnownFormat f = (f ≡ "html") ⊎ (f ≡ "yaml")

abbrev pub path_of : Desk → Bool → String → String
path_of d per_api format = d.path_of (file_name per_api format)

-- The two reports have different paths, and no temporary file has one of them.
pub record IsSeparate (d : Desk) (per_api : Bool) : Type 0 where
  pub paths :
      (f g : String)
      → IsKnownFormat f
      → IsKnownFormat g
      → f ≢ g
      → path_of d per_api f ≢ path_of d per_api g
  pub temps :
      (n : ℕ) (temp f : String)
      → IsKnownFormat f
      → (d.attempt n).created ≡ ok temp
      → temp ≢ path_of d per_api f

module _ (d : Desk) (per_api : Bool) (s : IsSeparate d per_api) where
  -- A write keeps what holds of the content for a format, if it holds of its rendering.
  write-keeps :
      (P : Option String → Type 0) (n : ℕ) (f g text : String) (files : Files)
      → IsKnownFormat f
      → IsKnownFormat g
      → d.render f ≡ ok text
      → ((t : String) → d.render g ≡ ok t → P (some t))
      → P (files (path_of d per_api g))
      → P (
          (atomic_write (d.attempt n) (path_of d per_api f) text files).files (path_of d per_api g))
  write-keeps P n f g text files kf kg rendered new old = elim (Bool-cases (f == g)) [
    | inl e ↦
        let same = str_eq→eq f g e in
        subst
          (λ h. P (
            (atomic_write (d.attempt n) (path_of d per_api f) text files).files
              (path_of d per_api h)))
          same
          (elim (atomic_write-IsAtomic (d.attempt n) (path_of d per_api f) text files
            (λ temp c. s.temps n temp f kf c)).last [
              | inl k ↦
                  subst P (sym k) (subst (λ h. P (files (path_of d per_api h))) (sym same) old)
              | inr k ↦ subst P (sym k) (new text (subst (λ h. d.render h ≡ ok text) same rendered))
            ])
    | inr e ↦
        subst P
          (sym (
            atomic_write-other (d.attempt n) (path_of d per_api f) text files (path_of d per_api g)
              (s.paths f g kf kg (str_eq→ne f g e)) (λ temp c. s.temps n temp g kg c)))
          old
  ]

  -- So does the loop.
  pub write_each-keeps :
      (P : Option String → Type 0) (g : String) (n : ℕ) (formats : List String) (files : Files)
      → All IsKnownFormat formats
      → IsKnownFormat g
      → ((t : String) → d.render g ≡ ok t → P (some t))
      → P (files (path_of d per_api g))
      → P ((write_each d per_api n formats files).0 (path_of d per_api g))
  unfolding write_each
  write_each-keeps P g n [] files h kg new old = old
  write_each-keeps P g n (f ∷ rest) files (kf, h) kg new old = elim (Fallible-cases (d.render f)) [
    | inr (e, k) ↦ rw (write_each, k) old
    | inl (text, k) ↦
        let end = atomic_write (d.attempt n) (path_of d per_api f) text files in
        let kept = write-keeps P n f g text files kf kg k new old in
        elim (Bool-cases (is_empty end.errors)) [
          | inl m ↦
              rw (write_each, k, m) (write_each-keeps P g (n + 1) rest end.files h kg new kept)
          | inr m ↦ rw (write_each, k, m) kept
        ]
  ]

  -- The format's file holds its rendering.
  abbrev pub IsRendered : Files → String → Type 0
  IsRendered files f = (t : String) × (d.render f ≡ ok t) × (files (path_of d per_api f) ≡ some t)

  new_text :
      (n : ℕ) (f text : String) (files : Files)
      → IsKnownFormat f
      → let end = atomic_write (d.attempt n) (path_of d per_api f) text files in
        is_empty end.errors ≡ true → end.files (path_of d per_api f) ≡ some text
  new_text n f text files kf m =
      let end = atomic_write (d.attempt n) (path_of d per_api f) text files in
      elim (atomic_write-IsAtomic (d.attempt n) (path_of d per_api f) text files
        (λ temp c. s.temps n temp f kf c)).decided [
          | inl h ↦ h.1
          | inr h ↦ absurd (h.0 (is_empty-eq-true end.errors m))
        ]

  pub write_each-IsRendered :
      (n : ℕ) (formats : List String) (files : Files)
      → All IsKnownFormat formats
      → (write_each d per_api n formats files).1 ≡ ok tt
      → All (λ f. IsRendered (write_each d per_api n formats files).0 f) formats
  unfolding write_each
  write_each-IsRendered n [] files h done = tt
  write_each-IsRendered n (f ∷ rest) files (kf, h) done = elim (Fallible-cases (d.render f)) [
    | inr (e, k) ↦ cc (rw (write_each, k) at done)
    | inl (text, k) ↦
        let end = atomic_write (d.attempt n) (path_of d per_api f) text files in
        elim (Bool-cases (is_empty end.errors)) [
          | inr m ↦ cc (rw (write_each, k, m) at done)
          | inl m ↦
              let new : IsRendered end.files f = (text, k, new_text n f text files kf m) in
              let later = write_each d per_api (n + 1) rest end.files in
              let step : write_each d per_api n (f ∷ rest) files ≡ later =
                rw (write_each, k, m) refl in
              subst (λ r. All (λ g. IsRendered r.0 g) (f ∷ rest)) (sym step)
                (
                  write_each-keeps (λ c. (t : String) × (d.render f ≡ ok t) × (c ≡ some t)) f
                      (n + 1) rest end.files h kf (λ t r. (t, r, refl)) new,
                  write_each-IsRendered (n + 1) rest end.files h (sym (ap (λ r. r.1) step) ∙ done),
                )
        ]
  ]

pub compact-All : (P : String → Type 0) (xs : List String) → All P xs → All P (compact xs)
unfolding compact
compact-All P [] h = tt
compact-All P (x ∷ []) h = h
compact-All P (x ∷ y ∷ rest) (p, h) = elim (Bool-cases (x == y)) [
  | inl e ↦ rw e (compact-All P (y ∷ rest) h)
  | inr e ↦ rw e (p, compact-All P (y ∷ rest) h)
]

pub compact-All_inv : (P : String → Type 0) (xs : List String) → All P (compact xs) → All P xs
unfolding compact
compact-All_inv P [] h = tt
compact-All_inv P (x ∷ []) h = h
compact-All_inv P (x ∷ y ∷ rest) h = elim (Bool-cases (x == y)) [
  | inl e ↦
      let k = compact-All_inv P (y ∷ rest) (rw e at h) in (subst P (sym (str_eq→eq x y e)) k.0, k)
  | inr e ↦
      let k : P x × All P (compact (y ∷ rest)) = rw e at h in
      (k.0, compact-All_inv P (y ∷ rest) k.1)
]

pub validate_formats-All :
    (formats : List String) → validate_formats formats ≡ ok tt → All IsKnownFormat formats
unfolding validate_formats
validate_formats-All formats h =
    All-weaken _ _ (λ f e. known f (reject_if-eq-ok _ _ e)) formats (for_each-eq-ok _ formats h)
  where
    known : (f : String) → not (f == "html") && not (f == "yaml") ≡ false → IsKnownFormat f
    known f h = elim (Bool-cases (f == "html")) [
      | inl e ↦ inl (str_eq→eq f "html" e)
      | inr e ↦ inr (str_eq→eq f "yaml" (ground arith))
    ]
