-- ===== src/Conformance/Files/Reports.antt =====
-- What WriteReports leaves at the paths of the reports.
use cluster_inventory_api.Common.{
  ◌≡◌, ◌≢◌, ◌⊎◌, refl, inl, inr, String, Bool, List, [], ◌∷◌, Option, none, some, All, Fallible, ok,
  err,
}
use cluster_inventory_api.Conformance.Errors.{OptionFault}
use cluster_inventory_api.Conformance.Options.{validate_formats}
use cluster_inventory_api.Conformance.Files.{
  Files, compact, Desk, WriteFault, write_each, write_valid, write_reports,
}
use cluster_inventory_api.Conformance.Files.Written.{
  write_each-keeps, write_each-IsRendered, compact-All, compact-All_inv, validate_formats-All,
  IsKnownFormat, path_of, IsSeparate, IsRendered,
}

-- What a call leaves at the path of a known format: what was there, or a whole rendering.
abbrev pub IsKept : Desk → Bool → Files → Files → String → Type 0
IsKept d per_api old now g =
    (now (path_of d per_api g) ≡ old (path_of d per_api g))
    ⊎ ((t : String) × (d.render g ≡ ok t) × (now (path_of d per_api g) ≡ some t))

-- The two paths have what they had or a whole rendering, and where there is no error each format asked
-- for is known and has its rendering.
abbrev MeetsIf : Desk → Bool → List String → Files → Files × Fallible WriteFault (Unit {0}) → Type 0
MeetsIf d per_api formats old (now, m) =
    ((g : String) → IsKnownFormat g → IsKept d per_api old now g)
    × (m ≡ ok tt
        → (formats ≢ [])
          × All IsKnownFormat formats
          × All (λ f. (t : String) × (d.render f ≡ ok t) × (now (path_of d per_api f) ≡ some t))
              formats)

write_valid-Meets_if :
    (d : Desk) (per_api : Bool) (f : String) (rest : List String) (files : Files)
    (valid : Fallible OptionFault (Unit {0})) (made : Option String)
    → validate_formats (f ∷ rest) ≡ valid
    → IsSeparate d per_api
    → MeetsIf d per_api (f ∷ rest) files (write_valid d per_api (f ∷ rest) files valid made)
write_valid-Meets_if d per_api f rest files (err e) made h s = ((λ g kg. inl refl), (λ h. cc))
write_valid-Meets_if d per_api f rest files (ok u) (some e) h s = ((λ g kg. inl refl), (λ h. cc))
write_valid-Meets_if d per_api f rest files (ok u) none h s =
    let formats : List String = f ∷ rest in
    let known = validate_formats-All formats h in
    let compacted = compact-All IsKnownFormat formats known in
    (
      (λ g kg.
          write_each-keeps d per_api s
            (λ c.
              (c ≡ files (path_of d per_api g))
              ⊎ ((t : String) × (d.render g ≡ ok t) × (c ≡ some t)))
            g 0 (compact formats) files compacted kg (λ t r. inr (t, r, refl)) (inl refl)),
      (λ done. (
        (λ e. cc),
        known,
        compact-All_inv (IsRendered d per_api s (write_each d per_api 0 (compact formats) files).0)
            formats (write_each-IsRendered d per_api s 0 (compact formats) files compacted done),
      )),
    )

write_reports-Meets_if :
    (d : Desk) (per_api : Bool) (formats : List String) (files : Files)
    → IsSeparate d per_api
    → MeetsIf d per_api formats files (write_reports d per_api formats files)
unfolding write_reports
write_reports-Meets_if d per_api [] files s = ((λ g k. inl refl), (λ h. cc))
write_reports-Meets_if d per_api (f ∷ rest) files s =
    write_valid-Meets_if d per_api f rest files (validate_formats (f ∷ rest)) d.make_directory refl
      s

-- A format has its whole rendering at its path.
abbrev pub IsWritten : Desk → Bool → Files → String → Type 0
IsWritten d per_api now f =
    (t : String) × (d.render f ≡ ok t) × (now (path_of d per_api f) ≡ some t)

-- What a call of WriteReports leaves, by its result: the paths of both formats have what they had or a
-- whole rendering, and without an error each format asked for is known and has its rendering.
abbrev pub Meets :
    Desk → Bool → List String → Files → Files × Fallible WriteFault (Unit {0}) → Type 0
Meets d per_api formats old (now, ok u) =
    ((g : String) → IsKnownFormat g → IsKept d per_api old now g)
    × (formats ≢ [])
    × All IsKnownFormat formats
    × All (IsWritten d per_api now) formats
Meets d per_api formats old (now, err e) =
    (g : String) → IsKnownFormat g → IsKept d per_api old now g

by_result :
    (d : Desk) (per_api : Bool) (formats : List String) (old : Files)
    (end : Files × Fallible WriteFault (Unit {0}))
    → MeetsIf d per_api formats old end
    → Meets d per_api formats old end
by_result d per_api formats old (now, ok u) (kept, done) =
    let (some_format, known, written) = done refl in (kept, some_format, known, written)
by_result d per_api formats old (now, err e) (kept, done) = kept

-- WriteReports never leaves a torn report: whatever fails, each of the two paths has what it had or a
-- whole rendering. Where it returns no error, it was asked for some format, every one is known, and the
-- path of each has its rendering.
pub write_reports-Meets :
    (d : Desk) (per_api : Bool) (formats : List String) (files : Files)
    → IsSeparate d per_api
    → Meets d per_api formats files (write_reports d per_api formats files)
write_reports-Meets d per_api formats files s =
    by_result d per_api formats files (write_reports d per_api formats files)
      (write_reports-Meets_if d per_api formats files s)
