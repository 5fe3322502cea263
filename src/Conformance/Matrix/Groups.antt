-- ===== src/Conformance/Matrix/Groups.antt =====
-- The tables of conformance/report.go's matrix: the order of the entries, and one table per tuple.
use Prim.Native.String.{String}
use mathlib.Core.Path.{◌≡◌, refl, sym, subst, ap}
use mathlib.Core.Logic.{◌≢◌, inl, inr}
use mathlib.Core.List.{Perm}
use native.Mathlib.Omega.{arith}
use text.Mathlib.TextEquality.{eq_iff}
use text.Mathlib.TextPositions.{eq_refl}
use cluster_inventory_api.Common.{
  true, false, List, [], ◌∷◌, ◌==◌, ◌&&◌, Option, none, some, All, All-weaken, All-of_In, Distinct,
  ok, >>-eq-ok, first_error, first_error-eq-ok, reject_if-eq-ok, Bool-cases, text_leb,
}
use cluster_inventory_api.Conformance.Platform.{Platform}
use cluster_inventory_api.Conformance.Report.{validate_report, validate_development, header_steps}
use cluster_inventory_api.Conformance.Catalog.{spec_revision}
use cluster_inventory_api.Conformance.Matrix.Rows.{sort_entries-All}
use cluster_inventory_api.Conformance.Matrix.Collected.{
  IsAccepted, Gathers-IsAccepted, collect-Gathers,
}
use cluster_inventory_api.Conformance.Matrix.{
  Entry, sort_keys, keys_leb, sort_entries, Group, group_of, same_group, Line, heading, row,
  lines_of, zero_group, collect, Visit, Decoder,
}
use cluster_inventory_api.Conformance.Matrix.Order.{
  keys_leb_trans, keys_leb_antisym, IsOrdered, sort_entries-perm, sort_entries-IsOrdered,
}

abbrev group_keys : Group → List String
group_keys g = g.spec ∷ g.suite ∷ g.api ∷ []

group_keys-leb :
    (a b : Entry)
    → keys_leb (sort_keys a) (sort_keys b) ≡ true
    → keys_leb (group_keys (group_of a)) (group_keys (group_of b)) ≡ true
unfolding keys_leb
group_keys-leb a b h = ground (arith)

abbrev GroupLeb : Group → Group → Type 0
GroupLeb a b = keys_leb (group_keys a) (group_keys b) ≡ true

group_eq : (a b : Group) → group_keys a ≡ group_keys b → a ≡ b
group_eq a b h =
    let spec : a.spec ≡ b.spec = cc in
    let suite : a.suite ≡ b.suite = cc in
    let api : a.api ≡ b.api = cc in λ i. record { spec = spec i; suite = suite i; api = api i }

same_group_eq : (a b : Group) → same_group a b ≡ true → a ≡ b
unfolding same_group
same_group_eq a b h =
    let spec : a.spec ≡ b.spec = ground (arith, eq_iff a.spec b.spec) in
    let suite : a.suite ≡ b.suite = ground (arith, eq_iff a.suite b.suite) in
    let api : a.api ≡ b.api = ground (arith, eq_iff a.api b.api) in
    λ i. record { spec = spec i; suite = suite i; api = api i }

same_group_refl : (a : Group) → same_group a a ≡ true
unfolding same_group
same_group_refl a = rw (eq_refl a.spec, eq_refl a.suite, eq_refl a.api) refl

abbrev headings : List Line → List Group
headings [] = []
headings (heading e ∷ ls) = group_of e ∷ headings ls
headings (row e ∷ ls) = headings ls

abbrev rows : List Line → List Entry
rows [] = []
rows (heading e ∷ ls) = rows ls
rows (row e ∷ ls) = e ∷ rows ls

-- Each row stands in the table of its tuple; `table` is that of the open table, if one is.
abbrev Stands : Option Group → List Line → Type 0
Stands table [] = Unit
Stands table (heading e ∷ ls) = Stands (some (group_of e)) ls
Stands table (row e ∷ ls) = (table ≡ some (group_of e)) × Stands table ls

rows-lines_of : (g : Group) (es : List Entry) → rows (lines_of g es) ≡ es
unfolding lines_of
rows-lines_of g [] = refl
rows-lines_of g (e ∷ es) = elim (Bool-cases (same_group (group_of e) g)) [
  | inl t ↦ rw t (ap (◌∷◌ e) (rows-lines_of (group_of e) es))
  | inr t ↦ rw t (ap (◌∷◌ e) (rows-lines_of (group_of e) es))
]

lines_of-Stands : (g : Group) (es : List Entry) → Stands (some g) (lines_of g es)
unfolding lines_of
lines_of-Stands g [] = tt
lines_of-Stands g (e ∷ es) =
    let later = lines_of-Stands (group_of e) es in
    elim (Bool-cases (same_group (group_of e) g)) [
      | inl t ↦
          let same = same_group_eq (group_of e) g t in
          rw t
            (ap some (sym same), subst (λ h. Stands (some h) (lines_of (group_of e) es)) same later)
      | inr t ↦ rw t (refl, later)
    ]

same_group_ne : (a b : Group) → same_group a b ≡ false → a ≢ b
same_group_ne a b h e = cc (subst (λ x. same_group a x ≡ true) e (same_group_refl a), h)

GroupLeb-antisym : (a b : Group) → GroupLeb a b → GroupLeb b a → a ≡ b
GroupLeb-antisym a b h k = group_eq a b (keys_leb_antisym (group_keys a) (group_keys b) h k)

abbrev IsLater : Group → Group → Type 0
IsLater g h = (h ≢ g) × GroupLeb g h

-- A group behind one that follows `g` and differs from it.
IsLater-trans : (g e f : Group) → e ≢ g → GroupLeb g e → IsLater e f → IsLater g f
IsLater-trans g e f ne le (_, h) = (
  (λ q. ne (GroupLeb-antisym e g (subst (GroupLeb e) q h) le)),
  keys_leb_trans (group_keys g) (group_keys e) (group_keys f) le h,
)

lines_of-Distinct :
    (g : Group) (es : List Entry)
    → IsOrdered es
    → All (λ e. GroupLeb g (group_of e)) es
    → Distinct (headings (lines_of g es)) × All (IsLater g) (headings (lines_of g es))
unfolding lines_of
lines_of-Distinct g [] h k = (tt, tt)
lines_of-Distinct g (e ∷ es) (low, h) (k, ks) =
    let above = All-weaken _ _ (λ x. group_keys-leb e x) es low in
    let (new, later) = lines_of-Distinct (group_of e) es h above in
    elim (Bool-cases (same_group (group_of e) g)) [
      | inl t ↦
          let same = same_group_eq (group_of e) g t in
          rw t (new, subst (λ f. All (IsLater f) (headings (lines_of (group_of e) es))) same later)
      | inr t ↦ rw t (
        (All-weaken _ _ (λ f x. x.0) _ later, new),
        (
          (same_group_ne (group_of e) g t, k),
          All-weaken _ _
              (λ f x. IsLater-trans g (group_of e) f (same_group_ne (group_of e) g t) k x) _ later,
        ),
      )
    ]

zero_group-least : (g : Group) → GroupLeb zero_group g
unfolding keys_leb
zero_group-least g = unfold text_leb in ground arith

-- The tables of the entries: a row for each entry, in the order of the sort keys, each in the table of
-- its tuple, and one table for each tuple.
pub record IsTabled (entries : List Entry) (ls : List Line) : Type 0 where
  pub listed : Perm (rows ls) entries
  pub ordered : IsOrdered (rows ls)
  pub stands : Stands none ls
  pub once : Distinct (headings ls)

IsAccepted-revision :
    (p : Platform) (e : Entry) → IsAccepted p e → same_group (group_of e) zero_group ≡ false
unfolding same_group validate_report validate_development
IsAccepted-revision p e h =
    let r = e.report in
    let (checked, _) = >>-eq-ok (validate_development p r) _ h in
    let (header, _) = >>-eq-ok (first_error (header_steps p r)) _ checked in
    let kept = reject_if-eq-ok _ _ (first_error-eq-ok (header_steps p r) header).1.1.1.0 in
    let same : (r.specification.revision == spec_revision) ≡ true = ground (arith, kept) in
    subst (λ s. (s == "" && r.suite.source.revision == "" && r.api.revision == "") ≡ false)
      (sym ((eq_iff r.specification.revision spec_revision).0 same)) refl

first-Stands :
    (p : Platform) (es : List Entry) → All (IsAccepted p) es → Stands none (lines_of zero_group es)
unfolding lines_of
first-Stands p [] h = tt
first-Stands p (e ∷ es) (h, k) =
    rw (IsAccepted-revision p e h) (refl, lines_of-Stands (group_of e) es)

-- The matrix of a directory whose walk succeeds has one row for each entry collected, in the order of
-- the sort keys, each in the table of its exact specification, suite and API tuple, and each tuple has
-- one table.
pub collect-IsTabled :
    (p : Platform) (d : Decoder) (visits : List Visit) (entries : List Entry)
    → collect p d visits ≡ ok entries
    → IsTabled entries (lines_of zero_group (sort_entries entries))
collect-IsTabled p d visits entries h =
    let sound = Gathers-IsAccepted p d visits entries (collect-Gathers p d visits entries h) in
    let sorted = sort_entries entries in
    let same = rows-lines_of zero_group sorted in
    record {
      listed = subst (λ es. Perm es entries) (sym same) (sort_entries-perm entries);
      ordered = subst IsOrdered (sym same) (sort_entries-IsOrdered entries);
      stands = first-Stands p sorted (sort_entries-All (IsAccepted p) entries sound);
      once =
          (lines_of-Distinct zero_group sorted (sort_entries-IsOrdered entries)
            (All-of_In _ sorted (λ e k. zero_group-least (group_of e)))).0;
    }
