-- ===== src/Conformance/Matrix/Collected.antt =====
-- What the walk of conformance/report.go's GenerateMatrix collects.
use mathlib.Core.Path.{◌≡◌, refl, subst}
use mathlib.Core.Logic.{◌⊎◌, ◌↔◌, inl, inr}
use Prim.Native.String.{String}
use cluster_inventory_api.Common.{
  true, false, List, [], ◌∷◌, Option, none, some, All, Bool-cases, Fallible, ok, >>=-eq-ok,
  >>-eq-ok, ok_injective, eq_iff, arith,
}
use cluster_inventory_api.Conformance.Platform.{Platform}
use cluster_inventory_api.Conformance.Report.{validate_report}
use cluster_inventory_api.Conformance.Matrix.{
  Visit, Decoder, Entry, visit, read_report, accepted, collect_file, is_yaml, collect,
}
use cluster_inventory_api.Conformance.Matrix.Documents.{read_report_iff, located-eq-ok}

-- What a walk calls a YAML file
abbrev pub IsYamlFile : Visit → Type 0
IsYamlFile v = (v.is_dir ≡ false) × ((v.extension ≡ ".yaml") ⊎ (v.extension ≡ ".yml"))

-- The entries of a walk: one per visit of a YAML file, in order. The file is read, holds one document
-- and nothing behind it, that document is a report that is accepted as a submission, and the entry has
-- it with the relative path. No visit failed.
pub data Gathers (p : Platform) (d : Decoder) : List Visit → List Entry → Type 0 where
  ended : Gathers p d [] []
  skipped :
      {v : Visit} {vs : List Visit} {es : List Entry}
      → v.fault ≡ none
      → ¬ IsYamlFile v
      → Gathers p d vs es
      → Gathers p d (v ∷ vs) es
  taken :
      {v : Visit} {vs : List Visit} {e : Entry} {es : List Entry}
      → (text : String) → v.fault ≡ none
      → IsYamlFile v
      → v.content ≡ ok text
      → d.first text ≡ ok e.report
      → d.ends text ≡ true
      → validate_report p e.report true ≡ ok tt
      → v.relative ≡ ok e.path
      → Gathers p d vs es
      → Gathers p d (v ∷ vs) (e ∷ es)

is_yaml-IsYamlFile : (v : Visit) → (is_yaml v ≡ true) ↔ IsYamlFile v
is_yaml-IsYamlFile v = (
  (λ h. ground (arith, eq_iff v.extension ".yaml", eq_iff v.extension ".yml")),
  (λ h. ground (arith, eq_iff v.extension ".yaml", eq_iff v.extension ".yml")),
)

not_yaml : (v : Visit) → ¬ IsYamlFile v → is_yaml v ≡ false
not_yaml v h = elim (Bool-cases (is_yaml v)) [
  | inl e ↦ absurd (h ((is_yaml-IsYamlFile v).0 e))
  | inr e ↦ e
]

-- What one call for a YAML file goes through, where it succeeds
abbrev IsCollected : Platform → Decoder → Visit → Entry → Type 0
IsCollected p d v e =
    (text : String) × (v.content ≡ ok text)
    × (d.first text ≡ ok e.report)
    × (d.ends text ≡ true)
    × (validate_report p e.report true ≡ ok tt)
    × (v.relative ≡ ok e.path)

collect_file-eq-ok :
    (p : Platform) (d : Decoder) (v : Visit) (e : Entry)
    → collect_file p d v ≡ ok e
    → IsCollected p d v e
unfolding collect_file
collect_file-eq-ok p d v e h =
    let (r, read, h1) = >>=-eq-ok (read_report d v.path v.content) _ h in
    let (valid, h2) = >>-eq-ok (accepted p v.path r) _ h1 in
    let (path, relative, h3) = >>=-eq-ok v.relative _ h2 in
    let one = (read_report_iff d v.path v.content r).0 read in
    subst (IsCollected p d v) (ok_injective _ e h3)
      (one.text, one.read, one.first, one.ends, located-eq-ok v.path _ valid, relative)

IsCollected-eq-ok :
    (p : Platform) (d : Decoder) (v : Visit) (e : Entry)
    → IsCollected p d v e
    → collect_file p d v ≡ ok e
unfolding collect_file read_report
IsCollected-eq-ok p d v e (text, content, first, ends, valid, relative) =
    rw (content, first, ends, valid, relative) refl

visit-Gathers :
    (p : Platform) (d : Decoder) (v : Visit) (vs : List Visit)
    (later : Fallible String (List Entry))
    → ((es : List Entry) → later ≡ ok es → Gathers p d vs es)
    → (fault : Option String) → v.fault ≡ fault
    → (es : List Entry) → visit p d v fault later ≡ ok es
    → Gathers p d (v ∷ vs) es
unfolding visit
visit-Gathers p d v vs later ih (some e) known es h = cc
visit-Gathers p d v vs later ih none known es h = elim (Bool-cases (is_yaml v)) [
  | inl yaml ↦
      let (e, got, h1) = >>=-eq-ok (collect_file p d v) _ (rw yaml at h) in
      let (rest, after, h2) = >>=-eq-ok later _ h1 in
      let (text, read, first, ends, valid, relative) = collect_file-eq-ok p d v e got in
      subst (Gathers p d (v ∷ vs)) (ok_injective _ es h2) (
        taken text known ((is_yaml-IsYamlFile v).0 yaml) read first ends valid relative
          (ih rest after))
  | inr other ↦ skipped known (λ k. cc (other, (is_yaml-IsYamlFile v).1 k)) (ih es (rw other at h))
]

pub collect-Gathers :
    (p : Platform) (d : Decoder) (visits : List Visit) (entries : List Entry)
    → collect p d visits ≡ ok entries
    → Gathers p d visits entries
unfolding collect
collect-Gathers p d [] es h = subst (Gathers p d []) (ok_injective [] es h) ended
collect-Gathers p d (v ∷ rest) es h =
    visit-Gathers p d v rest (collect p d rest) (collect-Gathers p d rest) v.fault refl es h

Gathers-collect :
    (p : Platform) (d : Decoder) (visits : List Visit) (entries : List Entry)
    → Gathers p d visits entries
    → collect p d visits ≡ ok entries
unfolding collect visit
Gathers-collect p d [] [] ended = refl
Gathers-collect p d [] (e ∷ es) g = elim g [ ]
Gathers-collect p d (v ∷ vs) es (skipped known other g) =
    rw (known, not_yaml v other) (Gathers-collect p d vs es g)
Gathers-collect p d (v ∷ vs) (e ∷ es) (taken text known yaml read first ends valid relative g) =
    let got = IsCollected-eq-ok p d v e (text, read, first, ends, valid, relative) in
    rw (known, (is_yaml-IsYamlFile v).1 yaml, got, Gathers-collect p d vs es g) refl

-- The walk succeeds exactly where no visit failed and every YAML file can be read, holds one document
-- and nothing behind it, and that document is a report that is accepted as a submission; it then
-- collects one entry per YAML file, in order, with that report and the file's relative path.
pub collect_iff :
    (p : Platform) (d : Decoder) (visits : List Visit) (entries : List Entry)
    → (collect p d visits ≡ ok entries) ↔ Gathers p d visits entries
collect_iff p d visits entries =
    (collect-Gathers p d visits entries, Gathers-collect p d visits entries)

abbrev pub IsAccepted : Platform → Entry → Type 0
IsAccepted p e = validate_report p e.report true ≡ ok tt

pub Gathers-IsAccepted :
    (p : Platform) (d : Decoder) (visits : List Visit) (entries : List Entry)
    → Gathers p d visits entries
    → All (IsAccepted p) entries
Gathers-IsAccepted p d [] [] ended = tt
Gathers-IsAccepted p d [] (e ∷ es) g = elim g [ ]
Gathers-IsAccepted p d (v ∷ vs) es (skipped k o g) = Gathers-IsAccepted p d vs es g
Gathers-IsAccepted p d (v ∷ vs) (e ∷ es) (taken t k y r f n a l g) =
    (a, Gathers-IsAccepted p d vs es g)
