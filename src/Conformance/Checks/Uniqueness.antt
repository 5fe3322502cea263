-- ===== src/Conformance/Checks/Uniqueness.antt =====
-- `checkUniqueness` against the number of profiles that carry a member ID.
use cluster_inventory_api.Common.{
  ℕ, ◌+◌, ◌≤◌, ◌<◌, String, ◌≡◌, ◌≢◌, ◌↔◌, inl, inr, refl, sym, ◌∙◌, Bool, true, false, List, [],
  ◌∷◌, map, none, some, ◌==◌, ltb, if◌then◌else◌, length, length-append, any, find, sort, All,
  arith, eq_iff, Bool-cases, subst, str_eq→eq, str_eq→ne, Option-cases,
}
use cluster_inventory_api.Common.Sort.{insert_by}
use cluster_inventory_api.Common.Sort.Laws.{sort_by-All}
use cluster_inventory_api.Apis.{ClusterProfile}
use cluster_inventory_api.Conformance.Types.{Outcome, passed, failed, skipped, Requirement}
use cluster_inventory_api.Conformance.Checks.{
  member_id, namespaced_name, push_name, names_of, missing_ids, collect_ids, duplicated,
  check_uniqueness, report_ids,
}

-- How many profiles carry a member ID.
abbrev pub carriers : String → List ClusterProfile → ℕ
carriers id [] = 0
carriers id (p ∷ rest) = if member_id p == id then carriers id rest + 1 else carriers id rest

names_of-push_name :
    (id name j : String) (ids : List (String × List String))
    → length (names_of j (push_name id name ids))
      ≡ (if id == j then length (names_of j ids) + 1 else length (names_of j ids))
unfolding names_of push_name
names_of-push_name id name j [] = ground arith
names_of-push_name id name j ((k, names) ∷ rest) = ground (
  arith,
  eq_iff k id,
  eq_iff id j,
  eq_iff k j,
  names_of-push_name id name j rest,
  length-append {0} names (name ∷ []),
)

-- The map holds, for each ID that is not empty, one name for each of its carriers.
names_of-collect_ids :
    (j : String) (ids : List (String × List String)) (ps : List ClusterProfile)
    → j ≢ ""
    → length (names_of j (collect_ids ids ps)) ≡ length (names_of j ids) + carriers j ps
unfolding collect_ids
names_of-collect_ids j ids [] h = omega arith
names_of-collect_ids j ids (p ∷ rest) h = elim (Bool-cases (member_id p == "")) [
  | inl e ↦ rw e (
      names_of-collect_ids j ids rest h
      ∙ ground (arith, eq_iff (member_id p) "", eq_iff (member_id p) j))
  | inr e ↦ rw e (
      names_of-collect_ids j (push_name (member_id p) (namespaced_name p) ids) rest h
      ∙ ground (arith, names_of-push_name (member_id p) (namespaced_name p) j ids))
]

-- The keys of the map are not empty.
push_name-keys :
    (id name : String) (ids : List (String × List String))
    → id ≢ ""
    → All (λ (e : String × List String). e.0 ≢ "") ids
    → All (λ (e : String × List String). e.0 ≢ "") (push_name id name ids)
unfolding push_name
push_name-keys id name [] h k = (h, tt)
push_name-keys id name ((j, names) ∷ rest) h (k, ks) = elim (Bool-cases (j == id)) [
  | inl e ↦ rw e (k, ks)
  | inr e ↦ rw e (k, push_name-keys id name rest h ks)
]

collect_ids-keys :
    (ids : List (String × List String)) (ps : List ClusterProfile)
    → All (λ (e : String × List String). e.0 ≢ "") ids
    → All (λ (e : String × List String). e.0 ≢ "") (collect_ids ids ps)
unfolding collect_ids
collect_ids-keys ids [] k = k
collect_ids-keys ids (p ∷ rest) k = elim (Bool-cases (member_id p == "")) [
  | inl e ↦ rw e (collect_ids-keys ids rest k)
  | inr e ↦ rw e (
      collect_ids-keys (push_name (member_id p) (namespaced_name p) ids) rest (
        push_name-keys (member_id p) (namespaced_name p) ids
          (λ same. ground (arith, eq_iff (member_id p) "")) k))
]

-- Searching a sorted list finds an element exactly when one of the list passes.
any-insert_by :
    (p : String → Bool) (a : String) (xs : List String)
    → any p (insert_by (λ s. s) a xs) ≡ any p (a ∷ xs)
unfolding any insert_by
any-insert_by p a [] = refl
any-insert_by p a (x ∷ xs) = ground (arith, any-insert_by p a xs)

any-sort : (p : String → Bool) (xs : List String) → any p (sort xs) ≡ any p xs
unfolding any sort
any-sort p [] = refl
any-sort p (x ∷ xs) = any-insert_by p x (sort xs) ∙ ground (arith, any-sort p xs)

find-none-any : (p : String → Bool) (xs : List String) → find p xs ≡ none → any p xs ≡ false
unfolding find any
find-none-any p [] h = refl
find-none-any p (x ∷ xs) h = ground (arith, find-none-any p xs)

find-some-All :
    (P : String → Type 0) (p : String → Bool) (xs : List String) {x : String}
    → find p xs ≡ some x
    → All P xs
    → (p x ≡ true) × P x
unfolding find
find-some-All P p [] h k = cc
find-some-All P p (y ∷ ys) {x} h (q, k) = elim (Bool-cases (p y)) [
  | inl e ↦ let same : y ≡ x = ground arith in (subst (λ z. p z ≡ true) same e, subst P same q)
  | inr e ↦ find-some-All P p ys (rw e at h) k
]

map-keys :
    (ids : List (String × List String))
    → All (λ (e : String × List String). e.0 ≢ "") ids
    → All (λ id. id ≢ "") (map (λ (e : String × List String). e.0) ids)
map-keys [] h = tt
map-keys (e ∷ ids) (q, h) = (q, map-keys ids h)

-- A key with names is among the keys.
any-keys :
    (p : String → Bool) (j : String) (ids : List (String × List String))
    → p j ≡ true
    → 0 < length (names_of j ids)
    → any p (map (λ (e : String × List String). e.0) ids) ≡ true
unfolding any names_of
any-keys p j [] h k = absurd (omega arith)
any-keys p j ((i, names) ∷ ids) h k = elim (Bool-cases (i == j)) [
  | inl e ↦ rw (str_eq→eq i j e) (rw h)
  | inr e ↦ ground (arith, any-keys p j ids h (rw e at k))
]

duplicated-some :
    (ids : List (String × List String)) (id : String)
    → All (λ (e : String × List String). e.0 ≢ "") ids
    → duplicated ids ≡ some id
    → (1 < length (names_of id ids)) × (id ≢ "")
unfolding duplicated
duplicated-some ids id k h =
    let (many, filled) =
      find-some-All (λ i. i ≢ "") (λ i. ltb 1 (length (names_of i ids))) _ h
        (sort_by-All (λ s. s) (λ i. i ≢ "") _ (map-keys ids k)) in
    (ground arith, filled)

duplicated-none :
    (ids : List (String × List String)) (id : String)
    → duplicated ids ≡ none
    → length (names_of id ids) ≤ 1
unfolding duplicated
duplicated-none ids id h =
    let p : String → Bool = λ i. ltb 1 (length (names_of i ids)) in
    let keys = map (λ (e : String × List String). e.0) ids in
    let quiet : any p keys ≡ false = sym (any-sort p keys) ∙ find-none-any p (sort keys) h in
    ground (arith, any-keys p id ids)

missing_ids_iff :
    (ps : List ClusterProfile) → (missing_ids ps ≡ []) ↔ All (λ p. member_id p ≢ "") ps
unfolding missing_ids
missing_ids_iff [] = ((λ h. tt), (λ h. refl))
missing_ids_iff (p ∷ rest) = elim (Bool-cases (member_id p == "")) [
  | inl e ↦ rw e ((λ h. cc), (λ h. absurd (h.0 (str_eq→eq (member_id p) "" e))))
  | inr e ↦ rw e (
    (λ h. (str_eq→ne (member_id p) "" e, (missing_ids_iff rest).0 h)),
    (λ h. (missing_ids_iff rest).1 h.1),
  )
]

-- What each outcome says of the profiles; no other outcome is given.
abbrev pub UniquenessMeans : Outcome → List ClusterProfile → Type 0
UniquenessMeans failed ps = (id : String) × (id ≢ "") × (2 ≤ carriers id ps)
UniquenessMeans passed ps =
    ((id : String) → id ≢ "" → carriers id ps ≤ 1) × All (λ p. member_id p ≢ "") ps
UniquenessMeans skipped ps =
    ((id : String) → id ≢ "" → carriers id ps ≤ 1) × ¬ All (λ p. member_id p ≢ "") ps
UniquenessMeans _ ps = ⊥

names_of-nil : (id : String) → length (names_of id []) ≡ 0
unfolding names_of
names_of-nil id = refl

unshared :
    (ps : List ClusterProfile)
    → duplicated (collect_ids [] ps) ≡ none
    → (id : String) → id ≢ ""
    → carriers id ps ≤ 1
unshared ps e id h = omega (
  arith,
  names_of-collect_ids id [] ps h,
  names_of-nil id,
  duplicated-none (collect_ids [] ps) id e,
)

report_ids-UniquenessMeans :
    (req : Requirement) (ids : List (String × List String)) (ps : List ClusterProfile)
    (names : List String)
    → missing_ids ps ≡ names
    → ((id : String) → id ≢ "" → carriers id ps ≤ 1)
    → UniquenessMeans (report_ids req ids names none).outcome ps
unfolding report_ids
report_ids-UniquenessMeans req ids ps [] e h = (h, (missing_ids_iff ps).0 e)
report_ids-UniquenessMeans req ids ps (name ∷ names) e h =
    (h, (λ full. cc (e, (missing_ids_iff ps).1 full)))

-- The uniqueness check fails only if two profiles carry one member ID, passes only if every profile
-- carries an ID and no two the same, skips only if none is shared and some profile has none, and
-- has no other outcome. As these exclude each other, each outcome is given exactly then.
pub check_uniqueness-UniquenessMeans :
    (req : Requirement) (ps : List ClusterProfile)
    → UniquenessMeans (check_uniqueness req ps).outcome ps
unfolding check_uniqueness
check_uniqueness-UniquenessMeans req ps =
    let ids = collect_ids [] ps in
    let missing = missing_ids ps in
    elim (Option-cases (duplicated ids)) [
      | inl e ↦
          subst (λ o. UniquenessMeans (report_ids req ids missing o).outcome ps) (sym e)
            (report_ids-UniquenessMeans req ids ps missing refl (unshared ps e))
      | inr (id, e) ↦
          let (many, filled) = duplicated-some ids id (collect_ids-keys [] ps tt) e in
          let carried : 2 ≤ carriers id ps =
            omega (arith, names_of-collect_ids id [] ps filled, names_of-nil id) in
          subst (λ o. UniquenessMeans (report_ids req ids missing o).outcome ps) (sym e)
            (unfold report_ids in (id, filled, carried))
    ]
