-- ===== src/Access/EnvVars.antt =====
-- The environment that a profile's extension and an exec config give together.
use mathlib.Core.List.{Perm}
use cluster_inventory_api.Common.Sort.Laws.{IsSorted, sort_by-perm, sort_by-IsSorted}
use cluster_inventory_api.Common.{
  ok_injective, ◌≡◌, ◌⊎◌, ◌∙◌, refl, ap, sym, subst, ℕ, ◌>>=◌, str_eq→eq, inl, inr, String, Bool,
  Bool-cases, true, false, List, [], ◌∷◌, map, Option, Option-cases, none, some, ◌==◌,
  if◌then◌else◌, Fallible, ok, arith, eq_iff, All, Distinct, >>=-eq-ok,
}
use cluster_inventory_api.Apis.{lookup}
use cluster_inventory_api.Access.{bad_env_vars, ExecEnvVar, ExecConfig, Trouble, Toolkit}
use cluster_inventory_api.Access.Extensions.{
  env_append_if_not_exists, env_replace, put, override_with, add_missing, merged_env_vars,
  env_var_list, process_env_vars, decoded,
}

abbrev pub prefer : Option String → Option String → Option String
prefer (some a) b = some a
prefer none b = b

-- The value of the last variable of a name, and of the first.
abbrev pub last_value : String → List ExecEnvVar → Option String
last_value name [] = none
last_value name (e ∷ rest) =
    prefer (last_value name rest) (if e.name == name then some e.value else none)

abbrev pub first_value : String → List ExecEnvVar → Option String
first_value name [] = none
first_value name (e ∷ rest) = if e.name == name then some e.value else first_value name rest

lookup-put :
    (name key value : String) (vars : List (String × String))
    → lookup name (put key value vars) ≡ (if key == name then some value else lookup name vars)
unfolding lookup put
lookup-put name key value [] = ground arith
lookup-put name key value ((k, v) ∷ rest) =
    ground (arith, eq_iff k key, eq_iff key name, eq_iff k name, lookup-put name key value rest)

prefer_assoc : (a b c : Option String) → prefer a (prefer b c) ≡ prefer (prefer a b) c
prefer_assoc (some a) b c = refl
prefer_assoc none b c = refl

prefer-none : (a : Option String) → a ≡ prefer a none
prefer-none (some a) = refl
prefer-none none = refl

prefer_if :
    (test : Bool) (value : String) (b : Option String)
    → prefer (if test then some value else none) b ≡ (if test then some value else b)
prefer_if true value b = refl
prefer_if false value b = refl

-- A variable whose name has no value yet, and one whose name has.
add_one :
    (test : Bool) (value : String) (a b : Option String)
    → (test ≡ true → a ≡ none)
    → prefer (if test then some value else a) b ≡ prefer a (if test then some value else b)
add_one false value a b h = refl
add_one true value a b h = rw (h refl) refl

skip_one :
    (test : Bool) (value old : String) (a b : Option String)
    → (test ≡ true → a ≡ some old)
    → prefer a b ≡ prefer a (if test then some value else b)
skip_one false value old a b h = refl
skip_one true value old a b h = rw (h refl) refl

lookup_at :
    (a b : String) (vars : List (String × String)) → (a == b) ≡ true → lookup b vars ≡ lookup a vars
lookup_at a b vars h = ap (λ k. lookup k vars) (sym (str_eq→eq a b h))

lookup-override_with :
    (name : String) (env : List ExecEnvVar) (vars : List (String × String))
    → lookup name (override_with env vars) ≡ prefer (last_value name env) (lookup name vars)
unfolding override_with
lookup-override_with name [] vars = refl
lookup-override_with name (e ∷ rest) vars =
    lookup-override_with name rest (put e.name e.value vars)
    ∙ rw
        (
          lookup-put name e.name e.value vars,
          ← prefer_if (e.name == name) e.value (lookup name vars),
        )
        (prefer_assoc (last_value name rest) (if e.name == name then some e.value else none)
          (lookup name vars))

lookup-add_missing :
    (name : String) (env : List ExecEnvVar) (vars : List (String × String))
    → lookup name (add_missing env vars) ≡ prefer (lookup name vars) (first_value name env)
unfolding add_missing
lookup-add_missing name [] vars = prefer-none (lookup name vars)
lookup-add_missing name (e ∷ rest) vars = elim (Option-cases (lookup e.name vars)) [
  | inl k ↦
      rw (add_missing, k)
        (lookup-add_missing name rest (put e.name e.value vars)
          ∙ rw (lookup-put name e.name e.value vars)
              (add_one _ e.value _ _ (λ h. lookup_at e.name name vars h ∙ k)))
  | inr (value, k) ↦
      rw (add_missing, k)
        (lookup-add_missing name rest vars
          ∙ skip_one _ e.value value _ _ (λ h. lookup_at e.name name vars h ∙ k))
]

abbrev pub keys : List (String × String) → List String
keys = map (λ kv. kv.0)

put-All :
    (P : String → Type 0) (key value : String) (vars : List (String × String))
    → P key
    → All P (keys vars)
    → All P (keys (put key value vars))
unfolding put
put-All P key value [] p h = (p, tt)
put-All P key value ((k, v) ∷ rest) p (q, h) = elim (Bool-cases (k == key)) [
  | inl e ↦ rw e (q, h)
  | inr e ↦ rw e (q, put-All P key value rest p h)
]

put-Distinct :
    (key value : String) (vars : List (String × String))
    → Distinct (keys vars)
    → Distinct (keys (put key value vars))
unfolding put
put-Distinct key value [] h = (tt, tt)
put-Distinct key value ((k, v) ∷ rest) (new, h) = elim (Bool-cases (k == key)) [
  | inl e ↦ rw e (new, h)
  | inr e ↦ rw e (
    put-All _ key value rest (λ same. ground (arith, eq_iff k key)) new,
    put-Distinct key value rest h,
  )
]

override_with-Distinct :
    (env : List ExecEnvVar) (vars : List (String × String))
    → Distinct (keys vars)
    → Distinct (keys (override_with env vars))
unfolding override_with
override_with-Distinct [] vars h = h
override_with-Distinct (e ∷ rest) vars h =
    override_with-Distinct rest (put e.name e.value vars) (put-Distinct e.name e.value vars h)

add_missing-Distinct :
    (env : List ExecEnvVar) (vars : List (String × String))
    → Distinct (keys vars)
    → Distinct (keys (add_missing env vars))
unfolding add_missing
add_missing-Distinct [] vars h = h
add_missing-Distinct (e ∷ rest) vars h = elim (Option-cases (lookup e.name vars)) [
  | inl k ↦
      rw (add_missing, k)
        (add_missing-Distinct rest (put e.name e.value vars) (put-Distinct e.name e.value vars h))
  | inr (value, k) ↦ rw (add_missing, k) (add_missing-Distinct rest vars h)
]

-- Under either merging policy, the entries of a map that is not nil: a name keeps the value of its
-- last variable in the exec config (AppendIfNotExists), or the extension's value (Replace).
abbrev pub wanted : String → List ExecEnvVar → List (String × String) → String → Option String
wanted policy env vars name =
    if policy == env_replace
    then prefer (lookup name vars) (first_value name env)
    else prefer (last_value name env) (lookup name vars)

abbrev pub or_empty : Option (List (String × String)) → List (String × String)
or_empty none = []
or_empty (some vars) = vars

-- The list `merged` has one variable for each name, sorted by name, with the wanted values.
pub record Merges (policy : String) (env : List ExecEnvVar) (vars : List (String × String))
    (merged : List ExecEnvVar) : Type 0 where
  pub entries : List (String × String)
  pub listed : Perm merged (map (λ kv. record { name = kv.0; value = kv.1 }) entries)
  pub sorted : IsSorted (λ (e : ExecEnvVar). e.name) merged
  pub distinct : Distinct (keys entries)
  pub values : (name : String) → lookup name entries ≡ wanted policy env vars name

Merges-listed :
    (policy : String) (env : List ExecEnvVar) (vars entries : List (String × String))
    → Distinct (keys entries)
    → ((name : String) → lookup name entries ≡ wanted policy env vars name)
    → Merges policy env vars (env_var_list entries)
Merges-listed policy env vars entries d h = record {
  entries = entries;
  listed = sort_by-perm (λ (e : ExecEnvVar). e.name) _;
  sorted = sort_by-IsSorted (λ (e : ExecEnvVar). e.name) _;
  distinct = d;
  values = h;
}

merge_some :
    (policy : String) (env : List ExecEnvVar) (vars : List (String × String))
    → Distinct (keys vars)
    → Merges policy env vars
        (env_var_list ((if policy == env_replace then add_missing env else override_with env) vars))
merge_some policy env vars d = elim (Bool-cases (policy == env_replace)) [
  | inl e ↦ rw e (
      Merges-listed policy env vars (add_missing env vars) (add_missing-Distinct env vars d)
        (λ name. rw e (lookup-add_missing name env vars)))
  | inr e ↦ rw e (
      Merges-listed policy env vars (override_with env vars) (override_with-Distinct env vars d)
        (λ name. rw e (lookup-override_with name env vars)))
]

merge_Merges :
    (policy : String) (env : List ExecEnvVar) (vars : Option (List (String × String)))
    (merged : List (String × String))
    → Distinct (keys (or_empty vars))
    → merged_env_vars policy env vars ≡ ok merged
    → Merges policy env (or_empty vars) (env_var_list merged)
merge_Merges policy env (some vars) merged d h =
    subst (λ m. Merges policy env vars (env_var_list m)) (ok_injective _ merged h)
      (merge_some policy env vars d)
merge_Merges policy [] none merged d h =
    subst (λ m. Merges policy [] [] (env_var_list m)) (ok_injective [] merged h)
      (Merges-listed policy [] [] [] tt (λ name. unfold lookup in ground arith))
merge_Merges policy (e ∷ env) none merged d h = cc

-- A policy that merges the two environments.
abbrev pub IsMerging : String → Type 0
IsMerging policy = (policy ≡ env_append_if_not_exists) ⊎ (policy ≡ env_replace)

abbrev pub merging : Toolkit → String → List ℕ → ExecConfig → Fallible Trouble ExecConfig
merging tk policy data_ config = do
  vars ← decoded bad_env_vars (tk.decode_env_vars data_)
  merged ← merged_env_vars policy config.env vars
  ok (record config { env = env_var_list merged })

pub process_env_vars-merging :
    (tk : Toolkit) (policy : String) (data_ : List ℕ) (config : ExecConfig)
    → IsMerging policy
    → process_env_vars tk policy data_ config ≡ merging tk policy data_ config
unfolding process_env_vars
process_env_vars-merging tk policy data_ config (inl e) = rw e refl
process_env_vars-merging tk policy data_ config (inr e) = rw e refl

-- Where the policy is AppendIfNotExists or Replace and the extension's data decodes to a map, a call
-- that returns changes the environment only. The new one has one variable for each name, sorted by
-- name: under AppendIfNotExists the exec config's last value of a name wins over the extension's,
-- and under Replace the extension's wins over the exec config's first.
pub process_env_vars-Merges :
    (tk : Toolkit) (policy : String) (data_ : List ℕ) (config new : ExecConfig)
    (vars : Option (List (String × String)))
    → IsMerging policy
    → tk.decode_env_vars data_ ≡ ok vars
    → Distinct (keys (or_empty vars))
    → process_env_vars tk policy data_ config ≡ ok new
    → Merges policy config.env (or_empty vars) new.env × (new ≡ record config { env = new.env })
process_env_vars-Merges tk policy data_ config new vars m e d h =
    let k : merging tk policy data_ config ≡ ok new =
      sym (process_env_vars-merging tk policy data_ config m) ∙ h in
    let (merged, made, last) = >>=-eq-ok (merged_env_vars policy config.env vars) _ (rw e at k) in
    let same : record config { env = env_var_list merged } ≡ new = cc in
    (
      subst (λ c. Merges policy config.env (or_empty vars) c.env) same
          (merge_Merges policy config.env vars merged d made),
      subst (λ (c : ExecConfig). c ≡ record config { env = c.env }) same refl,
    )
