-- ===== src/Access/Panics.antt =====
-- When the environment of an extension ends in a panic: a write to the nil map that yaml.Unmarshal
-- leaves for empty data.
use cluster_inventory_api.Common.{
  ◌≡◌, ◌≢◌, ◌↔◌, ◌∙◌, refl, sym, inl, inr, ℕ, String, Bool-cases, true, false, ◌||◌, List, [], ◌∷◌,
  Option, none, some, ◌==◌, Fallible, ok, err, str_eq→eq, ◌>>=◌,
}
use cluster_inventory_api.Access.{ExecEnvVar, ExecConfig, bad_env_vars, panicked, Toolkit}
use cluster_inventory_api.Access.Extensions.{
  env_append_if_not_exists, env_replace, env_ignore, decoded, merged_env_vars, env_var_list,
  process_env_vars,
}
use cluster_inventory_api.Access.EnvVars.{IsMerging, process_env_vars-merging}

-- The answer of the decoder and the environment that make the loop write to a nil map.
abbrev pub WritesNil : Fallible String (Option (List (String × String))) → List ExecEnvVar → Type 0
WritesNil answer env = (answer ≡ ok none) × (env ≢ [])

merging_answer-panicked_iff :
    (policy : String) (config : ExecConfig)
    (answer : Fallible String (Option (List (String × String))))
    → ((do
      vars ← decoded bad_env_vars answer
      merged ← merged_env_vars policy config.env vars
      ok (record config { env = env_var_list merged }))
        ≡ err panicked)
      ↔ WritesNil answer config.env
merging_answer-panicked_iff policy config (err text) = ((λ h. cc), (λ h. absurd (cc (h.0))))
merging_answer-panicked_iff policy config (ok (some vars)) = ((λ h. cc), (λ h. absurd (cc (h.0))))
merging_answer-panicked_iff policy config (ok none) = on_nil policy config config.env
  where
    on_nil :
        (policy : String) (config : ExecConfig) (env : List ExecEnvVar)
        → ((do
          merged ← merged_env_vars policy env none
          ok (record config { env = env_var_list merged }))
            ≡ err panicked)
          ↔ WritesNil (ok none) env
    on_nil policy config [] = ((λ h. cc), (λ h. absurd (h.1 refl)))
    on_nil policy config (e ∷ env) = ((λ h. (refl, (λ k. cc))), (λ h. refl))

not_merging :
    (tk : Toolkit) (policy : String) (data_ : List ℕ) (config : ExecConfig)
    → (policy == env_append_if_not_exists || policy == env_replace) ≡ false
    → process_env_vars tk policy data_ config ≢ err panicked
unfolding process_env_vars
not_merging tk policy data_ config h e = elim (Bool-cases (policy == "" || policy == env_ignore)) [
  | inl k ↦ cc (rw k at e)
  | inr k ↦ cc (rw (k, h) at e)
]

IsMerging-of :
    (policy : String)
    → (policy == env_append_if_not_exists || policy == env_replace) ≡ true
    → IsMerging policy
IsMerging-of policy h = elim (Bool-cases (policy == env_append_if_not_exists)) [
  | inl e ↦ inl (str_eq→eq policy env_append_if_not_exists e)
  | inr e ↦ inr (str_eq→eq policy env_replace (rw e at h))
]

-- An extension's environment panics exactly when the policy is AppendIfNotExists or Replace, the
-- decoder leaves the map nil, and the exec config has a variable of its own.
pub process_env_vars-panicked_iff :
    (tk : Toolkit) (policy : String) (data_ : List ℕ) (config : ExecConfig)
    → (process_env_vars tk policy data_ config ≡ err panicked)
      ↔ (IsMerging policy × WritesNil (tk.decode_env_vars data_) config.env)
process_env_vars-panicked_iff tk policy data_ config =
    let answer = tk.decode_env_vars data_ in
    let same = process_env_vars-merging tk policy data_ config in
    let iff = merging_answer-panicked_iff policy config answer in
    (
      (λ h. elim (Bool-cases (policy == env_append_if_not_exists || policy == env_replace)) [
        | inl m ↦ (IsMerging-of policy m, iff.0 (sym (same (IsMerging-of policy m)) ∙ h))
        | inr m ↦ absurd (not_merging tk policy data_ config m h)
      ]),
      (λ h. same h.0 ∙ iff.1 h.1),
    )
