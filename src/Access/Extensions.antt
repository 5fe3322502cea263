-- ===== src/Access/Extensions.antt =====
-- What an extension of a ClusterProfile changes in an exec config:
-- processClusterProfileSourcedCLIArgData and processClusterProfileSourcedEnvVarData.
use cluster_inventory_api.Common.{
  ℕ, String, ◌||◌, List, [], ◌∷◌, ◌++◌, map, Option, none, some, ◌==◌, if◌then◌else◌, sort_by,
  Fallible, ok, err, ◌>>=◌,
}
use cluster_inventory_api.Apis.{lookup}
use cluster_inventory_api.Access.{
  ExecEnvVar, ExecConfig, AccessFault, bad_args, bad_env_vars, unsupported_args_policy,
  unsupported_env_vars_policy, Trouble, failed, panicked, Toolkit,
}

abbrev pub args_append : String
args_append = "Append"

abbrev pub args_ignore : String
args_ignore = "Ignore"

abbrev pub env_append_if_not_exists : String
env_append_if_not_exists = "AppendIfNotExists"

abbrev pub env_replace : String
env_replace = "Replace"

abbrev pub env_ignore : String
env_ignore = "Ignore"

-- The error of yaml.Unmarshal, wrapped
abbrev pub decoded : {A : Type 0} → (String → AccessFault) → Fallible String A → Fallible Trouble A
decoded wrap (ok a) = ok a
decoded wrap (err text) = err (failed (wrap text))

unfoldable pub process_cli_args :
    Toolkit → String → List ℕ → ExecConfig → Fallible Trouble ExecConfig
process_cli_args tk policy data_ config =
    if policy == "" || policy == args_ignore
    then ok config
    else if policy == args_append
    then (do
      more ← decoded bad_args (tk.decode_args data_)
      ok (record config { args = config.args ++ more }))
    else err (failed (unsupported_args_policy policy))

-- m[name] = value on a map that is not nil
unfoldable pub put : String → String → List (String × String) → List (String × String)
put name value [] = (name, value) ∷ []
put name value ((k, v) ∷ rest) =
    if k == name then (k, value) ∷ rest else (k, v) ∷ put name value rest

-- The loops over execConfig.Env, once the map is known not to be nil.
unfoldable pub override_with : List ExecEnvVar → List (String × String) → List (String × String)
override_with [] vars = vars
override_with (e ∷ rest) vars = override_with rest (put e.name e.value vars)

unfoldable pub add_missing : List ExecEnvVar → List (String × String) → List (String × String)
add_missing [] vars = vars
add_missing (e ∷ rest) vars =
    add_missing rest
      (elim (lookup e.name vars) [ some value ↦ vars | none ↦ put e.name e.value vars ])

-- A nil map reads as empty, and the first write to it panics.
abbrev pub on_map :
    List ExecEnvVar
    → (List (String × String) → List (String × String))
    → Option (List (String × String))
    → Fallible Trouble (List (String × String))
on_map env merge (some vars) = ok (merge vars)
on_map [] merge none = ok []
on_map (e ∷ env) merge none = err panicked

abbrev pub merged_env_vars :
    String
    → List ExecEnvVar
    → Option (List (String × String))
    → Fallible Trouble (List (String × String))
merged_env_vars policy env vars =
    on_map env (if policy == env_replace then add_missing env else override_with env) vars

-- The list of the map's entries, sorted by name.
abbrev pub env_var_list : List (String × String) → List ExecEnvVar
env_var_list vars =
    sort_by (λ (e : ExecEnvVar). e.name) (map (λ kv. record { name = kv.0; value = kv.1 }) vars)

unfoldable pub process_env_vars :
    Toolkit → String → List ℕ → ExecConfig → Fallible Trouble ExecConfig
unfolding override_with add_missing put
process_env_vars tk policy data_ config =
    if policy == "" || policy == env_ignore
    then ok config
    else if policy == env_append_if_not_exists || policy == env_replace
    then (do
      vars ← decoded bad_env_vars (tk.decode_env_vars data_)
      merged ← merged_env_vars policy config.env vars
      ok (record config { env = env_var_list merged }))
    else err (failed (unsupported_env_vars_policy policy))
