-- ===== src/Access/Keeps.antt =====
-- What building a configuration leaves of the exec configs that the providers share.
use cluster_inventory_api.Common.{
  ℕ, ◌≤◌, ◌≡◌, refl, ap, inl, inr, String, Bool, Bool-cases, true, ◌||◌, List, [], ◌∷◌, ◌++◌,
  Option, Option-cases, none, some, ◌==◌, length, Fallible, Fallible-cases, ok, err, arith,
}
use cluster_inventory_api.Apis.{ClusterProfile, Cluster, AccessProvider, NamedExtension}
use cluster_inventory_api.Access.{ExecConfig, Config, Trouble, Toolkit}
use cluster_inventory_api.Access.Store.{
  Store, fetch, Keeps, Keeps-assign, Keeps-alloc, Keeps-refl, fetch-new, assign-fetch,
}
use cluster_inventory_api.Access.Extensions.{process_cli_args, process_env_vars}
use cluster_inventory_api.Access.Build.{
  args_extension_key, env_vars_extension_key, get_cluster_accessor, get_exec_config, update,
  process_extension, process_extensions, extension_list, to_clientcmd_cluster, converted,
  finish_build, build_at, build_for, build_config,
}

update-Keeps :
    (n : ℕ) (s t : Store) (a : ℕ) (f : ExecConfig → Fallible Trouble ExecConfig)
    → n ≤ a
    → Keeps n s t
    → Keeps n s (update t a f).0
update-Keeps n s t a f far h = elim (Option-cases (fetch t a)) [
  | inl e ↦ rw (update, e) h
  | inr (config, e) ↦ elim (Fallible-cases (f config)) [
    | inl (new, k) ↦ rw (update, e, k) (Keeps-assign n s t a new h far)
    | inr (fault, k) ↦ rw (update, e, k) h
  ]
]

process_extension-Keeps :
    (tk : Toolkit) (cli env : String) (n a : ℕ) (x : NamedExtension) (s t : Store)
    → n ≤ a
    → Keeps n s t
    → Keeps n s (process_extension tk cli env a x t).0
process_extension-Keeps tk cli env n a x s t far h =
    elim (Bool-cases (x.name == args_extension_key)) [
      | inl e ↦ unfold process_extension in rw e (update-Keeps n s t a _ far h)
      | inr e ↦ elim (Bool-cases (x.name == env_vars_extension_key)) [
        | inl k ↦ unfold process_extension in rw (e, k) (update-Keeps n s t a _ far h)
        | inr k ↦ unfold process_extension in rw (e, k) h
      ]
    ]

process_extensions-Keeps :
    (tk : Toolkit) (cli env : String) (n a : ℕ) (xs : List NamedExtension) (s t : Store)
    → n ≤ a
    → Keeps n s t
    → Keeps n s (process_extensions tk cli env a xs t).0
unfolding process_extensions
process_extensions-Keeps tk cli env n a [] s t far h = h
process_extensions-Keeps tk cli env n a (x ∷ rest) s t far h =
    let next = process_extension-Keeps tk cli env n a x s t far h in
    elim (Fallible-cases (process_extension tk cli env a x t).1) [
      | inl (u, e) ↦
          rw (process_extensions, e)
            (process_extensions-Keeps tk cli env n a rest s (process_extension tk cli env a x t).0
              far next)
      | inr (fault, e) ↦ rw (process_extensions, e) next
    ]

finish_build-store :
    (tk : Toolkit) (c : Cluster) (a : ℕ) (r : Store × Fallible Trouble (Unit {0}))
    → (finish_build tk c a r).0 ≡ r.0
unfolding finish_build
finish_build-store tk c a (s, ok u) = refl
finish_build-store tk c a (s, err e) = refl

build_at-Keeps :
    (tk : Toolkit) (c : Cluster) (cli env : String) (s : Store) (found : Option ExecConfig)
    → Keeps (length s) s (build_at tk c cli env s found).0
unfolding build_at
build_at-Keeps tk c cli env s none = Keeps-refl (length s) s
build_at-Keeps tk c cli env s (some config) =
    rw
      (finish_build-store tk c (length s)
        (process_extensions tk cli env (length s) (extension_list c.extensions) (s ++ config ∷ [])))
      (process_extensions-Keeps tk cli env (length s) (length s) (extension_list c.extensions) s
        (s ++ config ∷ []) (omega arith) (Keeps-alloc s config))

build_for-Keeps :
    (tk : Toolkit) (c : Config) (accessor : AccessProvider) (s : Store)
    → Keeps (length s) s (build_for tk c accessor s).0
unfolding build_for
build_for-Keeps tk c accessor s = elim (Option-cases (get_exec_config c accessor.name).0) [
  | inl e ↦ rw (build_for, e) (Keeps-refl (length s) s)
  | inr (a, e) ↦
      rw (build_for, e)
        (build_at-Keeps tk accessor.cluster (get_exec_config c accessor.name).1
          (get_exec_config c accessor.name).2 s (fetch s a))
]

-- However BuildConfigFromCP ends, with a configuration, an error or a panic, every exec config that
-- existed before the call holds what it held: what one profile adds reaches no other cluster.
pub build_config-Keeps :
    (tk : Toolkit) (c : Config) (cp : ClusterProfile) (s : Store)
    → Keeps (length s) s (build_config tk c cp s).0
unfolding build_config
build_config-Keeps tk c cp s = elim (Option-cases (get_cluster_accessor c cp)) [
  | inl e ↦ rw (build_config, e) (Keeps-refl (length s) s)
  | inr (accessor, e) ↦ rw (build_config, e) (build_for-Keeps tk c accessor s)
]

-- A policy under which the data of a profile is not used.
abbrev pub is_ignoring : String → Bool
is_ignoring policy = policy == "" || policy == "Ignore"

update-unchanged :
    (s : Store) (a : ℕ) (config : ExecConfig) (f : ExecConfig → Fallible Trouble ExecConfig)
    → fetch s a ≡ some config
    → f config ≡ ok config
    → update s a f ≡ (s, ok tt)
update-unchanged s a config f e k =
    rw (update, e, k) (ap (λ t. (t, ok tt)) (assign-fetch s a config e))

process_extension-ignored :
    (tk : Toolkit) (cli env : String) (a : ℕ) (x : NamedExtension) (s : Store) (config : ExecConfig)
    → is_ignoring cli ≡ true
    → is_ignoring env ≡ true
    → fetch s a ≡ some config
    → process_extension tk cli env a x s ≡ (s, ok tt)
process_extension-ignored tk cli env a x s config h k e =
    elim (Bool-cases (x.name == args_extension_key)) [
      | inl m ↦
          unfold process_extension in
          rw m (update-unchanged s a config _ e (unfold process_cli_args in rw h refl))
      | inr m ↦ elim (Bool-cases (x.name == env_vars_extension_key)) [
        | inl o ↦
            unfold process_extension in
            rw (m, o) (update-unchanged s a config _ e (unfold process_env_vars in rw k refl))
        | inr o ↦ unfold process_extension in rw (m, o) refl
      ]
    ]

process_extensions-ignored :
    (tk : Toolkit) (cli env : String) (a : ℕ) (xs : List NamedExtension) (s : Store)
    (config : ExecConfig)
    → is_ignoring cli ≡ true
    → is_ignoring env ≡ true
    → fetch s a ≡ some config
    → process_extensions tk cli env a xs s ≡ (s, ok tt)
unfolding process_extensions
process_extensions-ignored tk cli env a [] s config h k e = refl
process_extensions-ignored tk cli env a (x ∷ rest) s config h k e =
    let step = process_extension-ignored tk cli env a x s config h k e in
    rw (process_extensions, ap (λ r. r.1) step, ap (λ r. r.0) step)
      (process_extensions-ignored tk cli env a rest s config h k e)

-- Where both policies are empty or Ignore, the configuration is built from the provider's own exec
-- config, whatever extensions the profile has, and only the copy is added to the store.
pub build_at-ignored :
    (tk : Toolkit) (c : Cluster) (cli env : String) (s : Store) (config : ExecConfig)
    → is_ignoring cli ≡ true
    → is_ignoring env ≡ true
    → build_at tk c cli env s (some config)
      ≡ (s ++ config ∷ [], converted c (some config) (tk.convert (to_clientcmd_cluster c)))
unfolding build_at finish_build
build_at-ignored tk c cli env s config h k =
    rw
      (
        process_extensions-ignored tk cli env (length s) (extension_list c.extensions)
            (s ++ config ∷ []) config h k (fetch-new s config),
        fetch-new s config,
      )
      refl
