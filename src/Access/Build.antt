-- ===== src/Access/Build.antt =====
-- `BuildConfigFromCP` of pkg/access/config.go, with ToClientcmdCluster of pkg/access/conversion.go.
use cluster_inventory_api.Common.{
  ℕ, String, List, [], ◌∷◌, ◌++◌, Option, none, some, ◌==◌, if◌then◌else◌, length, Fallible, ok,
  err, find,
}
use cluster_inventory_api.Apis.{ClusterProfile, Cluster, AccessProvider, NamedExtension, lookup}
use cluster_inventory_api.Access.{
  Object, ExecConfig, Provider, Config, ClientcmdCluster, RestConfig, no_accessor, no_exec_config,
  failed_conversion, Trouble, failed, panicked, Toolkit,
}
use cluster_inventory_api.Access.Store.{Store, fetch, assign}
use cluster_inventory_api.Access.Extensions.{
  process_cli_args, process_env_vars, env_ignore, args_ignore,
}

abbrev pub cluster_exec_extension_key : String
cluster_exec_extension_key = "client.authentication.k8s.io/exec"

abbrev pub args_extension_key : String
args_extension_key = "clusterprofiles.multicluster.x-k8s.io/exec/additional-args"

abbrev pub env_vars_extension_key : String
env_vars_extension_key = "clusterprofiles.multicluster.x-k8s.io/exec/additional-envs"

-- accessProviderTypes[name]: the last access provider of that name.
unfoldable pub last_of_name : String → List AccessProvider → Option AccessProvider
last_of_name name [] = none
last_of_name name (a ∷ rest) = elim (last_of_name name rest) [
  | some found ↦ some found
  | none ↦ if a.name == name then some a else none
]

unfoldable pub first_supported : List Provider → List AccessProvider → Option AccessProvider
unfolding last_of_name
first_supported [] accessors = none
first_supported (p ∷ rest) accessors = elim (last_of_name p.name accessors) [
  | some found ↦ some found
  | none ↦ first_supported rest accessors
]

unfoldable pub get_cluster_accessor : Config → ClusterProfile → Option AccessProvider
unfolding first_supported
get_cluster_accessor c cp = first_supported c.providers cp.status.access_providers

abbrev provider_settings : Option Provider → Option ℕ × String × String
provider_settings (some p) = (p.exec_config, p.cli_args_policy, p.env_vars_policy)
provider_settings none = (none, args_ignore, env_ignore)

unfoldable pub get_exec_config : Config → String → Option ℕ × String × String
unfolding find
get_exec_config c name = provider_settings (find (λ (p : Provider). p.name == name) c.providers)

-- A step on the exec config behind a pointer, with what it leaves in the store.
abbrev pub update :
    Store → ℕ → (ExecConfig → Fallible Trouble ExecConfig) → Store × Fallible Trouble (Unit {0})
update s a f = elim (fetch s a) [
  | none ↦ (s, err panicked)
  | some config ↦ elim (f config) [ ok new ↦ (assign s a new, ok tt) | err e ↦ (s, err e) ]
]

-- One round of the loop over the extensions.
unfoldable pub process_extension :
    Toolkit → String → String → ℕ → NamedExtension → Store → Store × Fallible Trouble (Unit {0})
unfolding fetch assign process_cli_args process_env_vars
process_extension tk cli env a x s =
    if x.name == args_extension_key
    then update s a (process_cli_args tk cli x.extension)
    else if x.name == env_vars_extension_key
    then update s a (process_env_vars tk env x.extension)
    else (s, ok tt)

unfoldable pub process_extensions :
    Toolkit
    → String
    → String
    → ℕ
    → List NamedExtension
    → Store
    → Store × Fallible Trouble (Unit {0})
unfolding process_extension
process_extensions tk cli env a [] s = (s, ok tt)
process_extensions tk cli env a (x ∷ rest) s =
    let (t, m) = process_extension tk cli env a x s in
    let later = process_extensions tk cli env a rest t in
    elim m [ ok u ↦ later | err e ↦ (t, err e) ]

-- The copies of conversion.go share nothing, and are equal to what they copy.
unfoldable pub to_clientcmd_cluster : Cluster → ClientcmdCluster
to_clientcmd_cluster c = record {
  server = c.server;
  tls_server_name = c.tls_server_name;
  insecure_skip_tls_verify = c.insecure_skip_tls_verify;
  certificate_authority = "";
  certificate_authority_data = c.certificate_authority_data;
  proxy_url = c.proxy_url;
  disable_compression = c.disable_compression;
  extensions = c.extensions;
}

abbrev pub config_or : Option Object → Option Object → Option Object
config_or (some data_) old = some data_
config_or none old = old

unfoldable pub rest_config : Cluster → ExecConfig → List (String × Object) → RestConfig
unfolding lookup
rest_config c e extensions = record {
  host = c.server;
  disable_compression = c.disable_compression;
  ca_data = c.certificate_authority_data;
  server_name = c.tls_server_name;
  insecure = c.insecure_skip_tls_verify;
  proxy_url = c.proxy_url;
  exec_provider = record {
    api_version = e.api_version;
    command = e.command;
    args = e.args;
    env = e.env;
    interactive_mode = "Never";
    provide_cluster_info = e.provide_cluster_info;
    config = config_or (lookup cluster_exec_extension_key extensions) e.config;
  };
}

abbrev pub converted :
    Cluster
    → Option ExecConfig
    → Fallible String (List (String × Object))
    → Fallible Trouble RestConfig
converted c none answer = err panicked
converted c (some e) (ok extensions) = ok (rest_config c e extensions)
converted c (some e) (err text) = err (failed (failed_conversion text))

-- for idx := range extensions
abbrev pub extension_list : Option (List NamedExtension) → List NamedExtension
extension_list none = []
extension_list (some xs) = xs

-- The end of the call, for the copy at `a`.
unfoldable pub finish_build :
    Toolkit
    → Cluster
    → ℕ
    → Store × Fallible Trouble (Unit {0})
    → Store × Fallible Trouble RestConfig
unfolding fetch to_clientcmd_cluster rest_config
finish_build tk c a (s, ok u) = (s, converted c (fetch s a) (tk.convert (to_clientcmd_cluster c)))
finish_build tk c a (s, err e) = (s, err e)

-- The call once the pointer to the provider's exec config is known: DeepCopy allocates the copy.
unfoldable pub build_at :
    Toolkit
    → Cluster
    → String
    → String
    → Store
    → Option ExecConfig
    → Store × Fallible Trouble RestConfig
unfolding finish_build process_extensions
build_at tk c cli env s none = (s, err panicked)
build_at tk c cli env s (some config) =
    finish_build tk c (length s)
      (process_extensions tk cli env (length s) (extension_list c.extensions) (s ++ config ∷ []))

unfoldable pub build_for :
    Toolkit → Config → AccessProvider → Store → Store × Fallible Trouble RestConfig
unfolding build_at get_exec_config fetch
build_for tk c accessor s =
    let (pointer, cli, env) = get_exec_config c accessor.name in
    elim pointer [
      | none ↦ (s, err (failed (no_exec_config accessor.name)))
      | some a ↦ build_at tk accessor.cluster cli env s (fetch s a)
    ]

unfoldable pub build_config :
    Toolkit → Config → ClusterProfile → Store → Store × Fallible Trouble RestConfig
unfolding build_for get_cluster_accessor
build_config tk c cp s = elim (get_cluster_accessor c cp) [
  | none ↦ (s, err (failed (no_accessor cp.metadata.name)))
  | some accessor ↦ build_for tk c accessor s
]
