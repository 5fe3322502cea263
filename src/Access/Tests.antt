-- ===== src/Access/Tests.antt =====
-- Two clusters behind one provider, and the theorems of the access package at them.
use cluster_inventory_api.Common.{
  ℕ, ◌≡◌, ◌↔◌, refl, inr, String, true, false, List, [], ◌∷◌, ◌++◌, Option, none, some, Fallible,
  ok, err, sort_by, text_leb,
}
use cluster_inventory_api.Apis.{ClusterProfile, Cluster, lookup}
use cluster_inventory_api.Access.{ExecConfig, Config, panicked, Toolkit}
use cluster_inventory_api.Access.Store.{Store, Keeps}
use cluster_inventory_api.Access.Extensions.{process_env_vars, put, add_missing, env_replace}
use cluster_inventory_api.Access.Build.{
  build_config, build_at, converted, to_clientcmd_cluster, get_cluster_accessor,
  env_vars_extension_key,
}
use cluster_inventory_api.Access.Keeps.{build_config-Keeps, build_at-ignored}
use cluster_inventory_api.Access.EnvVars.{Merges, IsMerging, process_env_vars-Merges}
use cluster_inventory_api.Access.Panics.{WritesNil, process_env_vars-panicked_iff}
use cluster_inventory_api.Access.Accessor.{AccessorMeans, get_cluster_accessor-AccessorMeans}

abbrev decode : List ℕ → Fallible String (Option (List (String × String)))
decode [] = ok none
decode (b ∷ rest) = ok (some (("REGION", "west") ∷ ("CLUSTER", "a") ∷ []))

abbrev tools : Toolkit
tools = record {
  decode_args = λ data_. ok ("--cluster" ∷ "a" ∷ []);
  decode_env_vars = decode;
  convert = λ cluster. ok [];
}

abbrev shared : ExecConfig
shared = record {
  api_version = "client.authentication.k8s.io/v1";
  command = "plugin";
  args = "get-token" ∷ [];
  env = record { name = "REGION"; value = "east" } ∷ [];
  interactive_mode = "";
  provide_cluster_info = true;
  config = none;
}

abbrev settings : Config
settings = record {
  providers =
      record {
        name = "plugin";
        exec_config = some 0;
        cli_args_policy = "Append";
        env_vars_policy = env_replace;
      }
      ∷ [];
}

abbrev cluster : List ℕ → Cluster
cluster data_ = record {
  server = "https://a.example.org";
  tls_server_name = "";
  insecure_skip_tls_verify = false;
  certificate_authority_data = [];
  proxy_url = "";
  disable_compression = false;
  extensions = some (record { name = env_vars_extension_key; extension = data_ } ∷ []);
}

abbrev profile : List ℕ → ClusterProfile
profile data_ = record {
  metadata = record {
    namespace = "fleet";
    name = "a";
    uid = "";
    resource_version = "";
    labels = [];
  };
  spec = record { display_name = "a"; cluster_manager = record { name = "hub" } };
  status = record {
    conditions = [];
    version = record { kubernetes = "" };
    properties = [];
    access_providers =
        record { name = "other"; cluster = cluster [] }
        ∷ record { name = "plugin"; cluster = cluster data_ }
        ∷ [];
  };
}

abbrev store : Store
store = shared ∷ []

abbrev merged : ExecConfig
merged = record shared {
  env = record { name = "CLUSTER"; value = "a" } ∷ record { name = "REGION"; value = "west" } ∷ [];
}

replaced : process_env_vars tools env_replace (1 ∷ []) shared ≡ ok merged
unfolding process_env_vars add_missing put lookup sort_by text_leb
replaced = refl

build_config-Keeps_example : Keeps 1 store (build_config tools settings (profile (1 ∷ [])) store).0
build_config-Keeps_example = build_config-Keeps tools settings (profile (1 ∷ [])) store

build_at-ignored_example : build_at tools (cluster (1 ∷ [])) "" "Ignore" store (some shared) ≡ (
  store ++ shared ∷ [],
  converted
      (cluster (1 ∷ []))
      (some shared)
      (tools.convert (to_clientcmd_cluster (cluster (1 ∷ [])))),
)
build_at-ignored_example =
    build_at-ignored tools (cluster (1 ∷ [])) "" "Ignore" store shared refl refl

process_env_vars-Merges_example :
    Merges env_replace shared.env (("REGION", "west") ∷ ("CLUSTER", "a") ∷ []) merged.env
    × (merged ≡ record shared { env = merged.env })
process_env_vars-Merges_example =
    process_env_vars-Merges tools env_replace (1 ∷ []) shared merged
      (some (("REGION", "west") ∷ ("CLUSTER", "a") ∷ [])) (inr refl) refl
      (((λ e. cc), tt), (tt, tt)) replaced

process_env_vars-panicked_iff_example :
    (process_env_vars tools env_replace [] shared ≡ err panicked)
    ↔ (IsMerging env_replace × WritesNil (decode []) shared.env)
process_env_vars-panicked_iff_example = process_env_vars-panicked_iff tools env_replace [] shared

get_cluster_accessor-AccessorMeans_example :
    AccessorMeans settings.providers
      (profile []).status.access_providers
      (get_cluster_accessor settings (profile []))
get_cluster_accessor-AccessorMeans_example =
    get_cluster_accessor-AccessorMeans settings (profile [])
