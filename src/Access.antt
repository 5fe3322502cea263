-- ===== src/Access.antt =====
-- Access to the clusters of an inventory: the types of pkg/access/config.go, with the parts of
-- client-go and yaml.v3 that its code calls.
pub mod Store
pub mod Extensions
pub mod Build
pub mod Accessor
pub mod Keeps
pub mod EnvVars
pub mod Panics
mod Tests
use cluster_inventory_api.Common.{ℕ, String, Bool, Option, List, Fallible}
use cluster_inventory_api.Apis.{NamedExtension}

-- A runtime.Object, by its raw bytes.
abbrev pub Object : Type 0
Object = List ℕ

-- clientcmdapi.ExecEnvVar
pub record ExecEnvVar : Type 0 where
  pub name : String
  pub value : String

-- clientcmdapi.ExecConfig, as far as the code reads and writes it
pub record ExecConfig : Type 0 where
  pub api_version : String
  pub command : String
  pub args : List String
  pub env : List ExecEnvVar
  pub interactive_mode : String
  pub provide_cluster_info : Bool
  pub config : Option Object

-- `exec_config` is the address of an ExecConfig, or `none` for a nil pointer.
pub record Provider : Type 0 where
  pub name : String
  pub exec_config : Option ℕ
  pub cli_args_policy : String
  pub env_vars_policy : String

pub record Config : Type 0 where
  pub providers : List Provider

-- clientcmdv1.Cluster
pub record ClientcmdCluster : Type 0 where
  pub server : String
  pub tls_server_name : String
  pub insecure_skip_tls_verify : Bool
  pub certificate_authority : String
  pub certificate_authority_data : List ℕ
  pub proxy_url : String
  pub disable_compression : Bool
  pub extensions : Option (List NamedExtension)

-- rest.Config, as far as the code fills it; `proxy_url` is what its Proxy function parses.
pub record RestConfig : Type 0 where
  pub host : String
  pub disable_compression : Bool
  pub ca_data : List ℕ
  pub server_name : String
  pub insecure : Bool
  pub proxy_url : String
  pub exec_provider : ExecConfig

pub data AccessFault : Type 0 where
  no_accessor no_exec_config : String → AccessFault
  bad_args bad_env_vars : String → AccessFault
  unsupported_args_policy unsupported_env_vars_policy : String → AccessFault
  failed_conversion : String → AccessFault

-- How a call ends without a result: with an error, or by a run-time panic.
pub data Trouble : Type 0 where
  failed : AccessFault → Trouble
  panicked : Trouble

-- What the code calls: yaml.Unmarshal into a []string and into a nil map[string]string, where a map
-- that stays nil is `none` and a decoded one lists its entries in no particular order; and the
-- extensions of the internal cluster that client-go's Convert makes.
pub record Toolkit : Type 0 where
  pub decode_args : List ℕ → Fallible String (List String)
  pub decode_env_vars : List ℕ → Fallible String (Option (List (String × String)))
  pub convert : ClientcmdCluster → Fallible String (List (String × Object))
