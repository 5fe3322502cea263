-- ===== src/Plugins.antt =====
-- The credential plugins: pkg/credentialplugin/core.go, and what its two readers share.
pub mod SecretReader
pub mod KubeconfigReader
pub mod Lookups
pub mod Users
pub mod Printed
mod Tests
use cluster_inventory_api.Common.{
  ℕ, String, Bool, true, false, ◌||◌, List, [], ◌∷◌, ◌++◌, Option, none, some, ◌==◌, if◌then◌else◌,
  is_empty, is_blank, Fallible, ok, err, ◌>>=◌, ◌>>◌, reject_if, trim_space,
}

-- A []byte, and a Go string that comes from one.
abbrev pub Bytes : Type 0
Bytes = List ℕ

-- clientauthenticationv1.Cluster and ExecCredential, as far as the plugins read them
pub record ExecCluster : Type 0 where
  pub server : String
  pub config : Bytes

pub record ExecCredential : Type 0 where
  pub cluster : Option ExecCluster

pub record ExecCredentialStatus : Type 0 where
  pub token : Bytes
  pub client_certificate_data : Bytes
  pub client_key_data : Bytes

pub data PluginFault : Type 0 where
  empty_name : PluginFault
  unreadable_info unexpected_type : String → PluginFault
  missing_server no_client missing_config missing_cluster_name : PluginFault
  missing_secret_name missing_secret_key : PluginFault
  invalid_config : String → PluginFault
  failed_secret : String → String → String → PluginFault
  missing_key : String → String → String → PluginFault
  invalid_kubeconfig : String → String → String → PluginFault
  kubeconfig_extensions no_context : PluginFault
  unknown_context unknown_user : String → PluginFault
  missing_certificate missing_private_key : String → PluginFault
  certificate_path key_path : PluginFault
  no_authentication : String → PluginFault
  failed_marshal : String → PluginFault

-- The ExecCredential that Run writes: its TypeMeta and its status
pub record PrintedCredential : Type 0 where
  pub api_version : String
  pub kind : String
  pub status : ExecCredentialStatus

-- What the plugins call: the loader of KUBERNETES_EXEC_INFO, which may hold another version than
-- v1, the identifier of clientauthenticationv1's group and version, and json.Marshal.
pub data Loaded : Type 0 where
  v1 : ExecCredential → Loaded
  other_type : String → Loaded

pub record Host : Type 0 where
  pub exec_info : Fallible String Loaded
  pub group_version : String
  pub marshal : PrintedCredential → Fallible String Bytes
  pub get_secret : String → String → Fallible String (List (String × Bytes))

-- An error of a call, wrapped
abbrev pub wrapped :
    {A : Type 0} → (String → PluginFault) → Fallible String A → Fallible PluginFault A
wrapped wrap (ok a) = ok a
wrapped wrap (err text) = err (wrap text)

abbrev pub present : {A : Type 0} → PluginFault → Option A → Fallible PluginFault A
present fault (some a) = ok a
present fault none = err fault

-- The cluster's server is absent, blank or the text null.
abbrev pub lacks_server : Option ExecCluster → Bool
lacks_server none = true
lacks_server (some c) = is_blank c.server || c.server == "null"

abbrev pub v1_credential : Loaded → Fallible PluginFault ExecCredential
v1_credential (v1 e) = ok e
v1_credential (other_type name) = err (unexpected_type name)

unfoldable pub read_exec_info : Host → Fallible PluginFault ExecCredential
unfolding trim_space
read_exec_info host = do
  loaded ← wrapped unreadable_info host.exec_info
  info ← v1_credential loaded
  reject_if (lacks_server info.cluster) missing_server
  ok info

abbrev pub envelope : Host → ExecCredentialStatus → PrintedCredential
envelope host status = record {
  api_version = host.group_version;
  kind = "ExecCredential";
  status = status;
}

-- The bytes, and the newline that Run writes after them
abbrev pub written_line : Bytes → Bytes
written_line bytes = bytes ++ 10 ∷ []

-- `Run`: the bytes on standard output, or the fault that ends the process with status 1.
unfoldable pub run_plugin :
    Host
    → String
    → (ExecCredential → Fallible PluginFault ExecCredentialStatus)
    → Fallible PluginFault Bytes
unfolding read_exec_info
run_plugin host name get_token = do
  reject_if (is_blank name) empty_name
  info ← read_exec_info host
  status ← get_token info
  bytes ← wrapped failed_marshal (host.marshal (envelope host status))
  ok (written_line bytes)

-- The bytes of the cluster's configuration, if there are any.
abbrev pub cluster_config : ExecCredential → Fallible PluginFault Bytes
cluster_config info = elim info.cluster [
  | none ↦ err missing_config
  | some c ↦ if is_empty c.config then err missing_config else ok c.config
]

-- sec.Data[key], where there is such a key and its value is not empty
abbrev pub filled : PluginFault → Option Bytes → Fallible PluginFault Bytes
filled fault none = err fault
filled fault (some data_) = if is_empty data_ then err fault else ok data_
