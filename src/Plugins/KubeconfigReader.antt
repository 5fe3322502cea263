-- ===== src/Plugins/KubeconfigReader.antt =====
-- GetToken of plugins/kubeconfig-secretreader/cmd/plugin/main.go: the credentials of a user of the
-- kubeconfig in the cluster's secret.
use cluster_inventory_api.Common.{
  String, Bool, not, ◌&&◌, ◌||◌, List, [], ◌∷◌, ◌==◌, if◌then◌else◌, is_empty, Fallible, ok, ◌>>=◌,
  ◌>>◌, reject_if, first_error,
}
use cluster_inventory_api.Apis.{lookup}
use cluster_inventory_api.Plugins.{
  Bytes, ExecCredential, ExecCredentialStatus, PluginFault, no_client, missing_secret_name,
  missing_secret_key, invalid_config, failed_secret, missing_key, invalid_kubeconfig,
  kubeconfig_extensions, no_context, unknown_context, unknown_user, missing_certificate,
  missing_private_key, certificate_path, key_path, no_authentication, Host, wrapped, present,
  cluster_config, filled,
}

-- execClusterConfig
pub record ClusterConfig : Type 0 where
  pub name : String
  pub key : String
  pub namespace : String
  pub context : String

-- clientcmdapi.Context, AuthInfo and Config, as far as the plugin reads them
pub record KubeContext : Type 0 where
  pub auth_info : String

pub record AuthInfo : Type 0 where
  pub token : Bytes
  pub client_certificate : String
  pub client_certificate_data : Bytes
  pub client_key : String
  pub client_key_data : Bytes

pub record Kubeconfig : Type 0 where
  pub extensions : List String
  pub current_context : String
  pub contexts : List (String × KubeContext)
  pub auth_infos : List (String × AuthInfo)

-- `decode` is json.Unmarshal of an execClusterConfig, `load` is clientcmd.Load.
pub record Reader : Type 0 where
  pub has_client : Bool
  pub namespace : String
  pub decode : Bytes → Fallible String ClusterConfig
  pub load : Bytes → Fallible String Kubeconfig

abbrev pub or_else : String → String → String
or_else s d = if s == "" then d else s

abbrev pub has_cert : AuthInfo → Bool
has_cert u = not (is_empty u.client_certificate_data) || not (u.client_certificate == "")

abbrev pub has_key : AuthInfo → Bool
has_key u = not (is_empty u.client_key_data) || not (u.client_key == "")

-- The fields of the status, which the source sets one after the other
abbrev pub copied : AuthInfo → ExecCredentialStatus
copied u = record {
  token = u.token;
  client_certificate_data = u.client_certificate_data;
  client_key_data = u.client_key_data;
}

abbrev pub user_steps : String → AuthInfo → List (Fallible PluginFault (Unit {0}))
user_steps name u =
    reject_if ((has_cert u || has_key u) && not (has_cert u)) (missing_certificate name)
    ∷ reject_if ((has_cert u || has_key u) && not (has_key u)) (missing_private_key name)
    ∷ reject_if ((has_cert u || has_key u) && is_empty u.client_certificate_data) certificate_path
    ∷ reject_if ((has_cert u || has_key u) && is_empty u.client_key_data) key_path
    ∷ reject_if (is_empty u.token && is_empty u.client_certificate_data) (no_authentication name)
    ∷ []

-- The end of GetToken, for the user of the context.
unfoldable pub user_status : String → AuthInfo → Fallible PluginFault ExecCredentialStatus
user_status name u = do first_error (user_steps name u); ok (copied u)

-- The user of a kubeconfig, by the context asked for or else the current one.
unfoldable pub find_user : String → Kubeconfig → Fallible PluginFault (String × AuthInfo)
unfolding lookup
find_user wanted k = do
  reject_if (not (is_empty k.extensions)) kubeconfig_extensions
  reject_if (or_else wanted k.current_context == "") no_context
  context ←
      present (unknown_context (or_else wanted k.current_context))
        (lookup (or_else wanted k.current_context) k.contexts)
  user ← present (unknown_user context.auth_info) (lookup context.auth_info k.auth_infos)
  ok (context.auth_info, user)

-- The bytes of the kubeconfig in the secret.
unfoldable pub read_secret : Host → String → ClusterConfig → Fallible PluginFault Bytes
unfolding lookup
read_secret host namespace cfg = do
  secret ← wrapped (failed_secret namespace cfg.name) (host.get_secret namespace cfg.name)
  filled (missing_key namespace cfg.name cfg.key) (lookup cfg.key secret)

unfoldable pub get_token :
    Host → Reader → ExecCredential → Fallible PluginFault ExecCredentialStatus
unfolding read_secret find_user user_status
get_token host p info = do
  reject_if (not p.has_client) no_client
  raw ← cluster_config info
  cfg ← wrapped invalid_config (p.decode raw)
  reject_if (cfg.name == "") missing_secret_name
  reject_if (cfg.key == "") missing_secret_key
  data_ ← read_secret host (or_else cfg.namespace p.namespace) cfg
  k ← wrapped (invalid_kubeconfig (or_else cfg.namespace p.namespace) cfg.name) (p.load data_)
  found ← find_user cfg.context k
  user_status found.0 found.1
