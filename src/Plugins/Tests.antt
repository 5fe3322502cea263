-- ===== src/Plugins/Tests.antt =====
-- A secret with a token and one with a kubeconfig, and the theorems of the plugins at them.
use cluster_inventory_api.Common.{◌≡◌, ◌↔◌, refl, true, [], ◌∷◌, some, ok, first_error}
use cluster_inventory_api.Apis.{lookup}
use cluster_inventory_api.Plugins.{ExecCredential, ExecCredentialStatus, Host, v1, run_plugin}
use cluster_inventory_api.Plugins.KubeconfigReader
use cluster_inventory_api.Plugins.KubeconfigReader.{
  AuthInfo, copied, user_status, find_user, read_secret,
}
use cluster_inventory_api.Plugins.Printed.{Prints, run_plugin_iff}
use cluster_inventory_api.Plugins.SecretReader
use cluster_inventory_api.Plugins.SecretReader.{ReadsSecret, get_token-ReadsSecret}
use cluster_inventory_api.Plugins.Users.{Resolves, get_token_iff}

abbrev info : ExecCredential
info = record { cluster = some (record { server = "https://a.example.org"; config = 1 ∷ [] }) }

abbrev host : Host
host = record {
  exec_info = ok (v1 info);
  group_version = "client.authentication.k8s.io/v1";
  marshal = λ credential. ok credential.status.token;
  get_secret = λ namespace name. ok (("token", 7 ∷ 8 ∷ []) ∷ ("config", 9 ∷ []) ∷ []);
}

abbrev token_reader : SecretReader.Reader
token_reader = record { has_client = true; namespace = "fleet"; decode = λ raw. ok "a" }

abbrev token : ExecCredentialStatus
token = record { token = 7 ∷ 8 ∷ []; client_certificate_data = []; client_key_data = [] }

token_read : SecretReader.get_token host token_reader info ≡ ok token
unfolding SecretReader.get_token lookup
token_read = refl

get_token-ReadsSecret_example : ReadsSecret host token_reader info token
get_token-ReadsSecret_example = get_token-ReadsSecret host token_reader info token token_read

abbrev alice : AuthInfo
alice = record {
  token = [];
  client_certificate = "";
  client_certificate_data = 1 ∷ [];
  client_key = "";
  client_key_data = 2 ∷ [];
}

abbrev kubeconfig_reader : KubeconfigReader.Reader
kubeconfig_reader = record {
  has_client = true;
  namespace = "fleet";
  decode = λ raw. ok (record { name = "a"; key = "config"; namespace = ""; context = "" });
  load = λ raw. ok (record {
    extensions = [];
    current_context = "main";
    contexts = ("main", record { auth_info = "alice" }) ∷ [];
    auth_infos = ("alice", alice) ∷ [];
  });
}

user_read : KubeconfigReader.get_token host kubeconfig_reader info ≡ ok (copied alice)
unfolding KubeconfigReader.get_token read_secret find_user user_status lookup first_error
user_read = refl

get_token_iff_example :
    (KubeconfigReader.get_token host kubeconfig_reader info ≡ ok (copied alice))
    ↔ Resolves host kubeconfig_reader info (copied alice)
get_token_iff_example = get_token_iff host kubeconfig_reader info (copied alice)

run_plugin_iff_example :
    (run_plugin host "secretreader" (SecretReader.get_token host token_reader)
      ≡ ok (7 ∷ 8 ∷ 10 ∷ []))
    ↔ Prints host "secretreader" (SecretReader.get_token host token_reader) (7 ∷ 8 ∷ 10 ∷ [])
run_plugin_iff_example =
    run_plugin_iff host "secretreader" (SecretReader.get_token host token_reader) (7 ∷ 8 ∷ 10 ∷ [])
