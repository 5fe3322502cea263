-- ===== src/Plugins/SecretReader.antt =====
-- GetToken of plugins/secretreader/cmd/plugin/main.go: the token of the cluster's secret.
use cluster_inventory_api.Common.{
  ◌≡◌, ◌≢◌, sym, ap, ◌∙◌, String, Bool, not, List, [], ◌∷◌, Option, none, some, ◌==◌, Fallible, ok,
  err, ◌>>=◌, ◌>>◌, reject_if, >>-eq-ok, >>=-eq-ok, reject_if-eq-ok, str_eq→ne,
}
use cluster_inventory_api.Apis.{lookup}
use cluster_inventory_api.Plugins.{
  Bytes, ExecCredential, ExecCredentialStatus, PluginFault, no_client, missing_cluster_name,
  invalid_config, failed_secret, missing_key, Host, wrapped, cluster_config, filled,
}

abbrev pub secret_token_key : String
secret_token_key = "token"

-- `decode` is json.Unmarshal of the clusterName.
pub record Reader : Type 0 where
  pub has_client : Bool
  pub namespace : String
  pub decode : Bytes → Fallible String String

unfoldable pub get_token :
    Host → Reader → ExecCredential → Fallible PluginFault ExecCredentialStatus
unfolding lookup
get_token host p info = do
  reject_if (not p.has_client) no_client
  raw ← cluster_config info
  name ← wrapped invalid_config (p.decode raw)
  reject_if (name == "") missing_cluster_name
  secret ← wrapped (failed_secret p.namespace name) (host.get_secret p.namespace name)
  token ← filled (missing_key p.namespace name secret_token_key) (lookup secret_token_key secret)
  ok (record { token = token; client_certificate_data = []; client_key_data = [] })

pub wrapped-eq-ok :
    {A : Type 0} (wrap : String → PluginFault) (m : Fallible String A) (a : A)
    → wrapped wrap m ≡ ok a
    → m ≡ ok a
wrapped-eq-ok wrap (ok b) a h = cc
wrapped-eq-ok wrap (err e) a h = cc

pub filled-eq-ok :
    (fault : PluginFault) (m : Option Bytes) (data_ : Bytes)
    → filled fault m ≡ ok data_
    → (m ≡ some data_) × (data_ ≢ [])
filled-eq-ok fault none data_ h = cc
filled-eq-ok fault (some []) data_ h = cc
filled-eq-ok fault (some (b ∷ rest)) data_ h = (cc, (λ e. cc))

-- The token is read from the secret that the cluster's configuration names.
pub record ReadsSecret (host : Host) (p : Reader) (info : ExecCredential)
    (status : ExecCredentialStatus) : Type 0 where
  pub raw : Bytes
  pub configured : cluster_config info ≡ ok raw
  pub name : String
  pub named : p.decode raw ≡ ok name
  pub nonempty : name ≢ ""
  pub secret : List (String × Bytes)
  pub found : host.get_secret p.namespace name ≡ ok secret
  pub held : lookup secret_token_key secret ≡ some status.token
  pub filled_in : status.token ≢ []
  pub bare : (status.client_certificate_data ≡ []) × (status.client_key_data ≡ [])

-- A token that secretreader returns is the non-empty `token` of the secret with the cluster's name in
-- the provider's namespace, with no certificate beside it.
pub get_token-ReadsSecret :
    (host : Host) (p : Reader) (info : ExecCredential) (status : ExecCredentialStatus)
    → get_token host p info ≡ ok status
    → ReadsSecret host p info status
unfolding get_token
get_token-ReadsSecret host p info status h =
    let (_, h1) = >>-eq-ok (reject_if (not p.has_client) no_client) _ h in
    let (raw, configured, h2) = >>=-eq-ok (cluster_config info) _ h1 in
    let (name, named, h3) = >>=-eq-ok (wrapped invalid_config (p.decode raw)) _ h2 in
    let (full, h4) = >>-eq-ok (reject_if (name == "") missing_cluster_name) _ h3 in
    let (secret, found, h5) =
      >>=-eq-ok (wrapped (failed_secret p.namespace name) (host.get_secret p.namespace name)) _
        h4 in
    let (token, held, last) =
      >>=-eq-ok
        (filled (missing_key p.namespace name secret_token_key) (lookup secret_token_key secret)) _
        h5 in
    let (same, some_bytes) =
      filled-eq-ok (missing_key p.namespace name secret_token_key) (lookup secret_token_key secret)
        token held in
    let end : record { token = token; client_certificate_data = []; client_key_data = [] }
        ≡ status =
      cc in
    let t : token ≡ status.token = ap (λ (s : ExecCredentialStatus). s.token) end in
    record {
      raw = raw;
      configured = configured;
      name = name;
      named = wrapped-eq-ok _ _ name named;
      nonempty = str_eq→ne name "" (reject_if-eq-ok _ _ full);
      secret = secret;
      found = wrapped-eq-ok _ _ secret found;
      held = same ∙ ap some t;
      filled_in = λ e. some_bytes (t ∙ e);
      bare = (
        sym (ap (λ (s : ExecCredentialStatus). s.client_certificate_data) end),
        sym (ap (λ (s : ExecCredentialStatus). s.client_key_data) end),
      );
    }
