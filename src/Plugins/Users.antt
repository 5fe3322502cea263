-- ===== src/Plugins/Users.antt =====
-- Which users of a kubeconfig give credentials, and which credentials.
use cluster_inventory_api.Common.{
  ◌≡◌, ◌≢◌, ◌↔◌, refl, sym, ap, inl, inr, ◌∙◌, String, true, false, not, ◌&&◌, List, [], some, ◌==◌,
  is_empty, ok, reject_if, first_error, >>-eq-ok, >>=-eq-ok, arith, eq_iff, first_error-eq-ok,
  reject_if-eq-ok, Bool-cases, eq→str_eq, str_eq→ne, ne→str_eq, of_not-false,
}
use cluster_inventory_api.Plugins.{
  Bytes, ExecCluster, ExecCredential, ExecCredentialStatus, Host, wrapped, invalid_config,
  invalid_kubeconfig, no_client, missing_secret_name, missing_secret_key, cluster_config,
}
use cluster_inventory_api.Plugins.KubeconfigReader.{
  AuthInfo, Kubeconfig, copied, user_steps, user_status, or_else, find_user, read_secret, get_token,
  ClusterConfig, Reader,
}
use cluster_inventory_api.Plugins.SecretReader.{wrapped-eq-ok}
use cluster_inventory_api.Apis.{lookup}
use cluster_inventory_api.Plugins.Lookups.{
  IsFirstOf, or_else-IsFirstOf, FindsUser, find_user-FindsUser, cluster_config-eq-ok,
  read_secret-eq-ok, or_else_unique, FindsUser-find_user, held-cluster_config, held-read_secret,
}

-- A user has a certificate and its key in place, or neither of them in any form, and has a token or
-- a certificate.
pub record IsUsable (u : AuthInfo) : Type 0 where
  pub paired : is_empty u.client_certificate_data ≡ is_empty u.client_key_data
  pub in_place :
      is_empty u.client_certificate_data ≡ true → (u.client_certificate ≡ "") × (u.client_key ≡ "")
  pub some_method : is_empty u.token && is_empty u.client_certificate_data ≡ false

user_steps_sound :
    (name : String) (u : AuthInfo) → first_error (user_steps name u) ≡ ok tt → IsUsable u
user_steps_sound name u h =
    let steps = first_error-eq-ok (user_steps name u) h in
    let a = reject_if-eq-ok _ _ steps.0 in
    let b = reject_if-eq-ok _ _ steps.1.0 in
    let c = reject_if-eq-ok _ _ steps.1.1.0 in
    let d = reject_if-eq-ok _ _ steps.1.1.1.0 in
    let e = reject_if-eq-ok _ _ steps.1.1.1.1.0 in
    record {
      paired = ground (arith, a, b, c, d);
      in_place = λ none_given. (
        ground (arith, eq_iff u.client_certificate "", none_given, c),
        ground (arith, eq_iff u.client_key "", none_given, c),
      );
      some_method = e;
    }

user_steps_complete :
    (name : String) (u : AuthInfo) → IsUsable u → first_error (user_steps name u) ≡ ok tt
unfolding first_error
user_steps_complete name u h = elim (Bool-cases (is_empty u.client_certificate_data)) [
  | inl e ↦
      let cert = eq→str_eq u.client_certificate "" (h.in_place e).0 in
      let key = eq→str_eq u.client_key "" (h.in_place e).1 in
      rw (h.some_method, e, sym h.paired ∙ e, cert, key) refl
  | inr e ↦ rw (h.some_method, e, sym h.paired ∙ e) refl
]

pub user_status_iff :
    (name : String) (u : AuthInfo) (status : ExecCredentialStatus)
    → (user_status name u ≡ ok status) ↔ (IsUsable u × (status ≡ copied u))
unfolding user_status
user_status_iff name u status = (
  (λ h.
      let (steps, last) = >>-eq-ok (first_error (user_steps name u)) _ h in
      (user_steps_sound name u steps, cc)),
  (λ h. rw (user_steps_complete name u h.0) (ap ok (sym h.1))),
)

-- The way from the cluster's configuration to the user whose credentials are returned.
pub record Resolves (host : Host) (p : Reader) (info : ExecCredential)
    (status : ExecCredentialStatus) : Type 0 where
  pub has_client : p.has_client ≡ true
  pub cluster : ExecCluster
  pub of_info : info.cluster ≡ some cluster
  pub configured : cluster.config ≢ []
  pub config : ClusterConfig
  pub decoded : p.decode cluster.config ≡ ok config
  pub secret_name : config.name ≢ ""
  pub secret_key : config.key ≢ ""
  pub namespace : String
  pub in_namespace : IsFirstOf config.namespace p.namespace namespace
  pub secret : List (String × Bytes)
  pub read : host.get_secret namespace config.name ≡ ok secret
  pub data_ : Bytes
  pub held : lookup config.key secret ≡ some data_
  pub filled_in : data_ ≢ []
  pub kubeconfig : Kubeconfig
  pub loaded : p.load data_ ≡ ok kubeconfig
  pub user : String × AuthInfo
  pub found : FindsUser config.context kubeconfig user
  pub usable : IsUsable user.1
  pub returned : status ≡ copied user.1

get_token-Resolves :
    (host : Host) (p : Reader) (info : ExecCredential) (status : ExecCredentialStatus)
    → get_token host p info ≡ ok status
    → Resolves host p info status
unfolding get_token
get_token-Resolves host p info status h =
    let (client, h1) = >>-eq-ok (reject_if (not p.has_client) no_client) _ h in
    let (raw, given, h2) = >>=-eq-ok (cluster_config info) _ h1 in
    let (cfg, decoded, h3) = >>=-eq-ok (wrapped invalid_config (p.decode raw)) _ h2 in
    let (named, h4) = >>-eq-ok (reject_if (cfg.name == "") missing_secret_name) _ h3 in
    let (keyed, h5) = >>-eq-ok (reject_if (cfg.key == "") missing_secret_key) _ h4 in
    let namespace = or_else cfg.namespace p.namespace in
    let (data_, read, h6) = >>=-eq-ok (read_secret host namespace cfg) _ h5 in
    let (k, loaded, h7) =
      >>=-eq-ok (wrapped (invalid_kubeconfig namespace cfg.name) (p.load data_)) _ h6 in
    let (found, way, h8) = >>=-eq-ok (find_user cfg.context k) _ h7 in
    let (cluster, of_info, of_cluster, configured) = cluster_config-eq-ok info raw given in
    let (secret, got, held, filled_in) = read_secret-eq-ok host namespace cfg data_ read in
    let (usable, same) = (user_status_iff found.0 found.1 status).0 h8 in
    record {
      has_client = of_not-false _ (reject_if-eq-ok _ _ client);
      cluster = cluster;
      of_info = of_info;
      configured = λ e. configured (sym of_cluster ∙ e);
      config = cfg;
      decoded = ap p.decode of_cluster ∙ wrapped-eq-ok invalid_config (p.decode raw) cfg decoded;
      secret_name = str_eq→ne cfg.name "" (reject_if-eq-ok _ _ named);
      secret_key = str_eq→ne cfg.key "" (reject_if-eq-ok _ _ keyed);
      namespace = namespace;
      in_namespace = or_else-IsFirstOf cfg.namespace p.namespace;
      secret = secret;
      read = got;
      data_ = data_;
      held = held;
      filled_in = filled_in;
      kubeconfig = k;
      loaded = wrapped-eq-ok (invalid_kubeconfig namespace cfg.name) (p.load data_) k loaded;
      user = found;
      found = find_user-FindsUser cfg.context k found way;
      usable = usable;
      returned = same;
    }

Resolves-get_token :
    (host : Host) (p : Reader) (info : ExecCredential) (status : ExecCredentialStatus)
    → Resolves host p info status
    → get_token host p info ≡ ok status
unfolding get_token
Resolves-get_token host p info status r =
    let cfg = r.config in
    let given = held-cluster_config info r.cluster r.of_info r.configured in
    let named = ne→str_eq cfg.name "" r.secret_name in
    let keyed = ne→str_eq cfg.key "" r.secret_key in
    let namespace = or_else_unique cfg.namespace p.namespace r.namespace r.in_namespace in
    let read = held-read_secret host r.namespace cfg r.secret r.data_ r.read r.held r.filled_in in
    let found = FindsUser-find_user cfg.context r.kubeconfig r.user r.found in
    let last = (user_status_iff r.user.0 r.user.1 status).1 (r.usable, r.returned) in
    rw (r.has_client, given, r.decoded, named, keyed, namespace, read, r.loaded, found) last

-- kubeconfig-secretreader returns credentials exactly where there is a client and the following can be
-- resolved, and they are then a copy of the user's. The configuration of the credential's cluster is
-- not empty and decodes to the name of a secret, a key, a namespace (the provider's, where it is
-- empty) and a context; the secret is there and its value under that key, which is not empty, loads as
-- a kubeconfig without extensions; and the user of the context, or else of the current one, is there
-- and usable.
pub get_token_iff :
    (host : Host) (p : Reader) (info : ExecCredential) (status : ExecCredentialStatus)
    → (get_token host p info ≡ ok status) ↔ Resolves host p info status
get_token_iff host p info status =
    (get_token-Resolves host p info status, Resolves-get_token host p info status)
