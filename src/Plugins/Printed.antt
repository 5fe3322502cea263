-- ===== src/Plugins/Printed.antt =====
-- When a plugin prints an ExecCredential, and what it prints.
use cluster_inventory_api.Common.{
  ◌≡◌, ◌≢◌, ◌↔◌, inl, inr, refl, sym, String, false, [], ◌∷◌, ◌++◌, Option, none, some, is_blank,
  Fallible, ok, reject_if, >>-eq-ok, >>=-eq-ok, reject_if-eq-ok, ap, ◌∙◌, Bool-cases, ne→str_eq,
  str_eq→ne, ok_injective,
}
use cluster_inventory_api.Plugins.{
  Bytes, ExecCluster, ExecCredential, ExecCredentialStatus, PrintedCredential, PluginFault,
  empty_name, unreadable_info, missing_server, failed_marshal, Loaded, v1, other_type, Host,
  wrapped, lacks_server, v1_credential, envelope, written_line, read_exec_info, run_plugin,
}
use cluster_inventory_api.Plugins.SecretReader.{wrapped-eq-ok}

-- The provider has a name; the environment holds a v1 credential with a cluster, whose server is
-- neither blank nor the text null; and the line printed is the encoding of an ExecCredential that
-- holds the provider's status for that credential.
pub record Prints (host : Host) (name : String)
    (get_token : ExecCredential → Fallible PluginFault ExecCredentialStatus) (printed : Bytes)
    : Type 0 where
  pub has_name : is_blank name ≡ false
  pub cluster : ExecCluster
  pub loaded : host.exec_info ≡ ok (v1 (record { cluster = some cluster }))
  pub has_server : is_blank cluster.server ≡ false
  pub not_null : cluster.server ≢ "null"
  pub credential : PrintedCredential
  pub version : credential.api_version ≡ host.group_version
  pub kind : credential.kind ≡ "ExecCredential"
  pub given : get_token (record { cluster = some cluster }) ≡ ok credential.status
  pub encoding : Bytes
  pub encoded : host.marshal credential ≡ ok encoding
  pub ended : printed ≡ encoding ++ 10 ∷ []

v1_credential-eq-ok : (l : Loaded) (e : ExecCredential) → v1_credential l ≡ ok e → l ≡ v1 e
v1_credential-eq-ok (v1 d) e h = cc
v1_credential-eq-ok (other_type name) e h = cc

read_exec_info-eq-ok :
    (host : Host) (info : ExecCredential)
    → read_exec_info host ≡ ok info
    → (host.exec_info ≡ ok (v1 info)) × (lacks_server info.cluster ≡ false)
unfolding read_exec_info
read_exec_info-eq-ok host info h =
    let (l, loaded, h1) = >>=-eq-ok (wrapped unreadable_info host.exec_info) _ h in
    let (read, is_v1, h2) = >>=-eq-ok (v1_credential l) _ h1 in
    let (server, same) = >>-eq-ok (reject_if (lacks_server read.cluster) missing_server) _ h2 in
    let e : read ≡ info = ok_injective read info same in
    (
      wrapped-eq-ok unreadable_info host.exec_info l loaded
          ∙ ap ok (v1_credential-eq-ok l read is_v1 ∙ ap v1 e),
      sym (ap (λ (i : ExecCredential). lacks_server i.cluster) e) ∙ reject_if-eq-ok _ _ server,
    )

-- What `lacks_server` says of a cluster
lacks_server-eq-false :
    (cluster : Option ExecCluster)
    → lacks_server cluster ≡ false
    → (c : ExecCluster) × (cluster ≡ some c) × (is_blank c.server ≡ false) × (c.server ≢ "null")
lacks_server-eq-false none h = cc
lacks_server-eq-false (some c) h = elim (Bool-cases (is_blank c.server)) [
  | inl e ↦ cc (rw e at h)
  | inr e ↦ (c, refl, e, str_eq→ne c.server "null" (rw e at h))
]

whole_credential :
    (host : Host) (c : PrintedCredential)
    → c.api_version ≡ host.group_version
    → c.kind ≡ "ExecCredential"
    → c ≡ envelope host c.status
whole_credential host c version kind =
    λ i. record { api_version = version i; kind = kind i; status = c.status }

-- A plugin prints exactly when its provider has a name, KUBERNETES_EXEC_INFO holds a v1 credential
-- with a cluster whose server is neither blank nor null, the provider returns a status for it, and the
-- ExecCredential of the v1 version with that status can be encoded; it then prints that encoding and
-- a newline.
pub run_plugin_iff :
    (host : Host) (name : String)
    (get_token : ExecCredential → Fallible PluginFault ExecCredentialStatus) (printed : Bytes)
    → (run_plugin host name get_token ≡ ok printed) ↔ Prints host name get_token printed
unfolding run_plugin read_exec_info
run_plugin_iff host name get_token printed = (
  (λ h.
      let (named, h1) = >>-eq-ok (reject_if (is_blank name) empty_name) _ h in
      let (info, there, h2) = >>=-eq-ok (read_exec_info host) _ h1 in
      let (status, given, h3) = >>=-eq-ok (get_token info) _ h2 in
      let (bytes, last, end) =
        >>=-eq-ok (wrapped failed_marshal (host.marshal (envelope host status))) _ h3 in
      let (loaded, server) = read_exec_info-eq-ok host info there in
      let (cluster, at_cluster, has_server, not_null) = lacks_server-eq-false info.cluster server in
      let same : info ≡ record { cluster = some cluster } =
        ap (λ c. record { cluster = c }) at_cluster in
      record {
        has_name = reject_if-eq-ok _ _ named;
        cluster = cluster;
        loaded = loaded ∙ ap (λ i. ok (v1 i)) same;
        has_server = has_server;
        not_null = not_null;
        credential = envelope host status;
        version = refl;
        kind = refl;
        given = sym (ap get_token same) ∙ given;
        encoding = bytes;
        encoded = wrapped-eq-ok failed_marshal (host.marshal (envelope host status)) bytes last;
        ended = sym (ok_injective (written_line bytes) printed end);
      }),
  (λ p.
      let encoded =
        ap host.marshal (sym (whole_credential host p.credential p.version p.kind)) ∙ p.encoded in
      let server = ne→str_eq p.cluster.server "null" p.not_null in
      rw (p.has_name, p.loaded, p.has_server, server, p.given, encoded) (ap ok (sym p.ended))),
)
