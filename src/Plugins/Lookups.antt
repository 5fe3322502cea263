-- ===== src/Plugins/Lookups.antt =====
-- Which user of which kubeconfig the credential's configuration leads to, step by step.
use cluster_inventory_api.Common.{
  is_empty-eq-true, of_not-false, ◌≡◌, ◌≢◌, ◌⊎◌, refl, sym, ap, inl, inr, ◌∙◌, String, not, List,
  [], ◌∷◌, Option, none, some, ◌==◌, is_empty, ok, reject_if, >>-eq-ok, >>=-eq-ok, reject_if-eq-ok,
  Bool-cases, Option-cases, ok_injective, err, if◌then◌else◌, str_eq→eq, str_eq→ne, ne→str_eq,
  eq→str_eq, false,
}
use cluster_inventory_api.Plugins.{
  Bytes, ExecCluster, ExecCredential, PluginFault, Host, present, wrapped, missing_config,
  cluster_config, failed_secret, missing_key, unknown_context, unknown_user, kubeconfig_extensions,
  no_context,
}
use cluster_inventory_api.Plugins.KubeconfigReader.{
  KubeContext, AuthInfo, Kubeconfig, or_else, find_user, read_secret, ClusterConfig,
}
use cluster_inventory_api.Plugins.SecretReader.{wrapped-eq-ok, filled-eq-ok}
use cluster_inventory_api.Apis.{lookup}

-- The first text, or the second where the first is empty
abbrev pub IsFirstOf : String → String → String → Type 0
IsFirstOf s d r = ((s ≢ "") × (r ≡ s)) ⊎ ((s ≡ "") × (r ≡ d))

pub or_else-IsFirstOf : (s d : String) → IsFirstOf s d (or_else s d)
or_else-IsFirstOf s d = elim (Bool-cases (s == "")) [
  | inl e ↦ rw e (inr (str_eq→eq s "" e, refl))
  | inr e ↦ rw e (inl (str_eq→ne s "" e, refl))
]

-- The context and the user that a kubeconfig is read by.
pub record FindsUser (wanted : String) (k : Kubeconfig) (found : String × AuthInfo) : Type 0 where
  pub plain : k.extensions ≡ []
  pub context_name : String
  pub asked_for : IsFirstOf wanted k.current_context context_name
  pub is_named : context_name ≢ ""
  pub context : KubeContext
  pub chosen : lookup context_name k.contexts ≡ some context
  pub named : found.0 ≡ context.auth_info
  pub held : lookup context.auth_info k.auth_infos ≡ some found.1

present-eq-ok :
    {A : Type 0} (fault : PluginFault) (m : Option A) (a : A) → present fault m ≡ ok a → m ≡ some a
present-eq-ok fault none a h = cc
present-eq-ok fault (some b) a h = cc

pub find_user-FindsUser :
    (wanted : String) (k : Kubeconfig) (found : String × AuthInfo)
    → find_user wanted k ≡ ok found
    → FindsUser wanted k found
unfolding find_user
find_user-FindsUser wanted k found h =
    let name = or_else wanted k.current_context in
    let (plain, h1) =
      >>-eq-ok (reject_if (not (is_empty k.extensions)) kubeconfig_extensions) _ h in
    let (is_named, h2) = >>-eq-ok (reject_if (name == "") no_context) _ h1 in
    let (context, chosen, h3) =
      >>=-eq-ok (present (unknown_context name) (lookup name k.contexts)) _ h2 in
    let (user, held, h4) =
      >>=-eq-ok (present (unknown_user context.auth_info) (lookup context.auth_info k.auth_infos)) _
        h3 in
    let same : (context.auth_info, user) ≡ found = cc in
    record {
      plain = is_empty-eq-true k.extensions (of_not-false _ (reject_if-eq-ok _ _ plain));
      context_name = name;
      asked_for = or_else-IsFirstOf wanted k.current_context;
      is_named = str_eq→ne name "" (reject_if-eq-ok _ _ is_named);
      context = context;
      chosen = present-eq-ok (unknown_context name) (lookup name k.contexts) context chosen;
      named = sym (ap (λ r. r.0) same);
      held =
          present-eq-ok (unknown_user context.auth_info) (lookup context.auth_info k.auth_infos)
            user held
          ∙ ap (λ (r : String × AuthInfo). some r.1) same;
    }

filled_config :
    (bytes raw : Bytes)
    → (if is_empty bytes then err missing_config else ok bytes) ≡ ok raw
    → (bytes ≡ raw) × (raw ≢ [])
filled_config [] raw h = cc
filled_config (b ∷ rest) raw h = (ok_injective _ raw h, (λ e. cc))

-- Where the cluster of the credential is, and the bytes of its configuration
pub cluster_config-eq-ok :
    (info : ExecCredential) (raw : Bytes)
    → cluster_config info ≡ ok raw
    → (c : ExecCluster) × (info.cluster ≡ some c) × (c.config ≡ raw) × (raw ≢ [])
cluster_config-eq-ok info raw h = elim (Option-cases info.cluster) [
  | inl e ↦ cc (rw e at h)
  | inr (c, e) ↦
      let (same, filled_in) = filled_config c.config raw (rw e at h) in (c, e, same, filled_in)
]

pub read_secret-eq-ok :
    (host : Host) (namespace : String) (cfg : ClusterConfig) (data_ : Bytes)
    → read_secret host namespace cfg ≡ ok data_
    → (secret : List (String × Bytes)) × (host.get_secret namespace cfg.name ≡ ok secret)
      × (lookup cfg.key secret ≡ some data_)
      × (data_ ≢ [])
unfolding read_secret
read_secret-eq-ok host namespace cfg data_ h =
    let (secret, read, last) =
      >>=-eq-ok (wrapped (failed_secret namespace cfg.name) (host.get_secret namespace cfg.name)) _
        h in
    let (held, filled_in) =
      filled-eq-ok (missing_key namespace cfg.name cfg.key) (lookup cfg.key secret) data_ last in
    (
      secret,
      wrapped-eq-ok (failed_secret namespace cfg.name) (host.get_secret namespace cfg.name) secret
          read,
      held,
      filled_in,
    )

pub or_else_unique : (s d r : String) → IsFirstOf s d r → or_else s d ≡ r
or_else_unique s d r (inl (h, e)) = rw (ne→str_eq s "" h) (sym e)
or_else_unique s d r (inr (h, e)) = rw (eq→str_eq s "" h) (sym e)

not_empty : (bytes : Bytes) → bytes ≢ [] → is_empty bytes ≡ false
not_empty [] h = absurd (h refl)
not_empty (b ∷ rest) h = refl

pub FindsUser-find_user :
    (wanted : String) (k : Kubeconfig) (found : String × AuthInfo)
    → FindsUser wanted k found
    → find_user wanted k ≡ ok found
unfolding find_user
FindsUser-find_user wanted k found h =
    let name = or_else_unique wanted k.current_context h.context_name h.asked_for in
    rw (h.plain, name, ne→str_eq h.context_name "" h.is_named, h.chosen, h.held)
      (λ i. ok (sym h.named i, found.1))

pub held-cluster_config :
    (info : ExecCredential) (c : ExecCluster)
    → info.cluster ≡ some c
    → c.config ≢ []
    → cluster_config info ≡ ok c.config
held-cluster_config info c e h = rw (e, not_empty c.config h) refl

pub held-read_secret :
    (host : Host) (namespace : String) (cfg : ClusterConfig) (secret : List (String × Bytes))
    (data_ : Bytes)
    → host.get_secret namespace cfg.name ≡ ok secret
    → lookup cfg.key secret ≡ some data_
    → data_ ≢ []
    → read_secret host namespace cfg ≡ ok data_
unfolding read_secret
held-read_secret host namespace cfg secret data_ read held h =
    rw (read, held, not_empty data_ h) refl
