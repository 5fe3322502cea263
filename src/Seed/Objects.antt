-- ===== src/Seed/Objects.antt =====
-- The seeding of an inventory: run and seedClusterProfile of hack/conformance-seed/main.go, over a
-- server whose objects are one namespace's.
use cluster_inventory_api.Common.{
  ℕ, zero, suc, ◌+◌, String, Bool, false, List, [], ◌∷◌, Option, none, some, ◌==◌, if◌then◌else◌,
  concat, decimal, ℤ, pos, negsuc, Fallible, ok, err,
}
use cluster_inventory_api.Apis.{
  Condition, ClusterProfile, label_cluster_manager_key, label_inventory_member_id_key,
}
use cluster_inventory_api.Seed.{object_name}

-- What a Create answers when it fails.
pub record CreateFault : Type 0 where
  pub text : String
  pub already_exists : Bool

-- The calls of the server for one namespace.
pub record Server : Type 1 where
  pub State : Type 0
  pub create_namespace : State → State × Option CreateFault
  pub create : State → ClusterProfile → State × Fallible CreateFault ClusterProfile
  pub get : State → String → Fallible String ClusterProfile
  pub update_status : State → ClusterProfile → State × Fallible String (Unit {0})

-- strings.ToLower, the clock, and apimachinery's SetStatusCondition.
pub record Tools : Type 0 where
  pub lower : String → String
  pub now : String
  pub set_condition : List Condition → Condition → List Condition

pub data SeedFault : Type 0 where
  negative_clusters : ℤ → SeedFault
  failed_namespace : String → SeedFault
  other_manager : String → String → SeedFault
  failed_create failed_status : String → String → SeedFault

unfoldable pub new_profile : Tools → String → ℕ → ClusterProfile
new_profile t manager index =
    let name = object_name t.lower manager index in
    record {
      metadata = record {
        namespace = "";
        name = name;
        uid = "";
        resource_version = "";
        labels =
            (label_cluster_manager_key, manager)
            ∷ (label_inventory_member_id_key, concat (name ∷ "-id" ∷ []))
            ∷ [];
      };
      spec = record { display_name = name; cluster_manager = record { name = manager } };
      status = record {
        conditions = [];
        version = record { kubernetes = "" };
        properties = [];
        access_providers = [];
      };
    }

abbrev pub healthy : Condition
healthy = record {
  type = "ControlPlaneHealthy";
  status = "True";
  reason = "AsExpected";
  message = "control plane is healthy";
}

abbrev pub joined : Condition
joined = record {
  type = "Joined";
  status = "True";
  reason = "ClusterRegistered";
  message = "cluster is under management";
}

-- created.Status as the source fills it
unfoldable pub with_status : Tools → String → ℕ → ClusterProfile → ClusterProfile
unfolding decimal concat
with_status t name index created = record created {
  status = record (created.status) {
    version = record { kubernetes = "v1.35.0" };
    properties =
        record {
          name = "location";
          value = concat ("region-" ∷ decimal index ∷ []);
          last_observed_time = t.now;
        }
        ∷ [];
    access_providers =
        record {
          name = "sample-kubeconfig";
          cluster = record {
            server = concat ("https://" ∷ name ∷ ".example.com:6443" ∷ []);
            tls_server_name = "";
            insecure_skip_tls_verify = false;
            certificate_authority_data = [];
            proxy_url = "";
            disable_compression = false;
            extensions = none;
          };
        }
        ∷ [];
    conditions = t.set_condition (t.set_condition created.status.conditions healthy) joined;
  };
}

-- What `created` and `err` hold behind the Create, and the Get where the object is there already.
abbrev pub reused :
    String → String → Fallible String ClusterProfile → Fallible SeedFault ClusterProfile
reused manager name (err text) = err (failed_create name text)
reused manager name (ok found) =
    if found.spec.cluster_manager.name == manager
    then ok found
    else err (other_manager name found.spec.cluster_manager.name)

module _ (S : Server) where
  abbrev pub owned :
      String
      → String
      → S.State
      → Fallible CreateFault ClusterProfile
      → Fallible SeedFault ClusterProfile
  owned manager name s (ok created) = ok created
  owned manager name s (err e) =
      if e.already_exists
      then reused manager name (S.get s name)
      else err (failed_create name e.text)

  abbrev pub status_result : String → Fallible String (Unit {0}) → Fallible SeedFault (Unit {0})
  status_result name (ok u) = ok u
  status_result name (err text) = err (failed_status name text)

  abbrev pub fill :
      Tools
      → String
      → ℕ
      → S.State
      → Fallible SeedFault ClusterProfile
      → S.State × Fallible SeedFault (Unit {0})
  fill t name index s (err fault) = (s, err fault)
  fill t name index s (ok created) =
      let answer = S.update_status s (with_status t name index created) in
      (answer.0, status_result name answer.1)

  unfoldable pub seed_cluster_profile :
      Tools → String → ℕ → S.State → S.State × Fallible SeedFault (Unit {0})
  unfolding new_profile with_status
  seed_cluster_profile t manager index s =
      let name = object_name t.lower manager index in
      let answer = S.create s (new_profile t manager index) in
      fill t name index answer.0 (owned manager name answer.0 answer.1)

  -- The loop of `run`: so many objects, from an index on.
  unfoldable pub seed_from :
      Tools → String → ℕ → ℕ → S.State → S.State × Fallible SeedFault (Unit {0})
  unfolding seed_cluster_profile
  seed_from t manager zero index s = (s, ok tt)
  seed_from t manager (suc n) index s =
      let answer = seed_cluster_profile t manager index s in
      let later = seed_from t manager n (index + 1) answer.0 in
      elim answer.1 [ err fault ↦ (answer.0, err fault) | ok u ↦ later ]

  abbrev pub namespace_fault : Option CreateFault → Option String
  namespace_fault none = none
  namespace_fault (some e) = if e.already_exists then none else some e.text

  abbrev pub seed_namespace :
      Tools → String → ℕ → S.State → Option String → S.State × Fallible SeedFault (Unit {0})
  seed_namespace t manager n s (some text) = (s, err (failed_namespace text))
  seed_namespace t manager n s none = seed_from t manager n 1 s

  -- `run` behind the making of the clients
  unfoldable pub seed : Tools → String → ℤ → S.State → S.State × Fallible SeedFault (Unit {0})
  unfolding seed_from
  seed t manager (negsuc n) s = (s, err (negative_clusters (negsuc n)))
  seed t manager (pos n) s =
      let answer = S.create_namespace s in
      seed_namespace t manager n answer.0 (namespace_fault answer.1)
