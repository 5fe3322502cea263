-- ===== src/Seed/Tests.antt =====
-- A manager's name with underscores at its ends and a dot inside.
use cluster_inventory_api.Common.{
  Option, [], ◌∷◌, none, some, ok, err, pos, eq_refl, concat, decimal, if◌then◌else◌, ◌==◌, arith,
  String, ◌≡◌, refl, sym, subst,
}
use cluster_inventory_api.Apis.{ClusterProfile}
use cluster_inventory_api.Common.{any}
use cluster_inventory_api.Conformance.Checks.{has_condition}
use cluster_inventory_api.Seed.Objects.{
  CreateFault, Tools, other_manager, new_profile, with_status, seed_cluster_profile, seed_from,
  seed,
}
use cluster_inventory_api.Seed.Owned.{seed-keeps}
use cluster_inventory_api.Seed.Conforms.{
  SetsConditions, TellsExisting, LabelsMean, seed_cluster_profile-passed,
}
use cluster_inventory_api.Seed.Checked.{status_requirements, PassesAll}
use cluster_inventory_api.Seed.Memory.{Objects, make, read, memory, memory-IsLawful}
use cluster_inventory_api.Seed.{
  object_name, object_name_prefix, dashed, cut, trim_left_dashes, trim_right_dashes,
}
use cluster_inventory_api.Seed.Prefix.{IsLabel, object_name_prefix-IsLabel}

abbrev lower : String → String
lower s = s

named : object_name_prefix lower "_hub.v1_" ≡ "hub-v1"
unfolding object_name_prefix dashed cut trim_left_dashes trim_right_dashes
named = refl

object_name_prefix-IsLabel_example : IsLabel 40 (object_name_prefix lower "_hub.v1_")
object_name_prefix-IsLabel_example = object_name_prefix-IsLabel lower "_hub.v1_"

abbrev tools : Tools
tools = record { lower = lower; now = "now"; set_condition = λ cs c. c ∷ cs }

tools-SetsConditions : SetsConditions tools
unfolding has_condition any
tools-SetsConditions = record {
  sets = λ cs c. rw (eq_refl c.type) refl;
  keeps = λ cs c type h. ground (arith, h);
}

-- An object of another manager, whose name is that of the first object of "hub.".
abbrev theirs : ClusterProfile
theirs = record {
  metadata = record {
    namespace = "";
    name = "hub-cluster-1";
    uid = "";
    resource_version = "";
    labels = [];
  };
  spec = record { display_name = ""; cluster_manager = record { name = "hub" } };
  status = record {
    conditions = [];
    version = record { kubernetes = "" };
    properties = [];
    access_providers = [];
  };
}

abbrev taken : Objects
taken n = if n == "hub-cluster-1" then some theirs else none

abbrev empty : Objects
empty n = none

seed-keeps_example :
    memory.get (seed memory tools "hub." (pos 2) taken).0 "hub-cluster-1" ≡ ok theirs
seed-keeps_example =
    seed-keeps memory memory-IsLawful tools "hub." (pos 2) taken "hub-cluster-1" theirs refl
      (λ e. cc)

-- The name is taken, and the call says so.
refused : (seed memory tools "hub." (pos 2) taken).1 ≡ err (other_manager "hub-cluster-1" "hub")
unfolding seed seed_from seed_cluster_profile new_profile with_status object_name object_name_prefix
    dashed cut trim_left_dashes trim_right_dashes concat decimal
refused = refl

seeded : (seed_cluster_profile memory tools "hub" 1 empty).1 ≡ ok tt
unfolding seed_cluster_profile object_name
seeded = refl

created-exists :
    (s : Objects) (p : ClusterProfile) (e : CreateFault) (m : Option ClusterProfile)
    → s p.metadata.name ≡ m
    → (make s p m).1 ≡ err e
    → (o : ClusterProfile) × (read p.metadata.name (s p.metadata.name) ≡ ok o)
created-exists s p e none at_name h = cc
created-exists s p e (some o) at_name h =
    subst (λ m. (x : ClusterProfile) × (read p.metadata.name m ≡ ok x)) (sym at_name) (_, refl)

memory-TellsExisting : TellsExisting memory
memory-TellsExisting = record {
  tells = λ s p e h k. created-exists s p e (s p.metadata.name) refl h;
}

seed_cluster_profile-passed_example :
    let name = object_name lower "hub" 1 in
    (o : ClusterProfile) × (memory.get (seed_cluster_profile memory tools "hub" 1 empty).0 name
      ≡ ok o)
    × (o.spec.cluster_manager.name ≡ "hub")
    × PassesAll status_requirements o
    × LabelsMean memory "hub" empty name o
seed_cluster_profile-passed_example =
    seed_cluster_profile-passed memory memory-IsLawful tools tools-SetsConditions "hub"
      memory-TellsExisting 1 empty seeded

-- The object is there and has no labels: it is filled, and its labels stay as they are.
refilled : (seed_cluster_profile memory tools "hub" 1 taken).1 ≡ ok tt
unfolding seed_cluster_profile object_name object_name_prefix dashed cut trim_left_dashes
    trim_right_dashes concat decimal new_profile with_status
refilled = refl
