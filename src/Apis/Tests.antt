-- ===== src/Apis/Tests.antt =====
-- The deep copy of a profile with one access provider, whose cluster has one extension.
use mathlib.Core.Path.{refl}
use native.Mathlib.Omega.{arith}
use cluster_inventory_api.Common.{ℕ, String, false, [], ◌∷◌, none, some}
use cluster_inventory_api.Apis.DeepCopy.{
  ClusterShape, Slice, StatusRef, ProfileShape, Memory, fetch, byte_cells, extension_cells,
  provider_cells, copy_slice, copy_flat, byte_arrays, copy_profile,
}
use cluster_inventory_api.Apis.DeepCopy.Layout.{
  Grows, IsDeepCopy, flat, flat-IsDeepCopy, slice-IsDeepCopy,
}
use cluster_inventory_api.Apis.DeepCopy.Separate.{
  bytes, extensions, StatusValue, ShowsProfile, copy_profile-Separate,
}

abbrev copy_raw : Memory → Slice → Memory × Slice
copy_raw = copy_slice byte_arrays copy_flat

copy_raw-IsDeepCopy : IsDeepCopy bytes copy_raw
copy_raw-IsDeepCopy =
    slice-IsDeepCopy (flat ℕ) byte_arrays copy_flat (flat-IsDeepCopy ℕ) (λ xs. refl)

abbrev cluster : {B E : Type 0} → B → E → ClusterShape B E
cluster data_ extensions = record {
  server = "https://hub:6443";
  tls_server_name = "";
  insecure_skip_tls_verify = false;
  certificate_authority_data = data_;
  proxy_url = "";
  disable_compression = false;
  extensions = extensions;
}

abbrev memory : Memory
memory =
    byte_cells (1 ∷ 2 ∷ [])
    ∷ extension_cells (record { name = "e"; raw = some 0 } ∷ [])
    ∷ provider_cells (record { name = "p"; cluster = cluster none (some 1) } ∷ [])
    ∷ []

abbrev profile : {S : Type 0} → S → ProfileShape String S
profile inner = record {
  type_meta = ("multicluster.x-k8s.io/v1alpha2", "ClusterProfile");
  metadata = "west";
  spec = record { display_name = "west"; cluster_manager = record { name = "hub" } };
  status = inner;
}

abbrev held : StatusRef
held = record {
  conditions = none;
  version = record { kubernetes = "v1.33.0" };
  properties = none;
  access_providers = some 2;
}

abbrev value : StatusValue
value = record {
  conditions = none;
  version = record { kubernetes = "v1.33.0" };
  properties = none;
  access_providers = some (
      record {
        name = "p";
        cluster = cluster none (some (record { name = "e"; raw = some (1 ∷ 2 ∷ []) } ∷ []));
      }
      ∷ []);
}

raw-shows : bytes.shows memory 0 (some 0) (some (1 ∷ 2 ∷ []))
unfolding fetch
raw-shows = (_, _, _, omega arith, refl, refl, refl, (refl, (refl, tt)))

extensions-shows :
    extensions.shows memory 0 (some 1) (some (record { name = "e"; raw = some (1 ∷ 2 ∷ []) } ∷ []))
unfolding fetch
extensions-shows = (_, _, _, omega arith, refl, refl, refl, ((refl, raw-shows), tt))

memory-shows : ShowsProfile (flat String) memory 0 (profile held) (profile value)
unfolding fetch
memory-shows = (
  refl,
  refl,
  (
    refl,
    (
      refl,
      (
        refl,
        (
          refl,
          (
            _,
            _,
            _,
            omega arith,
            refl,
            refl,
            refl,
            ((refl, ((refl, refl, refl, refl, refl), (refl, extensions-shows))), tt),
          ),
        ),
      ),
    ),
  ),
)

copy_profile-Separate_example :
    let (n, y) = copy_profile copy_raw copy_flat memory (profile held) in
    Grows memory n × ShowsProfile (flat String) n 3 y (profile value)
copy_profile-Separate_example =
    copy_profile-Separate copy_raw copy_raw-IsDeepCopy (flat String) copy_flat
      (flat-IsDeepCopy String) memory (profile held) (profile value) memory-shows
