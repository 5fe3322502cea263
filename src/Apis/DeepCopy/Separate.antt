-- ===== src/Apis/DeepCopy/Separate.antt =====
-- What the parts of a ClusterProfile denote in a memory, for apis/v1alpha2/zz_generated.deepcopy.go.
use mathlib.Core.Path.{◌≡◌, refl}
use cluster_inventory_api.Common.{ℕ, List, Option, length}
use cluster_inventory_api.Apis.{Condition, Property}
use cluster_inventory_api.Apis.DeepCopy.{
  ExtensionShape, ClusterShape, ProviderShape, StatusShape, Slice, ExtensionRef, ClusterRef,
  ProviderRef, StatusRef, Memory, copy_slice, copy_flat, byte_arrays, extension_arrays,
  provider_arrays, condition_arrays, property_arrays, copy_extension, copy_cluster, copy_provider,
  copy_status, ProfileShape, copy_profile,
}
use cluster_inventory_api.Apis.DeepCopy.Layout.{
  Grows, Grows-trans, Layout, IsDeepCopy, flat, flat-IsDeepCopy, slice, slice-IsDeepCopy,
  next-copied,
}

abbrev pub Bytes : Type 0
Bytes = Option (List ℕ)

abbrev pub bytes : Layout Slice Bytes
bytes = slice (flat ℕ) byte_arrays

abbrev pub extension : Layout ExtensionRef (ExtensionShape Bytes)
extension = record {
  shows = λ m k x v. (x.name ≡ v.name) × bytes.shows m k x.raw v.raw;
  grow = λ m n k x v g h. (h.0, bytes.grow m n k x.raw v.raw g h.1);
  lower = λ m j k x v le h. (h.0, bytes.lower m j k x.raw v.raw le h.1);
}

abbrev pub Extensions : Type 0
Extensions = Option (List (ExtensionShape Bytes))

abbrev pub extensions : Layout Slice Extensions
extensions = slice extension extension_arrays

-- The fields that are no slices.
abbrev pub SameCluster : ClusterRef → ClusterShape Bytes Extensions → Type 0
SameCluster x v =
    (x.server ≡ v.server)
    × (x.tls_server_name ≡ v.tls_server_name)
    × (x.insecure_skip_tls_verify ≡ v.insecure_skip_tls_verify)
    × (x.proxy_url ≡ v.proxy_url)
    × (x.disable_compression ≡ v.disable_compression)

abbrev pub ShowsCluster : Memory → ℕ → ClusterRef → ClusterShape Bytes Extensions → Type 0
ShowsCluster m k x v =
    SameCluster x v
    × (bytes.shows m k x.certificate_authority_data v.certificate_authority_data
        × extensions.shows m k x.extensions v.extensions)

abbrev pub cluster : Layout ClusterRef (ClusterShape Bytes Extensions)
cluster = record {
  shows = ShowsCluster;
  grow = λ m n k x v g h. (
    h.0,
    (
      bytes.grow m n k x.certificate_authority_data v.certificate_authority_data g h.1.0,
      extensions.grow m n k x.extensions v.extensions g h.1.1,
    ),
  );
  lower = λ m j k x v le h. (
    h.0,
    (
      bytes.lower m j k x.certificate_authority_data v.certificate_authority_data le h.1.0,
      extensions.lower m j k x.extensions v.extensions le h.1.1,
    ),
  );
}

abbrev pub provider : Layout ProviderRef (ProviderShape Bytes Extensions)
provider = record {
  shows = λ m k x v. (x.name ≡ v.name) × cluster.shows m k x.cluster v.cluster;
  grow = λ m n k x v g h. (h.0, cluster.grow m n k x.cluster v.cluster g h.1);
  lower = λ m j k x v le h. (h.0, cluster.lower m j k x.cluster v.cluster le h.1);
}

abbrev pub conditions : Layout Slice (Option (List Condition))
conditions = slice (flat Condition) condition_arrays

abbrev pub properties : Layout Slice (Option (List Property))
properties = slice (flat Property) property_arrays

abbrev pub providers : Layout Slice (Option (List (ProviderShape Bytes Extensions)))
providers = slice provider provider_arrays

abbrev pub StatusValue : Type 0
StatusValue =
    StatusShape (Option (List Condition)) (Option (List Property))
      (Option (List (ProviderShape Bytes Extensions)))

abbrev pub ShowsStatus : Memory → ℕ → StatusRef → StatusValue → Type 0
ShowsStatus m k x v =
    (x.version ≡ v.version)
    × (conditions.shows m k x.conditions v.conditions
        × (properties.shows m k x.properties v.properties
            × providers.shows m k x.access_providers v.access_providers))

abbrev pub status : Layout StatusRef StatusValue
status = record {
  shows = ShowsStatus;
  grow = λ m n k x v g h. (
    h.0,
    (
      conditions.grow m n k x.conditions v.conditions g h.1.0,
      (
        properties.grow m n k x.properties v.properties g h.1.1.0,
        providers.grow m n k x.access_providers v.access_providers g h.1.1.1,
      ),
    ),
  );
  lower = λ m j k x v le h. (
    h.0,
    (
      conditions.lower m j k x.conditions v.conditions le h.1.0,
      (
        properties.lower m j k x.properties v.properties le h.1.1.0,
        providers.lower m j k x.access_providers v.access_providers le h.1.1.1,
      ),
    ),
  );
}

-- A profile, by what its metadata denotes.
abbrev pub ShowsProfile :
    {M W : Type 0}
    → Layout M W
    → Memory
    → ℕ
    → ProfileShape M StatusRef
    → ProfileShape W StatusValue
    → Type 0
ShowsProfile L m k x v =
    (x.type_meta ≡ v.type_meta)
    × (x.spec ≡ v.spec)
    × (L.shows m k x.metadata v.metadata × ShowsStatus m k x.status v.status)

-- A RawExtension's own DeepCopyInto, which is apimachinery's, is taken to be a deep copy.
module _ (copy_raw : Memory → Slice → Memory × Slice) (deep_raw : IsDeepCopy bytes copy_raw) where
  copy_extension-IsDeepCopy : IsDeepCopy extension (copy_extension copy_raw)
  unfolding copy_extension
  copy_extension-IsDeepCopy m x v h =
      let (g, shown) = deep_raw m x.raw v.raw h.1 in (g, (h.0, shown))

  pub copy_cluster-IsDeepCopy : IsDeepCopy cluster (copy_cluster copy_raw)
  unfolding copy_cluster
  copy_cluster-IsDeepCopy m x v h =
      let copy_data = copy_slice byte_arrays copy_flat in
      let copy_extensions = copy_slice extension_arrays (copy_extension copy_raw) in
      let data_ = x.certificate_authority_data in
      let (m₁, copied) = copy_data m data_ in
      let m₂ = (copy_extensions m₁ x.extensions).0 in
      let (g₁, shown) =
        slice-IsDeepCopy (flat ℕ) byte_arrays copy_flat (flat-IsDeepCopy ℕ) (λ xs. refl) m data_
          v.certificate_authority_data h.1.0 in
      let (g₂, more) =
        next-copied extensions copy_extensions
          (slice-IsDeepCopy extension extension_arrays (copy_extension copy_raw)
            copy_extension-IsDeepCopy (λ xs. refl))
          m m₁ x.extensions v.extensions g₁ h.1.1 in
      (
        Grows-trans m m₁ m₂ g₁ g₂,
        (h.0, (bytes.grow m₁ m₂ (length m) copied v.certificate_authority_data g₂ shown, more)),
      )

  copy_provider-IsDeepCopy : IsDeepCopy provider (copy_provider copy_raw)
  unfolding copy_provider
  copy_provider-IsDeepCopy m x v h =
      let (g, shown) = copy_cluster-IsDeepCopy m x.cluster v.cluster h.1 in (g, (h.0, shown))

  pub copy_status-IsDeepCopy : IsDeepCopy status (copy_status copy_raw)
  unfolding copy_status
  copy_status-IsDeepCopy m x v h =
      let copy_conditions = copy_slice condition_arrays copy_flat in
      let copy_properties = copy_slice property_arrays copy_flat in
      let copy_providers = copy_slice provider_arrays (copy_provider copy_raw) in
      let (m₁, c) = copy_conditions m x.conditions in
      let (m₂, p) = copy_properties m₁ x.properties in
      let m₃ = (copy_providers m₂ x.access_providers).0 in
      let (g₁, s₁) =
        slice-IsDeepCopy (flat Condition) condition_arrays copy_flat (flat-IsDeepCopy Condition)
          (λ xs. refl) m x.conditions v.conditions h.1.0 in
      let (g₂, s₂) =
        next-copied properties copy_properties
          (slice-IsDeepCopy (flat Property) property_arrays copy_flat (flat-IsDeepCopy Property)
            (λ xs. refl))
          m m₁ x.properties v.properties g₁ h.1.1.0 in
      let g : Grows m m₂ = Grows-trans m m₁ m₂ g₁ g₂ in
      let (g₃, s₃) =
        next-copied providers copy_providers
          (slice-IsDeepCopy provider provider_arrays (copy_provider copy_raw)
            copy_provider-IsDeepCopy (λ xs. refl))
          m m₂ x.access_providers v.access_providers g h.1.1.1 in
      (
        Grows-trans m m₂ m₃ g g₃,
        (
          h.0,
          (
            conditions.grow m₁ m₃ (length m) c v.conditions (Grows-trans m₁ m₂ m₃ g₂ g₃) s₁,
            (properties.grow m₂ m₃ (length m) p v.properties g₃ s₂, s₃),
          ),
        ),
      )

  -- ClusterProfile's DeepCopyInto, where those of apimachinery are deep copies, gives a profile that
  -- denotes what its source denotes, through arrays that are all new, down to the extensions of every
  -- access provider, and leaves every array that was there as it was.
  pub copy_profile-Separate :
      {M W : Type 0} (L : Layout M W) (copy_meta : Memory → M → Memory × M)
      → IsDeepCopy L copy_meta
      → (m : Memory) (x : ProfileShape M StatusRef) (v : ProfileShape W StatusValue)
      → ShowsProfile L m 0 x v
      → let (n, y) = copy_profile copy_raw copy_meta m x in
        Grows m n × ShowsProfile L n (length m) y v
  unfolding copy_profile
  copy_profile-Separate L copy_meta deep_meta m x v h =
      let (m₁, y) = copy_meta m x.metadata in
      let m₂ = (copy_status copy_raw m₁ x.status).0 in
      let (g₁, shown) = deep_meta m x.metadata v.metadata h.2.0 in
      let (g₂, inner) =
        next-copied status (copy_status copy_raw) copy_status-IsDeepCopy m m₁ x.status v.status g₁
          h.2.1 in
      (
        Grows-trans m m₁ m₂ g₁ g₂,
        (h.0, h.1, (L.grow m₁ m₂ (length m) y v.metadata g₂ shown, inner)),
      )
