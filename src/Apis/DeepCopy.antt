-- ===== src/Apis/DeepCopy.antt =====
-- The generated deep copies of apis/v1alpha2/zz_generated.deepcopy.go. A slice is nil or the address of
-- an array; an address is a position in the memory, and make allocates at its end.
pub mod Layout
pub mod Separate
use cluster_inventory_api.Common.{
  ℕ, zero, suc, String, Bool, List, [], ◌∷◌, ◌++◌, Option, none, some, length,
}
use cluster_inventory_api.Apis.{Condition, Property, ClusterVersion, ClusterProfileSpec}

-- The structs, by what their slices are: addresses in the memory, or the lists that they denote.
pub record ExtensionShape (Bytes : Type 0) : Type 0 where
  pub name : String
  pub raw : Bytes

pub record ClusterShape (Bytes Extensions : Type 0) : Type 0 where
  pub server : String
  pub tls_server_name : String
  pub insecure_skip_tls_verify : Bool
  pub certificate_authority_data : Bytes
  pub proxy_url : String
  pub disable_compression : Bool
  pub extensions : Extensions

pub record ProviderShape (Bytes Extensions : Type 0) : Type 0 where
  pub name : String
  pub cluster : ClusterShape Bytes Extensions

pub record StatusShape (Conditions Properties Providers : Type 0) : Type 0 where
  pub conditions : Conditions
  pub version : ClusterVersion
  pub properties : Properties
  pub access_providers : Providers

abbrev pub Slice : Type 0
Slice = Option ℕ

abbrev pub ExtensionRef : Type 0
ExtensionRef = ExtensionShape Slice

abbrev pub ClusterRef : Type 0
ClusterRef = ClusterShape Slice Slice

abbrev pub ProviderRef : Type 0
ProviderRef = ProviderShape Slice Slice

abbrev pub StatusRef : Type 0
StatusRef = StatusShape Slice Slice Slice

-- A ClusterProfile; its type's kind and version are flat, its metadata is apimachinery's.
pub record ProfileShape (Meta Inner : Type 0) : Type 0 where
  pub type_meta : String × String
  pub metadata : Meta
  pub spec : ClusterProfileSpec
  pub status : Inner

-- An array of structs; a struct is stored with its slices.
pub data Cell : Type 0 where
  byte_cells : List ℕ → Cell
  extension_cells : List ExtensionRef → Cell
  provider_cells : List ProviderRef → Cell
  condition_cells : List Condition → Cell
  property_cells : List Property → Cell

abbrev pub Memory : Type 0
Memory = List Cell

unfoldable pub fetch : Memory → ℕ → Option Cell
fetch [] a = none
fetch (c ∷ rest) zero = some c
fetch (c ∷ rest) (suc a) = fetch rest a

-- How the arrays of one type of elements are stored.
pub record Arrays (A : Type 0) : Type 0 where
  pub elements : Cell → Option (List A)
  pub make : List A → Cell

abbrev pub array_at : {A : Type 0} → Arrays A → Option Cell → Option (List A)
array_at arrays none = none
array_at arrays (some c) = arrays.elements c

-- for i := range *in { (*in)[i].DeepCopyInto(&(*out)[i]) }
unfoldable pub copy_all :
    {A : Type 0} → (Memory → A → Memory × A) → Memory → List A → Memory × List A
copy_all copy m [] = (m, [])
copy_all copy m (x ∷ xs) =
    let (m₁, y) = copy m x in let (m₂, ys) = copy_all copy m₁ xs in (m₂, y ∷ ys)

abbrev pub stored : {A : Type 0} → Arrays A → Memory × List A → Memory × Slice
stored arrays (m, ys) = (m ++ arrays.make ys ∷ [], some (length m))

abbrev pub copy_array :
    {A : Type 0}
    → Arrays A
    → (Memory → A → Memory × A)
    → Memory
    → Slice
    → Option (List A)
    → Memory × Slice
copy_array arrays copy m s none = (m, s)
copy_array arrays copy m s (some xs) = stored arrays (copy_all copy m xs)

-- if in.F != nil { *out = make(...); ... }; the array is stored with its elements in.
unfoldable pub copy_slice :
    {A : Type 0} → Arrays A → (Memory → A → Memory × A) → Memory → Slice → Memory × Slice
unfolding fetch copy_all
copy_slice arrays copy m none = (m, none)
copy_slice arrays copy m (some a) = copy_array arrays copy m (some a) (array_at arrays (fetch m a))

-- *out = *in
abbrev pub copy_flat : {A : Type 0} → Memory → A → Memory × A
copy_flat m x = (m, x)

abbrev pub byte_arrays : Arrays ℕ
byte_arrays = record {
  elements = λ c. elim c [ byte_cells xs ↦ some xs | _ ↦ none ];
  make = byte_cells;
}

abbrev pub extension_arrays : Arrays ExtensionRef
extension_arrays = record {
  elements = λ c. elim c [ extension_cells xs ↦ some xs | _ ↦ none ];
  make = extension_cells;
}

abbrev pub provider_arrays : Arrays ProviderRef
provider_arrays = record {
  elements = λ c. elim c [ provider_cells xs ↦ some xs | _ ↦ none ];
  make = provider_cells;
}

abbrev pub condition_arrays : Arrays Condition
condition_arrays = record {
  elements = λ c. elim c [ condition_cells xs ↦ some xs | _ ↦ none ];
  make = condition_cells;
}

abbrev pub property_arrays : Arrays Property
property_arrays = record {
  elements = λ c. elim c [ property_cells xs ↦ some xs | _ ↦ none ];
  make = property_cells;
}

-- `copy_raw` is apimachinery's DeepCopyInto of a runtime.RawExtension, by the address of its bytes.
module _ (copy_raw : Memory → Slice → Memory × Slice) where
  unfoldable pub copy_extension : Memory → ExtensionRef → Memory × ExtensionRef
  copy_extension m x = let (m₁, raw) = copy_raw m x.raw in (m₁, record x { raw = raw })

  unfoldable pub copy_cluster : Memory → ClusterRef → Memory × ClusterRef
  unfolding copy_slice copy_extension
  copy_cluster m x =
      let (m₁, data_) = copy_slice byte_arrays copy_flat m x.certificate_authority_data in
      let (m₂, extensions) = copy_slice extension_arrays copy_extension m₁ x.extensions in
      (m₂, record x { certificate_authority_data = data_; extensions = extensions })

  unfoldable pub copy_provider : Memory → ProviderRef → Memory × ProviderRef
  unfolding copy_cluster
  copy_provider m x =
      let (m₁, cluster) = copy_cluster m x.cluster in (m₁, record x { cluster = cluster })

  unfoldable pub copy_status : Memory → StatusRef → Memory × StatusRef
  unfolding copy_slice copy_provider
  copy_status m x =
      let (m₁, conditions) = copy_slice condition_arrays copy_flat m x.conditions in
      let (m₂, properties) = copy_slice property_arrays copy_flat m₁ x.properties in
      let (m₃, providers) = copy_slice provider_arrays copy_provider m₂ x.access_providers in
      (
        m₃,
        record x { conditions = conditions; properties = properties; access_providers = providers },
      )

  -- `copy_meta` is apimachinery's DeepCopyInto of an ObjectMeta.
  unfoldable pub copy_profile :
      {M : Type 0}
      → (Memory → M → Memory × M)
      → Memory
      → ProfileShape M StatusRef
      → Memory × ProfileShape M StatusRef
  unfolding copy_status
  copy_profile copy_meta m x =
      let (m₁, metadata) = copy_meta m x.metadata in
      let (m₂, status) = copy_status m₁ x.status in
      (m₂, record x { metadata = metadata; status = status })
