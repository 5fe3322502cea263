-- ===== src/Clients/Factory.antt =====
-- The shared informer factory: sharedInformerFactory of client/informers/externalversions/factory.go.
-- Each method is one step under the factory's lock; a goroutine's end and the wait of Shutdown are
-- steps of their own.
pub mod Launches
pub mod Shares
use Prim.Native.String.{String}
use cluster_inventory_api.Common.{
  Bool, true, false, List, [], ◌∷◌, ◌++◌, Option, none, some, ◌==◌, if◌then◌else◌, contains,
  is_empty, map, ℤ,
}
use cluster_inventory_api.Apis.{lookup}

-- What newFunc made, with the resync period it was given and the transform set on it.
pub record Informer : Type 0 where
  pub label : String
  pub resync : ℤ
  pub transform : Option String

-- A type of objects is its name; a map is an association list, where a later entry comes first.
-- `running` are the goroutines that the wait group counts, each by its type.
pub record Factory : Type 0 where
  pub namespace : String
  pub tweak_list_options : Option String
  pub default_resync : ℤ
  pub custom_resync : List (String × ℤ)
  pub transform : Option String
  pub informers : List (String × Informer)
  pub started : List String
  pub running : List String
  pub shutting_down : Bool

abbrev pub with_custom_resync_config : List (String × ℤ) → Factory → Factory
with_custom_resync_config config f = record f { custom_resync = config ++ f.custom_resync }

abbrev pub with_tweak_list_options : String → Factory → Factory
with_tweak_list_options tweak f = record f { tweak_list_options = some tweak }

abbrev pub with_namespace : String → Factory → Factory
with_namespace namespace f = record f { namespace = namespace }

abbrev pub with_transform : String → Factory → Factory
with_transform transform f = record f { transform = some transform }

abbrev pub apply_options : List (Factory → Factory) → Factory → Factory
apply_options [] f = f
apply_options (option ∷ rest) f = apply_options rest (option f)

-- NewSharedInformerFactoryWithOptions; v1.NamespaceAll is the empty name.
unfoldable pub new_factory : ℤ → List (Factory → Factory) → Factory
new_factory default_resync options = apply_options options (record {
  namespace = "";
  tweak_list_options = none;
  default_resync = default_resync;
  custom_resync = [];
  transform = none;
  informers = [];
  started = [];
  running = [];
  shutting_down = false;
})

-- The loop of `Start`: the types whose goroutines it begins.
unfoldable pub launch : List String → List (String × Informer) → List String
unfolding contains
launch started [] = []
launch started (entry ∷ rest) =
    let skipped = launch started rest in
    let later = launch (entry.0 ∷ started) rest in
    if contains started entry.0 then skipped else entry.0 ∷ later

unfoldable pub start : Factory → Factory × List String
unfolding launch
start f =
    let new = launch f.started f.informers in
    if f.shutting_down
    then (f, [])
    else (record f { started = new ++ f.started; running = new ++ f.running }, new)

-- The part of `Shutdown` under the lock.
abbrev pub begin_shutdown : Factory → Factory
begin_shutdown f = record f { shutting_down = true }

-- wg.Wait() returns
abbrev pub may_return : Factory → Bool
may_return f = is_empty f.running

-- wg.Done() of one goroutine of a type
unfoldable pub finished : String → List String → List String
finished kind [] = []
finished kind (x ∷ xs) = let later = finished kind xs in if x == kind then xs else x ∷ later

abbrev pub goroutine_ends : String → Factory → Factory
goroutine_ends kind f = record f { running = finished kind f.running }

abbrev pub resync_of : Option ℤ → ℤ → ℤ
resync_of none default_resync = default_resync
resync_of (some period) default_resync = period

-- InformerFor, by what the map has for the type
abbrev pub provided : String → (ℤ → Informer) → Factory → Option Informer → Factory × Informer
provided kind new_func f (some informer) = (f, informer)
provided kind new_func f none =
    let made = new_func (resync_of (lookup kind f.custom_resync) f.default_resync) in
    let informer : Informer = record made { transform = f.transform } in
    (record f { informers = (kind, informer) ∷ f.informers }, informer)

unfoldable pub informer_for : String → (ℤ → Informer) → Factory → Factory × Informer
unfolding lookup
informer_for kind new_func f = provided kind new_func f (lookup kind f.informers)

-- WaitForCacheSync, where `synced` is what cache.WaitForCacheSync answers for an informer.
unfoldable pub wait_for_cache_sync :
    (Informer → Bool) → List String → List (String × Informer) → List (String × Bool)
unfolding contains
wait_for_cache_sync synced started [] = []
wait_for_cache_sync synced started (entry ∷ rest) =
    let later = wait_for_cache_sync synced started rest in
    if contains started entry.0 then (entry.0, synced entry.1) ∷ later else later

-- What the callers and the goroutines do, in the order in which they get the lock.
pub data Action : Type 0 where
  starts : Action
  asks : String → (ℤ → Informer) → Action
  shuts_down : Action
  ends : String → Action

abbrev pub perform : Action → Factory → Factory × List String
perform starts f = start f
perform (asks kind new_func) f = ((informer_for kind new_func f).0, [])
perform shuts_down f = (begin_shutdown f, [])
perform (ends kind) f = (goroutine_ends kind f, [])

-- The factory behind a sequence, and the goroutines begun, by their types.
unfoldable pub perform_all : List Action → Factory → Factory × List String
unfolding start informer_for finished
perform_all [] f = (f, [])
perform_all (a ∷ rest) f =
    let (g, new) = perform a f in let (h, later) = perform_all rest g in (h, new ++ later)
