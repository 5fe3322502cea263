-- ===== src/Clients/Tests.antt =====
-- The theorems of the informer factory at a factory with two informers.
use mathlib.Core.Path.{◌≡◌, refl}
use cluster_inventory_api.Common.{
  String, true, false, List, [], ◌∷◌, none, contains, length, ◌≤◌, map, ℤ, pos, All, Distinct,
}
use cluster_inventory_api.Apis.{lookup}
use cluster_inventory_api.Clients.Factory.{
  Informer, Factory, new_factory, with_namespace, start, launch, finished, informer_for, may_return,
  begin_shutdown, Action, starts, asks, shuts_down, ends, perform_all,
}
use cluster_inventory_api.Clients.Factory.Launches.{perform_all-once, begin_shutdown-returns}
use cluster_inventory_api.Clients.Factory.Shares.{informer_for-shares}

abbrev made : String → ℤ → Informer
made label period = record { label = label; resync = period; transform = none }

abbrev factory : Factory
factory = new_factory (pos 30) (with_namespace "fleet" ∷ [])

-- Two types asked for, two starts, an end, and a start behind the shutdown.
abbrev calls : List Action
calls =
    asks "ClusterProfile" (made "profiles")
    ∷ starts
    ∷ asks "PlacementDecision" (made "decisions")
    ∷ starts
    ∷ ends "ClusterProfile"
    ∷ shuts_down
    ∷ starts
    ∷ []

calls_begin : (perform_all calls factory).1 ≡ "ClusterProfile" ∷ "PlacementDecision" ∷ []
unfolding perform_all new_factory start launch informer_for lookup contains finished
calls_begin = refl

perform_all-once_example :
    Distinct (perform_all calls factory).1
    × All (λ k. contains factory.started k ≡ false) (perform_all calls factory).1
perform_all-once_example = perform_all-once calls factory

abbrev busy : Factory
busy = record factory { running = "PlacementDecision" ∷ "ClusterProfile" ∷ [] }

begin_shutdown-returns_example :
    let (g, begun) = perform_all (ends "ClusterProfile" ∷ starts ∷ []) (begin_shutdown busy) in
    (begun ≡ [])
    × (length g.running ≤ 2)
    × (may_return (perform_all (map ends g.running) g).0 ≡ true)
begin_shutdown-returns_example = begin_shutdown-returns busy (ends "ClusterProfile" ∷ starts ∷ [])

informer_for-shares_example :
    (informer_for "ClusterProfile"
      (made "other")
      (perform_all calls (informer_for "ClusterProfile" (made "profiles") factory).0).0).1
    ≡ (informer_for "ClusterProfile" (made "profiles") factory).1
informer_for-shares_example =
    informer_for-shares "ClusterProfile" (made "profiles") (made "other") factory calls
