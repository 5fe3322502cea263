-- ===== src/Clients/Factory/Shares.antt =====
-- InformerFor and WaitForCacheSync of client/informers/externalversions/factory.go.
use Prim.Native.String.{String}
use mathlib.Core.Path.{◌≡◌, refl, sym, subst, ap, ◌∙◌}
use mathlib.Core.Logic.{inl, inr}
use native.Mathlib.Omega.{arith}
use text.Mathlib.TextEquality.{eq_iff}
use text.Mathlib.TextPositions.{eq_refl}
use cluster_inventory_api.Common.{
  Bool, true, false, List, [], ◌∷◌, ◌++◌, ◌==◌, if◌then◌else◌, contains, Bool-cases, map, ◌||◌, All,
  All-weaken, ℤ, Option, none, some,
}
use cluster_inventory_api.Clients.Factory.{
  Informer, Factory, launch, start, Action, starts, asks, shuts_down, ends, perform, perform_all,
  informer_for, provided, wait_for_cache_sync,
}
use cluster_inventory_api.Apis.{lookup}

-- The factory has the informer for the type.
abbrev Has : String → Informer → Factory → Type 0
Has kind i f = lookup kind f.informers ≡ some i

start-informers : (f : Factory) → (start f).0.informers ≡ f.informers
unfolding start
start-informers f = elim (Bool-cases f.shutting_down) [ inl t ↦ rw t refl | inr t ↦ rw t refl ]

provided-Has :
    (kind other : String) (new_func : ℤ → Informer) (f : Factory) (known : Option Informer)
    (i : Informer)
    → lookup other f.informers ≡ known
    → Has kind i f
    → Has kind i (provided other new_func f known).0
unfolding lookup
provided-Has kind other new_func f (some j) i e h = h
provided-Has kind other new_func f none i e h = elim (Bool-cases (other == kind)) [
  | inl t ↦ cc (e, h, (eq_iff other kind).0 t)
  | inr t ↦ rw t h
]

perform-Has :
    (a : Action) (f : Factory) (kind : String) (i : Informer)
    → Has kind i f
    → Has kind i (perform a f).0
unfolding informer_for
perform-Has starts f kind i h = ap (lookup kind) (start-informers f) ∙ h
perform-Has (asks other new_func) f kind i h =
    provided-Has kind other new_func f (lookup other f.informers) i refl h
perform-Has shuts_down f kind i h = h
perform-Has (ends k) f kind i h = h

perform_all-Has :
    (acts : List Action) (f : Factory) (kind : String) (i : Informer)
    → Has kind i f
    → Has kind i (perform_all acts f).0
unfolding perform_all
perform_all-Has [] f kind i h = h
perform_all-Has (a ∷ rest) f kind i h =
    perform_all-Has rest (perform a f).0 kind i (perform-Has a f kind i h)

provided-gives :
    (kind : String) (new_func : ℤ → Informer) (f : Factory) (known : Option Informer)
    → lookup kind f.informers ≡ known
    → Has kind (provided kind new_func f known).1 (provided kind new_func f known).0
unfolding lookup
provided-gives kind new_func f (some j) e = e
provided-gives kind new_func f none e = rw (eq_refl kind) refl

provided-known :
    (kind : String) (new_func : ℤ → Informer) (f : Factory) (known : Option Informer) (i : Informer)
    → known ≡ some i
    → (provided kind new_func f known).1 ≡ i
provided-known kind new_func f (some j) i e = cc
provided-known kind new_func f none i e = cc

-- Every call of InformerFor for one type gives the same informer, whatever constructor it brings and
-- whatever happens in between.
pub informer_for-shares :
    (kind : String) (first second : ℤ → Informer) (f : Factory) (acts : List Action)
    → (informer_for kind second (perform_all acts (informer_for kind first f).0).0).1
      ≡ (informer_for kind first f).1
unfolding informer_for
informer_for-shares kind first second f acts =
    let (g, i) = informer_for kind first f in
    let later = (perform_all acts g).0 in
    provided-known kind second later (lookup kind later.informers) i
      (perform_all-Has acts g kind i (provided-gives kind first f (lookup kind f.informers) refl))

contains-append :
    (xs ys : List String) (a : String) → contains (xs ++ ys) a ≡ (contains xs a || contains ys a)
unfolding contains
contains-append [] ys a = refl
contains-append (x ∷ xs) ys a = ground (arith, contains-append xs ys a)

-- The entry's type has been started.
abbrev Covers : List String → String × Informer → Type 0
Covers started e = contains started e.0 ≡ true

moved :
    (x : String) (new seen : List String) (e : String × Informer)
    → Covers (new ++ x ∷ seen) e
    → Covers (x ∷ new ++ seen) e
unfolding contains
moved x new seen e h =
    ground (arith, contains-append new (x ∷ seen) e.0, contains-append new seen e.0)

launch-skips :
    (seen : List String) (e : String × Informer) (es : List (String × Informer))
    → contains seen e.0 ≡ true
    → launch seen (e ∷ es) ≡ launch seen es
unfolding launch
launch-skips seen e es h = rw h refl

launch-takes :
    (seen : List String) (e : String × Informer) (es : List (String × Informer))
    → contains seen e.0 ≡ false
    → launch seen (e ∷ es) ≡ e.0 ∷ launch (e.0 ∷ seen) es
unfolding launch
launch-takes seen e es h = rw h refl

first-Covers : (e : String × Informer) (new seen : List String) → Covers (e.0 ∷ new ++ seen) e
unfolding contains
first-Covers e new seen = ground (arith, eq_refl e.0)

seen-Covers :
    (e : String × Informer) (new seen : List String) → Covers seen e → Covers (new ++ seen) e
seen-Covers e new seen h = ground (arith, contains-append new seen e.0)

launch-Covers :
    (seen : List String) (es : List (String × Informer)) → All (Covers (launch seen es ++ seen)) es
launch-Covers seen [] = tt
launch-Covers seen (e ∷ es) = elim (Bool-cases (contains seen e.0)) [
  | inl t ↦
      subst (λ new. All (Covers (new ++ seen)) (e ∷ es)) (sym (launch-skips seen e es t))
        (seen-Covers e (launch seen es) seen t, launch-Covers seen es)
  | inr t ↦
      let new = launch (e.0 ∷ seen) es in
      subst (λ new. All (Covers (new ++ seen)) (e ∷ es)) (sym (launch-takes seen e es t))
        (
          first-Covers e new seen,
          All-weaken _ _ (λ x h. moved e.0 new seen x h) es (launch-Covers (e.0 ∷ seen) es),
        )
]

synced-All :
    (synced : Informer → Bool) (started : List String) (es : List (String × Informer))
    → All (Covers started) es
    → wait_for_cache_sync synced started es ≡ map (λ (e : String × Informer). (e.0, synced e.1)) es
unfolding wait_for_cache_sync
synced-All synced started [] h = refl
synced-All synced started (e ∷ es) (h, hs) =
    rw h (ap ((e.0, synced e.1) ∷◌) (synced-All synced started es hs))

start-begun :
    (f : Factory)
    → f.shutting_down ≡ false
    → start f ≡ (
        let new = launch f.started f.informers in
        (record f { started = new ++ f.started; running = new ++ f.running }, new))
unfolding start
start-begun f h =
    let new = launch f.started f.informers in
    ap
      (λ b.
        if b
        then (f, [])
        else (record f { started = new ++ f.started; running = new ++ f.running }, new))
      h

-- Behind a Start of a factory that is not shutting down, WaitForCacheSync waits for every informer the
-- factory has, each once, and answers for each whether it synced.
pub wait_for_cache_sync_complete :
    (synced : Informer → Bool) (f : Factory)
    → f.shutting_down ≡ false
    → (let g = (start f).0 in wait_for_cache_sync synced g.started g.informers)
      ≡ map (λ (e : String × Informer). (e.0, synced e.1)) f.informers
wait_for_cache_sync_complete synced f h =
    ap (λ (s : Factory × List String). wait_for_cache_sync synced s.0.started s.0.informers)
      (start-begun f h)
    ∙ synced-All synced _ f.informers (launch-Covers f.started f.informers)
