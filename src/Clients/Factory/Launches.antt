-- ===== src/Clients/Factory/Launches.antt =====
-- Start and Shutdown of client/informers/externalversions/factory.go over every interleaving.
use Prim.Native.String.{String}
use mathlib.Core.Path.{◌≡◌, refl, sym, subst, ap}
use mathlib.Core.Logic.{◌≢◌, inl, inr}
use native.Mathlib.Omega.{arith}
use text.Mathlib.TextEquality.{eq_iff}
use text.Mathlib.TextPositions.{eq_refl}
use cluster_inventory_api.Common.{
  true, false, List, [], ◌∷◌, ◌++◌, ◌==◌, if◌then◌else◌, contains, All, All-append, All-weaken,
  Distinct, Bool-cases, length, map, is_empty, ◌≤◌, ℤ, Option, none, some,
}
use cluster_inventory_api.Clients.Factory.{
  Informer, Factory, launch, start, begin_shutdown, finished, goroutine_ends, Action, starts, asks,
  shuts_down, ends, perform, perform_all, informer_for, may_return, provided,
}
use cluster_inventory_api.Apis.{lookup}

-- Texts of which none occurs twice and none has been seen.
abbrev Fresh : List String → List String → Type 0
Fresh seen log = Distinct log × All (λ k. contains seen k ≡ false) log

unseen :
    (x k : String) (seen : List String)
    → contains (x ∷ seen) k ≡ false
    → (k ≢ x) × (contains seen k ≡ false)
unfolding contains
unseen x k seen h =
    let other : (x == k) ≡ false = ground arith in
    ((λ e. cc ((eq_iff x k).1 (sym e), other)), ground arith)

launch-Fresh : (seen : List String) (es : List (String × Informer)) → Fresh seen (launch seen es)
unfolding launch
launch-Fresh seen [] = (tt, tt)
launch-Fresh seen (e ∷ es) = elim (Bool-cases (contains seen e.0)) [
  | inl t ↦ rw t (launch-Fresh seen es)
  | inr t ↦
      let (new, later) = launch-Fresh (e.0 ∷ seen) es in
      rw t (
        (All-weaken _ _ (λ k h. (unseen e.0 k seen h).0) _ later, new),
        (t, All-weaken _ _ (λ k h. (unseen e.0 k seen h).1) _ later),
      )
]

-- Texts that are fresh behind others that are fresh.
append-Fresh :
    (seen new later : List String)
    → Fresh seen new
    → Fresh (new ++ seen) later
    → Fresh seen (new ++ later)
append-Fresh seen [] later h k = k
append-Fresh seen (x ∷ new) later ((ne, d), (out, outs)) (e, k) =
    let apart = All-weaken _ _ (λ y h. unseen x y (new ++ seen) h) later k in
    let (both, unknown) =
      append-Fresh seen new later (d, outs) (e, All-weaken _ _ (λ y h. h.1) later apart) in
    (
      (All-append (λ y. y ≢ x) new later ne (All-weaken _ _ (λ y h. h.0) later apart), both),
      (out, unknown),
    )

start-Fresh : (f : Factory) → Fresh f.started (start f).1
unfolding start
start-Fresh f = elim (Bool-cases f.shutting_down) [
  | inl t ↦ rw t (tt, tt)
  | inr t ↦ rw t (launch-Fresh f.started f.informers)
]

start-started : (f : Factory) → (start f).0.started ≡ ((start f).1 ++ f.started)
unfolding start
start-started f = elim (Bool-cases f.shutting_down) [ inl t ↦ rw t refl | inr t ↦ rw t refl ]

provided-started :
    (kind : String) (new_func : ℤ → Informer) (f : Factory) (known : Option Informer)
    → (provided kind new_func f known).0.started ≡ f.started
provided-started kind new_func f none = refl
provided-started kind new_func f (some i) = refl

perform-Fresh : (a : Action) (f : Factory) → Fresh f.started (perform a f).1
perform-Fresh starts f = start-Fresh f
perform-Fresh (asks kind new_func) f = (tt, tt)
perform-Fresh shuts_down f = (tt, tt)
perform-Fresh (ends kind) f = (tt, tt)

perform-started :
    (a : Action) (f : Factory) → (perform a f).0.started ≡ ((perform a f).1 ++ f.started)
unfolding informer_for
perform-started starts f = start-started f
perform-started (asks kind new_func) f = provided-started kind new_func f (lookup kind f.informers)
perform-started shuts_down f = refl
perform-started (ends kind) f = refl

-- However Start, InformerFor, Shutdown and the goroutines' ends interleave, the factory begins at most
-- one goroutine for each type, and none for a type that had been started.
pub perform_all-once : (acts : List Action) (f : Factory) → Fresh f.started (perform_all acts f).1
unfolding perform_all
perform_all-once [] f = (tt, tt)
perform_all-once (a ∷ rest) f = append-Fresh f.started (perform a f).1 _ (perform-Fresh a f) (
    subst (λ seen. Fresh seen (perform_all rest (perform a f).0).1) (perform-started a f)
      (perform_all-once rest (perform a f).0))

finished-length : (kind : String) (xs : List String) → length (finished kind xs) ≤ length xs
unfolding finished
finished-length kind [] = omega arith
finished-length kind (x ∷ xs) = ground (arith, finished-length kind xs)

-- After a step of a factory that is shutting down.
abbrev Winds : Factory → Factory × List String → Type 0
Winds f (g, log) = (log ≡ []) × (g.shutting_down ≡ true) × (length g.running ≤ length f.running)

provided-Winds :
    (kind : String) (new_func : ℤ → Informer) (f : Factory) (known : Option Informer)
    → f.shutting_down ≡ true
    → Winds f ((provided kind new_func f known).0, [])
provided-Winds kind new_func f none h = (refl, h, omega arith)
provided-Winds kind new_func f (some i) h = (refl, h, omega arith)

start-idle : (f : Factory) → f.shutting_down ≡ true → start f ≡ (f, [])
unfolding start
start-idle f h =
    let new = launch f.started f.informers in
    ap
      (λ b.
        if b
        then (f, [])
        else (record f { started = new ++ f.started; running = new ++ f.running }, new))
      h

perform-Winds : (a : Action) (f : Factory) → f.shutting_down ≡ true → Winds f (perform a f)
unfolding informer_for
perform-Winds starts f h = subst (Winds f) (sym (start-idle f h)) (refl, h, omega arith)
perform-Winds (asks kind new_func) f h = provided-Winds kind new_func f (lookup kind f.informers) h
perform-Winds shuts_down f h = (refl, refl, omega arith)
perform-Winds (ends kind) f h = (refl, h, finished-length kind f.running)

-- Once Shutdown has set its mark, no goroutine is begun any more, the mark stays, and the goroutines
-- that it waits for do not grow in number.
pub perform_all-Winds :
    (acts : List Action) (f : Factory) → f.shutting_down ≡ true → Winds f (perform_all acts f)
unfolding perform_all
perform_all-Winds [] f h = (refl, h, omega arith)
perform_all-Winds (a ∷ rest) f h =
    let (none_now, mark, fewer) = perform-Winds a f h in
    let (none_later, marked, less) = perform_all-Winds rest (perform a f).0 mark in
    (rw (none_now, none_later) refl, marked, omega (arith, fewer, less))

finished-all :
    (kinds : List String) (f : Factory)
    → f.running ≡ kinds
    → (perform_all (map ends kinds) f).0.running ≡ []
unfolding perform_all finished
finished-all [] f h = h
finished-all (k ∷ kinds) f h = finished-all kinds (goroutine_ends k f) (rw h (rw (eq_refl k) refl))

-- Shutdown ends: behind its mark, whatever happens, no goroutine is begun and those it waits for do not
-- grow in number; and from there, once each goroutine then running has ended, the wait is over.
pub begin_shutdown-returns :
    (f : Factory) (acts : List Action)
    → let (g, begun) = perform_all acts (begin_shutdown f) in
      (begun ≡ [])
      × (length g.running ≤ length f.running)
      × (may_return (perform_all (map ends g.running) g).0 ≡ true)
begin_shutdown-returns f acts =
    let marked = begin_shutdown f in
    let (g, begun) = perform_all acts marked in
    let (quiet, mark, fewer) = perform_all-Winds acts marked refl in
    (quiet, fewer, ap is_empty (finished-all g.running g refl))
