-- ===== src/Conformance/Await.antt =====
-- awaitDiscovery of conformance/suite.go: a caller that waits for an answer or for its context, and the
-- goroutine that asks, interleaved in any order.
use mathlib.Core.Path.{◌≡◌, refl, subst}
use mathlib.Core.Logic.{◌⊎◌, inl, inr}
use cluster_inventory_api.Common.{String, Option, none, some, Fallible, err}

-- The goroutine, between its call and its send.
pub data Worker (A : Type 0) : Type 0 where
  asking : Worker A
  sending : Fallible String A → Worker A
  ended : Worker A

pub data Caller (A : Type 0) : Type 0 where
  waiting : Caller A
  returned : Fallible String A → Caller A

-- `fault` is ctx.Err(), and `buffer` the channel of one place.
pub record Race (A : Type 0) : Type 0 where
  pub fault : Option String
  pub buffer : Option (Fallible String A)
  pub worker : Worker A
  pub caller : Caller A

-- The call, by the context's error at its start: with one there is no goroutine.
abbrev pub begin_await : {A : Type 0} → Option String → Race A
begin_await (some e) = record {
  fault = some e;
  buffer = none;
  worker = ended;
  caller = returned (err e);
}
begin_await none = record { fault = none; buffer = none; worker = asking; caller = waiting }

-- One step: the context ends; `observe` answers; the goroutine sends, where the buffer has a place; the
-- caller's select takes a ready case.
pub data Step {A : Type 0} (answer : Fallible String A) (s : Race A) : Race A → Type 0 where
  cancels : (e : String) → s.fault ≡ none → Step answer s (record s { fault = some e })
  answers : s.worker ≡ asking → Step answer s (record s { worker = sending answer })
  sends :
      (r : Fallible String A)
      → s.worker ≡ sending r
      → s.buffer ≡ none
      → Step answer s (record s { worker = ended; buffer = some r })
  gives_up :
      (e : String)
      → s.caller ≡ waiting
      → s.fault ≡ some e
      → Step answer s (record s { caller = returned (err e) })
  receives :
      (r : Fallible String A)
      → s.caller ≡ waiting
      → s.buffer ≡ some r
      → Step answer s (record s { caller = returned r; buffer = none })

pub data Reach {A : Type 0} (answer : Fallible String A) (fault : Option String)
    : Race A → Type 0 where
  called : Reach answer fault (begin_await fault)
  later : {s t : Race A} → Reach answer fault s → Step answer s t → Reach answer fault t

module _ {A : Type 0} (answer : Fallible String A) where
  -- What the goroutine and the buffer can hold together.
  abbrev pub Holds : Worker A → Option (Fallible String A) → Type 0
  Holds asking buffer = buffer ≡ none
  Holds (sending r) buffer = (r ≡ answer) × (buffer ≡ none)
  Holds ended none = Unit
  Holds ended (some r) = r ≡ answer

  -- What the caller can have returned.
  abbrev pub Returns : Option String → Caller A → Type 0
  Returns fault waiting = Unit
  Returns fault (returned r) = (r ≡ answer) ⊎ ((e : String) × (fault ≡ some e) × (r ≡ err e))

  pub record IsSound (s : Race A) : Type 0 where
    pub holds : Holds s.worker s.buffer
    pub returns : Returns s.fault s.caller

  begin_await-IsSound : (fault : Option String) → IsSound (begin_await fault)
  begin_await-IsSound none = record { holds = refl; returns = tt }
  begin_await-IsSound (some e) = record { holds = tt; returns = inr (e, refl, refl) }

  cancelled : (e : String) (caller : Caller A) → Returns none caller → Returns (some e) caller
  cancelled e waiting h = tt
  cancelled e (returned r) (inl same) = inl same
  cancelled e (returned r) (inr (f, n, m)) = cc

  received :
      (worker : Worker A) (r : Fallible String A)
      → Holds worker (some r)
      → (r ≡ answer) × Holds worker none
  received asking r h = cc
  received (sending x) r (_, h) = cc
  received ended r h = (h, tt)

  Step-IsSound : {s t : Race A} → Step answer s t → IsSound s → IsSound t
  Step-IsSound {s} (cancels e h) sound = record {
    holds = sound.holds;
    returns = cancelled e s.caller (subst (λ f. Returns f s.caller) h sound.returns);
  }
  Step-IsSound {s} (answers h) sound = record {
    holds = (refl, subst (λ w. Holds w s.buffer) h sound.holds);
    returns = sound.returns;
  }
  Step-IsSound {s} (sends r h k) sound = record {
    holds = (subst (λ w. Holds w s.buffer) h sound.holds).0;
    returns = sound.returns;
  }
  Step-IsSound {s} (gives_up e h k) sound = record {
    holds = sound.holds;
    returns = inr (e, k, refl);
  }
  Step-IsSound {s} (receives r h k) sound =
      let (same, left) = received s.worker r (subst (Holds s.worker) k sound.holds) in
      record { holds = left; returns = inl same }

  -- Whatever the order of the steps, the call returns nothing but observe's answer or the error of its
  -- own context; and the channel is empty until the goroutine has sent.
  pub Reach-IsSound : {fault : Option String} {s : Race A} → Reach answer fault s → IsSound s
  Reach-IsSound {fault} called = begin_await-IsSound fault
  Reach-IsSound (later r step) = Step-IsSound step (Reach-IsSound r)

  -- A goroutine with an answer is never stuck: its send is a step, also where nobody waits any more.
  pub Reach-sends :
      {fault : Option String} {s : Race A}
      → Reach answer fault s
      → (r : Fallible String A) → s.worker ≡ sending r
      → Step answer s (record s { worker = ended; buffer = some r })
  Reach-sends {s = s} reached r h =
      sends r h (subst (λ w. Holds w s.buffer) h (Reach-IsSound reached).holds).1
