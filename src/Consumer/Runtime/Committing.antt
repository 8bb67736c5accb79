-- ===== src/Consumer/Runtime/Committing.antt =====
-- What becomes of messages: commits and seeks, as a trace shows them.
use kafka_playgroud.Prelude.{
  ℕ, ◌≡◌, ◌⊎◌, Option, some, List, [], ◌∷◌, ◌++◌, String, arith, Result, ok, err, sym, string_eq,
  refl, ap, ◌∙◌,
}
use mathlib.Core.List.{append_assoc}
use kafka_playgroud.Prelude.Action.{◌>>=◌, continue}
use kafka_playgroud.Events.{LifecycleEvent, EventType}
use kafka_playgroud.Consumer.Broker.{
  Exc, Trace, Message, Event, committed, commit_rejected, sought, seek_failed, emit, Io,
}
use kafka_playgroud.Consumer.State.{OrderFold, StateStore}
use kafka_playgroud.Consumer.Runtime.{Service, Worker, Method}

-- the messages whose offset the process tried to commit, in order
unfoldable pub attempts_of : Trace → List Message
attempts_of [] = []
attempts_of (committed m ∷ t) = m ∷ attempts_of t
attempts_of (commit_rejected m ∷ t) = m ∷ attempts_of t
attempts_of (_ ∷ t) = attempts_of t

abbrev pub attempt_by : Event → List Message
attempt_by (committed m) = m ∷ []
attempt_by (commit_rejected m) = m ∷ []
attempt_by _ = []

pub attempts_of-cons : (e : Event) (t : Trace) → attempts_of (e ∷ t) ≡ attempt_by e ++ attempts_of t
unfolding attempts_of
attempts_of-cons e t = ground arith

pub attempts_of-emit :
    (e : Event) (t : Trace) → attempts_of (emit e t) ≡ attempts_of t ++ attempt_by e
unfolding attempts_of
attempts_of-emit e [] = ground arith
attempts_of-emit e (x ∷ t) =
    grind (
      arith,
      attempts_of-emit e t,
      attempts_of-cons x t,
      attempts_of-cons x (emit e t),
      append_assoc,
    )

-- What becomes of a message: its offset is tried to be committed, or its partition is sought back.
pub data Outcome : Type 0 where
  tried : Message → Outcome
  back : String → ℕ → ℕ → Outcome

-- the outcomes that a trace shows, in order
unfoldable pub outcomes_of : Trace → List Outcome
outcomes_of [] = []
outcomes_of (committed m ∷ t) = tried m ∷ outcomes_of t
outcomes_of (commit_rejected m ∷ t) = tried m ∷ outcomes_of t
outcomes_of (sought topic p offset ∷ t) = back topic p offset ∷ outcomes_of t
outcomes_of (seek_failed topic p offset ∷ t) = back topic p offset ∷ outcomes_of t
outcomes_of (_ ∷ t) = outcomes_of t

abbrev pub outcome_by : Event → List Outcome
outcome_by (committed m) = tried m ∷ []
outcome_by (commit_rejected m) = tried m ∷ []
outcome_by (sought topic p offset) = back topic p offset ∷ []
outcome_by (seek_failed topic p offset) = back topic p offset ∷ []
outcome_by _ = []

outcomes_of-cons : (e : Event) (t : Trace) → outcomes_of (e ∷ t) ≡ outcome_by e ++ outcomes_of t
unfolding outcomes_of
outcomes_of-cons e t = ground arith

pub outcomes_of-emit :
    (e : Event) (t : Trace) → outcomes_of (emit e t) ≡ outcomes_of t ++ outcome_by e
unfolding outcomes_of
outcomes_of-emit e [] = ground arith
outcomes_of-emit e (x ∷ t) =
    grind (
      arith,
      outcomes_of-emit e t,
      outcomes_of-cons x t,
      outcomes_of-cons x (emit e t),
      append_assoc,
    )

unfoldable pub tried_of : List Outcome → List Message
tried_of [] = []
tried_of (tried m ∷ os) = m ∷ tried_of os
tried_of (back _ _ _ ∷ os) = tried_of os

tried_of-outcomes_of : (t : Trace) → attempts_of t ≡ tried_of (outcomes_of t)
unfolding attempts_of outcomes_of tried_of
tried_of-outcomes_of [] = refl
tried_of-outcomes_of (e ∷ t) = ground (arith, tried_of-outcomes_of t)

-- Where nothing became of any message, no offset was tried to be committed.
pub attempts_of-eq : (t u : Trace) → outcomes_of t ≡ outcomes_of u → attempts_of t ≡ attempts_of u
attempts_of-eq t u e = tried_of-outcomes_of t ∙ ap tried_of e ∙ sym (tried_of-outcomes_of u)

-- A store whose methods neither commit an offset nor seek.
pub record IsQuiet {S : Type 0} (store : StateStore S) : Type 0 where
  pub load_quiet :
      (p : ℕ) (id : String) (s : S) (t : Trace)
      → outcomes_of (store.load p id (s, t)).1.1 ≡ outcomes_of t
  pub save_quiet :
      (p : ℕ) (id : String) (fold : OrderFold) (event_id : String) (s : S) (t : Trace)
      → outcomes_of (store.save p id fold event_id (s, t)).1.1 ≡ outcomes_of t
  pub delete_quiet :
      (p : ℕ) (id : String) (s : S) (t : Trace)
      → outcomes_of (store.delete p id (s, t)).1.1 ≡ outcomes_of t
  pub restore_quiet :
      (ps : List ℕ) (s : S) (t : Trace) → outcomes_of (store.restore ps (s, t)).1.1 ≡ outcomes_of t
  pub flush_quiet : (s : S) (t : Trace) → outcomes_of (store.flush (s, t)).1.1 ≡ outcomes_of t
  pub forget_quiet :
      (ps : List ℕ) (s : S) (t : Trace) → outcomes_of (store.forget ps (s, t)).1.1 ≡ outcomes_of t
  pub discard_quiet :
      (ps : List ℕ) (s : S) (t : Trace) → outcomes_of (store.discard ps (s, t)).1.1 ≡ outcomes_of t

-- Handlers that neither commit an offset nor seek.
abbrev pub AreQuiet : (EventType → Option (LifecycleEvent → Io Unit)) → Type 0
AreQuiet handlers =
    (e : EventType) (event : LifecycleEvent) (f : LifecycleEvent → Io Unit) (t : Trace)
    → handlers e ≡ some f
    → outcomes_of (f event t).1 ≡ outcomes_of t

-- the last event is the rewind to a message
abbrev pub Rewound : Message → Trace → Type 0
Rewound m t =
    (t' : Trace) × ((t ≡ emit (sought m.topic m.partition m.offset) t')
      ⊎ (t ≡ emit (seek_failed m.topic m.partition m.offset) t'))

-- the two ways to be done with a message
abbrev pub Settle : Message → Outcome → Type 0
Settle m o = (o ≡ tried m) ⊎ (o ≡ back m.topic m.partition m.offset)

-- What a handled message leaves: an exception, no outcome; a return, one outcome, of that message.
abbrev pub IsSettled : Message → List Outcome → Result Exc (Unit {0}) → Trace → Type 0
IsSettled m before (err x) t = outcomes_of t ≡ before
IsSettled m before (ok _) t = (o : Outcome) × Settle m o × (outcomes_of t ≡ before ++ o ∷ [])

abbrev pub Quiet : {S C A : Type 0} (service : Service S C) → Method service A → Type 0
Quiet {S} {C} service a = (w : Worker S C) → outcomes_of (a w).1.trace ≡ outcomes_of w.trace

module _ {S : Type 0} (service : Service S Unit) where
  abbrev pub Settles : Message → Method service Unit → Type 0
  Settles m a = (w : Worker S Unit) → IsSettled m (outcomes_of w.trace) (a w).0 (a w).1.trace

  pub continue-Settles :
      {A : Type 0} (m : Message) (r : Result Exc A) (f : A → Method service Unit)
      (before : List Outcome) (w : Worker S Unit)
      → outcomes_of w.trace ≡ before
      → ((x : A) → Settles m (f x))
      → IsSettled m before (continue r f w).0 (continue r f w).1.trace
  continue-Settles m (ok x) f before w e h = rw (sym e) (h x w)
  continue-Settles m (err x) f before w e h = e

  pub bind-Settles :
      {A : Type 0} (m : Message) (a : Method service A) (f : A → Method service Unit)
      → Quiet service a
      → ((x : A) → Settles m (f x))
      → Settles m (a >>= f)
  bind-Settles m a f q h w = continue-Settles m (a w).0 f (outcomes_of w.trace) (a w).1 (q w) h
