-- ===== src/Consumer/Projection.antt =====
-- What the memory backend holds after a run, as a function of what was polled alone: the
-- specification that the loop of src/order_service/consumer/runtime.py is held against.
pub mod Steps
pub mod Runs
pub mod Folds
use kafka_playgroud.Prelude.{
  ℕ, ◌≡◌, refl, Option, none, some, List, [], ◌∷◌, Result, ok, err, if◌then◌else◌, ◌==◌, string_eq,
}
use kafka_playgroud.Prelude.Json.{Bytes}
use kafka_playgroud.Dict.{lookup}
use kafka_playgroud.Events.{LifecycleEvent, EventFields, validate_event}
use kafka_playgroud.Consumer.Broker.{Io, Message, Exc, Trace}
use kafka_playgroud.Consumer.Dlq.{decode_headers, hdr_retry_target}
use kafka_playgroud.Consumer.Failures.{maybe_fail}
use kafka_playgroud.Consumer.Folding.{apply_event, key_of, attempt_of}
use kafka_playgroud.Consumer.State.Memory as Memory
use kafka_playgroud.Consumer.State.Memory.{Memory, memory_store}
use kafka_playgroud.Consumer.Transactions.{direct_committer}
use kafka_playgroud.Consumer.Runtime.Running.{is_exit, partitions_of}
use kafka_playgroud.Consumer.Runtime.{
  Worker, Service, Polled, nothing, error, message, assigned, revoked, lost, decode,
  is_other_service,
}

-- the service on the memory backend, committing directly
abbrev pub on_memory : {S C : Type 0} → Service S C → Service Memory Unit
on_memory base = record {
  name = base.name;
  handlers = base.handlers;
  settings = base.settings;
  store = memory_store;
  commits = direct_committer base.router.kafka;
  router = base.router;
  codec = base.codec;
  pydantic = base.pydantic;
  assignment = base.assignment;
}

module _ {S C : Type 0} (base : Service S C) where
  -- one event more for its order
  unfoldable pub project_event : ℕ → LifecycleEvent → Memory → Memory
  project_event p e s =
      let fold = (apply_event (Memory.load p e.order_id s) e).0 in
      (Memory.save p e.order_id fold e.event_id s).1

  -- an event counts unless the failure lever fails its attempt
  abbrev pub project_tried : ℕ → LifecycleEvent → Result Exc (Unit {0}) → Memory → Memory
  project_tried p e (ok _) s = project_event p e s
  project_tried p e (err _) s = s

  abbrev pub project_decoded : Message → Result Exc LifecycleEvent → Memory → Memory
  project_decoded m (ok e) s =
      project_tried m.partition e (maybe_fail base.settings e (attempt_of (decode_headers m))) s
  project_decoded m (err _) s = s

  abbrev pub project_value : Message → Option Bytes → Memory → Memory
  project_value m none s = (Memory.delete m.partition (key_of m) s).1
  project_value m (some value) s =
      if m.topic == base.settings.order_snapshot_topic
      then s
      else if is_other_service base.name (lookup hdr_retry_target (decode_headers m))
      then s
      else project_decoded m (decode (on_memory base) value) s

  unfoldable pub project : Polled → Memory → Memory
  project (message m) s = project_value m m.value s
  project (revoked ps) s = Memory.forget ps s
  project (lost ps) s = Memory.forget ps s
  project (assigned ps) s = s
  project (error e) s = s
  project nothing s = s

  unfoldable pub project_all : List Polled → Memory → Memory
  project_all [] s = s
  project_all (x ∷ xs) s = project_all xs (project x s)

  -- the partitions that closing the client gives up, unless the process was ended
  abbrev pub given_up : Result Exc (Unit {0}) → Worker Memory Unit → List ℕ
  given_up (ok _) w = partitions_of (base.assignment w.trace)
  given_up (err x) w = if is_exit x then [] else partitions_of (base.assignment w.trace)

-- The handlers return for each event that was validated.
abbrev pub AreTotal : {S C : Type 0} → Service S C → Type 0
AreTotal service =
    (f : EventFields) (e : LifecycleEvent)
    → validate_event service.pydantic f ≡ ok e
    → (h : LifecycleEvent → Io Unit) → service.handlers e.event_type ≡ some h
    → (t : Trace) → (h e t).0 ≡ ok tt
