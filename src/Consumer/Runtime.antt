-- ===== src/Consumer/Runtime.antt =====
-- src/order_service/consumer/runtime.py: `ServiceConsumer`, the loop of one consumer process, over
-- any store and any commit strategy. Log lines are left out, except that forming one may raise.
pub mod Routing
pub mod Committing
pub mod Quiet
pub mod Settled
pub mod Untouched
pub mod Stores
pub mod Ladder
pub mod Defects
pub mod Running
pub mod Transacting
use kafka_playgroud.Prelude.{
  pos, ℕ, ◌+◌, ◌≡◌, refl, Bool, true, false, not, Option, none, some, List, [], ◌∷◌, ◌++◌, String,
  Result, ok, err, ltb, ◌==◌, nat_eq, string_eq, ◌&&◌, if◌then◌else◌, sorted_set,
}
use kafka_playgroud.Prelude.Action.{Action, ◌>>=◌, ◌>>◌, pure, raise, lift, catch}
use kafka_playgroud.Prelude.Json.{Bytes, utf8, raw, decode_utf8, Json, JsonCodec}
use kafka_playgroud.Dict.{lookup}
use kafka_playgroud.Config.{
  Settings, StateWriteOrder, StateCrashPoint, is_exactly_once, group_id_for,
}
use kafka_playgroud.Events.{
  EventType, LifecycleEvent, Pydantic, validate_event, ValueError, EventFields,
}
use kafka_playgroud.Consumer.Broker.{
  Message, Exc, ExcClass, retryable_error, non_retryable_error, state_store_unavailable,
  failure_publish_failed, producer_fenced_error, kafka_exception, value_error, other_class,
  KafkaError, ErrorCode, Event, handled, slept, exited, sought, seek_failed, Trace, Kafka, Io, emit,
}
use kafka_playgroud.Consumer.Errors.{classify, FailureKind, retryable, non_retryable}
use kafka_playgroud.Consumer.Dlq.{
  Router, Headers, Origin, decode_headers, hdr_retry_target, from_message, to_retry, to_dead_letter,
}
use kafka_playgroud.Consumer.State.{OrderFold, SaveOutcome, StateStore, StoreIo}
use kafka_playgroud.Consumer.Transactions.{CommitStrategy, CommitIo}
use kafka_playgroud.Consumer.Folding.{key_of, attempt_of, apply_event}
use kafka_playgroud.Consumer.Failures.{maybe_fail}

-- What changes while a consumer runs: its store, its committer, and the trace of the process.
pub record Worker (S C : Type 0) : Type 0 where
  pub store : S
  pub commits : C
  pub trace : Trace

-- What a consumer is built with. `assignment` is what the client answers to `assignment()`.
pub record Service (S C : Type 0) : Type 0 where
  pub name : String
  pub handlers : EventType → Option (LifecycleEvent → Io Unit)
  pub settings : Settings
  pub store : StateStore S
  pub commits : CommitStrategy C
  pub router : Router
  pub codec : JsonCodec
  pub pydantic : Pydantic
  pub assignment : Trace → List (String × ℕ)

-- What one `poll` of the loop gives: the callbacks of a rebalance are run inside it.
pub data Polled : Type 0 where
  nothing : Polled
  error : KafkaError → Polled
  message : Message → Polled
  assigned : List ℕ → Polled
  revoked : List ℕ → Polled
  lost : List ℕ → Polled

abbrev pub exception : ExcClass → Exc
exception c = record { class = c; text = "" }

-- `os._exit`, which ends the process: an exception that nothing catches
abbrev pub process_exit : Exc
process_exit = exception (other_class "os._exit")

abbrev pub is_unavailable : Exc → Bool
is_unavailable x = elim x.class [ state_store_unavailable ↦ true | _ ↦ false ]

abbrev pub is_publish_failure : Exc → Bool
is_publish_failure x = elim x.class [ failure_publish_failed ↦ true | _ ↦ false ]

abbrev pub is_kafka_exception : Exc → Bool
is_kafka_exception x = elim x.class [ kafka_exception _ ↦ true | _ ↦ false ]

abbrev pub is_other_service : String → Option String → Bool
is_other_service name none = false
is_other_service name (some target) = not (target == name)

-- The key in the log line of a decoded event, which is `key.decode("utf-8")` there.
unfoldable pub log_key : Message → Result Exc (Unit {0})
log_key m = elim m.key [
  | none ↦ ok tt
  | some b ↦ elim b [ utf8 _ ↦ ok tt | raw _ ↦ err (exception value_error) ]
]

-- `partition in` the assignment
unfoldable pub assigned_to : ℕ → List (String × ℕ) → Bool
assigned_to p [] = false
assigned_to p ((topic, q) ∷ ps) = let rest = assigned_to p ps in if q == p then true else rest

unfoldable pub committed_on : ℕ → List ((String × ℕ) × Option ℕ) → List ((String × ℕ) × Option ℕ)
committed_on p [] = []
committed_on p (((topic, q), offset) ∷ cs) =
    let rest = committed_on p cs in if q == p then ((topic, q), offset) ∷ rest else rest

module _ {S C : Type 0} (service : Service S C) where
  abbrev pub Method : Type 0 → Type 0
  Method A = Action (Worker S C) Exc A

  abbrev pub on_store : {A : Type 0} → StoreIo S A → Method A
  on_store m w =
      let (answer, (s, t)) = m (w.store, w.trace) in (answer, record w { store = s; trace = t })

  abbrev pub on_commits : {A : Type 0} → CommitIo C A → Method A
  on_commits m w =
      let (answer, (c, t)) = m (w.commits, w.trace) in (answer, record w { commits = c; trace = t })

  abbrev pub on_io : {A : Type 0} → Io A → Method A
  on_io m w = let (answer, t) = m w.trace in (answer, record w { trace = t })

  abbrev pub kafka : Kafka
  kafka = service.router.kafka

  abbrev pub note_event : Event → Method Unit
  note_event e w = (ok tt, record w { trace = emit e w.trace })

  -- `_commit`
  unfoldable pub commit : Message → Method Unit
  commit m = on_commits (service.commits.note m)

  -- `consumer.seek`, where a `KafkaException` is answered as false
  abbrev pub seek : String → ℕ → ℕ → Method Bool
  seek topic p offset w = elim (kafka.seek w.trace topic p offset) [
    | none ↦ (ok true, record w { trace = emit (sought topic p offset) w.trace })
    | some _ ↦ (ok false, record w { trace = emit (seek_failed topic p offset) w.trace })
  ]

  -- `_rewind`
  unfoldable pub rewind : Message → Method Unit
  rewind m = do seek m.topic m.partition m.offset; pure tt

  -- `_decode`. The text of the inner exception is left out.
  abbrev pub undecodable : Exc
  undecodable = record { class = non_retryable_error; text = "undecodable message" }

  abbrev pub validated : Option EventFields → Result Exc LifecycleEvent
  validated none = err undecodable
  validated (some fields) = elim (validate_event service.pydantic fields) [
    | ok event ↦ ok event
    | err _ ↦ err undecodable
  ]

  abbrev pub parsed : Option Json → Result Exc LifecycleEvent
  parsed none = err undecodable
  parsed (some j) = validated (service.pydantic.read_event j)

  unfoldable pub decode : Bytes → Result Exc LifecycleEvent
  decode (utf8 text) = parsed (service.codec.loads text)
  decode (raw _) = err undecodable

  -- `_crash_if_configured`
  unfoldable pub crash_if_configured : Bool → Method Unit
  crash_if_configured here w =
      if here then (err process_exit, record w { trace = emit exited w.trace }) else (ok tt, w)

  abbrev pub crashes_at_write : Bool
  crashes_at_write = elim service.settings.state_crash_after [
    | StateCrashPoint.state_write ↦ true
    | _ ↦ false
  ]

  abbrev pub crashes_at_commit : Bool
  crashes_at_commit = elim service.settings.state_crash_after [
    | StateCrashPoint.offset_commit ↦ true
    | _ ↦ false
  ]

  abbrev pub crashes_in_transaction : Bool
  crashes_in_transaction = elim service.settings.state_crash_after [
    | StateCrashPoint.transaction_open ↦ true
    | _ ↦ false
  ]

  -- `_save_fold`
  unfoldable pub save_fold : LifecycleEvent → OrderFold → ℕ → Method Unit
  save_fold event fold p = do
    on_store (service.store.save p event.order_id fold event.event_id)
    pure tt

  -- the three orders of `_persist_and_commit`
  unfoldable pub persist_in_transaction : Message → LifecycleEvent → OrderFold → ℕ → Method Unit
  persist_in_transaction m event fold p = do
    save_fold event fold p
    commit m
    crash_if_configured crashes_in_transaction

  unfoldable pub persist_offset_first : Message → LifecycleEvent → OrderFold → ℕ → Method Unit
  persist_offset_first m event fold p = do
    commit m
    crash_if_configured crashes_at_commit
    save_fold event fold p

  unfoldable pub persist_state_first : Message → LifecycleEvent → OrderFold → ℕ → Method Unit
  persist_state_first m event fold p = do
    save_fold event fold p
    on_store service.store.flush
    crash_if_configured crashes_at_write
    commit m

  -- `_persist_and_commit`
  unfoldable pub persist_and_commit : Message → LifecycleEvent → OrderFold → ℕ → Method Unit
  persist_and_commit m event fold p =
      if is_exactly_once service.settings
      then persist_in_transaction m event fold p
      else (elim service.settings.state_write_order [
        | StateWriteOrder.offset_first ↦ persist_offset_first m event fold p
        | StateWriteOrder.state_first ↦ persist_state_first m event fold p
      ])

  -- whether a failed attempt is followed by another
  unfoldable pub has_budget : Exc → ℕ → Bool
  has_budget exc attempt = elim (classify exc) [
    | retryable ↦ ltb attempt service.settings.retry_max_attempts
    | non_retryable ↦ false
  ]

  -- the `try` block of `_route_failure`
  unfoldable pub publish_failure : Message → Exc → ℕ → Method Unit
  publish_failure m exc attempt =
      let origin = from_message service.router.iso m in
      let group_id = group_id_for service.settings service.name in
      if has_budget exc attempt
      then on_io
          (do to_retry service.router m origin service.name group_id (attempt + 1) exc; pure tt)
      else on_io (to_dead_letter service.router m origin service.name group_id (pos attempt) exc)

  -- what follows the `try`: an exception of the publish is a rewind without a commit
  abbrev pub after_publish : Message → Result Exc (Unit {0}) → Method Unit
  after_publish m (ok _) = commit m
  after_publish m (err x) = if is_publish_failure x then rewind m else raise x

  -- `_route_failure`
  unfoldable pub route_failure : Message → Exc → ℕ → Method Unit
  route_failure m exc attempt w =
      let (answer, w') = publish_failure m exc attempt w in after_publish m answer w'

  abbrev pub run_handler : LifecycleEvent → Option (LifecycleEvent → Io Unit) → Method Unit
  run_handler event none = pure tt
  run_handler event (some f) = do on_io (f event); note_event handled

  -- the `try` block of `_handle_message`
  unfoldable pub run_attempt : LifecycleEvent → ℕ → Method Unit
  run_attempt event attempt = do
    lift (maybe_fail service.settings event attempt)
    run_handler event (service.handlers event.event_type)

  -- `time.sleep(handler_delay_seconds)`, where it is positive
  abbrev pub delay : Method Unit
  delay =
      if service.settings.handler_delay_ms == 0
      then pure tt
      else note_event (slept service.settings.handler_delay_ms)

  abbrev pub after_attempt :
      Message → LifecycleEvent → OrderFold → ℕ → Result Exc (Unit {0}) → Method Unit
  after_attempt m event updated attempt (ok _) = do
    delay
    persist_and_commit m event updated m.partition
  after_attempt m event updated attempt (err x) =
      if is_unavailable x then raise x else route_failure m x attempt

  -- `_handle_message` from the decoded event on
  unfoldable pub handle_event : Message → LifecycleEvent → ℕ → Method Unit
  handle_event m event attempt = do
    lift (log_key m)
    current ← on_store (service.store.load m.partition event.order_id)
    λ w.
        let (answer, w') = run_attempt event attempt w in
        after_attempt m event (apply_event current event).0 attempt answer w'

  abbrev pub after_decode : Message → ℕ → Result Exc LifecycleEvent → Method Unit
  after_decode m attempt (ok event) = handle_event m event attempt
  after_decode m attempt (err x) = route_failure m x attempt

  -- `_handle_tombstone`
  unfoldable pub handle_tombstone : Message → Method Unit
  handle_tombstone m = do on_store (service.store.delete m.partition (key_of m)); commit m

  abbrev pub handle_value : Message → Option Bytes → Method Unit
  handle_value m none = handle_tombstone m
  handle_value m (some value) =
      if m.topic == service.settings.order_snapshot_topic
      then commit m
      else if is_other_service service.name (lookup hdr_retry_target (decode_headers m))
      then commit m
      else after_decode m (attempt_of (decode_headers m)) (decode value)

  -- `_handle_message`
  unfoldable pub handle_message : Message → Method Unit
  handle_message m = handle_value m m.value

  -- the loop of `_rewind_partition`, which the first failing seek ends
  unfoldable pub seek_all : List ((String × ℕ) × Option ℕ) → Method Unit
  seek_all [] = pure tt
  seek_all (((topic, p), none) ∷ cs) = seek_all cs
  seek_all (((topic, p), some offset) ∷ cs) = do
    found ← seek topic p offset
    if found then seek_all cs else pure tt

  -- `_rewind_partition`
  unfoldable pub rewind_partition : ℕ → Method Unit
  rewind_partition p w =
      if assigned_to p (service.assignment w.trace)
      then (elim (kafka.committed_offsets w.trace p) [
        | ok offsets ↦ seek_all (committed_on p offsets) w
        | err _ ↦ (ok tt, w)
      ])
      else (ok tt, w)

  unfoldable pub rewind_partitions : List ℕ → Method Unit
  rewind_partitions [] = pure tt
  rewind_partitions (p ∷ ps) = do rewind_partition p; rewind_partitions ps

  abbrev pub repair : List ℕ → Method Unit
  repair [] = pure tt
  repair (p ∷ ps) = do
    on_store (service.store.discard (p ∷ ps))
    on_store (service.store.restore (p ∷ ps))
    rewind_partitions (sorted_set (p ∷ ps))

  -- `_abort_and_repair`
  unfoldable pub abort_and_repair : Method Unit
  abort_and_repair = do touched ← on_commits service.commits.abort; repair touched

  abbrev pub after_commit : Exc → Method Unit
  after_commit x = if is_kafka_exception x then abort_and_repair else raise x

  -- `_settle`
  unfoldable pub settle : Method Unit
  settle = catch (on_commits service.commits.maybe_commit) after_commit

  -- `_handle_error`
  unfoldable pub handle_error : KafkaError → Method Unit
  handle_error e = elim e.code [
    | ErrorCode.partition_eof ↦ pure tt
    | _ ↦ if e.fatal then raise (exception (kafka_exception e)) else pure tt
  ]

  -- `_on_revoke` and `_on_lost`
  abbrev pub let_go : List ℕ → Method Unit
  let_go ps = do on_commits service.commits.abort; on_store (service.store.forget ps)

  -- one round of the loop in `run`; a rebalance that `poll` runs is a round of its own
  unfoldable pub step : Polled → Method Unit
  step nothing = settle
  step (error e) = handle_error e
  step (message m) = do handle_message m; settle
  step (assigned ps) = on_store (service.store.restore ps)
  step (revoked ps) = let_go ps
  step (lost ps) = let_go ps

  -- the loop, up to an exception or to the end of what is polled
  unfoldable pub loop : List Polled → Method Unit
  loop [] = pure tt
  loop (x ∷ xs) = do step x; loop xs
