-- ===== src/Consumer/RetryWorker.antt =====
-- src/order_service/consumer/retry_worker.py: the loop that holds messages of the retry topic until
-- they are due. Log lines and the texts of its exceptions are left out.
pub mod Handling
pub mod Deferral
pub mod Unreleased
pub mod Release
pub mod Attempts
pub mod Running
pub mod Sending
pub mod Paid
use kafka_playgroud.Prelude.{
  ℕ, Bool, true, false, Option, none, some, List, [], ◌∷◌, String, Result, ok, err, ltb, ◌==◌,
  nat_eq, string_eq, pair_eq, if◌then◌else◌, ℤ, pos, ◌++◌,
}
use kafka_playgroud.Prelude.Action.{Action, ◌>>=◌, ◌>>◌, pure, raise, lift}
use kafka_playgroud.Prelude.Json.{Bytes}
use kafka_playgroud.Prelude.Words.{int_of}
use kafka_playgroud.Dict.{Dict, lookup, insert, erase}
use kafka_playgroud.Config.{Settings, group_id_for}
use kafka_playgroud.Events.{EventFields, LifecycleEvent, Pydantic, ValueError, validate_event}
use kafka_playgroud.Consumer.Broker.{
  Message, Exc, ExcClass, non_retryable_error, kafka_exception, KafkaError, ErrorCode, Event,
  committed, commit_rejected, sought, seek_failed, paused, pause_failed, resumed, resume_failed,
  Trace, Kafka, Io, IsoTime, emit,
}
use kafka_playgroud.Consumer.Dlq.{
  Router, Headers, Origin, decode_headers, from_headers, to_source, to_dead_letter, hdr_service,
  hdr_attempt, hdr_retry_at,
}
use kafka_playgroud.Consumer.Runtime.{is_publish_failure, exception}

-- What the worker is built with. `specs` has the name of each service's spec under its key, and
-- `read_json` is what pydantic's `model_validate_json` reads of a value before the constraints
-- are checked; `none` is an exception.
pub record RetryWorker : Type 0 where
  pub settings : Settings
  pub specs : Dict String String
  pub router : Router
  pub pydantic : Pydantic
  pub read_json : Option Bytes → Option EventFields

-- What changes: `_deferred`, with the time at which each partition's head is due, and the trace.
pub record Waiting : Type 0 where
  pub deferred : Dict (String × ℕ) ℕ
  pub trace : Trace

-- what `poll` answers
pub data Answer : Type 0 where
  nothing : Answer
  error : KafkaError → Answer
  message : Message → Answer

abbrev pub Method : Type 0 → Type 0
Method A = Action Waiting Exc A

-- `_int_header`
unfoldable pub int_header : Headers → String → ℤ → ℤ
int_header headers name default = elim (lookup name headers) [
  | none ↦ default
  | some text ↦ elim (int_of text) [ none ↦ default | some n ↦ n ]
]

-- `_time_header`
unfoldable pub time_header : IsoTime → Headers → String → Option ℕ
time_header iso headers name = elim (lookup name headers) [
  | none ↦ none
  | some text ↦ iso.fromisoformat text
]

abbrev pub or_empty_text : Option String → String
or_empty_text none = ""
or_empty_text (some s) = s

-- `service or "<unset>"`
abbrev pub or_unset : String → String
or_unset s = if s == "" then "<unset>" else s

abbrev pub non_retryable_exc : Exc
non_retryable_exc = record { class = non_retryable_error; text = "" }

module _ (worker : RetryWorker) where
  abbrev pub kafka : Kafka
  kafka = worker.router.kafka

  abbrev pub on_io : {A : Type 0} → Io A → Method A
  on_io m w = let (answer, t) = m w.trace in (answer, record w { trace = t })

  -- a call of the consumer client; it is answered whether it went through
  abbrev pub client_call : (Trace → Option KafkaError) → Event → Event → Method Bool
  client_call answer done failed w = elim (answer w.trace) [
    | none ↦ (ok true, record w { trace = emit done w.trace })
    | some _ ↦ (ok false, record w { trace = emit failed w.trace })
  ]

  abbrev pub seek_to : Message → Method Bool
  seek_to m =
      client_call (λ t. kafka.seek t m.topic m.partition m.offset)
        (sought m.topic m.partition m.offset) (seek_failed m.topic m.partition m.offset)

  -- `_commit`
  unfoldable pub commit : Message → Method Unit
  commit m = do client_call (λ t. kafka.commit t m) (committed m) (commit_rejected m); pure tt

  -- `_rewind`
  unfoldable pub rewind : Message → Method Unit
  rewind m = do seek_to m; pure tt

  abbrev pub put_deferred : String × ℕ → ℕ → Method Unit
  put_deferred key due w = (ok tt, record w { deferred = insert key due w.deferred })

  abbrev pub drop_deferred : String × ℕ → Method Unit
  drop_deferred key w = (ok tt, record w { deferred = erase key w.deferred })

  -- the rewind of `_defer`, once the partition is paused
  abbrev pub defer_paused : Message → ℕ → Bool → Method Unit
  defer_paused m due false = pure tt
  defer_paused m due true = do
    found ← seek_to m
    if found then put_deferred (m.topic, m.partition) due else pure tt

  -- `_defer`
  unfoldable pub defer : Message → ℕ → Method Unit
  defer m due = do
    stopped ←
        client_call (λ t. kafka.pause t m.topic m.partition) (paused m.topic m.partition)
          (pause_failed m.topic m.partition)
    defer_paused m due stopped

  -- one partition of `_resume_due` whose time has come
  unfoldable pub resume : String × ℕ → Method Unit
  resume key = do
    drop_deferred key
    client_call (λ t. kafka.resume t key.0 key.1) (resumed key.0 key.1) (resume_failed key.0 key.1)
    pure tt

  -- the loop of `_resume_due`, over the deferrals as they were at its start
  unfoldable pub resume_each : ℕ → Dict (String × ℕ) ℕ → Method Unit
  resume_each now [] = pure tt
  resume_each now ((key, due) ∷ ds) =
      let rest = resume_each now ds in if ltb now due then rest else (do resume key; rest)

  -- `_resume_due`
  unfoldable pub resume_due : Method Unit
  resume_due w = resume_each (kafka.now w.trace) w.deferred w

  -- `_on_revoke`, on the retry topic's partitions
  unfoldable pub forget : List ℕ → Method Unit
  forget [] = pure tt
  forget (p ∷ ps) = do drop_deferred (worker.settings.retry_topic, p); forget ps

  -- what follows a publish: an exception of it is handled by `failed`
  abbrev pub after_publish : Message → Method Unit → Result Exc (Unit {0}) → Method Unit
  after_publish m failed (ok _) = commit m
  after_publish m failed (err x) = if is_publish_failure x then failed else raise x

  -- `_give_up`
  unfoldable pub give_up : Message → Origin → String → ℤ → Method Unit
  give_up m origin service attempt w =
      let (answer, w') =
        on_io
          (to_dead_letter worker.router m origin service (group_id_for worker.settings service)
            attempt non_retryable_exc)
          w in
      after_publish m (rewind m) answer w'

  -- `_release`
  unfoldable pub release : Message → String → Origin → ℤ → Method Unit
  release m name origin attempt w =
      let (answer, w') =
        on_io
          (do
            to_source worker.router m origin name (group_id_for worker.settings name) attempt
            pure tt)
          w in
      after_publish m (pure tt) answer w'

  -- whether the value is an event
  abbrev pub is_event : Option EventFields → Bool
  is_event none = false
  is_event (some fields) = elim (validate_event worker.pydantic fields) [
    | ok _ ↦ true
    | err _ ↦ false
  ]

  -- the rest of `_handle_message`, once the service's spec is looked up
  abbrev pub handle_spec : Message → Origin → ℤ → String → Option String → Method Unit
  handle_spec m origin attempt service none = give_up m origin (or_unset service) attempt
  handle_spec m origin attempt service (some name) =
      if is_event (worker.read_json m.value)
      then release m name origin attempt
      else give_up m origin service attempt

  -- `_handle_message` for a message that is due
  unfoldable pub handle_due : Message → Headers → Origin → Method Unit
  handle_due m headers origin =
      let service = or_empty_text (lookup hdr_service headers) in
      handle_spec m origin (int_header headers hdr_attempt (pos 2)) service
        (lookup service worker.specs)

  -- `_handle_message` once the origin is read; the clock is read only where there is a due time
  abbrev pub handle_read : Message → Headers → Option ℕ → Origin → Method Unit
  handle_read m headers none origin w = handle_due m headers origin w
  handle_read m headers (some due) origin w =
      if ltb (kafka.now w.trace) due then defer m due w else handle_due m headers origin w

  -- `_handle_message`
  unfoldable pub handle_message : Message → Method Unit
  handle_message m = do
    origin ← lift (from_headers worker.router.iso (decode_headers m) m)
    handle_read m (decode_headers m) (time_header worker.router.iso (decode_headers m) hdr_retry_at)
        origin

  -- `_handle_error`
  unfoldable pub handle_error : KafkaError → Method Unit
  handle_error e = elim e.code [
    | ErrorCode.partition_eof ↦ pure tt
    | _ ↦ if e.fatal then raise (exception (kafka_exception e)) else pure tt
  ]

  abbrev pub receive : Answer → Method Unit
  receive nothing = pure tt
  receive (error e) = handle_error e
  receive (message m) = handle_message m

  -- One round of the loop in `run`: the poll takes partitions away before it answers.
  unfoldable pub step : List ℕ × Answer → Method Unit
  step (gone, answer) = do resume_due; forget gone; receive answer

  -- the loop, up to an exception or to the end of what is polled
  unfoldable pub loop : List (List ℕ × Answer) → Method Unit
  loop [] = pure tt
  loop (x ∷ xs) = do step x; loop xs
