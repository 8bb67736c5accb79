-- ===== src/Consumer/Broker.antt =====
-- What a consumer process exchanges with the outside. Every call that has an effect leaves an event
-- in the trace, with how it ended; what the outside answers (`Kafka`, a parameter for the
-- confluent_kafka client and the clock) is a function of the trace so far, so that a statement
-- about every `Kafka` is one about every behaviour of the broker.
pub mod Collecting
use kafka_playgroud.Prelude.{ℕ, Bool, Option, List, String, ◌++◌, [], ◌∷◌, Result}
use kafka_playgroud.Prelude.Action.{Action}
use kafka_playgroud.Prelude.Json.{Bytes}
use kafka_playgroud.Events.{EventType}

-- A polled message that carries no error. `timestamp` is in milliseconds, 0 where there is none.
pub record Message : Type 0 where
  pub topic : String
  pub partition : ℕ
  pub offset : ℕ
  pub key : Option Bytes
  pub value : Option Bytes
  pub headers : List (String × Option Bytes)
  pub timestamp : ℕ

-- What is handed to `Producer.produce`.
pub record Outgoing : Type 0 where
  pub topic : String
  pub key : Option Bytes
  pub value : Option Bytes
  pub headers : List (String × Bytes)

pub data ErrorCode : Type 0 where
  partition_eof fenced invalid_producer_epoch producer_fenced other_code : ErrorCode

pub record KafkaError : Type 0 where
  pub code : ErrorCode
  pub fatal : Bool

-- The exceptions that the consumer code raises or catches. `producer_fenced_error` is the class
-- `ProducerFenced`.
pub data ExcClass : Type 0 where
  retryable_error : ExcClass
  non_retryable_error : ExcClass
  state_store_unavailable : ExcClass
  failure_publish_failed : ExcClass
  producer_fenced_error : ExcClass
  kafka_exception : KafkaError → ExcClass
  value_error : ExcClass
  other_class : String → ExcClass

pub record Exc : Type 0 where
  pub class : ExcClass
  pub text : String

pub data Event : Type 0 where
  enqueued : Outgoing → Event
  not_enqueued : Outgoing → Event
  flushed : ℕ → Event  -- with what remains in the queue
  polled : Event  -- `poll(0)`
  paused : String → ℕ → Event
  pause_failed : String → ℕ → Event
  resumed : String → ℕ → Event
  resume_failed : String → ℕ → Event
  committed : Message → Event
  commit_rejected : Message → Event
  sought : String → ℕ → ℕ → Event
  seek_failed : String → ℕ → ℕ → Event
  initialised : Event
  began : Event
  offsets_sent : List ((String × ℕ) × ℕ) → Event
  transaction_committed : Event
  aborted : Event
  transaction_call_failed : KafkaError → Event
  handled : Event  -- a service's handler returned
  printed : String → Event  -- a line that a service's handler logs
  counted : EventType → String → Event  -- analytics' counter goes up, and its line is logged
  slept : ℕ → Event
  exited : Event  -- `os._exit`

abbrev pub Trace : Type 0
Trace = List Event

pub data Enqueue : Type 0 where
  accepted : Enqueue
  buffer_error : Enqueue
  refused : KafkaError → Enqueue

-- what the delivery callback of a message has been told so far
pub data Report : Type 0 where
  pending : Report
  delivered : Report
  failed : Report

pub record Kafka : Type 0 where
  pub produce : Trace → Outgoing → Enqueue
  pub flush : Trace → ℕ → ℕ  -- the timeout, and what remains
  pub report : Trace → Outgoing → Report
  pub commit : Trace → Message → Option KafkaError
  pub pause : Trace → String → ℕ → Option KafkaError
  pub resume : Trace → String → ℕ → Option KafkaError
  pub seek : Trace → String → ℕ → ℕ → Option KafkaError
  pub init_transactions : Trace → Option KafkaError
  pub begin_transaction : Trace → Option KafkaError
  pub send_offsets : Trace → List ((String × ℕ) × ℕ) → Option KafkaError
  pub commit_transaction : Trace → Option KafkaError
  pub abort_transaction : Trace → Option KafkaError
  pub committed_offsets : Trace → ℕ → Result KafkaError (List ((String × ℕ) × Option ℕ))
  pub now : Trace → ℕ  -- the clock, in milliseconds

-- `datetime.isoformat` and `datetime.fromisoformat`, whose `none` is `ValueError`
pub record IsoTime : Type 0 where
  pub isoformat : ℕ → String
  pub fromisoformat : String → Option ℕ

abbrev pub Io : Type 0 → Type 0
Io A = Action Trace Exc A

abbrev pub emit : Event → Trace → Trace
emit e t = t ++ e ∷ []
