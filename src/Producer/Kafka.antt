-- ===== src/Producer/Kafka.antt =====
-- src/order_service/producer/kafka_producer.py: keyed publishing and delivery reports. The
-- librdkafka client is a parameter: what it answers to each call, given all that it has accepted
-- before. The poll thread has no state of its own; that a report arrives is an answer.
pub mod Delivery
use kafka_playgroud.Prelude.{
  ℕ, Option, none, some, List, [], ◌∷◌, ◌++◌, String, Result, ok, err, Bool, true, false,
}
use kafka_playgroud.Prelude.Action.{Action, ◌>>=◌, ◌>>◌, pure, raise, gets, lift}
use kafka_playgroud.Prelude.Json.{Bytes, utf8, Json, JsonCodec}
use kafka_playgroud.Events.{LifecycleEvent}
use kafka_playgroud.Config.{Settings, producer_delivery_wait_ms}

pub record ProducerRecord : Type 0 where
  pub topic : String
  pub key : Bytes
  pub value : Option Bytes

pub record DeliveryResult : Type 0 where
  pub partition : ℕ
  pub offset : ℕ

pub data DeliveryError : Type 0 where
  delivery_failed : DeliveryError
  delivery_timeout : DeliveryError

-- `produce()` returns, or raises `BufferError` or `KafkaException`.
pub data Enqueue : Type 0 where
  accepted : Enqueue
  buffer_error : Enqueue
  kafka_exception : Enqueue

-- The delivery report within the wait, if one arrives.
pub data Report : Type 0 where
  delivered : DeliveryResult → Report
  refused : Report
  nothing : Report

-- `list_topics`, asked about one topic: `KafkaException`, or whether it is there with no error.
pub data Metadata : Type 0 where
  unreachable : Metadata
  present : Metadata
  missing : Metadata

-- All that the client accepted, the first first.
abbrev pub Wire : Type 0
Wire = List ProducerRecord

pub record Client : Type 0 where
  pub produce : Wire → ProducerRecord → Enqueue
  pub wait : Wire → ℕ → Report
  pub list_topics : Wire → String → Metadata

-- `_describe_delivery_error` and the texts of the exceptions are left out.
module _ (client : Client) (settings : Settings) where
  -- `_produce_keyed`
  unfoldable pub produce_keyed : ProducerRecord → Action Wire DeliveryError Unit
  produce_keyed r wire = elim (client.produce wire r) [
    | Enqueue.accepted ↦ (ok tt, wire ++ r ∷ [])
    | Enqueue.buffer_error ↦ (err delivery_failed, wire)
    | Enqueue.kafka_exception ↦ (err delivery_failed, wire)
  ]

  -- `topic_exists`, and what the caller makes of an exception of it
  abbrev topic_missing : Wire → String → Bool
  topic_missing wire topic = elim (client.list_topics wire topic) [
    | Metadata.unreachable ↦ false
    | Metadata.present ↦ false
    | Metadata.missing ↦ true
  ]

  -- what `_publish_blocking` does once the message is enqueued
  unfoldable pub await_report : String → ℕ → Action Wire DeliveryError DeliveryResult
  await_report topic wait_ms wire = elim (client.wait wire wait_ms) [
    | Report.delivered result ↦ (ok result, wire)
    | Report.refused ↦ (err delivery_failed, wire)
    | Report.nothing ↦ elim (topic_missing wire topic) [
      | true ↦ (err delivery_failed, wire)
      | false ↦ (err delivery_timeout, wire)
    ]
  ]

  -- `_publish_blocking`, with the default timeout
  unfoldable pub publish_blocking : ProducerRecord → Action Wire DeliveryError DeliveryResult
  publish_blocking r = do produce_keyed r; await_report r.topic (producer_delivery_wait_ms settings)

  -- `publish_and_wait`; `dump_event` is pydantic's `model_dump_json`
  unfoldable pub publish_and_wait :
      (LifecycleEvent → String) → LifecycleEvent → Action Wire DeliveryError DeliveryResult
  publish_and_wait dump_event event = publish_blocking (record {
    topic = settings.order_lifecycle_topic;
    key = utf8 event.order_id;
    value = some (utf8 (dump_event event));
  })

  -- `publish_snapshot`: it neither waits nor raises
  unfoldable pub publish_snapshot : JsonCodec → String → Json → Wire → Wire
  publish_snapshot codec order_id snapshot wire =
      (produce_keyed
        (record {
          topic = settings.order_snapshot_topic;
          key = utf8 order_id;
          value = some (utf8 (codec.dumps snapshot));
        })
        wire).1

  -- `publish_tombstone`
  unfoldable pub publish_tombstone : String → Action Wire DeliveryError DeliveryResult
  publish_tombstone order_id =
      publish_blocking
        (record { topic = settings.order_snapshot_topic; key = utf8 order_id; value = none })
