-- ===== src/Consumer/Dlq.antt =====
-- src/order_service/consumer/dlq.py: the headers of a failed message, and the router that moves it
-- to the retry topic, back to its source, or to the dead-letter topic.
pub mod Publishing
pub mod Provenance
use kafka_playgroud.Prelude.{
  ℕ, ◌+◌, ◌-◌, suc, Bool, true, false, Option, none, some, List, [], ◌∷◌, ◌++◌, String, Result, ok,
  err, ◌==◌, nat_eq, string_eq, if◌then◌else◌, ℤ, pos, negsuc, map,
}
use kafka_playgroud.Prelude.Action.{Action, ◌>>=◌, ◌>>◌, pure, raise, gets, lift}
use kafka_playgroud.Prelude.Json.{Bytes, utf8, raw, decode_utf8}
use kafka_playgroud.Prelude.Words.{str_of, int_of}
use kafka_playgroud.Dict.{Dict, lookup, insert, has}
use kafka_playgroud.Config.{Settings, is_exactly_once, backoff_for_attempt}
use kafka_playgroud.Consumer.Broker.{
  Message, Outgoing, Exc, ExcClass, failure_publish_failed, value_error, Event, enqueued,
  not_enqueued, flushed, Trace, Enqueue, accepted, buffer_error, refused, Report, pending,
  delivered, failed, Kafka, IsoTime, Io, emit,
}
use kafka_playgroud.Consumer.Errors.{describe_error}

abbrev pub hdr_service : String
hdr_service = "x-service"

abbrev pub hdr_consumer_group : String
hdr_consumer_group = "x-consumer-group"

abbrev pub hdr_original_topic : String
hdr_original_topic = "x-original-topic"

abbrev pub hdr_original_partition : String
hdr_original_partition = "x-original-partition"

abbrev pub hdr_original_offset : String
hdr_original_offset = "x-original-offset"

abbrev pub hdr_original_timestamp : String
hdr_original_timestamp = "x-original-timestamp"

abbrev pub hdr_attempt : String
hdr_attempt = "x-attempt"

abbrev pub hdr_retry_target : String
hdr_retry_target = "x-retry-target"

abbrev pub hdr_retry_at : String
hdr_retry_at = "x-retry-at"

abbrev pub hdr_attempts_made : String
hdr_attempts_made = "x-attempts-made"

abbrev pub hdr_error_class : String
hdr_error_class = "x-error-class"

abbrev pub hdr_error_message : String
hdr_error_message = "x-error-message"

abbrev pub hdr_failed_at : String
hdr_failed_at = "x-failed-at"

abbrev pub Headers : Type 0
Headers = Dict String String

-- one round of `decode_headers`
abbrev pub add_header : Headers → String → Option Bytes → Headers
add_header d name none = d
add_header d name (some (utf8 v)) = insert name v d
add_header d name (some (raw _)) = d

unfoldable pub decode_from : Headers → List (String × Option Bytes) → Headers
decode_from d [] = d
decode_from d ((name, v) ∷ hs) = decode_from (add_header d name v) hs

-- `decode_headers`
unfoldable pub decode_headers : Message → Headers
unfolding decode_from
decode_headers m = decode_from [] m.headers

pub record Origin : Type 0 where
  pub topic : String
  pub partition : ℤ
  pub offset : ℤ
  pub timestamp : String

abbrev pub or_unknown : Option String → String
or_unknown none = "unknown"
or_unknown (some s) = s

-- `int(headers.get(name, -1))`; `none` is `ValueError`
abbrev pub int_or_minus_one : Option String → Option ℤ
int_or_minus_one none = some (negsuc 0)
int_or_minus_one (some s) = int_of s

-- `str` of an int
unfoldable pub str_of_int : ℤ → String
unfolding str_of
str_of_int (pos n) = str_of n
str_of_int (negsuc n) = String.◌∷◌ "-" (str_of (suc n))

abbrev pub value_exception : Exc
value_exception = record { class = value_error; text = "invalid literal for int()" }

-- `-` with the sign in the right place: a time and a backoff that may be negative
abbrev pub add_ms : ℕ → ℤ → ℕ
add_ms t (pos n) = t + n
add_ms t (negsuc n) = t - suc n

module _ (iso : IsoTime) where
  -- `_message_timestamp`
  unfoldable pub message_timestamp : Message → String
  message_timestamp m = if m.timestamp == 0 then "unknown" else iso.isoformat m.timestamp

  -- `Origin.from_message`
  unfoldable pub from_message : Message → Origin
  from_message m = record {
    topic = if m.topic == "" then "unknown" else m.topic;
    partition = pos m.partition;
    offset = pos m.offset;
    timestamp = message_timestamp m;
  }

  -- `Origin.from_headers`
  unfoldable pub from_headers : Headers → Message → Result Exc Origin
  from_headers headers m = elim (lookup hdr_original_topic headers) [
    | none ↦ ok (from_message m)
    | some topic ↦ elim (int_or_minus_one (lookup hdr_original_partition headers)) [
      | none ↦ err value_exception
      | some partition ↦ elim (int_or_minus_one (lookup hdr_original_offset headers)) [
        | none ↦ err value_exception
        | some offset ↦ ok (record {
          topic = topic;
          partition = partition;
          offset = offset;
          timestamp = or_unknown (lookup hdr_original_timestamp headers);
        })
      ]
    ]
  ]

-- `FailureRouter._provenance`
unfoldable pub provenance : Origin → String → String → Headers
provenance origin service group_id =
    (hdr_service, service)
    ∷ (hdr_consumer_group, group_id)
    ∷ (hdr_original_topic, origin.topic)
    ∷ (hdr_original_partition, str_of_int origin.partition)
    ∷ (hdr_original_offset, str_of_int origin.offset)
    ∷ (hdr_original_timestamp, origin.timestamp)
    ∷ []

abbrev pub encode_header : String × String → String × Bytes
encode_header (name, v) = (name, utf8 v)

abbrev pub publish_exception : Exc
publish_exception = record { class = failure_publish_failed; text = "no delivery report" }

-- What a router is built with. `delivery_timeout_ms` is `delivery_timeout_seconds`.
pub record Router : Type 0 where
  pub kafka : Kafka
  pub iso : IsoTime
  pub settings : Settings
  pub parse_float : String → Option ℤ
  pub delivery_timeout_ms : ℕ

module _ (r : Router) where
  -- what `_publish` makes of the delivery report, after the flush
  unfoldable pub judge : Outgoing → ℕ → Io Unit
  judge out remaining t =
      if remaining == 0
      then (elim (r.kafka.report t out) [
        | pending ↦ (err publish_exception, t)
        | failed ↦ (err publish_exception, t)
        | delivered ↦ (ok tt, t)
      ])
      else (err publish_exception, t)

  -- the flush and what follows, which is left out under `exactly_once`
  unfoldable pub await_delivery : Outgoing → Io Unit
  await_delivery out t =
      if is_exactly_once r.settings
      then (ok tt, t)
      else let remaining = r.kafka.flush t r.delivery_timeout_ms in
        judge out remaining (emit (flushed remaining) t)

  -- `FailureRouter._publish`
  unfoldable pub publish : String → Message → Headers → Io Unit
  publish topic m headers t =
      let out : Outgoing = record {
        topic = topic;
        key = m.key;
        value = m.value;
        headers = map encode_header headers;
      } in
      elim (r.kafka.produce t out) [
        | accepted ↦ await_delivery out (emit (enqueued out) t)
        | buffer_error ↦ (err publish_exception, emit (not_enqueued out) t)
        | refused _ ↦ (err publish_exception, emit (not_enqueued out) t)
      ]

  -- `backoff_for_attempt`, with its exception
  abbrev pub backoff : ℕ → Io ℤ
  backoff attempt t = elim (backoff_for_attempt r.parse_float r.settings attempt) [
    | none ↦ (err value_exception, t)
    | some b ↦ (ok b, t)
  ]

  abbrev pub utc_now : Io ℕ
  utc_now t = (ok (r.kafka.now t), t)

  -- the headers that say what went wrong
  unfoldable pub error_headers : Exc → ℕ → Headers
  error_headers error failed_at =
      (hdr_error_class, (describe_error error).0)
      ∷ (hdr_error_message, (describe_error error).1)
      ∷ (hdr_failed_at, r.iso.isoformat failed_at)
      ∷ []

  -- `FailureRouter.to_retry`; its value is the time when the attempt is due
  unfoldable pub to_retry : Message → Origin → String → String → ℕ → Exc → Io ℕ
  to_retry m origin service group_id attempt error = do
    b ← backoff attempt
    now ← utc_now
    failed_at ← utc_now
    publish r.settings.retry_topic m (
        provenance origin service group_id
        ++ ((hdr_attempt, str_of attempt)
            ∷ (hdr_retry_at, r.iso.isoformat (add_ms now b))
            ∷ error_headers error failed_at))
    pure (add_ms now b)

  -- `FailureRouter.to_source`; its value is the topic
  unfoldable pub to_source : Message → Origin → String → String → ℤ → Io String
  to_source m origin service group_id attempt = do
    publish origin.topic m (
        provenance origin service group_id
        ++ ((hdr_attempt, str_of_int attempt) ∷ (hdr_retry_target, service) ∷ []))
    pure origin.topic

  -- `FailureRouter.to_dead_letter`
  unfoldable pub to_dead_letter : Message → Origin → String → String → ℤ → Exc → Io Unit
  to_dead_letter m origin service group_id attempts_made error = do
    failed_at ← utc_now
    publish r.settings.dlq_topic m (
        provenance origin service group_id
        ++ ((hdr_attempts_made, str_of_int attempts_made) ∷ error_headers error failed_at))
