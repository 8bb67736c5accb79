-- ===== src/Consumer/Errors.antt =====
-- src/order_service/consumer/errors.py, and how an exception is described in headers (dlq.py).
use kafka_playgroud.Prelude.{ℕ, zero, suc, String, ◌==◌, nat_eq, string_eq, if◌then◌else◌, ltb}
use kafka_playgroud.Prelude.Words.{strip}
use kafka_playgroud.Consumer.Broker.{
  Exc, ExcClass, retryable_error, non_retryable_error, state_store_unavailable,
  failure_publish_failed, producer_fenced_error, kafka_exception, value_error, other_class,
}
use Prim.Native.Char.{code}
use Prim.Native.String.{◌++◌}

pub data FailureKind : Type 0 where
  retryable non_retryable : FailureKind

-- `classify`: whatever is not declared as one of the two is retryable.
unfoldable pub classify : Exc → FailureKind
classify exc = elim exc.class [ non_retryable_error ↦ non_retryable | _ ↦ retryable ]

-- `type(exc).__name__`
abbrev pub class_name : ExcClass → String
class_name retryable_error = "RetryableError"
class_name non_retryable_error = "NonRetryableError"
class_name state_store_unavailable = "StateStoreUnavailable"
class_name failure_publish_failed = "FailurePublishFailed"
class_name producer_fenced_error = "ProducerFenced"
class_name (kafka_exception _) = "KafkaException"
class_name value_error = "ValueError"
class_name (other_class name) = name

-- `text.replace("\n", " ")`
unfoldable pub newlines_to_spaces : String → String
newlines_to_spaces String.[] = ""
newlines_to_spaces (String.◌∷◌ c s) =
    String.◌∷◌ (if code c == 10 then " " else c) (newlines_to_spaces s)

-- `len(text)`, which counts characters
unfoldable pub count_chars : String → ℕ
count_chars String.[] = 0
count_chars (String.◌∷◌ c s) = suc (count_chars s)

-- `text[:n]`
unfoldable pub first_chars : ℕ → String → String
first_chars zero s = ""
first_chars (suc n) String.[] = ""
first_chars (suc n) (String.◌∷◌ c s) = String.◌∷◌ c (first_chars n s)

abbrev pub max_error_chars : ℕ
max_error_chars = 500

-- `text[:500] + "…"` where the text is longer
unfoldable pub truncated : String → String
truncated s =
    if ltb max_error_chars (count_chars s) then first_chars max_error_chars s ++ "…" else s

abbrev pub or_no_message : String → String
or_no_message s = if s == "" then "<no message>" else s

-- `describe_error`
unfoldable pub describe_error : Exc → String × String
unfolding newlines_to_spaces truncated strip
describe_error exc =
    (class_name exc.class, truncated (or_no_message (strip (newlines_to_spaces exc.text))))
