-- ===== src/Consumer/Tests/Rounds.antt =====
-- Witnesses for the rounds of a message through the retry topic, and for the services.
use kafka_playgroud.Prelude.{ℕ, ◌+◌, ◌≡◌, ◌≤◌, refl, [], String, max, nat_eq, string_eq, pos}
use kafka_playgroud.Dict.{lookup, insert}
use kafka_playgroud.Prelude.Words.{int_of}
use kafka_playgroud.Config.{
  backoff_for_attempt, retry_backoff_schedule, nonblank, parse_all, group_id_for,
}
use kafka_playgroud.Consumer.Broker.{Message, Outgoing}
use kafka_playgroud.Consumer.Errors.{classify}
use kafka_playgroud.Consumer.Dlq.{
  publish, await_delivery, judge, to_retry, to_source, from_message, decode_headers, provenance,
  str_of_int, error_headers,
}
use kafka_playgroud.Consumer.Dlq.Publishing.{copy_of, source_headers}
use kafka_playgroud.Consumer.Dlq.Provenance.{received}
use kafka_playgroud.Consumer.Folding.{attempt_of}
use kafka_playgroud.Consumer.Runtime.{publish_failure, has_budget}
use kafka_playgroud.Consumer.Runtime.Routing.{next_copy}
use kafka_playgroud.Consumer.RetryWorker.{int_header}
use kafka_playgroud.Consumer.RetryWorker.Attempts.{
  Retried, none_yet, once_more, attempt_in, Retries-attempt_in,
}
use kafka_playgroud.Consumer.Tests.{iso, failure, message}
use kafka_playgroud.Consumer.Tests.Commits.{service, idle}
use kafka_playgroud.Prelude.Json.{null}
use kafka_playgroud.Events.{EventType, LifecycleEvent}
use kafka_playgroud.Consumer.Tests.Worker.{worker}
use kafka_playgroud.Config.Tests.{settings}

abbrev first_copy : Outgoing
first_copy = next_copy service message failure (attempt_in message) 1005 []

abbrev waited : Message
waited = record message { topic = "orders.retry"; headers = received first_copy.headers }

abbrev second_copy : Outgoing
second_copy = copy_of waited "orders.lifecycle" (
    source_headers (from_message iso message) "inventory" (group_id_for settings "inventory")
      (pos 2))

abbrev again : Message
again = record message { headers = received second_copy.headers }

round : Retried service worker message again
unfolding publish_failure has_budget classify to_retry to_source publish await_delivery judge
    backoff_for_attempt retry_backoff_schedule nonblank parse_all attempt_of lookup decode_headers
    int_header int_of insert provenance str_of_int from_message error_headers
round = record {
  failure = failure;
  before = idle;
  scheduled = refl;
  published = refl;
  first_copy = first_copy;
  sent = refl;
  waited = waited;
  read_waited = refl;
  origin = from_message iso message;
  topic = "orders.lifecycle";
  then_at = [];
  second_copy = second_copy;
  released = refl;
  read_next = refl;
}

Retries-attempt_in_example :
    (attempt_in again ≡ attempt_in message + 1)
    × (attempt_in message + 1 ≤ max (attempt_in message) 3)
Retries-attempt_in_example =
    Retries-attempt_in service worker refl refl message again 1 (once_more none_yet round)

abbrev pub packed : LifecycleEvent
packed = record {
  event_id = "e-1";
  order_id = "o-1";
  sequence = 2;
  event_type = EventType.packed;
  occurred_at = 5;
  payload = null;
}

abbrev amount : ℕ → String
amount n = "0.00"
