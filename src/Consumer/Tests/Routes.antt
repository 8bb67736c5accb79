-- ===== src/Consumer/Tests/Routes.antt =====
-- Witnesses for the fold, the headers and the routes of a failed message.
use kafka_playgroud.Prelude.{
  ℕ, ◌+◌, ◌≡◌, refl, ◌⊎◌, some, List, [], ◌∷◌, ◌++◌, String, ok, nat_eq, string_eq, max, map,
}
use kafka_playgroud.Prelude.Json.{null}
use kafka_playgroud.Dict.{lookup}
use kafka_playgroud.Config.{backoff_for_attempt, retry_backoff_schedule, nonblank, parse_all}
use kafka_playgroud.Events.{EventType, LifecycleEvent, is_legal_transition, resulting_state}
use kafka_playgroud.Consumer.Broker.{Message, emit, committed, commit_rejected, enqueued, flushed}
use kafka_playgroud.Consumer.Errors.{classify}
use kafka_playgroud.Consumer.Dlq.{
  Headers, publish, await_delivery, judge, from_message, from_headers, decode_headers,
  encode_header, hdr_service, hdr_consumer_group, hdr_retry_at, to_retry,
}
use kafka_playgroud.Consumer.Dlq.Provenance.{received, retry_headers, retry_headers-read}
use kafka_playgroud.Consumer.Folding.{apply_event, attempt_of}
use kafka_playgroud.Consumer.Folding.Violations.{
  apply_all, apply_all_clean, sequence_before, state_before, events_left,
}
use kafka_playgroud.Consumer.Runtime.{publish_failure, has_budget, route_failure, commit}
use kafka_playgroud.Consumer.Runtime.Committing.{Rewound}
use kafka_playgroud.Consumer.Runtime.Ladder.{route_failure_ok}
use kafka_playgroud.Consumer.Transactions.{note_direct}
use kafka_playgroud.Consumer.Runtime.Routing.{next_copy}
use kafka_playgroud.Consumer.Tests.{iso, router, failure, message, fold}
use kafka_playgroud.Consumer.Tests.Commits.{service, idle}

abbrev shipped : LifecycleEvent
shipped = record {
  event_id = "e-3";
  order_id = "o-1";
  sequence = 3;
  event_type = EventType.shipped;
  occurred_at = 9;
  payload = null;
}

abbrev stream : List LifecycleEvent
stream = shipped ∷ record shipped { sequence = 4; event_type = EventType.delivered } ∷ []

stream_clean : (apply_all (some fold) stream).1 ≡ []
unfolding apply_all apply_event is_legal_transition resulting_state
stream_clean = refl

apply_all_clean_example :
    (sequence_before (apply_all (some fold) stream).0 ≡ 2 + 2)
    × (2 + events_left (state_before (apply_all (some fold) stream).0) ≡ 2)
apply_all_clean_example = apply_all_clean (some fold) stream stream_clean

abbrev headers : Headers
headers = ("x-service", "inventory") ∷ []

published : (publish router "orders.dlq" message headers []).0 ≡ ok tt
unfolding publish await_delivery judge
published = refl

routed : (publish_failure service message failure 1 idle).0 ≡ ok tt
unfolding publish_failure has_budget classify to_retry publish await_delivery judge
    backoff_for_attempt retry_backoff_schedule nonblank parse_all
routed = refl

abbrev error_texts : String × (String × String)
error_texts = ("RetryableError", ("no", "now"))

abbrev retried : Message
retried = record message {
  headers = received (
      map encode_header
        (retry_headers (from_message iso message) "inventory" "g" 2 "then" error_texts));
}

retry_headers-read_example :
    (from_headers iso (decode_headers retried) retried ≡ ok (from_message iso message))
    × (lookup hdr_service (decode_headers retried) ≡ some "inventory")
    × (lookup hdr_consumer_group (decode_headers retried) ≡ some "g")
    × (attempt_of (decode_headers retried) ≡ max 1 2)
    × (lookup hdr_retry_at (decode_headers retried) ≡ some "then")
retry_headers-read_example =
    retry_headers-read iso message retried "inventory" "g" 2 "then" error_texts refl

committed_after : (route_failure service message failure 1 idle).0 ≡ ok tt
unfolding route_failure commit note_direct publish_failure has_budget classify to_retry publish
    await_delivery judge backoff_for_attempt retry_backoff_schedule nonblank parse_all
committed_after = refl

route_failure_ok_example :
    ((due : ℕ) × (let t =
          [] ++ enqueued (next_copy service message failure 1 due []) ∷ flushed 0 ∷ [] in
        ((route_failure service message failure 1 idle).1.trace ≡ emit (committed message) t)
        ⊎ ((route_failure service message failure 1 idle).1.trace
            ≡ emit (commit_rejected message) t)))
    ⊎ Rewound message (route_failure service message failure 1 idle).1.trace
route_failure_ok_example = route_failure_ok service refl refl message failure 1 idle committed_after
