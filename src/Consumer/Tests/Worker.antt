-- ===== src/Consumer/Tests/Worker.antt =====
-- Witnesses for the retry worker.
use kafka_playgroud.Prelude.{
  ℕ, ◌≡◌, refl, inl, none, some, [], ◌∷◌, ◌++◌, String, ok, err, nat_eq, string_eq, pair_eq,
  if◌then◌else◌, map, pos, arith,
}
use kafka_playgroud.Prelude.Json.{null}
use kafka_playgroud.Prelude.Words.{int_of}
use kafka_playgroud.Dict.{lookup, insert}
use kafka_playgroud.Config.{group_id_for}
use kafka_playgroud.Events.{
  EventFields, EventType, Pydantic, validate_event, validate_payload, gt_0,
}
use kafka_playgroud.Consumer.Broker.{Message, Outgoing, Enqueue, accepted, buffer_error, Trace}
use kafka_playgroud.Consumer.Dlq.{
  Router, Origin, decode_headers, from_headers, from_message, encode_header, hdr_retry_at,
  to_source, publish, await_delivery, judge, publish_exception, provenance, str_of_int,
}
use kafka_playgroud.Consumer.Dlq.Publishing.{copy_of, source_headers}
use kafka_playgroud.Consumer.Dlq.Provenance.{received, retry_headers}
use kafka_playgroud.Consumer.Runtime.Committing.{attempts_of}
use kafka_playgroud.Consumer.RetryWorker.{
  RetryWorker, Waiting, handle_message, handle_due, release, commit, resume_due, time_header,
  int_header,
}
use kafka_playgroud.Consumer.RetryWorker.Handling.{IsKept, Forwarded, handle_message-IsKept}
use kafka_playgroud.Consumer.RetryWorker.Deferral.{
  IsDeferred, handle_message-IsDeferred, resume_due_lem, resumes_of, due_keys, is_due_in,
}
use kafka_playgroud.Consumer.RetryWorker.Unreleased.{release_failed-handle_message, seeks_of}
use kafka_playgroud.Consumer.Tests.{calm, iso, router, message}
use kafka_playgroud.Config.Tests.{settings}

abbrev pub fields : EventFields
fields = record {
  event_id = "e-1";
  order_id = "o-1";
  sequence = pos 2;
  event_type = EventType.packed;
  occurred_at = 5;
  payload = null;
}

abbrev pub pydantic : Pydantic
pydantic = record {
  read_order_created = λ j. none;
  read_shipped = λ j. none;
  read_event = λ j. none;
  dump = λ p. null;
}

-- a worker that knows one service
abbrev pub worker : RetryWorker
worker = record {
  settings = settings;
  specs = ("inventory", "inventory") ∷ [];
  router = router;
  pydantic = pydantic;
  read_json = λ v. some fields;
}

abbrev pub idle : Waiting
idle = record { deferred = []; trace = [] }

abbrev error_texts : String × (String × String)
error_texts = ("RetryableError", ("no", "now"))

-- a message that waits for its second attempt
abbrev pub waiting : Message
waiting = record message {
  topic = "orders.retry";
  headers = received (
      map encode_header
        (retry_headers (from_message iso message) "inventory" "g" 2 "then" error_texts));
}

handle_message-IsKept_example : IsKept waiting [] (handle_message worker waiting idle).1.trace
handle_message-IsKept_example = handle_message-IsKept worker refl waiting idle

-- a worker for which every time is later than the clock
abbrev early_router : Router
early_router = record router {
  iso = record { isoformat = λ n. "now"; fromisoformat = λ s. some 9 };
}

abbrev early : RetryWorker
early = record worker { router = early_router }

read_origin :
    from_headers early.router.iso (decode_headers waiting) waiting ≡ ok (from_message iso message)
unfolding from_headers from_message decode_headers lookup provenance insert int_of str_of_int
read_origin = refl

read_due : time_header early.router.iso (decode_headers waiting) hdr_retry_at ≡ some 9
unfolding time_header lookup decode_headers provenance insert
read_due = refl

handle_message-IsDeferred_example :
    ((handle_message early waiting idle).0 ≡ ok tt)
    × IsDeferred waiting 9 idle (handle_message early waiting idle).1
handle_message-IsDeferred_example =
    handle_message-IsDeferred early waiting (from_message iso message) 9 idle read_origin read_due
      (omega arith)

abbrev partition_key : String × ℕ
partition_key = ("orders.retry", 1)

-- two partitions that wait, one of them until now
abbrev resting : Waiting
resting = record { deferred = (("orders.retry", 0), 3) ∷ (partition_key, 9) ∷ []; trace = [] }

resume_due_lem_example :
    ((resume_due worker resting).0 ≡ ok tt)
    × (resumes_of (resume_due worker resting).1.trace
        ≡ resumes_of [] ++ due_keys 5 resting.deferred)
    × (lookup partition_key (resume_due worker resting).1.deferred ≡ (
        if is_due_in 5 partition_key resting.deferred
        then none
        else lookup partition_key resting.deferred))
resume_due_lem_example = resume_due_lem worker partition_key resting

-- a client whose buffer is full for its first message
abbrev full_at_first : Trace → Enqueue
full_at_first [] = buffer_error
full_at_first (_ ∷ _) = accepted

abbrev crowded : RetryWorker
crowded = record worker {
  router = record router { kafka = record calm { produce = λ t out. full_at_first t } };
}

abbrev origin : Origin
origin = from_message iso message

abbrev next_message : Message
next_message = record waiting { offset = 5 }

not_sent :
    (to_source crowded.router waiting origin "inventory"
      (group_id_for settings "inventory")
      (pos 2)
      []).0
    ≡ err publish_exception
unfolding to_source publish
not_sent = refl

abbrev copy : Outgoing
copy =
    copy_of next_message "orders.lifecycle"
      (source_headers origin "inventory" (group_id_for settings "inventory") (pos 2))

forwarded :
    Forwarded next_message copy
      (release crowded waiting "inventory" origin (pos 2) idle).1.trace
      (handle_message crowded next_message
        (release crowded waiting "inventory" origin (pos 2) idle).1).1.trace
unfolding handle_message handle_due release commit to_source publish await_delivery judge lookup
    decode_headers from_headers from_message time_header validate_event validate_payload gt_0
    provenance insert int_of str_of_int int_header
forwarded = (refl, refl, inl refl)

release_failed-handle_message_example :
    ((release crowded waiting "inventory" origin (pos 2) idle).0 ≡ ok tt)
    × (attempts_of
          (handle_message crowded next_message
            (release crowded waiting "inventory" origin (pos 2) idle).1).1.trace
        ≡ [] ++ next_message ∷ [])
    × (seeks_of
          (handle_message crowded next_message
            (release crowded waiting "inventory" origin (pos 2) idle).1).1.trace
        ≡ [])
unfolding attempts_of seeks_of
release_failed-handle_message_example =
    release_failed-handle_message crowded refl waiting next_message "inventory" origin (pos 2) idle
      publish_exception copy not_sent refl forwarded
