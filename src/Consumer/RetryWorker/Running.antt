-- ===== src/Consumer/RetryWorker/Running.antt =====
-- src/order_service/consumer/retry_worker.py: `run` and `main`, in the environment of a consumer
-- process. Its specs are those of `SERVICE_REGISTRY`; signal handlers and log lines are left out,
-- except that the second line of `run` reads the backoff schedule, which may raise.
pub mod Whole
use kafka_playgroud.Prelude.{
  ℕ, ℤ, Option, none, some, List, [], ◌∷◌, String, Result, ok, err, if◌then◌else◌, ◌==◌, string_eq,
}
use Prim.Native.String.{◌++◌ as ◌++ˢ◌}
use kafka_playgroud.Prelude.Action.{◌>>=◌, ◌>>◌, pure, raise}
use kafka_playgroud.Prelude.Json.{Bytes, Json}
use kafka_playgroud.Dict.{Dict}
use kafka_playgroud.Config.{Settings, validate, instance_label, or_text, retry_backoff_schedule}
use kafka_playgroud.Events.{EventFields}
use kafka_playgroud.Consumer.Broker.{
  Exc, ExcClass, kafka_exception, value_error, other_class, KafkaError, flushed, Trace, emit,
}
use kafka_playgroud.Consumer.Transactions.Building.{producer_config}
use kafka_playgroud.Consumer.Group.{build_consumer_config}
use kafka_playgroud.Consumer.Runtime.{exception}
use kafka_playgroud.Consumer.Main.{Exit, finished, exited, uncaught, World, router, final_flush}
use kafka_playgroud.Consumer.RetryWorker.{RetryWorker, Waiting, Answer, Method, loop, forget}
use kafka_playgroud.Consumer.Runtime.Running.{partitions_of}

-- `RETRY_WORKER_GROUP`
abbrev pub retry_worker_group : String
retry_worker_group = "retry-worker"

-- `{name: factory() for ...}`, with the names alone
abbrev pub registered : Dict String String
registered =
    ("inventory", "inventory") ∷ ("notification", "notification") ∷ ("analytics", "analytics") ∷ []

-- pydantic's `ValidationError`, which `main` does not catch
abbrev pub invalid_settings : Exc
invalid_settings = exception (other_class "ValidationError")

-- `main`'s `except KafkaException`
abbrev pub exit_of : Result Exc (Unit {0}) → Exit
exit_of (ok _) = finished
exit_of (err x) = elim x.class [ kafka_exception _ ↦ exited 1 | _ ↦ uncaught x ]

module _ {D : Type 0} (world : World D) (read_json : Option Bytes → Option EventFields) where
  abbrev pub worker_of : Settings → RetryWorker
  worker_of s = record {
    settings = s;
    specs = registered;
    router = router world s;
    pydantic = world.pydantic;
    read_json = read_json;
  }

  -- the call of `subscribe`
  abbrev pub subscribe : Option KafkaError → Method Unit
  subscribe none = pure tt
  subscribe (some e) = raise (exception (kafka_exception e))

  -- the backoff schedule in the log line
  abbrev pub banner : Option (List ℤ) → Method Unit
  banner none = raise (exception value_error)
  banner (some _) = pure tt

  -- the loop of `run` with its `finally`: closing the client revokes what is assigned, by `_on_revoke`
  abbrev pub loop_and_close : Settings → List (List ℕ × Answer) → Method Unit
  loop_and_close s polled w =
      let (answer, left) = loop (worker_of s) polled w in
      let held = partitions_of (world.assignment left.trace) in
      (answer, (forget (worker_of s) held left).1)

  -- `run`
  unfoldable pub run : Settings → List (List ℕ × Answer) → Method Unit
  run s polled = do
    subscribe world.subscribe
    banner (retry_backoff_schedule world.parse_float s)
    loop_and_close s polled

  -- `main` from `worker.run()` on
  abbrev pub after_run : Result Exc (Unit {0}) → Waiting → Exit × Trace
  after_run answer w = final_flush world (exit_of answer) w.trace

  abbrev pub with_client : Settings → List (List ℕ × Answer) → Option KafkaError → Exit × Trace
  with_client s polled (some e) = (uncaught (exception (kafka_exception e)), [])
  with_client s polled none =
      let (answer, w) = run s polled (record { deferred = []; trace = [] }) in after_run answer w

  abbrev pub with_config :
      Settings → List (List ℕ × Answer) → Result (List String) (Dict String Json) → Exit × Trace
  with_config s polled (err _) = (exited 2, [])
  with_config s polled (ok config) = with_client s polled (world.new_consumer config)

  abbrev pub group : Settings → String
  group s = or_text s.consumer_group_id retry_worker_group

  abbrev pub with_producer : Settings → List (List ℕ × Answer) → Option KafkaError → Exit × Trace
  with_producer s polled (some e) = (uncaught (exception (kafka_exception e)), [])
  with_producer s polled none =
      with_config s polled
        (build_consumer_config s (group s) ("retry-worker-" ++ˢ instance_label s))

  abbrev pub with_settings : List (List ℕ × Answer) → Option Settings → Exit × Trace
  with_settings polled none = (uncaught invalid_settings, [])
  with_settings polled (some s) =
      with_producer s polled (world.new_producer (producer_config s (group s) (instance_label s)))

  -- `main`
  unfoldable pub main : List (List ℕ × Answer) → Exit × Trace
  main polled = with_settings polled (validate world.settings)
