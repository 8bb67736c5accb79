-- ===== src/Consumer/Tests/Processes.antt =====
-- Witnesses for whole consumer processes.
use kafka_playgroud.Prelude.{◌≡◌, refl, true, false, none, List, [], ◌∷◌, ℕ, nat_eq, string_eq}
use kafka_playgroud.Config.{exactly_once, memory, validate}
use kafka_playgroud.Config.Tests.{settings}
use kafka_playgroud.Consumer.Runtime.Committing.{attempts_of, outcomes_of}
use kafka_playgroud.Consumer.Runtime.Settled.Runs.{messages_of}
use kafka_playgroud.Consumer.Main.{
  World, finished, exited, main, with_spec, with_store, consume, build_store,
}
use kafka_playgroud.Dict.{lookup}
use kafka_playgroud.Events.{validate_event, validate_payload, gt_0}
use kafka_playgroud.Consumer.Group.{build_consumer_config, validate_protocol_settings, problems}
use kafka_playgroud.Consumer.Dlq.{decode_headers}
use kafka_playgroud.Consumer.Folding.{attempt_of, key_of}
use kafka_playgroud.Consumer.Failures.{maybe_fail}
use kafka_playgroud.Consumer.Transactions.{note_direct}
use kafka_playgroud.Consumer.Transactions.Building.{build_commit_strategy}
use kafka_playgroud.Consumer.Runtime.{
  loop, step, settle, handle_message, handle_event, handle_tombstone, decode, run_attempt,
  persist_and_commit, persist_state_first, save_fold, crash_if_configured, commit, log_key,
}
use kafka_playgroud.Consumer.Runtime.Running.{run, close_consumer}
use kafka_playgroud.Consumer.Main.Startup.{main_refused}
use kafka_playgroud.Consumer.Main.Outcomes.{main_uncommitted}
use kafka_playgroud.Consumer.Main.Outcomes.Accounted.{IsAccounted, main-IsAccounted}
use kafka_playgroud.Consumer.Services.{build_spec}
use kafka_playgroud.Consumer.Broker.Collecting.{copies_of}
use kafka_playgroud.Consumer.RetryWorker.Running as Worker
use kafka_playgroud.Consumer.RetryWorker.Paid.{ArePaid}
use kafka_playgroud.Consumer.RetryWorker.Running.Whole.{main_paid}
use kafka_playgroud.Consumer.Tests.Worker.{worker, waiting}
use kafka_playgroud.Consumer.RetryWorker.{Answer}
use kafka_playgroud.Consumer.Tests.{calm, engine, reader, codec, iso, Disk}
use kafka_playgroud.Consumer.Tests.Commits.{pydantic, day}

abbrev world : World Disk
world = record {
  settings = settings;
  kafka = calm;
  iso = iso;
  parse_float = λ s. none;
  delivery_timeout_ms = 10000;
  codec = codec;
  pydantic = pydantic;
  amount = λ n. "";
  engine = engine;
  reader = reader;
  reports = λ t. [];
  disk = λ p k. none;
  root_usable = true;
  new_producer = λ config. none;
  new_consumer = λ config. none;
  subscribe = none;
  assignment = λ t. [];
}

main-IsAccounted_example :
    IsAccounted (messages_of day) (main world day).0 (outcomes_of (main world day).1)
main-IsAccounted_example = main-IsAccounted world refl refl day

abbrev memory_world : World Disk
memory_world = record world { settings = record settings { state_backend = memory } }

-- the message of the day and its tombstone are committed
ends : (main memory_world day).0 ≡ finished
unfolding main validate build_spec with_spec build_store with_store build_consumer_config
    validate_protocol_settings problems build_commit_strategy consume run close_consumer loop step
    settle handle_message handle_event handle_tombstone decode decode_headers attempt_of run_attempt
    maybe_fail persist_and_commit persist_state_first save_fold crash_if_configured commit
    note_direct lookup validate_event validate_payload gt_0 log_key key_of
ends = refl

abbrev careful_world : World Disk
careful_world = record world { settings = record settings { processing_guarantee = exactly_once } }

main_uncommitted_example : attempts_of (main careful_world day).1 ≡ []
main_uncommitted_example = main_uncommitted careful_world refl day

-- a process whose state directory cannot be made
abbrev shut_world : World Disk
shut_world = record world { root_usable = false }

shut : (main shut_world day).0 ≡ exited 2
unfolding main validate build_spec with_spec build_store
shut = refl

main_refused_example :
    (main shut_world day ≡ main shut_world []) × (outcomes_of (main shut_world day).1 ≡ [])
main_refused_example = main_refused shut_world day [] shut

-- a message that is due, to be released, and one whose headers name no service, to be given up
abbrev due : List (List ℕ × Answer)
due = ([], Answer.message waiting) ∷ ([], Answer.message (record waiting { headers = [] })) ∷ []

main_paid_example :
    ArePaid
      (attempts_of (Worker.main world worker.read_json due).1)
      (copies_of (Worker.main world worker.read_json due).1)
main_paid_example = main_paid world worker.read_json refl due
