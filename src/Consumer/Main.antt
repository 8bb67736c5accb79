-- ===== src/Consumer/Main.antt =====
-- src/order_service/consumer/main.py: `build_store` and `main`, with the construction of
-- `ServiceConsumer` (runtime.py) between them. Log lines and signal handlers are left out: a signal
-- ends what is polled. The clients' constructors, the subscription and the creation of the state
-- directory are parameters.
pub mod Startup
pub mod Outcomes
use kafka_playgroud.Prelude.{
  ℕ, Bool, true, false, Option, none, some, List, [], ◌∷◌, ◌++◌, String, Result, ok, err, ℤ,
  if◌then◌else◌, string_eq,
}
use Prim.Native.String.{◌++◌ as ◌++ˢ◌}
use kafka_playgroud.Prelude.Action.{pure}
use kafka_playgroud.Prelude.Json.{Json, JsonCodec}
use kafka_playgroud.Dict.{Dict}
use kafka_playgroud.Config.{Settings, StateBackend, validate, group_id_for, instance_label}
use kafka_playgroud.Events.{Pydantic}
use kafka_playgroud.Consumer.Broker.{
  Exc, ExcClass, kafka_exception, state_store_unavailable, producer_fenced_error, KafkaError, Event,
  flushed, Trace, Kafka, IsoTime, emit,
}
use kafka_playgroud.Consumer.Dlq.{Router}
use kafka_playgroud.Consumer.State.{StateStore, StoreIo, unavailable}
use kafka_playgroud.Consumer.State.Memory.{Memory, empty, memory_store}
use kafka_playgroud.Consumer.State.Local.{Engine, Reader, Local, LocalEnv, close, local_store}
use kafka_playgroud.Consumer.Transactions.{
  CommitStrategy, direct_committer, transactional_committer,
}
use kafka_playgroud.Consumer.Transactions.Building.{
  Strategy, direct, transactional, producer_config, build_commit_strategy,
}
use kafka_playgroud.Consumer.Group.{build_consumer_config}
use kafka_playgroud.Consumer.Runtime.{
  Service, Worker, Polled, exception, is_unavailable, is_kafka_exception,
}
use kafka_playgroud.Consumer.Runtime.Running.{run, is_exit}
use kafka_playgroud.Consumer.Services.{Spec, build_spec}

-- How a process ends: by the end of `main`, by `sys.exit`, by an exception that nothing catches, or
-- by `os._exit`.
pub data Exit : Type 0 where
  finished : Exit
  exited : ℕ → Exit
  uncaught : Exc → Exit
  killed : Exit

-- What a process is started with. `settings` are the fields that pydantic has read of the
-- environment, before the validators; `none` of a constructor is that it returned.
pub record World (D : Type 0) : Type 0 where
  pub settings : Settings
  pub kafka : Kafka
  pub iso : IsoTime
  pub parse_float : String → Option ℤ
  pub delivery_timeout_ms : ℕ
  pub codec : JsonCodec
  pub pydantic : Pydantic
  pub amount : ℕ → String
  pub engine : Engine D
  pub reader : Reader
  pub reports : Trace → List (ℕ × ℕ)
  pub disk : D
  pub root_usable : Bool  -- whether `mkdir` of the state directory succeeds
  pub new_producer : Dict String Json → Option KafkaError
  pub new_consumer : Dict String Json → Option KafkaError
  pub subscribe : Option KafkaError
  pub assignment : Trace → List (String × ℕ)

-- what `build_store` can return: a store of either class
pub data Backend (D : Type 0) : Type 0 where
  in_memory : Memory → Backend D
  on_disk : Local D → Backend D

abbrev pub is_fenced_error : Exc → Bool
is_fenced_error x = elim x.class [ producer_fenced_error ↦ true | _ ↦ false ]

-- the `except` clauses around `consumer.run()`
abbrev pub exit_of : Result Exc (Unit {0}) → Exit
exit_of (ok _) = finished
exit_of (err x) = elim x.class [
  | kafka_exception _ ↦ exited 1
  | state_store_unavailable ↦ exited 1
  | producer_fenced_error ↦ exited 1
  | _ ↦ uncaught x
]

module _ {D : Type 0} (world : World D) where
  abbrev pub kafka : Kafka
  kafka = world.kafka

  -- `FailureRouter`
  abbrev pub router : Settings → Router
  router s = record {
    kafka = kafka;
    iso = world.iso;
    settings = s;
    parse_float = world.parse_float;
    delivery_timeout_ms = world.delivery_timeout_ms;
  }

  -- what `LocalStateStore` is built with
  abbrev pub env : Settings → String → LocalEnv D
  env s group_id = record {
    engine = world.engine;
    reader = world.reader;
    kafka = kafka;
    codec = world.codec;
    settings = s;
    group_id = group_id;
    reports = world.reports;
  }

  -- `LocalStateStore.__init__`
  unfoldable pub new_local : Result Exc (Local D)
  new_local =
      if world.root_usable
      then ok (record { stores = []; position = []; disk = world.disk })
      else err unavailable

  abbrev pub opened : Result Exc (Local D) → Result Exc (Backend D)
  opened (ok s) = ok (on_disk s)
  opened (err x) = err x

  -- `build_store`
  unfoldable pub build_store : Settings → Result Exc (Backend D)
  unfolding new_local
  build_store s = elim s.state_backend [
    | StateBackend.memory ↦ ok (in_memory empty)
    | StateBackend.local ↦ opened new_local
  ]

  -- the closes of a refused start: `router.close` does nothing
  abbrev pub close_refused : {S : Type 0} → StoreIo S Unit → S → Trace → Exit × Trace
  close_refused close s t =
      let (answer, (_, t')) = close (s, t) in
      (elim answer [ ok _ ↦ exited 2 | err x ↦ uncaught x ], t')

  -- `producer.flush(10.0)`
  abbrev pub final_flush : Exit → Trace → Exit × Trace
  final_flush exit t = (exit, emit (flushed (kafka.flush t 10000)) t)

  -- the `finally` block of `main`; an exception of `store.close` ends it
  abbrev pub closed_with : Exit → Result Exc (Unit {0}) → Trace → Exit × Trace
  closed_with exit (ok _) t = final_flush exit t
  closed_with exit (err x) t = (uncaught x, t)

  abbrev pub finally_close : {S : Type 0} → StoreIo S Unit → Exit → S × Trace → Exit × Trace
  finally_close close exit st = let (answer, (_, t)) = close st in closed_with exit answer t

  -- what follows `consumer.run()`, unless the process is gone
  abbrev pub after_run :
      {S : Type 0} → StoreIo S Unit → Result Exc (Unit {0}) → S × Trace → Exit × Trace
  after_run close (ok _) st = finally_close close finished st
  after_run close (err x) st =
      if is_exit x then (killed, st.1) else finally_close close (exit_of (err x)) st

  module _ (s : Settings) (spec : Spec) (polled : List Polled) where
    abbrev pub service : {S C : Type 0} → StateStore S → CommitStrategy C → Service S C
    service store commits = record {
      name = spec.name;
      handlers = spec.handlers;
      settings = s;
      store = store;
      commits = commits;
      router = router s;
      codec = world.codec;
      pydantic = world.pydantic;
      assignment = world.assignment;
    }

    module _ {S : Type 0} (store : StateStore S) (close : StoreIo S Unit) (st : S) where
      -- `consumer.run()`: an exception of `subscribe` leaves it before its `finally`
      abbrev pub subscribed :
          {C : Type 0} → CommitStrategy C → C → Trace → Option KafkaError → Exit × Trace
      subscribed commits c t (some e) =
          after_run close (err (exception (kafka_exception e))) (st, t)
      subscribed commits c t none =
          let (answer, w) =
            run (service store commits) polled (record { store = st; commits = c; trace = t }) in
          after_run close answer (w.store, w.trace)

      -- `main` from `consumer.run()` on
      unfoldable pub consume : {C : Type 0} → CommitStrategy C → C → Trace → Exit × Trace
      consume commits c t = subscribed commits c t world.subscribe

      -- `main` once the commit strategy was asked for, the last thing that `ServiceConsumer.__init__`
      -- does
      abbrev pub after_strategy : Result Exc Strategy → Trace → Exit × Trace
      after_strategy (ok direct) t = consume (direct_committer kafka) tt t
      after_strategy (ok (transactional c)) t = consume (transactional_committer kafka s) c t
      after_strategy (err x) t =
          if is_fenced_error x then close_refused close st t else (uncaught x, t)

      abbrev pub with_client : Trace → Option KafkaError → Exit × Trace
      with_client t (some e) = (uncaught (exception (kafka_exception e)), t)
      with_client t none =
          let (answer, t') = build_commit_strategy kafka s t in after_strategy answer t'

      abbrev pub with_config : Trace → Result (List String) (Dict String Json) → Exit × Trace
      with_config t (err _) = close_refused close st t
      with_config t (ok config) = with_client t (world.new_consumer config)

      -- `main` from the construction of `ServiceConsumer` on
      unfoldable pub with_store : Trace → Exit × Trace
      with_store t = with_config t (
          build_consumer_config s (group_id_for s spec.name)
            ("order-service-" ++ˢ (spec.name ++ˢ ("-" ++ˢ instance_label s))))

    abbrev pub after_store : Result Exc (Backend D) → Exit × Trace
    after_store (ok (in_memory m)) = with_store memory_store (pure tt) m []
    after_store (ok (on_disk l)) =
        let e = env s (group_id_for s spec.name) in with_store (local_store e) (close e) l []
    after_store (err x) = if is_unavailable x then (exited 2, []) else (uncaught x, [])

    abbrev pub with_producer : Option KafkaError → Exit × Trace
    with_producer (some e) = (uncaught (exception (kafka_exception e)), [])
    with_producer none = after_store (build_store s)

    -- `main` from `build_producer` on
    unfoldable pub with_spec : Exit × Trace
    with_spec =
        with_producer
          (world.new_producer (producer_config s (group_id_for s spec.name) (instance_label s)))

  abbrev pub with_named : Settings → List Polled → Option Spec → Exit × Trace
  with_named s polled none = (exited 2, [])
  with_named s polled (some spec) = with_spec s spec polled

  abbrev pub with_settings : List Polled → Option Settings → Exit × Trace
  with_settings polled none = (exited 2, [])
  with_settings polled (some s) =
      with_named s polled (build_spec world.pydantic world.amount s.service_name)

  -- `main`, with what is polled until it is stopped
  unfoldable pub main : List Polled → Exit × Trace
  main polled = with_settings polled (validate world.settings)
