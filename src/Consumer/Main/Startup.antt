-- ===== src/Consumer/Main/Startup.antt =====
-- `main` up to `consumer.run()`: a property of what a process does, given for the starts that are
-- refused and for those that consume. With it, what a start that is refused with status 2 has done.
use kafka_playgroud.Prelude.{
  ◌≡◌, ◌≢◌, ◌⊎◌, inl, inr, refl, ◌∙◌, Option, none, some, List, [], String, arith, Result, ok, err,
  Bool-cases, string_eq,
}
use mathlib.Core.List.{append-nil}
use kafka_playgroud.Prelude.Action.{pure}
use kafka_playgroud.Prelude.Json.{Json}
use kafka_playgroud.Dict.{Dict}
use kafka_playgroud.Config.{Settings, validate, group_id_for}
use kafka_playgroud.Consumer.Broker.{Exc, Trace, Kafka, KafkaError, kafka_exception}
use kafka_playgroud.Consumer.State.{StateStore, StoreIo}
use kafka_playgroud.Consumer.State.Memory.{memory_store}
use kafka_playgroud.Consumer.State.Local.{close, local_store}
use kafka_playgroud.Consumer.Transactions.{CommitStrategy, init}
use kafka_playgroud.Consumer.Transactions.Building.{
  Strategy, direct, transactional, build_commit_strategy,
}
use kafka_playgroud.Consumer.Runtime.{Polled, is_unavailable, exception}
use kafka_playgroud.Consumer.Runtime.Running.{run, is_exit}
use kafka_playgroud.Consumer.Runtime.Committing.{outcomes_of, outcomes_of-emit, IsQuiet}
use kafka_playgroud.Consumer.Runtime.Stores.{local_store-IsQuiet, memory_store-IsQuiet}
use kafka_playgroud.Consumer.Runtime.Stores.Calls.{close-Silent}
use kafka_playgroud.Consumer.Services.{Spec, build_spec}
use kafka_playgroud.Consumer.Main.{
  Exit, finished, exited, uncaught, World, Backend, in_memory, on_disk, is_fenced_error, exit_of,
  env, service, build_store, close_refused, closed_with, after_run, subscribed, consume,
  after_strategy, with_client, with_config, with_store, after_store, with_producer, with_spec,
  with_named, with_settings, main,
}

no_outcome : outcomes_of [] ≡ []
unfolding outcomes_of
no_outcome = refl

build_commit_strategy_quiet :
    (k : Kafka) (s : Settings) (t : Trace)
    → outcomes_of (build_commit_strategy k s t).1 ≡ outcomes_of t
unfolding build_commit_strategy init
build_commit_strategy_quiet k s t = grind (arith, outcomes_of-emit, append-nil)

-- A store's `close` that neither commits nor seeks.
abbrev pub Closes : {S : Type 0} → StoreIo S Unit → Type 0
Closes {S} close = (s : S) (t : Trace) → outcomes_of (close (s, t)).1.1 ≡ outcomes_of t

-- `P` is a property of what a process does with what is polled: it holds of an end other than the
-- normal one, without an outcome of any message, and of what follows once `ServiceConsumer` is built.
module _ {D : Type 0} (world : World D) (P : (List Polled → Exit × Trace) → Type 0)
    (refused : (exit : Exit) (t : Trace)
      → exit ≢ finished
      → outcomes_of t ≡ []
      → P (λ ps. (exit, t))) where
  close_refused_P :
      {S : Type 0} (close : StoreIo S Unit) (st : S) (t : Trace)
      → Closes close
      → outcomes_of t ≡ []
      → P (λ ps. close_refused world close st t)
  close_refused_P close st t quiet e =
      refused (close_refused world close st t).0 (close (st, t)).1.1 (ground arith) (quiet st t ∙ e)

  -- what is given for a process that consumes
  abbrev pub Consumed : Type 1
  Consumed =
      (S : Type 0) (s : Settings) (spec : Spec) (store : StateStore S) (close : StoreIo S Unit)
      (st : S) (strategy : Strategy) (t : Trace)
      → validate world.settings ≡ some s
      → build_spec world.pydantic world.amount s.service_name ≡ some spec
      → IsQuiet store
      → Closes close
      → (build_commit_strategy world.kafka s []).0 ≡ ok strategy
      → outcomes_of t ≡ []
      → P (λ ps. after_strategy world s spec ps store close st (ok strategy) t)

  module _ (consumed : Consumed) (s : Settings) (spec : Spec)
      (valid : validate world.settings ≡ some s)
      (built : build_spec world.pydantic world.amount s.service_name ≡ some spec) where
    module _ {S : Type 0} (store : StateStore S) (close : StoreIo S Unit) (st : S)
        (quiet : IsQuiet store) (closes : Closes close) where
      after_strategy_P :
          (r : Result Exc Strategy) (t : Trace)
          → (build_commit_strategy world.kafka s []).0 ≡ r
          → outcomes_of t ≡ []
          → P (λ ps. after_strategy world s spec ps store close st r t)
      after_strategy_P (ok strategy) t b e =
          consumed S s spec store close st strategy t valid built quiet closes b e
      after_strategy_P (err x) t b e = elim (Bool-cases (is_fenced_error x)) [
        | inl fenced ↦ rw fenced (close_refused_P close st t closes e)
        | inr raised ↦ rw raised (refused (uncaught x) t (λ q. cc) e)
      ]

      with_client_P :
          (o : Option KafkaError) → P (λ ps. with_client world s spec ps store close st [] o)
      with_client_P (some x) =
          refused (uncaught (exception (kafka_exception x))) [] (λ q. cc) no_outcome
      with_client_P none =
          let (answer, t) = build_commit_strategy world.kafka s [] in
          after_strategy_P answer t refl (build_commit_strategy_quiet world.kafka s [] ∙ no_outcome)

      with_config_P :
          (r : Result (List String) (Dict String Json))
          → P (λ ps. with_config world s spec ps store close st [] r)
      with_config_P (err _) = close_refused_P close st [] closes no_outcome
      with_config_P (ok config) = with_client_P (world.new_consumer config)

      with_store_P : P (λ ps. with_store world s spec ps store close st [])
      unfolding with_store
      with_store_P = with_config_P _

    after_store_P : (r : Result Exc (Backend D)) → P (λ ps. after_store world s spec ps r)
    after_store_P (ok (in_memory m)) =
        with_store_P memory_store (pure tt) m memory_store-IsQuiet (λ s t. refl)
    after_store_P (ok (on_disk l)) =
        let e = env world s (group_id_for s spec.name) in
        with_store_P (local_store e) (close e) l (local_store-IsQuiet e) (close-Silent e)
    after_store_P (err x) = elim (Bool-cases (is_unavailable x)) [
      | inl unusable ↦ rw unusable (refused (exited 2) [] (λ q. cc) no_outcome)
      | inr raised ↦ rw raised (refused (uncaught x) [] (λ q. cc) no_outcome)
    ]

    with_producer_P : (o : Option KafkaError) → P (λ ps. with_producer world s spec ps o)
    with_producer_P (some e) =
        refused (uncaught (exception (kafka_exception e))) [] (λ q. cc) no_outcome
    with_producer_P none = after_store_P (build_store world s)

    with_spec_P : P (λ ps. with_spec world s spec ps)
    unfolding with_spec
    with_spec_P = with_producer_P _

  module _ (consumed : Consumed) where
    with_named_P :
        (s : Settings) (o : Option Spec)
        → validate world.settings ≡ some s
        → build_spec world.pydantic world.amount s.service_name ≡ o
        → P (λ ps. with_named world s ps o)
    with_named_P s none valid built = refused (exited 2) [] (λ q. cc) no_outcome
    with_named_P s (some spec) valid built = with_spec_P consumed s spec valid built

    with_settings_P :
        (o : Option Settings) → validate world.settings ≡ o → P (λ ps. with_settings world ps o)
    with_settings_P none valid = refused (exited 2) [] (λ q. cc) no_outcome
    with_settings_P (some s) valid = with_named_P s _ valid refl

    pub main_P : P (λ ps. main world ps)
    unfolding main
    main_P = with_settings_P (validate world.settings) refl

exit_of-ne : (x : Exc) → exit_of (err x) ≢ exited 2
exit_of-ne x = ground arith

module _ {D : Type 0} (world : World D) where
  closed_with-ne :
      (exit : Exit) (r : Result Exc (Unit {0})) (t : Trace)
      → exit ≢ exited 2
      → (closed_with world exit r t).0 ≢ exited 2
  closed_with-ne exit (ok _) t h = h
  closed_with-ne exit (err x) t h = λ e. cc

  after_run-ne :
      {S : Type 0} (close : StoreIo S Unit) (r : Result Exc (Unit {0})) (st : S × Trace)
      → (after_run world close r st).0 ≢ exited 2
  after_run-ne close (ok _) st = closed_with-ne finished (close st).0 (close st).1.1 (λ e. cc)
  after_run-ne close (err x) st = elim (Bool-cases (is_exit x)) [
    | inl gone ↦ rw gone (λ e. cc)
    | inr raised ↦
        rw raised (closed_with-ne (exit_of (err x)) (close st).0 (close st).1.1 (exit_of-ne x))
  ]

  module _ {S C : Type 0} (s : Settings) (spec : Spec) (polled : List Polled) (store : StateStore S)
      (close : StoreIo S Unit) (st : S) (commits : CommitStrategy C) where
    subscribed-ne :
        (c : C) (t : Trace) (o : Option KafkaError)
        → (subscribed world s spec polled store close st commits c t o).0 ≢ exited 2
    subscribed-ne c t (some e) = after_run-ne close (err (exception (kafka_exception e))) (st, t)
    subscribed-ne c t none =
        let (answer, w) =
          run (service world s spec polled store commits) polled
            (record { store = st; commits = c; trace = t }) in
        after_run-ne close answer (w.store, w.trace)

    consume-ne :
        (c : C) (t : Trace) → (consume world s spec polled store close st commits c t).0 ≢ exited 2
    unfolding consume
    consume-ne c t = subscribed-ne c t world.subscribe

  module _ (polled polled' : List Polled) where
    -- Two runs of a process that are the same, and show no outcome of any message; or else the first
    -- does not end with status 2.
    abbrev IsRefused : (List Polled → Exit × Trace) → Type 0
    IsRefused f =
        ((f polled ≡ f polled') × (outcomes_of (f polled).1 ≡ [])) ⊎ ((f polled).0 ≢ exited 2)

    consumed-IsRefused :
        {S : Type 0} (s : Settings) (spec : Spec) (store : StateStore S) (close : StoreIo S Unit)
        (st : S) (strategy : Strategy) (t : Trace)
        → IsRefused (λ ps. after_strategy world s spec ps store close st (ok strategy) t)
    consumed-IsRefused s spec store close st direct t =
        inr (consume-ne s spec polled store close st _ tt t)
    consumed-IsRefused s spec store close st (transactional c) t =
        inr (consume-ne s spec polled store close st _ c t)

    main-IsRefused : IsRefused (λ ps. main world ps)
    main-IsRefused =
        main_P world IsRefused (λ exit t ne e. inl (refl, e))
          (λ S s spec store close st strategy t _ _ _ _ _ _.
            consumed-IsRefused s spec store close st strategy t)

    -- A process that ends with status 2 has polled nothing: it ends the same way, with the same effects,
    -- whatever there is to poll; and it has neither committed nor sought.
    pub main_refused :
        (main world polled).0 ≡ exited 2
        → (main world polled ≡ main world polled') × (outcomes_of (main world polled).1 ≡ [])
    main_refused e = elim main-IsRefused [ inl same ↦ same | inr other ↦ absurd (other e) ]
