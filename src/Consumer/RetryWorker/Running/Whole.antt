-- ===== src/Consumer/RetryWorker/Running/Whole.antt =====
-- A whole process of the retry worker, outside transactions: commits against copies.
use kafka_playgroud.Prelude.{
  ℕ, ◌≡◌, refl, ◌∙◌, Option, none, some, List, [], String, false, Result, ok, err, ℤ, string_eq,
}
use mathlib.Core.List.{append-nil}
use kafka_playgroud.Prelude.Json.{Bytes, Json}
use kafka_playgroud.Dict.{Dict}
use kafka_playgroud.Config.{
  Settings, at_least_once, validate, is_exactly_once, retry_backoff_schedule,
}
use kafka_playgroud.Events.{EventFields}
use kafka_playgroud.Consumer.Broker.{KafkaError, Trace}
use kafka_playgroud.Consumer.Broker.Collecting.{copies_of, copies_of-emit}
use kafka_playgroud.Consumer.Runtime.Committing.{attempts_of, attempts_of-emit}
use kafka_playgroud.Consumer.Main.{World, Exit, final_flush}
use kafka_playgroud.Consumer.Main.Outcomes.{valid_guarantee}
use kafka_playgroud.Consumer.Main.Outcomes.Accounted.{not_exactly_once}
use kafka_playgroud.Consumer.RetryWorker.{Waiting, Answer, loop, forget}
use kafka_playgroud.Consumer.Runtime.Running.{partitions_of}
use kafka_playgroud.Consumer.RetryWorker.Paid.{
  ArePaid, Still-Balances, forget-Still, Balances, then-Balances, loop-Balances,
}
use kafka_playgroud.Consumer.RetryWorker.Running.{
  exit_of, worker_of, subscribe, banner, loop_and_close, run, with_client, with_config,
  with_producer, with_settings, main,
}

module _ {D : Type 0} (world : World D) (read_json : Option Bytes → Option EventFields)
    (ordinary : world.settings.processing_guarantee ≡ at_least_once)
    (polled : List (List ℕ × Answer)) where
  abbrev IsPaid : Trace → Type 0
  IsPaid t = ArePaid (attempts_of t) (copies_of t)

  nothing_owed : IsPaid []
  unfolding attempts_of
  nothing_owed = tt

  flush-IsPaid : (exit : Exit) (t : Trace) → IsPaid t → IsPaid (final_flush world exit t).1
  flush-IsPaid exit t h = rw (attempts_of-emit, copies_of-emit, append-nil, append-nil) h

  module _ (s : Settings) (plain : is_exactly_once s ≡ false) where
    subscribe-Balances :
        (o : Option KafkaError)
        → Balances (worker_of world read_json s) (subscribe world read_json o)
    subscribe-Balances none w h = h
    subscribe-Balances (some e) w h = h

    banner-Balances :
        (o : Option (List ℤ)) → Balances (worker_of world read_json s) (banner world read_json o)
    banner-Balances none w h = h
    banner-Balances (some _) w h = h

    loop_and_close-Balances :
        Balances (worker_of world read_json s) (loop_and_close world read_json s polled)
    loop_and_close-Balances w h =
        let worker = worker_of world read_json s in
        let left = (loop worker polled w).1 in
        let held = partitions_of (world.assignment left.trace) in
        Still-Balances worker (forget worker held) (forget-Still worker held) left
          (loop-Balances worker plain polled w h)

    run-Balances : Balances (worker_of world read_json s) (run world read_json s polled)
    unfolding run
    run-Balances =
        let worker = worker_of world read_json s in
        let schedule = retry_backoff_schedule world.parse_float s in
        then-Balances worker (subscribe world read_json world.subscribe) _
          (subscribe-Balances world.subscribe)
          (then-Balances worker (banner world read_json schedule)
            (loop_and_close world read_json s polled) (banner-Balances schedule)
            loop_and_close-Balances)

    with_client-IsPaid : (o : Option KafkaError) → IsPaid (with_client world read_json s polled o).1
    with_client-IsPaid (some e) = nothing_owed
    with_client-IsPaid none =
        let w : Waiting = record { deferred = []; trace = [] } in
        let (answer, w') = run world read_json s polled w in
        flush-IsPaid (exit_of answer) w'.trace (run-Balances w nothing_owed)

    with_config-IsPaid :
        (r : Result (List String) (Dict String Json))
        → IsPaid (with_config world read_json s polled r).1
    with_config-IsPaid (err _) = nothing_owed
    with_config-IsPaid (ok config) = with_client-IsPaid (world.new_consumer config)

    with_producer-IsPaid :
        (o : Option KafkaError) → IsPaid (with_producer world read_json s polled o).1
    with_producer-IsPaid (some e) = nothing_owed
    with_producer-IsPaid none = with_config-IsPaid _

  with_settings-IsPaid :
      (o : Option Settings)
      → validate world.settings ≡ o
      → IsPaid (with_settings world read_json polled o).1
  with_settings-IsPaid none valid = nothing_owed
  with_settings-IsPaid (some s) valid =
      with_producer-IsPaid s
        (not_exactly_once s (valid_guarantee world.settings s valid ∙ ordinary)) _

  -- At least once, for every environment and every behaviour of the broker, over whatever there is to
  -- poll: however a process of the retry worker ends, the messages that it has tried to commit can be
  -- matched, in order, with distinct copies that its producer has taken, each with the key and the
  -- value of its message.
  pub main_paid :
      ArePaid
        (attempts_of (main world read_json polled).1)
        (copies_of (main world read_json polled).1)
  unfolding main
  main_paid = with_settings-IsPaid (validate world.settings) refl
