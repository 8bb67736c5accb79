-- ===== src/Tools/DlqReplay/Running.antt =====
-- src/order_service/tools/dlq_replay.py: `main`, for the arguments that `argparse` has read.
use kafka_playgroud.Prelude.{
  ℕ, ◌≤◌, ◌≡◌, refl, inl, inr, ap, Bool, true, false, not, ◌&&◌, Option, none, some, List, [], ◌∷◌,
  String, Result, ok, err, arith, length, contains, Option-cases, ◌==◌, string_eq, pos, suc,
}
use kafka_playgroud.Config.{Settings, validate}
use kafka_playgroud.Consumer.Broker.{Exc, Kafka, Trace}
use kafka_playgroud.Consumer.Main.{Exit, exited, uncaught}
use kafka_playgroud.Consumer.RetryWorker.{Answer}
use kafka_playgroud.Consumer.RetryWorker.Running.{invalid_settings}
use kafka_playgroud.Tools.DlqReplay.{Args, Cluster, replay, snapshot_topic, cluster_exception}
use kafka_playgroud.Consumer.Broker.Collecting.{collect}
use kafka_playgroud.Tools.DlqReplay.Copies.{copies_of}
use kafka_playgroud.Tools.DlqReplay.Ending.Limit.{replay_limited}

-- `args.service and args.service not in {...}`
abbrev pub is_unknown : Option String → Bool
is_unknown none = false
is_unknown (some name) =
    not (name == "") && not (contains name ("inventory" ∷ "notification" ∷ "analytics" ∷ []))

module _ (kafka : Kafka) (args : Args) (cluster : Cluster) where
  -- `sys.exit(replay(settings, args))`; there is no exit while it still polls.
  abbrev pub exit_of : Result Exc (Option ℕ) → Option Exit
  exit_of (ok none) = none
  exit_of (ok (some code)) = some (exited code)
  exit_of (err x) = some (uncaught x)

  -- what follows the test of the service; `parser.error` ends with status 2
  abbrev pub with_service : Settings → List Answer → Bool → Option Exit × Trace
  with_service s polled true = (some (exited 2), [])
  with_service s polled false =
      let (answer, t) = replay kafka args cluster s polled [] in (exit_of answer, t)

  abbrev pub with_settings : List Answer → Option Settings → Option Exit × Trace
  with_settings polled none = (some (uncaught invalid_settings), [])
  with_settings polled (some s) = with_service s polled (is_unknown args.service)

  -- `main`
  unfoldable pub main : Settings → List Answer → Option Exit × Trace
  main environment polled = with_settings polled (validate environment)

  replay_unread :
      (s : Settings) (polled : List Answer)
      → snapshot_topic cluster s.dlq_topic ≡ none
      → replay kafka args cluster s polled [] ≡ (err cluster_exception, [])
  unfolding replay
  replay_unread s polled unread = rw (unread, replay) refl

  replay_unread_copies :
      (s : Settings) (polled : List Answer)
      → snapshot_topic cluster s.dlq_topic ≡ none
      → copies_of (replay kafka args cluster s polled []).1 ≡ []
  unfolding collect
  replay_unread_copies s polled unread =
      ap (λ (r : Result Exc (Option ℕ) × Trace). copies_of r.1) (replay_unread s polled unread)

  -- What holds of any replay's trace, and of an empty one, holds of the tool's.
  module _ (P : Trace → Type 0) (P-empty : P [])
      (P-replay : (s : Settings) (polled : List Answer)
        → P (replay kafka args cluster s polled []).1) where
    with_service_P :
        (s : Settings) (polled : List Answer) (b : Bool) → P (with_service s polled b).1
    with_service_P s polled true = P-empty
    with_service_P s polled false = P-replay s polled

    with_settings_P : (polled : List Answer) (o : Option Settings) → P (with_settings polled o).1
    with_settings_P polled none = P-empty
    with_settings_P polled (some s) = with_service_P s polled (is_unknown args.service)

    main_P : (environment : Settings) (polled : List Answer) → P (main environment polled).1
    unfolding main
    main_P environment polled = with_settings_P polled (validate environment)

  limited_replay :
      (n : ℕ) (s : Settings) (polled : List Answer)
      → args.limit ≡ pos (suc n)
      → length (copies_of (replay kafka args cluster s polled []).1) ≤ suc n
  unfolding collect
  limited_replay n s polled limited = elim (Option-cases (snapshot_topic cluster s.dlq_topic)) [
    | inl unread ↦ let none_copied = ap length (replay_unread_copies s polled unread) in omega arith
    | inr (snapshot, taken) ↦
        let few = replay_limited kafka args cluster s snapshot taken n polled [] limited in
        omega arith
  ]

  -- With a positive `--limit`, the tool puts no more than that many messages on a topic, for every
  -- environment and over whatever there is to poll, however it ends.
  pub main_limited :
      (n : ℕ) (environment : Settings) (polled : List Answer)
      → args.limit ≡ pos (suc n)
      → length (copies_of (main environment polled).1) ≤ suc n
  unfolding collect
  main_limited n environment polled limited =
      main_P (λ t. length (copies_of t) ≤ suc n) (omega arith)
        (λ s polled'. limited_replay n s polled' limited) environment polled
