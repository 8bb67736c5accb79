-- ===== src/Consumer/Runtime/Settled.antt =====
-- `_handle_message`: what each of its paths has committed.
pub mod Runs
use kafka_playgroud.Prelude.{
  ℕ, ◌≡◌, refl, inl, inr, false, Option, none, some, arith, Result, ok, err, Option-cases,
  Bool-cases, sym, ◌==◌, string_eq, List, [], ◌∷◌, ◌++◌,
}
use mathlib.Core.List.{append-nil}
use kafka_playgroud.Prelude.Action.{lift}
use kafka_playgroud.Dict.{lookup}
use kafka_playgroud.Prelude.Json.{Bytes}
use kafka_playgroud.Config.{StateWriteOrder, is_exactly_once}
use kafka_playgroud.Events.{LifecycleEvent}
use kafka_playgroud.Consumer.Broker.{Exc, Message, Trace}
use kafka_playgroud.Consumer.Dlq.{decode_headers, hdr_retry_target}
use kafka_playgroud.Consumer.State.{OrderFold}
use kafka_playgroud.Consumer.Transactions.{direct_committer, note_direct}
use kafka_playgroud.Consumer.Folding.{apply_event, key_of, attempt_of}
use kafka_playgroud.Consumer.Runtime.{
  Service, Worker, on_store, commit, rewind, route_failure, publish_failure, after_publish,
  run_attempt, delay, after_attempt, handle_event, after_decode, handle_tombstone, handle_message,
  handle_value, persist_and_commit, persist_state_first, save_fold, crash_if_configured, log_key,
  is_publish_failure, is_unavailable, is_other_service, decode, crashes_at_write,
}
use kafka_playgroud.Consumer.Runtime.Committing.{
  Outcome, outcomes_of, outcomes_of-emit, tried, back, Settle, IsQuiet, AreQuiet, IsSettled,
  Settles, bind-Settles,
}
use kafka_playgroud.Consumer.Runtime.Quiet.{
  publish_failure-Quiet, run_attempt-Quiet, save_fold-Quiet, crash-Quiet, delay-Quiet,
}

-- a call that returns, and leaves an outcome of the message
settled :
    (m : Message) (before : List Outcome) (r : Result Exc (Unit {0})) (t : Trace) (o : Outcome)
    → Settle m o
    → r ≡ ok tt
    → outcomes_of t ≡ before ++ o ∷ []
    → IsSettled m before r t
settled m before r t o s returned h = rw returned (o, s, h)

module _ {S : Type 0} (service : Service S Unit)
    (direct : service.commits ≡ direct_committer service.router.kafka) where
  commit-Settles : (m : Message) → Settles service m (commit service m)
  unfolding commit note_direct
  commit-Settles m w =
      settled m (outcomes_of w.trace) _ _ (tried m) (inl refl) (grind (arith, direct))
        (grind (arith, outcomes_of-emit))

  rewind-Settles : (m : Message) → Settles service m (rewind service m)
  unfolding rewind
  rewind-Settles m w =
      settled m (outcomes_of w.trace) _ _ (back m.topic m.partition m.offset) (inr refl)
        (ground arith) (grind (arith, outcomes_of-emit, append-nil))

  after_publish-Settles :
      (m : Message) (r : Result Exc (Unit {0})) → Settles service m (after_publish service m r)
  after_publish-Settles m (ok _) w = commit-Settles m w
  after_publish-Settles m (err x) w = elim (Bool-cases (is_publish_failure x)) [
    | inl holds ↦ rw holds (rewind-Settles m w)
    | inr fails ↦ rw fails refl
  ]

  route_failure-Settles :
      (m : Message) (x : Exc) (n : ℕ) → Settles service m (route_failure service m x n)
  unfolding route_failure
  route_failure-Settles m x n w = rw (sym (publish_failure-Quiet service m x n w)) (
      after_publish-Settles m (publish_failure service m x n w).0
        (publish_failure service m x n w).1)

  module _ (quiet : IsQuiet service.store) (silent : AreQuiet service.handlers) where
    persist-Settles :
        (m : Message) (event : LifecycleEvent) (fold : OrderFold) (p : ℕ)
        → Settles service m (persist_state_first service m event fold p)
    unfolding persist_state_first
    persist-Settles m event fold p =
        bind-Settles service m (save_fold service event fold p) _
          (save_fold-Quiet service quiet silent event fold p)
          (λ _.
            bind-Settles service m (on_store service service.store.flush) _
              (λ w. quiet.flush_quiet w.store w.trace)
              (λ _.
                bind-Settles service m (crash_if_configured service (crashes_at_write service)) _
                  (crash-Quiet service quiet silent (crashes_at_write service))
                  (λ _. commit-Settles m)))

    handle_tombstone-Settles : (m : Message) → Settles service m (handle_tombstone service m)
    unfolding handle_tombstone
    handle_tombstone-Settles m =
        bind-Settles service m (on_store service (service.store.delete m.partition (key_of m))) _
          (λ w. quiet.delete_quiet m.partition (key_of m) w.store w.trace) (λ _. commit-Settles m)

    module _ (at_least_once : is_exactly_once service.settings ≡ false)
        (state_first : service.settings.state_write_order ≡ StateWriteOrder.state_first) where
      persist_and_commit-Settles :
          (m : Message) (event : LifecycleEvent) (fold : OrderFold) (p : ℕ)
          → Settles service m (persist_and_commit service m event fold p)
      unfolding persist_and_commit
      persist_and_commit-Settles m event fold p w =
          rw (at_least_once, state_first) (persist-Settles m event fold p w)

      after_attempt-Settles :
          (m : Message) (event : LifecycleEvent) (fold : OrderFold) (n : ℕ)
          (r : Result Exc (Unit {0}))
          → Settles service m (after_attempt service m event fold n r)
      after_attempt-Settles m event fold n (ok _) =
          bind-Settles service m (delay service) _ (delay-Quiet service quiet silent)
            (λ _. persist_and_commit-Settles m event fold m.partition)
      after_attempt-Settles m event fold n (err x) = λ w. elim (Bool-cases (is_unavailable x)) [
        | inl holds ↦ rw holds refl
        | inr fails ↦ rw fails (route_failure-Settles m x n w)
      ]

      handle_event-Settles :
          (m : Message) (event : LifecycleEvent) (n : ℕ)
          → Settles service m (handle_event service m event n)
      unfolding handle_event
      handle_event-Settles m event n =
          bind-Settles service m (lift (log_key m)) _ (λ w. refl)
            (λ _.
              bind-Settles service m
                (on_store service (service.store.load m.partition event.order_id)) _
                (λ w. quiet.load_quiet m.partition event.order_id w.store w.trace)
                (λ current w.
                  let a = run_attempt service event n w in
                  rw (sym (run_attempt-Quiet service quiet silent event n w))
                    (after_attempt-Settles m event (apply_event current event).0 n a.0 a.1)))

      after_decode-Settles :
          (m : Message) (n : ℕ) (r : Result Exc LifecycleEvent)
          → Settles service m (after_decode service m n r)
      after_decode-Settles m n (ok event) = handle_event-Settles m event n
      after_decode-Settles m n (err x) = route_failure-Settles m x n

      handle_value-Settles :
          (m : Message) (v : Option Bytes) → Settles service m (handle_value service m v)
      handle_value-Settles m none = handle_tombstone-Settles m
      handle_value-Settles m (some v) = λ w.
          elim (Bool-cases (m.topic == service.settings.order_snapshot_topic)) [
            | inl snapshot ↦ rw snapshot (commit-Settles m w)
            | inr folded ↦
                rw folded
                  (elim (Bool-cases
                    (is_other_service service.name (lookup hdr_retry_target (decode_headers m)))) [
                      | inl other ↦ rw other (commit-Settles m w)
                      | inr ours ↦ rw ours (
                          after_decode-Settles m (attempt_of (decode_headers m)) (decode service v)
                            w)
                    ])
          ]

      -- At least once with the state written first, whatever the broker does, and with a store and
      -- handlers that neither commit nor seek: of a message whose handling raises no offset was tried
      -- to be committed and no partition sought; one whose handling returns was either tried to be
      -- committed, once, or sought back to, once, and nothing was committed or sought besides.
      pub handle_message-IsSettled :
          (m : Message) (w : Worker S Unit)
          → IsSettled m
              (outcomes_of w.trace)
              (handle_message service m w).0
              (handle_message service m w).1.trace
      unfolding handle_message
      handle_message-IsSettled m w = handle_value-Settles m m.value w
