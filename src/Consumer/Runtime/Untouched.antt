-- ===== src/Consumer/Runtime/Untouched.antt =====
-- `_handle_message` under exactly_once: the consumer's own commit.
pub mod Runs
use kafka_playgroud.Prelude.{
  ℕ, ◌≡◌, refl, inl, inr, true, Option, none, some, arith, Result, ok, err, Bool-cases, ap, ◌∙◌,
  List, ◌==◌, string_eq,
}
use mathlib.Core.List.{append-nil}
use kafka_playgroud.Prelude.Action.{lift, continue, ◌>>=◌}
use kafka_playgroud.Dict.{lookup}
use kafka_playgroud.Prelude.Json.{Bytes}
use kafka_playgroud.Config.{is_exactly_once}
use kafka_playgroud.Events.{LifecycleEvent}
use kafka_playgroud.Consumer.Broker.{Exc, Trace, Kafka, Message}
use kafka_playgroud.Consumer.Dlq.{decode_headers, hdr_retry_target}
use kafka_playgroud.Consumer.State.{OrderFold}
use kafka_playgroud.Consumer.Folding.{apply_event, key_of, attempt_of}
use kafka_playgroud.Consumer.Runtime.{
  Service, Worker, Method, persist_in_transaction, crashes_in_transaction, on_store, commit, rewind,
  route_failure, publish_failure, after_publish, run_attempt, delay, after_attempt, handle_event,
  after_decode, handle_tombstone, handle_message, handle_value, persist_and_commit, save_fold,
  crash_if_configured, log_key, is_publish_failure, is_unavailable, is_other_service, decode,
}
use kafka_playgroud.Consumer.Runtime.Committing.{
  attempts_of, attempts_of-emit, attempts_of-eq, IsQuiet, AreQuiet, Quiet,
}
use kafka_playgroud.Consumer.Runtime.Quiet.{
  publish_failure-Quiet, run_attempt-Quiet, save_fold-Quiet, crash-Quiet, delay-Quiet,
}
use kafka_playgroud.Consumer.Transactions.{
  Transaction, CommitStrategy, transactional_committer, note, begin_if_needed,
}

module _ {S C : Type 0} (service : Service S C) where
  -- a method of the loop that tries to commit no offset itself
  abbrev pub Uncommitted : {A : Type 0} → Method service A → Type 0
  Uncommitted a = (w : Worker S C) → attempts_of (a w).1.trace ≡ attempts_of w.trace

  pub uncommitted : {A : Type 0} (a : Method service A) → Quiet service a → Uncommitted a
  uncommitted a q w = attempts_of-eq (a w).1.trace w.trace (q w)

continue-Uncommitted :
    {S C A B : Type 0} (service : Service S C) (r : Result Exc A) (f : A → Method service B)
    (before : List Message) (w : Worker S C)
    → attempts_of w.trace ≡ before
    → ((x : A) → Uncommitted service (f x))
    → attempts_of (continue r f w).1.trace ≡ before
continue-Uncommitted service (ok x) f before w e h = h x w ∙ e
continue-Uncommitted service (err x) f before w e h = e

pub bind-Uncommitted :
    {S C A B : Type 0} (service : Service S C) (a : Method service A) (f : A → Method service B)
    → Uncommitted service a
    → ((x : A) → Uncommitted service (f x))
    → Uncommitted service (a >>= f)
bind-Uncommitted service a f q h w =
    continue-Uncommitted service (a w).0 f (attempts_of w.trace) (a w).1 (q w) h

module _ {S : Type 0} (service : Service S Transaction)
    (transactional : service.commits
      ≡ transactional_committer service.router.kafka service.settings) where
  note_quiet :
      (k : Kafka) (m : Message) (c : Transaction) (t : Trace)
      → attempts_of (note k m (c, t)).1.1 ≡ attempts_of t
  unfolding note begin_if_needed
  note_quiet k m c t = grind (arith, attempts_of-emit, append-nil)

  commit-Uncommitted : (m : Message) → Uncommitted service (commit service m)
  unfolding commit
  commit-Uncommitted m w =
      let st : Transaction × Trace = (w.commits, w.trace) in
      let is =
        ap (λ (c : CommitStrategy Transaction). attempts_of (c.note m st).1.1) transactional in
      is ∙ note_quiet service.router.kafka m w.commits w.trace

  rewind-Uncommitted : (m : Message) → Uncommitted service (rewind service m)
  unfolding rewind
  rewind-Uncommitted m w = grind (arith, attempts_of-emit, append-nil)

  after_publish-Uncommitted :
      (m : Message) (r : Result Exc (Unit {0})) → Uncommitted service (after_publish service m r)
  after_publish-Uncommitted m (ok _) = commit-Uncommitted m
  after_publish-Uncommitted m (err x) = λ w. elim (Bool-cases (is_publish_failure x)) [
    | inl holds ↦ rw holds (rewind-Uncommitted m w)
    | inr fails ↦ rw fails refl
  ]

  route_failure-Uncommitted :
      (m : Message) (x : Exc) (n : ℕ) → Uncommitted service (route_failure service m x n)
  unfolding route_failure
  route_failure-Uncommitted m x n w =
      after_publish-Uncommitted m (publish_failure service m x n w).0
        (publish_failure service m x n w).1
      ∙ uncommitted service (publish_failure service m x n) (publish_failure-Quiet service m x n) w

  module _ (exactly_once : is_exactly_once service.settings ≡ true) (quiet : IsQuiet service.store)
      (silent : AreQuiet service.handlers) where
    persist-Uncommitted :
        (m : Message) (event : LifecycleEvent) (fold : OrderFold) (p : ℕ)
        → Uncommitted service (persist_and_commit service m event fold p)
    unfolding persist_and_commit persist_in_transaction
    persist-Uncommitted m event fold p w = rw exactly_once (
        bind-Uncommitted service (save_fold service event fold p) _
          (uncommitted service (save_fold service event fold p)
            (save_fold-Quiet service quiet silent event fold p))
          (λ _. bind-Uncommitted service (commit service m) _ (commit-Uncommitted m) (λ _.
            uncommitted service (crash_if_configured service (crashes_in_transaction service))
              (crash-Quiet service quiet silent (crashes_in_transaction service))))
          w)

    handle_tombstone-Uncommitted : (m : Message) → Uncommitted service (handle_tombstone service m)
    unfolding handle_tombstone
    handle_tombstone-Uncommitted m =
        bind-Uncommitted service (on_store service (service.store.delete m.partition (key_of m))) _
          (uncommitted service (on_store service (service.store.delete m.partition (key_of m)))
            (λ w. quiet.delete_quiet m.partition (key_of m) w.store w.trace))
          (λ _. commit-Uncommitted m)

    after_attempt-Uncommitted :
        (m : Message) (event : LifecycleEvent) (fold : OrderFold) (n : ℕ)
        (r : Result Exc (Unit {0}))
        → Uncommitted service (after_attempt service m event fold n r)
    after_attempt-Uncommitted m event fold n (ok _) =
        bind-Uncommitted service (delay service) _
          (uncommitted service (delay service) (delay-Quiet service quiet silent))
          (λ _. persist-Uncommitted m event fold m.partition)
    after_attempt-Uncommitted m event fold n (err x) = λ w. elim (Bool-cases (is_unavailable x)) [
      | inl holds ↦ rw holds refl
      | inr fails ↦ rw fails (route_failure-Uncommitted m x n w)
    ]

    handle_event-Uncommitted :
        (m : Message) (event : LifecycleEvent) (n : ℕ)
        → Uncommitted service (handle_event service m event n)
    unfolding handle_event
    handle_event-Uncommitted m event n =
        bind-Uncommitted service (lift (log_key m)) _ (λ w. refl)
          (λ _.
            bind-Uncommitted service
              (on_store service (service.store.load m.partition event.order_id)) _
              (uncommitted service
                (on_store service (service.store.load m.partition event.order_id))
                (λ w. quiet.load_quiet m.partition event.order_id w.store w.trace))
              (λ current w.
                let a = run_attempt service event n w in
                after_attempt-Uncommitted m event (apply_event current event).0 n a.0 a.1
                ∙ uncommitted service (run_attempt service event n)
                    (run_attempt-Quiet service quiet silent event n) w))

    after_decode-Uncommitted :
        (m : Message) (n : ℕ) (r : Result Exc LifecycleEvent)
        → Uncommitted service (after_decode service m n r)
    after_decode-Uncommitted m n (ok event) = handle_event-Uncommitted m event n
    after_decode-Uncommitted m n (err x) = route_failure-Uncommitted m x n

    handle_value-Uncommitted :
        (m : Message) (v : Option Bytes) → Uncommitted service (handle_value service m v)
    handle_value-Uncommitted m none = handle_tombstone-Uncommitted m
    handle_value-Uncommitted m (some v) = λ w.
        elim (Bool-cases (m.topic == service.settings.order_snapshot_topic)) [
          | inl snapshot ↦ rw snapshot (commit-Uncommitted m w)
          | inr folded ↦
              rw folded
                (elim (Bool-cases
                  (is_other_service service.name (lookup hdr_retry_target (decode_headers m)))) [
                    | inl other ↦ rw other (commit-Uncommitted m w)
                    | inr ours ↦ rw ours (
                        after_decode-Uncommitted m (attempt_of (decode_headers m))
                          (decode service v) w)
                  ])
        ]

    -- Under exactly_once, whatever the broker does, and with a store and handlers that commit no offset:
    -- however the handling of a message ends, an exception included, the consumer itself has
    -- tried to commit no offset.
    pub handle_message-Uncommitted :
        (m : Message) (w : Worker S Transaction)
        → attempts_of (handle_message service m w).1.trace ≡ attempts_of w.trace
    unfolding handle_message
    handle_message-Uncommitted m w = handle_value-Uncommitted m m.value w
