-- ===== src/Consumer/Runtime/Untouched/Runs.antt =====
-- `run` under exactly_once: the settling, the rebalances and the loop.
use kafka_playgroud.Prelude.{
  ℕ, ◌≡◌, refl, ◌∙◌, inl, inr, true, Option, none, some, arith, Result, ok, err, Bool-cases, List,
  [], ◌∷◌, String, string_eq, nat_eq, sorted_set,
}
use mathlib.Core.List.{append-nil}
use kafka_playgroud.Prelude.Action.{recover}
use kafka_playgroud.Config.{Settings, is_exactly_once}
use kafka_playgroud.Consumer.Broker.{Exc, Trace, Kafka, KafkaError}
use kafka_playgroud.Consumer.Runtime.{
  Service, Worker, Polled, nothing, error, message, assigned, revoked, lost, on_store, on_commits,
  seek, seek_all, rewind_partition, rewind_partitions, repair, abort_and_repair, after_commit,
  settle, handle_error, let_go, step, loop, is_kafka_exception, handle_message,
}
use kafka_playgroud.Consumer.Runtime.Running.{
  run, finally_close, is_exit, give_back, partitions_of, close_consumer, closing,
}
use kafka_playgroud.Consumer.Runtime.Committing.{
  attempts_of, attempts_of-emit, attempts_of-eq, IsQuiet, AreQuiet,
}
use kafka_playgroud.Consumer.Runtime.Untouched.{
  Uncommitted, bind-Uncommitted, handle_message-Uncommitted,
}
use kafka_playgroud.Consumer.Transactions.{
  Transaction, CommitStrategy, transactional_committer, maybe_commit, commit, abort, close,
}

module _ (k : Kafka) where
  maybe_commit_silent :
      (s : Settings) (c : Transaction) (t : Trace)
      → attempts_of (maybe_commit k s (c, t)).1.1 ≡ attempts_of t
  unfolding maybe_commit commit
  maybe_commit_silent s c t = grind (arith, attempts_of-emit, append-nil)

  abort_silent : (c : Transaction) (t : Trace) → attempts_of (abort k (c, t)).1.1 ≡ attempts_of t
  unfolding abort
  abort_silent c t = grind (arith, attempts_of-emit, append-nil)

  close_silent : (c : Transaction) (t : Trace) → attempts_of (close k (c, t)).1.1 ≡ attempts_of t
  unfolding close
  close_silent c t = grind (arith, abort_silent)

module _ {S C : Type 0} (service : Service S C) where
  seek-Uncommitted :
      (topic : String) (p offset : ℕ) → Uncommitted service (seek service topic p offset)
  seek-Uncommitted topic p offset w = grind (arith, attempts_of-emit, append-nil)

  seek_all-Uncommitted :
      (cs : List ((String × ℕ) × Option ℕ)) → Uncommitted service (seek_all service cs)
  unfolding seek_all
  seek_all-Uncommitted [] = λ w. refl
  seek_all-Uncommitted (((topic, p), none) ∷ cs) = seek_all-Uncommitted cs
  seek_all-Uncommitted (((topic, p), some offset) ∷ cs) =
      bind-Uncommitted service (seek service topic p offset) _ (seek-Uncommitted topic p offset)
        (λ found w. elim (Bool-cases found) [
          | inl yes_found ↦ rw yes_found (seek_all-Uncommitted cs w)
          | inr not_found ↦ rw not_found refl
        ])

  rewind_partition-Uncommitted : (p : ℕ) → Uncommitted service (rewind_partition service p)
  unfolding rewind_partition
  rewind_partition-Uncommitted p w = grind (arith, seek_all-Uncommitted)

  rewind_partitions-Uncommitted : (ps : List ℕ) → Uncommitted service (rewind_partitions service ps)
  unfolding rewind_partitions
  rewind_partitions-Uncommitted [] = λ w. refl
  rewind_partitions-Uncommitted (p ∷ ps) =
      bind-Uncommitted service (rewind_partition service p) _ (rewind_partition-Uncommitted p)
        (λ _. rewind_partitions-Uncommitted ps)

  handle_error-Uncommitted : (e : KafkaError) → Uncommitted service (handle_error service e)
  unfolding handle_error
  handle_error-Uncommitted e w = ground arith

  module _ (quiet : IsQuiet service.store) where
    repair-Uncommitted : (ps : List ℕ) → Uncommitted service (repair service ps)
    repair-Uncommitted [] = λ w. refl
    repair-Uncommitted (p ∷ ps) =
        bind-Uncommitted service (on_store service (service.store.discard (p ∷ ps))) _
          (λ w. attempts_of-eq _ _ (quiet.discard_quiet (p ∷ ps) w.store w.trace))
          (λ _.
            bind-Uncommitted service (on_store service (service.store.restore (p ∷ ps))) _
              (λ w. attempts_of-eq _ _ (quiet.restore_quiet (p ∷ ps) w.store w.trace))
              (λ _. rewind_partitions-Uncommitted (sorted_set (p ∷ ps))))

module _ {S : Type 0} (service : Service S Transaction)
    (transactional : service.commits
      ≡ transactional_committer service.router.kafka service.settings) where
  committer_silent :
      (f : CommitStrategy Transaction → Transaction × Trace → Trace) (w : Worker S Transaction)
      → attempts_of
          (f (transactional_committer service.router.kafka service.settings) (w.commits, w.trace))
        ≡ attempts_of w.trace
      → attempts_of (f service.commits (w.commits, w.trace)) ≡ attempts_of w.trace
  committer_silent f w h = rw transactional h

  maybe_commit-Uncommitted : Uncommitted service (on_commits service service.commits.maybe_commit)
  maybe_commit-Uncommitted w =
      committer_silent (λ c st. (c.maybe_commit st).1.1) w
        (maybe_commit_silent service.router.kafka service.settings w.commits w.trace)

  abort-Uncommitted : Uncommitted service (on_commits service service.commits.abort)
  abort-Uncommitted w =
      committer_silent (λ c st. (c.abort st).1.1) w
        (abort_silent service.router.kafka w.commits w.trace)

  close-Uncommitted : Uncommitted service (on_commits service service.commits.close)
  close-Uncommitted w =
      committer_silent (λ c st. (c.close st).1.1) w
        (close_silent service.router.kafka w.commits w.trace)

  module _ (exactly_once : is_exactly_once service.settings ≡ true) (quiet : IsQuiet service.store)
      (silent : AreQuiet service.handlers) where
    abort_and_repair-Uncommitted : Uncommitted service (abort_and_repair service)
    unfolding abort_and_repair
    abort_and_repair-Uncommitted =
        bind-Uncommitted service (on_commits service service.commits.abort) _ abort-Uncommitted
          (repair-Uncommitted service quiet)

    after_commit-Uncommitted : (x : Exc) → Uncommitted service (after_commit service x)
    after_commit-Uncommitted x w = elim (Bool-cases (is_kafka_exception x)) [
      | inl caught ↦ rw caught (abort_and_repair-Uncommitted w)
      | inr raised ↦ rw raised refl
    ]

    recover-Uncommitted :
        (r : Result Exc (Unit {0})) → Uncommitted service (recover r (after_commit service))
    recover-Uncommitted (ok _) w = refl
    recover-Uncommitted (err x) w = after_commit-Uncommitted x w

    settle-Uncommitted : Uncommitted service (settle service)
    unfolding settle
    settle-Uncommitted w =
        let first = on_commits service service.commits.maybe_commit w in
        recover-Uncommitted first.0 first.1 ∙ maybe_commit-Uncommitted w

    let_go-Uncommitted : (ps : List ℕ) → Uncommitted service (let_go service ps)
    let_go-Uncommitted ps =
        bind-Uncommitted service (on_commits service service.commits.abort) _ abort-Uncommitted
          (λ _ w. attempts_of-eq _ _ (quiet.forget_quiet ps w.store w.trace))

    give_back-Uncommitted : (ps : List (String × ℕ)) → Uncommitted service (give_back service ps)
    give_back-Uncommitted [] = λ w. refl
    give_back-Uncommitted (a ∷ ps) = let_go-Uncommitted (partitions_of (a ∷ ps))

    close_consumer-Uncommitted : Uncommitted service (close_consumer service)
    unfolding close_consumer
    close_consumer-Uncommitted w = give_back-Uncommitted (service.assignment w.trace) w

    closing-Uncommitted : Uncommitted service (closing service)
    closing-Uncommitted =
        bind-Uncommitted service (on_commits service service.commits.close) _ close-Uncommitted
          (λ _. close_consumer-Uncommitted)

    finally_close-Uncommitted :
        (r : Result Exc (Unit {0})) → Uncommitted service (finally_close service r)
    finally_close-Uncommitted (ok _) = closing-Uncommitted
    finally_close-Uncommitted (err x) = λ w. elim (Bool-cases (is_exit x)) [
      | inl gone ↦ rw gone refl
      | inr raised ↦ rw raised (closing-Uncommitted w)
    ]

    step-Uncommitted : (x : Polled) → Uncommitted service (step service x)
    unfolding step
    step-Uncommitted nothing = settle-Uncommitted
    step-Uncommitted (error e) = handle_error-Uncommitted service e
    step-Uncommitted (message m) =
        bind-Uncommitted service (handle_message service m) _
          (handle_message-Uncommitted service transactional exactly_once quiet silent m)
          (λ _. settle-Uncommitted)
    step-Uncommitted (assigned ps) =
        λ w. attempts_of-eq _ _ (quiet.restore_quiet ps w.store w.trace)
    step-Uncommitted (revoked ps) = let_go-Uncommitted ps
    step-Uncommitted (lost ps) = let_go-Uncommitted ps

    loop-Uncommitted : (xs : List Polled) → Uncommitted service (loop service xs)
    unfolding loop
    loop-Uncommitted [] = λ w. refl
    loop-Uncommitted (x ∷ xs) =
        bind-Uncommitted service (step service x) _ (step-Uncommitted x) (λ _. loop-Uncommitted xs)

    -- Under exactly_once, whatever is polled, rebalances included, and whatever the broker does, and
    -- with a store and handlers that neither commit nor seek: however a run ends, the consumer itself has
    -- tried to commit no offset.
    pub run-Uncommitted :
        (polled : List Polled) (w : Worker S Transaction)
        → attempts_of (run service polled w).1.trace ≡ attempts_of w.trace
    unfolding run
    run-Uncommitted polled w =
        let (answer, w') = loop service polled w in
        finally_close-Uncommitted answer w' ∙ loop-Uncommitted polled w
