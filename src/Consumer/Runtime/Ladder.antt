-- ===== src/Consumer/Runtime/Ladder.antt =====
-- `_route_failure`: the copy of a failed message, and its commit.
use kafka_playgroud.Prelude.{
  ℕ, ◌≡◌, ◌⊎◌, inl, inr, false, [], ◌∷◌, ◌++◌, arith, ok, Result-cases, Option-cases, Bool-cases,
  ap,
}
use kafka_playgroud.Config.{is_exactly_once}
use kafka_playgroud.Consumer.Broker.{
  Message, Exc, enqueued, flushed, committed, commit_rejected, emit,
}
use kafka_playgroud.Consumer.Transactions.{direct_committer, note_direct}
use kafka_playgroud.Consumer.Runtime.{
  Service, Worker, publish_failure, route_failure, commit, rewind, is_publish_failure,
}
use kafka_playgroud.Consumer.Runtime.Routing.{next_copy, publish_failure_ok}
use kafka_playgroud.Consumer.Runtime.Committing.{Rewound}

module _ {S : Type 0} (service : Service S Unit)
    (direct : service.commits ≡ direct_committer service.router.kafka)
    (at_least_once : is_exactly_once service.router.settings ≡ false) where
  commit_last :
      (m : Message) (w : Worker S Unit)
      → ((commit service m w).1.trace ≡ emit (committed m) w.trace)
        ⊎ ((commit service m w).1.trace ≡ emit (commit_rejected m) w.trace)
  unfolding commit note_direct
  commit_last m w = elim (Option-cases (service.router.kafka.commit w.trace m)) [
    | inl done ↦ inl (ground arith)
    | inr (e, failed) ↦ inr (ground arith)
  ]

  rewind_last : (m : Message) (w : Worker S Unit) → Rewound m (rewind service m w).1.trace
  unfolding rewind
  rewind_last m w =
      elim (Option-cases (service.router.kafka.seek w.trace m.topic m.partition m.offset)) [
        | inl done ↦ (w.trace, inl (ground arith))
        | inr (e, failed) ↦ (w.trace, inr (ground arith))
      ]

  -- Outside a transaction, a failure that is routed without an exception has either enqueued one copy
  -- of the message for its next topic, flushed it and only then tried to commit the message, or it
  -- ends with a rewind to the message.
  pub route_failure_ok :
      (m : Message) (x : Exc) (n : ℕ) (w : Worker S Unit)
      → (route_failure service m x n w).0 ≡ ok tt
      → ((due : ℕ) × (let t =
              w.trace ++ enqueued (next_copy service m x n due w.trace) ∷ flushed 0 ∷ [] in
            ((route_failure service m x n w).1.trace ≡ emit (committed m) t)
            ⊎ ((route_failure service m x n w).1.trace ≡ emit (commit_rejected m) t)))
        ⊎ Rewound m (route_failure service m x n w).1.trace
  unfolding route_failure
  route_failure_ok m x n w h =
      let w' = (publish_failure service m x n w).1 in
      elim (Result-cases (publish_failure service m x n w).0) [
        | inl (_, sent) ↦
            let (due, e) = publish_failure_ok service at_least_once m x n w sent in
            let t = ap (λ v. v.trace) e in
            inl (
              due,
              elim (commit_last m w') [
                | inl done ↦ inl (ground (arith, done, sent, t))
                | inr failed ↦ inr (ground (arith, failed, sent, t))
              ],
            )
        | inr (y, failed) ↦ elim (Bool-cases (is_publish_failure y)) [
          | inl holds ↦ inr (rw failed (rw holds (rewind_last m w')))
          | inr fails ↦ absurd (ground (arith, failed, fails))
        ]
      ]
