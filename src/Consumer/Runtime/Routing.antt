-- ===== src/Consumer/Runtime/Routing.antt =====
-- Where a failed message goes: the ladder of attempts and the dead-letter topic.
use kafka_playgroud.Prelude.{
  ℕ, pos, ◌+◌, ◌<◌, ◌≡◌, ◌≢◌, ◌↔◌, inl, inr, true, false, [], ◌∷◌, ◌++◌, arith, ok, nat_eq,
  string_eq, if◌then◌else◌, Bool-cases,
}
use kafka_playgroud.Prelude.Action.{bind-ok, pure}
use kafka_playgroud.Prelude.Words.{str_of}
use kafka_playgroud.Config.{is_exactly_once, group_id_for}
use kafka_playgroud.Consumer.Broker.{Message, Outgoing, Exc, enqueued, flushed, Trace}
use kafka_playgroud.Consumer.Errors.{classify, non_retryable}
use kafka_playgroud.Consumer.Dlq.{
  error_headers, str_of_int, to_retry, provenance, from_message, hdr_attempt, hdr_attempts_made,
  hdr_retry_at,
}
use kafka_playgroud.Consumer.Dlq.Publishing.{copy_of, to_retry_ok, to_dead_letter_ok}
use kafka_playgroud.Consumer.Runtime.{Service, Worker, publish_failure, has_budget}

-- An attempt is followed by another exactly when its exception is not declared non-retryable and
-- the attempts made are fewer than the maximum.
pub has_budget_iff :
    {S C : Type 0} (service : Service S C) (x : Exc) (n : ℕ)
    → (has_budget service x n ≡ true)
      ↔ ((classify x ≢ non_retryable) × (n < service.settings.retry_max_attempts))
unfolding has_budget classify
has_budget_iff service x n = ground arith

module _ {S C : Type 0} (service : Service S C) where
  -- the copy that the ladder publishes at a trace after attempt `n` failed; `due` is when the next
  -- attempt is, if there is one
  abbrev pub next_copy : Message → Exc → ℕ → ℕ → Trace → Outgoing
  next_copy m x n due t =
      let errors = error_headers service.router x (service.router.kafka.now t) in
      let origin =
        provenance (from_message service.router.iso m) service.name
          (group_id_for service.settings service.name) in
      if has_budget service x n
      then copy_of m service.router.settings.retry_topic (
          origin
          ++ (hdr_attempt, str_of (n + 1))
            ∷ (hdr_retry_at, service.router.iso.isoformat due)
            ∷ errors)
      else copy_of m service.router.settings.dlq_topic
          (origin ++ (hdr_attempts_made, str_of n) ∷ errors)

module _ {S C : Type 0} (service : Service S C)
    (at_least_once : is_exactly_once service.router.settings ≡ false) where
  -- Once the failure of attempt `n` is published outside a transaction, one copy of the message was enqueued and flushed,
  -- and nothing else happened: with budget left on the retry topic as attempt `n + 1`, and else on
  -- the dead-letter topic with the number of attempts made. The store and the committer are as they
  -- were.
  pub publish_failure_ok :
      (m : Message) (x : Exc) (n : ℕ) (w : Worker S C)
      → (publish_failure service m x n w).0 ≡ ok tt
      → (due : ℕ) × ((publish_failure service m x n w).1 ≡ record w {
        trace = w.trace ++ enqueued (next_copy service m x n due w.trace) ∷ flushed 0 ∷ [];
      })
  unfolding publish_failure str_of_int
  publish_failure_ok m x n w h =
      let o = from_message service.router.iso m in
      let g = group_id_for service.settings service.name in
      elim (Bool-cases (has_budget service x n)) [
        | inl more ↦
            let (due, sent, _) =
              bind-ok (to_retry service.router m o service.name g (n + 1) x) (λ _. pure tt) w.trace
                {b = tt} (ground arith) in
            let e =
              to_retry_ok service.router at_least_once m o service.name g (n + 1) x w.trace due
                sent in
            (due, ground arith)
        | inr last ↦
            let e =
              to_dead_letter_ok service.router at_least_once m o service.name g (pos n) x w.trace
                (ground arith) in
            (0, ground arith)
      ]
