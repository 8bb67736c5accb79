-- ===== src/Consumer/RetryWorker/Unreleased.antt =====
-- `_release` of the retry worker where the publish fails.
use kafka_playgroud.Prelude.{
  ℤ, ◌≡◌, refl, inl, inr, true, false, List, [], ◌∷◌, ◌++◌, String, arith, ok, err, sym, ap, ◌∙◌,
  Option-cases, string_eq, ◌⊎◌,
}
use mathlib.Core.List.{append-nil, append_assoc}
use kafka_playgroud.Config.{is_exactly_once, group_id_for}
use kafka_playgroud.Consumer.Broker.{
  Message, Outgoing, Exc, Event, enqueued, committed, commit_rejected, sought, seek_failed, Trace,
  accepted,
}
use kafka_playgroud.Consumer.Dlq.{Origin, publish, await_delivery, judge, to_source}
use kafka_playgroud.Consumer.Dlq.Publishing.{source_headers, copy_of}
use kafka_playgroud.Consumer.Runtime.{is_publish_failure}
use kafka_playgroud.Consumer.Runtime.Committing.{attempts_of, attempts_of-cons}
use kafka_playgroud.Consumer.RetryWorker.{RetryWorker, Waiting, release, commit, handle_message}
use kafka_playgroud.Consumer.RetryWorker.Handling.{Forwarded, to_source_quiet}

-- the attempt to go back in a partition that an event is
abbrev pub seek_by : Event → List Event
seek_by (sought topic p o) = sought topic p o ∷ []
seek_by (seek_failed topic p o) = seek_failed topic p o ∷ []
seek_by _ = []

-- the attempts to go back, in order
unfoldable pub seeks_of : Trace → List Event
seeks_of [] = []
seeks_of (e ∷ t) = seek_by e ++ seeks_of t

seeks_of-append : (t u : Trace) → seeks_of (t ++ u) ≡ seeks_of t ++ seeks_of u
unfolding seeks_of
seeks_of-append [] u = refl
seeks_of-append (e ∷ t) u =
    rw (seeks_of-append t u) (sym (append_assoc (seek_by e) (seeks_of t) (seeks_of u)))

pub attempts_of-append : (t u : Trace) → attempts_of (t ++ u) ≡ attempts_of t ++ attempts_of u
unfolding attempts_of
attempts_of-append [] u = refl
attempts_of-append (e ∷ t) u =
    grind (
      arith,
      attempts_of-cons e t,
      attempts_of-cons e (t ++ u),
      attempts_of-append t u,
      append_assoc,
    )

module _ (worker : RetryWorker)
    (at_least_once : is_exactly_once worker.router.settings ≡ false) where
  to_source_seeks :
      (m : Message) (o : Origin) (name g : String) (n : ℤ) (t : Trace)
      → seeks_of (to_source worker.router m o name g n t).1 ≡ seeks_of t
  unfolding to_source publish await_delivery judge seeks_of
  to_source_seeks m o name g n t = grind (arith, seeks_of-append, append-nil)

  Forwarded-attempts_of :
      (m : Message) (out : Outgoing) (t t' : Trace)
      → Forwarded m out t t'
      → (attempts_of t' ≡ attempts_of t ++ m ∷ []) × (seeks_of t' ≡ seeks_of t)
  unfolding attempts_of seeks_of
  Forwarded-attempts_of m out t t' (k, v, inl e) =
      (rw (e, attempts_of-append) refl, rw (e, seeks_of-append) (append-nil _))
  Forwarded-attempts_of m out t t' (k, v, inr e) =
      (rw (e, attempts_of-append) refl, rw (e, seeks_of-append) (append-nil _))

  release_failed :
      (m : Message) (name : String) (o : Origin) (n : ℤ) (w : Waiting) (x : Exc)
      → (to_source worker.router m o name (group_id_for worker.settings name) n w.trace).0 ≡ err x
      → is_publish_failure x ≡ true
      → release worker m name o n w ≡ (
        ok tt,
        record w {
          trace =
              (to_source worker.router m o name (group_id_for worker.settings name) n w.trace).1;
        },
      )
  unfolding release
  release_failed m name o n w x h p = rw h (rw p refl)

  -- A release whose publish fails returns without an exception, commits nothing and does not go back
  -- to the message; so where the next message is then published and committed, the offsets that were
  -- committed pass over the first one, and nothing has gone back to it.
  pub release_failed-handle_message :
      (m m' : Message) (name : String) (o : Origin) (n : ℤ) (w : Waiting) (x : Exc) (out : Outgoing)
      → (to_source worker.router m o name (group_id_for worker.settings name) n w.trace).0 ≡ err x
      → is_publish_failure x ≡ true
      → Forwarded m' out
          (release worker m name o n w).1.trace
          (handle_message worker m' (release worker m name o n w).1).1.trace
      → ((release worker m name o n w).0 ≡ ok tt)
        × (attempts_of (handle_message worker m' (release worker m name o n w).1).1.trace
            ≡ attempts_of w.trace ++ m' ∷ [])
        × (seeks_of (handle_message worker m' (release worker m name o n w).1).1.trace
            ≡ seeks_of w.trace)
  release_failed-handle_message m m' name o n w x out h p next =
      let g = group_id_for worker.settings name in
      let first = release_failed m name o n w x h p in
      let w' = (release worker m name o n w).1 in
      let second =
        Forwarded-attempts_of m' out w'.trace (handle_message worker m' w').1.trace next in
      let same = ap (λ r. r.1.trace) first in
      (
        ap (λ r. r.0) first,
        second.0
            ∙ ap (λ ms. ms ++ m' ∷ [])
                (ap attempts_of same ∙ to_source_quiet worker at_least_once m o name g n w.trace),
        second.1 ∙ ap seeks_of same ∙ to_source_seeks m o name g n w.trace,
      )

module _ (worker : RetryWorker) (exactly_once : is_exactly_once worker.router.settings ≡ true) where
  unflushed :
      (m : Message) (o : Origin) (name g : String) (n : ℤ) (t : Trace)
      → worker.router.kafka.produce t (copy_of m o.topic (source_headers o name g n)) ≡ accepted
      → to_source worker.router m o name g n t
        ≡ (ok o.topic, t ++ enqueued (copy_of m o.topic (source_headers o name g n)) ∷ [])
  unfolding to_source publish await_delivery
  unflushed m o name g n t h = ground (arith, exactly_once)

  -- Where the worker runs with the setting exactly_once, a release whose message the client takes
  -- commits at once: nothing waits for the copy, and no transaction holds the two together.
  pub release_unflushed :
      (m : Message) (name : String) (o : Origin) (n : ℤ) (w : Waiting)
      → worker.router.kafka.produce w.trace
          (copy_of m o.topic (source_headers o name (group_id_for worker.settings name) n))
        ≡ accepted
      → let out = copy_of m o.topic (source_headers o name (group_id_for worker.settings name) n) in
        ((release worker m name o n w).1.trace ≡ w.trace ++ enqueued out ∷ committed m ∷ [])
        ⊎ ((release worker m name o n w).1.trace ≡ w.trace ++ enqueued out ∷ commit_rejected m ∷ [])
  unfolding release commit
  release_unflushed m name o n w h =
      let out = copy_of m o.topic (source_headers o name (group_id_for worker.settings name) n) in
      let sent = unflushed m o name (group_id_for worker.settings name) n w.trace h in
      elim (Option-cases (worker.router.kafka.commit (w.trace ++ enqueued out ∷ []) m)) [
        | inl done ↦ inl (rw sent (grind (arith, done, append_assoc)))
        | inr (x, failed) ↦ inr (rw sent (grind (arith, failed, append_assoc)))
      ]
