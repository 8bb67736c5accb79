-- ===== src/Consumer/RetryWorker/Handling.antt =====
-- `_handle_message` of the retry worker: what is committed, and what was published before.
use kafka_playgroud.Prelude.{
  ℕ, ℤ, ◌≡◌, refl, ◌⊎◌, inl, inr, false, Option, none, some, [], ◌∷◌, ◌++◌, String, arith, Result,
  ok, err, Result-cases, Option-cases, Bool-cases, ltb, ◌∙◌, string_eq, nat_eq, pos,
}
use mathlib.Core.List.{append-nil, append_assoc}
use kafka_playgroud.Prelude.Action.{bind-ok, ◌>>◌, pure}
use kafka_playgroud.Dict.{lookup}
use kafka_playgroud.Config.{is_exactly_once, group_id_for}
use kafka_playgroud.Consumer.Broker.{
  Message, Outgoing, Exc, enqueued, flushed, committed, commit_rejected, Trace,
}
use kafka_playgroud.Consumer.Dlq.{
  Headers, Origin, publish, await_delivery, judge, to_source, to_dead_letter, decode_headers,
  from_headers, hdr_retry_at, hdr_attempt, hdr_service,
}
use kafka_playgroud.Consumer.Dlq.Publishing.{
  copy_of, source_headers, dead_headers, to_source_ok, to_dead_letter_ok,
}
use kafka_playgroud.Consumer.Runtime.{is_publish_failure}
use kafka_playgroud.Consumer.Runtime.Committing.{attempts_of, attempts_of-emit}
use kafka_playgroud.Consumer.RetryWorker.{
  RetryWorker, Waiting, Method, commit, rewind, defer, give_up, release, handle_due, handle_spec,
  handle_read, handle_message, time_header, int_header, non_retryable_exc, on_io, after_publish,
  is_event, or_unset, or_empty_text,
}

-- The message was committed as the last thing, right after a copy of it, with its own key and value,
-- was enqueued on a topic and flushed.
abbrev pub Forwarded : Message → Outgoing → Trace → Trace → Type 0
Forwarded m out t t' =
    (out.key ≡ m.key)
    × (out.value ≡ m.value)
    × ((t' ≡ t ++ enqueued out ∷ flushed 0 ∷ committed m ∷ [])
        ⊎ (t' ≡ t ++ enqueued out ∷ flushed 0 ∷ commit_rejected m ∷ []))

-- Nothing was committed, or the message was, after a copy.
abbrev pub IsKept : Message → Trace → Trace → Type 0
IsKept m t t' = (attempts_of t' ≡ attempts_of t) ⊎ ((out : Outgoing) × Forwarded m out t t')

module _ (worker : RetryWorker)
    (at_least_once : is_exactly_once worker.router.settings ≡ false) where
  commit_trace :
      (m : Message) (w : Waiting) (t : Trace) (out : Outgoing)
      → w.trace ≡ t ++ enqueued out ∷ flushed 0 ∷ []
      → out.key ≡ m.key
      → out.value ≡ m.value
      → Forwarded m out t (commit worker m w).1.trace
  unfolding commit
  commit_trace m w t out e k v = elim (Option-cases (worker.router.kafka.commit w.trace m)) [
    | inl done ↦ (k, v, inl (grind (arith, done, e, append_assoc)))
    | inr (x, failed) ↦ (k, v, inr (grind (arith, failed, e, append_assoc)))
  ]

  rewind_quiet :
      (m : Message) (w : Waiting) → attempts_of (rewind worker m w).1.trace ≡ attempts_of w.trace
  unfolding rewind
  rewind_quiet m w = grind (arith, attempts_of-emit, append-nil)

  defer_quiet :
      (m : Message) (due : ℕ) (w : Waiting)
      → attempts_of (defer worker m due w).1.trace ≡ attempts_of w.trace
  unfolding defer
  defer_quiet m due w = grind (arith, attempts_of-emit, append-nil)

  pub publish_quiet :
      (topic : String) (m : Message) (headers : Headers) (t : Trace)
      → attempts_of (publish worker.router topic m headers t).1 ≡ attempts_of t
  unfolding publish await_delivery judge
  publish_quiet topic m headers t = grind (arith, attempts_of-emit, append-nil)

  pub to_source_quiet :
      (m : Message) (o : Origin) (name g : String) (n : ℤ) (t : Trace)
      → attempts_of (to_source worker.router m o name g n t).1 ≡ attempts_of t
  unfolding to_source
  to_source_quiet m o name g n t =
      grind (arith, publish_quiet o.topic m (source_headers o name g n) t)

  to_dead_letter_quiet :
      (m : Message) (o : Origin) (name g : String) (n : ℤ) (t : Trace)
      → attempts_of (to_dead_letter worker.router m o name g n non_retryable_exc t).1
        ≡ attempts_of t
  unfolding to_dead_letter
  to_dead_letter_quiet m o name g n t =
      publish_quiet worker.router.settings.dlq_topic m
        (dead_headers worker.router o name g n non_retryable_exc t) t

  -- a publish and what follows it, where the failing branch commits nothing
  after_publish-IsKept :
      (m : Message) (failed : Method Unit) (r : Result Exc (Unit {0})) (w : Waiting) (t : Trace)
      (out : Outgoing)
      → out.key ≡ m.key
      → out.value ≡ m.value
      → attempts_of w.trace ≡ attempts_of t
      → ((v : Waiting) → attempts_of (failed v).1.trace ≡ attempts_of v.trace)
      → (r ≡ ok tt → w.trace ≡ t ++ enqueued out ∷ flushed 0 ∷ [])
      → IsKept m t (after_publish worker m failed r w).1.trace
  after_publish-IsKept m failed (ok _) w t out k v q h sent =
      inr (out, commit_trace m w t out (sent refl) k v)
  after_publish-IsKept m failed (err x) w t out k v q h sent =
      elim (Bool-cases (is_publish_failure x)) [
        | inl holds ↦ inl (rw holds (h w ∙ q))
        | inr fails ↦ inl (rw fails q)
      ]

  pub release-IsKept :
      (m : Message) (name : String) (o : Origin) (n : ℤ) (w : Waiting)
      → IsKept m w.trace (release worker m name o n w).1.trace
  unfolding release
  release-IsKept m name o n w =
      let g = group_id_for worker.settings name in
      let sent = on_io worker (do to_source worker.router m o name g n; pure tt) w in
      after_publish-IsKept m (pure tt) sent.0 sent.1 w.trace
        (copy_of m o.topic (source_headers o name g n)) refl refl
        (ground (arith, to_source_quiet m o name g n w.trace)) (λ v. refl)
        (λ h.
          let (topic, went, _) =
            bind-ok (to_source worker.router m o name g n) (λ _. pure tt) w.trace {b = tt} h in
          ground (arith, to_source_ok worker.router at_least_once m o name g n w.trace topic went))

  pub give_up-IsKept :
      (m : Message) (o : Origin) (service : String) (n : ℤ) (w : Waiting)
      → IsKept m w.trace (give_up worker m o service n w).1.trace
  unfolding give_up
  give_up-IsKept m o service n w =
      let g = group_id_for worker.settings service in
      let sent = on_io worker (to_dead_letter worker.router m o service g n non_retryable_exc) w in
      after_publish-IsKept m (rewind worker m) sent.0 sent.1 w.trace
        (copy_of m worker.router.settings.dlq_topic
          (dead_headers worker.router o service g n non_retryable_exc w.trace))
        refl refl (to_dead_letter_quiet m o service g n w.trace) (rewind_quiet m)
        (λ h.
          to_dead_letter_ok worker.router at_least_once m o service g n non_retryable_exc w.trace h)

  handle_spec-IsKept :
      (m : Message) (o : Origin) (n : ℤ) (service : String) (spec : Option String) (w : Waiting)
      → IsKept m w.trace (handle_spec worker m o n service spec w).1.trace
  handle_spec-IsKept m o n service none w = give_up-IsKept m o (or_unset service) n w
  handle_spec-IsKept m o n service (some name) w =
      elim (Bool-cases (is_event worker (worker.read_json m.value))) [
        | inl event ↦ rw event (release-IsKept m name o n w)
        | inr poison ↦ rw poison (give_up-IsKept m o service n w)
      ]

  handle_due-IsKept :
      (m : Message) (headers : Headers) (o : Origin) (w : Waiting)
      → IsKept m w.trace (handle_due worker m headers o w).1.trace
  unfolding handle_due
  handle_due-IsKept m headers o w =
      let service = or_empty_text (lookup hdr_service headers) in
      handle_spec-IsKept m o (int_header headers hdr_attempt (pos 2)) service
        (lookup service worker.specs) w

  handle_read-IsKept :
      (m : Message) (headers : Headers) (due : Option ℕ) (o : Origin) (w : Waiting)
      → IsKept m w.trace (handle_read worker m headers due o w).1.trace
  handle_read-IsKept m headers none o w = handle_due-IsKept m headers o w
  handle_read-IsKept m headers (some due) o w =
      elim (Bool-cases (ltb (worker.router.kafka.now w.trace) due)) [
        | inl early ↦ rw early (inl (defer_quiet m due w))
        | inr time ↦ rw time (handle_due-IsKept m headers o w)
      ]

  -- Whatever the broker does, outside a transaction, the worker commits a message of the retry topic
  -- only as the last thing, right after one copy with the message's own key and value was enqueued
  -- and flushed; in every other case, an exception included, it commits nothing.
  pub handle_message-IsKept :
      (m : Message) (w : Waiting) → IsKept m w.trace (handle_message worker m w).1.trace
  unfolding handle_message
  handle_message-IsKept m w =
      elim (Result-cases (from_headers worker.router.iso (decode_headers m) m)) [
        | inl (o, read) ↦ rw read (
            handle_read-IsKept m (decode_headers m)
              (time_header worker.router.iso (decode_headers m) hdr_retry_at) o w)
        | inr (x, malformed) ↦ rw malformed (inl refl)
      ]
