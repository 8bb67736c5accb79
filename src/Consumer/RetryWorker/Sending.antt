-- ===== src/Consumer/RetryWorker/Sending.antt =====
-- `_handle_message` of the retry worker: how much it publishes.
use kafka_playgroud.Prelude.{
  ℕ, ℤ, ◌≡◌, refl, ◌⊎◌, inl, inr, Option, none, some, [], ◌∷◌, ◌++◌, String, arith, Result, ok, err,
  Result-cases, Bool-cases, ltb, string_eq, nat_eq, pos,
}
use mathlib.Core.List.{append-nil}
use kafka_playgroud.Prelude.Action.{◌>>◌, pure}
use kafka_playgroud.Dict.{lookup}
use kafka_playgroud.Config.{group_id_for}
use kafka_playgroud.Consumer.Broker.{Message, Outgoing, Exc, Trace}
use kafka_playgroud.Consumer.Broker.Collecting.{copies_of, copies_of-emit}
use kafka_playgroud.Consumer.Dlq.{
  Headers, Origin, publish, await_delivery, judge, to_source, to_dead_letter, decode_headers,
  from_headers, hdr_retry_at, hdr_attempt, hdr_service,
}
use kafka_playgroud.Consumer.Dlq.Publishing.{copy_of, source_headers, dead_headers}
use kafka_playgroud.Consumer.Runtime.{is_publish_failure}
use kafka_playgroud.Consumer.RetryWorker.{
  RetryWorker, Waiting, Method, commit, rewind, defer, give_up, release, handle_due, handle_spec,
  handle_read, handle_message, time_header, int_header, non_retryable_exc, on_io, after_publish,
  is_event, or_unset, or_empty_text,
}

-- At most one copy was enqueued.
abbrev pub Sends : Trace → Trace → Type 0
Sends t t' =
    (copies_of t' ≡ copies_of t) ⊎ ((out : Outgoing) × (copies_of t' ≡ copies_of t ++ out ∷ []))

abbrev SendsNone : {A : Type 0} → Method A → Type 0
SendsNone a = (w : Waiting) → copies_of (a w).1.trace ≡ copies_of w.trace

module _ (worker : RetryWorker) where
  publish_sends :
      (topic : String) (m : Message) (headers : Headers) (t : Trace)
      → (copies_of (publish worker.router topic m headers t).1 ≡ copies_of t)
        ⊎ (copies_of (publish worker.router topic m headers t).1
            ≡ copies_of t ++ copy_of m topic headers ∷ [])
  unfolding publish await_delivery judge
  publish_sends topic m headers t = grind (arith, copies_of-emit, append-nil)

  rewind-SendsNone : (m : Message) → SendsNone (rewind worker m)
  unfolding rewind
  rewind-SendsNone m w = grind (arith, copies_of-emit, append-nil)

  commit-SendsNone : (m : Message) → SendsNone (commit worker m)
  unfolding commit
  commit-SendsNone m w = grind (arith, copies_of-emit, append-nil)

  defer-SendsNone : (m : Message) (due : ℕ) → SendsNone (defer worker m due)
  unfolding defer
  defer-SendsNone m due w = grind (arith, copies_of-emit, append-nil)

  -- what a publish and its consequences have sent
  after_publish-Sends :
      (m : Message) (failed : Method Unit) (r : Result Exc (Unit {0})) (w : Waiting) (t : Trace)
      → SendsNone failed
      → Sends t w.trace
      → Sends t (after_publish worker m failed r w).1.trace
  after_publish-Sends m failed (ok _) w t h s = rw (commit-SendsNone m w) s
  after_publish-Sends m failed (err x) w t h s = elim (Bool-cases (is_publish_failure x)) [
    | inl holds ↦ rw holds (rw (h w) s)
    | inr fails ↦ rw fails s
  ]

  one_of :
      (t t' : Trace) (out : Outgoing)
      → (copies_of t' ≡ copies_of t) ⊎ (copies_of t' ≡ copies_of t ++ out ∷ [])
      → Sends t t'
  one_of t t' out (inl e) = inl e
  one_of t t' out (inr e) = inr (out, e)

  release-Sends :
      (m : Message) (name : String) (o : Origin) (n : ℤ) (w : Waiting)
      → Sends w.trace (release worker m name o n w).1.trace
  unfolding release to_source
  release-Sends m name o n w =
      let g = group_id_for worker.settings name in
      let sent = on_io worker (do to_source worker.router m o name g n; pure tt) w in
      after_publish-Sends m (pure tt) sent.0 sent.1 w.trace (λ v. refl)
        (one_of w.trace sent.1.trace (copy_of m o.topic (source_headers o name g n))
          (ground (arith, publish_sends o.topic m (source_headers o name g n) w.trace)))

  give_up-Sends :
      (m : Message) (o : Origin) (service : String) (n : ℤ) (w : Waiting)
      → Sends w.trace (give_up worker m o service n w).1.trace
  unfolding give_up to_dead_letter
  give_up-Sends m o service n w =
      let g = group_id_for worker.settings service in
      let headers = dead_headers worker.router o service g n non_retryable_exc w.trace in
      let sent = on_io worker (to_dead_letter worker.router m o service g n non_retryable_exc) w in
      after_publish-Sends m (rewind worker m) sent.0 sent.1 w.trace (rewind-SendsNone m) (
        one_of w.trace sent.1.trace (copy_of m worker.router.settings.dlq_topic headers)
          (publish_sends worker.router.settings.dlq_topic m headers w.trace))

  handle_spec-Sends :
      (m : Message) (o : Origin) (n : ℤ) (service : String) (spec : Option String) (w : Waiting)
      → Sends w.trace (handle_spec worker m o n service spec w).1.trace
  handle_spec-Sends m o n service none w = give_up-Sends m o (or_unset service) n w
  handle_spec-Sends m o n service (some name) w =
      elim (Bool-cases (is_event worker (worker.read_json m.value))) [
        | inl event ↦ rw event (release-Sends m name o n w)
        | inr poison ↦ rw poison (give_up-Sends m o service n w)
      ]

  handle_due-Sends :
      (m : Message) (headers : Headers) (o : Origin) (w : Waiting)
      → Sends w.trace (handle_due worker m headers o w).1.trace
  unfolding handle_due
  handle_due-Sends m headers o w =
      let service = or_empty_text (lookup hdr_service headers) in
      handle_spec-Sends m o (int_header headers hdr_attempt (pos 2)) service
        (lookup service worker.specs) w

  handle_read-Sends :
      (m : Message) (headers : Headers) (due : Option ℕ) (o : Origin) (w : Waiting)
      → Sends w.trace (handle_read worker m headers due o w).1.trace
  handle_read-Sends m headers none o w = handle_due-Sends m headers o w
  handle_read-Sends m headers (some due) o w =
      elim (Bool-cases (ltb (worker.router.kafka.now w.trace) due)) [
        | inl early ↦ rw early (inl (defer-SendsNone m due w))
        | inr time ↦ rw time (handle_due-Sends m headers o w)
      ]

  pub handle_message-Sends :
      (m : Message) (w : Waiting) → Sends w.trace (handle_message worker m w).1.trace
  unfolding handle_message
  handle_message-Sends m w =
      elim (Result-cases (from_headers worker.router.iso (decode_headers m) m)) [
        | inl (o, read) ↦ rw read (
            handle_read-Sends m (decode_headers m)
              (time_header worker.router.iso (decode_headers m) hdr_retry_at) o w)
        | inr (x, malformed) ↦ rw malformed (inl refl)
      ]
