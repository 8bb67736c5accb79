-- ===== src/Consumer/Projection/Runs.antt =====
-- Messages and runs on the memory backend: what they do to the store.
use kafka_playgroud.Prelude.{
  ℕ, ◌≡◌, inl, inr, refl, sym, ap, ◌∙◌, Option, none, some, String, List, [], ◌∷◌, ◌++◌, Result, ok,
  err, if◌then◌else◌, ◌==◌, string_eq, arith, Bool-cases, Result-cases,
}
use mathlib.Core.Path.{subst}
use kafka_playgroud.Prelude.Action.{continue, lift}
use kafka_playgroud.Prelude.Json.{Bytes, utf8, raw, Json}
use kafka_playgroud.Dict.{lookup}
use kafka_playgroud.Events.{LifecycleEvent, EventFields, validate_event}
use kafka_playgroud.Consumer.Broker.{handled, Io, Message, Exc}
use kafka_playgroud.Consumer.Dlq.{decode_headers, hdr_retry_target}
use kafka_playgroud.Consumer.Failures.{maybe_fail}
use kafka_playgroud.Consumer.Folding.{apply_event, key_of, attempt_of}
use kafka_playgroud.Consumer.State.Memory as Memory
use kafka_playgroud.Consumer.State.Memory.{Memory, memory_store}
use kafka_playgroud.Consumer.Runtime.{
  Service, Worker, Polled, nothing, error, message, assigned, revoked, lost, decode,
  is_other_service, on_store, on_io, note_event, commit, run_attempt, run_handler, after_attempt,
  handle_event, after_decode, handle_tombstone, handle_value, handle_message, log_key, settle, step,
  loop, parsed, validated,
}
use kafka_playgroud.Consumer.Projection.{
  on_memory, project_tried, project_decoded, project_value, given_up, project, project_all,
  AreTotal,
}
use kafka_playgroud.Consumer.Projection.Steps.{
  At, Projects, bind-Keeps, after-Projects, bind-Projects, if-Projects, commit-Keeps,
  route_failure-Keeps, handle_error-Keeps, settle-Keeps, after_attempt-Projects,
}
use kafka_playgroud.Consumer.Runtime.Running.{
  finally_close, is_exit, closing, close_consumer, give_back, partitions_of, after_close,
}

module _ {S C : Type 0} (base : Service S C) (total : AreTotal base) where
  abbrev service : Service Memory Unit
  service = on_memory base

  module _ (f : EventFields) (e : LifecycleEvent)
      (valid : validate_event base.pydantic f ≡ ok e) where
    handler_returns :
        (h : Option (LifecycleEvent → Io Unit)) (w : Worker Memory Unit)
        → base.handlers e.event_type ≡ h
        → ((run_handler service e h w).0 ≡ ok tt) × ((run_handler service e h w).1.store ≡ w.store)
    handler_returns none w found = (refl, refl)
    handler_returns (some h) w found =
        let returns = total f e valid h found w.trace in
        (
          ap
              (λ r.
                (continue r (λ _. note_event service handled)
                  (record w { trace = (h e w.trace).1 })).0)
              returns,
          bind-Keeps base (on_io service (h e)) (λ _. note_event service handled) (λ _. refl)
              (λ _ _. refl) w,
        )

    run_attempt_lem :
        (n : ℕ) (w : Worker Memory Unit)
        → ((run_attempt service e n w).0 ≡ maybe_fail base.settings e n)
          × ((run_attempt service e n w).1.store ≡ w.store)
    unfolding run_attempt
    run_attempt_lem n w = elim (Result-cases (maybe_fail base.settings e n)) [
      | inl (_, passes) ↦
          let (returns, kept) = handler_returns (base.handlers e.event_type) w refl in
          (rw passes returns, rw passes kept)
      | inr (x, fails) ↦ (rw fails refl, rw fails refl)
    ]

    -- `_handle_message` from the decoded event on
    handle_event-Projects :
        (m : Message)
        → Projects base
            (λ s.
              project_tried base m.partition e
                (maybe_fail base.settings e (attempt_of (decode_headers m)))
                s)
            (handle_event service m e (attempt_of (decode_headers m)))
    unfolding handle_event
    handle_event-Projects m =
        let n = attempt_of (decode_headers m) in
        after-Projects base _ (lift (log_key m)) _ (λ w. refl)
          (λ _ w.
            let (answers, kept) = run_attempt_lem n w in
            let w' = (run_attempt service e n w).1 in
            subst
              (λ r.
                At base (project_tried base m.partition e (maybe_fail base.settings e n)) w.store (
                  after_attempt service m e
                    (apply_event (Memory.load m.partition e.order_id w.store) e).0 n r w'))
              (sym answers)
              (after_attempt-Projects base m e (maybe_fail base.settings e n) w.store w' kept))

  validated_by :
      (o : Option EventFields) (e : LifecycleEvent)
      → validated service o ≡ ok e
      → (f : EventFields) × (validate_event base.pydantic f ≡ ok e)
  validated_by none e is = absurd (ground (arith, is))
  validated_by (some f) e is = (f, ground (arith, is))

  parsed_by :
      (o : Option Json) (e : LifecycleEvent)
      → parsed service o ≡ ok e
      → (f : EventFields) × (validate_event base.pydantic f ≡ ok e)
  parsed_by none e is = absurd (ground (arith, is))
  parsed_by (some j) e is = validated_by (base.pydantic.read_event j) e is

  decoded_by :
      (value : Bytes) (e : LifecycleEvent)
      → decode service value ≡ ok e
      → (f : EventFields) × (validate_event base.pydantic f ≡ ok e)
  unfolding decode
  decoded_by (utf8 text) e is = parsed_by (base.codec.loads text) e is
  decoded_by (raw _) e is = absurd (ground (arith, is))

  after_decode-Projects :
      (m : Message) (value : Bytes) (r : Result Exc LifecycleEvent)
      → decode service value ≡ r
      → Projects base
          (project_decoded base m r)
          (after_decode service m (attempt_of (decode_headers m)) r)
  after_decode-Projects m value (ok e) is =
      let (f, valid) = decoded_by value e is in handle_event-Projects f e valid m
  after_decode-Projects m value (err x) is =
      λ w. inl (route_failure-Keeps base m x (attempt_of (decode_headers m)) w)

  tombstone-Projects :
      (m : Message)
      → Projects base (λ s. (Memory.delete m.partition (key_of m) s).1) (handle_tombstone service m)
  unfolding handle_tombstone
  tombstone-Projects m =
      bind-Projects base (λ s. (Memory.delete m.partition (key_of m) s).1)
        (on_store service (memory_store.delete m.partition (key_of m))) (λ _. commit service m)
        (λ w. inl refl) (λ _. commit-Keeps base m)

  commit-Projects : (m : Message) → Projects base (λ s. s) (commit service m)
  commit-Projects m w = inl (commit-Keeps base m w)

  handle_value-Projects :
      (m : Message) (o : Option Bytes)
      → Projects base (project_value base m o) (handle_value service m o)
  handle_value-Projects m none = tombstone-Projects m
  handle_value-Projects m (some value) =
      let other = is_other_service base.name (lookup hdr_retry_target (decode_headers m)) in
      let decoded = after_decode service m (attempt_of (decode_headers m)) (decode service value) in
      if-Projects base (λ s. s) _ (m.topic == base.settings.order_snapshot_topic) (commit service m)
        (if other then commit service m else decoded) (commit-Projects m)
        (if-Projects base (λ s. s) (project_decoded base m (decode service value)) other
          (commit service m) decoded (commit-Projects m)
          (after_decode-Projects m value (decode service value) refl))

  step-Projects : (x : Polled) → Projects base (project base x) (step service x)
  unfolding step project handle_message
  step-Projects nothing = λ w. inl (settle-Keeps base w)
  step-Projects (error e) = λ w. inl (handle_error-Keeps base e w)
  step-Projects (message m) =
      bind-Projects base (project_value base m m.value) (handle_message service m)
        (λ _. settle service) (handle_value-Projects m m.value) (λ _. settle-Keeps base)
  step-Projects (assigned ps) = λ w. inl refl
  step-Projects (revoked ps) = λ w. inl refl
  step-Projects (lost ps) = λ w. inl refl

  -- The store is the projection of a first part of what is polled, and of all of it where the call
  -- returned.
  abbrev pub IsProjected :
      List Polled → Memory → Result Exc (Unit {0}) × Worker Memory Unit → Type 0
  IsProjected polled s r =
      (done : List Polled) × (rest : List Polled) × (polled ≡ done ++ rest)
      × (r.1.store ≡ project_all base done s)
      × (r.0 ≡ ok tt → rest ≡ [])

  continue-IsProjected :
      (x : Polled) (xs : List Polled) (s : Memory) (r : Result Exc (Unit {0}))
      (w : Worker Memory Unit)
      → At base (project base x) s (r, w)
      → IsProjected xs w.store (loop service xs w)
      → IsProjected (x ∷ xs) s (continue r (λ _. loop service xs) w)
  unfolding project_all
  continue-IsProjected x xs s (ok _) w (inl projected) (done, rest, split, stored, ends) = (
    x ∷ done,
    rest,
    ap (λ ys. x ∷ ys) split,
    stored ∙ ap (λ s'. project_all base done s') projected,
    ends,
  )
  continue-IsProjected x xs s (err y) w (inl projected) _ =
      (x ∷ [], xs, refl, projected, λ is. absurd (ground (arith, is)))
  continue-IsProjected x xs s (ok _) w (inr (y, failed, same)) _ = absurd (ground (arith, failed))
  continue-IsProjected x xs s (err y) w (inr (_, failed, same)) _ =
      ([], x ∷ xs, refl, same, λ is. absurd (ground (arith, is)))

  pub loop-IsProjected :
      (xs : List Polled) (w : Worker Memory Unit) → IsProjected xs w.store (loop service xs w)
  unfolding loop project_all
  loop-IsProjected [] w = ([], [], refl, refl, λ _. refl)
  loop-IsProjected (x ∷ xs) w =
      let (answer, w') = step service x w in
      continue-IsProjected x xs w.store answer w' (step-Projects x w) (loop-IsProjected xs w')

  give_back_lem :
      (ps : List (String × ℕ)) (w : Worker Memory Unit)
      → ((give_back service ps w).1.store ≡ Memory.forget (partitions_of ps) w.store)
        × ((give_back service ps w).0 ≡ ok tt)
  unfolding Memory.forget
  give_back_lem [] w = (refl, refl)
  give_back_lem (a ∷ ps) w = (refl, refl)

  closing_lem :
      (w : Worker Memory Unit)
      → ((closing service w).1.store
          ≡ Memory.forget (partitions_of (base.assignment w.trace)) w.store)
        × ((closing service w).0 ≡ ok tt)
  unfolding close_consumer
  closing_lem w = give_back_lem (base.assignment w.trace) w

  pub finally_lem :
      (answer : Result Exc (Unit {0})) (w : Worker Memory Unit)
      → ((finally_close service answer w).1.store ≡ Memory.forget (given_up base answer w) w.store)
        × ((finally_close service answer w).0 ≡ answer)
  unfolding Memory.forget
  finally_lem (ok _) w =
      let (left, returned) = closing_lem w in (left, ap (λ r. after_close (ok tt) r) returned)
  finally_lem (err x) w =
      let (left, returned) = closing_lem w in
      elim (Bool-cases (is_exit x)) [
        | inl gone ↦ (rw gone refl, rw gone refl)
        | inr caught ↦ (rw caught left, rw caught (ap (λ r. after_close (err x) r) returned))
      ]
