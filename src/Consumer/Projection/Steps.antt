-- ===== src/Consumer/Projection/Steps.antt =====
-- The steps of the loop on the memory backend: what they do to the store.
use kafka_playgroud.Prelude.{
  ℕ, ◌≡◌, ◌⊎◌, inl, inr, refl, ap, ◌∙◌, Bool, true, false, String, Result, ok, err, if◌then◌else◌,
  string_eq, arith, Bool-cases, Option-cases,
}
use mathlib.Core.Path.{subst}
use kafka_playgroud.Prelude.Action.{continue, ◌>>=◌, ◌>>◌}
use kafka_playgroud.Config.{StateWriteOrder, is_exactly_once}
use kafka_playgroud.Events.{LifecycleEvent}
use kafka_playgroud.Consumer.Broker.{Message, Exc, KafkaError}
use kafka_playgroud.Consumer.Dlq.{decode_headers}
use kafka_playgroud.Consumer.Folding.{apply_event, attempt_of}
use kafka_playgroud.Consumer.State.{OrderFold}
use kafka_playgroud.Consumer.State.Memory as Memory
use kafka_playgroud.Consumer.State.Memory.{Memory, memory_store}
use kafka_playgroud.Consumer.Runtime.{
  Service, Worker, Method, on_store, commit, rewind, seek, delay, route_failure, publish_failure,
  after_publish, is_publish_failure, is_unavailable, after_attempt, persist_and_commit,
  persist_in_transaction, persist_offset_first, persist_state_first, save_fold, crash_if_configured,
  crashes_at_write, settle, handle_error,
}
use kafka_playgroud.Consumer.Projection.{on_memory, project_event, project_tried}

module _ {S C : Type 0} (base : Service S C) where
  abbrev service : Service Memory Unit
  service = on_memory base

  -- a method that leaves the store as it is
  abbrev pub Keeps : {A : Type 0} → Method service A → Type 0
  Keeps a = (w : Worker Memory Unit) → (a w).1.store ≡ w.store

  -- What becomes of the store at one call: what the projection makes of it, or the call has failed
  -- and it is as it was.
  abbrev pub At :
      {A : Type 0} → (Memory → Memory) → Memory → Result Exc A × Worker Memory Unit → Type 0
  At P s r = (r.1.store ≡ P s) ⊎ ((x : Exc) × (r.0 ≡ err x) × (r.1.store ≡ s))

  abbrev pub Projects : {A : Type 0} → (Memory → Memory) → Method service A → Type 0
  Projects P a = (w : Worker Memory Unit) → At P w.store (a w)

  pub continue-Keeps :
      {A B : Type 0} (r : Result Exc A) (f : A → Method service B) (w : Worker Memory Unit)
      → ((x : A) → Keeps (f x))
      → (continue r f w).1.store ≡ w.store
  continue-Keeps (ok x) f w h = h x w
  continue-Keeps (err x) f w h = refl

  pub bind-Keeps :
      {A B : Type 0} (a : Method service A) (f : A → Method service B)
      → Keeps a
      → ((x : A) → Keeps (f x))
      → Keeps (a >>= f)
  bind-Keeps a f q h w = continue-Keeps (a w).0 f (a w).1 h ∙ q w

  -- a failed first part has failed the whole
  continue-failed :
      {A B : Type 0} (r : Result Exc A) (f : A → Method service B) (w : Worker Memory Unit)
      (x : Exc)
      → r ≡ err x
      → continue r f w ≡ (err x, w)
  continue-failed r f w x e = ap (λ r'. continue r' f w) e

  pub bind-Projects :
      {A B : Type 0} (P : Memory → Memory) (a : Method service A) (f : A → Method service B)
      → Projects P a
      → ((x : A) → Keeps (f x))
      → Projects P (a >>= f)
  bind-Projects {B = B} P a f q h w = elim (q w) [
    | inl projected ↦ inl (continue-Keeps (a w).0 f (a w).1 h ∙ projected)
    | inr (x, failed, same) ↦
        let whole = continue-failed (a w).0 f (a w).1 x failed in
        inr (
          x,
          ap (λ (r : Result Exc B × Worker Memory Unit). r.0) whole,
          ap (λ (r : Result Exc B × Worker Memory Unit). r.1.store) whole ∙ same,
        )
  ]

  -- a first part that keeps the store
  pub continue-after :
      {A B : Type 0} (P : Memory → Memory) (r : Result Exc A) (f : A → Method service B)
      (s : Memory) (w : Worker Memory Unit)
      → w.store ≡ s
      → ((x : A) → Projects P (f x))
      → At P s (continue r f w)
  continue-after P (ok x) f s w e h = subst (λ s'. At P s' (f x w)) e (h x w)
  continue-after P (err x) f s w e h = inr (x, refl, e)

  pub after-Projects :
      {A B : Type 0} (P : Memory → Memory) (a : Method service A) (f : A → Method service B)
      → Keeps a
      → ((x : A) → Projects P (f x))
      → Projects P (a >>= f)
  after-Projects P a f q h w = continue-after P (a w).0 f w.store (a w).1 (q w) h

  pub if-Projects :
      {A : Type 0} (P Q : Memory → Memory) (b : Bool) (a c : Method service A)
      → Projects P a
      → Projects Q c
      → Projects (λ s. if b then P s else Q s) (if b then a else c)
  if-Projects P Q true a c h k = h
  if-Projects P Q false a c h k = k

  pub commit-Keeps : (m : Message) → Keeps (commit service m)
  unfolding commit
  commit-Keeps m w = refl

  crash-Keeps : (here : Bool) → Keeps (crash_if_configured service here)
  unfolding crash_if_configured
  crash-Keeps true w = refl
  crash-Keeps false w = refl

  seek-Keeps : (topic : String) (p offset : ℕ) → Keeps (seek service topic p offset)
  seek-Keeps topic p offset w =
      elim (Option-cases (base.router.kafka.seek w.trace topic p offset)) [
        | inl sought ↦ rw (sought, seek) refl
        | inr (e, refused) ↦ rw (refused, seek) refl
      ]

  rewind-Keeps : (m : Message) → Keeps (rewind service m)
  unfolding rewind
  rewind-Keeps m =
      bind-Keeps (seek service m.topic m.partition m.offset) _
        (seek-Keeps m.topic m.partition m.offset) (λ _ w. refl)

  after_publish-Keeps :
      (m : Message) (r : Result Exc (Unit {0})) → Keeps (after_publish service m r)
  after_publish-Keeps m (ok _) = commit-Keeps m
  after_publish-Keeps m (err x) = λ w. elim (Bool-cases (is_publish_failure x)) [
    | inl holds ↦ rw holds (rewind-Keeps m w)
    | inr fails ↦ rw fails refl
  ]

  publish_failure-Keeps : (m : Message) (x : Exc) (n : ℕ) → Keeps (publish_failure service m x n)
  unfolding publish_failure
  publish_failure-Keeps m x n w = ground arith

  pub route_failure-Keeps : (m : Message) (x : Exc) (n : ℕ) → Keeps (route_failure service m x n)
  unfolding route_failure
  route_failure-Keeps m x n w =
      let published = publish_failure service m x n w in
      after_publish-Keeps m published.0 published.1 ∙ publish_failure-Keeps m x n w

  delay-Keeps : Keeps (delay service)
  delay-Keeps w = ground arith

  pub handle_error-Keeps : (e : KafkaError) → Keeps (handle_error service e)
  unfolding handle_error
  handle_error-Keeps e w = ground arith

  pub settle-Keeps : Keeps (settle service)
  unfolding settle
  settle-Keeps w = refl

  module _ (m : Message) (e : LifecycleEvent) where
    -- saving the event's fold over what the store had at `s`
    abbrev saved : Memory → Memory
    saved s =
        (Memory.save m.partition e.order_id (apply_event (Memory.load m.partition e.order_id s) e).0
          e.event_id s).1

    save_fold-Projects :
        (fold : OrderFold)
        → Projects
            (λ s. (Memory.save m.partition e.order_id fold e.event_id s).1)
            (save_fold service e fold m.partition)
    unfolding save_fold
    save_fold-Projects fold w = inl refl

    abbrev stored : OrderFold → Memory → Memory
    stored fold s = (Memory.save m.partition e.order_id fold e.event_id s).1

    in_transaction-Projects :
        (fold : OrderFold)
        → Projects (stored fold) (persist_in_transaction service m e fold m.partition)
    unfolding persist_in_transaction
    in_transaction-Projects fold =
        bind-Projects (stored fold) (save_fold service e fold m.partition) _
          (save_fold-Projects fold)
          (λ _. bind-Keeps (commit service m) _ (commit-Keeps m) (λ _. crash-Keeps _))

    offset_first-Projects :
        (fold : OrderFold)
        → Projects (stored fold) (persist_offset_first service m e fold m.partition)
    unfolding persist_offset_first
    offset_first-Projects fold =
        after-Projects (stored fold) (commit service m) _ (commit-Keeps m) (λ _.
          after-Projects (stored fold) (crash_if_configured service _) _ (crash-Keeps _)
            (λ _. save_fold-Projects fold))

    crash_commit-Keeps :
        (here : Bool) → Keeps (crash_if_configured service here >> commit service m)
    crash_commit-Keeps here =
        bind-Keeps (crash_if_configured service here) (λ _. commit service m) (crash-Keeps here)
          (λ _. commit-Keeps m)

    after_save-Keeps :
        (here : Bool)
        → Keeps (
            on_store service memory_store.flush
            >> (crash_if_configured service here >> commit service m))
    after_save-Keeps here =
        bind-Keeps (on_store service memory_store.flush)
          (λ _. crash_if_configured service here >> commit service m) (λ w. refl)
          (λ _. crash_commit-Keeps here)

    state_first-Projects :
        (fold : OrderFold)
        → Projects (stored fold) (persist_state_first service m e fold m.partition)
    unfolding persist_state_first
    state_first-Projects fold =
        bind-Projects (stored fold) (save_fold service e fold m.partition) _
          (save_fold-Projects fold) (λ _. after_save-Keeps (crashes_at_write service))

    -- outside exactly_once
    abbrev persist_in_order : StateWriteOrder → OrderFold → Method service Unit
    persist_in_order order fold = elim order [
      | StateWriteOrder.offset_first ↦ persist_offset_first service m e fold m.partition
      | StateWriteOrder.state_first ↦ persist_state_first service m e fold m.partition
    ]

    in_order-Projects :
        (order : StateWriteOrder) (fold : OrderFold)
        → Projects (stored fold) (persist_in_order order fold)
    in_order-Projects StateWriteOrder.offset_first fold = offset_first-Projects fold
    in_order-Projects StateWriteOrder.state_first fold = state_first-Projects fold

    persist-Projects :
        (fold : OrderFold)
        → Projects (stored fold) (persist_and_commit service m e fold m.partition)
    unfolding persist_and_commit
    persist-Projects fold w = elim (Bool-cases (is_exactly_once base.settings)) [
      | inl holds ↦ rw holds (in_transaction-Projects fold w)
      | inr fails ↦ rw fails (in_order-Projects base.settings.state_write_order fold w)
    ]

    abbrev attempt : ℕ
    attempt = attempt_of (decode_headers m)

    -- what follows an attempt, whose answer is the failure lever's alone
    pub after_attempt-Projects :
        (r : Result Exc (Unit {0})) (s : Memory) (w : Worker Memory Unit)
        → w.store ≡ s
        → At (project_tried base m.partition e r) s (
            after_attempt service m e
              (apply_event (Memory.load m.partition e.order_id s) e).0
              attempt
              r
              w)
    unfolding project_event
    after_attempt-Projects (ok _) s w same =
        let fold = (apply_event (Memory.load m.partition e.order_id s) e).0 in
        continue-after (stored fold) (delay service w).0 _ s (delay service w).1
          (delay-Keeps w ∙ same) (λ _. persist-Projects fold)
    after_attempt-Projects (err x) s w same = inl (elim (Bool-cases (is_unavailable x)) [
      | inl holds ↦ rw holds same
      | inr fails ↦ rw fails (route_failure-Keeps m x attempt w ∙ same)
    ])
