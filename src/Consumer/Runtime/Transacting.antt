-- ===== src/Consumer/Runtime/Transacting.antt =====
-- `_persist_and_commit` under exactly_once, which saves the fold before the committer begins a
-- transaction: the local backend over a producer that takes nothing outside of a transaction.
use kafka_playgroud.Prelude.{
  ℕ, ◌≡◌, ◌≢◌, ◌⊎◌, Result, some, refl, ap, ◌∙◌, Bool, true, false, Option, String, [], ◌∷◌, inl,
  inr, ok, err, arith,
}
use kafka_playgroud.Prelude.Action.{continue, ◌>>=◌}
use kafka_playgroud.Consumer.State.Record.{encode}
use kafka_playgroud.Prelude.Json.{Bytes}
use kafka_playgroud.Events.{LifecycleEvent}
use kafka_playgroud.Consumer.Broker.{
  Enqueue, KafkaError, accepted, buffer_error, refused, Event, flushed, not_enqueued, began,
  aborted, transaction_committed, Exc, Message, Outgoing, Trace, emit,
}
use kafka_playgroud.Consumer.State.{OrderFold, StateStore, unavailable}
use kafka_playgroud.Consumer.State.Local.{
  Local, LocalEnv, local_store, publish, settle, settle_again, write, read, save, store_for, topic,
  changelog_record, Method, on_disk, next_record,
}
use kafka_playgroud.Consumer.State.Local.Contents.{changelog_of}
use kafka_playgroud.Consumer.State.Local.Writes.{publish_lem}
use kafka_playgroud.Consumer.Runtime.{
  Service, Worker, persist_and_commit, persist_in_transaction, save_fold,
}
use kafka_playgroud.Config.{is_exactly_once}

Enqueue-cases :
    (a : Enqueue) → (a ≡ accepted) ⊎ (a ≡ buffer_error) ⊎ (e : KafkaError) × (a ≡ refused e)
Enqueue-cases accepted = inl refl
Enqueue-cases buffer_error = inr (inl refl)
Enqueue-cases (refused e) = inr (inr (e, refl))

-- whether a transaction is open after an event
abbrev pub open_by : Bool → Event → Bool
open_by was began = true
open_by was transaction_committed = false
open_by was aborted = false
open_by was _ = was

unfoldable pub open_from : Bool → Trace → Bool
open_from was [] = was
open_from was (e ∷ t) = open_from (open_by was e) t

-- whether the producer has a transaction open, by what it was told
abbrev pub is_transacting : Trace → Bool
is_transacting t = open_from false t

open_from-emit :
    (was : Bool) (t : Trace) (e : Event) → open_from was (emit e t) ≡ open_by (open_from was t) e
unfolding open_from
open_from-emit was [] e = refl
open_from-emit was (x ∷ t) e = open_from-emit (open_by was x) t e

module _ {D : Type 0} (env : LocalEnv D) where
  -- a call that raised, enqueued no changelog record, and left no transaction open
  abbrev pub IsRefused : {A : Type 0} → Trace → Result Exc A × Trace → Type 0
  IsRefused t (answer, t') =
      ((x : Exc) × (answer ≡ err x))
      × (changelog_of (topic env) t' ≡ changelog_of (topic env) t)
      × (is_transacting t' ≡ false)

  -- what was refused before the rest of a method ends it
  first-IsRefused :
      {A B : Type 0} (m : Method env A) (f : A → Method env B) (st : Local D × Trace) (t : Trace)
      → IsRefused t ((m st).0, (m st).1.1)
      → IsRefused t (((m >>= f) st).0, ((m >>= f) st).1.1)
  first-IsRefused m f st t ((x, is), same, shut) = rw is ((x, refl), same, shut)

  -- a method whose first part leaves the trace alone, and whose rest is refused wherever it starts
  continue-IsRefused :
      {A B : Type 0} (r : Result Exc A) (f : A → Method env B) (s : Local D) (t t' : Trace)
      → t' ≡ t
      → is_transacting t ≡ false
      → ((a : A) (s' : Local D) → IsRefused t ((f a (s', t)).0, (f a (s', t)).1.1))
      → IsRefused t ((continue r f (s, t')).0, (continue r f (s, t')).1.1)
  continue-IsRefused (ok a) f s t t' is shut rest = rw is (rest a s)
  continue-IsRefused (err x) f s t t' is shut rest =
      ((x, refl), ap (changelog_of (topic env)) is, ap is_transacting is ∙ shut)

  module _
      (refuses : (t : Trace) (out : Outgoing)
        → is_transacting t ≡ false
        → env.kafka.produce t out ≢ accepted) where
    publish-IsRefused :
        (p : ℕ) (id : String) (v : Option Bytes) (s : Local D) (t : Trace)
        → is_transacting t ≡ false
        → IsRefused t ((publish env p id v (s, t)).0, (publish env p id v (s, t)).1.1)
    unfolding publish settle settle_again
    publish-IsRefused p id v s t shut =
        let out = changelog_record env id v in
        let first = open_from-emit false t (not_enqueued out) ∙ shut in
        let t₂ =
          emit (flushed (env.kafka.flush (emit (not_enqueued out) t) 30000))
            (emit (not_enqueued out) t) in
        let drained : is_transacting t₂ ≡ false =
          open_from-emit false (emit (not_enqueued out) t) _ ∙ first in
        let again = open_from-emit false t₂ (not_enqueued out) ∙ drained in
        let same = (publish_lem env p id v s t).3 in
        elim (Enqueue-cases (env.kafka.produce t out)) [
          | inl taken ↦ absurd (refuses t out shut taken)
          | inr (inr (e, stopped)) ↦ (
            (unavailable, ground (arith, stopped)),
            same unavailable (ground (arith, stopped)),
            ground (arith, stopped, first),
          )
          | inr (inl full) ↦ elim (Enqueue-cases (env.kafka.produce t₂ out)) [
            | inl taken ↦ absurd (refuses t₂ out drained taken)
            | inr (inl full₂) ↦ (
              (unavailable, ground (arith, full, full₂)),
              same unavailable (ground (arith, full, full₂)),
              ground (arith, full, full₂, again),
            )
            | inr (inr (e, stopped)) ↦ (
              (unavailable, ground (arith, full, stopped)),
              same unavailable (ground (arith, full, stopped)),
              ground (arith, full, stopped, again),
            )
          ]
        ]

    -- a read does not reach the broker
    read_trace : (p : ℕ) (id : String) (s : Local D) (t : Trace) → (read env p id (s, t)).1.1 ≡ t
    unfolding read store_for
    read_trace p id s t = ground arith

    store_for_trace : (p : ℕ) (s : Local D) (t : Trace) → (store_for env p (s, t)).1.1 ≡ t
    unfolding store_for
    store_for_trace p s t = ground arith

    write-IsRefused :
        (p : ℕ) (id : String) (v : Bytes) (s : Local D) (t : Trace)
        → is_transacting t ≡ false
        → IsRefused t ((write env p id v (s, t)).0, (write env p id v (s, t)).1.1)
    unfolding write
    write-IsRefused p id v s t shut =
        continue-IsRefused (store_for env p (s, t)).0 _ (store_for env p (s, t)).1.0 t
          (store_for env p (s, t)).1.1 (store_for_trace p s t) shut
          (λ _ s₁.
            continue-IsRefused (on_disk env (env.engine.put s₁.disk p id v) (s₁, t)).0 _
              (on_disk env (env.engine.put s₁.disk p id v) (s₁, t)).1.0 t
              (on_disk env (env.engine.put s₁.disk p id v) (s₁, t)).1.1 (ground arith) shut
              (λ _ s₂. publish-IsRefused p id (some v) s₂ t shut))

    save-IsRefused :
        (p : ℕ) (id : String) (fold : OrderFold) (event_id : String) (s : Local D) (t : Trace)
        → is_transacting t ≡ false
        → IsRefused t
            ((save env p id fold event_id (s, t)).0, (save env p id fold event_id (s, t)).1.1)
    unfolding save
    save-IsRefused p id fold event_id s t shut =
        continue-IsRefused (read env p id (s, t)).0 _ (read env p id (s, t)).1.0 t
          (read env p id (s, t)).1.1 (read_trace p id s t) shut
          (λ previous s₁.
            first-IsRefused
              (write env p id (encode env.codec (next_record env previous fold event_id))) _ (s₁, t)
              t
              (write-IsRefused p id (encode env.codec (next_record env previous fold event_id)) s₁ t
                shut))

    -- Under exactly_once, for the local backend over a producer that takes nothing outside of a
    -- transaction: where no transaction is open, `_persist_and_commit` raises, whatever else the
    -- broker does, and leaves no transaction open, the changelog as it was, and the message not
    -- noted for a commit.
    pub persist_and_commit_refused :
        {C : Type 0} (service : Service (Local D) C)
        → service.store ≡ local_store env
        → is_exactly_once service.settings ≡ true
        → (m : Message) (event : LifecycleEvent) (fold : OrderFold) (p : ℕ) (w : Worker (Local D) C)
        → is_transacting w.trace ≡ false
        → let (answer, w') = persist_and_commit service m event fold p w in
          ((x : Exc) × (answer ≡ err x))
          × (changelog_of (topic env) w'.trace ≡ changelog_of (topic env) w.trace)
          × (is_transacting w'.trace ≡ false)
          × (w'.commits ≡ w.commits)
    unfolding persist_and_commit persist_in_transaction save_fold
    persist_and_commit_refused service stored transactional m event fold p w shut =
        let is =
          ap
            (λ (store : StateStore (Local D)).
              store.save p event.order_id fold event.event_id (w.store, w.trace))
            stored in
        let ((x, failed), same, still) =
          save-IsRefused p event.order_id fold event.event_id w.store w.trace shut in
        rw transactional (rw is (rw failed ((x, refl), same, still, refl)))
