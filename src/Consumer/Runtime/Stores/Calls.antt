-- ===== src/Consumer/Runtime/Stores/Calls.antt =====
-- `restore`, `forget` and `discard` of `LocalStateStore`: what they leave of the trace.
use kafka_playgroud.Prelude.{
  ℕ, ◌+◌, ◌≡◌, refl, ◌∙◌, Option, none, some, List, [], ◌∷◌, String, arith, Result, ok, err,
  sorted_set, nat_eq, string_eq, if◌then◌else◌, ltb, Bool-cases, inl, inr,
}
use mathlib.Core.List.{append-nil}
use kafka_playgroud.Prelude.Action.{◌>>=◌, continue}
use kafka_playgroud.Prelude.Json.{Bytes}
use kafka_playgroud.Consumer.Broker.{Exc, Trace, ErrorCode}
use kafka_playgroud.Consumer.State.{StoreIo}
use kafka_playgroud.Consumer.State.Local.{
  Local, LocalEnv, Poll, nothing, poll_error, record_at, store_for, on_disk, apply_record,
  key_of_record, drain_step, drain_from, drain, close_store, destroy, start_offset, from_low,
  await_metadata, watermarks, replay_from, restore_one, restore_all, restore, release, release_all,
  close, forget, forget_sorted, discard_one, discard_all, discard, producer_flush, note_live,
}
use kafka_playgroud.Consumer.Runtime.Committing.{outcomes_of, outcomes_of-emit, Outcome}

module _ {D : Type 0} where
  -- a method of the store that neither commits nor seeks
  abbrev Silent : {A : Type 0} → StoreIo (Local D) A → Type 0
  Silent a = (s : Local D) (t : Trace) → outcomes_of (a (s, t)).1.1 ≡ outcomes_of t

  continue-Silent :
      {A B : Type 0} (r : Result Exc A) (f : A → StoreIo (Local D) B) (before : List Outcome)
      (st : Local D × Trace)
      → outcomes_of st.1 ≡ before
      → ((x : A) → Silent (f x))
      → outcomes_of (continue r f st).1.1 ≡ before
  continue-Silent (ok x) f before st e h = h x st.0 st.1 ∙ e
  continue-Silent (err x) f before st e h = e

  bind-Silent :
      {A B : Type 0} (a : StoreIo (Local D) A) (f : A → StoreIo (Local D) B)
      → Silent a
      → ((x : A) → Silent (f x))
      → Silent (a >>= f)
  bind-Silent a f q h s t = continue-Silent (a (s, t)).0 f (outcomes_of t) (a (s, t)).1 (q s t) h

module _ {D : Type 0} (env : LocalEnv D) where
  store_for-Silent : (p : ℕ) → Silent (store_for env p)
  unfolding store_for
  store_for-Silent p s t = ground arith

  on_disk-Silent : (f : Local D × Trace → Option D) → Silent (λ st. on_disk env (f st) st)
  on_disk-Silent f s t = ground arith

  apply_record-Silent : (p : ℕ) (k : String) (v : Option Bytes) → Silent (apply_record env p k v)
  unfolding apply_record
  apply_record-Silent p k none s t = ground arith
  apply_record-Silent p k (some v) s t = ground arith

  drain_step-Silent :
      (p : ℕ) (poll : Poll) (rest : ℕ → ℕ → List String → StoreIo (Local D) (ℕ × List String))
      → ((n r : ℕ) (live : List String) → Silent (rest n r live))
      → (n r : ℕ) (live : List String) → Silent (drain_step env p poll rest n r live)
  drain_step-Silent p nothing rest h n r live = λ s t. refl
  drain_step-Silent p (poll_error ErrorCode.partition_eof) rest h n r live = h n r live
  drain_step-Silent p (poll_error _) rest h n r live = λ s t. refl
  drain_step-Silent p (record_at offset key v) rest h n r live =
      bind-Silent (λ st. (key_of_record env key, st)) _ (λ s t. refl)
        (λ k.
          bind-Silent (apply_record env p k v) _ (apply_record-Silent p k v)
            (λ _. h (offset + 1) (r + 1) (note_live k v live)))

  drain_from-Silent :
      (p high : ℕ) (polls : List Poll) (n r : ℕ) (live : List String)
      → Silent (drain_from env p high polls n r live)
  unfolding drain_from
  drain_from-Silent p high [] n r live s t = ground arith
  drain_from-Silent p high (poll ∷ polls) n r live s t = elim (Bool-cases (ltb n high)) [
    | inl below ↦ rw below (
        drain_step-Silent p poll (drain_from env p high polls) (drain_from-Silent p high polls) n r
          live s t)
    | inr done ↦ rw done refl
  ]

  drain-Silent : (p start high : ℕ) → Silent (drain env p start high)
  unfolding drain
  drain-Silent p start high =
      bind-Silent (store_for env p) _ (store_for-Silent p)
        (λ _ s t. drain_from-Silent p high _ start 0 [] s t)

  close_store-Silent : (p : ℕ) → Silent (close_store env p)
  unfolding close_store
  close_store-Silent p s t = ground arith

  destroy-Silent : (p : ℕ) → Silent (destroy env p)
  unfolding destroy
  destroy-Silent p =
      bind-Silent (close_store env p) _ (close_store-Silent p) (λ _ s t. ground arith)

  from_low-Silent : (p low : ℕ) → Silent (from_low env p low)
  from_low-Silent p low = bind-Silent (destroy env p) _ (destroy-Silent p) (λ _ s t. refl)

  start_offset-Silent : (p low : ℕ) → Silent (start_offset env p low)
  unfolding start_offset
  start_offset-Silent p low s t = ground (arith, from_low-Silent p low s t)

  replay_from-Silent : (p start high : ℕ) → Silent (replay_from env p start high)
  unfolding replay_from
  replay_from-Silent p start high = bind-Silent (store_for env p) _ (store_for-Silent p) (λ _.
      bind-Silent (if ltb start high then drain env p start high else _) _
        (λ s t. ground (arith, drain-Silent p start high s t)) (λ counts s t. refl))

  restore_one-Silent : (p : ℕ) → Silent (restore_one env p)
  unfolding restore_one
  restore_one-Silent p =
      bind-Silent (await_metadata env p) _ (λ s t. ground arith)
        (λ _.
          bind-Silent (watermarks env p) _ (λ s t. ground arith)
            (λ marks.
              bind-Silent (start_offset env p marks.0) _ (start_offset-Silent p marks.0)
                (λ start. replay_from-Silent p start marks.1)))

  restore_all-Silent : (ps : List ℕ) → Silent (restore_all env ps)
  unfolding restore_all
  restore_all-Silent [] = λ s t. refl
  restore_all-Silent (p ∷ ps) =
      bind-Silent (restore_one env p) _ (restore_one-Silent p) (λ _. restore_all-Silent ps)

  pub restore-Silent : (ps : List ℕ) → Silent (restore env ps)
  unfolding restore
  restore-Silent ps = restore_all-Silent (sorted_set ps)

  release-Silent : (p : ℕ) → Silent (release env p)
  unfolding release
  release-Silent p s t = grind (arith, close_store-Silent)

  release_all-Silent : (ps : List ℕ) → Silent (release_all env ps)
  unfolding release_all
  release_all-Silent [] = λ s t. refl
  release_all-Silent (p ∷ ps) =
      bind-Silent (release env p) _ (release-Silent p) (λ _. release_all-Silent ps)

  producer_flush-Silent : (timeout : ℕ) → Silent (producer_flush env timeout)
  producer_flush-Silent timeout s t = grind (arith, outcomes_of-emit, append-nil)

  forget_sorted-Silent : (ps : List ℕ) → Silent (forget_sorted env ps)
  forget_sorted-Silent [] = λ s t. refl
  forget_sorted-Silent (p ∷ ps) =
      bind-Silent (producer_flush env 30000) (λ _. release_all env (p ∷ ps))
        (producer_flush-Silent 30000) (λ _. release_all-Silent (p ∷ ps))

  pub forget-Silent : (ps : List ℕ) → Silent (forget env ps)
  unfolding forget
  forget-Silent ps = forget_sorted-Silent (sorted_set ps)

  discard_one-Silent : (p : ℕ) → Silent (discard_one env p)
  unfolding discard_one
  discard_one-Silent p =
      bind-Silent (close_store env p) _ (close_store-Silent p) (λ _ s t. ground arith)

  discard_all-Silent : (ps : List ℕ) → Silent (discard_all env ps)
  unfolding discard_all
  discard_all-Silent [] = λ s t. refl
  discard_all-Silent (p ∷ ps) =
      bind-Silent (discard_one env p) _ (discard_one-Silent p) (λ _. discard_all-Silent ps)

  pub discard-Silent : (ps : List ℕ) → Silent (discard env ps)
  unfolding discard
  discard-Silent ps = discard_all-Silent (sorted_set ps)

  -- `close`, which is `forget` of what is open
  pub close-Silent : Silent (close env)
  unfolding close
  close-Silent s t = forget-Silent s.stores s t
