-- ===== src/Consumer/Runtime/Stores.antt =====
-- `LocalStateStore` as the store behind the runtime, and `MemoryStateStore`.
pub mod Calls
use kafka_playgroud.Prelude.{
  ℕ, ◌≡◌, refl, inl, inr, Option, none, String, arith, Result-cases, Option-cases, string_eq,
  nat_eq,
}
use mathlib.Core.List.{append-nil}
use kafka_playgroud.Prelude.Json.{Bytes}
use kafka_playgroud.Consumer.Broker.{Trace}
use kafka_playgroud.Consumer.State.{OrderFold}
use kafka_playgroud.Consumer.State.Local.{
  Local, LocalEnv, store_for, read, write, publish, settle, settle_again, load, save, delete, flush,
  local_store, next_record,
}
use kafka_playgroud.Consumer.State.Memory.{memory_store}
use kafka_playgroud.Consumer.State.Record.{encode}
use kafka_playgroud.Consumer.Runtime.Stores.Calls.{restore-Silent, forget-Silent, discard-Silent}
use kafka_playgroud.Consumer.Runtime.Committing.{outcomes_of, outcomes_of-emit, IsQuiet}

module _ {D : Type 0} (env : LocalEnv D) where
  opening : (p : ℕ) (s : Local D) (t : Trace) → (store_for env p (s, t)).1.1 ≡ t
  unfolding store_for
  opening p s t = ground arith

  reading : (p : ℕ) (id : String) (s : Local D) (t : Trace) → (read env p id (s, t)).1.1 ≡ t
  unfolding read
  reading p id s t = ground (arith, opening p s t)

  publishing :
      (p : ℕ) (id : String) (v : Option Bytes) (s : Local D) (t : Trace)
      → outcomes_of (publish env p id v (s, t)).1.1 ≡ outcomes_of t
  unfolding publish settle settle_again
  publishing p id v s t = grind (arith, outcomes_of-emit, append-nil)

  writing :
      (p : ℕ) (id : String) (v : Bytes) (s : Local D) (t : Trace)
      → outcomes_of (write env p id v (s, t)).1.1 ≡ outcomes_of t
  unfolding write
  writing p id v s t = grind (arith, publishing, opening p s t)

  saving :
      (p : ℕ) (id : String) (fold : OrderFold) (event_id : String) (s : Local D) (t : Trace)
      → outcomes_of (save env p id fold event_id (s, t)).1.1 ≡ outcomes_of t
  unfolding save
  saving p id fold event_id s t =
      let st = (read env p id (s, t)).1 in
      elim (Result-cases (read env p id (s, t)).0) [
        | inl (previous, got) ↦ ground (
          arith,
          got,
          reading p id s t,
          writing p id (encode env.codec (next_record env previous fold event_id)) st.0 st.1,
        )
        | inr (x, failed) ↦ ground (arith, failed, reading p id s t)
      ]

  deleting :
      (p : ℕ) (id : String) (s : Local D) (t : Trace)
      → outcomes_of (delete env p id (s, t)).1.1 ≡ outcomes_of t
  unfolding delete
  deleting p id s t =
      let st = (store_for env p (s, t)).1 in
      let plain = publishing p id none st.0 st.1 in
      elim (Option-cases (env.engine.del st.0.disk p id)) [
        | inl failed ↦ ground (arith, failed, plain, opening p s t)
        | inr (d, e) ↦
            ground
              (arith, e, plain, opening p s t, publishing p id none (record st.0 { disk = d }) st.1)
      ]

  flushing : (s : Local D) (t : Trace) → outcomes_of (flush env (s, t)).1.1 ≡ outcomes_of t
  unfolding flush
  flushing s t = grind (arith, outcomes_of-emit, append-nil)

  loading :
      (p : ℕ) (id : String) (s : Local D) (t : Trace)
      → outcomes_of (load env p id (s, t)).1.1 ≡ outcomes_of t
  unfolding load
  loading p id s t = grind (arith, reading p id s t)

  -- Whatever the engine and the broker do, the local backend commits no offset and seeks no
  -- partition of the consumer: it may stand behind the runtime.
  pub local_store-IsQuiet : IsQuiet (local_store env)
  local_store-IsQuiet = record {
    load_quiet = loading;
    save_quiet = saving;
    delete_quiet = deleting;
    restore_quiet = restore-Silent env;
    flush_quiet = flushing;
    forget_quiet = forget-Silent env;
    discard_quiet = discard-Silent env;
  }

-- So may the backend in memory.
pub memory_store-IsQuiet : IsQuiet memory_store
memory_store-IsQuiet = record {
  load_quiet = λ p id s t. refl;
  save_quiet = λ p id fold event_id s t. refl;
  delete_quiet = λ p id s t. refl;
  restore_quiet = λ ps s t. refl;
  flush_quiet = λ s t. refl;
  forget_quiet = λ ps s t. refl;
  discard_quiet = λ ps s t. refl;
}
