-- ===== src/Consumer/RetryWorker/Deferral.antt =====
-- `_defer` and `_resume_due` of the retry worker: how a message waits, and until when.
use kafka_playgroud.Prelude.{
  ℕ, ◌<◌, ◌≡◌, refl, sym, List, ◌⊎◌, inl, inr, Bool, false, Option, none, some, [], ◌∷◌, ◌++◌,
  String, arith, ok, ltb, Option-cases, Bool-cases, string_eq, nat_eq, pair_eq, if◌then◌else◌, ◌||◌,
  ◌&&◌, not,
}
use mathlib.Core.List.{append_assoc, append-nil}
use kafka_playgroud.Dict.{Dict, lookup}
use kafka_playgroud.Dict.Laws.{lookup-insert_self, lookup-erase}
use kafka_playgroud.Consumer.Broker.{
  Message, Event, Trace, paused, pause_failed, resumed, resume_failed, sought, seek_failed, emit,
}
use kafka_playgroud.Consumer.Broker.Collecting.{collect, collect-emit}
use kafka_playgroud.Consumer.Dlq.{Origin, decode_headers, from_headers, hdr_retry_at}
use kafka_playgroud.Consumer.RetryWorker.{
  RetryWorker, Waiting, defer, handle_read, handle_message, time_header, resume, resume_each,
  resume_due,
}

-- What a deferral leaves: the partition is paused, sought back and recorded with its due time; or a
-- call failed, and nothing is recorded.
abbrev pub IsDeferred : Message → ℕ → Waiting → Waiting → Type 0
IsDeferred m due w w' =
    ((lookup (m.topic, m.partition) w'.deferred ≡ some due)
      × (w'.trace
          ≡ w.trace ++ paused m.topic m.partition ∷ sought m.topic m.partition m.offset ∷ []))
    ⊎ ((w'.deferred ≡ w.deferred)
        × ((w'.trace ≡ w.trace ++ pause_failed m.topic m.partition ∷ [])
            ⊎ (w'.trace
                ≡ w.trace
                  ++ paused m.topic m.partition ∷ seek_failed m.topic m.partition m.offset ∷ [])))

-- whether one of the deferrals of a key is due
unfoldable pub is_due_in : ℕ → String × ℕ → Dict (String × ℕ) ℕ → Bool
is_due_in now key [] = false
is_due_in now key ((k, due) ∷ ds) = (pair_eq.beq k key && not (ltb now due)) || is_due_in now key ds

-- the keys whose deferral is due, in their order
unfoldable pub due_keys : ℕ → Dict (String × ℕ) ℕ → List (String × ℕ)
due_keys now [] = []
due_keys now ((k, due) ∷ ds) = let rest = due_keys now ds in if ltb now due then rest else k ∷ rest

-- the partitions that the client was asked to resume, whether or not it could
abbrev resume_by : Event → List (String × ℕ)
resume_by (resumed topic p) = (topic, p) ∷ []
resume_by (resume_failed topic p) = (topic, p) ∷ []
resume_by _ = []

abbrev pub resumes_of : Trace → List (String × ℕ)
resumes_of t = collect resume_by t

module _ (worker : RetryWorker) where
  defer_lem :
      (m : Message) (due : ℕ) (w : Waiting)
      → ((defer worker m due w).0 ≡ ok tt) × IsDeferred m due w (defer worker m due w).1
  unfolding defer
  defer_lem m due w = elim (Option-cases (worker.router.kafka.pause w.trace m.topic m.partition)) [
    | inr (x, refused) ↦ (ground arith, inr (ground arith, inl (ground arith)))
    | inl stopped ↦
        let t = emit (paused m.topic m.partition) w.trace in
        elim (Option-cases (worker.router.kafka.seek t m.topic m.partition m.offset)) [
          | inr (x, failed) ↦ (ground arith, inr (ground arith, inr (grind (arith, append_assoc))))
          | inl back ↦ (
            ground arith,
            inl (
              ground (arith, lookup-insert_self (m.topic, m.partition) due w.deferred),
              grind (arith, append_assoc),
            ),
          )
        ]
  ]

  handle_read_early :
      (m : Message) (o : Origin) (d : Option ℕ) (due : ℕ) (w : Waiting)
      → d ≡ some due
      → worker.router.kafka.now w.trace < due
      → handle_read worker m (decode_headers m) d o w ≡ defer worker m due w
  handle_read_early m o none due w e h = cc
  handle_read_early m o (some d) due w e h = ground arith

  -- A message that is not yet due is neither published nor committed: its partition is paused, then
  -- sought back to it, and recorded with the due time; where one of the two calls fails, nothing is
  -- recorded.
  pub handle_message-IsDeferred :
      (m : Message) (o : Origin) (due : ℕ) (w : Waiting)
      → from_headers worker.router.iso (decode_headers m) m ≡ ok o
      → time_header worker.router.iso (decode_headers m) hdr_retry_at ≡ some due
      → worker.router.kafka.now w.trace < due
      → ((handle_message worker m w).0 ≡ ok tt) × IsDeferred m due w (handle_message worker m w).1
  unfolding handle_message
  handle_message-IsDeferred m o due w read e h =
      rw
        (
          read,
          handle_read_early m o (time_header worker.router.iso (decode_headers m) hdr_retry_at) due
              w e h,
        )
        (defer_lem m due w)

  resume_called :
      (key : String × ℕ) (w : Waiting)
      → resumes_of (resume worker key w).1.trace ≡ resumes_of w.trace ++ key ∷ []
  unfolding resume
  resume_called key w = elim (Option-cases (worker.router.kafka.resume w.trace key.0 key.1)) [
    | inl done ↦ ground (arith, done, collect-emit resume_by (resumed key.0 key.1) w.trace)
    | inr (e, refused) ↦
        ground (arith, refused, collect-emit resume_by (resume_failed key.0 key.1) w.trace)
  ]

  resume_each_lem :
      (now : ℕ) (ds : Dict (String × ℕ) ℕ) (key : String × ℕ) (w : Waiting)
      → ((resume_each worker now ds w).0 ≡ ok tt)
        × (resumes_of (resume_each worker now ds w).1.trace ≡ resumes_of w.trace ++ due_keys now ds)
        × (lookup key (resume_each worker now ds w).1.deferred
            ≡ (if is_due_in now key ds then none else lookup key w.deferred))
  unfolding resume_each resume is_due_in due_keys
  resume_each_lem now [] key w = (refl, sym (append-nil (resumes_of w.trace)), refl)
  resume_each_lem now ((k, due) ∷ ds) key w = elim (Bool-cases (ltb now due)) [
    | inl later ↦
        let (done, calls, after) = resume_each_lem now ds key w in
        (ground (arith, later, done), ground (arith, later, calls), ground (arith, later, after))
    | inr time ↦
        let w' = (resume worker k w).1 in
        let (done, calls, after) = resume_each_lem now ds key w' in
        (
          ground (arith, time, done),
          ground (
            arith,
            time,
            calls,
            resume_called k w,
            append_assoc (resumes_of w.trace) (k ∷ []) (due_keys now ds),
          ),
          ground (arith, time, after, lookup-erase k key w.deferred),
        )
  ]

  -- `_resume_due` asks the client to resume each partition whose time has come, in the order of
  -- their deferrals, and no other; a partition that has waited for a time that has come waits no longer, and every other
  -- one waits as before.
  pub resume_due_lem :
      (key : String × ℕ) (w : Waiting)
      → ((resume_due worker w).0 ≡ ok tt)
        × (resumes_of (resume_due worker w).1.trace
            ≡ resumes_of w.trace ++ due_keys (worker.router.kafka.now w.trace) w.deferred)
        × (lookup key (resume_due worker w).1.deferred ≡ (
            if is_due_in (worker.router.kafka.now w.trace) key w.deferred
            then none
            else lookup key w.deferred))
  unfolding resume_due
  resume_due_lem key w = resume_each_lem (worker.router.kafka.now w.trace) w.deferred key w
