-- ===== src/Consumer/Projection/Folds.antt =====
-- The projection seen order by order: each order's fold is made of what concerns it, alone.
use kafka_playgroud.Prelude.{
  ℕ, ◌≡◌, refl, inl, inr, sym, ap, ◌∙◌, ◌&&◌, Option, none, some, List, [], ◌∷◌, ◌++◌, String,
  Result, ok, err, if◌then◌else◌, ◌==◌, string_eq, nat_eq, contains, arith, Bool-cases,
}
use kafka_playgroud.Prelude.Json.{Bytes}
use kafka_playgroud.Dict.{lookup}
use kafka_playgroud.Events.{LifecycleEvent}
use kafka_playgroud.Consumer.Broker.{Message, Exc}
use kafka_playgroud.Consumer.Dlq.{decode_headers, hdr_retry_target}
use kafka_playgroud.Consumer.Failures.{maybe_fail}
use kafka_playgroud.Consumer.Folding.{apply_event, key_of, attempt_of}
use kafka_playgroud.Consumer.State.{OrderFold}
use kafka_playgroud.Consumer.State.Memory as Memory
use kafka_playgroud.Consumer.State.Memory.{Memory}
use kafka_playgroud.Consumer.State.Memory.Laws.{load-save, load-delete, load-forget}
use kafka_playgroud.Consumer.Runtime.{
  Service, Worker, Polled, loop, nothing, error, message, assigned, revoked, lost, decode,
  is_other_service,
}
use kafka_playgroud.Consumer.Runtime.Running.{run}
use kafka_playgroud.Consumer.Projection.{
  on_memory, project_event, project_tried, project_decoded, project_value, project, project_all,
  AreTotal, given_up,
}
use kafka_playgroud.Consumer.Projection.Runs.{loop-IsProjected, finally_lem}

module _ {S C : Type 0} (base : Service S C) (p : ℕ) (id : String) where
  -- an event of the order advances its fold, unless the failure lever fails the attempt
  abbrev fold_tried :
      Message → LifecycleEvent → Result Exc (Unit {0}) → Option OrderFold → Option OrderFold
  fold_tried m e (ok _) fold =
      if nat_eq.beq m.partition p && string_eq.beq e.order_id id
      then some (apply_event fold e).0
      else fold
  fold_tried m e (err _) fold = fold

  abbrev fold_decoded : Message → Result Exc LifecycleEvent → Option OrderFold → Option OrderFold
  fold_decoded m (ok e) fold =
      fold_tried m e (maybe_fail base.settings e (attempt_of (decode_headers m))) fold
  fold_decoded m (err _) fold = fold

  abbrev fold_value : Message → Option Bytes → Option OrderFold → Option OrderFold
  fold_value m none fold =
      if nat_eq.beq m.partition p && string_eq.beq (key_of m) id then none else fold
  fold_value m (some value) fold =
      if m.topic == base.settings.order_snapshot_topic
      then fold
      else if is_other_service base.name (lookup hdr_retry_target (decode_headers m))
      then fold
      else fold_decoded m (decode (on_memory base) value) fold

  abbrev fold_one : Polled → Option OrderFold → Option OrderFold
  fold_one (message m) fold = fold_value m m.value fold
  fold_one (revoked ps) fold = if contains p ps then none else fold
  fold_one (lost ps) fold = if contains p ps then none else fold
  fold_one (assigned ps) fold = fold
  fold_one (error e) fold = fold
  fold_one nothing fold = fold

  -- the fold that the order has on the partition after what is polled
  unfoldable pub fold_of : List Polled → Option OrderFold → Option OrderFold
  fold_of [] fold = fold
  fold_of (x ∷ xs) fold = fold_of xs (fold_one x fold)

  abbrev at : Memory → Option OrderFold
  at s = Memory.load p id s

  event_fold :
      (q : ℕ) (e : LifecycleEvent) (s : Memory)
      → at (project_event base q e s) ≡ (
          if nat_eq.beq q p && string_eq.beq e.order_id id
          then some (apply_event (at s) e).0
          else at s)
  unfolding project_event
  event_fold q e s =
      let fold = (apply_event (Memory.load q e.order_id s) e).0 in
      load-save q p e.order_id id e.event_id fold s
      ∙ grind (arith, nat_eq.beq_iff q p, string_eq.beq_iff e.order_id id)

  tried_fold :
      (m : Message) (e : LifecycleEvent) (r : Result Exc (Unit {0})) (s : Memory)
      → at (project_tried base m.partition e r s) ≡ fold_tried m e r (at s)
  tried_fold m e (ok _) s = event_fold m.partition e s
  tried_fold m e (err _) s = refl

  decoded_fold :
      (m : Message) (r : Result Exc LifecycleEvent) (s : Memory)
      → at (project_decoded base m r s) ≡ fold_decoded m r (at s)
  decoded_fold m (ok e) s =
      tried_fold m e (maybe_fail base.settings e (attempt_of (decode_headers m))) s
  decoded_fold m (err _) s = refl

  value_fold :
      (m : Message) (o : Option Bytes) (s : Memory)
      → at (project_value base m o s) ≡ fold_value m o (at s)
  value_fold m none s = load-delete m.partition p (key_of m) id s
  value_fold m (some value) s = elim (Bool-cases (m.topic == base.settings.order_snapshot_topic)) [
    | inl mirror ↦ rw mirror refl
    | inr stream ↦
        let name = lookup hdr_retry_target (decode_headers m) in
        elim (Bool-cases (is_other_service base.name name)) [
          | inl other ↦ rw (stream, other) refl
          | inr own ↦ rw (stream, own) (decoded_fold m (decode (on_memory base) value) s)
        ]
  ]

  one_fold : (x : Polled) (s : Memory) → at (project base x s) ≡ fold_one x (at s)
  unfolding project
  one_fold (message m) s = value_fold m m.value s
  one_fold (revoked ps) s = load-forget ps p id s
  one_fold (lost ps) s = load-forget ps p id s
  one_fold (assigned ps) s = refl
  one_fold (error e) s = refl
  one_fold nothing s = refl

  pub all_fold : (xs : List Polled) (s : Memory) → at (project_all base xs s) ≡ fold_of xs (at s)
  unfolding project_all fold_of
  all_fold [] s = refl
  all_fold (x ∷ xs) s = all_fold xs (project base x s) ∙ ap (λ fold. fold_of xs fold) (one_fold x s)

module _ {S C : Type 0} (base : Service S C) (total : AreTotal base) where
  -- On the memory backend, with handlers that return for each event that was validated and with
  -- direct commits, for every behaviour of the broker and over whatever is polled, rebalances
  -- included: there is a first part of what was polled, which is all of it where the run returns,
  -- such that when the loop is left, the fold of each order on each partition is what `apply_event`
  -- makes of the order's own events in that part, from the fold before on or since its last tombstone
  -- there or the last time the partition was given up. Events on the snapshot topic, for another
  -- service, or whose attempt the failure lever fails are left out. After the run the folds of the
  -- partitions that closing the client revokes are gone, and all others are as the loop left them;
  -- where the process was ended, nothing is revoked.
  pub run_folds :
      (polled : List Polled) (w : Worker Memory Unit)
      → let (answer, left) = loop (on_memory base) polled w in
        (done : List Polled) × (rest : List Polled) × (polled ≡ done ++ rest)
        × ((p : ℕ) (id : String)
            → Memory.load p id left.store ≡ fold_of base p id done (Memory.load p id w.store))
        × ((p : ℕ) (id : String)
            → Memory.load p id (run (on_memory base) polled w).1.store ≡ (
                if contains p (given_up base answer left)
                then none
                else fold_of base p id done (Memory.load p id w.store)))
        × ((run (on_memory base) polled w).0 ≡ ok tt → rest ≡ [])
  unfolding run
  run_folds polled w =
      let (answer, left) = loop (on_memory base) polled w in
      let (done, rest, split, stored, ends) = loop-IsProjected base total polled w in
      let (closed_store, is) = finally_lem base total answer left in
      let folds = λ (p : ℕ) (id : String).
        ap (λ s. Memory.load p id s) stored ∙ all_fold base p id done w.store in
      (
        done,
        rest,
        split,
        folds,
        λ p id.
            ap (λ s. Memory.load p id s) closed_store
            ∙ load-forget (given_up base answer left) p id left.store
            ∙ ap (λ fold. if contains p (given_up base answer left) then none else fold)
                (folds p id),
        λ returned. ends (sym is ∙ returned),
      )
