-- ===== src/Tools/DlqReplay/Ending.antt =====
-- When the replay tool stops.
pub mod Limit
use kafka_playgroud.Prelude.{
  ℕ, ◌+◌, ◌≡◌, ◌≢◌, ◌≤◌, refl, ap, sym, ◌∙◌, ◌⊎◌, inl, inr, Bool, true, false, Option, none, some,
  List, [], ◌∷◌, ◌++◌, arith, Result, ok, err, nat_eq, leb, Bool-cases, Option-cases, Result-cases,
  is_empty, if◌then◌else◌, beq_refl,
}
use kafka_playgroud.Dict.{Dict, lookup, erase}
use kafka_playgroud.Dict.Laws.{lookup-erase}
use kafka_playgroud.Config.{Settings}
use kafka_playgroud.Consumer.Broker.{Message, Exc, Kafka, Trace}
use kafka_playgroud.Consumer.RetryWorker.{Answer, message}
use kafka_playgroud.Tools.DlqReplay.{
  Args, Run, Snapshot, Cluster, Next, more, stop, step, loop, finish, replay, start, snapshot_topic,
  left_pending,
}
use kafka_playgroud.Tools.DlqReplay.Copies.{replay_from}
use kafka_playgroud.Tools.DlqReplay.Rounds.{answer_adds, step_pending}

-- the message is among what is polled
abbrev pub IsPolled : Message → List Answer → Type 0
IsPolled m [] = ⊥
IsPolled m (x ∷ xs) = (x ≡ message m) ⊎ IsPolled m xs

-- Each partition's last message before its end is among what is polled.
abbrev pub Delivers : Dict ℕ ℕ → List Answer → Type 0
Delivers ends xs =
    (p end : ℕ)
    → lookup p ends ≡ some end
    → (m : Message) × IsPolled m xs × (m.partition ≡ p) × (end ≤ m.offset + 1)

not_both : {o o' : Option ℕ} {n : ℕ} → o ≡ o' → o ≡ some n → o' ≡ none → ⊥
not_both e f g = cc

left_over : (ends : Dict ℕ ℕ) → Delivers ends [] → is_empty ends ≡ true
unfolding lookup
left_over [] h = refl
left_over ((p, end) ∷ ends) h = absurd ((h p end (ground (arith, beq_refl p))).1)

finish_ended :
    (kafka : Kafka) (args : Args) (r : Result Exc Bool) (w : Run)
    → r ≢ ok false
    → (finish kafka args r w).0 ≢ ok none
unfolding finish
finish_ended kafka args (ok false) w h e = h refl
finish_ended kafka args (ok true) w h e = cc
finish_ended kafka args (err x) w h e = cc

module _ (kafka : Kafka) (args : Args) where
  -- a loop that has ended reads nothing more
  loop_final :
      (xs ys : List Answer) (w : Run)
      → (loop kafka args xs w).0 ≢ ok false
      → loop kafka args (xs ++ ys) w ≡ loop kafka args xs w
  unfolding loop
  loop_final [] [] w h = refl
  loop_final [] (y ∷ ys) w h = ground arith
  loop_final (x ∷ xs) ys w h = elim (Bool-cases (is_empty w.pending)) [
    | inl done ↦ rw done refl
    | inr open_left ↦ elim (Result-cases (step kafka args x w).0) [
      | inr (y, e) ↦ ground (arith, open_left, e)
      | inl (stop, e) ↦ ground (arith, open_left, e)
      | inl (more, e) ↦ ground (arith, open_left, e, loop_final xs ys (step kafka args x w).1)
    ]
  ]

  -- the last message of a partition ends its turn
  last_read :
      (m : Message) (p end : ℕ) (w : Run)
      → lookup p w.pending ≡ some end
      → m.partition ≡ p
      → end ≤ m.offset + 1
      → lookup p (step kafka args (message m) w).1.pending ≡ none
  last_read m p end w e same last =
      let found = ap (λ q. lookup q w.pending) same ∙ e in
      let left = step_pending kafka args w.pending m end w found found in
      let erased = lookup-erase m.partition p w.pending in
      ap (lookup p) left ∙ ground (arith, erased, nat_eq.beq_iff m.partition p)

  Delivers-step :
      (x : Answer) (xs : List Answer) (w : Run)
      → Delivers w.pending (x ∷ xs)
      → Delivers (step kafka args x w).1.pending xs
  Delivers-step x xs w h p end e =
      let (_, within) = answer_adds kafka args w.pending x w (λ q k i. i) in
      let before = within p end e in
      let (m, polled, same, last) = h p end before in
      elim polled [
        | inr later ↦ (m, later, same, last)
        | inl is ↦ absurd (
            not_both (ap (λ a. lookup p (step kafka args a w).1.pending) is) e
              (last_read m p end w before same last))
      ]

  loop_ends :
      (xs : List Answer) (w : Run) → Delivers w.pending xs → (loop kafka args xs w).0 ≢ ok false
  unfolding loop
  loop_ends [] w h e = let none_left = left_over w.pending h in cc
  loop_ends (x ∷ xs) w h i = elim (Bool-cases (is_empty w.pending)) [
    | inl done ↦ ground (arith, done)
    | inr open_left ↦ elim (Result-cases (step kafka args x w).0) [
      | inr (y, e) ↦ ground (arith, open_left, e)
      | inl (stop, e) ↦ ground (arith, open_left, e)
      | inl (more, e) ↦
          loop_ends xs (step kafka args x w).1 (Delivers-step x xs w h)
            (ground (arith, open_left, e))
    ]
  ]

module _ (kafka : Kafka) (args : Args) (cluster : Cluster) (settings : Settings) (s : Snapshot)
    (snapshot : snapshot_topic cluster settings.dlq_topic ≡ some s) where
  -- Once the last message before its end was polled of every partition of the snapshot, the run has
  -- ended, whatever else was polled in between; and nothing that is polled after that changes it, so
  -- that what a run puts back is not read by the same run.
  pub replay_ends :
      (polled later : List Answer) (t : Trace)
      → Delivers s.end_offsets polled
      → ((replay kafka args cluster settings polled t).0 ≢ ok none)
        × (replay kafka args cluster settings (polled ++ later) t
            ≡ replay kafka args cluster settings polled t)
  replay_ends polled later t h =
      let w = start kafka args s t in
      let ended = loop_ends kafka args polled w h in
      let from = replay_from kafka args cluster settings s snapshot in
      (
        λ e.
            finish_ended kafka args (loop kafka args polled w).0 (loop kafka args polled w).1 ended
              (sym (ap (λ r. r.0) (from polled t)) ∙ e),
        from (polled ++ later) t
            ∙ ap (λ r. finish kafka args r.0 r.1) (loop_final kafka args polled later w ended)
            ∙ sym (from polled t),
      )
