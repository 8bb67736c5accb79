-- ===== src/Tools/DlqReplay/Published.antt =====
-- What the replay tool publishes.
use kafka_playgroud.Prelude.{
  ℕ, ◌≡◌, refl, ap, sym, ◌∙◌, ◌⊎◌, inl, inr, false, some, List, [], ◌∷◌, ◌++◌, arith, string_eq,
  nat_eq, Bool-cases, Result-cases, is_empty,
}
use mathlib.Core.List.{append-nil, append_assoc}
use kafka_playgroud.Dict.{Dict}
use kafka_playgroud.Config.{Settings}
use kafka_playgroud.Consumer.Broker.{Message, Outgoing, Kafka, Trace}
use kafka_playgroud.Consumer.RetryWorker.{Answer, message}
use kafka_playgroud.Tools.DlqReplay.{
  Args, Run, Snapshot, Cluster, more, stop, step, loop, replay, start, snapshot_topic,
}
use kafka_playgroud.Tools.DlqReplay.Copies.{copies_of, finish_copies, replay_from}
use kafka_playgroud.Tools.DlqReplay.Rounds.{IsReplayOf, IsWithin, answer_adds}

-- The copies are those of some of the polled messages, in their order and at most one of each.
abbrev pub Replays : Args → Dict ℕ ℕ → List Answer → List Outgoing → Type 0
Replays args ends [] outs = outs ≡ []
Replays args ends (x ∷ xs) outs =
    Replays args ends xs outs
    ⊎ ((m : Message) × (out : Outgoing) × (rest : List Outgoing) × (x ≡ message m)
        × (outs ≡ out ∷ rest)
        × IsReplayOf args ends m out
        × Replays args ends xs rest)

Replays-none : (args : Args) (ends : Dict ℕ ℕ) (xs : List Answer) → Replays args ends xs []
Replays-none args ends [] = refl
Replays-none args ends (x ∷ xs) = inl (Replays-none args ends xs)

module _ (kafka : Kafka) (args : Args) (ends : Dict ℕ ℕ) where
  -- a round of the loop is its last one, or the loop goes on from there
  loop_cases :
      (x : Answer) (xs : List Answer) (w : Run)
      → ((loop kafka args (x ∷ xs) w).1 ≡ w)
        ⊎ ((loop kafka args (x ∷ xs) w).1 ≡ (step kafka args x w).1)
        ⊎ (loop kafka args (x ∷ xs) w ≡ loop kafka args xs (step kafka args x w).1)
  unfolding loop
  loop_cases x xs w = elim (Bool-cases (is_empty w.pending)) [
    | inl done ↦ inl (rw done refl)
    | inr open_left ↦ elim (Result-cases (step kafka args x w).0) [
      | inr (y, e) ↦ inr (inl (ground (arith, open_left, e)))
      | inl (more, e) ↦ inr (inr (ground (arith, open_left, e)))
      | inl (stop, e) ↦ inr (inl (ground (arith, open_left, e)))
    ]
  ]

  -- the copies of a round and of the rounds after it
  next-Replays :
      (x : Answer) (xs : List Answer) (w w' w'' : Run)
      → (copies_of w'.trace ≡ copies_of w.trace)
        ⊎ ((m : Message) × (out : Outgoing) × (x ≡ message m)
            × IsReplayOf args ends m out
            × (copies_of w'.trace ≡ copies_of w.trace ++ out ∷ []))
      → (outs : List Outgoing) × Replays args ends xs outs
        × (copies_of w''.trace ≡ copies_of w'.trace ++ outs)
      → (outs : List Outgoing) × Replays args ends (x ∷ xs) outs
        × (copies_of w''.trace ≡ copies_of w.trace ++ outs)
  next-Replays x xs w w' w'' (inl same) (outs, rest, e) = (outs, inl rest, rw (← same) e)
  next-Replays x xs w w' w'' (inr (m, out, is, replay, put)) (outs, rest, e) = (
    out ∷ outs,
    inr (m, out, outs, is, refl, replay, rest),
    e ∙ ap (λ c. c ++ outs) put ∙ append_assoc (copies_of w.trace) (out ∷ []) outs,
  )

  loop-Replays :
      (xs : List Answer) (w : Run)
      → IsWithin ends w.pending
      → (outs : List Outgoing) × Replays args ends xs outs
        × (copies_of (loop kafka args xs w).1.trace ≡ copies_of w.trace ++ outs)
  unfolding loop
  loop-Replays [] w h = ([], refl, sym (append-nil (copies_of w.trace)))
  loop-Replays (x ∷ xs) w h =
      let w' = (step kafka args x w).1 in
      let (adds, within) = answer_adds kafka args ends x w h in
      elim (loop_cases x xs w) [
        | inl e ↦ (
          [],
          Replays-none args ends (x ∷ xs),
          ap (λ v. copies_of v.trace) e ∙ sym (append-nil (copies_of w.trace)),
        )
        | inr (inl e) ↦ next-Replays x xs w w' (loop kafka args (x ∷ xs) w).1 adds (
          [],
          Replays-none args ends xs,
          ap (λ v. copies_of v.trace) e ∙ sym (append-nil (copies_of w'.trace)),
        )
        | inr (inr e) ↦ next-Replays x xs w w' (loop kafka args (x ∷ xs) w).1 adds (
            let (outs, rest, c) = loop-Replays xs w' within in
            (outs, rest, ap (λ r. copies_of r.1.trace) e ∙ c))
      ]

module _ (kafka : Kafka) (args : Args) (cluster : Cluster) (settings : Settings) (s : Snapshot)
    (snapshot : snapshot_topic cluster settings.dlq_topic ≡ some s) where
  -- However the run goes and ends, what it puts on a topic are copies without headers of some of
  -- the polled messages, in their order and at most one of each: each stands before the end that the
  -- snapshot has for its partition, names its topic in `x-original-topic`, is of the service asked
  -- for, and is not declared non-retryable unless such messages are asked for too; and there is one
  -- only if publishing was asked for.
  pub replay-Replays :
      (polled : List Answer) (t : Trace)
      → (outs : List Outgoing) × Replays args s.end_offsets polled outs
        × (copies_of (replay kafka args cluster settings polled t).1 ≡ copies_of t ++ outs)
  replay-Replays polled t =
      let (outs, replays, e) =
        loop-Replays kafka args s.end_offsets polled (start kafka args s t) (λ p end h. h) in
      let (ended, w) = loop kafka args polled (start kafka args s t) in
      (
        outs,
        replays,
        ap (λ r. copies_of r.1) (replay_from kafka args cluster settings s snapshot polled t)
            ∙ finish_copies kafka args ended w
            ∙ e,
      )

  Replays-dry :
      (xs : List Answer) (outs : List Outgoing)
      → args.publish ≡ false
      → Replays args s.end_offsets xs outs
      → outs ≡ []
  Replays-dry [] outs dry h = h
  Replays-dry (x ∷ xs) outs dry (inl h) = Replays-dry xs outs dry h
  Replays-dry (x ∷ xs) outs dry (inr (m, out, rest, is, e, replay, h)) =
      let asked = replay.asked in cc

  -- Without `--publish` a run puts nothing on a topic.
  pub replay_dry :
      (polled : List Answer) (t : Trace)
      → args.publish ≡ false
      → copies_of (replay kafka args cluster settings polled t).1 ≡ copies_of t
  replay_dry polled t dry =
      let (outs, replays, e) = replay-Replays polled t in
      e
      ∙ ap (λ o. copies_of t ++ o) (Replays-dry polled outs dry replays)
      ∙ append-nil (copies_of t)
