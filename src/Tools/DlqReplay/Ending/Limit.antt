-- ===== src/Tools/DlqReplay/Ending/Limit.antt =====
-- `--limit` of the replay tool, and the messages that it does not count.
use kafka_playgroud.Prelude.{
  ℕ, ◌+◌, ◌≡◌, ◌≢◌, ◌≤◌, ◌<◌, ap, ◌∙◌, ◌⊎◌, inl, inr, true, false, none, some, List, [], ◌∷◌, arith,
  Result, ok, nat_eq, string_eq, Bool-cases, Result-cases, is_empty, pos, suc, length,
}
use kafka_playgroud.Dict.{lookup}
use kafka_playgroud.Config.{Settings}
use kafka_playgroud.Consumer.Broker.{Message, Exc, Kafka, Trace}
use kafka_playgroud.Consumer.Dlq.{decode_headers, hdr_error_class, hdr_original_topic}
use kafka_playgroud.Consumer.RetryWorker.{Answer}
use kafka_playgroud.Tools.DlqReplay.{
  Args, Run, Snapshot, Cluster, Next, more, stop, handle_match, step, loop, replay, start,
  snapshot_topic, is_poison, is_reached,
}
use kafka_playgroud.Tools.DlqReplay.Copies.{replay_from, copies_of, finish_copies}
use kafka_playgroud.Tools.DlqReplay.Counts.{IsCounted, step-IsLimited}

goes_on : {r : Result Exc Next} {a b : ℕ} → (r ≢ ok more) ⊎ (a < b) → r ≡ ok more → a < b
goes_on (inl never) e = absurd (never e)
goes_on (inr small) e = small

module _ (kafka : Kafka) (args : Args) (k n : ℕ) (limited : args.limit ≡ pos (suc n)) where
  loop-IsLimited :
      (xs : List Answer) (w : Run)
      → IsCounted k w
      → w.published + w.excluded < suc n
      → IsCounted k (loop kafka args xs w).1
        × ((loop kafka args xs w).1.published + (loop kafka args xs w).1.excluded ≤ suc n)
  unfolding loop
  loop-IsLimited [] w c small = (c, omega arith)
  loop-IsLimited (x ∷ xs) w c small =
      let (c', small', next) = step-IsLimited kafka args k n limited x w c small in
      let w' = (step kafka args x w).1 in
      elim (Bool-cases (is_empty w.pending)) [
        | inl done ↦ rw done (c, omega arith)
        | inr open_left ↦ elim (Result-cases (step kafka args x w).0) [
          | inr (y, e) ↦ rw (open_left, e) (c', small')
          | inl (stop, e) ↦ rw (open_left, e) (c', small')
          | inl (more, e) ↦ rw (open_left, e) (loop-IsLimited xs w' c' (goes_on next e))
        ]
      ]

module _ (kafka : Kafka) (args : Args) (cluster : Cluster) (settings : Settings) (s : Snapshot)
    (snapshot : snapshot_topic cluster settings.dlq_topic ≡ some s) where
  -- With a positive `--limit`, a run puts no more than that many messages on a topic, however it
  -- goes and ends.
  pub replay_limited :
      (n : ℕ) (polled : List Answer) (t : Trace)
      → args.limit ≡ pos (suc n)
      → length (copies_of (replay kafka args cluster settings polled t).1)
        ≤ length (copies_of t) + suc n
  replay_limited n polled t limited =
      let w = start kafka args s t in
      let c : IsCounted (length (copies_of t)) w = record {
        copies = omega arith;
        decided = omega arith;
        counted = omega arith;
      } in
      let (c', small) =
        loop-IsLimited kafka args (length (copies_of t)) n limited polled w c (omega arith) in
      let result = loop kafka args polled w in
      let same =
        ap (λ r. length (copies_of r.1))
          (replay_from kafka args cluster settings s snapshot polled t)
        ∙ ap length (finish_copies kafka args result.0 result.1) in
      omega (arith, same, c'.copies)

module _ (kafka : Kafka) (args : Args) where
  -- While publishing, a match that has no `x-original-topic` is counted, and the loop goes on though the
  -- count has reached the limit.
  pub handle_match_unlimited :
      (m : Message) (w : Run)
      → args.publish ≡ true
      → is_poison (lookup hdr_error_class (decode_headers m)) ≡ false
      → lookup hdr_original_topic (decode_headers m) ≡ none
      → is_reached args.limit (w.matched + 1) ≡ true
      → handle_match kafka args m w ≡ (ok more, record w { matched = w.matched + 1 })
  unfolding handle_match
  handle_match_unlimited m w asked allowed missing over = ground arith
