-- ===== src/Consumer/Transactions/Offsets.antt =====
-- The offsets that a transaction submits: for each partition, one past the last noted message.
use kafka_playgroud.Prelude.{
  ℕ, ◌+◌, ◌≡◌, refl, true, Option, none, some, List, [], ◌∷◌, ◌++◌, String, arith, ok,
  if◌then◌else◌, nat_eq, string_eq, pair_eq,
}
use kafka_playgroud.Prelude.Action.{bind-ok, ◌>>◌, pure}
use kafka_playgroud.Dict.{Dict, lookup}
use kafka_playgroud.Dict.Laws.{lookup-insert}
use kafka_playgroud.Consumer.Broker.{
  Trace, Kafka, Message, offsets_sent, transaction_committed, began,
}
use mathlib.Core.List.{append_assoc}
use kafka_playgroud.Consumer.Transactions.Closing.{commit_ok}
use kafka_playgroud.Consumer.Transactions.{
  Transaction, CommitIo, closed, commit, note, begin_if_needed,
}

-- Where consumption of a partition resumes after the messages: one past the offset of the last of
-- them that came from it, and else where it was to resume before.
unfoldable pub resume_at : String × ℕ → Option ℕ → List Message → Option ℕ
resume_at key before [] = before
resume_at key before (m ∷ ms) =
    resume_at key (if pair_eq.beq (m.topic, m.partition) key then some (m.offset + 1) else before)
      ms

module _ (k : Kafka) where
  -- the calls of `note` for the messages of a transaction
  unfoldable pub note_all : List Message → CommitIo Transaction Unit
  note_all [] = pure tt
  note_all (m ∷ ms) = do note k m; note_all ms

  note_one :
      (m : Message) (c : Transaction) (t : Trace) (key : String × ℕ)
      → (note k m (c, t)).0 ≡ ok tt
      → ((note k m (c, t)).1.0.opened ≡ true)
        × ((note k m (c, t)).1.0.messages ≡ (if c.opened then c.messages + 1 else 1))
        × (lookup key (note k m (c, t)).1.0.offsets ≡ (
            if pair_eq.beq (m.topic, m.partition) key
            then some (m.offset + 1)
            else lookup key c.offsets))
  unfolding note begin_if_needed
  note_one m c t key h = (
    ground arith,
    ground arith,
    ground (arith, lookup-insert (m.topic, m.partition) key (m.offset + 1) c.offsets),
  )

  -- Noting messages one after the other leaves, for every partition, the offset one past the last
  -- of its messages, and the offsets of the other partitions as they were.
  pub note_all-offsets :
      (ms : List Message) (c : Transaction) (t : Trace) (key : String × ℕ)
      → (note_all ms (c, t)).0 ≡ ok tt
      → lookup key (note_all ms (c, t)).1.0.offsets ≡ resume_at key (lookup key c.offsets) ms
  unfolding note_all resume_at
  note_all-offsets [] c t key h = refl
  note_all-offsets (m ∷ ms) c t key h =
      let (_, first, rest) = bind-ok (note k m) _ (c, t) h in
      let (_, _, one) = note_one m c t key first in
      let st = (note k m (c, t)).1 in
      let again = note_all-offsets ms st.0 st.1 key (cc (rest, h)) in cc (rest, again, one)

  note_open :
      (m : Message) (c : Transaction) (t : Trace)
      → (note k m (c, t)).0 ≡ ok tt
      → (note k m (c, t)).1.1 ≡ (if c.opened then t else t ++ began ∷ [])
  unfolding note begin_if_needed
  note_open m c t h = ground arith

  note_all_open :
      (ms : List Message) (c : Transaction) (t : Trace)
      → c.opened ≡ true
      → (note_all ms (c, t)).0 ≡ ok tt
      → ((note_all ms (c, t)).1.0.opened ≡ true) × ((note_all ms (c, t)).1.1 ≡ t)
  unfolding note_all
  note_all_open [] c t o h = (o, refl)
  note_all_open (m ∷ ms) c t o h =
      let (_, first, rest) = bind-ok (note k m) _ (c, t) h in
      let st = (note k m (c, t)).1 in
      let (o', _, _) = note_one m c t (m.topic, m.partition) first in
      let (o'', t'') = note_all_open ms st.0 st.1 o' (cc (rest, h)) in
      (cc (rest, o''), ground (arith, rest, t'', note_open m c t first))

  -- The transaction of a handled sequence of messages, from a closed committer: the broker sees one
  -- begin, then one submission of offsets, then the commit, and nothing else; what is submitted for a
  -- partition is one past the offset of the last message noted from it, and a partition from which
  -- none was noted is not in it.
  pub commit-note_all :
      (m : Message) (ms : List Message) (t : Trace)
      → (note_all (m ∷ ms) (closed, t)).0 ≡ ok tt
      → (commit k (note_all (m ∷ ms) (closed, t)).1).0 ≡ ok tt
      → (d : Dict (String × ℕ) ℕ) × ((commit k (note_all (m ∷ ms) (closed, t)).1).1
          ≡ (closed, t ++ began ∷ offsets_sent d ∷ transaction_committed ∷ []))
        × ((key : String × ℕ) → lookup key d ≡ resume_at key none (m ∷ ms))
  unfolding note_all lookup
  commit-note_all m ms t h g =
      let (_, first, rest) = bind-ok (note k m) _ (closed, t) h in
      let st = (note k m (closed, t)).1 in
      let (o', _, _) = note_one m closed t (m.topic, m.partition) first in
      let (o'', t'') = note_all_open ms st.0 st.1 o' (cc (rest, h)) in
      let end = (note_all (m ∷ ms) (closed, t)).1 in
      let opened : end.0.opened ≡ true = cc (rest, o'') in
      let trace : end.1 ≡ t ++ began ∷ [] = ground (arith, rest, t'', note_open m closed t first) in
      (
        end.0.offsets,
        grind (arith, commit_ok k end.0 end.1 opened g, trace, append_assoc),
        λ key. note_all-offsets (m ∷ ms) closed t key h,
      )
