-- ===== src/Consumer/Transactions.antt =====
-- src/order_service/consumer/transactions.py: how offsets reach the broker. The protocol
-- `CommitStrategy`, with one implementation per processing guarantee.
pub mod Offsets
pub mod Closing
pub mod Building
use kafka_playgroud.Prelude.{
  ℕ, ◌+◌, ◌-◌, suc, Bool, true, false, not, Option, none, some, List, [], ◌∷◌, ◌++◌, String, Result,
  ok, err, nat_eq, string_eq, pair_eq, leb, ◌||◌, if◌then◌else◌, contains,
}
use kafka_playgroud.Prelude.Action.{Action, ◌>>=◌, ◌>>◌, pure, raise, modify}
use kafka_playgroud.Dict.{Dict, insert}
use kafka_playgroud.Config.{Settings}
use kafka_playgroud.Consumer.Broker.{
  Message, Exc, producer_fenced_error, kafka_exception, KafkaError, ErrorCode, Event, committed,
  commit_rejected, initialised, began, offsets_sent, transaction_committed, aborted,
  transaction_call_failed, Trace, Kafka, emit,
}

abbrev pub CommitIo : Type 0 → Type 0 → Type 0
CommitIo C A = Action (C × Trace) Exc A

-- The protocol; `abort` answers the partitions that were written to.
pub record CommitStrategy (C : Type 0) : Type 0 where
  pub note : Message → CommitIo C Unit
  pub maybe_commit : CommitIo C Unit
  pub abort : CommitIo C (List ℕ)
  pub close : CommitIo C Unit

-- `DirectCommitter.note`
unfoldable pub note_direct : Kafka → Message → CommitIo Unit Unit
note_direct k m (c, t) = elim (k.commit t m) [
  | none ↦ (ok tt, (c, emit (committed m) t))
  | some _ ↦ (ok tt, (c, emit (commit_rejected m) t))
]

-- `DirectCommitter`
abbrev pub direct_committer : Kafka → CommitStrategy Unit
direct_committer k = record {
  note = note_direct k;
  maybe_commit = pure tt;
  abort = pure [];
  close = pure tt;
}

-- `is_fenced`
unfoldable pub is_fenced : KafkaError → Bool
is_fenced e = elim e.code [
  | ErrorCode.fenced ↦ true
  | ErrorCode.invalid_producer_epoch ↦ true
  | ErrorCode.producer_fenced ↦ true
  | _ ↦ false
]

-- `_raise_if_fenced`, then `raise`
unfoldable pub raised : KafkaError → Exc
raised e =
    if is_fenced e
    then record { class = producer_fenced_error; text = "" }
    else record { class = kafka_exception e; text = "" }

-- The fields of `TransactionalCommitter`. Times are in milliseconds.
pub record Transaction : Type 0 where
  pub opened : Bool
  pub messages : ℕ
  pub opened_at : ℕ
  pub touched : List ℕ
  pub offsets : Dict (String × ℕ) ℕ

-- what `_reset` leaves, and what a committer starts with
abbrev pub closed : Transaction
closed = record { opened = false; messages = 0; opened_at = 0; touched = []; offsets = [] }

-- `set.add`
abbrev pub add_partition : ℕ → List ℕ → List ℕ
add_partition p ps = if contains p ps then ps else ps ++ p ∷ []

module _ (k : Kafka) where
  -- a call of the producer's transactional interface: how it ended is in the trace
  abbrev pub call : (Trace → Option KafkaError) → Event → CommitIo Transaction Unit
  call answer event (c, t) = elim (answer t) [
    | none ↦ (ok tt, (c, emit event t))
    | some e ↦ (err (raised e), (c, emit (transaction_call_failed e) t))
  ]

  -- `TransactionalCommitter.__init__`
  unfoldable pub init : Trace → Result Exc Transaction × Trace
  init t = elim (k.init_transactions t) [
    | none ↦ (ok closed, emit initialised t)
    | some e ↦ (err (raised e), emit (transaction_call_failed e) t)
  ]

  abbrev pub open_now : CommitIo Transaction Unit
  open_now (c, t) = (ok tt, (record c { opened = true; messages = 0; opened_at = k.now t }, t))

  -- `_begin_if_needed`
  unfoldable pub begin_if_needed : CommitIo Transaction Unit
  begin_if_needed st =
      if st.0.opened then (ok tt, st) else (call k.begin_transaction began >> open_now) st

  -- `TransactionalCommitter.note`
  unfoldable pub note : Message → CommitIo Transaction Unit
  note m = do
    begin_if_needed
    λ st. (
      ok tt,
      (
        record st.0 {
          offsets = insert (m.topic, m.partition) (m.offset + 1) st.0.offsets;
          touched = add_partition m.partition st.0.touched;
          messages = st.0.messages + 1;
        },
        st.1,
      ),
    )

  -- `_reset`, in a `finally`: the answer of the block is kept
  abbrev pub finally_reset :
      {A : Type 0} → Action (Transaction × Trace) Exc A → Action (Transaction × Trace) Exc A
  finally_reset block st = let (answer, (_, t)) = block st in (answer, (closed, t))

  -- `commit`
  unfoldable pub commit : CommitIo Transaction Unit
  commit st =
      if st.0.opened
      then finally_reset
          (do
            call (λ t. k.send_offsets t st.0.offsets) (offsets_sent st.0.offsets)
            call k.commit_transaction transaction_committed)
          st
      else (ok tt, st)

  -- whether an interval has been reached; the clock of `elapsed_ms` is monotonic
  abbrev pub is_due : Settings → Transaction → ℕ → Bool
  is_due settings c now =
      leb settings.transaction_commit_interval_messages c.messages
      || leb settings.transaction_commit_interval_ms (now - c.opened_at)

  -- `maybe_commit`
  unfoldable pub maybe_commit : Settings → CommitIo Transaction Unit
  maybe_commit settings st =
      if st.0.opened
      then if is_due settings st.0 (k.now st.1) then commit st else (ok tt, st)
      else (ok tt, st)

  -- what `abort` makes of the answer of `abort_transaction`: only a fencing error is raised
  abbrev pub aborting : Option KafkaError → List ℕ → CommitIo Transaction (List ℕ)
  aborting none touched (c, t) = (ok touched, (c, emit aborted t))
  aborting (some e) touched (c, t) =
      if is_fenced e
      then (err (raised e), (c, emit (transaction_call_failed e) t))
      else (ok touched, (c, emit (transaction_call_failed e) t))

  -- `abort`
  unfoldable pub abort : CommitIo Transaction (List ℕ)
  abort st =
      if st.0.opened
      then finally_reset (aborting (k.abort_transaction st.1) st.0.touched) st
      else (ok [], st)

  -- `close`
  unfoldable pub close : CommitIo Transaction Unit
  close = do abort; pure tt

  -- `TransactionalCommitter`
  abbrev pub transactional_committer : Settings → CommitStrategy Transaction
  transactional_committer settings = record {
    note = note;
    maybe_commit = maybe_commit settings;
    abort = abort;
    close = close;
  }
