-- ===== src/Consumer/State/Local.antt =====
-- `LocalStateStore`: one embedded store per owned partition, made durable by a compacted changelog.
-- The engine (rocksdict) with the files beside it, and the reader that a rebuild polls, are
-- parameters. Constructing the store, which makes its directory, is left out.
pub mod Contents
pub mod Writes
pub mod Restore
pub mod Rebuild
pub mod Save
pub mod Mirror
pub mod Handover
use kafka_playgroud.Prelude.{
  ℕ, ◌+◌, ◌-◌, Bool, true, false, not, Option, none, some, List, [], ◌∷◌, ◌++◌, String, Result, ok,
  err, nat_eq, string_eq, ltb, ◌||◌, if◌then◌else◌, contains, max, sorted_set, ℤ, pos, negsuc, ◌==◌,
}
use kafka_playgroud.Prelude.Action.{Action, ◌>>=◌, ◌>>◌, pure, raise, gets, lift}
use kafka_playgroud.Prelude.Json.{Bytes, utf8, raw, decode_utf8, JsonCodec, str}
use kafka_playgroud.Prelude.Words.{str_of, int_of}
use Prim.Native.String.{◌++◌ as ◌++ˢ◌}
use kafka_playgroud.Dict.{Dict, lookup, insert, erase}
use kafka_playgroud.Config.{Settings, StateRebuild, changelog_topic_for}
use kafka_playgroud.Consumer.Broker.{
  Outgoing, Exc, value_error, Event, enqueued, not_enqueued, flushed, polled, Trace, Enqueue,
  accepted, buffer_error, refused, ErrorCode, Kafka, emit,
}
use kafka_playgroud.Consumer.State.Protocol.{
  OrderFold, SaveOutcome, StateStore, StoreIo, unavailable,
}
use kafka_playgroud.Consumer.State.Record.{Record, encode, decode}

-- rocksdict and the file system, over an abstract disk. `none` and `err` are exceptions.
pub record Engine (D : Type 0) : Type 0 where
  pub open_store : D → ℕ → Option D
  pub close_store : D → ℕ → D
  pub get : D → ℕ → String → Option (Option Bytes)
  pub put : D → ℕ → String → Bytes → Option D
  pub del : D → ℕ → String → Option D
  pub path_exists : D → ℕ → Bool
  pub destroy : D → ℕ → Option D  -- `Rdict.destroy`
  pub remove_tree : D → ℕ → Option D  -- `shutil.rmtree`, then `unlink` of the checkpoint
  pub read_checkpoint : D → ℕ → Option String
  pub write_checkpoint : D → ℕ → String → Option D

-- One answer of the changelog reader's `poll`.
pub data Poll : Type 0 where
  nothing : Poll
  poll_error : ErrorCode → Poll
  record_at : ℕ → Option Bytes → Option Bytes → Poll  -- offset, key, value

-- The assign-only consumer of a rebuild. `polls` is what successive polls answer once it is assigned
-- at an offset; after these it answers nothing.
pub record Reader : Type 0 where
  pub has_partition : Trace → String → ℕ → Bool  -- what `_await_metadata` checks
  pub watermarks : Trace → String → ℕ → Option (ℕ × ℕ)
  pub polls : Trace → String → ℕ → ℕ → List Poll

pub record Local (D : Type 0) : Type 0 where
  pub stores : List ℕ  -- the partitions whose store is open
  pub position : Dict ℕ ℕ
  pub disk : D

-- What the store is built with. `reports` are the delivery reports on the changelog that have been
-- served: partition and offset.
pub record LocalEnv (D : Type 0) : Type 0 where
  pub engine : Engine D
  pub reader : Reader
  pub kafka : Kafka
  pub codec : JsonCodec
  pub settings : Settings
  pub group_id : String
  pub reports : Trace → List (ℕ × ℕ)

-- list without a partition
unfoldable pub without : ℕ → List ℕ → List ℕ
without p [] = []
without p (q ∷ qs) = let rest = without p qs in if nat_eq.beq q p then rest else q ∷ rest

abbrev pub or_0 : Option ℕ → ℕ
or_0 none = 0
or_0 (some n) = n

-- what `on_delivery` does to `_position`, for each report
unfoldable pub advance : List (ℕ × ℕ) → Dict ℕ ℕ → Dict ℕ ℕ
advance [] d = d
advance ((p, offset) ∷ rs) d = advance rs (insert p (max (or_0 (lookup p d)) (offset + 1)) d)

-- the text `int` reads, where a negative number is below every offset
abbrev pub offset_of : Option ℤ → Option ℕ
offset_of none = none
offset_of (some (pos n)) = some n
offset_of (some (negsuc n)) = some 0

unfoldable pub drop_key : String → List String → List String
drop_key k [] = []
drop_key k (j ∷ js) = let rest = drop_key k js in if string_eq.beq j k then rest else j ∷ rest

-- what a changelog record does to the set of live keys
unfoldable pub note_live : String → Option Bytes → List String → List String
unfolding drop_key
note_live k none live = drop_key k live
note_live k (some _) live = if contains k live then live else k ∷ live

module _ {D : Type 0} (env : LocalEnv D) where
  abbrev pub Method : Type 0 → Type 0
  Method A = StoreIo (Local D) A

  -- `self._topic`
  abbrev pub topic : String
  topic = changelog_topic_for env.settings env.group_id

  -- an engine call that changes the disk
  abbrev pub on_disk : Option D → Method Unit
  on_disk none st = (err unavailable, st)
  on_disk (some d) st = (ok tt, (record st.0 { disk = d }, st.1))

  -- `_store_for`
  unfoldable pub store_for : ℕ → Method Unit
  store_for p st =
      if contains p st.0.stores then (ok tt, st) else (elim (env.engine.open_store st.0.disk p) [
        | none ↦ (err unavailable, st)
        | some d ↦ (ok tt, (record st.0 { stores = st.0.stores ++ p ∷ []; disk = d }, st.1))
      ])

  abbrev pub decoded : String → Option (Option Bytes) → Result Exc (Option Record)
  decoded order_id none = err unavailable
  decoded order_id (some none) = ok none
  decoded order_id (some (some b)) = elim (decode env.codec order_id b) [
    | err x ↦ err x
    | ok r ↦ ok (some r)
  ]

  -- `_read`
  unfoldable pub read : ℕ → String → Method (Option Record)
  read p order_id = do
    store_for p
    λ st. (decoded order_id (env.engine.get st.0.disk p order_id), st)

  -- `self._producer.flush`, with the delivery callbacks that it serves
  abbrev pub producer_flush : ℕ → Method ℕ
  producer_flush timeout (s, t) =
      let remaining = env.kafka.flush t timeout in
      let t' = emit (flushed remaining) t in
      (ok remaining, (record s { position = advance (env.reports t') s.position }, t'))

  -- `self._producer.poll(0)`
  abbrev pub producer_poll : Method Unit
  producer_poll (s, t) =
      let t' = emit polled t in
      (ok tt, (record s { position = advance (env.reports t') s.position }, t'))

  -- `self._producer.produce` on the changelog
  abbrev pub enqueue : Outgoing → Method Enqueue
  enqueue out (s, t) = elim (env.kafka.produce t out) [
    | accepted ↦ (ok accepted, (s, emit (enqueued out) t))
    | buffer_error ↦ (ok buffer_error, (s, emit (not_enqueued out) t))
    | refused e ↦ (ok (refused e), (s, emit (not_enqueued out) t))
  ]

  -- the second `produce`, after the queue was drained
  unfoldable pub settle_again : Enqueue → Method Unit
  settle_again accepted = producer_poll
  settle_again buffer_error = raise unavailable
  settle_again (refused _) = raise unavailable

  unfoldable pub settle : Outgoing → Enqueue → Method Unit
  unfolding settle_again
  settle out accepted = producer_poll
  settle out buffer_error = do producer_flush 30000; again ← enqueue out; settle_again again
  settle out (refused _) = raise unavailable

  abbrev pub changelog_record : String → Option Bytes → Outgoing
  changelog_record order_id value = record {
    topic = topic;
    key = some (utf8 order_id);
    value = value;
    headers = [];
  }

  -- `_publish`
  unfoldable pub publish : ℕ → String → Option Bytes → Method Unit
  unfolding settle
  publish p order_id value = do
    answer ← enqueue (changelog_record order_id value)
    settle (changelog_record order_id value) answer

  -- `_write`
  unfoldable pub write : ℕ → String → Bytes → Method Unit
  write p order_id value = do
    store_for p
    λ st. on_disk (env.engine.put st.0.disk p order_id value) st
    publish p order_id (some value)

  -- `load`
  unfoldable pub load : ℕ → String → Method (Option OrderFold)
  load p order_id = do
    found ← read p order_id
    pure (elim found [ none ↦ none | some r ↦ some r.fold ])

  abbrev pub sequence_of : Option Record → ℕ
  sequence_of none = 0
  sequence_of (some r) = r.fold.last_sequence

  abbrev pub count_of : Option Record → ℕ
  count_of none = 1
  count_of (some r) = r.handled_count + 1

  -- whether the fold advances
  abbrev pub applies : Option Record → OrderFold → Bool
  applies previous fold = ltb (sequence_of previous) fold.last_sequence

  abbrev pub refreshed : Bool → Option Record → OrderFold → String → Record
  refreshed applied none fold event_id = record {
    fold = fold;
    last_event_id = str event_id;
    handled_count = 1;
  }
  refreshed applied (some r) fold event_id =
      if applied
      then record { fold = fold; last_event_id = str event_id; handled_count = r.handled_count + 1 }
      else record r { handled_count = r.handled_count + 1 }

  -- the record that `save` writes
  unfoldable pub next_record : Option Record → OrderFold → String → Record
  next_record previous fold event_id = refreshed (applies previous fold) previous fold event_id

  -- `save`
  unfoldable pub save : ℕ → String → OrderFold → String → Method SaveOutcome
  save p order_id fold event_id = do
    previous ← read p order_id
    write p order_id (encode env.codec (next_record previous fold event_id))
    pure (record { applied = applies previous fold; handled_count = count_of previous })

  abbrev pub existed : Option (Option Bytes) → Result Exc Bool
  existed none = err unavailable
  existed (some none) = ok false
  existed (some (some _)) = ok true

  abbrev pub del_if : Bool → ℕ → String → Method Unit
  del_if false p order_id st = (ok tt, st)
  del_if true p order_id st = on_disk (env.engine.del st.0.disk p order_id) st

  -- `delete`
  unfoldable pub delete : ℕ → String → Method Bool
  delete p order_id = do
    store_for p
    found ← λ st. (existed (env.engine.get st.0.disk p order_id), st)
    del_if found p order_id
    publish p order_id none
    pure found

  -- `flush`
  unfoldable pub flush : Method Unit
  flush = do remaining ← producer_flush 30000; if remaining == 0 then pure tt else raise unavailable

  -- `_key_of`, with the decoding of the key
  abbrev pub key_of_record : Option Bytes → Result Exc String
  key_of_record none = err unavailable
  key_of_record (some (utf8 k)) = ok k
  key_of_record (some (raw _)) = err (record unavailable { class = value_error })

  -- one record of a rebuild: a tombstone deletes, a value is stored
  unfoldable pub apply_record : ℕ → String → Option Bytes → Method Unit
  apply_record p k none = do
    found ← λ st. (existed (env.engine.get st.0.disk p k), st)
    del_if found p k
  apply_record p k (some v) = λ st. on_disk (env.engine.put st.0.disk p k v) st

  -- One round of the loop in `_drain`, with the rest of the loop as `continue`.
  abbrev pub drain_step :
      ℕ
      → Poll
      → (ℕ → ℕ → List String → Method (ℕ × List String))
      → ℕ
      → ℕ
      → List String
      → Method (ℕ × List String)
  drain_step p nothing continue next records live = raise unavailable
  drain_step p (poll_error ErrorCode.partition_eof) continue next records live =
      continue next records live
  drain_step p (poll_error _) continue next records live = raise unavailable
  drain_step p (record_at offset key value) continue next records live = do
    k ← lift (key_of_record key)
    apply_record p k value
    continue (offset + 1) (records + 1) (note_live k value live)

  -- `_drain` from an offset: the loop over what `poll` answers. Its value is the number of records
  -- and the keys left live.
  unfoldable pub drain_from : ℕ → ℕ → List Poll → ℕ → ℕ → List String → Method (ℕ × List String)
  drain_from p high [] next records live =
      if ltb next high then raise unavailable else pure (records, live)
  drain_from p high (poll ∷ polls) next records live =
      let round = drain_step p poll (drain_from p high polls) next records live in
      if ltb next high then round else pure (records, live)

  -- `_drain`
  unfoldable pub drain : ℕ → ℕ → ℕ → Method (ℕ × List String)
  drain p start high = do
    store_for p
    λ st. drain_from p high (env.reader.polls st.1 topic p start) start 0 [] st

  -- `self._stores.pop(p, None)`, and `close()` where it was open
  unfoldable pub close_store : ℕ → Method Unit
  close_store p st =
      if contains p st.0.stores
      then (
        ok tt,
        (
          record st.0 { stores = without p st.0.stores; disk = env.engine.close_store st.0.disk p },
          st.1,
        ),
      )
      else (ok tt, st)

  -- `_destroy`
  unfoldable pub destroy : ℕ → Method Unit
  destroy p = do
    close_store p
    λ st.
        if env.engine.path_exists st.0.disk p
        then on_disk (env.engine.destroy st.0.disk p) st
        else (ok tt, st)

  abbrev pub int_of_text : Option String → Option ℕ
  int_of_text none = none
  int_of_text (some text) = offset_of (int_of text)

  -- `_read_checkpoint`
  unfoldable pub read_checkpoint : ℕ → Local D → Option ℕ
  read_checkpoint p s = int_of_text (env.engine.read_checkpoint s.disk p)

  abbrev pub from_low : ℕ → ℕ → Method ℕ
  from_low p low = do destroy p; pure low

  -- `_start_offset`
  unfoldable pub start_offset : ℕ → ℕ → Method ℕ
  start_offset p low = elim env.settings.state_rebuild [
    | StateRebuild.full ↦ from_low p low
    | StateRebuild.checkpoint ↦ λ st. elim (read_checkpoint p st.0) [
      | none ↦ from_low p low st
      | some checkpoint ↦ (ok (max checkpoint low), st)
    ]
  ]

  abbrev pub watermarks : ℕ → Method (ℕ × ℕ)
  watermarks p st = elim (env.reader.watermarks st.1 topic p) [
    | none ↦ (err unavailable, st)
    | some marks ↦ (ok marks, st)
  ]

  abbrev pub await_metadata : ℕ → Method Unit
  await_metadata p st =
      if env.reader.has_partition st.1 topic p then (ok tt, st) else (err unavailable, st)

  abbrev pub set_position : ℕ → ℕ → Method Unit
  set_position p high st = (ok tt, (record st.0 { position = insert p high st.0.position }, st.1))

  -- the rest of `_restore_one`, once the offset to start at is known
  unfoldable pub replay_from : ℕ → ℕ → ℕ → Method (ℕ × List String)
  replay_from p start high = do
    store_for p
    counts ← (if ltb start high then drain p start high else pure (0, []))
    set_position p high
    pure counts

  -- `_restore_one`; its value is what it logs, the records and the live keys
  unfoldable pub restore_one : ℕ → Method (ℕ × List String)
  restore_one p = do
    await_metadata p
    marks ← watermarks p
    start ← start_offset p marks.0
    replay_from p start marks.1

  unfoldable pub restore_all : List ℕ → Method Unit
  restore_all [] = pure tt
  restore_all (p ∷ ps) = do restore_one p; restore_all ps

  -- `restore`
  unfoldable pub restore : List ℕ → Method Unit
  restore ps = restore_all (sorted_set ps)

  -- `_write_checkpoint`, which never raises
  unfoldable pub write_checkpoint : ℕ → Local D → Local D
  write_checkpoint p s = elim (lookup p s.position) [
    | none ↦ s
    | some n ↦ elim (env.engine.write_checkpoint s.disk p (str_of n ++ˢ "\n")) [
      | none ↦ s
      | some d ↦ record s { disk = d }
    ]
  ]

  -- one round of `forget`
  unfoldable pub release : ℕ → Method Unit
  release p st =
      if contains p st.0.stores then close_store p (write_checkpoint p st.0, st.1) else (ok tt, st)

  unfoldable pub release_all : List ℕ → Method Unit
  release_all [] = pure tt
  release_all (p ∷ ps) = do release p; release_all ps

  -- `forget` on the sorted partitions
  abbrev pub forget_sorted : List ℕ → Method Unit
  forget_sorted [] = pure tt
  forget_sorted (p ∷ ps) = do producer_flush 30000; release_all (p ∷ ps)

  -- `forget`
  unfoldable pub forget : List ℕ → Method Unit
  forget ps = forget_sorted (sorted_set ps)

  -- one round of `discard`
  unfoldable pub discard_one : ℕ → Method Unit
  discard_one p = do
    close_store p
    λ st. (ok tt, (record st.0 { position = erase p st.0.position }, st.1))
    λ st. on_disk (env.engine.remove_tree st.0.disk p) st

  unfoldable pub discard_all : List ℕ → Method Unit
  discard_all [] = pure tt
  discard_all (p ∷ ps) = do discard_one p; discard_all ps

  -- `discard`
  unfoldable pub discard : List ℕ → Method Unit
  discard ps = discard_all (sorted_set ps)

  -- `held`
  unfoldable pub held : Local D → List ℕ
  held s = sorted_set s.stores

  -- `close`
  unfoldable pub close : Method Unit
  close st = forget st.0.stores st

  -- The backend behind the protocol.
  abbrev pub local_store : StateStore (Local D)
  local_store = record {
    load = load;
    save = save;
    delete = delete;
    restore = restore;
    flush = flush;
    forget = forget;
    discard = discard;
    held = held;
  }
