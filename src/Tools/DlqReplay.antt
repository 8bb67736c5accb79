-- ===== src/Tools/DlqReplay.antt =====
-- src/order_service/tools/dlq_replay.py: reading the dead-letter topic, and putting its messages back.
-- Log lines are left out.
pub mod Copies
pub mod Rounds
pub mod Published
pub mod Counts
pub mod Ending
pub mod Watermarks
pub mod Running
mod Tests
use kafka_playgroud.Prelude.{
  ℕ, ◌+◌, ◌-◌, Bool, true, false, not, ◌&&◌, Option, none, some, List, [], ◌∷◌, ◌++◌, String,
  Result, ok, err, ltb, leb, ◌==◌, nat_eq, string_eq, if◌then◌else◌, ℤ, pos, negsuc, suc, zero,
  sorted_set, is_empty,
}
use kafka_playgroud.Prelude.Action.{Action, ◌>>=◌, ◌>>◌, pure, raise}
use kafka_playgroud.Dict.{Dict, lookup, insert, erase}
use kafka_playgroud.Config.{Settings}
use kafka_playgroud.Consumer.Broker.{
  Message, Outgoing, Exc, other_class, kafka_exception, KafkaError, ErrorCode, other_code, Event,
  enqueued, not_enqueued, flushed, Trace, Enqueue, accepted, buffer_error, refused, Kafka, emit,
}
use kafka_playgroud.Consumer.Dlq.{
  Headers, decode_headers, hdr_service, hdr_error_class, hdr_original_topic,
}
use kafka_playgroud.Consumer.Runtime.{exception}
use kafka_playgroud.Consumer.RetryWorker.{Answer, nothing, error, message}

-- what `argparse` reads
pub record Args : Type 0 where
  pub publish : Bool
  pub service : Option String
  pub include_poison : Bool
  pub limit : ℤ

-- What the cluster answers before the run publishes anything: the partitions of a topic, whose
-- `none` is missing or failed metadata, and the watermarks of a partition, whose `none` is a `KafkaException`.
pub record Cluster : Type 0 where
  pub partitions : String → Option (List ℕ)
  pub watermarks : String → ℕ → Option (ℕ × ℕ)

-- `Snapshot`; an assignment is a partition and the offset to start at.
pub record Snapshot : Type 0 where
  pub assignments : List (ℕ × ℕ)
  pub end_offsets : Dict ℕ ℕ

abbrev pub cluster_exception : Exc
cluster_exception =
    exception (kafka_exception (record { code = ErrorCode.other_code; fatal = false }))

-- `Snapshot.message_count`; `none` is `KeyError`
unfoldable pub count_from : Dict ℕ ℕ → List (ℕ × ℕ) → Option ℕ
count_from ends [] = some 0
count_from ends ((p, low) ∷ ps) = elim (lookup p ends) [
  | none ↦ none
  | some high ↦ elim (count_from ends ps) [
    | none ↦ none
    | some n ↦ some ((if ltb low high then high - low else 0) + n)
  ]
]

unfoldable pub message_count : Snapshot → Option ℕ
unfolding count_from
message_count s = count_from s.end_offsets s.assignments

-- the loop of `snapshot_topic`; `none` is a `KafkaException`
unfoldable pub add_partitions : Cluster → String → Snapshot → List ℕ → Option Snapshot
add_partitions cluster topic s [] = some s
add_partitions cluster topic s (p ∷ ps) = elim (cluster.watermarks topic p) [
  | none ↦ none
  | some (low, high) ↦
      add_partitions cluster topic
        (if leb high low then s else record {
          assignments = s.assignments ++ (p, low) ∷ [];
          end_offsets = insert p high s.end_offsets;
        })
        ps
]

abbrev pub empty_snapshot : Snapshot
empty_snapshot = record { assignments = []; end_offsets = [] }

-- `snapshot_topic`
unfoldable pub snapshot_topic : Cluster → String → Option Snapshot
unfolding add_partitions
snapshot_topic cluster topic = elim (cluster.partitions topic) [
  | none ↦ none
  | some ps ↦ add_partitions cluster topic empty_snapshot (sorted_set ps)
]

-- what changes while `replay` reads
pub record Run : Type 0 where
  pub pending : Dict ℕ ℕ
  pub seen : ℕ
  pub matched : ℕ
  pub excluded : ℕ
  pub published : ℕ
  pub trace : Trace

-- whether the loop is left
pub data Next : Type 0 where
  more stop : Next

abbrev pub Method : Type 0 → Type 0
Method A = Action Run Exc A

-- `args.service and headers.get(HDR_SERVICE) != args.service`
abbrev pub is_other : Option String → Option String → Bool
is_other none found = false
is_other (some wanted) none = not (wanted == "")
is_other (some wanted) (some found) = not (wanted == "") && not (found == wanted)

-- `headers.get(HDR_ERROR_CLASS) in NON_RETRYABLE_ERROR_CLASSES`
abbrev pub is_poison : Option String → Bool
is_poison none = false
is_poison (some class) = class == "NonRetryableError"

-- `args.limit and matched >= args.limit`
abbrev pub is_reached : ℤ → ℕ → Bool
is_reached (pos zero) matched = false
is_reached (pos (suc n)) matched = leb (suc n) matched
is_reached (negsuc n) matched = true

-- the message as it is put back
abbrev pub bare_copy : Message → String → Outgoing
bare_copy m topic = record { topic = topic; key = m.key; value = m.value; headers = [] }

-- what is pending once a message of a partition that stops at `end` is read
abbrev pub left_pending : Message → ℕ → Dict ℕ ℕ → Dict ℕ ℕ
left_pending m end pending = if leb end (m.offset + 1) then erase m.partition pending else pending

module _ (kafka : Kafka) (args : Args) where
  -- the end of the loop's body
  abbrev pub check_limit : Method Next
  check_limit w = (ok (if is_reached args.limit w.matched then stop else more), w)

  -- `producer.produce`, and what follows it
  unfoldable pub put_back : Message → String → Method Next
  put_back m topic w =
      let out = bare_copy m topic in
      elim (kafka.produce w.trace out) [
        | accepted ↦
            check_limit
              (record w { trace = emit (enqueued out) w.trace; published = w.published + 1 })
        | buffer_error ↦ (
          err (exception (other_class "BufferError")),
          record w { trace = emit (not_enqueued out) w.trace },
        )
        | refused e ↦ (
          err (exception (kafka_exception e)),
          record w { trace = emit (not_enqueued out) w.trace },
        )
      ]

  -- a message that is to be published, by its `x-original-topic`
  abbrev pub republish : Message → Option String → Method Next
  republish m none = pure more
  republish m (some target) = if target == "" then pure more else put_back m target

  -- the body of the loop once a message matches
  unfoldable pub handle_match : Message → Method Next
  handle_match m w =
      let headers = decode_headers m in
      let w' = record w { matched = w.matched + 1 } in
      if is_poison (lookup hdr_error_class headers) && not args.include_poison
      then check_limit (record w' { excluded = w.excluded + 1 })
      else if args.publish
      then republish m (lookup hdr_original_topic headers) w'
      else check_limit w'

  -- the body of the loop for a message of a pending partition that stops at `end`
  unfoldable pub handle_pending : Message → ℕ → Method Next
  handle_pending m end w =
      let w' = record w { pending = left_pending m end w.pending } in
      if ltb m.offset end
      then if is_other args.service (lookup hdr_service (decode_headers m))
        then (ok more, record w' { seen = w.seen + 1 })
        else handle_match m (record w' { seen = w.seen + 1 })
      else (ok more, w')

  abbrev pub handle_found : Message → Option ℕ → Method Next
  handle_found m none = pure more
  handle_found m (some end) = handle_pending m end

  abbrev pub handle_error : KafkaError → Method Next
  handle_error e = elim e.code [ ErrorCode.partition_eof ↦ pure more | _ ↦ pure stop ]

  -- one round of the loop in `replay`
  unfoldable pub step : Answer → Method Next
  step nothing = pure stop
  step (error e) = handle_error e
  step (message m) = λ w. handle_found m (lookup m.partition w.pending) w

  abbrev pub unless_stopped : Method Bool → Next → Method Bool
  unless_stopped rest stop = pure true
  unless_stopped rest more = rest

  -- The loop, over what is polled; the answer is whether it has ended, so that false says that it
  -- would poll once more.
  unfoldable pub loop : List Answer → Method Bool
  loop [] w = (ok (is_empty w.pending), w)
  loop (x ∷ xs) w =
      let rest = (do next ← step x; unless_stopped (loop xs) next) in
      if is_empty w.pending then (ok true, w) else rest w

  abbrev pub exit_code : ℕ → ℕ
  exit_code remaining = if args.publish && not (remaining == 0) then 1 else 0

  -- the `finally` of `replay`, and what follows it
  unfoldable pub finish : Result Exc Bool → Run → Result Exc (Option ℕ) × Trace
  finish (ok false) w = (ok none, w.trace)
  finish (ok true) w =
      let remaining = kafka.flush w.trace 30000 in
      (ok (some (exit_code remaining)), emit (flushed remaining) w.trace)
  finish (err x) w = (err x, emit (flushed (kafka.flush w.trace 30000)) w.trace)

  abbrev pub start : Snapshot → Trace → Run
  start s t = record {
    pending = s.end_offsets;
    seen = 0;
    matched = 0;
    excluded = 0;
    published = 0;
    trace = t;
  }

  -- `replay`, over what is polled; its value is the exit code, and `none` while it still polls.
  unfoldable pub replay : Cluster → Settings → List Answer → Trace → Result Exc (Option ℕ) × Trace
  unfolding loop finish snapshot_topic
  replay cluster settings polled t = elim (snapshot_topic cluster settings.dlq_topic) [
    | none ↦ (err cluster_exception, t)
    | some s ↦ let (ended, w) = loop polled (start s t) in finish ended w
  ]
