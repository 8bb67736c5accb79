-- ===== src/Consumer/Tests.antt =====
-- Fixtures for the witnesses: a calm broker, a disk in memory, and one message.
mod Stores
mod Commits
mod Routes
mod Worker
mod Rounds
mod Handover
mod Processes
mod Folds
mod Transacting
use kafka_playgroud.Prelude.{
  ℕ, ◌≡◌, refl, ap, sym, Bool, true, false, ◌&&◌, Option, none, some, List, [], ◌∷◌, String, Result,
  ok, err, nat_eq, string_eq, if◌then◌else◌, arith, ◌+◌, ◌-◌, ltb, ◌==◌, pos, suc, length, zero,
}
use kafka_playgroud.Prelude.Json.{Bytes, utf8, raw, Json, null, JsonCodec}
use kafka_playgroud.Config.{Settings}
use kafka_playgroud.Config.Tests.{settings}
use kafka_playgroud.Events.{OrderState, LifecycleEvent, EventType, Pydantic}
use kafka_playgroud.Consumer.Broker.{
  Message, Outgoing, Kafka, KafkaError, ErrorCode, accepted, delivered, Trace, IsoTime, Exc,
  retryable_error,
}
use kafka_playgroud.Consumer.Dlq.{Router}
use kafka_playgroud.Consumer.State.{OrderFold}
use kafka_playgroud.Consumer.State.Record.{Record, record_json}
use kafka_playgroud.Consumer.State.Local.{
  Engine, Poll, nothing, record_at, poll_error, Reader, LocalEnv, Local,
}
use kafka_playgroud.Consumer.State.Local.Contents.{IsEngine}

-- a broker that grants every call
abbrev pub calm : Kafka
calm = record {
  produce = λ t out. accepted;
  flush = λ t timeout. 0;
  report = λ t out. delivered;
  commit = λ t m. none;
  seek = λ t topic p o. none;
  pause = λ t topic p. none;
  resume = λ t topic p. none;
  init_transactions = λ t. none;
  begin_transaction = λ t. none;
  send_offsets = λ t d. none;
  commit_transaction = λ t. none;
  abort_transaction = λ t. none;
  committed_offsets = λ t p. ok [];
  now = λ t. 5;
}

abbrev pub Disk : Type 0
Disk = ℕ → String → Option Bytes

abbrev pub write_at : ℕ → String → Option Bytes → Disk → Disk
write_at p k v d q j = if nat_eq.beq p q && string_eq.beq k j then v else d q j

abbrev pub clear : ℕ → Disk → Disk
clear p d q j = if nat_eq.beq p q then none else d q j

abbrev pub engine : Engine Disk
engine = record {
  open_store = λ d p. some d;
  close_store = λ d p. d;
  get = λ d p k. some (d p k);
  put = λ d p k v. some (write_at p k (some v) d);
  del = λ d p k. some (write_at p k none d);
  path_exists = λ d p. true;
  destroy = λ d p. some (clear p d);
  remove_tree = λ d p. some (clear p d);
  read_checkpoint = λ d p. none;
  write_checkpoint = λ d p text. some d;
}

abbrev pub content : Disk → Disk
content d = d

at_or_none : Option Disk → Disk
at_or_none none q j = none
at_or_none (some d) q j = d q j

same_at : {d d' : Disk} (q : ℕ) (j : String) → some d ≡ some d' → d' q j ≡ d q j
unfolding at_or_none
same_at q j e = sym (ap (λ o. at_or_none o q j) e)

some_inj : {v w : Option Bytes} → some v ≡ some w → v ≡ w
some_inj e = cc

pub engine-IsEngine : IsEngine engine content
engine-IsEngine = record {
  get_content = λ d p k v e. sym (some_inj e);
  put_content = λ d d' p q k j v e. same_at q j e;
  del_content = λ d d' p q k j e. same_at q j e;
  open_content = λ d d' p q j e. same_at q j e;
  close_content = λ d p q j. refl;
  destroy_content = λ d d' p q j e. same_at q j e;
  remove_content = λ d d' p q j e. same_at q j e;
  no_path_content = λ d p j e. cc;
  checkpoint_content = λ d d' p q j text e. same_at q j e;
}

abbrev pub fold : OrderFold
fold = record { order_id = "o-1"; last_sequence = 2; state = some OrderState.packed }

abbrev pub stored : Record
stored = record { fold = fold; last_event_id = null; handled_count = 2 }

-- a json module that knows one record
abbrev pub codec : JsonCodec
codec = record { dumps = λ j. "{}"; loads = λ s. some (record_json stored) }

-- a changelog of a record, its tombstone and another record, with an end-of-partition notice
abbrev pub changelog : List Poll
changelog =
    record_at 0 (some (utf8 "o-1")) (some (utf8 "{}"))
    ∷ record_at 1 (some (utf8 "o-1")) none
    ∷ poll_error ErrorCode.partition_eof
    ∷ record_at 2 (some (utf8 "o-2")) (some (utf8 "{}"))
    ∷ []

abbrev pub reader : Reader
reader = record {
  has_partition = λ t topic p. true;
  watermarks = λ t topic p. some (0, 3);
  polls = λ t topic p o. changelog;
}

abbrev pub env : LocalEnv Disk
env = record {
  engine = engine;
  reader = reader;
  kafka = calm;
  codec = codec;
  settings = settings;
  group_id = "g";
  reports = λ t. [];
}

abbrev pub fresh : Local Disk
fresh = record { stores = []; position = []; disk = λ p k. none }

abbrev pub iso : IsoTime
iso = record { isoformat = λ n. "now"; fromisoformat = λ s. some 5 }

abbrev pub router : Router
router = record {
  kafka = calm;
  iso = iso;
  settings = settings;
  parse_float = λ s. some (pos 1000);
  delivery_timeout_ms = 10000;
}

abbrev pub failure : Exc
failure = record { class = retryable_error; text = "no" }

abbrev pub message : Message
message = record {
  topic = "orders.lifecycle";
  partition = 1;
  offset = 4;
  key = some (utf8 "o-1");
  value = some (utf8 "{}");
  headers = [];
  timestamp = 7;
}
