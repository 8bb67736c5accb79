-- ===== src/Consumer/Tests/Transacting.antt =====
-- A witness for persisting under exactly_once, with a producer that keeps to its transactions.
use kafka_playgroud.Prelude.{◌≡◌, ◌≢◌, refl, false, [], err, if◌then◌else◌}
use kafka_playgroud.Config.{Settings, exactly_once}
use kafka_playgroud.Config.Tests.{settings}
use kafka_playgroud.Consumer.Broker.{Kafka, ErrorCode, Exc, Outgoing, Trace, accepted, refused}
use kafka_playgroud.Consumer.State.Local.{Local, LocalEnv, local_store, topic}
use kafka_playgroud.Consumer.State.Local.Contents.{changelog_of}
use kafka_playgroud.Consumer.Transactions.{Transaction, closed, transactional_committer}
use kafka_playgroud.Consumer.Runtime.{Service, Worker, persist_and_commit}
use kafka_playgroud.Consumer.Runtime.Transacting.{
  is_transacting, open_from, persist_and_commit_refused,
}
use kafka_playgroud.Consumer.Tests.{calm, env, fresh, Disk, router, codec, message, fold}
use kafka_playgroud.Consumer.Tests.Commits.{service}
use kafka_playgroud.Consumer.Tests.Rounds.{packed}

abbrev careful : Settings
careful = record settings { processing_guarantee = exactly_once }

-- it takes a message in a transaction only
abbrev strict : Kafka
strict = record calm {
  produce = λ t out.
      if is_transacting t
      then accepted
      else refused (record { code = ErrorCode.other_code; fatal = false });
}

strictly : (t : Trace) (out : Outgoing) → is_transacting t ≡ false → strict.produce t out ≢ accepted
strictly t out shut = rw shut (λ e. cc)

abbrev strict_env : LocalEnv Disk
strict_env = record env { kafka = strict; settings = careful }

abbrev transacting : Service (Local Disk) Transaction
transacting = record {
  name = "inventory";
  handlers = service.handlers;
  settings = careful;
  store = local_store strict_env;
  commits = transactional_committer strict careful;
  router = record router { kafka = strict };
  codec = codec;
  pydantic = service.pydantic;
  assignment = service.assignment;
}

abbrev unopened : Worker (Local Disk) Transaction
unopened = record { store = fresh; commits = closed; trace = [] }

shut : is_transacting [] ≡ false
unfolding open_from
shut = refl

persist_and_commit_refused_example :
    let (answer, w) = persist_and_commit transacting message packed fold 1 unopened in
    ((x : Exc) × (answer ≡ err x))
    × (changelog_of (topic strict_env) w.trace ≡ changelog_of (topic strict_env) [])
    × (is_transacting w.trace ≡ false)
    × (w.commits ≡ closed)
persist_and_commit_refused_example =
    persist_and_commit_refused strict_env strictly transacting refl refl message packed fold 1
      unopened shut
