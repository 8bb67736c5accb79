-- ===== src/Consumer/Tests/Commits.antt =====
-- Witnesses for the commit strategies and for the handling of a message.
use kafka_playgroud.Prelude.{
  ℕ, ◌≡◌, refl, true, false, none, some, List, [], ◌∷◌, String, ok, err, nat_eq, string_eq, pair_eq,
  pos,
}
use kafka_playgroud.Prelude.Json.{null}
use kafka_playgroud.Dict.{Dict, lookup}
use kafka_playgroud.Events.{Pydantic, EventType}
use kafka_playgroud.Config.Tests.{settings}
use kafka_playgroud.Consumer.Broker.{
  Message, Kafka, KafkaError, other_code, began, offsets_sent, transaction_committed,
}
use kafka_playgroud.Consumer.State.Local.{Local, local_store}
use kafka_playgroud.Consumer.Transactions.{
  Transaction, closed, note, begin_if_needed, commit, maybe_commit, direct_committer,
  transactional_committer, raised, is_fenced,
}
use kafka_playgroud.Consumer.Transactions.Offsets.{note_all, resume_at, commit-note_all}
use kafka_playgroud.Consumer.Runtime.{
  Service, Worker, settle, Polled, nothing, assigned, revoked, message,
}
use kafka_playgroud.Consumer.Runtime.Defects.{settle_failed_commit}
use kafka_playgroud.Consumer.Tests.{calm, env, fresh, Disk, router, codec, message as message_1}

abbrev later : List Message
later = record message_1 { offset = 5 } ∷ record message_1 { partition = 0 } ∷ []

noted : (note_all calm (message_1 ∷ later) (closed, [])).0 ≡ ok tt
unfolding note_all note begin_if_needed
noted = refl

commits : (commit calm (note_all calm (message_1 ∷ later) (closed, [])).1).0 ≡ ok tt
unfolding note_all note begin_if_needed commit
commits = refl

commit-note_all_example :
    (d : Dict (String × ℕ) ℕ) × ((commit calm (note_all calm (message_1 ∷ later) (closed, [])).1).1
      ≡ (closed, began ∷ offsets_sent d ∷ transaction_committed ∷ []))
    × ((key : String × ℕ) → lookup key d ≡ resume_at key none (message_1 ∷ later))
commit-note_all_example = commit-note_all calm message_1 later [] noted commits

-- a broker that refuses to commit a transaction
abbrev broken : KafkaError
broken = record { code = other_code; fatal = false }

abbrev stubborn : Kafka
stubborn = record calm { commit_transaction = λ t. some broken }

abbrev transaction : Transaction
transaction = record {
  opened = true;
  messages = 2;
  opened_at = 0;
  touched = 1 ∷ [];
  offsets = (("orders.lifecycle", 1), 5) ∷ [];
}

refused_commit : (commit stubborn (transaction, [])).0 ≡ err (raised broken)
unfolding commit raised is_fenced
refused_commit = refl

abbrev pub pydantic : Pydantic
pydantic = record {
  read_order_created = λ j. none;
  read_shipped = λ j. none;
  read_event = λ j. some (record {
    event_id = "e-1";
    order_id = "o-1";
    sequence = pos 3;
    event_type = EventType.packed;
    occurred_at = 7;
    payload = null;
  });
  dump = λ p. null;
}

abbrev stubborn_service : Service (Local Disk) Transaction
stubborn_service = record {
  name = "inventory";
  handlers = λ e. none;
  settings = settings;
  store = local_store env;
  commits = transactional_committer stubborn settings;
  router = record router { kafka = stubborn };
  codec = codec;
  pydantic = pydantic;
  assignment = λ t. [];
}

abbrev busy : Worker (Local Disk) Transaction
busy = record { store = fresh; commits = transaction; trace = [] }

due_commit : (maybe_commit stubborn settings (transaction, [])).0 ≡ err (raised broken)
unfolding maybe_commit commit raised is_fenced
due_commit = refl

settle_failed_commit_example :
    settle stubborn_service busy
    ≡ (ok tt, record busy { commits = closed; trace = (commit stubborn (transaction, [])).1.1 })
unfolding raised is_fenced
settle_failed_commit_example =
    settle_failed_commit stubborn_service settings busy (raised broken) refl due_commit refl

abbrev pub service : Service (Local Disk) Unit
service = record {
  name = "inventory";
  handlers = λ e. none;
  settings = settings;
  store = local_store env;
  commits = direct_committer calm;
  router = router;
  codec = codec;
  pydantic = pydantic;
  assignment = λ t. [];
}

abbrev pub idle : Worker (Local Disk) Unit
idle = record { store = fresh; commits = tt; trace = [] }

-- a rebalance, a message_1, a quiet poll, a tombstone, and the end of the assignment
abbrev pub day : List Polled
day =
    assigned (1 ∷ [])
    ∷ message message_1
    ∷ nothing
    ∷ message (record message_1 { offset = 5; value = none })
    ∷ revoked (1 ∷ [])
    ∷ []
