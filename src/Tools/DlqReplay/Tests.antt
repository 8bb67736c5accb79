-- ===== src/Tools/DlqReplay/Tests.antt =====
-- Witnesses for the replay tool: a topic of one partition with two dead letters.
use kafka_playgroud.Prelude.{
  ℕ, ◌≤◌, ◌≡◌, ◌≢◌, refl, inl, inr, Bool-cases, sorted_set, true, false, none, some, List, [], ◌∷◌,
  ◌++◌, ok, pos, nat_eq, string_eq, All, length, arith,
}
use kafka_playgroud.Prelude.Json.{utf8}
use kafka_playgroud.Dict.{lookup, insert}
use kafka_playgroud.Consumer.Broker.{Message, Outgoing}
use kafka_playgroud.Consumer.RetryWorker.{Answer, message}
use kafka_playgroud.Tools.DlqReplay.{Args, Cluster, Snapshot, replay, snapshot_topic, message_count}
use kafka_playgroud.Tools.DlqReplay.Copies.{copies_of}
use kafka_playgroud.Tools.DlqReplay.Published.{Replays, replay-Replays}
use kafka_playgroud.Tools.DlqReplay.Ending.{Delivers, replay_ends}
use kafka_playgroud.Tools.DlqReplay.Running.{main, main_limited}
use kafka_playgroud.Tools.DlqReplay.Watermarks.{IsTaken, snapshot_topic-IsTaken}
use kafka_playgroud.Config.Tests.{settings}
use kafka_playgroud.Consumer.Tests.{calm}

abbrev cluster : Cluster
cluster = record { partitions = λ topic. some (0 ∷ []); watermarks = λ topic p. some (3, 5) }

abbrev args : Args
args = record { publish = true; service = some "inventory"; include_poison = false; limit = pos 1 }

abbrev letter : Message
letter = record {
  topic = "orders.dlq";
  partition = 0;
  offset = 3;
  key = some (utf8 "o-1");
  value = some (utf8 "{}");
  headers =
      ("x-service", some (utf8 "inventory"))
      ∷ ("x-original-topic", some (utf8 "orders.lifecycle"))
      ∷ [];
  timestamp = 7;
}

abbrev last_letter : Message
last_letter = record letter { offset = 4 }

abbrev polled : List Answer
polled = message letter ∷ message last_letter ∷ []

abbrev snapshot : Snapshot
snapshot = record { assignments = (0, 3) ∷ []; end_offsets = (0, 5) ∷ [] }

taken : snapshot_topic cluster "orders.dlq" ≡ some snapshot
unfolding snapshot_topic sorted_set insert
taken = refl

replay-Replays_example :
    (outs : List Outgoing) × Replays args snapshot.end_offsets polled outs
    × (copies_of (replay calm args cluster settings polled []).1 ≡ copies_of [] ++ outs)
replay-Replays_example = replay-Replays calm args cluster settings snapshot taken polled []

delivers : Delivers snapshot.end_offsets polled
unfolding lookup
delivers p end found = elim (Bool-cases (nat_eq.beq 0 p)) [
  | inl same ↦ (last_letter, inr (inl refl), (nat_eq.beq_iff 0 p).0 same, ground (arith, same))
  | inr other ↦ absurd (ground (arith, other))
]

replay_ends_example :
    ((replay calm args cluster settings polled []).0 ≢ ok none)
    × (replay calm args cluster settings (polled ++ message letter ∷ []) []
        ≡ replay calm args cluster settings polled [])
replay_ends_example =
    replay_ends calm args cluster settings snapshot taken polled (message letter ∷ []) [] delivers

main_limited_example : length (copies_of (main calm args cluster settings polled).1) ≤ 1
main_limited_example = main_limited calm args cluster 0 settings polled refl

snapshot_topic-IsTaken_example :
    All (IsTaken cluster "orders.dlq" snapshot.end_offsets) snapshot.assignments
    × ((n : ℕ) × (message_count snapshot ≡ some n) × (1 ≤ n))
snapshot_topic-IsTaken_example = snapshot_topic-IsTaken cluster "orders.dlq" snapshot taken
