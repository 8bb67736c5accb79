-- ===== src/Consumer/Tests/Handover.antt =====
-- A witness for a partition that passes to another process: an order is saved twice, and the
-- changelog holds the later record.
use kafka_playgroud.Prelude.{◌≡◌, refl, inl, some, [], ◌∷◌, ok, nat_eq, string_eq, List}
use kafka_playgroud.Prelude.Json.{utf8}
use kafka_playgroud.Config.{changelog_topic_for}
use kafka_playgroud.Consumer.State.Local.{
  LocalEnv, record_at, restore_one, start_offset, destroy, close_store, replay_from, store_for,
  drain, drain_from, apply_record, note_live, save, read, write, publish, settle, next_record,
  topic,
}
use kafka_playgroud.Consumer.State.Record.{encode, decode, record_json, record_of_json, int_of_json}
use kafka_playgroud.Consumer.State.Local.Contents.{changelog_of}
use kafka_playgroud.Consumer.State.Local.Restore.{applied}
use kafka_playgroud.Consumer.State.Local.Rebuild.{between}
use kafka_playgroud.Consumer.State.Local.Mirror.{Op, saves, run}
use kafka_playgroud.Consumer.State.Local.Handover.{Compacts, done, dropped, kept, restore_one-run}
use kafka_playgroud.Consumer.Tests.{Disk, env, content, engine-IsEngine, fold, fresh, reader}

abbrev calls : List Op
calls = saves "o-1" fold "e-2" ∷ saves "o-1" fold "e-2" ∷ []

abbrev next_env : LocalEnv Disk
next_env = record env {
  reader = record reader {
    watermarks = λ t topic p. some (0, 2);
    polls = λ t topic p o. record_at 1 (some (utf8 "o-1")) (some (utf8 "{}")) ∷ [];
  };
}

worked : (run env 1 calls (fresh, [])).0 ≡ ok tt
unfolding run save read write publish settle store_for encode record_json next_record decode
    record_of_json int_of_json
worked = refl

rebuilt : (restore_one next_env 1 (fresh, [])).0 ≡ ok (1, "o-1" ∷ [])
unfolding restore_one start_offset destroy close_store replay_from store_for drain drain_from
    apply_record note_live
rebuilt = refl

compacted :
    Compacts
      (changelog_of (topic env) (run env 1 calls (fresh, [])).1.1)
      (between 0 2 (next_env.reader.polls [] (topic next_env) 1 0))
unfolding run save read write publish settle store_for encode record_json next_record decode
    record_of_json int_of_json changelog_of applied changelog_topic_for
compacted = dropped "o-1" (some (utf8 "{}")) (inl refl) (kept "o-1" (some (utf8 "{}")) done)

restore_one-run_example :
    content (restore_one next_env 1 (fresh, [])).1.0.disk 1 "o-1"
    ≡ content (run env 1 calls (fresh, [])).1.0.disk 1 "o-1"
restore_one-run_example =
    restore_one-run env content engine-IsEngine next_env content engine-IsEngine refl 1 calls fresh
      fresh [] (1, "o-1" ∷ []) 0 2 worked (λ j. refl) rebuilt refl compacted "o-1"
