-- ===== src/Consumer/Tests/Stores.antt =====
-- Witnesses for the stores.
use kafka_playgroud.Prelude.{
  ℕ, ◌≡◌, ◌≤◌, refl, ◌⊎◌, true, false, ◌&&◌, Option, none, some, List, [], ◌∷◌, ◌++◌, String, ok,
  nat_eq, string_eq, if◌then◌else◌, ltb,
}
use kafka_playgroud.Consumer.State.Record.{
  Record, encode, decode, record_json, record_of_json, int_of_json,
}
use kafka_playgroud.Consumer.State.Record.RoundTrip.{decode-encode}
use kafka_playgroud.Consumer.State.Local.{
  write, publish, settle, store_for, load, flush, apply_record, note_live, drop_key, start_offset,
  destroy, close_store, replay_from, drain, save, delete, restore_one, drain_from, read,
  next_record, topic, sequence_of, count_of,
}
use kafka_playgroud.Consumer.State.Local.Contents.{replay, changelog_of, empty}
use kafka_playgroud.Consumer.State.Local.Save.{Stored, Follows, save_lem}
use kafka_playgroud.Consumer.State.Local.Mirror.{
  Op, saves, loads, deletes, flushes, run, run-IsMirrored,
}
use kafka_playgroud.Consumer.State.Local.Restore.{reached}
use kafka_playgroud.Consumer.State.Local.Rebuild.{between, restore_one_full}
use kafka_playgroud.Consumer.Tests.{
  env, engine-IsEngine, content, fold, stored, codec, fresh, changelog,
}

abbrev calls : List Op
calls = saves "o-1" fold "e-2" ∷ loads "o-1" ∷ flushes ∷ deletes "o-2" ∷ []

calls_ok : (run env 1 calls (fresh, [])).0 ≡ ok tt
unfolding run save load read write publish settle store_for encode record_json next_record decode
    record_of_json int_of_json delete flush
calls_ok = refl

run-IsMirrored_example :
    content (run env 1 calls (fresh, [])).1.0.disk 1 "o-1"
    ≡ replay empty (changelog_of (topic env) (run env 1 calls (fresh, [])).1.1) "o-1"
unfolding changelog_of replay
run-IsMirrored_example =
    run-IsMirrored env 1 content engine-IsEngine calls fresh [] calls_ok (λ j. refl) "o-1"

save_ok :
    (save env 1 "o-1" fold "e-2" (fresh, [])).0 ≡ ok (record { applied = true; handled_count = 1 })
unfolding save read write publish settle store_for encode record_json next_record
save_ok = refl

save_lem_example :
    (previous : Option Record) × (r : Record) × Stored env none "o-1" previous
    × Follows env previous fold "e-2" r
    × ((q : ℕ) (j : String)
        → content (save env 1 "o-1" fold "e-2" (fresh, [])).1.0.disk q j
          ≡ (if nat_eq.beq 1 q && string_eq.beq "o-1" j then some (encode codec r) else none))
    × (changelog_of (topic env) (save env 1 "o-1" fold "e-2" (fresh, [])).1.1
        ≡ changelog_of (topic env) [] ++ ("o-1", some (encode codec r)) ∷ [])
    × (true ≡ ltb (sequence_of env previous) 2)
    × (1 ≡ count_of env previous)
save_lem_example =
    save_lem env content engine-IsEngine 1 "o-1" fold "e-2" fresh []
      (record { applied = true; handled_count = 1 }) save_ok

delete_ok : (delete env 1 "o-1" (fresh, [])).0 ≡ ok false
unfolding delete store_for publish settle
delete_ok = refl

drain_ok : (drain_from env 1 3 changelog 0 0 [] (fresh, [])).0 ≡ ok (3, "o-2" ∷ [])
unfolding drain_from apply_record note_live drop_key
drain_ok = refl

restore_ok : (restore_one env 1 (fresh, [])).0 ≡ ok (3, "o-2" ∷ [])
unfolding restore_one start_offset destroy close_store replay_from store_for drain drain_from
    apply_record note_live drop_key
restore_ok = refl

restore_one_full_example :
    (low : ℕ) × (high : ℕ) × (env.reader.watermarks [] (topic env) 1 ≡ some (low, high))
    × ((q : ℕ) (j : String)
        → content (restore_one env 1 (fresh, [])).1.0.disk q j
          ≡ (if nat_eq.beq 1 q then replay empty (between low high changelog) j else none))
    × ((high ≤ low) ⊎ (high ≤ reached high low changelog))
restore_one_full_example =
    restore_one_full env content engine-IsEngine 1 fresh [] (3, "o-2" ∷ []) refl restore_ok

decode-encode_example : decode codec "o-1" (encode codec stored) ≡ ok stored
decode-encode_example = decode-encode codec stored refl
