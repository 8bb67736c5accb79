-- ===== src/Consumer/State/Local/Mirror.antt =====
-- Sequences of calls on one partition of the local store: its table beside its changelog.
use kafka_playgroud.Prelude.{
  ℕ, ◌≡◌, Option, none, some, List, [], ◌∷◌, String, arith, nat_eq, string_eq, ok, beq_refl,
}
use mathlib.Core.List.{append-nil}
use kafka_playgroud.Prelude.Action.{bind-ok, ◌>>◌, pure}
use kafka_playgroud.Prelude.Json.{Bytes}
use kafka_playgroud.Consumer.Broker.{Trace}
use kafka_playgroud.Consumer.State.Protocol.{OrderFold}
use kafka_playgroud.Consumer.State.Record.{encode}
use kafka_playgroud.Consumer.State.Local.{
  Local, LocalEnv, Method, read, save, load, delete, flush, topic,
}
use kafka_playgroud.Consumer.State.Local.Contents.{
  IsEngine, empty, replay, replay-append, changelog_of, changelog_of-emit,
}
use kafka_playgroud.Consumer.State.Local.Writes.{read_keeps}
use kafka_playgroud.Consumer.State.Local.Save.{save_lem, delete_lem}

-- A call of the consume loop on one partition's store.
pub data Op : Type 0 where
  loads : String → Op
  saves : String → OrderFold → String → Op
  deletes : String → Op
  flushes : Op

module _ {D : Type 0} (env : LocalEnv D) (p : ℕ) where
  abbrev pub apply : Op → Method env Unit
  apply (loads id) = do load env p id; pure tt
  apply (saves id fold event_id) = do save env p id fold event_id; pure tt
  apply (deletes id) = do delete env p id; pure tt
  apply flushes = flush env

  -- the calls in order, up to the first exception
  unfoldable pub run : List Op → Method env Unit
  run [] = pure tt
  run (op ∷ ops) = do apply op; run ops

  module _ (content : D → ℕ → String → Option Bytes) (laws : IsEngine env.engine content) where
    abbrev pub IsMirrored : Local D → Trace → Type 0
    IsMirrored s t = (j : String) → content s.disk p j ≡ replay empty (changelog_of (topic env) t) j

    load_mirrors :
        (id : String) (s : Local D) (t : Trace)
        → (apply (loads id) (s, t)).0 ≡ ok tt
        → IsMirrored s t
        → IsMirrored (apply (loads id) (s, t)).1.0 (apply (loads id) (s, t)).1.1
    unfolding load
    load_mirrors id s t h m j =
        let (_, loaded, _) = bind-ok (load env p id) _ (s, t) h in
        let (_, found, _) = bind-ok (read env p id) _ (s, t) loaded in
        ground (arith, read_keeps env content laws p p id j s t, m j)

    save_mirrors :
        (id : String) (fold : OrderFold) (event_id : String) (s : Local D) (t : Trace)
        → (apply (saves id fold event_id) (s, t)).0 ≡ ok tt
        → IsMirrored s t
        → IsMirrored
            (apply (saves id fold event_id) (s, t)).1.0
            (apply (saves id fold event_id) (s, t)).1.1
    save_mirrors id fold event_id s t h m j =
        let (out, done, _) = bind-ok (save env p id fold event_id) _ (s, t) h in
        let (_, r, _, _, table, log, _, _) =
          save_lem env content laws p id fold event_id s t out done in
        let v = some (encode env.codec r) in
        ground (
          arith,
          table p j,
          log,
          m j,
          beq_refl p,
          replay-append empty (changelog_of (topic env) t) id v j,
        )

    delete_mirrors :
        (id : String) (s : Local D) (t : Trace)
        → (apply (deletes id) (s, t)).0 ≡ ok tt
        → IsMirrored s t
        → IsMirrored (apply (deletes id) (s, t)).1.0 (apply (deletes id) (s, t)).1.1
    delete_mirrors id s t h m j =
        let (was, done, _) = bind-ok (delete env p id) _ (s, t) h in
        let (table, log, _, _) = delete_lem env content laws p id s t was done in
        ground (
          arith,
          table p j,
          log,
          m j,
          beq_refl p,
          replay-append empty (changelog_of (topic env) t) id none j,
        )

    flush_mirrors :
        (s : Local D) (t : Trace)
        → IsMirrored s t
        → IsMirrored (flush env (s, t)).1.0 (flush env (s, t)).1.1
    unfolding flush
    flush_mirrors s t m j = grind (arith, m j, changelog_of-emit, append-nil)

    apply_mirrors :
        (op : Op) (s : Local D) (t : Trace)
        → (apply op (s, t)).0 ≡ ok tt
        → IsMirrored s t
        → IsMirrored (apply op (s, t)).1.0 (apply op (s, t)).1.1
    apply_mirrors (loads id) s t h m = load_mirrors id s t h m
    apply_mirrors (saves id fold event_id) s t h m = save_mirrors id fold event_id s t h m
    apply_mirrors (deletes id) s t h m = delete_mirrors id s t h m
    apply_mirrors flushes s t h m = flush_mirrors s t m

    -- Over an engine that keeps its laws: where a partition's table is the replay of the changelog that was written so far, it is so
    -- again after any sequence of loads, saves, deletes and flushes on it that ends well.
    pub run-IsMirrored :
        (ops : List Op) (s : Local D) (t : Trace)
        → (run ops (s, t)).0 ≡ ok tt
        → IsMirrored s t
        → IsMirrored (run ops (s, t)).1.0 (run ops (s, t)).1.1
    unfolding run
    run-IsMirrored [] s t h m = m
    run-IsMirrored (op ∷ ops) s t h m =
        let (_, first, rest) = bind-ok (apply op) _ (s, t) h in
        let m' = apply_mirrors op s t first m in
        let again =
          run-IsMirrored ops (apply op (s, t)).1.0 (apply op (s, t)).1.1 (cc (rest, h)) m' in
        rw rest again
