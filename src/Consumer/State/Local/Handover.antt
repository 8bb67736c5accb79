-- ===== src/Consumer/State/Local/Handover.antt =====
-- A partition that passes from one process to another: what the first wrote of it into its compacted
-- changelog, and what the second rebuilds from it.
use kafka_playgroud.Prelude.{
  ℕ, none, some, ◌≡◌, ◌⊎◌, inl, inr, refl, sym, ◌∙◌, Option, List, [], ◌∷◌, String, arith,
  Bool-cases, nat_eq, string_eq, ok, beq_refl,
}
use kafka_playgroud.Prelude.Json.{Bytes}
use kafka_playgroud.Config.{StateRebuild}
use kafka_playgroud.Consumer.Broker.{Trace}
use kafka_playgroud.Consumer.State.Local.{Local, LocalEnv, topic, restore_one}
use kafka_playgroud.Consumer.State.Local.Contents.{
  IsEngine, Changelog, Table, update, empty, replay, changelog_of,
}
use kafka_playgroud.Consumer.State.Local.Mirror.{Op, run, run-IsMirrored}
use kafka_playgroud.Consumer.State.Local.Restore.{replay_cong}
use kafka_playgroud.Consumer.State.Local.Rebuild.{between, restore_one_full}

-- a later record has the key
abbrev pub Overwritten : String → Changelog → Type 0
Overwritten k [] = ⊥
Overwritten k ((j, _) ∷ log) = (k ≡ j) ⊎ Overwritten k log

-- What a compacted topic may still hold of the records that were written: it drops a record only if
-- a later one has its key.
pub data Compacts : Changelog → Changelog → Type 0 where
  done : Compacts [] []
  kept :
      {written held : Changelog} (k : String) (v : Option Bytes)
      → Compacts written held
      → Compacts ((k, v) ∷ written) ((k, v) ∷ held)
  dropped :
      {written held : Changelog} (k : String) (v : Option Bytes)
      → Overwritten k written
      → Compacts written held
      → Compacts ((k, v) ∷ written) held

replay-Overwritten :
    (t : Table) (log : Changelog) (k : String) (v : Option Bytes) (j : String)
    → Overwritten k log
    → replay (update t k v) log j ≡ replay t log j
unfolding replay
replay-Overwritten t [] k v j h = absurd h
replay-Overwritten t ((i, w) ∷ log) k v j (inl same) =
    replay_cong (update (update t k v) i w) (update t i w) log j
      (λ n. ground (arith, same, string_eq.beq_iff k n, string_eq.beq_iff i n))
replay-Overwritten t ((i, w) ∷ log) k v j (inr later) = elim (Bool-cases (string_eq.beq i k)) [
  | inl same ↦ replay_cong (update (update t k v) i w) (update t i w) log j (λ n.
      ground (arith, same, string_eq.beq_iff i k, string_eq.beq_iff k n, string_eq.beq_iff i n))
  | inr other ↦
      replay_cong (update (update t k v) i w) (update (update t i w) k v) log j (λ n.
        ground (arith, other, string_eq.beq_iff i k, string_eq.beq_iff k n, string_eq.beq_iff i n))
      ∙ replay-Overwritten (update t i w) log k v j later
]

replay-Compacts :
    {written held : Changelog} (t : Table) (j : String)
    → Compacts written held
    → replay t held j ≡ replay t written j
unfolding replay
replay-Compacts t j done = refl
replay-Compacts t j (kept k v c) = replay-Compacts (update t k v) j c
replay-Compacts t j (dropped {written} k v over c) =
    replay-Compacts t j c ∙ sym (replay-Overwritten t written k v j over)

module _ {D D' : Type 0} (env : LocalEnv D) (content : D → ℕ → String → Option Bytes)
    (laws : IsEngine env.engine content) (next_env : LocalEnv D')
    (next_content : D' → ℕ → String → Option Bytes)
    (next_laws : IsEngine next_env.engine next_content)
    (full : next_env.settings.state_rebuild ≡ StateRebuild.full) where
  -- Over engines that keep their laws: where a process has worked on a partition from nothing with calls that
  -- end well, and another one rebuilds it in full from a changelog that holds what was written, but
  -- for records that a later one with the same key replaces, the second has the table of the first.
  pub restore_one-run :
      (p : ℕ) (ops : List Op) (s : Local D) (s' : Local D') (t' : Trace) (out : ℕ × List String)
      (low high : ℕ)
      → (run env p ops (s, [])).0 ≡ ok tt
      → ((j : String) → content s.disk p j ≡ none)
      → (restore_one next_env p (s', t')).0 ≡ ok out
      → next_env.reader.watermarks t' (topic next_env) p ≡ some (low, high)
      → Compacts
          (changelog_of (topic env) (run env p ops (s, [])).1.1)
          (between low high (next_env.reader.polls t' (topic next_env) p low))
      → (j : String)
      → next_content (restore_one next_env p (s', t')).1.0.disk p j
        ≡ content (run env p ops (s, [])).1.0.disk p j
  unfolding replay changelog_of
  restore_one-run p ops s s' t' out low high worked fresh_disk rebuilt marks compacted j =
      let (low', high', marks', table, _) =
        restore_one_full next_env next_content next_laws p s' t' out full rebuilt in
      let mirrored = run-IsMirrored env p content laws ops s [] worked fresh_disk j in
      let lo : low' ≡ low = ground (arith, marks, marks') in
      let hi : high' ≡ high = ground (arith, marks, marks') in
      ground (arith, table p j, beq_refl p, lo, hi, replay-Compacts empty j compacted, mirrored)
