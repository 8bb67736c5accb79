-- ===== src/Consumer/State/Local/Rebuild.antt =====
-- A full rebuild of one partition: its old store is destroyed and its changelog replayed.
use kafka_playgroud.Prelude.{
  ℕ, ◌≤◌, ◌≡◌, ◌⊎◌, inl, inr, Option, none, some, List, [], String, arith, nat_eq, string_eq,
  if◌then◌else◌, ok, Result-cases, Option-cases, Bool-cases, ltb, beq_refl,
}
use kafka_playgroud.Prelude.Action.{bind-ok, ◌>>◌, pure}
use kafka_playgroud.Prelude.Json.{Bytes}
use kafka_playgroud.Config.{StateRebuild}
use kafka_playgroud.Consumer.Broker.{Trace}
use kafka_playgroud.Consumer.State.Local.{
  Local, LocalEnv, Poll, store_for, topic, drain, replay_from, destroy, close_store, start_offset,
  restore_one, set_position,
}
use kafka_playgroud.Consumer.State.Local.Contents.{IsEngine, Changelog, empty, replay}
use kafka_playgroud.Consumer.State.Local.Writes.{store_for_lem}
use kafka_playgroud.Consumer.State.Local.Restore.{applied, reached, drain_from_ok, replay_cong}

-- the records between the watermarks
abbrev pub between : ℕ → ℕ → List Poll → Changelog
between low high polls = if ltb low high then applied high low polls else []

module _ {D : Type 0} (env : LocalEnv D) (content : D → ℕ → String → Option Bytes)
    (laws : IsEngine env.engine content) where
  close_store_lem :
      (p q : ℕ) (j : String) (s : Local D) (t : Trace)
      → ((close_store env p (s, t)).0 ≡ ok tt)
        × (content (close_store env p (s, t)).1.0.disk q j ≡ content s.disk q j)
        × ((close_store env p (s, t)).1.1 ≡ t)
  unfolding close_store
  close_store_lem p q j s t = grind (arith, laws.close_content)

  destroy_lem :
      (p q : ℕ) (j : String) (s : Local D) (t : Trace)
      → (destroy env p (s, t)).0 ≡ ok tt
      → (content (destroy env p (s, t)).1.0.disk q j
          ≡ (if nat_eq.beq p q then none else content s.disk q j))
        × ((destroy env p (s, t)).1.1 ≡ t)
  unfolding destroy
  destroy_lem p q j s t h =
      let closed = close_store_lem p q j s t in
      let d = (close_store env p (s, t)).1.0.disk in
      elim (Bool-cases (env.engine.path_exists d p)) [
        | inl there ↦ elim (Option-cases (env.engine.destroy d p)) [
          | inl failed ↦ absurd (ground (arith, closed, there, failed))
          | inr (d', e) ↦ ground (arith, closed, there, e, laws.destroy_content d d' p q j e)
        ]
        | inr missing ↦
            ground (arith, closed, missing, laws.no_path_content d p j missing, nat_eq.beq_iff p q)
      ]

  drain_lem :
      (p q low high : ℕ) (j : String) (s : Local D) (t : Trace) (out : ℕ × List String)
      → (drain env p low high (s, t)).0 ≡ ok out
      → (content (drain env p low high (s, t)).1.0.disk q j ≡ (
          if nat_eq.beq p q
          then replay (content s.disk p) (applied high low (env.reader.polls t (topic env) p low)) j
          else content s.disk q j))
        × (high ≤ reached high low (env.reader.polls t (topic env) p low))
  unfolding drain
  drain_lem p q low high j s t out h =
      let (_, opened, rest) = bind-ok (store_for env p) _ (s, t) h in
      let st = (store_for env p (s, t)).1 in
      let polls = env.reader.polls t (topic env) p low in
      let kept = store_for_lem env content laws p q j s t in
      let done =
        drain_from_ok env content laws p high polls low 0 [] st.0 st.1 out
          (ground (arith, rest, kept)) in
      (
        ground (
          arith,
          done.0 q j,
          rest,
          kept,
          replay_cong (content st.0.disk p) (content s.disk p) (applied high low polls) j
              (λ i. (store_for_lem env content laws p p i s t).0),
        ),
        done.1,
      )

  replay_from_lem :
      (p q low high : ℕ) (j : String) (s : Local D) (t : Trace) (out : ℕ × List String)
      → (replay_from env p low high (s, t)).0 ≡ ok out
      → (content (replay_from env p low high (s, t)).1.0.disk q j ≡ (
          if nat_eq.beq p q
          then replay (content s.disk p) (between low high (env.reader.polls t (topic env) p low)) j
          else content s.disk q j))
        × ((high ≤ low) ⊎ (high ≤ reached high low (env.reader.polls t (topic env) p low)))
  unfolding replay_from replay
  replay_from_lem p q low high j s t out h =
      let (_, opened, rest) = bind-ok (store_for env p) _ (s, t) h in
      let st = (store_for env p (s, t)).1 in
      let polls = env.reader.polls t (topic env) p low in
      let kept = store_for_lem env content laws p q j s t in
      elim (Bool-cases (ltb low high)) [
        | inl more ↦
            let (counts, drained, last) =
              bind-ok (drain env p low high) (λ counts. set_position env p high >> pure counts) st
                {b = out} (ground (arith, rest, more)) in
            let done = drain_lem p q low high j st.0 st.1 counts drained in
            (
              ground (
                arith,
                done.0,
                rest,
                kept,
                more,
                last,
                replay_cong (content st.0.disk p) (content s.disk p) (applied high low polls) j
                    (λ i. (store_for_lem env content laws p p i s t).0),
              ),
              inr (ground (arith, done.1, kept)),
            )
        | inr fewer ↦
            (ground (arith, rest, kept, fewer, nat_eq.beq_iff p q), inl (ground (arith, fewer)))
      ]

  -- Over an engine that keeps its laws, a full rebuild of a partition that returns has replaced its table by the replay, over nothing,
  -- of the records that were polled between the watermarks; it has changed no other partition's
  -- table, and where there were records it has reached the high watermark.
  pub restore_one_full :
      (p : ℕ) (s : Local D) (t : Trace) (out : ℕ × List String)
      → env.settings.state_rebuild ≡ StateRebuild.full
      → (restore_one env p (s, t)).0 ≡ ok out
      → (low : ℕ) × (high : ℕ) × (env.reader.watermarks t (topic env) p ≡ some (low, high))
        × ((q : ℕ) (j : String)
            → content (restore_one env p (s, t)).1.0.disk q j ≡ (
                if nat_eq.beq p q
                then replay empty (between low high (env.reader.polls t (topic env) p low)) j
                else content s.disk q j))
        × ((high ≤ low) ⊎ (high ≤ reached high low (env.reader.polls t (topic env) p low)))
  unfolding restore_one start_offset
  restore_one_full p s t out full h =
      let st = (destroy env p (s, t)).1 in
      elim (Option-cases (env.reader.watermarks t (topic env) p)) [
        | inl missing ↦ absurd (ground arith)
        | inr ((low, high), marks) ↦ elim (Result-cases (destroy env p (s, t)).0) [
          | inr (x, failed) ↦ absurd (ground arith)
          | inl (_, gone) ↦
              let same : restore_one env p (s, t) ≡ replay_from env p low high st = ground arith in
              let found : (replay_from env p low high (st.0, st.1)).0 ≡ ok out = ground arith in
              let kept = (destroy_lem p p "" s t gone).1 in
              (
                low,
                high,
                marks,
                λ q j. ground (
                  arith,
                  same,
                  kept,
                  destroy_lem p q j s t gone,
                  replay_from_lem p q low high j st.0 st.1 out found,
                  replay_cong (content st.0.disk p) empty
                      (between low high (env.reader.polls t (topic env) p low)) j
                      (λ i. ground (arith, destroy_lem p p i s t gone, beq_refl p)),
                ),
                ground (arith, kept, replay_from_lem p p low high "" st.0 st.1 out found),
              )
        ]
      ]
