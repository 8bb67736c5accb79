-- ===== src/Consumer/State/Local/Restore.antt =====
-- A rebuild: what replaying a partition's changelog leaves in its table.
use kafka_playgroud.Prelude.{
  ℕ, ◌+◌, ◌≤◌, ◌≡◌, refl, inl, inr, ◌&&◌, Option, none, some, List, [], ◌∷◌, ◌++◌, String, arith,
  nat_eq, string_eq, if◌then◌else◌, ok, Option-cases, Bool-cases, ltb, beq_refl,
}
use kafka_playgroud.Prelude.Action.{bind-ok}
use kafka_playgroud.Prelude.Json.{Bytes, utf8, raw}
use kafka_playgroud.Consumer.Broker.{Trace, ErrorCode}
use kafka_playgroud.Consumer.State.Local.{
  Local, LocalEnv, Poll, nothing, poll_error, record_at, apply_record, drain_step, drain_from,
  note_live,
}
use kafka_playgroud.Consumer.State.Local.Contents.{IsEngine, Changelog, Table, update, replay}

-- The records that a rebuild has applied once it returns: those of the polls up to the watermark,
-- by key, where an end-of-partition notice is passed over.
abbrev pub keyed : Option Bytes → Option Bytes → Changelog
keyed (some (utf8 k)) v = (k, v) ∷ []
keyed _ v = []

unfoldable pub applied : ℕ → ℕ → List Poll → Changelog
applied high next [] = []
applied high next (nothing ∷ ps) = []
applied high next (poll_error _ ∷ ps) =
    let rest = applied high next ps in if ltb next high then rest else []
applied high next (record_at offset key v ∷ ps) =
    let rest = applied high (offset + 1) ps in if ltb next high then keyed key v ++ rest else []

-- the offset that a drain of the polls stops at
unfoldable pub reached : ℕ → ℕ → List Poll → ℕ
reached high next [] = next
reached high next (nothing ∷ ps) = next
reached high next (poll_error _ ∷ ps) =
    let rest = reached high next ps in if ltb next high then rest else next
reached high next (record_at offset key v ∷ ps) =
    let rest = reached high (offset + 1) ps in if ltb next high then rest else next

pub replay_cong :
    (t u : Table) (log : Changelog) (j : String)
    → ((i : String) → t i ≡ u i)
    → replay t log j ≡ replay u log j
unfolding replay
replay_cong t u [] j h = h j
replay_cong t u ((k, v) ∷ log) j h =
    replay_cong (update t k v) (update u k v) log j (λ i. ground (arith, h i))

module _ {D : Type 0} (env : LocalEnv D) (content : D → ℕ → String → Option Bytes)
    (laws : IsEngine env.engine content) where
  apply_record_lem :
      (p q : ℕ) (k j : String) (v : Option Bytes) (s : Local D) (t : Trace)
      → (apply_record env p k v (s, t)).0 ≡ ok tt
      → (content (apply_record env p k v (s, t)).1.0.disk q j
          ≡ (if nat_eq.beq p q && string_eq.beq k j then v else content s.disk q j))
        × ((apply_record env p k v (s, t)).1.1 ≡ t)
  unfolding apply_record
  apply_record_lem p q k j none s t h = elim (Option-cases (env.engine.get s.disk p k)) [
    | inl failed ↦ absurd (ground arith)
    | inr (none, e) ↦ (
      ground (arith, laws.get_content s.disk p k none e, nat_eq.beq_iff p q, string_eq.beq_iff k j),
      ground arith,
    )
    | inr (some b, e) ↦ elim (Option-cases (env.engine.del s.disk p k)) [
      | inl failed ↦ absurd (ground arith)
      | inr (d, removed) ↦ (ground (arith, laws.del_content s.disk d p q k j removed), ground arith)
    ]
  ]
  apply_record_lem p q k j (some v) s t h = elim (Option-cases (env.engine.put s.disk p k v)) [
    | inl failed ↦ absurd (ground arith)
    | inr (d, e) ↦ (ground (arith, laws.put_content s.disk d p q k j v e), ground arith)
  ]

  -- one record, from the round of `_drain` that ended well
  round_lem :
      (p high offset next records : ℕ) (key v : Option Bytes) (ps : List Poll) (live : List String)
      (s : Local D) (t : Trace) (out : ℕ × List String)
      → (drain_step env p
          (record_at offset key v)
          (drain_from env p high ps)
          next
          records
          live
          (s, t)).0
        ≡ ok out
      → (k : String) × (key ≡ some (utf8 k))
        × ((apply_record env p k v (s, t)).0 ≡ ok tt)
        × (drain_step env p
              (record_at offset key v)
              (drain_from env p high ps)
              next
              records
              live
              (s, t)
            ≡ drain_from env p high ps
                (offset + 1)
                (records + 1)
                (note_live k v live)
                (apply_record env p k v (s, t)).1)
  round_lem p high offset next records none v ps live s t out h = absurd (ground arith)
  round_lem p high offset next records (some (raw b)) v ps live s t out h = absurd (ground arith)
  round_lem p high offset next records (some (utf8 k)) v ps live s t out h =
      let (_, done, rest) = bind-ok (apply_record env p k v) _ (s, t) h in (k, refl, done, rest)

  -- Over an engine that keeps its laws, a drain that returns has reached the watermark, and has replayed the polled records, and no
  -- other, over the partition's table; it has changed no other partition's.
  pub drain_from_ok :
      (p high : ℕ) (polls : List Poll) (next records : ℕ) (live : List String) (s : Local D)
      (t : Trace) (out : ℕ × List String)
      → (drain_from env p high polls next records live (s, t)).0 ≡ ok out
      → ((q : ℕ) (j : String)
          → content (drain_from env p high polls next records live (s, t)).1.0.disk q j ≡ (
              if nat_eq.beq p q
              then replay (content s.disk p) (applied high next polls) j
              else content s.disk q j))
        × (high ≤ reached high next polls)
  unfolding drain_from applied reached replay
  drain_from_ok p high [] next records live s t out h =
      (λ q j. ground (arith, nat_eq.beq_iff p q), ground arith)
  drain_from_ok p high (nothing ∷ ps) next records live s t out h =
      (λ q j. ground (arith, nat_eq.beq_iff p q), ground arith)
  drain_from_ok p high (poll_error ErrorCode.partition_eof ∷ ps) next records live s t out h =
      elim (Bool-cases (ltb next high)) [
        | inl more ↦
            let again = drain_from_ok p high ps next records live s t out (ground arith) in
            (λ q j. ground (arith, again.0 q j), ground (arith, again.1))
        | inr end ↦ (λ q j. ground (arith, nat_eq.beq_iff p q), ground arith)
      ]
  drain_from_ok p high (poll_error _ ∷ ps) next records live s t out h =
      (λ q j. ground (arith, nat_eq.beq_iff p q), ground arith)
  drain_from_ok p high (record_at offset key v ∷ ps) next records live s t out h =
      elim (Bool-cases (ltb next high)) [
        | inl more ↦
            let (k, e, done, rest) =
              round_lem p high offset next records key v ps live s t out (ground arith) in
            let st = (apply_record env p k v (s, t)).1 in
            let again =
              drain_from_ok p high ps (offset + 1) (records + 1) (note_live k v live) st.0 st.1 out
                (ground arith) in
            (
              λ q j. ground (
                arith,
                again.0 q j,
                apply_record_lem p q k j v s t done,
                e,
                rest,
                more,
                replay_cong (content st.0.disk p) (update (content s.disk p) k v)
                    (applied high (offset + 1) ps) j
                    (λ i. ground (arith, apply_record_lem p p k i v s t done, beq_refl p)),
              ),
              ground (arith, again.1),
            )
        | inr end ↦ (λ q j. ground (arith, nat_eq.beq_iff p q), ground arith)
      ]
