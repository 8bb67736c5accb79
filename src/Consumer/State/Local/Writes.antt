-- ===== src/Consumer/State/Local/Writes.antt =====
-- `_store_for`, `_read`, `_publish` and `_write` of the local store.
use kafka_playgroud.Prelude.{
  ℕ, ◌≡◌, refl, inl, inr, ◌&&◌, Option, none, some, [], ◌∷◌, ◌++◌, String, arith, nat_eq, string_eq,
  if◌then◌else◌, ok, err, Option-cases, beq_refl,
}
use mathlib.Core.List.{append-nil}
use kafka_playgroud.Prelude.Action.{bind-ok}
use kafka_playgroud.Prelude.Json.{Bytes}
use kafka_playgroud.Consumer.Broker.{Exc, Trace}
use kafka_playgroud.Consumer.State.Record.{Record, decode}
use kafka_playgroud.Consumer.State.Local.{
  Local, LocalEnv, store_for, read, write, publish, topic, decoded,
}
use kafka_playgroud.Consumer.State.Local.Contents.{IsEngine, changelog_of, changelog_of-emit}

module _ {D : Type 0} (env : LocalEnv D) where
  -- Publishing leaves the disk and the open stores alone; it ends well exactly when the record is
  -- the one new record of the changelog, and else the changelog is as it was.
  pub publish_lem :
      (p : ℕ) (id : String) (v : Option Bytes) (s : Local D) (t : Trace)
      → ((publish env p id v (s, t)).1.0.disk ≡ s.disk)
        × ((publish env p id v (s, t)).1.0.stores ≡ s.stores)
        × ((publish env p id v (s, t)).0 ≡ ok tt
            → changelog_of (topic env) (publish env p id v (s, t)).1.1
              ≡ changelog_of (topic env) t ++ (id, v) ∷ [])
        × ((x : Exc)
            → (publish env p id v (s, t)).0 ≡ err x
            → changelog_of (topic env) (publish env p id v (s, t)).1.1 ≡ changelog_of (topic env) t)
  unfolding publish
  publish_lem p id v s t = (
    ground arith,
    ground arith,
    λ h. grind (arith, changelog_of-emit, append-nil, beq_refl (topic env)),
    λ x h. grind (arith, changelog_of-emit, append-nil, beq_refl (topic env)),
  )

module _ {D : Type 0} (env : LocalEnv D) (content : D → ℕ → String → Option Bytes)
    (laws : IsEngine env.engine content) where
  -- Opening a store changes neither a table nor the trace.
  pub store_for_lem :
      (p q : ℕ) (j : String) (s : Local D) (t : Trace)
      → (content (store_for env p (s, t)).1.0.disk q j ≡ content s.disk q j)
        × ((store_for env p (s, t)).1.1 ≡ t)
  unfolding store_for
  store_for_lem p q j s t = (grind (arith, laws.open_content), ground arith)

  -- A read changes neither a table nor the trace.
  pub read_keeps :
      (p q : ℕ) (id j : String) (s : Local D) (t : Trace)
      → (content (read env p id (s, t)).1.0.disk q j ≡ content s.disk q j)
        × ((read env p id (s, t)).1.1 ≡ t)
  unfolding read
  read_keeps p q id j s t =
      (ground (arith, store_for_lem p q j s t), ground (arith, store_for_lem p q j s t))

  decoded-none :
      (id : String) (g : Option (Option Bytes)) → decoded env id g ≡ ok none → g ≡ some none
  decoded-none id none h = cc
  decoded-none id (some none) h = refl
  decoded-none id (some (some b)) h = ground arith

  decoded-some :
      (id : String) (g : Option (Option Bytes)) (r : Record)
      → decoded env id g ≡ ok (some r)
      → (b : Bytes) × (g ≡ some (some b)) × (decode env.codec id b ≡ ok r)
  decoded-some id none r h = cc
  decoded-some id (some none) r h = cc
  decoded-some id (some (some b)) r h = (b, refl, ground arith)

  -- A read that finds nothing read an empty place.
  pub read-none :
      (p : ℕ) (id : String) (s : Local D) (t : Trace)
      → (read env p id (s, t)).0 ≡ ok none
      → content s.disk p id ≡ none
  unfolding read
  read-none p id s t h =
      let (_, _, rest) = bind-ok (store_for env p) _ (s, t) h in
      let d = (store_for env p (s, t)).1.0.disk in
      let e = decoded-none id (env.engine.get d p id) (cc (rest, h)) in
      cc (laws.get_content d p id none e, (store_for_lem p p id s t).0)

  -- A read that finds a record decoded it from the bytes at its place.
  pub read-some :
      (p : ℕ) (id : String) (s : Local D) (t : Trace) (r : Record)
      → (read env p id (s, t)).0 ≡ ok (some r)
      → (b : Bytes) × (content s.disk p id ≡ some b) × (decode env.codec id b ≡ ok r)
  unfolding read
  read-some p id s t r h =
      let (_, _, rest) = bind-ok (store_for env p) _ (s, t) h in
      let d = (store_for env p (s, t)).1.0.disk in
      let (b, e, dec) = decoded-some id (env.engine.get d p id) r (cc (rest, h)) in
      (b, cc (laws.get_content d p id (some b) e, (store_for_lem p p id s t).0), dec)

  -- A write that ends well has put the value under its key, and nothing else, into the table, and
  -- the same bytes at the end of the changelog.
  pub write_lem :
      (p q : ℕ) (id j : String) (v : Bytes) (s : Local D) (t : Trace)
      → (write env p id v (s, t)).0 ≡ ok tt
      → (content (write env p id v (s, t)).1.0.disk q j
          ≡ (if nat_eq.beq p q && string_eq.beq id j then some v else content s.disk q j))
        × (changelog_of (topic env) (write env p id v (s, t)).1.1
            ≡ changelog_of (topic env) t ++ (id, some v) ∷ [])
  unfolding write
  write_lem p q id j v s t h =
      let (_, _, rest) = bind-ok (store_for env p) _ (s, t) h in
      let s₁ = (store_for env p (s, t)).1.0 in
      let opened = store_for_lem p q j s t in
      elim (Option-cases (env.engine.put s₁.disk p id v)) [
        | inl failed ↦ absurd (ground arith)
        | inr (d, e) ↦
            let put = laws.put_content s₁.disk d p q id j v e in
            let done =
              publish_lem env p id (some v) (record s₁ { disk = d }) (store_for env p (s, t)).1.1 in
            (ground arith, ground arith)
      ]
