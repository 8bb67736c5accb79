-- ===== src/Consumer/State/Local/Save.antt =====
-- `save` and `delete` of the local store: the sequence guard, the table and the changelog.
use kafka_playgroud.Prelude.{
  ℕ, ◌≡◌, refl, inl, inr, Bool, true, false, ◌&&◌, Option, none, some, [], ◌∷◌, ◌++◌, String, arith,
  nat_eq, string_eq, if◌then◌else◌, ok, Option-cases, Bool-cases, ltb,
}
use kafka_playgroud.Prelude.Action.{bind-ok}
use kafka_playgroud.Prelude.Json.{Bytes, Json, str}
use kafka_playgroud.Consumer.Broker.{Trace}
use kafka_playgroud.Consumer.State.Protocol.{OrderFold, SaveOutcome}
use kafka_playgroud.Consumer.State.Record.{Record, encode, decode}
use kafka_playgroud.Consumer.State.Local.{
  Local, LocalEnv, store_for, read, write, save, delete, next_record, topic, count_of, sequence_of,
}
use kafka_playgroud.Consumer.State.Local.Contents.{IsEngine, changelog_of}
use kafka_playgroud.Consumer.State.Local.Writes.{
  publish_lem, store_for_lem, read_keeps, read-none, read-some, write_lem,
}

module _ {D : Type 0} (env : LocalEnv D) where
  -- What was stored for an order before a call: nothing, or bytes that decode to a record.
  abbrev pub Stored : Option Bytes → String → Option Record → Type 0
  Stored place id none = place ≡ none
  Stored place id (some r) = (b : Bytes) × (place ≡ some b) × (decode env.codec id b ≡ ok r)

  -- The fold that the sequence guard lets stand: the new one only where it is the first or has the
  -- larger sequence.
  abbrev pub guarded : Option Record → OrderFold → OrderFold
  guarded none fold = fold
  guarded (some r) fold = if ltb r.fold.last_sequence fold.last_sequence then fold else r.fold

  -- the id of the event that the fold is from
  abbrev pub guarded_id : Option Record → OrderFold → String → Json
  guarded_id none fold event_id = str event_id
  guarded_id (some r) fold event_id =
      if ltb r.fold.last_sequence fold.last_sequence then str event_id else r.last_event_id

  -- what `save` makes of the record before
  abbrev pub Follows : Option Record → OrderFold → String → Record → Type 0
  Follows previous fold event_id r =
      (r.fold ≡ guarded previous fold)
      × (r.last_event_id ≡ guarded_id previous fold event_id)
      × (r.handled_count ≡ count_of env previous)

  next_record-Follows :
      (previous : Option Record) (fold : OrderFold) (event_id : String)
      → Follows previous fold event_id (next_record env previous fold event_id)
  unfolding next_record
  next_record-Follows none fold event_id = (refl, refl, refl)
  next_record-Follows (some r) fold event_id =
      elim (Bool-cases (ltb r.fold.last_sequence fold.last_sequence)) [
        | inl later ↦ (rw later refl, rw later refl, rw later refl)
        | inr earlier ↦ (rw earlier refl, rw earlier refl, rw earlier refl)
      ]

module _ {D : Type 0} (env : LocalEnv D) (content : D → ℕ → String → Option Bytes)
    (laws : IsEngine env.engine content) where
  read-Stored :
      (p : ℕ) (id : String) (s : Local D) (t : Trace) (found : Option Record)
      → (read env p id (s, t)).0 ≡ ok found
      → Stored env (content s.disk p id) id found
  read-Stored p id s t none h = read-none env content laws p id s t h
  read-Stored p id s t (some r) h = read-some env content laws p id s t r h

  -- Over an engine that keeps its laws, a save that ends well read what was stored
  -- and wrote one record under the order's key and nothing else: with the new fold and the event's id
  -- where the fold is the order's first or has a larger sequence than the stored one, with the stored
  -- fold and id otherwise, and with one delivery more. It put the same bytes at the end of the
  -- changelog, and reports whether the fold advanced and how many deliveries were handled.
  pub save_lem :
      (p : ℕ) (id : String) (fold : OrderFold) (event_id : String) (s : Local D) (t : Trace)
      (out : SaveOutcome)
      → (save env p id fold event_id (s, t)).0 ≡ ok out
      → (previous : Option Record) × (r : Record) × Stored env (content s.disk p id) id previous
        × Follows env previous fold event_id r
        × ((q : ℕ) (j : String)
            → content (save env p id fold event_id (s, t)).1.0.disk q j ≡ (
                if nat_eq.beq p q && string_eq.beq id j
                then some (encode env.codec r)
                else content s.disk q j))
        × (changelog_of (topic env) (save env p id fold event_id (s, t)).1.1
            ≡ changelog_of (topic env) t ++ (id, some (encode env.codec r)) ∷ [])
        × (out.applied ≡ ltb (sequence_of env previous) fold.last_sequence)
        × (out.handled_count ≡ count_of env previous)
  unfolding save
  save_lem p id fold event_id s t out h =
      let (previous, got, rest) = bind-ok (read env p id) _ (s, t) h in
      let s₁ = (read env p id (s, t)).1.0 in
      let t₁ = (read env p id (s, t)).1.1 in
      let v = encode env.codec (next_record env previous fold event_id) in
      let (_, done, last) = bind-ok (write env p id v) _ (read env p id (s, t)).1 (rw rest at h) in
      (
        previous,
        next_record env previous fold event_id,
        read-Stored p id s t previous got,
        next_record-Follows env previous fold event_id,
        λ q j. ground (
          arith,
          write_lem env content laws p q id j v s₁ t₁ done,
          read_keeps env content laws p q id j s t,
        ),
        ground (
          arith,
          write_lem env content laws p p id id v s₁ t₁ done,
          read_keeps env content laws p p id id s t,
        ),
        ground arith,
        ground arith,
      )

  -- `delete` once the read of its key has answered `g`
  delete_found :
      (p : ℕ) (id : String) (s : Local D) (t : Trace) (was : Bool) (g : Option Bytes)
      → (delete env p id (s, t)).0 ≡ ok was
      → env.engine.get (store_for env p (s, t)).1.0.disk p id ≡ some g
      → ((q : ℕ) (j : String)
          → content (delete env p id (s, t)).1.0.disk q j
            ≡ (if nat_eq.beq p q && string_eq.beq id j then none else content s.disk q j))
        × (changelog_of (topic env) (delete env p id (s, t)).1.1
            ≡ changelog_of (topic env) t ++ (id, none) ∷ [])
        × (was ≡ true → (b : Bytes) × (content s.disk p id ≡ some b))
        × (was ≡ false → content s.disk p id ≡ none)
  unfolding delete
  delete_found p id s t was none h e =
      let (_, opened, rest) = bind-ok (store_for env p) _ (s, t) h in
      let s₁ = (store_for env p (s, t)).1.0 in
      let t₁ = (store_for env p (s, t)).1.1 in
      let gone = laws.get_content s₁.disk p id none e in
      let done = publish_lem env p id none s₁ t₁ in
      (
        λ q j. ground (
          arith,
          store_for_lem env content laws p q j s t,
          done,
          gone,
          nat_eq.beq_iff p q,
          string_eq.beq_iff id j,
        ),
        ground (arith, store_for_lem env content laws p p id s t, done),
        λ y. ground (arith),
        λ n. ground (arith, gone, store_for_lem env content laws p p id s t),
      )
  delete_found p id s t was (some b) h e =
      let (_, opened, rest) = bind-ok (store_for env p) _ (s, t) h in
      let s₁ = (store_for env p (s, t)).1.0 in
      let t₁ = (store_for env p (s, t)).1.1 in
      let held = laws.get_content s₁.disk p id (some b) e in
      elim (Option-cases (env.engine.del s₁.disk p id)) [
        | inl failed ↦ absurd (ground arith)
        | inr (d, removed) ↦
            let done = publish_lem env p id none (record s₁ { disk = d }) t₁ in
            (
              λ q j. ground (
                arith,
                store_for_lem env content laws p q j s t,
                done,
                laws.del_content s₁.disk d p q id j removed,
              ),
              ground (arith, store_for_lem env content laws p p id s t, done),
              λ y. (b, ground (arith, held, store_for_lem env content laws p p id s t)),
              λ n. ground arith,
            )
      ]

  -- Over an engine that keeps its laws, a delete that ends well has emptied the key's place, and no other, put a tombstone at the end
  -- of the changelog, also where there was nothing, and reports whether there was a record.
  pub delete_lem :
      (p : ℕ) (id : String) (s : Local D) (t : Trace) (was : Bool)
      → (delete env p id (s, t)).0 ≡ ok was
      → ((q : ℕ) (j : String)
          → content (delete env p id (s, t)).1.0.disk q j
            ≡ (if nat_eq.beq p q && string_eq.beq id j then none else content s.disk q j))
        × (changelog_of (topic env) (delete env p id (s, t)).1.1
            ≡ changelog_of (topic env) t ++ (id, none) ∷ [])
        × (was ≡ true → (b : Bytes) × (content s.disk p id ≡ some b))
        × (was ≡ false → content s.disk p id ≡ none)
  unfolding delete
  delete_lem p id s t was h =
      let (_, _, rest) = bind-ok (store_for env p) _ (s, t) h in
      let s₁ = (store_for env p (s, t)).1.0 in
      let t₁ = (store_for env p (s, t)).1.1 in
      elim (Option-cases (env.engine.get s₁.disk p id)) [
        | inl failed ↦ absurd (ground arith)
        | inr (g, e) ↦ delete_found p id s t was g h e
      ]
