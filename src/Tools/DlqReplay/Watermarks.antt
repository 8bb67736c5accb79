-- ===== src/Tools/DlqReplay/Watermarks.antt =====
-- `snapshot_topic` of the replay tool: where each partition starts and ends.
use kafka_playgroud.Prelude.{
  ℕ, ◌+◌, ◌≡◌, ◌<◌, ◌≤◌, ◌-◌, length, refl, ap, ◌∙◌, inl, inr, some, List, [], ◌∷◌, ◌++◌, String,
  arith, All, nat_eq, ltb, leb, Bool-cases, Option-cases, if◌then◌else◌, sorted_set,
}
use kafka_playgroud.Dict.{Dict, lookup, insert}
use kafka_playgroud.Dict.Laws.{lookup-insert, lookup-insert_self}
use kafka_playgroud.Tools.DlqReplay.{
  Cluster, Snapshot, snapshot_topic, add_partitions, message_count, count_from, empty_snapshot,
}

some_inj : {s s' : Snapshot} → some s ≡ some s' → s ≡ s'
some_inj e = cc

All-append {ℓ κ} :
    {A : Type ℓ} (P : A → Type κ) (xs ys : List A) → All P xs → All P ys → All P (xs ++ ys)
All-append P [] ys h k = k
All-append P (x ∷ xs) ys h k = (h.0, All-append P xs ys h.1 k)

module _ (cluster : Cluster) (topic : String) where
  -- An assignment starts at its partition's low watermark, which is below the high one, where it ends.
  abbrev pub IsTaken : Dict ℕ ℕ → ℕ × ℕ → Type 0
  IsTaken ends (p, low) =
      (high : ℕ) × (lookup p ends ≡ some high)
      × (low < high)
      × (cluster.watermarks topic p ≡ some (low, high))

  same_high :
      {p q low high low' high' : ℕ}
      → p ≡ q
      → cluster.watermarks topic p ≡ some (low, high)
      → cluster.watermarks topic q ≡ some (low', high')
      → high' ≡ high
  same_high same e e' = cc

  IsTaken-insert :
      (ends : Dict ℕ ℕ) (p low high : ℕ)
      → cluster.watermarks topic p ≡ some (low, high)
      → (a : ℕ × ℕ) → IsTaken ends a
      → IsTaken (insert p high ends) a
  IsTaken-insert ends p low high e (q, low') (high', found, less, e') =
      elim (Bool-cases (nat_eq.beq p q)) [
        | inl same ↦
            let one = same_high ((nat_eq.beq_iff p q).0 same) e e' in
            (
              high,
              ground (arith, same, lookup-insert p q high ends),
              omega arith,
              e' ∙ ap (λ h. some (low', h)) one,
            )
        | inr other ↦ (high', ground (arith, other, found, lookup-insert p q high ends), less, e')
      ]

  All-IsTaken-insert :
      (ends : Dict ℕ ℕ) (p low high : ℕ)
      → cluster.watermarks topic p ≡ some (low, high)
      → (xs : List (ℕ × ℕ)) → All (IsTaken ends) xs
      → All (IsTaken (insert p high ends)) xs
  All-IsTaken-insert ends p low high e [] h = tt
  All-IsTaken-insert ends p low high e (a ∷ xs) h =
      (IsTaken-insert ends p low high e a h.0, All-IsTaken-insert ends p low high e xs h.1)

  add_partitions-IsTaken :
      (ps : List ℕ) (s s' : Snapshot)
      → All (IsTaken s.end_offsets) s.assignments
      → add_partitions cluster topic s ps ≡ some s'
      → All (IsTaken s'.end_offsets) s'.assignments
  unfolding add_partitions
  add_partitions-IsTaken [] s s' h e = rw (← some_inj e) h
  add_partitions-IsTaken (p ∷ ps) s s' h e = elim (Option-cases (cluster.watermarks topic p)) [
    | inl missing ↦ absurd (ground (arith, missing))
    | inr ((low, high), found) ↦ elim (Bool-cases (leb high low)) [
      | inl blank ↦ add_partitions-IsTaken ps s s' h (ground (arith, found, blank))
      | inr filled ↦
          let v : Snapshot = record {
            assignments = s.assignments ++ (p, low) ∷ [];
            end_offsets = insert p high s.end_offsets;
          } in
          add_partitions-IsTaken ps v s'
            (All-append (IsTaken v.end_offsets) s.assignments ((p, low) ∷ [])
              (All-IsTaken-insert s.end_offsets p low high found s.assignments h)
              ((high, lookup-insert_self p high s.end_offsets, ground (arith, filled), found), tt))
            (ground (arith, found, filled))
    ]
  ]

  count_taken :
      (ends : Dict ℕ ℕ) (xs : List (ℕ × ℕ))
      → All (IsTaken ends) xs
      → (n : ℕ) × (count_from ends xs ≡ some n) × (length xs ≤ n)
  unfolding count_from
  count_taken ends [] h = (0, refl, omega arith)
  count_taken ends ((p, low) ∷ xs) ((high, found, less, e), h) =
      let (n, rest, more) = count_taken ends xs h in
      ((if ltb low high then high - low else 0) + n, ground (arith, found, rest), ground arith)

  -- In a snapshot each partition starts at its low watermark and ends at its high one, which is
  -- later; so the count of messages is defined, and every partition has a part in it.
  pub snapshot_topic-IsTaken :
      (s : Snapshot)
      → snapshot_topic cluster topic ≡ some s
      → All (IsTaken s.end_offsets) s.assignments
        × ((n : ℕ) × (message_count s ≡ some n) × (length s.assignments ≤ n))
  unfolding snapshot_topic message_count
  snapshot_topic-IsTaken s e = elim (Option-cases (cluster.partitions topic)) [
    | inl missing ↦ absurd (ground (arith, missing))
    | inr (ps, found) ↦
        let taken =
          add_partitions-IsTaken (sorted_set ps) empty_snapshot s tt (ground (arith, found)) in
        (taken, count_taken s.end_offsets s.assignments taken)
  ]
