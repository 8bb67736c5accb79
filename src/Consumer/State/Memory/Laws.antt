-- ===== src/Consumer/State/Memory/Laws.antt =====
-- The memory backend as a table of folds by partition and order.
use kafka_playgroud.Prelude.{
  ℕ, ◌≡◌, ◌&&◌, none, some, String, arith, nat_eq, string_eq, pair_eq, if◌then◌else◌, Option-cases,
  inl, inr, refl, List, [], ◌∷◌, contains,
}
use kafka_playgroud.Dict.{lookup, insert, erase}
use kafka_playgroud.Dict.Laws.{lookup-insert, lookup-erase}
use kafka_playgroud.Consumer.State.Protocol.{OrderFold}
use kafka_playgroud.Consumer.State.Memory.{
  Memory, load, save, delete, folds_of, or_empty, forget, drop_partition,
}

-- A save is read back under its partition and order, and changes no other fold.
pub load-save :
    (p q : ℕ) (id j event_id : String) (fold : OrderFold) (s : Memory)
    → load q j (save p id fold event_id s).1
      ≡ (if nat_eq.beq p q && string_eq.beq id j then some fold else load q j s)
unfolding load save folds_of
load-save p q id j event_id fold s = ground (
  arith,
  lookup-insert p q (insert id fold (or_empty (lookup p s.folds))) s.folds,
  lookup-insert id j fold (or_empty (lookup p s.folds)),
  nat_eq.beq_iff p q,
)

-- A delete empties its partition's place for the order, and changes no other fold.
pub load-delete :
    (p q : ℕ) (id j : String) (s : Memory)
    → load q j (delete p id s).1
      ≡ (if nat_eq.beq p q && string_eq.beq id j then none else load q j s)
unfolding load delete folds_of lookup
load-delete p q id j s = elim (Option-cases (lookup p s.folds)) [
  | inl missing ↦ ground (arith, missing, nat_eq.beq_iff p q)
  | inr (d, e) ↦
      ground
        (arith, e, lookup-insert p q (erase id d) s.folds, lookup-erase id j d, nat_eq.beq_iff p q)
]

-- Forgetting partitions empties their places, and changes no other fold.
pub load-forget :
    (ps : List ℕ) (q : ℕ) (j : String) (s : Memory)
    → load q j (forget ps s) ≡ (if contains q ps then none else load q j s)
unfolding load forget folds_of lookup
load-forget [] q j s = refl
load-forget (p ∷ ps) q j s =
    let left : Memory = record { folds = erase p s.folds; handled = drop_partition p s.handled } in
    ground (
      arith,
      load-forget ps q j left,
      lookup-erase p q s.folds,
      nat_eq.beq_iff p q,
      nat_eq.beq_iff q p,
    )
