-- ===== src/Consumer/State/Memory.antt =====
-- `MemoryStateStore`: it neither raises nor touches the trace.
pub mod Laws
use kafka_playgroud.Prelude.{
  ℕ, ◌+◌, Bool, true, false, Option, none, some, List, [], ◌∷◌, String, Result, ok, err, nat_eq,
  string_eq, pair_eq, contains, if◌then◌else◌, map, sorted_set,
}
use kafka_playgroud.Prelude.Action.{Action}
use kafka_playgroud.Dict.{Dict, lookup, insert, erase, keys}
use kafka_playgroud.Consumer.State.Protocol.{OrderFold, SaveOutcome, StateStore}

pub record Memory : Type 0 where
  pub folds : Dict ℕ (Dict String OrderFold)
  pub handled : Dict (ℕ × String) ℕ

abbrev pub empty : Memory
empty = record { folds = []; handled = [] }

abbrev pub or_empty : Option (Dict String OrderFold) → Dict String OrderFold
or_empty none = []
or_empty (some d) = d

abbrev pub or_zero : Option ℕ → ℕ
or_zero none = 0
or_zero (some n) = n

-- `self._folds.get(partition, {})`
unfoldable pub folds_of : ℕ → Memory → Dict String OrderFold
folds_of p s = or_empty (lookup p s.folds)

unfoldable pub load : ℕ → String → Memory → Option OrderFold
unfolding folds_of
load p order_id s = lookup order_id (folds_of p s)

unfoldable pub save : ℕ → String → OrderFold → String → Memory → SaveOutcome × Memory
unfolding folds_of
save p order_id fold event_id s =
    let handled = or_zero (lookup (p, order_id) s.handled) + 1 in
    (
      record { applied = true; handled_count = handled },
      record {
        folds = insert p (insert order_id fold (folds_of p s)) s.folds;
        handled = insert (p, order_id) handled s.handled;
      },
    )

abbrev is_some : Option OrderFold → Bool
is_some none = false
is_some (some _) = true

-- What `pop` leaves behind: a partition that is not held stays so.
abbrev pop_fold : ℕ → String → Memory → Dict ℕ (Dict String OrderFold)
pop_fold p order_id s = elim (lookup p s.folds) [
  | none ↦ s.folds
  | some d ↦ insert p (erase order_id d) s.folds
]

unfoldable pub delete : ℕ → String → Memory → Bool × Memory
unfolding folds_of
delete p order_id s = (
  is_some (lookup order_id (folds_of p s)),
  record { folds = pop_fold p order_id s; handled = erase (p, order_id) s.handled },
)

-- the counts whose partition is another
unfoldable pub drop_partition : ℕ → Dict (ℕ × String) ℕ → Dict (ℕ × String) ℕ
drop_partition p [] = []
drop_partition p ((k, n) ∷ d) =
    let rest = drop_partition p d in if nat_eq.beq k.0 p then rest else (k, n) ∷ rest

-- the loop of `forget`; a partition that comes twice finds nothing the second time
unfoldable pub forget : List ℕ → Memory → Memory
unfolding drop_partition
forget [] s = s
forget (p ∷ ps) s =
    forget ps (record { folds = erase p s.folds; handled = drop_partition p s.handled })

-- `discard` is `forget` on this backend.
unfoldable pub discard : List ℕ → Memory → Memory
unfolding forget
discard = forget

-- `held`; a dict's keys are distinct, so that sorting them drops none
unfoldable pub held : Memory → List ℕ
held s = sorted_set (keys s.folds)

-- The backend behind the protocol: `restore` and `flush` do nothing.
abbrev pub memory_store : StateStore Memory
memory_store = record {
  load = λ p id st. (ok (load p id st.0), st);
  save = λ p id fold event_id st.
      let (outcome, s) = save p id fold event_id st.0 in (ok outcome, (s, st.1));
  delete = λ p id st. let (removed, s) = delete p id st.0 in (ok removed, (s, st.1));
  restore = λ ps st. (ok tt, st);
  flush = λ st. (ok tt, st);
  forget = λ ps st. (ok tt, (forget ps st.0, st.1));
  discard = λ ps st. (ok tt, (discard ps st.0, st.1));
  held = held;
}
