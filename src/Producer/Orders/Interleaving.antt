-- ===== src/Producer/Orders/Interleaving.antt =====
-- Requests run in worker threads, so that the steps of `reserve` and `commit` of many requests
-- interleave at will; the lock makes each method one step. What sequences are then handed out.
pub mod Numbers
pub mod Races
use kafka_playgroud.Prelude.{
  ℕ, ◌+◌, ◌≤◌, ◌<◌, ◌≡◌, refl, Bool, true, false, Option, none, some, List, [], ◌∷◌, String, Result,
  ok, err, arith, contains, string_eq, nat_eq, pair_eq,
}
use kafka_playgroud.Events.{EventType, OrderCreatedPayload}
use kafka_playgroud.Producer.Orders.{
  Order, Orders, OrderError, register, get, remove, reserve, commit,
}

-- The store, and every number that was handed out: with an order's creation, or by `reserve`.
pub record System : Type 0 where
  pub orders : Orders
  pub issued : List (String × ℕ)

abbrev pub start : System
start = record { orders = []; issued = [] }

-- One method call of some request. An id is new when its order is registered; no order to commit
-- has to be reserved first.
pub data Step : System → System → Type 0 where
  registers :
      {s : System} (id : String) (p : OrderCreatedPayload)
      → ((n : ℕ) → contains (id, n) s.issued ≡ false)
      → Step s (record { orders = (register id p s.orders).1; issued = (id, 1) ∷ s.issued })
  reserves :
      {s : System} (id : String) (e : EventType) (force : Bool) (n : ℕ)
      → (reserve id e force s.orders).0 ≡ ok n
      → Step s (record { orders = (reserve id e force s.orders).1; issued = (id, n) ∷ s.issued })
  refuses :
      {s : System} (id : String) (e : EventType) (force : Bool) (x : OrderError)
      → (reserve id e force s.orders).0 ≡ err x
      → Step s (record s { orders = (reserve id e force s.orders).1 })
  commits :
      {s : System} (id : String) (e : EventType) (force : Bool)
      → Step s (record s { orders = (commit id e force s.orders).1 })
  removes : {s : System} (id : String) → Step s (record s { orders = (remove id s.orders).1 })

pub data Reach : System → Type 0 where
  here : Reach start
  next : {s t : System} → Reach s → Step s t → Reach t

-- No pair stands in the list twice.
abbrev pub Distinct : List (String × ℕ) → Type 0
Distinct [] = Unit
Distinct (x ∷ xs) = (contains x xs ≡ false) × Distinct xs

-- Every number was handed out once, and an order's numbers are 1 up to its last, with no gap.
pub record IsSequenced (s : System) : Type 0 where
  pub distinct : Distinct s.issued
  pub bounded :
      (id : String) (n : ℕ) (o : Order)
      → contains (id, n) s.issued ≡ true
      → get id s.orders ≡ some o
      → (1 ≤ n) × (n ≤ o.last_sequence)
  pub gapless :
      (id : String) (n : ℕ) (o : Order)
      → get id s.orders ≡ some o
      → 1 ≤ n
      → n ≤ o.last_sequence
      → contains (id, n) s.issued ≡ true
