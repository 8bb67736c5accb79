-- ===== src/Producer/Orders/Methods.antt =====
-- What each method of the store does to the order it names, and to the others.
use kafka_playgroud.Prelude.{
  ℕ, ◌+◌, ◌≡◌, Bool, true, not, ◌&&◌, ◌||◌, some, String, ok, err, arith, if◌then◌else◌, string_eq,
  ◌==◌, Option-cases, inl, inr,
}
use kafka_playgroud.Dict.{lookup}
use kafka_playgroud.Dict.Laws.{lookup-insert}
use kafka_playgroud.Events.{EventType, resulting_state, is_legal_transition}
use kafka_playgroud.Producer.Orders.{Order, Orders, OrderError, get, reserve, commit}

-- The guard of `reserve`, said once: a forced event is always allowed.
abbrev pub IsAllowed : EventType → Bool → Order → Type 0
IsAllowed e force o = (force || is_legal_transition e (some o.state)) ≡ true

-- A method that raises has changed nothing.
pub reserve_err :
    (id : String) (e : EventType) (force : Bool) (orders : Orders) {x : OrderError}
    → (reserve id e force orders).0 ≡ err x
    → (reserve id e force orders).1 ≡ orders
unfolding reserve
reserve_err id e force orders h = ground arith

-- A reservation goes through exactly when the order is known and the event is allowed; it hands
-- out the next number.
pub reserve_iff :
    (id : String) (e : EventType) (force : Bool) (orders : Orders) (n : ℕ)
    → ((reserve id e force orders).0 ≡ ok n
        → (o : Order) × (get id orders ≡ some o) × IsAllowed e force o × (n ≡ o.last_sequence + 1))
      × ((o : Order)
          → get id orders ≡ some o
          → IsAllowed e force o
          → n ≡ o.last_sequence + 1
          → (reserve id e force orders).0 ≡ ok n)
unfolding reserve get
reserve_iff id e force orders n = elim (Option-cases (lookup id orders)) [
  | inl unknown ↦ (λ h. ground arith, λ o h. ground arith)
  | inr (o, known) ↦ (λ h. (o, ground arith, ground arith, ground arith), λ o' h. ground arith)
]

-- What a lookup finds after a reservation.
pub get-reserve :
    (id j : String) (e : EventType) (force : Bool) (orders : Orders) (n : ℕ) (o : Order)
    → get id orders ≡ some o
    → (reserve id e force orders).0 ≡ ok n
    → get j (reserve id e force orders).1
      ≡ (if id == j then some (record o { last_sequence = n }) else get j orders)
unfolding reserve get
get-reserve id j e force orders n o known done =
    ground (arith, lookup-insert id j (record o { last_sequence = n }) orders)

-- What `commit` makes of an order that it finds: it takes the event's resulting state, unless the
-- event was forced past the guard.
abbrev pub committed : EventType → Bool → Order → Order
committed e force o =
    if force && not (is_legal_transition e (some o.state))
    then o
    else record o { state = resulting_state e }

-- A commit returns that order, and stores it alone.
pub commit_lem :
    (id : String) (e : EventType) (force : Bool) (orders : Orders) (o : Order)
    → get id orders ≡ some o
    → ((commit id e force orders).0 ≡ ok (committed e force o))
      × ((j : String)
          → get j (commit id e force orders).1
            ≡ (if id == j then some (committed e force o) else get j orders))
unfolding commit get
commit_lem id e force orders o known = (
  ground arith,
  λ j. ground (
    arith,
    lookup-insert id j (record o { state = resulting_state e }) orders,
    string_eq.beq_iff id j,
  ),
)
