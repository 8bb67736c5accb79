-- ===== src/Producer/Orders/Interleaving/Races.antt =====
-- `reserve` and `commit` of requests for the same order that overlap.
use kafka_playgroud.Prelude.{◌+◌, ◌≡◌, refl, true, false, some, String, arith, string_eq}
use kafka_playgroud.Dict.Laws.{lookup-insert_self}
use kafka_playgroud.Events.{EventType, OrderState, resulting_state, is_legal_transition}
use kafka_playgroud.Producer.Orders.{Order, Orders, get, reserve, commit}

-- The steps of three requests for one order: two ask for `SHIPPED`, the first of them commits, a
-- third takes the order to `DELIVERED`, and the second `SHIPPED` commits last.
abbrev pub late_commit : String → Orders → Orders
late_commit id orders =
    let a = (reserve id EventType.shipped false orders).1 in
    let b = (reserve id EventType.shipped false a).1 in
    let c = (commit id EventType.shipped false b).1 in
    let d = (reserve id EventType.delivered false c).1 in
    let e = (commit id EventType.delivered false d).1 in (commit id EventType.shipped false e).1

get-commit_self :
    (id : String) (e : EventType) (orders : Orders) (o : Order)
    → get id orders ≡ some o
    → get id (commit id e false orders).1 ≡ some (record o { state = resulting_state e })
unfolding commit get
get-commit_self id e orders o h =
    ground (arith, lookup-insert_self id (record o { state = resulting_state e }) orders)

get-reserve_self :
    (id : String) (e : EventType) (orders : Orders) (o : Order)
    → get id orders ≡ some o
    → is_legal_transition e (some o.state) ≡ true
    → get id (reserve id e false orders).1 ≡ some (record o { last_sequence = o.last_sequence + 1 })
unfolding reserve get
get-reserve_self id e orders o h l =
    ground (arith, lookup-insert_self id (record o { last_sequence = o.last_sequence + 1 }) orders)

-- From a packed order, with no step forced, those three requests leave the order recorded as
-- `SHIPPED` after it was `DELIVERED`, and three numbers are spent.
pub late_commit_regresses :
    (id : String) (orders : Orders) (o : Order)
    → get id orders ≡ some o
    → o.state ≡ OrderState.packed
    → get id (late_commit id orders)
      ≡ some (record o { state = OrderState.shipped; last_sequence = o.last_sequence + 1 + 1 + 1 })
unfolding is_legal_transition resulting_state
late_commit_regresses id orders o h packed =
    let a = get-reserve_self id EventType.shipped orders o h (rw packed) in
    let b = get-reserve_self id EventType.shipped _ _ a (rw packed) in
    let c = get-commit_self id EventType.shipped _ _ b in
    let d = get-reserve_self id EventType.delivered _ _ c refl in
    let e = get-commit_self id EventType.delivered _ _ d in
    get-commit_self id EventType.shipped _ _ e
