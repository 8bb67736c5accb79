-- ===== src/Producer/Orders.antt =====
-- src/order_service/producer/orders.py: the order aggregate and its store. Each method of
-- `OrderStore` runs under the store's lock, so that it is one step: a function of the whole dict.
pub mod Methods
pub mod Interleaving
mod Tests
use kafka_playgroud.Prelude.{
  ℕ, ◌+◌, Bool, true, false, not, ◌&&◌, Option, none, some, List, String, Result, ok, err,
  if◌then◌else◌, string_eq,
}
use kafka_playgroud.Prelude.Action.{Action}
use kafka_playgroud.Dict.{Dict, lookup, insert, erase}
use kafka_playgroud.Events.{
  EventType, OrderState, OrderItem, PaymentInfo, OrderCreatedPayload, resulting_state,
  expected_next_event, is_legal_transition,
}

pub record Order : Type 0 where
  pub order_id : String
  pub customer_id : String
  pub items : List OrderItem
  pub total_amount : ℕ
  pub payment : PaymentInfo
  pub state : OrderState
  pub last_sequence : ℕ

-- The exceptions, without their texts.
pub data OrderError : Type 0 where
  unknown_order : String → OrderError
  illegal_transition : String → OrderState → EventType → Option EventType → OrderError

abbrev pub Orders : Type 0
Orders = Dict String Order

abbrev pub Method : Type 0 → Type 0
Method A = Action Orders OrderError A

-- `OrderStore.register`
unfoldable pub register : String → OrderCreatedPayload → Orders → Order × Orders
register order_id payload orders =
    let order : Order = record {
      order_id = order_id;
      customer_id = payload.customer_id;
      items = payload.items;
      total_amount = payload.total_amount;
      payment = payload.payment;
      state = resulting_state EventType.order_created;
      last_sequence = 1;
    } in
    (order, insert order_id order orders)

-- `OrderStore.get`
unfoldable pub get : String → Orders → Option Order
get order_id orders = lookup order_id orders

-- `OrderStore.remove`
unfoldable pub remove : String → Method Order
remove order_id orders = elim (lookup order_id orders) [
  | none ↦ (err (unknown_order order_id), orders)
  | some order ↦ (ok order, erase order_id orders)
]

-- `OrderStore.reserve` on the order that it found
unfoldable pub reserve_found : String → EventType → Bool → Order → Method ℕ
reserve_found order_id event_type force order orders =
    if not force && not (is_legal_transition event_type (some order.state))
    then (
      err (
          illegal_transition order_id order.state event_type
            (expected_next_event (some order.state))),
      orders,
    )
    else (
      ok (order.last_sequence + 1),
      insert order_id (record order { last_sequence = order.last_sequence + 1 }) orders,
    )

-- `OrderStore.reserve`
unfoldable pub reserve : String → EventType → Bool → Method ℕ
unfolding reserve_found
reserve order_id event_type force orders = elim (lookup order_id orders) [
  | none ↦ (err (unknown_order order_id), orders)
  | some order ↦ reserve_found order_id event_type force order orders
]

-- `OrderStore.commit` on the order that it found
unfoldable pub commit_found : String → EventType → Bool → Order → Method Order
commit_found order_id event_type force order orders =
    if force && not (is_legal_transition event_type (some order.state))
    then (ok order, orders)
    else let advanced : Order = record order { state = resulting_state event_type } in
      (ok advanced, insert order_id advanced orders)

-- `OrderStore.commit`
unfoldable pub commit : String → EventType → Bool → Method Order
unfolding commit_found
commit order_id event_type force orders = elim (lookup order_id orders) [
  | none ↦ (err (unknown_order order_id), orders)
  | some order ↦ commit_found order_id event_type force order orders
]
