-- ===== src/Producer/Routes.antt =====
-- src/order_service/producer/routes.py: the HTTP handlers over the store and the producer. The
-- ids, the time and pydantic are parameters. A handler's `HTTPException` is its status code.
pub mod Guards
pub mod Outcomes
pub mod Tests
use kafka_playgroud.Prelude.{
  ℕ, Bool, Option, none, some, List, [], ◌∷◌, String, Result, ok, err, pos, true, false,
}
use kafka_playgroud.Prelude.Action.{Action, ◌>>=◌, ◌>>◌, pure, raise, gets, lift, modify}
use kafka_playgroud.Prelude.Json.{
  Json, JsonCodec, Items, Fields, null, int, str, arr, obj, nil, cons, end, field,
}
use kafka_playgroud.Config.{Settings}
use kafka_playgroud.Events.{
  EventType, OrderState, PaymentMethod, OrderItem, PaymentInfo, OrderCreatedPayload, EventFields,
  LifecycleEvent, Pydantic, ValueError, item_sum, validate_order_created, validate_payload,
  validate_event, expected_next_event,
}
use kafka_playgroud.Events.Payloads.{fields_of}
use kafka_playgroud.Producer.Orders as Store
use kafka_playgroud.Producer.Orders.{Order, Orders, OrderError, unknown_order, illegal_transition}
use kafka_playgroud.Producer.Kafka.{
  Client, Wire, DeliveryResult, DeliveryError, delivery_failed, delivery_timeout, publish_and_wait,
  publish_snapshot, publish_tombstone,
}

pub data Status : Type 0 where
  not_found : Status  -- 404
  conflict : Status  -- 409
  unprocessable : Status  -- 422
  internal_error : Status  -- 500, an exception that no handler catches
  bad_gateway : Status  -- 502
  gateway_timeout : Status  -- 504

-- `app.state`: the order store, and what the producer's client has accepted.
pub record App : Type 0 where
  pub orders : Orders
  pub wire : Wire

pub record CreateOrderRequest : Type 0 where
  pub customer_id : String
  pub items : List OrderItem
  pub payment : PaymentInfo

pub record CreateOrderResponse : Type 0 where
  pub order_id : String
  pub state : OrderState
  pub total_amount : ℕ
  pub sequence : ℕ
  pub partition : ℕ
  pub offset : ℕ

pub record PublishEventRequest : Type 0 where
  pub event_type : EventType
  pub payload : Json
  pub force : Bool

pub record PublishEventResponse : Type 0 where
  pub order_id : String
  pub sequence : ℕ
  pub event_type : EventType
  pub state : OrderState
  pub partition : ℕ
  pub offset : ℕ
  pub forced : Bool

-- the texts of the `StrEnum`s
abbrev pub event_name : EventType → String
event_name EventType.order_created = "ORDER_CREATED"
event_name EventType.packed = "PACKED"
event_name EventType.shipped = "SHIPPED"
event_name EventType.delivered = "DELIVERED"

abbrev pub state_name : OrderState → String
state_name OrderState.created = "CREATED"
state_name OrderState.packed = "PACKED"
state_name OrderState.shipped = "SHIPPED"
state_name OrderState.delivered = "DELIVERED"

abbrev pub method_name : PaymentMethod → String
method_name PaymentMethod.card = "CARD"
method_name PaymentMethod.bkash = "BKASH"
method_name PaymentMethod.nagad = "NAGAD"

abbrev event_or_null : Option EventType → Json
event_or_null none = null
event_or_null (some e) = str (event_name e)

abbrev items_json : List OrderItem → Items
items_json [] = nil
items_json (i ∷ is) =
    cons
      (obj (
        field "sku" (str i.sku)
          (field "qty" (int (pos i.qty)) (field "unit_price" (int (pos i.unit_price)) end))))
      (items_json is)

-- `Order.as_dict`, which `as_snapshot` returns
unfoldable pub as_dict : Order → Json
as_dict o = obj (
    field "order_id" (str o.order_id) (
      field "customer_id" (str o.customer_id) (
        field "state" (str (state_name o.state)) (
          field "last_sequence" (int (pos o.last_sequence)) (
            field "total_amount" (int (pos o.total_amount)) (
              field "payment"
                (obj (
                  field "method" (str (method_name o.payment.method)) (
                    field "reference" (str o.payment.reference)
                      (field "amount" (int (pos o.payment.amount)) end))))
                (field "items" (arr (items_json o.items)) (
                  field "expected_next_event" (event_or_null (expected_next_event (some o.state)))
                    end))))))))

-- What the handlers call and do not implement.
pub record Platform : Type 0 where
  pub client : Client
  pub settings : Settings
  pub pydantic : Pydantic
  pub codec : JsonCodec
  pub dump_event : LifecycleEvent → String  -- `model_dump_json`

-- What one request brings along: the fresh ids, and the time.
pub record Request : Type 0 where
  pub new_order_id : String
  pub new_event_id : String
  pub now : ℕ

abbrev pub Handler : Type 0 → Type 0
Handler A = Action App Status A

-- a call of the store; `translate` is the handler's `except` clauses
abbrev pub on_orders : {A : Type 0} → (OrderError → Status) → Action Orders OrderError A → Handler A
on_orders translate m app =
    let (r, orders) = m app.orders in
    elim r [
      | ok a ↦ (ok a, record app { orders = orders })
      | err x ↦ (err (translate x), record app { orders = orders })
    ]

-- a call of the producer
abbrev pub on_wire : {A : Type 0} → Action Wire DeliveryError A → Handler A
on_wire m app =
    let (r, wire) = m app.wire in
    elim r [
      | ok a ↦ (ok a, record app { wire = wire })
      | err delivery_failed ↦ (err bad_gateway, record app { wire = wire })
      | err delivery_timeout ↦ (err gateway_timeout, record app { wire = wire })
    ]

abbrev pub or_status : {A : Type 0} → Status → Result ValueError A → Handler A
or_status status (ok a) = pure a
or_status status (err _) = raise status

abbrev pub order_status : OrderError → Status
order_status (unknown_order _) = not_found
order_status (illegal_transition _ _ _ _) = conflict

-- an exception of the store that the handler does not catch
abbrev pub uncaught : OrderError → Status
uncaught _ = internal_error

-- `store.get(order_id) is None` raises 404
abbrev pub require_order : String → Handler Order
require_order order_id app = elim (Store.get order_id app.orders) [
  | none ↦ (err not_found, app)
  | some order ↦ (ok order, app)
]

module _ (pf : Platform) where
  -- `_publish`
  unfoldable pub publish : LifecycleEvent → Handler DeliveryResult
  publish event = on_wire (publish_and_wait pf.client pf.settings pf.dump_event event)

  -- `_publish_snapshot`
  unfoldable pub mirror_snapshot : Order → Handler Unit
  mirror_snapshot order = modify (λ app. record app {
    wire = publish_snapshot pf.client pf.settings pf.codec order.order_id (as_dict order) app.wire;
  })

  -- `create_order`
  unfoldable pub create_order : Request → CreateOrderRequest → Handler CreateOrderResponse
  create_order req body = do
    payload ← or_status unprocessable (
        validate_order_created (
          fields_of (record {
            customer_id = body.customer_id;
            items = body.items;
            total_amount = item_sum body.items;
            payment = body.payment;
          })))
    event ← or_status internal_error (
        validate_event pf.pydantic (record {
          event_id = req.new_event_id;
          order_id = req.new_order_id;
          sequence = pos 1;
          event_type = EventType.order_created;
          occurred_at = req.now;
          payload = pf.pydantic.dump payload;
        }))
    result ← publish event
    order ← λ app.
        let (order, orders) = Store.register req.new_order_id payload app.orders in
        (ok order, record app { orders = orders })
    mirror_snapshot order
    pure (record {
      order_id = req.new_order_id;
      state = order.state;
      total_amount = order.total_amount;
      sequence = 1;
      partition = result.partition;
      offset = result.offset;
    })

  -- `publish_event` after its checks: allocate, publish, advance
  unfoldable pub publish_checked :
      Request → String → PublishEventRequest → Handler PublishEventResponse
  publish_checked req order_id body = do
    sequence ← on_orders order_status (Store.reserve order_id body.event_type body.force)
    event ← or_status internal_error (
        validate_event pf.pydantic (record {
          event_id = req.new_event_id;
          order_id = order_id;
          sequence = pos sequence;
          event_type = body.event_type;
          occurred_at = req.now;
          payload = body.payload;
        }))
    result ← publish event
    order ← on_orders uncaught (Store.commit order_id body.event_type body.force)
    mirror_snapshot order
    pure (record {
      order_id = order_id;
      sequence = sequence;
      event_type = body.event_type;
      state = order.state;
      partition = result.partition;
      offset = result.offset;
      forced = body.force;
    })

  -- `publish_event`
  unfoldable pub publish_event :
      Request → String → PublishEventRequest → Handler PublishEventResponse
  publish_event req order_id body = do
    require_order order_id
    or_status unprocessable (validate_payload pf.pydantic body.event_type body.payload)
    publish_checked req order_id body

  -- `store.remove`, whose `UnknownOrder` the handler takes for a success
  abbrev pub forget_order : String → Handler Unit
  forget_order order_id app = (ok tt, record app { orders = (Store.remove order_id app.orders).1 })

  -- `delete_order`; its value is the empty 204
  unfoldable pub delete_order : String → Handler Unit
  delete_order order_id = do
    require_order order_id
    on_wire (publish_tombstone pf.client pf.settings order_id)
    forget_order order_id

  -- `get_order`
  unfoldable pub get_order : String → Handler Json
  get_order order_id = do order ← require_order order_id; pure (as_dict order)
