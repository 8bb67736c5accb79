-- ===== src/Producer/Routes/Tests.antt =====
-- Witnesses for the routes and for publishing, with a client that delivers everything and one that
-- reports nothing.
use kafka_playgroud.Prelude.{
  ◌+◌, ◌≡◌, ◌≢◌, refl, inr, false, some, none, [], ◌∷◌, ◌++◌, String, ok, err, string_eq, nat_eq,
  if◌then◌else◌,
}
use kafka_playgroud.Prelude.Json.{null, utf8}
use kafka_playgroud.Dict.{lookup, insert}
use kafka_playgroud.Config.Tests.{settings}
use kafka_playgroud.Events.{
  EventType, OrderState, PaymentMethod, Pydantic, item_sum, resulting_state, is_legal_transition,
  validate_order_created, validate_items, validate_item, validate_payment, validate_event,
  validate_payload, gt_0, ge_0, min_length_1,
}
use kafka_playgroud.Events.Payloads.{fields_of, IsConsistent, validate_order_created-IsConsistent}
use kafka_playgroud.Producer.Orders as Store
use kafka_playgroud.Producer.Orders.{Order, Orders}
use kafka_playgroud.Producer.Orders.Methods.{IsAllowed}
use kafka_playgroud.Producer.Kafka.{
  Client, ProducerRecord, DeliveryResult, delivery_timeout, Enqueue, Report, Metadata,
  produce_keyed, await_report, publish_blocking, publish_and_wait, publish_tombstone,
}
use kafka_playgroud.Producer.Routes.{
  conflict, unprocessable, internal_error, gateway_timeout, App, CreateOrderRequest,
  CreateOrderResponse, PublishEventRequest, PublishEventResponse, Platform, Request, publish,
  mirror_snapshot, create_order, publish_checked, publish_event, delete_order,
}
use kafka_playgroud.Producer.Routes.Guards.{publish_event_refused}
use kafka_playgroud.Producer.Routes.Outcomes.{
  IsRequest, payload_of, create_order_ok, create_order_status, publish_event_ok, delete_order_ok,
}

abbrev pub body : CreateOrderRequest
body = record {
  customer_id = "c-1";
  items = record { sku = "tea"; qty = 2; unit_price = 30 } ∷ [];
  payment = record { method = PaymentMethod.card; reference = "r-1"; amount = 60 };
}

-- the same with a payment that is too small
abbrev underpaid : CreateOrderRequest
underpaid = record body { payment = record body.payment { amount = 50 } }

abbrev pydantic : CreateOrderRequest → Pydantic
pydantic b = record {
  read_order_created = λ j. some (fields_of (payload_of b));
  read_shipped = λ j. none;
  read_event = λ j. none;
  dump = λ p. null;
}

abbrev place : DeliveryResult
place = record { partition = 1; offset = 9 }

abbrev client : Client
client = record {
  produce = λ wire r. Enqueue.accepted;
  wait = λ wire ms. Report.delivered place;
  list_topics = λ wire topic. Metadata.present;
}

abbrev silent : Client
silent = record client { wait = λ wire ms. Report.nothing }

abbrev pub platform : Platform
platform = record {
  client = client;
  settings = settings;
  pydantic = pydantic body;
  codec = record { dumps = λ j. "{}"; loads = λ s. none };
  dump_event = λ e. "{}";
}

abbrev mute : Platform
mute = record platform { client = silent }

abbrev pub req : Request
req = record { new_order_id = "o-2"; new_event_id = "e-2"; now = 7 }

abbrev created : Order
created = record {
  order_id = "o-1";
  customer_id = "c-1";
  items = body.items;
  total_amount = 60;
  payment = body.payment;
  state = OrderState.created;
  last_sequence = 1;
}

abbrev pub app : App
app = record { orders = ("o-1", created) ∷ []; wire = [] }

abbrev pub response : CreateOrderResponse
response = record {
  order_id = "o-2";
  state = OrderState.created;
  total_amount = 60;
  sequence = 1;
  partition = 1;
  offset = 9;
}

created_ok : (create_order platform req body app).0 ≡ ok response
unfolding create_order validate_order_created validate_items validate_item validate_payment
    validate_event validate_payload gt_0 ge_0 min_length_1 item_sum publish publish_and_wait
    publish_blocking produce_keyed await_report Store.register resulting_state mirror_snapshot
created_ok = refl

create_order_ok_example :
    (o : Order) × ((j : String)
      → Store.get j (create_order platform req body app).1.orders
        ≡ (if string_eq.beq "o-2" j then some o else Store.get j app.orders))
    × (o.state ≡ OrderState.created)
    × (o.last_sequence ≡ 1)
    × (o.total_amount ≡ item_sum o.items)
    × (o.payment.amount ≡ o.total_amount)
    × (60 ≡ o.total_amount)
create_order_ok_example = create_order_ok platform req body app response created_ok

timed_out : (create_order mute req body app).0 ≡ err gateway_timeout
unfolding create_order validate_order_created validate_items validate_item validate_payment
    validate_event validate_payload gt_0 ge_0 min_length_1 item_sum publish publish_and_wait
    publish_blocking produce_keyed await_report
timed_out = refl

abbrev careless : Platform
careless = record platform { pydantic = pydantic underpaid }

paid : validate_order_created (fields_of (payload_of body)) ≡ ok (payload_of body)
unfolding validate_order_created validate_items validate_item validate_payment gt_0 ge_0
    min_length_1 item_sum
paid = refl

body-IsConsistent : IsConsistent (payload_of body)
body-IsConsistent =
    validate_order_created-IsConsistent (fields_of (payload_of body)) (payload_of body) paid

underpaid-IsRequest : IsRequest underpaid
underpaid-IsRequest = record {
  customer = body-IsConsistent.customer;
  nonempty = body-IsConsistent.nonempty;
  items = body-IsConsistent.items;
  reference = body-IsConsistent.reference;
}

refused : (create_order careless req underpaid app).0 ≡ err unprocessable
unfolding create_order validate_order_created validate_items validate_item validate_payment gt_0
    ge_0 min_length_1 item_sum
refused = refl

create_order_status_example :
    ((create_order careless req underpaid app).0 ≢ err internal_error)
    × ((create_order careless req underpaid app).0 ≡ err unprocessable
        → 50 ≢ item_sum underpaid.items)
    × (50 ≢ item_sum underpaid.items
        → (create_order careless req underpaid app).0 ≡ err unprocessable)
create_order_status_example =
    create_order_status careless req underpaid app underpaid-IsRequest refl

abbrev pub pack : PublishEventRequest
pack = record { event_type = EventType.packed; payload = null; force = false }

abbrev packed : PublishEventResponse
packed = record {
  order_id = "o-1";
  sequence = 2;
  event_type = EventType.packed;
  state = OrderState.packed;
  partition = 1;
  offset = 9;
  forced = false;
}

packed_ok : (publish_event platform req "o-1" pack app).0 ≡ ok packed
unfolding publish_event publish_checked validate_event validate_payload gt_0 publish
    publish_and_wait publish_blocking produce_keyed await_report Store.reserve Store.reserve_found
    Store.commit Store.get resulting_state is_legal_transition mirror_snapshot lookup insert
packed_ok = refl

publish_event_ok_example :
    (o : Order) × (o' : Order) × (Store.get "o-1" app.orders ≡ some o)
    × (Store.get "o-1" (publish_event platform req "o-1" pack app).1.orders ≡ some o')
    × IsAllowed EventType.packed false o
    × (2 ≡ o.last_sequence + 1)
    × (o'.last_sequence ≡ 2)
    × (o'.state ≡ (
        if is_legal_transition EventType.packed (some o.state)
        then resulting_state EventType.packed
        else o.state))
    × (OrderState.packed ≡ o'.state)
publish_event_ok_example = publish_event_ok platform req "o-1" pack app packed packed_ok

abbrev deliver : PublishEventRequest
deliver = record pack { event_type = EventType.delivered }

too_early : (publish_event platform req "o-1" deliver app).0 ≡ err conflict
unfolding publish_event publish_checked validate_payload Store.reserve Store.reserve_found Store.get
    resulting_state is_legal_transition lookup
too_early = refl

publish_event_refused_example : (publish_event platform req "o-1" deliver app).1 ≡ app
publish_event_refused_example =
    publish_event_refused platform req "o-1" deliver app conflict too_early (inr (inr refl))

deleted : (delete_order platform "o-1" app).0 ≡ ok tt
unfolding delete_order publish_tombstone publish_blocking produce_keyed await_report Store.get
    lookup
deleted = refl

delete_order_ok_example :
    ((j : String)
      → Store.get j (delete_order platform "o-1" app).1.orders
        ≡ (if string_eq.beq "o-1" j then none else Store.get j app.orders))
    × ((delete_order platform "o-1" app).1.wire
        ≡ [] ++ record { topic = "orders.snapshot"; key = utf8 "o-1"; value = none } ∷ [])
delete_order_ok_example = delete_order_ok platform "o-1" app deleted

kept : (delete_order mute "o-1" app).0 ≡ err gateway_timeout
unfolding delete_order publish_tombstone publish_blocking produce_keyed await_report Store.get
    lookup
kept = refl

abbrev order_record : ProducerRecord
order_record = record { topic = "orders.lifecycle"; key = utf8 "o-1"; value = some (utf8 "{}") }

delivers : (publish_blocking client settings order_record []).0 ≡ ok place
unfolding publish_blocking produce_keyed await_report
delivers = refl

waits : (publish_blocking silent settings order_record []).0 ≡ err delivery_timeout
unfolding publish_blocking produce_keyed await_report
waits = refl
