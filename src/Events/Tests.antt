-- ===== src/Events/Tests.antt =====
-- Witnesses for the event contract.
use kafka_playgroud.Prelude.{◌≡◌, refl, some, none, [], ◌∷◌, ok, pos, string_eq}
use kafka_playgroud.Prelude.Json.{null}
use kafka_playgroud.Events.{
  EventType, PaymentMethod, OrderCreatedPayload, ShippedPayload, EventFields, LifecycleEvent,
  Pydantic, validate_order_created, validate_items, validate_item, validate_payment, validate_event,
  validate_payload, validate_shipped, gt_0, ge_0, min_length_1, item_sum,
}
use kafka_playgroud.Events.Payloads.{IsConsistent, fields_of, validate_order_created-IsConsistent}

abbrev payload : OrderCreatedPayload
payload = record {
  customer_id = "c-1";
  items = record { sku = "tea"; qty = 2; unit_price = 30 } ∷ [];
  total_amount = 60;
  payment = record { method = PaymentMethod.card; reference = "r-1"; amount = 60 };
}

accepted : validate_order_created (fields_of payload) ≡ ok payload
unfolding validate_order_created validate_items validate_item validate_payment gt_0 ge_0
    min_length_1 item_sum
accepted = refl

consistent : IsConsistent payload
consistent = validate_order_created-IsConsistent (fields_of payload) payload accepted

abbrev parcel : ShippedPayload
parcel = record { carrier = "post"; tracking_number = "t-1" }

abbrev pydantic : Pydantic
pydantic = record {
  read_order_created = λ j. some (fields_of payload);
  read_shipped = λ j. some parcel;
  read_event = λ j. none;
  dump = λ p. null;
}

abbrev fields : EventType → EventFields
fields t = record {
  event_id = "e-1";
  order_id = "o-1";
  sequence = pos 3;
  event_type = t;
  occurred_at = 7;
  payload = null;
}

abbrev event : EventType → LifecycleEvent
event t = record {
  event_id = "e-1";
  order_id = "o-1";
  sequence = 3;
  event_type = t;
  occurred_at = 7;
  payload = null;
}

created_accepted :
    validate_event pydantic (fields EventType.order_created) ≡ ok (event EventType.order_created)
unfolding validate_event validate_payload validate_order_created validate_items validate_item
    validate_payment gt_0 ge_0 min_length_1 item_sum
created_accepted = refl

shipped_accepted : validate_event pydantic (fields EventType.shipped) ≡ ok (event EventType.shipped)
unfolding validate_event validate_payload validate_shipped gt_0 min_length_1
shipped_accepted = refl
