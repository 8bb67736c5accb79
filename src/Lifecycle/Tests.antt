-- ===== src/Lifecycle/Tests.antt =====
-- A witness: an order that is created, packed, refused a delivery, and shipped.
use kafka_playgroud.Prelude.{some, [], ◌∷◌, List, string_eq}
use kafka_playgroud.Prelude.Json.{Json, null}
use kafka_playgroud.Events.{EventType, LifecycleEvent, Pydantic}
use kafka_playgroud.Producer.Orders as Store
use kafka_playgroud.Producer.Routes.{App, Platform, Request, create_order}
use kafka_playgroud.Producer.Routes.Tests.{body, platform, req, app}

abbrev shipping : Pydantic
shipping = record platform.pydantic {
  read_shipped = λ j. some (record { carrier = "post"; tracking_number = "t-1" });
}

abbrev posting : Platform
posting = record platform { pydantic = shipping }

abbrev posts : List (Request × EventType × Json)
posts =
    (req, EventType.packed, null)
    ∷ (req, EventType.delivered, null)
    ∷ (req, EventType.shipped, null)
    ∷ []

abbrev after : App
after = (create_order posting req body app).1

abbrev first : LifecycleEvent
first = record {
  event_id = "e-1";
  order_id = "o-2";
  sequence = 1;
  event_type = EventType.order_created;
  occurred_at = 9;
  payload = null;
}

abbrev stream : List LifecycleEvent
stream =
    first
    ∷ record first { sequence = 2; event_type = EventType.packed }
    ∷ record first { sequence = 3; event_type = EventType.shipped }
    ∷ []
