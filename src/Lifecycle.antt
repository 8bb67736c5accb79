-- ===== src/Lifecycle.antt =====
-- The producer and the consumers together: the routes of src/order_service/producer/routes.py and the
-- fold of src/order_service/consumer/runtime.py, for requests on one order that do not overlap.
mod Tests
use kafka_playgroud.Prelude.{
  ℕ, ◌≡◌, ◌⊎◌, Bool, false, not, ◌&&◌, Option, some, List, [], ◌∷◌, ◌++◌, String, Result, ok, err,
  string_eq, Bool-cases, if◌then◌else◌,
}
use kafka_playgroud.Prelude.Json.{Json}
use kafka_playgroud.Events.{EventType, OrderState, OrderCreatedPayload, LifecycleEvent}
use kafka_playgroud.Producer.Orders as Store
use kafka_playgroud.Producer.Orders.{Order}
use kafka_playgroud.Producer.Routes.{
  Status, not_found, conflict, unprocessable, App, Platform, Request, PublishEventRequest,
  PublishEventResponse, publish_event,
}
use kafka_playgroud.Consumer.State.{OrderFold}
use kafka_playgroud.Consumer.Folding.Violations.{apply_all, sequence_before, state_before}

-- a request that is not forced
abbrev pub unforced : EventType → Json → PublishEventRequest
unforced e payload = record { event_type = e; payload = payload; force = false }

-- Requests on one order that the route serves one after the other, each with its event type: what
-- they are answered, and what is left.
unfoldable pub serve_posts :
    Platform
    → String
    → List (Request × EventType × Json)
    → App
    → List (EventType × Result Status PublishEventResponse) × App
serve_posts pf id [] app = ([], app)
serve_posts pf id ((req, e, payload) ∷ ps) app =
    let (answer, app') = publish_event pf req id (unforced e payload) app in
    let (answers, last) = serve_posts pf id ps app' in ((e, answer) ∷ answers, last)

-- A request has succeeded, or was refused before it spent a number: no delivery failed.
abbrev pub IsSound : Result Status PublishEventResponse → Type 0
IsSound (ok _) = Unit
IsSound (err x) = (x ≡ not_found) ⊎ (x ≡ unprocessable) ⊎ (x ≡ conflict)

abbrev pub AreSound : List (EventType × Result Status PublishEventResponse) → Type 0
AreSound [] = Unit
AreSound ((e, answer) ∷ answers) = IsSound answer × AreSound answers

-- the number and the type of the event of each request that succeeded
abbrev pub published : List (EventType × Result Status PublishEventResponse) → List (ℕ × EventType)
published [] = []
published ((e, ok resp) ∷ answers) = (resp.sequence, e) ∷ published answers
published ((e, err _) ∷ answers) = published answers

-- the events have these numbers and types
abbrev pub Carry : List LifecycleEvent → List (ℕ × EventType) → Type 0
Carry [] [] = Unit
Carry [] (_ ∷ _) = ⊥
Carry (_ ∷ _) [] = ⊥
Carry (x ∷ xs) ((n, e) ∷ ns) = (x.sequence ≡ n) × (x.event_type ≡ e) × Carry xs ns

-- a fold shows the order as it is in the store
abbrev pub Shows : Option OrderFold → Order → Type 0
Shows fold order =
    (sequence_before fold ≡ order.last_sequence) × (state_before fold ≡ some order.state)

module _ (pf : Platform) where
  -- what is left of the requests after one that was answered `answer`
  abbrev Folds : String → Option OrderFold → List LifecycleEvent → App → Type 0
  Folds id fold xs last =
      ((apply_all fold xs).1 ≡ [])
      × ((order' : Order) × (Store.get id last.orders ≡ some order')
          × Shows (apply_all fold xs).0 order')
