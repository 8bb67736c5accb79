-- ===== src/Producer/App/Numbers.antt =====
-- The sequence numbers that a served application puts on the lifecycle topic.
pub mod Steps
pub mod Reserving
pub mod Handlers
pub mod Creation
pub mod Deletion
pub mod Ascending
use kafka_playgroud.Prelude.{
  ℕ, ◌+◌, ◌≤◌, ◌<◌, ◌≡◌, ◌≢◌, ◌⊎◌, inl, inr, refl, sym, ap, ◌∙◌, Bool, true, false, not, ◌&&◌,
  Option, none, some, List, [], ◌∷◌, ◌++◌, String, Result, ok, err, arith, Bool-cases, Option-cases,
  Result-cases, string_eq, ◌==◌, if◌then◌else◌, contains, beq_refl, pos,
}
use mathlib.Core.List.{append-nil, append_assoc}
use kafka_playgroud.Prelude.Json.{Bytes, utf8, raw}
use kafka_playgroud.Prelude.Action.{Action, continue, ◌>>=◌}
use kafka_playgroud.Config.{Settings}
use kafka_playgroud.Dict.{lookup}
use kafka_playgroud.Dict.Laws.{lookup-insert, lookup-erase}
use kafka_playgroud.Events.{LifecycleEvent, EventType, validate_event, validate_payload}
use kafka_playgroud.Producer.Orders as Store
use kafka_playgroud.Producer.Orders.{Order, Orders}
use kafka_playgroud.Producer.Orders.Methods.{reserve_err, reserve_iff, get-reserve, commit_lem}
use kafka_playgroud.Producer.Kafka.{
  ProducerRecord, DeliveryError, Wire, Client, publish_and_wait, publish_blocking, produce_keyed,
  await_report, publish_snapshot, publish_tombstone,
}
use kafka_playgroud.Producer.Routes.{
  App, Handler, Status, Platform, Request, CreateOrderRequest, PublishEventRequest, publish,
  on_wire, on_orders, uncaught, mirror_snapshot, create_order, publish_checked, publish_event,
  delete_order, get_order, as_dict,
}
use kafka_playgroud.Producer.App.{
  Call, creation, posting, deletion, reading, serve, serve_all, lifespan, opened,
}

abbrev pub key_is : String → Bytes → Bool
key_is id (utf8 k) = k == id
key_is id (raw _) = false

abbrev pub or_zero : Option ℕ → ℕ
or_zero none = 0
or_zero (some n) = n

-- The number in a record's value, read by a consumer's `read`.
abbrev pub number_in : (String → Option ℕ) → Option Bytes → ℕ
number_in read none = 0
number_in read (some (utf8 text)) = or_zero (read text)
number_in read (some (raw _)) = 0

module _ (topic : String) (read : String → Option ℕ) where
  abbrev pub number_of : String → ProducerRecord → List ℕ
  number_of id r = if r.topic == topic && key_is id r.key then number_in read r.value ∷ [] else []

  -- the sequence numbers of an order's events on the topic, in the order of publication
  unfoldable pub numbers_on : String → Wire → List ℕ
  numbers_on id [] = []
  numbers_on id (r ∷ rs) = number_of id r ++ numbers_on id rs

  pub numbers_on-snoc :
      (id : String) (wire : Wire) (r : ProducerRecord)
      → numbers_on id (wire ++ r ∷ []) ≡ numbers_on id wire ++ number_of id r
  unfolding numbers_on
  numbers_on-snoc id [] r = append-nil (number_of id r)
  numbers_on-snoc id (q ∷ rs) r =
      rw (numbers_on-snoc id rs r)
        (sym (append_assoc (number_of id q) (numbers_on id rs) (number_of id r)))

-- the number that an order is at, where it is in the store
abbrev pub number_at : Option Order → Option ℕ
number_at none = none
number_at (some o) = some o.last_sequence

abbrev pub known : String → App → Option ℕ
known id app = number_at (Store.get id app.orders)

abbrev pub event_record : Platform → LifecycleEvent → ProducerRecord
event_record pf e = record {
  topic = pf.settings.order_lifecycle_topic;
  key = utf8 e.order_id;
  value = some (utf8 (pf.dump_event e));
}

-- One more record, or none.
abbrev pub Grows : ProducerRecord → Wire → Wire → Type 0
Grows r wire wire' = (wire' ≡ wire) ⊎ (wire' ≡ wire ++ r ∷ [])

module _ (client : Client) (settings : Settings) where
  produce_keyed-Grows :
      (r : ProducerRecord) (wire : Wire) → Grows r wire (produce_keyed client settings r wire).1
  unfolding produce_keyed
  produce_keyed-Grows r wire = ground arith

  pub publish_blocking-Grows :
      (r : ProducerRecord) (wire : Wire) → Grows r wire (publish_blocking client settings r wire).1
  unfolding publish_blocking produce_keyed await_report
  publish_blocking-Grows r wire = ground arith

pub on_wire-wire :
    {A : Type 0} (m : Action Wire DeliveryError A) (app : App)
    → ((on_wire m app).1.wire ≡ (m app.wire).1) × ((on_wire m app).1.orders ≡ app.orders)
on_wire-wire m app = (ground arith, ground arith)

-- What the consumers read of an event is the sequence it was published with, and the topics differ.
pub record IsReadable (pf : Platform) (read : String → Option ℕ) : Type 0 where
  pub read_dump : (e : LifecycleEvent) → read (pf.dump_event e) ≡ some e.sequence
  pub topics_differ : pf.settings.order_snapshot_topic ≢ pf.settings.order_lifecycle_topic

-- the numbers of an order that the application has published
abbrev pub numbers : Platform → (String → Option ℕ) → String → App → List ℕ
numbers pf read id app = numbers_on pf.settings.order_lifecycle_topic read id app.wire

-- What becomes of the numbers of an order where an event is published, or is not.
abbrev pub Numbered : String → LifecycleEvent → List ℕ → List ℕ → Type 0
Numbered id e ns ns' = (ns' ≡ ns) ⊎ (ns' ≡ ns ++ (if e.order_id == id then e.sequence ∷ [] else []))

module _ (pf : Platform) (read : String → Option ℕ) (readable : IsReadable pf read) where
  -- a record on the snapshot topic adds no number
  snapshot_number :
      (id : String) (key : Bytes) (value : Option Bytes)
      → number_of pf.settings.order_lifecycle_topic read id
          (record { topic = pf.settings.order_snapshot_topic; key = key; value = value })
        ≡ []
  snapshot_number id key value = ground (
    arith,
    readable.topics_differ,
    string_eq.beq_iff pf.settings.order_snapshot_topic pf.settings.order_lifecycle_topic,
  )

  event_number :
      (id : String) (e : LifecycleEvent)
      → number_of pf.settings.order_lifecycle_topic read id (record {
        topic = pf.settings.order_lifecycle_topic;
        key = utf8 e.order_id;
        value = some (utf8 (pf.dump_event e));
      })
        ≡ (if e.order_id == id then e.sequence ∷ [] else [])
  event_number id e =
      rw (beq_refl pf.settings.order_lifecycle_topic, readable.read_dump e) (ground arith)

  pub grown_numbers :
      (id : String) (r : ProducerRecord) (wire wire' : Wire)
      → Grows r wire wire'
      → (numbers_on pf.settings.order_lifecycle_topic read id wire'
          ≡ numbers_on pf.settings.order_lifecycle_topic read id wire)
        ⊎ (numbers_on pf.settings.order_lifecycle_topic read id wire'
            ≡ numbers_on pf.settings.order_lifecycle_topic read id wire
              ++ number_of pf.settings.order_lifecycle_topic read id r)
  grown_numbers id r wire wire' (inl e) = inl (rw e refl)
  grown_numbers id r wire wire' (inr e) =
      inr (rw e (numbers_on-snoc pf.settings.order_lifecycle_topic read id wire r))

  pub snapshot_numbers :
      (id : String) (key : Bytes) (value : Option Bytes) (wire wire' : Wire)
      → Grows
          (record { topic = pf.settings.order_snapshot_topic; key = key; value = value })
          wire
          wire'
      → numbers_on pf.settings.order_lifecycle_topic read id wire'
        ≡ numbers_on pf.settings.order_lifecycle_topic read id wire
  snapshot_numbers id key value wire wire' g = elim (grown_numbers id _ wire wire' g) [
    | inl e ↦ e
    | inr e ↦ e ∙ rw (snapshot_number id key value) (append-nil _)
  ]

  pub mirror_view :
      (id : String) (o : Order) (app : App)
      → (known id (mirror_snapshot pf o app).1 ≡ known id app)
        × (numbers pf read id (mirror_snapshot pf o app).1 ≡ numbers pf read id app)
  unfolding mirror_snapshot publish_snapshot
  mirror_view id o app = (
    refl,
    snapshot_numbers id _ _ app.wire _ (produce_keyed-Grows pf.client pf.settings _ app.wire),
  )

  pub publish_view :
      (id : String) (e : LifecycleEvent) (app : App)
      → (known id (publish pf e app).1 ≡ known id app)
        × Numbered id e (numbers pf read id app) (numbers pf read id (publish pf e app).1)
  unfolding publish publish_and_wait
  publish_view id e app =
      let m = publish_blocking pf.client pf.settings (event_record pf e) in
      let (w, o) = on_wire-wire m app in
      (
        ap (λ orders. number_at (Store.get id orders)) o,
        elim (grown_numbers id (event_record pf e) app.wire (m app.wire).1
            (publish_blocking-Grows pf.client pf.settings (event_record pf e) app.wire)) [
              | inl same ↦
                  inl (
                    ap (λ wire. numbers_on pf.settings.order_lifecycle_topic read id wire) w ∙ same)
              | inr more ↦ inr (
                  ap (λ wire. numbers_on pf.settings.order_lifecycle_topic read id wire) w
                  ∙ more
                  ∙ ap (λ ns. numbers pf read id app ++ ns) (event_number id e))
            ],
      )
