-- ===== src/Consumer/Services.antt =====
-- src/order_service/consumer/inventory.py, notification.py, analytics.py, and the registry of
-- src/order_service/consumer/main.py. A handler's lines are events of
-- the trace, and analytics' counter is what the trace shows to have been counted.
pub mod Handled
use kafka_playgroud.Prelude.{
  ℕ, ◌+◌, Bool, true, false, Option, none, some, List, [], ◌∷◌, String, Result, ok, err, ◌==◌,
  string_eq, if◌then◌else◌, ltb,
}
use Prim.Native.String.{◌++◌ as ◌++ˢ◌}
use kafka_playgroud.Prelude.Action.{◌>>=◌, ◌>>◌, pure, lift}
use kafka_playgroud.Prelude.Words.{str_of}
use kafka_playgroud.Dict.{Dict, lookup, insert}
use kafka_playgroud.Events.{
  EventType, LifecycleEvent, OrderCreatedPayload, OrderItem, ShippedPayload, Pydantic, ValueError,
  as_order_created, as_shipped, event_types, event_type_eq,
}
use kafka_playgroud.Consumer.Broker.{Exc, value_error, Io, Trace, printed, counted, emit}
use kafka_playgroud.Consumer.Folding.{event_text}
use kafka_playgroud.Consumer.Runtime.{exception}

abbrev pub Handlers : Type 0
Handlers = EventType → Option (LifecycleEvent → Io Unit)

-- an accessor's exception, which is a `ValueError`
abbrev pub or_raise {ℓ} : {A : Type ℓ} → Result ValueError A → Result Exc A
or_raise (ok a) = ok a
or_raise (err _) = err (exception value_error)

-- `logger.info` of a handler
abbrev pub say : String → Io Unit
say line t = (ok tt, emit (printed line) t)

abbrev pub item_line : String → OrderItem → String
item_line order_id i =
    "[inventory] reserving " ++ˢ str_of i.qty ++ˢ " × " ++ˢ i.sku ++ˢ " for " ++ˢ order_id

-- the loop of `_reserve_stock`
unfoldable pub reserve_items : String → List OrderItem → Io Unit
reserve_items order_id [] = pure tt
reserve_items order_id (i ∷ is) = do say (item_line order_id i); reserve_items order_id is

module _ (py : Pydantic) where
  -- `inventory._reserve_stock`
  unfoldable pub reserve_stock : LifecycleEvent → Io Unit
  reserve_stock event = do
    p ← lift (or_raise (as_order_created py event))
    reserve_items event.order_id p.items

  abbrev pub parcel_line : LifecycleEvent → ShippedPayload → String
  parcel_line event p =
      "[inventory] reservation for " ++ˢ event.order_id ++ˢ " committed — handed to " ++ˢ p.carrier
      ++ˢ " (" ++ˢ p.tracking_number ++ˢ ")"

  -- `inventory._release_reservation`
  unfoldable pub release_reservation : LifecycleEvent → Io Unit
  release_reservation event = do
    p ← lift (or_raise (as_shipped py event))
    say (parcel_line event p)

  abbrev pub inventory_handlers : Handlers
  inventory_handlers EventType.order_created = some reserve_stock
  inventory_handlers EventType.shipped = some release_reservation
  inventory_handlers EventType.packed = none
  inventory_handlers EventType.delivered = none

  -- `notification.MESSAGES`
  abbrev pub messages : EventType → String
  messages EventType.order_created = "Order confirmed — payment received, we are preparing it"
  messages EventType.packed = "Your order is packed and waiting for pickup"
  messages EventType.shipped = "On its way"
  messages EventType.delivered = "Delivered — thanks for shopping with us"

  abbrev pub shipped_message : ShippedPayload → String
  shipped_message p =
      messages EventType.shipped ++ˢ " via " ++ˢ p.carrier ++ˢ ", tracking " ++ˢ p.tracking_number

  abbrev pub created_message : (ℕ → String) → OrderCreatedPayload → String
  created_message amount p =
      messages EventType.order_created ++ˢ " (total " ++ˢ amount p.total_amount ++ˢ ")"

  -- `notification._message_for`; `amount` is how an amount is printed
  unfoldable pub message_for : (ℕ → String) → LifecycleEvent → Io String
  message_for amount event = elim event.event_type [
    | EventType.shipped ↦ do p ← lift (or_raise (as_shipped py event)); pure (shipped_message p)
    | EventType.order_created ↦ do
      p ← lift (or_raise (as_order_created py event))
      pure (created_message amount p)
    | other ↦ pure (messages other)
  ]

  -- the line that is sent to the customer
  abbrev pub customer_line : LifecycleEvent → String → String
  customer_line event text = "[notification] → customer of " ++ˢ event.order_id ++ˢ ": " ++ˢ text

  -- `notification._notify`
  unfoldable pub notify : (ℕ → String) → LifecycleEvent → Io Unit
  notify amount event = do text ← message_for amount event; say (customer_line event text)

-- the closure's counter in `analytics.build_service`
abbrev pub Counts : Type 0
Counts = EventType → ℕ

-- the counting in `_count`
unfoldable pub count_event : LifecycleEvent → Counts → Counts
count_event event counts e = if event.event_type == e then counts e + 1 else counts e

-- the parts of `_count`'s tally, which it joins by blanks
unfoldable pub tally_of : Counts → List EventType → List String
tally_of counts [] = []
tally_of counts (e ∷ es) =
    let rest = tally_of counts es in
    if ltb 0 (counts e) then (event_text e ++ˢ "=" ++ˢ str_of (counts e)) ∷ rest else rest

-- `_count`, whose counter is kept beside the trace
unfoldable pub count : LifecycleEvent → Counts → List String × Counts
count event counts =
    let counts' = count_event event counts in (tally_of counts' event_types, counts')

-- the counter as the process's trace shows it
unfoldable pub counts_in : Trace → Counts
counts_in [] e = 0
counts_in (counted type line ∷ t) e = (if type == e then 1 else 0) + counts_in t e
counts_in (_ ∷ t) e = counts_in t e

-- `" ".join`
unfoldable pub joined : List String → String
joined [] = ""
joined (s ∷ []) = s
joined (s ∷ r ∷ ss) = s ++ˢ " " ++ˢ joined (r ∷ ss)

abbrev pub tally_line : LifecycleEvent → Counts → String
tally_line event counts =
    "[analytics] counted "
    ++ˢ event_text event.event_type
    ++ˢ " for "
    ++ˢ event.order_id
    ++ˢ " — "
    ++ˢ joined (count event counts).0

-- `_count` as a handler
unfoldable pub tally : LifecycleEvent → Io Unit
tally event t = (ok tt, emit (counted event.event_type (tally_line event (counts_in t))) t)

-- `ServiceSpec`
pub record Spec : Type 0 where
  pub name : String
  pub handlers : Handlers

module _ (py : Pydantic) (amount : ℕ → String) where
  -- the three `build_service`
  abbrev pub inventory : Spec
  inventory = record { name = "inventory"; handlers = inventory_handlers py }

  abbrev pub notification : Spec
  notification = record { name = "notification"; handlers = λ e. some (notify py amount) }

  abbrev pub analytics : Spec
  analytics = record { name = "analytics"; handlers = λ e. some tally }

  -- `SERVICE_REGISTRY` and `build_spec`; `none` is `KeyError`
  unfoldable pub build_spec : String → Option Spec
  unfolding lookup
  build_spec name =
      lookup name
        (("inventory", inventory) ∷ ("notification", notification) ∷ ("analytics", analytics) ∷ [])
