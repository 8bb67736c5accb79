-- ===== src/Consumer/Services/Handled.antt =====
-- The services' handlers on events that were validated.
use kafka_playgroud.Prelude.{
  ℕ, ◌≡◌, ◌⊎◌, refl, ap, sym, ◌∙◌, Option, none, some, String, Result, ok, err, List, [], ◌∷◌, ◌++◌,
  arith, inl, inr, Bool-cases, ◌==◌, string_eq,
}
use mathlib.Core.List.{append-nil, append_assoc}
use kafka_playgroud.Prelude.Action.{continue, lift, ◌>>=◌}
use kafka_playgroud.Consumer.Runtime.Committing.{outcomes_of, outcomes_of-emit}
use kafka_playgroud.Events.{
  OrderItem, OrderCreatedPayload, ShippedPayload, as_order_created, as_shipped, EventType,
  EventFields, LifecycleEvent, Pydantic, validate_event,
}
use kafka_playgroud.Events.Payloads.{as_order_created_total, as_shipped_total}
use kafka_playgroud.Consumer.Broker.{Trace, Io, Exc, Event, printed, counted, emit}
use kafka_playgroud.Consumer.Services.{
  Spec, build_spec, inventory, notification, analytics, reserve_stock, release_reservation, notify,
  message_for, inventory_handlers, say, reserve_items, item_line, customer_line, tally, tally_line,
  counts_in, or_raise, parcel_line, created_message, shipped_message, messages,
}

abbrev run : Option (LifecycleEvent → Io Unit) → LifecycleEvent → Io Unit
run none event t = (ok tt, t)
run (some h) event t = h event t

some_inj : {s s' : Spec} → some s ≡ some s' → s ≡ s'
some_inj e = cc

handler_inj : {f g : LifecycleEvent → Io Unit} → some f ≡ some g → f ≡ g
handler_inj e = cc

module _ (py : Pydantic) (amount : ℕ → String) where
  -- the services that there are
  pub build_spec-cases :
      (name : String) (spec : Spec)
      → build_spec py amount name ≡ some spec
      → (spec ≡ inventory py amount)
        ⊎ (spec ≡ notification py amount)
        ⊎ (spec ≡ analytics py amount)
  unfolding build_spec
  build_spec-cases name spec built = elim (Bool-cases ("inventory" == name)) [
    | inl one ↦ inl (some_inj (ground (arith, built, one)))
    | inr not_one ↦ elim (Bool-cases ("notification" == name)) [
      | inl two ↦ inr (inl (some_inj (ground (arith, built, not_one, two))))
      | inr not_two ↦ elim (Bool-cases ("analytics" == name)) [
        | inl three ↦ inr (inr (some_inj (ground (arith, built, not_one, not_two, three))))
        | inr not_three ↦ absurd (ground (arith, built, not_one, not_two, not_three))
      ]
    ]
  ]

  -- Of whatever event, a handler neither commits nor seeks.
  reserve_items-quiet :
      (id : String) (is : List OrderItem) (t : Trace)
      → outcomes_of (reserve_items id is t).1 ≡ outcomes_of t
  unfolding reserve_items
  reserve_items-quiet id [] t = refl
  reserve_items-quiet id (i ∷ is) t =
      reserve_items-quiet id is (emit (printed (item_line id i)) t)
      ∙ outcomes_of-emit _ t
      ∙ append-nil (outcomes_of t)

  say-quiet : (line : String) (t : Trace) → outcomes_of (say line t).1 ≡ outcomes_of t
  say-quiet line t = outcomes_of-emit (printed line) t ∙ append-nil (outcomes_of t)

  after_lift-quiet :
      {A : Type 0} (r : Result Exc A) (f : A → Io Unit) (t : Trace)
      → ((a : A) → outcomes_of (f a t).1 ≡ outcomes_of t)
      → outcomes_of ((lift r >>= f) t).1 ≡ outcomes_of t
  after_lift-quiet (ok a) f t h = h a
  after_lift-quiet (err x) f t h = refl

  reserve_stock-quiet :
      (event : LifecycleEvent) (t : Trace)
      → outcomes_of (reserve_stock py event t).1 ≡ outcomes_of t
  unfolding reserve_stock
  reserve_stock-quiet event t =
      after_lift-quiet (or_raise (as_order_created py event)) _ t
        (λ p. reserve_items-quiet event.order_id p.items t)

  release_reservation-quiet :
      (event : LifecycleEvent) (t : Trace)
      → outcomes_of (release_reservation py event t).1 ≡ outcomes_of t
  unfolding release_reservation
  release_reservation-quiet event t =
      after_lift-quiet (or_raise (as_shipped py event)) _ t (λ p. say-quiet _ t)

  message_for-kept : (event : LifecycleEvent) (t : Trace) → (message_for py amount event t).1 ≡ t
  unfolding message_for
  message_for-kept event t = ground arith

  said :
      (event : LifecycleEvent) (r : Result Exc String) (t : Trace)
      → outcomes_of (continue r (λ text. say (customer_line py event text)) t).1 ≡ outcomes_of t
  said event (ok text) t = say-quiet _ t
  said event (err x) t = refl

  notify-quiet :
      (event : LifecycleEvent) (t : Trace)
      → outcomes_of (notify py amount event t).1 ≡ outcomes_of t
  unfolding notify
  notify-quiet event t =
      said event (message_for py amount event t).0 (message_for py amount event t).1
      ∙ ap outcomes_of (message_for-kept event t)

  tally-quiet : (event : LifecycleEvent) (t : Trace) → outcomes_of (tally event t).1 ≡ outcomes_of t
  unfolding tally
  tally-quiet event t = outcomes_of-emit _ t ∙ append-nil (outcomes_of t)

  inventory_quiet :
      (e : EventType) (event : LifecycleEvent) (f : LifecycleEvent → Io Unit) (t : Trace)
      → inventory_handlers py e ≡ some f
      → outcomes_of (f event t).1 ≡ outcomes_of t
  inventory_quiet EventType.order_created event f t found =
      rw (← handler_inj found) (reserve_stock-quiet event t)
  inventory_quiet EventType.shipped event f t found =
      rw (← handler_inj found) (release_reservation-quiet event t)
  inventory_quiet EventType.packed event f t found = cc
  inventory_quiet EventType.delivered event f t found = cc

  pub build_spec_quiet :
      (name : String) (spec : Spec) (e : EventType) (event : LifecycleEvent)
      (f : LifecycleEvent → Io Unit) (t : Trace)
      → build_spec py amount name ≡ some spec
      → spec.handlers e ≡ some f
      → outcomes_of (f event t).1 ≡ outcomes_of t
  build_spec_quiet name spec e event f t built found = elim (build_spec-cases name spec built) [
    | inl is ↦ inventory_quiet e event f t (sym (ap (λ (s : Spec). s.handlers e) is) ∙ found)
    | inr (inl is) ↦
        rw (← handler_inj (sym (ap (λ (s : Spec). s.handlers e) is) ∙ found)) (notify-quiet event t)
    | inr (inr is) ↦
        rw (← handler_inj (sym (ap (λ (s : Spec). s.handlers e) is) ∙ found)) (tally-quiet event t)
  ]

-- what a handler returns and says: it returns, and these are its events
abbrev Says : Io Unit → Trace → List Event → Type 0
Says a t lines = a t ≡ (ok tt, t ++ lines)

abbrev pub item_lines : String → List OrderItem → List Event
item_lines id [] = []
item_lines id (i ∷ is) = printed (item_line id i) ∷ item_lines id is

module _ (py : Pydantic) (amount : ℕ → String) (event : LifecycleEvent) where
  -- What inventory says of an event: a line for each item of the new order, or one for the parcel.
  abbrev pub InventorySays : List Event → Type 0
  InventorySays lines =
      ((p : OrderCreatedPayload) × (as_order_created py event ≡ ok p)
        × (lines ≡ item_lines event.order_id p.items))
      ⊎ ((p : ShippedPayload) × (as_shipped py event ≡ ok p)
          × (lines ≡ printed (parcel_line py event p) ∷ []))

  -- What a service says of an event, where the process's trace was `t`.
  abbrev pub Speaks : Spec → Trace → List Event → Type 0
  Speaks spec t lines =
      ((spec ≡ inventory py amount) × InventorySays lines)
      ⊎ ((spec ≡ notification py amount)
          × ((text : String) × ((message_for py amount event t).0 ≡ ok text)
              × (lines ≡ printed (customer_line py event text) ∷ [])))
      ⊎ ((spec ≡ analytics py amount)
          × (lines ≡ counted event.event_type (tally_line event (counts_in t)) ∷ []))

reserve_items_lem :
    (id : String) (is : List OrderItem) (t : Trace)
    → reserve_items id is t ≡ (ok tt, t ++ item_lines id is)
unfolding reserve_items
reserve_items_lem id [] t = ap (λ t'. (ok tt, t')) (sym (append-nil t))
reserve_items_lem id (i ∷ is) t =
    reserve_items_lem id is (emit (printed (item_line id i)) t)
    ∙ ap (λ t'. (ok tt, t')) (append_assoc t (printed (item_line id i) ∷ []) (item_lines id is))

module _ (py : Pydantic) (amount : ℕ → String) (f : EventFields) (event : LifecycleEvent)
    (valid : validate_event py f ≡ ok event) where
  reserve_stock-Says :
      (t : Trace)
      → event.event_type ≡ EventType.order_created
      → (lines : List Event) × Says (reserve_stock py event) t lines
        × InventorySays py amount event lines
  unfolding reserve_stock
  reserve_stock-Says t e =
      let (p, read, _) = as_order_created_total py f event valid e in
      (
        item_lines event.order_id p.items,
        rw read (reserve_items_lem event.order_id p.items t),
        inl (p, read, refl),
      )

  release_reservation-Says :
      (t : Trace)
      → event.event_type ≡ EventType.shipped
      → (lines : List Event) × Says (release_reservation py event) t lines
        × InventorySays py amount event lines
  unfolding release_reservation
  release_reservation-Says t e =
      let (p, read) = as_shipped_total py f event valid e in
      (printed (parcel_line py event p) ∷ [], rw read refl, inr (p, read, refl))

  message_ok :
      (t : Trace) (type : EventType)
      → event.event_type ≡ type
      → (text : String) × (message_for py amount event t ≡ (ok text, t))
  unfolding message_for
  message_ok t EventType.order_created e =
      let (p, read, _) = as_order_created_total py f event valid e in
      (created_message py amount p, ground (arith, e, read))
  message_ok t EventType.shipped e =
      let (p, read) = as_shipped_total py f event valid e in
      (shipped_message py p, ground (arith, e, read))
  message_ok t EventType.packed e = (messages py EventType.packed, ground (arith, e))
  message_ok t EventType.delivered e = (messages py EventType.delivered, ground (arith, e))

  notify-Says :
      (t : Trace)
      → (text : String) × ((message_for py amount event t).0 ≡ ok text)
        × Says (notify py amount event) t (printed (customer_line py event text) ∷ [])
  unfolding notify
  notify-Says t =
      let (text, is) = message_ok t event.event_type refl in (text, ap (λ r. r.0) is, rw is refl)

  inventory-Says :
      (t : Trace) (type : EventType) (h : LifecycleEvent → Io Unit)
      → event.event_type ≡ type
      → inventory_handlers py type ≡ some h
      → (lines : List Event) × Says (h event) t lines × InventorySays py amount event lines
  inventory-Says t EventType.order_created h e found =
      rw (← handler_inj found) (reserve_stock-Says t e)
  inventory-Says t EventType.shipped h e found =
      rw (← handler_inj found) (release_reservation-Says t e)
  inventory-Says t EventType.packed h e found = cc
  inventory-Says t EventType.delivered h e found = cc

  pub build_spec_total :
      (name : String) (spec : Spec) (h : LifecycleEvent → Io Unit) (t : Trace)
      → build_spec py amount name ≡ some spec
      → spec.handlers event.event_type ≡ some h
      → (lines : List Event) × (h event t ≡ (ok tt, t ++ lines))
        × Speaks py amount event spec t lines
  unfolding tally
  build_spec_total name spec h t built found = elim (build_spec-cases py amount name spec built) [
    | inl is ↦
        let own = sym (ap (λ (s : Spec). s.handlers event.event_type) is) ∙ found in
        let (lines, says, what) = inventory-Says t event.event_type h refl own in
        (lines, says, inl (is, what))
    | inr (inl is) ↦
        let own = handler_inj (sym (ap (λ (s : Spec). s.handlers event.event_type) is) ∙ found) in
        let (text, message, says) = notify-Says t in
        (
          printed (customer_line py event text) ∷ [],
          sym (ap (λ g. g event t) own) ∙ says,
          inr (inl (is, (text, message, refl))),
        )
    | inr (inr is) ↦
        let own = handler_inj (sym (ap (λ (s : Spec). s.handlers event.event_type) is) ∙ found) in
        (
          counted event.event_type (tally_line event (counts_in t)) ∷ [],
          sym (ap (λ g. g event t) own),
          inr (inr (is, refl)),
        )
  ]
