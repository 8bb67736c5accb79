-- ===== src/Producer/Routes/Outcomes.antt =====
-- What a request that succeeds has done, and when one succeeds.
use kafka_playgroud.Prelude.{
  ◌+◌, ◌≡◌, refl, ◌≢◌, inl, inr, none, some, [], ◌∷◌, ◌++◌, String, ok, err, arith, beq_refl,
  Option-cases, Result-cases, pos, All, string_eq, if◌then◌else◌,
}
use kafka_playgroud.Prelude.Json.{utf8}
use kafka_playgroud.Dict.Laws.{lookup-insert, lookup-erase}
use kafka_playgroud.Events.{
  EventType, OrderState, OrderCreatedPayload, EventFields, LifecycleEvent, item_sum,
  resulting_state, is_legal_transition, validate_order_created, validate_payload, validate_event,
  gt_0,
}
use kafka_playgroud.Events.Payloads.{
  IsItem, IsConsistent, fields_of, validate_order_created-fields_of,
  validate_order_created-IsConsistent, validate_order_created_paid,
}
use kafka_playgroud.Producer.Orders as Store
use kafka_playgroud.Producer.Orders.{
  Order, Orders, OrderError, unknown_order, illegal_transition, commit_found, reserve_found,
}
use kafka_playgroud.Producer.Orders.Methods.{
  IsAllowed, reserve_iff, get-reserve, committed, commit_lem,
}
use kafka_playgroud.Producer.Kafka.{
  publish_tombstone, publish_blocking, produce_keyed, await_report,
}
use kafka_playgroud.Producer.Routes.{
  unprocessable, internal_error, App, CreateOrderRequest, CreateOrderResponse, PublishEventRequest,
  PublishEventResponse, Platform, Request, mirror_snapshot, create_order, publish_checked,
  publish_event, delete_order,
}
use kafka_playgroud.Producer.Routes.Guards.{publish_lem}

-- What FastAPI has checked of a body: the constraints of `CreateOrderRequest`.
pub record IsRequest (b : CreateOrderRequest) : Type 0 where
  pub customer : b.customer_id ≢ ""
  pub nonempty : b.items ≢ []
  pub items : All IsItem b.items
  pub reference : b.payment.reference ≢ ""

abbrev pub payload_of : CreateOrderRequest → OrderCreatedPayload
payload_of b = record {
  customer_id = b.customer_id;
  items = b.items;
  total_amount = item_sum b.items;
  payment = b.payment;
}

paid-IsConsistent :
    (b : CreateOrderRequest)
    → IsRequest b
    → b.payment.amount ≡ item_sum b.items
    → IsConsistent (payload_of b)
paid-IsConsistent b v e = record {
  customer = v.customer;
  nonempty = v.nonempty;
  items = v.items;
  reference = v.reference;
  total = refl;
  paid = e;
}

module _ (pf : Platform) where
  -- A created order is in the store under the new id, `CREATED`, at sequence 1, with the total that
  -- its items sum to and that was paid; every other order is as it was.
  pub create_order_ok :
      (req : Request) (body : CreateOrderRequest) (app : App) (resp : CreateOrderResponse)
      → (create_order pf req body app).0 ≡ ok resp
      → (o : Order) × ((j : String)
          → Store.get j (create_order pf req body app).1.orders
            ≡ (if string_eq.beq req.new_order_id j then some o else Store.get j app.orders))
        × (o.state ≡ OrderState.created)
        × (o.last_sequence ≡ 1)
        × (o.total_amount ≡ item_sum o.items)
        × (o.payment.amount ≡ o.total_amount)
        × (resp.total_amount ≡ o.total_amount)
  unfolding create_order mirror_snapshot Store.register Store.get resulting_state
  create_order_ok req body app resp h =
      elim (Result-cases (validate_order_created (fields_of (payload_of body)))) [
        | inr (x, e) ↦ absurd (ground arith)
        | inl (p, e) ↦
            let c = validate_order_created-IsConsistent (fields_of (payload_of body)) p e in
            let o : Order = (Store.register req.new_order_id p app.orders).0 in
            (
              o,
              λ j. grind (arith, publish_lem, lookup-insert),
              refl,
              refl,
              c.total,
              c.paid,
              grind arith,
            )
      ]

  abbrev created_fields : Request → OrderCreatedPayload → EventFields
  created_fields req p = record {
    event_id = req.new_event_id;
    order_id = req.new_order_id;
    sequence = pos 1;
    event_type = EventType.order_created;
    occurred_at = req.now;
    payload = pf.pydantic.dump p;
  }

  -- The event of a new order passes its own validation.
  validate_event_created :
      (p : OrderCreatedPayload) (req : Request)
      → IsConsistent p
      → pf.pydantic.read_order_created (pf.pydantic.dump p) ≡ some (fields_of p)
      → (e : LifecycleEvent) × (validate_event pf.pydantic (created_fields req p) ≡ ok e)
  unfolding validate_event validate_payload gt_0
  validate_event_created p req c law = (
    record {
      event_id = req.new_event_id;
      order_id = req.new_order_id;
      sequence = 1;
      event_type = EventType.order_created;
      occurred_at = req.now;
      payload = pf.pydantic.dump p;
    },
    rw law (rw (validate_order_created-fields_of p c)),
  )

  -- A well-formed body is refused with 422 exactly when the payment is not the item sum, whatever the
  -- store holds and the client does; and 500 does not occur. The condition on pydantic is that it
  -- reads back what it dumped.
  pub create_order_status :
      (req : Request) (body : CreateOrderRequest) (app : App)
      → IsRequest body
      → pf.pydantic.read_order_created (pf.pydantic.dump (payload_of body))
        ≡ some (fields_of (payload_of body))
      → ((create_order pf req body app).0 ≢ err internal_error)
        × ((create_order pf req body app).0 ≡ err unprocessable
            → body.payment.amount ≢ item_sum body.items)
        × (body.payment.amount ≢ item_sum body.items
            → (create_order pf req body app).0 ≡ err unprocessable)
  unfolding create_order mirror_snapshot
  create_order_status req body app valid law =
      elim (Result-cases (validate_order_created (fields_of (payload_of body)))) [
        | inr (e, refused) ↦ (
          λ h. ground arith,
          λ h paid. cc (
            refused,
            validate_order_created-fields_of (payload_of body) (paid-IsConsistent body valid paid),
          ),
          λ _. ground arith,
        )
        | inl (p, e) ↦
            let paid = validate_order_created_paid (payload_of body) p e in
            let ok' =
              validate_order_created-fields_of (payload_of body)
                (paid-IsConsistent body valid paid) in
            let same : p ≡ payload_of body = cc (e, ok') in
            let fits =
              validate_event_created (payload_of body) req (paid-IsConsistent body valid paid)
                law in
            (
              λ h. grind (arith, publish_lem),
              λ h. grind (arith, publish_lem),
              λ unpaid. absurd (unpaid paid),
            )
      ]

  -- A published event carries the order's next number; the order in the store then has that
  -- number, and the event's resulting state unless the event was forced past the guard.
  pub publish_event_ok :
      (req : Request) (id : String) (body : PublishEventRequest) (app : App)
      (resp : PublishEventResponse)
      → (publish_event pf req id body app).0 ≡ ok resp
      → (o o' : Order) × (Store.get id app.orders ≡ some o)
        × (Store.get id (publish_event pf req id body app).1.orders ≡ some o')
        × IsAllowed body.event_type body.force o
        × (resp.sequence ≡ o.last_sequence + 1)
        × (o'.last_sequence ≡ resp.sequence)
        × (o'.state ≡ (
            if is_legal_transition body.event_type (some o.state)
            then resulting_state body.event_type
            else o.state))
        × (resp.state ≡ o'.state)
  unfolding publish_event publish_checked mirror_snapshot
  publish_event_ok req id body app resp h = elim (Option-cases (Store.get id app.orders)) [
    | inl unknown ↦ absurd (ground arith)
    | inr (o, known) ↦
        elim (Result-cases (Store.reserve id body.event_type body.force app.orders).0) [
          | inr (x, refused) ↦ absurd (ground arith)
          | inl (n, got) ↦
              let (q, found, allowed, next) =
                (reserve_iff id body.event_type body.force app.orders n).0 got in
              let o₁ : Order = record o { last_sequence = n } in
              let orders₁ = (Store.reserve id body.event_type body.force app.orders).1 in
              let held : Store.get id orders₁ ≡ some o₁ =
                rw (get-reserve id id body.event_type body.force app.orders n o known got)
                  (rw (beq_refl id)) in
              let (done, after) = commit_lem id body.event_type body.force orders₁ o₁ held in
              (
                o,
                committed body.event_type body.force o₁,
                known,
                grind (arith, publish_lem, after id, beq_refl id),
                ground arith,
                grind arith,
                grind arith,
                ground arith,
                grind (arith, publish_lem),
              )
        ]
  ]

  -- A delete that succeeds has taken the order, and no other, out of the store, and a tombstone
  -- under its id is the last message that the client took.
  pub delete_order_ok :
      (id : String) (app : App)
      → (delete_order pf id app).0 ≡ ok tt
      → ((j : String)
          → Store.get j (delete_order pf id app).1.orders
            ≡ (if string_eq.beq id j then none else Store.get j app.orders))
        × ((delete_order pf id app).1.wire
            ≡ app.wire
              ++ record { topic = pf.settings.order_snapshot_topic; key = utf8 id; value = none }
                ∷ [])
  unfolding delete_order publish_tombstone publish_blocking Store.get Store.remove produce_keyed
      await_report
  delete_order_ok id app h = (λ j. ground (arith, lookup-erase id j app.orders), ground arith)
