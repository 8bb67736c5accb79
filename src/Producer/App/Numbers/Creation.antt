-- ===== src/Producer/App/Numbers/Creation.antt =====
-- The creation, the deletion and the reading of an order: what they do to the numbers of an order.
use kafka_playgroud.Prelude.{
  ℕ, ◌≡◌, ◌⊎◌, inl, inr, refl, sym, ap, ◌∙◌, Option, some, List, [], ◌∷◌, ◌++◌, String, Result, ok,
  err, arith, Bool-cases, Result-cases, string_eq, ◌==◌, if◌then◌else◌, pos,
}
use mathlib.Core.List.{append-nil}
use mathlib.Core.Path.{subst}
use kafka_playgroud.Prelude.Action.{continue, ◌>>=◌, ◌>>◌, pure}
use kafka_playgroud.Dict.Laws.{lookup-insert}
use kafka_playgroud.Events.{
  LifecycleEvent, EventType, EventFields, ValueError, OrderCreatedPayload, gt_0, validate_event,
}
use kafka_playgroud.Events.{item_sum, validate_order_created}
use kafka_playgroud.Events.Payloads.{fields_of}
use kafka_playgroud.Producer.Orders as Store
use kafka_playgroud.Producer.Orders.{Order, Orders, OrderError}
use kafka_playgroud.Producer.Kafka.{DeliveryResult}
use kafka_playgroud.Producer.Routes.{
  App, Handler, Status, Platform, Request, CreateOrderRequest, publish, or_status, unprocessable,
  internal_error, CreateOrderResponse, mirror_snapshot, create_order,
}
use kafka_playgroud.Producer.App.Numbers.{number_at, known, IsReadable, numbers}
use kafka_playgroud.Producer.App.Numbers.Steps.{mirror-IsIdle, publish-MayPublish}

register_number :
    (new : String) (payload : OrderCreatedPayload) (j : String) (orders : Orders)
    → number_at (Store.get j (Store.register new payload orders).1)
      ≡ (if new == j then some 1 else number_at (Store.get j orders))
unfolding Store.register Store.get
register_number new payload j orders =
    ground (arith, lookup-insert new j (Store.register new payload orders).0 orders)

module _ (pf : Platform) (read : String → Option ℕ) (readable : IsReadable pf read) where
  -- Nothing has become of an order, or it is the new one: it was registered or not, and its first
  -- event published or not.
  abbrev pub Created : String → String → App → App → Type 0
  Created new id app app' =
      ((known id app' ≡ known id app) ⊎ ((new ≡ id) × (known id app' ≡ some 1)))
      × ((numbers pf read id app' ≡ numbers pf read id app)
          ⊎ ((new ≡ id) × (numbers pf read id app' ≡ numbers pf read id app ++ 1 ∷ [])))

  module _ (req : Request) (body : CreateOrderRequest) (payload : OrderCreatedPayload) where
    abbrev register_new : Handler Order
    register_new app =
        let (order, orders) = Store.register req.new_order_id payload app.orders in
        (ok order, record app { orders = orders })

    abbrev after_publish : DeliveryResult → Handler CreateOrderResponse
    after_publish result = do
      order ← register_new
      mirror_snapshot pf order
      pure (record {
        order_id = req.new_order_id;
        state = order.state;
        total_amount = order.total_amount;
        sequence = 1;
        partition = result.partition;
        offset = result.offset;
      })

    after_publish_view :
        (result : DeliveryResult) (j : String) (app : App)
        → (known j (after_publish result app).1
            ≡ (if req.new_order_id == j then some 1 else known j app))
          × (numbers pf read j (after_publish result app).1 ≡ numbers pf read j app)
    unfolding mirror_snapshot
    after_publish_view result j app =
        let registered = (register_new app).1 in
        let order = (Store.register req.new_order_id payload app.orders).0 in
        let (k, n) = mirror-IsIdle pf read readable order j registered in
        (k ∙ register_number req.new_order_id payload j app.orders, n)

    continue_created :
        (r : Result Status DeliveryResult) (j : String) (app : App)
        → ((known j (continue r after_publish app).1 ≡ known j app)
            ⊎ ((req.new_order_id ≡ j) × (known j (continue r after_publish app).1 ≡ some 1)))
          × (numbers pf read j (continue r after_publish app).1 ≡ numbers pf read j app)
    continue_created (err x) j app = (inl refl, refl)
    continue_created (ok result) j app =
        let (k, n) = after_publish_view result j app in
        elim (Bool-cases (req.new_order_id == j)) [
          | inl here ↦ (inr ((string_eq.beq_iff req.new_order_id j).0 here, k ∙ rw here refl), n)
          | inr other ↦ (inl (k ∙ rw other refl), n)
        ]

    after_event : LifecycleEvent → Handler CreateOrderResponse
    after_event event = publish pf event >>= after_publish

    after_event-Created :
        (event : LifecycleEvent) (j : String) (app : App)
        → event.order_id ≡ req.new_order_id
        → event.sequence ≡ 1
        → Created req.new_order_id j app (after_event event app).1
    unfolding after_event
    after_event-Created event j app is_new is_1 =
        let (k, numbered) = publish-MayPublish pf read readable event j app in
        let published = (publish pf event app).1 in
        let (k', n) = continue_created (publish pf event app).0 j published in
        let added : List ℕ = if event.order_id == j then event.sequence ∷ [] else [] in
        let before = numbers pf read j app in
        (
          elim k' [ inl kept ↦ inl (kept ∙ k) | inr new ↦ inr new ],
          elim numbered [
            | inl kept ↦ inl (n ∙ kept)
            | inr more ↦ elim (Bool-cases (req.new_order_id == j)) [
              | inl here ↦
                  let one : added ≡ 1 ∷ [] = ground (arith, is_new, is_1, here) in
                  inr (
                    (string_eq.beq_iff req.new_order_id j).0 here,
                    n ∙ more ∙ ap (λ ns. before ++ ns) one,
                  )
              | inr other ↦
                  let none_added : added ≡ [] = ground (arith, is_new, other) in
                  inl (n ∙ more ∙ ap (λ ns. before ++ ns) none_added ∙ append-nil before)
            ]
          ],
        )

    abbrev fields : EventFields
    fields = record {
      event_id = req.new_event_id;
      order_id = req.new_order_id;
      sequence = pos 1;
      event_type = EventType.order_created;
      occurred_at = req.now;
      payload = pf.pydantic.dump payload;
    }

    event_of :
        (event : LifecycleEvent)
        → validate_event pf.pydantic fields ≡ ok event
        → (event.order_id ≡ req.new_order_id) × (event.sequence ≡ 1)
    unfolding validate_event gt_0
    event_of event valid = (ground arith, ground arith)

    abbrev after_payload : Handler CreateOrderResponse
    after_payload = or_status internal_error (validate_event pf.pydantic fields) >>= after_event

    after_payload-Created :
        (j : String) (app : App) → Created req.new_order_id j app (after_payload app).1
    after_payload-Created j app =
        let tail = λ (r : Result ValueError LifecycleEvent).
          (or_status internal_error r >>= after_event) app in
        elim (Result-cases (validate_event pf.pydantic fields)) [
          | inl (event, valid) ↦
              let (is_new, is_1) = event_of event valid in
              subst
                (λ (r : Result Status CreateOrderResponse × App).
                  Created req.new_order_id j app r.1)
                (sym (ap tail valid)) (after_event-Created event j app is_new is_1)
          | inr (x, invalid) ↦
              subst
                (λ (r : Result Status CreateOrderResponse × App).
                  Created req.new_order_id j app r.1)
                (sym (ap tail invalid)) (inl refl, inl refl)
        ]

  pub create_order-Created :
      (req : Request) (body : CreateOrderRequest) (j : String) (app : App)
      → Created req.new_order_id j app (create_order pf req body app).1
  unfolding create_order after_event
  create_order-Created req body j app =
      let checked = validate_order_created (
        fields_of (record {
          customer_id = body.customer_id;
          items = body.items;
          total_amount = item_sum body.items;
          payment = body.payment;
        })) in
      let tail = λ (r : Result ValueError OrderCreatedPayload).
        (or_status unprocessable r >>= after_payload req body) app in
      elim (Result-cases checked) [
        | inl (payload, valid) ↦
            subst
              (λ (r : Result Status CreateOrderResponse × App). Created req.new_order_id j app r.1)
              (sym (ap tail valid)) (after_payload-Created req body payload j app)
        | inr (x, invalid) ↦
            subst
              (λ (r : Result Status CreateOrderResponse × App). Created req.new_order_id j app r.1)
              (sym (ap tail invalid)) (inl refl, inl refl)
      ]
