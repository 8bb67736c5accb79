-- ===== src/Producer/App/Numbers/Reserving.antt =====
-- The parts of `publish_event`: the reserved number, and the event that carries it.
use kafka_playgroud.Prelude.{
  ℕ, ◌+◌, ◌≡◌, refl, ap, Option, some, String, Result, ok, err, arith, string_eq, ◌==◌,
  if◌then◌else◌, pos,
}
use kafka_playgroud.Prelude.Action.{Action, continue, ◌>>=◌, ◌>>◌, pure}
use kafka_playgroud.Events.{LifecycleEvent, EventFields, gt_0, validate_event}
use kafka_playgroud.Producer.Orders as Store
use kafka_playgroud.Producer.Orders.{Order, Orders, OrderError}
use kafka_playgroud.Producer.Orders.Methods.{reserve_err, reserve_iff, get-reserve}
use kafka_playgroud.Producer.Routes.{
  App, Handler, Status, Platform, Request, PublishEventRequest, publish, on_orders, uncaught,
  order_status, or_status, internal_error, PublishEventResponse, mirror_snapshot, publish_checked,
}
use kafka_playgroud.Producer.App.Numbers.{number_at, known, IsReadable}
use kafka_playgroud.Producer.App.Numbers.Steps.{
  MayPublish, bind-IsIdle, bind-MayPublish, mirror-IsIdle, commit-IsIdle, publish-MayPublish,
}

on_orders_ok :
    {A : Type 0} (translate : OrderError → Status) (m : Action Orders OrderError A) (app : App)
    (a : A)
    → (m app.orders).0 ≡ ok a
    → on_orders translate m app ≡ (ok a, record app { orders = (m app.orders).1 })
on_orders_ok translate m app a e = ground (arith, e)

on_orders_err :
    {A : Type 0} (translate : OrderError → Status) (m : Action Orders OrderError A) (app : App)
    (x : OrderError)
    → (m app.orders).0 ≡ err x
    → (m app.orders).1 ≡ app.orders
    → on_orders translate m app ≡ (err (translate x), app)
on_orders_err translate m app x e same = ground (arith, e, same)

module _ (pf : Platform) (read : String → Option ℕ) (readable : IsReadable pf read) where
  module _ (req : Request) (id : String) (body : PublishEventRequest) where
    -- what follows the validation of the event in `publish_event`
    abbrev pub after_event : ℕ → LifecycleEvent → Handler PublishEventResponse
    after_event sequence event = do
      result ← publish pf event
      order ← on_orders uncaught (Store.commit id body.event_type body.force)
      mirror_snapshot pf order
      pure (record {
        order_id = id;
        sequence = sequence;
        event_type = body.event_type;
        state = order.state;
        partition = result.partition;
        offset = result.offset;
        forced = body.force;
      })

    pub after_event-MayPublish :
        (n : ℕ) (event : LifecycleEvent) → MayPublish pf read readable event (after_event n event)
    after_event-MayPublish n event =
        bind-MayPublish pf read readable event (publish pf event) _
          (publish-MayPublish pf read readable event)
          (λ result.
            bind-IsIdle pf read readable
              (on_orders uncaught (Store.commit id body.event_type body.force)) _
              (commit-IsIdle pf read readable id body.event_type body.force)
              (λ order.
                bind-IsIdle pf read readable (mirror_snapshot pf order) _
                  (mirror-IsIdle pf read readable order) (λ _ j app. (refl, refl))))

    -- what follows the reservation in `publish_event`
    abbrev pub after_reserve : ℕ → Handler PublishEventResponse
    after_reserve sequence = do
      event ← or_status internal_error (
          validate_event pf.pydantic (record {
            event_id = req.new_event_id;
            order_id = id;
            sequence = pos sequence;
            event_type = body.event_type;
            occurred_at = req.now;
            payload = body.payload;
          }))
      after_event sequence event

    pub reserve_first :
        (n : ℕ) (app : App)
        → (Store.reserve id body.event_type body.force app.orders).0 ≡ ok n
        → publish_checked pf req id body app
          ≡ after_reserve n
              (record app { orders = (Store.reserve id body.event_type body.force app.orders).1 })
    unfolding publish_checked
    reserve_first n app got =
        ap (λ (r : Result Status ℕ × App). continue r.0 after_reserve r.1)
          (on_orders_ok order_status (Store.reserve id body.event_type body.force) app n got)

    pub reserve_refused :
        (x : OrderError) (app : App)
        → (Store.reserve id body.event_type body.force app.orders).0 ≡ err x
        → publish_checked pf req id body app ≡ (err (order_status x), app)
    unfolding publish_checked
    reserve_refused x app refused =
        ap (λ (r : Result Status ℕ × App). continue r.0 after_reserve r.1)
          (on_orders_err order_status (Store.reserve id body.event_type body.force) app x refused
            (reserve_err id body.event_type body.force app.orders refused))

    abbrev pub fields : ℕ → EventFields
    fields n = record {
      event_id = req.new_event_id;
      order_id = id;
      sequence = pos n;
      event_type = body.event_type;
      occurred_at = req.now;
      payload = body.payload;
    }

    -- after a reservation, the order's number is the reserved one, and others' are as they were
    pub reserved_known :
        (j : String) (n : ℕ) (app : App)
        → (Store.reserve id body.event_type body.force app.orders).0 ≡ ok n
        → (m : ℕ) × (n ≡ m + 1)
          × (known id app ≡ some m)
          × (number_at (Store.get j (Store.reserve id body.event_type body.force app.orders).1)
              ≡ (if id == j then some n else known j app))
    reserved_known j n app got =
        let (o, found, allowed, next) =
          (reserve_iff id body.event_type body.force app.orders n).0 got in
        (
          o.last_sequence,
          next,
          ap number_at found,
          ground (arith, get-reserve id j body.event_type body.force app.orders n o found got),
        )

    pub event_of :
        (n : ℕ) (event : LifecycleEvent)
        → validate_event pf.pydantic (fields n) ≡ ok event
        → (event.order_id ≡ id) × (event.sequence ≡ n)
    unfolding validate_event gt_0
    event_of n event valid = (ground arith, ground arith)
