-- ===== src/Producer/Routes/Guards.antt =====
-- What a refused request has not done.
use kafka_playgroud.Prelude.{◌≡◌, ◌⊎◌, String, err, arith}
use kafka_playgroud.Events.{LifecycleEvent}
use kafka_playgroud.Producer.Orders.Methods.{reserve_err}
use kafka_playgroud.Producer.Routes.{
  Status, not_found, conflict, unprocessable, bad_gateway, gateway_timeout, App, CreateOrderRequest,
  PublishEventRequest, Platform, Request, publish, mirror_snapshot, create_order, publish_checked,
  publish_event, delete_order,
}

module _ (pf : Platform) where
  -- Publishing leaves the orders alone, and fails with 502 or 504 only.
  pub publish_lem :
      (event : LifecycleEvent) (app : App)
      → ((publish pf event app).1.orders ≡ app.orders)
        × ((x : Status)
            → (publish pf event app).0 ≡ err x
            → (x ≡ bad_gateway) ⊎ (x ≡ gateway_timeout))
  unfolding publish
  publish_lem event app = (ground arith, λ x h. ground arith)

  -- A creation that fails, for whatever reason, leaves no order behind.
  pub create_order_failed :
      (req : Request) (body : CreateOrderRequest) (app : App) (x : Status)
      → (create_order pf req body app).0 ≡ err x
      → (create_order pf req body app).1.orders ≡ app.orders
  unfolding create_order mirror_snapshot
  create_order_failed req body app x h = grind (arith, publish_lem)

  -- A delete that fails leaves every order in place; one of an unknown order publishes nothing.
  pub delete_order_failed :
      (id : String) (app : App) (x : Status)
      → (delete_order pf id app).0 ≡ err x
      → ((delete_order pf id app).1.orders ≡ app.orders)
        × (x ≡ not_found → (delete_order pf id app).1 ≡ app)
  unfolding delete_order
  delete_order_failed id app x h = ground arith

  -- An event that is refused with 404, 422 or 409 has spent no number and published nothing.
  pub publish_event_refused :
      (req : Request) (id : String) (body : PublishEventRequest) (app : App) (x : Status)
      → (publish_event pf req id body app).0 ≡ err x
      → (x ≡ not_found) ⊎ (x ≡ unprocessable) ⊎ (x ≡ conflict)
      → (publish_event pf req id body app).1 ≡ app
  unfolding publish_event publish_checked mirror_snapshot
  publish_event_refused req id body app x h refused = grind (arith, publish_lem, reserve_err)
