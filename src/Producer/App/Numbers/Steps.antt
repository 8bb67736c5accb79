-- ===== src/Producer/App/Numbers/Steps.antt =====
-- The steps of the handlers: what they do to the numbers of an order.
use kafka_playgroud.Prelude.{
  ℕ, ◌≡◌, inl, inr, refl, ap, ◌∙◌, Bool, Option, String, Result, ok, err, arith, Option-cases,
  string_eq,
}
use kafka_playgroud.Prelude.Action.{Action, continue, ◌>>=◌}
use kafka_playgroud.Dict.{lookup}
use kafka_playgroud.Dict.Laws.{lookup-insert}
use kafka_playgroud.Events.{LifecycleEvent, EventType, resulting_state}
use kafka_playgroud.Producer.Orders as Store
use kafka_playgroud.Producer.Orders.{Order, Orders, OrderError}
use kafka_playgroud.Producer.Routes.{
  App, Handler, Status, Platform, publish, on_orders, uncaught, mirror_snapshot,
}
use kafka_playgroud.Producer.App.Numbers.{
  numbers_on, number_at, known, IsReadable, numbers, Numbered, publish_view, mirror_view,
}

pub on_orders-orders :
    {A : Type 0} (translate : OrderError → Status) (m : Action Orders OrderError A) (app : App)
    → ((on_orders translate m app).1.orders ≡ (m app.orders).1)
      × ((on_orders translate m app).1.wire ≡ app.wire)
on_orders-orders translate m app = (ground arith, ground arith)

-- `commit` changes no order's number.
commit_number :
    (id j : String) (type : EventType) (force : Bool) (orders : Orders)
    → number_at (Store.get j (Store.commit id type force orders).1) ≡ number_at (Store.get j orders)
unfolding Store.commit Store.get
commit_number id j type force orders = elim (Option-cases (lookup id orders)) [
  | inl unknown ↦ ground arith
  | inr (o, found) ↦ ground (
    arith,
    lookup-insert id j (record o { state = resulting_state type }) orders,
    string_eq.beq_iff id j,
  )
]

module _ (pf : Platform) (read : String → Option ℕ) (readable : IsReadable pf read) where
  -- A handler's step that moves no order's number and publishes no event.
  abbrev pub IsIdle : {A : Type 0} → Handler A → Type 0
  IsIdle a =
      (id : String) (app : App)
      → (known id (a app).1 ≡ known id app)
        × (numbers pf read id (a app).1 ≡ numbers pf read id app)

  -- one that may publish an event
  abbrev pub MayPublish : {A : Type 0} → LifecycleEvent → Handler A → Type 0
  MayPublish e a =
      (id : String) (app : App)
      → (known id (a app).1 ≡ known id app)
        × Numbered id e (numbers pf read id app) (numbers pf read id (a app).1)

  continue-IsIdle :
      {A B : Type 0} (r : Result Status A) (f : A → Handler B) (id : String) (app : App)
      → ((x : A) → IsIdle (f x))
      → (known id (continue r f app).1 ≡ known id app)
        × (numbers pf read id (continue r f app).1 ≡ numbers pf read id app)
  continue-IsIdle (ok x) f id app h = h x id app
  continue-IsIdle (err x) f id app h = (refl, refl)

  pub bind-IsIdle :
      {A B : Type 0} (a : Handler A) (f : A → Handler B)
      → IsIdle a
      → ((x : A) → IsIdle (f x))
      → IsIdle (a >>= f)
  bind-IsIdle a f q h id app =
      let after = continue-IsIdle (a app).0 f id (a app).1 h in
      (after.0 ∙ (q id app).0, after.1 ∙ (q id app).1)

  pub bind-MayPublish :
      {A B : Type 0} (e : LifecycleEvent) (a : Handler A) (f : A → Handler B)
      → MayPublish e a
      → ((x : A) → IsIdle (f x))
      → MayPublish e (a >>= f)
  bind-MayPublish e a f q h id app =
      let after = continue-IsIdle (a app).0 f id (a app).1 h in
      let (k, n) = q id app in
      (after.0 ∙ k, elim n [ inl same ↦ inl (after.1 ∙ same) | inr more ↦ inr (after.1 ∙ more) ])

  pub mirror-IsIdle : (o : Order) → IsIdle (mirror_snapshot pf o)
  mirror-IsIdle o id app = mirror_view pf read readable id o app

  pub commit-IsIdle :
      (id : String) (type : EventType) (force : Bool)
      → IsIdle (on_orders uncaught (Store.commit id type force))
  commit-IsIdle id type force j app =
      let (o, w) = on_orders-orders uncaught (Store.commit id type force) app in
      (
        ap (λ orders. number_at (Store.get j orders)) o ∙ commit_number id j type force app.orders,
        ap (λ wire. numbers_on pf.settings.order_lifecycle_topic read j wire) w,
      )

  pub publish-MayPublish : (e : LifecycleEvent) → MayPublish e (publish pf e)
  publish-MayPublish e id app = publish_view pf read readable id e app
