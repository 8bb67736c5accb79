-- ===== src/Producer/App/Numbers/Deletion.antt =====
-- The deletion and the reading of an order: what they do to the numbers of an order.
use kafka_playgroud.Prelude.{
  ℕ, ◌≡◌, ◌⊎◌, inl, inr, refl, sym, ap, ◌∙◌, Option, none, String, Result, ok, err, arith,
  Bool-cases, Option-cases, string_eq, ◌==◌, if◌then◌else◌,
}
use mathlib.Core.Path.{subst}
use kafka_playgroud.Prelude.Action.{continue, ◌>>◌}
use kafka_playgroud.Dict.{lookup}
use kafka_playgroud.Dict.Laws.{lookup-erase}
use kafka_playgroud.Producer.Orders.{OrderError}
use kafka_playgroud.Producer.Orders as Store
use kafka_playgroud.Producer.Orders.{Order, Orders}
use kafka_playgroud.Producer.Kafka.{publish_tombstone}
use kafka_playgroud.Producer.Routes.{
  App, Handler, Status, Platform, on_wire, require_order, forget_order, delete_order, get_order,
}
use kafka_playgroud.Producer.App.Numbers.{
  numbers_on, number_at, known, IsReadable, numbers, snapshot_numbers, publish_blocking-Grows,
  on_wire-wire,
}

removed_number :
    (id j : String) (orders : Orders)
    → number_at (Store.get j (Store.remove id orders).1)
      ≡ (if id == j then none else number_at (Store.get j orders))
unfolding Store.remove Store.get
removed_number id j orders = elim (Option-cases (lookup id orders)) [
  | inl unknown ↦ ground (arith, unknown, string_eq.beq_iff id j)
  | inr (o, found) ↦ ground (arith, found, lookup-erase id j orders)
]

module _ (pf : Platform) (read : String → Option ℕ) (readable : IsReadable pf read) where
  -- An order that is forgotten, or left as it is.
  abbrev pub Kept : String → App → App → Type 0
  Kept id app app' =
      ((known id app' ≡ known id app) ⊎ (known id app' ≡ none))
      × (numbers pf read id app' ≡ numbers pf read id app)

  tombstone_kept :
      (id j : String) (app : App)
      → (known j (on_wire (publish_tombstone pf.client pf.settings id) app).1 ≡ known j app)
        × (numbers pf read j (on_wire (publish_tombstone pf.client pf.settings id) app).1
            ≡ numbers pf read j app)
  unfolding publish_tombstone
  tombstone_kept id j app =
      let m = publish_tombstone pf.client pf.settings id in
      let (w, o) = on_wire-wire m app in
      (
        ap (λ orders. number_at (Store.get j orders)) o,
        ap (λ wire. numbers_on pf.settings.order_lifecycle_topic read j wire) w
            ∙ snapshot_numbers pf read readable j _ _ app.wire _
                (publish_blocking-Grows pf.client pf.settings _ app.wire),
      )

  forget-Kept : (id j : String) (app : App) → Kept j app (forget_order pf id app).1
  forget-Kept id j app = (
    elim (Bool-cases (id == j)) [
      | inl here ↦ inr (removed_number id j app.orders ∙ rw here refl)
      | inr other ↦ inl (removed_number id j app.orders ∙ rw other refl)
    ],
    refl,
  )

  continue_forget :
      {A : Type 0} (r : Result Status A) (id j : String) (app : App)
      → Kept j app (continue r (λ _. forget_order pf id) app).1
  continue_forget (ok _) id j app = forget-Kept id j app
  continue_forget (err _) id j app = (inl refl, refl)

  require_same : (id : String) (app : App) → (require_order id app).1 ≡ app
  require_same id app = ground arith

  abbrev after_require : String → Handler Unit
  after_require id = do on_wire (publish_tombstone pf.client pf.settings id); forget_order pf id

  after_require-Kept : (id j : String) (app : App) → Kept j app (after_require id app).1
  after_require-Kept id j app =
      let sent = on_wire (publish_tombstone pf.client pf.settings id) app in
      let (k, n) = tombstone_kept id j app in
      let (k', n') = continue_forget sent.0 id j sent.1 in
      (elim k' [ inl same ↦ inl (same ∙ k) | inr gone ↦ inr gone ], n' ∙ n)

  continue_require :
      (r : Result Status Order) (id j : String) (app : App)
      → Kept j app (continue r (λ _. after_require id) app).1
  continue_require (ok _) id j app = after_require-Kept id j app
  continue_require (err _) id j app = (inl refl, refl)

  pub delete_order-Kept : (id j : String) (app : App) → Kept j app (delete_order pf id app).1
  unfolding delete_order
  delete_order-Kept id j app =
      let required = require_order id app in
      subst (λ app'. Kept j app' (delete_order pf id app).1) (require_same id app)
        (continue_require required.0 id j required.1)

  pub get_order-Kept : (id j : String) (app : App) → Kept j app (get_order pf id app).1
  unfolding get_order
  get_order-Kept id j app =
      let same : (get_order pf id app).1 ≡ app = ground arith in
      subst (λ app'. Kept j app app') (sym same) (inl refl, refl)
