-- ===== src/Producer/App/Numbers/Handlers.antt =====
-- `publish_event`: what it does to the numbers of an order.
use kafka_playgroud.Prelude.{
  ℕ, ◌+◌, ◌≡◌, ◌⊎◌, inl, inr, refl, sym, ap, ◌∙◌, Option, some, List, [], ◌∷◌, ◌++◌, String, Result,
  arith, Bool-cases, Result-cases, string_eq, ◌==◌, if◌then◌else◌,
}
use mathlib.Core.List.{append-nil}
use mathlib.Core.Path.{subst}
use kafka_playgroud.Prelude.Action.{◌>>=◌}
use kafka_playgroud.Events.{LifecycleEvent, ValueError, validate_event}
use kafka_playgroud.Producer.Orders as Store
use kafka_playgroud.Producer.Orders.{Order, Orders, OrderError}
use kafka_playgroud.Producer.Routes.{
  App, Status, Platform, Request, PublishEventRequest, or_status, internal_error,
  PublishEventResponse, publish_checked, publish_event,
}
use kafka_playgroud.Producer.App.Numbers.{known, IsReadable, numbers}
use kafka_playgroud.Producer.App.Numbers.Reserving.{
  after_event-MayPublish, after_event, after_reserve, reserve_first, reserve_refused, fields,
  reserved_known, event_of,
}

module _ (pf : Platform) (read : String → Option ℕ) (readable : IsReadable pf read) where
  -- Nothing has become of an order, or its number has been counted up by one and the event of that
  -- number been published or not.
  abbrev pub Posted : String → App → App → Type 0
  Posted id app app' =
      ((known id app' ≡ known id app) × (numbers pf read id app' ≡ numbers pf read id app))
      ⊎ ((n : ℕ) × (known id app ≡ some n)
          × (known id app' ≡ some (n + 1))
          × ((numbers pf read id app' ≡ numbers pf read id app)
              ⊎ (numbers pf read id app' ≡ numbers pf read id app ++ (n + 1) ∷ [])))

  module _ (req : Request) (id : String) (body : PublishEventRequest) where
    after_event-Posted :
        (j : String) (m n : ℕ) (event : LifecycleEvent) (app app' : App)
        → n ≡ m + 1
        → known id app ≡ some m
        → known j app' ≡ (if id == j then some n else known j app)
        → numbers pf read j app' ≡ numbers pf read j app
        → event.order_id ≡ id
        → event.sequence ≡ n
        → Posted j app (after_event pf read readable req id body n event app').1
    after_event-Posted j m n event app app' next at_m at_n same is_id is_n =
        let (k, numbered) = after_event-MayPublish pf read readable req id body n event j app' in
        let added : List ℕ = if event.order_id == j then event.sequence ∷ [] else [] in
        let before = numbers pf read j app in
        elim (Bool-cases (id == j)) [
          | inl here ↦
              let is_j : id ≡ j = (string_eq.beq_iff id j).0 here in
              let one : added ≡ (m + 1) ∷ [] = ground (arith, is_id, is_n, here, next) in
              inr (
                m,
                subst (λ i. known i app ≡ some m) is_j at_m,
                k ∙ at_n ∙ rw here (ap some next),
                elim numbered [
                  | inl kept ↦ inl (kept ∙ same)
                  | inr more ↦
                      inr (more ∙ ap (λ ns. ns ++ added) same ∙ ap (λ ns. before ++ ns) one)
                ],
              )
          | inr other ↦
              let none_added : added ≡ [] = ground (arith, is_id, other) in
              inl (
                k ∙ at_n ∙ rw other refl,
                elim numbered [
                  | inl kept ↦ kept ∙ same
                  | inr more ↦
                      more
                      ∙ ap (λ ns. ns ++ added) same
                      ∙ ap (λ ns. before ++ ns) none_added
                      ∙ append-nil before
                ],
              )
        ]

    -- a number that was reserved, for an event that is not published
    reserved-Posted :
        (j : String) (m n : ℕ) (app app' : App)
        → n ≡ m + 1
        → known id app ≡ some m
        → known j app' ≡ (if id == j then some n else known j app)
        → numbers pf read j app' ≡ numbers pf read j app
        → Posted j app app'
    reserved-Posted j m n app app' next at_m at_n same = elim (Bool-cases (id == j)) [
      | inl here ↦
          let is_j : id ≡ j = (string_eq.beq_iff id j).0 here in
          inr (
            m,
            subst (λ i. known i app ≡ some m) is_j at_m,
            at_n ∙ rw here (ap some next),
            inl same,
          )
      | inr other ↦ inl (at_n ∙ rw other refl, same)
    ]

    after_reserve-Posted :
        (j : String) (m n : ℕ) (app app' : App)
        → n ≡ m + 1
        → known id app ≡ some m
        → known j app' ≡ (if id == j then some n else known j app)
        → numbers pf read j app' ≡ numbers pf read j app
        → Posted j app (after_reserve pf read readable req id body n app').1
    after_reserve-Posted j m n app app' next at_m at_n same =
        let tail = λ (r : Result ValueError LifecycleEvent).
          (or_status internal_error r >>= after_event pf read readable req id body n) app' in
        elim (Result-cases (validate_event pf.pydantic (fields pf read readable req id body n))) [
          | inl (event, valid) ↦
              let (is_id, is_n) = event_of pf read readable req id body n event valid in
              subst (λ (r : Result Status PublishEventResponse × App). Posted j app r.1)
                (sym (ap tail valid))
                (after_event-Posted j m n event app app' next at_m at_n same is_id is_n)
          | inr (x, invalid) ↦
              subst (λ (r : Result Status PublishEventResponse × App). Posted j app r.1)
                (sym (ap tail invalid)) (reserved-Posted j m n app app' next at_m at_n same)
        ]

    publish_checked-Posted :
        (j : String) (app : App) → Posted j app (publish_checked pf req id body app).1
    publish_checked-Posted j app =
        let reserved = Store.reserve id body.event_type body.force app.orders in
        elim (Result-cases reserved.0) [
          | inl (n, got) ↦
              let (m, next, at_m, at_n) = reserved_known pf read readable req id body j n app got in
              subst (λ (r : Result Status PublishEventResponse × App). Posted j app r.1)
                (sym (reserve_first pf read readable req id body n app got))
                (after_reserve-Posted j m n app (record app { orders = reserved.1 }) next at_m at_n
                  refl)
          | inr (x, refused) ↦
              subst (λ (r : Result Status PublishEventResponse × App). Posted j app r.1)
                (sym (reserve_refused pf read readable req id body x app refused))
                (inl (refl, refl))
        ]

    checked_or_refused :
        (app : App)
        → ((publish_event pf req id body app).1 ≡ app)
          ⊎ ((publish_event pf req id body app).1 ≡ (publish_checked pf req id body app).1)
    unfolding publish_event
    checked_or_refused app = ground arith

    -- Whatever comes of a posted event, the number of each order is kept, or was counted up by one
    -- and the event of that number published or not.
    pub publish_event-Posted :
        (j : String) (app : App) → Posted j app (publish_event pf req id body app).1
    publish_event-Posted j app = elim (checked_or_refused app) [
      | inl refused ↦ subst (λ app'. Posted j app app') (sym refused) (inl (refl, refl))
      | inr checked ↦ subst (λ app'. Posted j app app') (sym checked) (publish_checked-Posted j app)
    ]
