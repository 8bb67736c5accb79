-- ===== src/Producer/Orders/Tests.antt =====
-- Witnesses for the order store: an interleaving that is reached, and the late commit.
use kafka_playgroud.Prelude.{◌≡◌, refl, false, some, [], ◌∷◌, ok, pair_eq, string_eq, nat_eq}
use kafka_playgroud.Dict.{lookup, insert}
use kafka_playgroud.Events.{
  EventType, OrderState, PaymentMethod, OrderCreatedPayload, resulting_state, is_legal_transition,
}
use kafka_playgroud.Producer.Orders.{Order, Orders, get, register, reserve}
use kafka_playgroud.Producer.Orders.Interleaving.{
  System, Reach, here, next, registers, reserves, IsSequenced,
}
use kafka_playgroud.Producer.Orders.Interleaving.Numbers.{Reach-IsSequenced}
use kafka_playgroud.Producer.Orders.Interleaving.Races.{late_commit, late_commit_regresses}

abbrev pub payload : OrderCreatedPayload
payload = record {
  customer_id = "c-1";
  items = record { sku = "tea"; qty = 2; unit_price = 30 } ∷ [];
  total_amount = 60;
  payment = record { method = PaymentMethod.card; reference = "r-1"; amount = 60 };
}

abbrev registered : System
registered = record { orders = (register "o-1" payload []).1; issued = ("o-1", 1) ∷ [] }

reserved : (reserve "o-1" EventType.packed false registered.orders).0 ≡ ok 2
unfolding reserve register lookup insert resulting_state is_legal_transition
reserved = refl

-- two requests for `PACKED` have both reserved
abbrev raced : System
raced = record {
  orders =
      (reserve "o-1" EventType.packed false
        (reserve "o-1" EventType.packed false registered.orders).1).1;
  issued = ("o-1", 3) ∷ ("o-1", 2) ∷ ("o-1", 1) ∷ [];
}

reserved_twice :
    (reserve "o-1" EventType.packed false
      (reserve "o-1" EventType.packed false registered.orders).1).0
    ≡ ok 3
unfolding reserve register lookup insert resulting_state is_legal_transition
reserved_twice = refl

reach : Reach raced
reach =
    next
      (next (next here (registers "o-1" payload (λ n. refl)))
        (reserves "o-1" EventType.packed false 2 reserved))
      (reserves "o-1" EventType.packed false 3 reserved_twice)

Reach-IsSequenced_example : IsSequenced raced
Reach-IsSequenced_example = Reach-IsSequenced reach

abbrev packed : Order
packed = record {
  order_id = "o-1";
  customer_id = "c-1";
  items = payload.items;
  total_amount = 60;
  payment = payload.payment;
  state = OrderState.packed;
  last_sequence = 2;
}

abbrev one_order : Orders
one_order = ("o-1", packed) ∷ []

late_commit_regresses_example :
    get "o-1" (late_commit "o-1" one_order)
    ≡ some (record packed { state = OrderState.shipped; last_sequence = 5 })
unfolding get lookup
late_commit_regresses_example = late_commit_regresses "o-1" one_order packed refl refl
