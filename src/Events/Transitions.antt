-- ===== src/Events/Transitions.antt =====
-- The transition table of events.py.
use kafka_playgroud.Prelude.{◌≡◌, ◌↔◌, true, Option, some, arith}
use kafka_playgroud.Events.{EventType, OrderState, expected_next_event, is_legal_transition}

-- An event type is the expected next one of a state exactly when the state is its legal
-- predecessor: the two tables cannot disagree.
pub expected_next_event_iff :
    (e : EventType) (s : Option OrderState)
    → (expected_next_event s ≡ some e) ↔ (is_legal_transition e s ≡ true)
unfolding expected_next_event is_legal_transition
expected_next_event_iff EventType.order_created s = ground arith
expected_next_event_iff EventType.packed s = ground arith
expected_next_event_iff EventType.shipped s = ground arith
expected_next_event_iff EventType.delivered s = ground arith
