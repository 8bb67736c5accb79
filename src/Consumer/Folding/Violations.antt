-- ===== src/Consumer/Folding/Violations.antt =====
-- When the fold reports a violation, and what a stream without one has seen.
use kafka_playgroud.Prelude.{
  ℕ, ◌+◌, ◌≡◌, ◌↔◌, refl, true, Option, none, some, List, [], ◌∷◌, ◌++◌, arith, nat_eq, length,
}
use kafka_playgroud.Events.{
  EventType, OrderState, LifecycleEvent, is_legal_transition, expected_next_event, resulting_state,
}
use kafka_playgroud.Events.Transitions.{expected_next_event_iff}
use kafka_playgroud.Consumer.State.{OrderFold}
use kafka_playgroud.Consumer.Folding.{Violation, apply_event}

abbrev pub sequence_before : Option OrderFold → ℕ
sequence_before none = 0
sequence_before (some fold) = fold.last_sequence

abbrev pub state_before : Option OrderFold → Option OrderState
state_before none = none
state_before (some fold) = fold.state

-- An event is folded without a violation exactly when it has the next sequence and is the event
-- that the table of expected events names for the order's state.
pub apply_event_clean_iff :
    (current : Option OrderFold) (event : LifecycleEvent)
    → ((apply_event current event).1 ≡ []) ↔ (
        (event.sequence ≡ sequence_before current + 1)
        × (expected_next_event (state_before current) ≡ some event.event_type))
unfolding apply_event
apply_event_clean_iff none event =
    ground (arith, expected_next_event_iff event.event_type none, nat_eq.beq_iff event.sequence 1)
apply_event_clean_iff (some fold) event = ground (
  arith,
  expected_next_event_iff event.event_type fold.state,
  nat_eq.beq_iff event.sequence (fold.last_sequence + 1),
)

-- The fold of a stream, with every violation reported on the way.
unfoldable pub apply_all :
    Option OrderFold → List LifecycleEvent → Option OrderFold × List Violation
apply_all current [] = (current, [])
apply_all current (e ∷ es) =
    let (fold, found) = apply_event current e in
    let (last, more) = apply_all (some fold) es in (last, found ++ more)

-- how many lifecycle events are left to an order in a state
abbrev pub events_left : Option OrderState → ℕ
events_left none = 4
events_left (some OrderState.created) = 3
events_left (some OrderState.packed) = 2
events_left (some OrderState.shipped) = 1
events_left (some OrderState.delivered) = 0

events_left_step :
    (s : Option OrderState) (e : EventType)
    → is_legal_transition e s ≡ true
    → events_left s ≡ events_left (some (resulting_state e)) + 1
unfolding is_legal_transition resulting_state
events_left_step s EventType.order_created h = ground arith
events_left_step s EventType.packed h = ground arith
events_left_step s EventType.shipped h = ground arith
events_left_step s EventType.delivered h = ground arith

pub after_one :
    (current : Option OrderFold) (e : LifecycleEvent)
    → (sequence_before (some (apply_event current e).0) ≡ e.sequence)
      × (state_before (some (apply_event current e).0) ≡ some (resulting_state e.event_type))
unfolding apply_event
after_one none e = (refl, refl)
after_one (some fold) e = (refl, refl)

append_nil_both : (xs ys : List Violation) → xs ++ ys ≡ [] → (xs ≡ []) × (ys ≡ [])
append_nil_both [] ys h = (refl, h)
append_nil_both (x ∷ xs) ys h = cc

-- A stream that is folded without a violation has counted its events: the last sequence is the
-- first one plus their number, and their number together with the events that are still left to
-- the order is the number that was left to it before.
pub apply_all_clean :
    (current : Option OrderFold) (es : List LifecycleEvent)
    → (apply_all current es).1 ≡ []
    → (sequence_before (apply_all current es).0 ≡ sequence_before current + length es)
      × (length es + events_left (state_before (apply_all current es).0)
          ≡ events_left (state_before current))
unfolding apply_all
apply_all_clean current [] h = (omega arith, omega arith)
apply_all_clean current (e ∷ es) h =
    let (first, later) = append_nil_both (apply_event current e).1 _ h in
    let (seq, next) = (apply_event_clean_iff current e).0 first in
    let (seq', state') = after_one current e in
    let (again, left) = apply_all_clean (some (apply_event current e).0) es later in
    let legal = (expected_next_event_iff e.event_type (state_before current)).0 next in
    (ground (arith), ground (arith, events_left_step (state_before current) e.event_type legal))
