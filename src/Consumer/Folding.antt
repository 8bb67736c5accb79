-- ===== src/Consumer/Folding.antt =====
-- src/order_service/consumer/runtime.py: the fold of an event into an order's state, with the
-- violations that the consumer reports, and what it reads from a message's key and headers.
pub mod Violations
use kafka_playgroud.Prelude.{
  ℕ, ◌+◌, Bool, true, false, Option, none, some, List, [], ◌∷◌, ◌++◌, String, ◌==◌, nat_eq,
  string_eq, if◌then◌else◌, ℤ, pos, negsuc, max,
}
use kafka_playgroud.Prelude.Json.{Bytes, utf8, raw}
use kafka_playgroud.Prelude.Words.{str_of, int_of}
use kafka_playgroud.Dict.{lookup}
use Prim.Native.String.{◌++◌ as ◌++ˢ◌}
use kafka_playgroud.Events.{
  EventType, OrderState, LifecycleEvent, is_legal_transition, expected_next_event, resulting_state,
}
use kafka_playgroud.Consumer.Broker.{Message}
use kafka_playgroud.Consumer.Dlq.{Headers, hdr_attempt}
use kafka_playgroud.Consumer.State.{OrderFold}

pub data ViolationType : Type 0 where
  sequence_gap illegal_transition : ViolationType

pub record Violation : Type 0 where
  pub type : ViolationType
  pub order_id : String
  pub sequence : ℕ
  pub expected : String
  pub observed : String

-- `str` of an event type
abbrev pub event_text : EventType → String
event_text EventType.order_created = "ORDER_CREATED"
event_text EventType.packed = "PACKED"
event_text EventType.shipped = "SHIPPED"
event_text EventType.delivered = "DELIVERED"

-- `str` of a state, or of its absence
abbrev pub state_text : Option OrderState → String
state_text none = "None"
state_text (some OrderState.created) = "CREATED"
state_text (some OrderState.packed) = "PACKED"
state_text (some OrderState.shipped) = "SHIPPED"
state_text (some OrderState.delivered) = "DELIVERED"

-- the key of a message, for a log line or as an order's id
unfoldable pub key_of : Message → String
key_of m = elim m.key [
  | none ↦ "<null>"
  | some b ↦ elim b [ utf8 k ↦ k | raw _ ↦ "<undecodable-key>" ]
]

-- `max(1, int(...))`
abbrev pub at_least_1 : Option ℤ → ℕ
at_least_1 none = 1
at_least_1 (some (pos n)) = max 1 n
at_least_1 (some (negsuc _)) = 1

-- `_attempt_of`
unfoldable pub attempt_of : Headers → ℕ
attempt_of headers = elim (lookup hdr_attempt headers) [
  | none ↦ 1
  | some text ↦ at_least_1 (int_of text)
]

-- the fold of an order before its first event
abbrev pub fold_or_new : Option OrderFold → LifecycleEvent → OrderFold
fold_or_new none event = record { order_id = event.order_id; last_sequence = 0; state = none }
fold_or_new (some fold) event = fold

abbrev pub gaps : OrderFold → LifecycleEvent → List Violation
gaps fold event =
    if event.sequence == (fold.last_sequence + 1)
    then []
    else record {
      type = sequence_gap;
      order_id = event.order_id;
      sequence = event.sequence;
      expected = str_of (fold.last_sequence + 1);
      observed = str_of event.sequence;
    }
      ∷ []

abbrev pub expected_text : Option EventType → String
expected_text none = "nothing (lifecycle complete)"
expected_text (some e) = event_text e

abbrev pub illegal : OrderFold → LifecycleEvent → List Violation
illegal fold event =
    if is_legal_transition event.event_type fold.state
    then []
    else record {
      type = illegal_transition;
      order_id = event.order_id;
      sequence = event.sequence;
      expected = expected_text (expected_next_event fold.state);
      observed = event_text event.event_type ++ˢ (" after " ++ˢ state_text fold.state);
    }
      ∷ []

-- `apply_event`
unfoldable pub apply_event : Option OrderFold → LifecycleEvent → OrderFold × List Violation
apply_event current event =
    let fold = fold_or_new current event in
    (
      record fold {
        last_sequence = event.sequence;
        state = some (resulting_state event.event_type);
      },
      gaps fold event ++ illegal fold event,
    )
