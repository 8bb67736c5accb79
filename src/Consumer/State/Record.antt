-- ===== src/Consumer/State/Record.antt =====
-- `_Record`: a row of the local store, and its one encoding.
pub mod RoundTrip
use kafka_playgroud.Prelude.{
  ℕ, Bool, true, false, Option, none, some, String, ◌==◌, string_eq, if◌then◌else◌, ℤ, pos, negsuc,
  Result, ok, err,
}
use kafka_playgroud.Prelude.Json.{
  Bytes, utf8, raw, Json, Fields, null, bool, int, real, str, arr, obj, end, field, get_field,
  JsonCodec,
}
use kafka_playgroud.Prelude.Words.{int_of}
use kafka_playgroud.Events.{OrderState}
use kafka_playgroud.Consumer.Broker.{Exc}
use kafka_playgroud.Consumer.State.Protocol.{OrderFold, unavailable}

-- `last_event_id` is a text where this code wrote the record, and any value where it read one.
pub record Record : Type 0 where
  pub fold : OrderFold
  pub last_event_id : Json
  pub handled_count : ℕ

-- `str(state)`
abbrev pub state_text : OrderState → String
state_text OrderState.created = "CREATED"
state_text OrderState.packed = "PACKED"
state_text OrderState.shipped = "SHIPPED"
state_text OrderState.delivered = "DELIVERED"

-- `OrderState(text)`; `none` is `ValueError`
abbrev pub state_of_text : String → Option OrderState
state_of_text s =
    if s == "CREATED"
    then some OrderState.created
    else if s == "PACKED"
    then some OrderState.packed
    else if s == "SHIPPED"
    then some OrderState.shipped
    else if s == "DELIVERED"
    then some OrderState.delivered
    else none

abbrev pub state_json : Option OrderState → Json
state_json none = null
state_json (some s) = str (state_text s)

unfoldable pub record_json : Record → Json
record_json r = obj (
    field "last_sequence" (int (pos r.fold.last_sequence)) (
      field "state" (state_json r.fold.state) (
        field "last_event_id" r.last_event_id
          (field "handled_count" (int (pos r.handled_count)) end))))

-- `int(value)`; `none` is `TypeError` or `ValueError`
unfoldable pub int_of_json : Json → Option ℤ
int_of_json null = none
int_of_json (bool true) = some (pos 1)
int_of_json (bool false) = some (pos 0)
int_of_json (int z) = some z
int_of_json (real z) = some z
int_of_json (str s) = int_of s
int_of_json (arr _) = none
int_of_json (obj _) = none

-- A negative count, which no `encode` writes, is outside of the model and refused here.
abbrev pub natural : Option ℤ → Option ℕ
natural none = none
natural (some (pos n)) = some n
natural (some (negsuc n)) = none

-- `OrderState(state) if state is not None else None`; the outer `none` is `ValueError`
abbrev pub state_of_json : Json → Option (Option OrderState)
state_of_json null = some none
state_of_json (str s) = elim (state_of_text s) [ none ↦ none | some x ↦ some (some x) ]
state_of_json _ = none

abbrev pub int_field : String → Fields → Option ℕ
int_field name fs = elim (get_field name fs) [ none ↦ none | some j ↦ natural (int_of_json j) ]

abbrev pub state_field : Fields → Option (Option OrderState)
state_field fs = elim (get_field "state" fs) [ none ↦ none | some j ↦ state_of_json j ]

abbrev pub assemble :
    String → Option (Option OrderState) → Option ℕ → Option Json → Option ℕ → Option Record
assemble order_id (some state) (some last_sequence) (some event) (some handled) = some (record {
  fold = record { order_id = order_id; last_sequence = last_sequence; state = state };
  last_event_id = event;
  handled_count = handled;
})
assemble _ _ _ _ _ = none

unfoldable pub record_of_json : String → Json → Option Record
unfolding int_of_json
record_of_json order_id (obj fs) =
    assemble order_id (state_field fs) (int_field "last_sequence" fs) (get_field "last_event_id" fs)
      (int_field "handled_count" fs)
record_of_json order_id _ = none

module _ (codec : JsonCodec) where
  -- `_Record.encode`
  unfoldable pub encode : Record → Bytes
  unfolding record_json
  encode r = utf8 (codec.dumps (record_json r))

  -- `json.loads` on bytes
  abbrev pub loads_bytes : Bytes → Option Json
  loads_bytes (utf8 s) = codec.loads s
  loads_bytes (raw _) = none

  abbrev pub or_unavailable : Option Record → Result Exc Record
  or_unavailable none = err unavailable
  or_unavailable (some r) = ok r

  -- `_Record.decode`
  unfoldable pub decode : String → Bytes → Result Exc Record
  unfolding record_of_json
  decode order_id b = elim (loads_bytes b) [
    | none ↦ err unavailable
    | some j ↦ or_unavailable (record_of_json order_id j)
  ]
