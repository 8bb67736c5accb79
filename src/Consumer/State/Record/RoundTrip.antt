-- ===== src/Consumer/State/Record/RoundTrip.antt =====
-- What is written is what is read.
use kafka_playgroud.Prelude.{◌≡◌, refl, some, none, ok, Option}
use kafka_playgroud.Prelude.Json.{JsonCodec}
use kafka_playgroud.Events.{OrderState}
use kafka_playgroud.Consumer.State.Record.{
  Record, record_json, encode, decode, state_of_json, state_json,
}

state_of_json-state_json : (s : Option OrderState) → state_of_json (state_json s) ≡ some s
state_of_json-state_json none = refl
state_of_json-state_json (some OrderState.created) = refl
state_of_json-state_json (some OrderState.packed) = refl
state_of_json-state_json (some OrderState.shipped) = refl
state_of_json-state_json (some OrderState.delivered) = refl

-- An encoded record decodes to itself, under the key of its own order. The condition on the json
-- module is that it reads back what it wrote for this record.
pub decode-encode :
    (codec : JsonCodec) (r : Record)
    → codec.loads (codec.dumps (record_json r)) ≡ some (record_json r)
    → decode codec r.fold.order_id (encode codec r) ≡ ok r
unfolding decode encode
decode-encode codec r law = rw law (rw (state_of_json-state_json r.fold.state))
