-- ===== src/Events.antt =====
-- src/order_service/events.py: the event contract that the producer and every consumer share.
-- A field is first read by pydantic (`Pydantic`, a parameter) into the unvalidated record of its
-- model; the constraints and validators written in the source then give the validated one, in
-- which a number known to be positive is a natural number. A time is a count of milliseconds.
pub mod Transitions
pub mod Payloads
mod Tests
use kafka_playgroud.Prelude.{
  ℕ, suc, zero, ◌+◌, ◌*◌, ◌≡◌, ◌↔◌, Bool, true, false, Option, none, some, List, [], ◌∷◌, String,
  Eq, arith, ◌==◌, if◌then◌else◌, ◌&&◌, ℤ, pos, negsuc, Result, ok, err, string_eq, int_eq,
}
use kafka_playgroud.Prelude.Json.{Json}

pub data EventType : Type 0 where
  order_created packed shipped delivered : EventType

pub data OrderState : Type 0 where
  created packed shipped delivered : OrderState

pub data PaymentMethod : Type 0 where
  card bkash nagad : PaymentMethod

abbrev pub event_beq : EventType → EventType → Bool
event_beq EventType.order_created EventType.order_created = true
event_beq EventType.packed EventType.packed = true
event_beq EventType.shipped EventType.shipped = true
event_beq EventType.delivered EventType.delivered = true
event_beq _ _ = false

pub event_beq_iff : (a b : EventType) → (event_beq a b ≡ true) ↔ (a ≡ b)
event_beq_iff EventType.order_created b = ground arith
event_beq_iff EventType.packed b = ground arith
event_beq_iff EventType.shipped b = ground arith
event_beq_iff EventType.delivered b = ground arith

instance abbrev pub event_type_eq : Eq EventType
event_type_eq = record { beq = event_beq; beq_iff = event_beq_iff }

abbrev pub state_beq : Option OrderState → Option OrderState → Bool
state_beq none none = true
state_beq (some OrderState.created) (some OrderState.created) = true
state_beq (some OrderState.packed) (some OrderState.packed) = true
state_beq (some OrderState.shipped) (some OrderState.shipped) = true
state_beq (some OrderState.delivered) (some OrderState.delivered) = true
state_beq _ _ = false

pub state_beq_iff : (a b : Option OrderState) → (state_beq a b ≡ true) ↔ (a ≡ b)
state_beq_iff none b = ground arith
state_beq_iff (some OrderState.created) b = ground arith
state_beq_iff (some OrderState.packed) b = ground arith
state_beq_iff (some OrderState.shipped) b = ground arith
state_beq_iff (some OrderState.delivered) b = ground arith

instance abbrev pub state_eq : Eq (Option OrderState)
state_eq = record { beq = state_beq; beq_iff = state_beq_iff }

-- `EventType`'s members in the order of their declaration, which iteration follows.
abbrev pub event_types : List EventType
event_types =
    EventType.order_created ∷ EventType.packed ∷ EventType.shipped ∷ EventType.delivered ∷ []

unfoldable pub legal_predecessor : EventType → Option OrderState
legal_predecessor EventType.order_created = none
legal_predecessor EventType.packed = some OrderState.created
legal_predecessor EventType.shipped = some OrderState.packed
legal_predecessor EventType.delivered = some OrderState.shipped

unfoldable pub resulting_state : EventType → OrderState
resulting_state EventType.order_created = OrderState.created
resulting_state EventType.packed = OrderState.packed
resulting_state EventType.shipped = OrderState.shipped
resulting_state EventType.delivered = OrderState.delivered

-- The dict comprehension that inverts `LEGAL_PREDECESSOR`, as a lookup: of two event types with
-- one predecessor the later would win.
unfoldable pub find_next : Option OrderState → List EventType → Option EventType
unfolding legal_predecessor
find_next s [] = none
find_next s (e ∷ es) =
    let later = find_next s es in
    elim later [ some e' ↦ some e' | none ↦ if legal_predecessor e == s then some e else none ]

-- `EXPECTED_NEXT_EVENT.get(state)`
unfoldable pub expected_next_event : Option OrderState → Option EventType
unfolding find_next
expected_next_event s = find_next s event_types

unfoldable pub is_legal_transition : EventType → Option OrderState → Bool
unfolding legal_predecessor
is_legal_transition e current = legal_predecessor e == current

pub record OrderItem : Type 0 where
  pub sku : String
  pub qty : ℕ
  pub unit_price : ℕ

abbrev pub line_total : OrderItem → ℕ
line_total i = i.qty * i.unit_price

-- `sum(item.line_total for item in items)`
unfoldable pub item_sum : List OrderItem → ℕ
item_sum [] = 0
item_sum (i ∷ is) = line_total i + item_sum is

pub record PaymentInfo : Type 0 where
  pub method : PaymentMethod
  pub reference : String
  pub amount : ℕ

pub record OrderCreatedPayload : Type 0 where
  pub customer_id : String
  pub items : List OrderItem
  pub total_amount : ℕ
  pub payment : PaymentInfo

pub record ShippedPayload : Type 0 where
  pub carrier : String
  pub tracking_number : String

-- The models as pydantic reads them, before a constraint is checked.
pub record ItemFields : Type 0 where
  pub sku : String
  pub qty : ℤ
  pub unit_price : ℤ

pub record PaymentFields : Type 0 where
  pub method : PaymentMethod
  pub reference : String
  pub amount : ℤ

pub record OrderCreatedFields : Type 0 where
  pub customer_id : String
  pub items : List ItemFields
  pub total_amount : ℤ
  pub payment : PaymentFields

pub record EventFields : Type 0 where
  pub event_id : String
  pub order_id : String
  pub sequence : ℤ
  pub event_type : EventType
  pub occurred_at : ℕ
  pub payload : Json

-- What pydantic does with a decoded json value: it finds each field of the model and converts it
-- to the field's type; `none` where a field is missing or does not convert. `dump` is
-- `model_dump(mode="json")`.
pub record Pydantic : Type 0 where
  pub read_order_created : Json → Option OrderCreatedFields
  pub read_shipped : Json → Option ShippedPayload
  pub read_event : Json → Option EventFields
  pub dump : OrderCreatedPayload → Json

pub data ValueError : Type 0 where
  bad_shape : ValueError
  too_short : ValueError
  out_of_range : ValueError
  wrong_total : ValueError
  wrong_payment : ValueError
  wrong_type : ValueError

-- `Field(min_length=1)` on a text
unfoldable pub min_length_1 : String → Bool
min_length_1 s = if s == "" then false else true

-- `Field(gt=0)`
unfoldable pub gt_0 : ℤ → Result ValueError ℕ
gt_0 (pos (suc n)) = ok (suc n)
gt_0 (pos zero) = err out_of_range
gt_0 (negsuc _) = err out_of_range

-- `Field(ge=0)`
unfoldable pub ge_0 : ℤ → Result ValueError ℕ
ge_0 (pos n) = ok n
ge_0 (negsuc _) = err out_of_range

infixl 10 ◌>>=◌
abbrev pub ◌>>=◌ {ℓ} :
    {A B : Type ℓ} → Result ValueError A → (A → Result ValueError B) → Result ValueError B
ok a >>= f = f a
err x >>= f = err x

abbrev pub check : Bool → ValueError → Result ValueError (Unit {0})
check true x = ok tt
check false x = err x

infixl 10 ◌>>◌
abbrev pub ◌>>◌ : {A B : Type 0} → Result ValueError A → Result ValueError B → Result ValueError B
m >> n = m >>= λ _. n

-- `OrderItem`'s constraints
unfoldable pub validate_item : ItemFields → Result ValueError OrderItem
validate_item f = do
  check (min_length_1 f.sku) too_short
  q ← gt_0 f.qty
  p ← gt_0 f.unit_price
  ok (record { sku = f.sku; qty = q; unit_price = p })

unfoldable pub validate_items : List ItemFields → Result ValueError (List OrderItem)
validate_items [] = ok []
validate_items (f ∷ fs) = do i ← validate_item f; is ← validate_items fs; ok (i ∷ is)

-- `PaymentInfo`'s constraints
unfoldable pub validate_payment : PaymentFields → Result ValueError PaymentInfo
validate_payment f = do
  check (min_length_1 f.reference) too_short
  a ← ge_0 f.amount
  ok (record { method = f.method; reference = f.reference; amount = a })

-- `Field(min_length=1)` on a list
abbrev pub is_nonempty : List OrderItem → Bool
is_nonempty [] = false
is_nonempty (_ ∷ _) = true

-- `OrderCreatedPayload(...)`: the field constraints, then `_validate_totals`
unfoldable pub validate_order_created : OrderCreatedFields → Result ValueError OrderCreatedPayload
validate_order_created f = do
  check (min_length_1 f.customer_id) too_short
  is ← validate_items f.items
  check (is_nonempty is) too_short
  pay ← validate_payment f.payment
  check (f.total_amount == pos (item_sum is)) wrong_total
  check (pos pay.amount == f.total_amount) wrong_payment
  ok (record { customer_id = f.customer_id; items = is; total_amount = item_sum is; payment = pay })

unfoldable pub validate_shipped : ShippedPayload → Result ValueError ShippedPayload
validate_shipped f = do
  check (min_length_1 f.carrier) too_short
  check (min_length_1 f.tracking_number) too_short
  ok f

pub record LifecycleEvent : Type 0 where
  pub event_id : String
  pub order_id : String
  pub sequence : ℕ
  pub event_type : EventType
  pub occurred_at : ℕ
  pub payload : Json

-- The model that `validate_payload` returns; `none` for the types that carry no data.
pub data Payload : Type 0 where
  order_created_payload : OrderCreatedPayload → Payload
  shipped_payload : ShippedPayload → Payload

-- `or`, with `bad_shape` for what pydantic could not read
abbrev pub or_bad_shape {ℓ} : {A : Type ℓ} → Option A → Result ValueError A
or_bad_shape none = err bad_shape
or_bad_shape (some a) = ok a

module _ (py : Pydantic) where
  abbrev pub order_created_of : Json → Result ValueError OrderCreatedPayload
  order_created_of j = do f ← or_bad_shape (py.read_order_created j); validate_order_created f

  abbrev pub shipped_of : Json → Result ValueError ShippedPayload
  shipped_of j = do f ← or_bad_shape (py.read_shipped j); validate_shipped f

  -- `validate_payload(event_type, payload)`, by `PAYLOAD_MODELS`
  unfoldable pub validate_payload : EventType → Json → Result ValueError (Option Payload)
  validate_payload EventType.order_created j = do
    p ← order_created_of j
    ok (some (order_created_payload p))
  validate_payload EventType.shipped j = do p ← shipped_of j; ok (some (shipped_payload p))
  validate_payload EventType.packed j = ok none
  validate_payload EventType.delivered j = ok none

  -- `LifecycleEvent(...)`: `Field(ge=1)` on the sequence, then `_validate_payload_shape`
  unfoldable pub validate_event : EventFields → Result ValueError LifecycleEvent
  validate_event f = do
    n ← gt_0 f.sequence
    validate_payload f.event_type f.payload
    ok (record {
      event_id = f.event_id;
      order_id = f.order_id;
      sequence = n;
      event_type = f.event_type;
      occurred_at = f.occurred_at;
      payload = f.payload;
    })

  unfoldable pub as_order_created : LifecycleEvent → Result ValueError OrderCreatedPayload
  as_order_created e =
      if e.event_type == EventType.order_created then order_created_of e.payload else err wrong_type

  unfoldable pub as_shipped : LifecycleEvent → Result ValueError ShippedPayload
  as_shipped e = if e.event_type == EventType.shipped then shipped_of e.payload else err wrong_type
