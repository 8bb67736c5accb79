-- ===== src/Events/Payloads.antt =====
-- What a validated payload guarantees, and that validating it again succeeds.
use kafka_playgroud.Prelude.{
  ℕ, zero, suc, ◌<◌, ◌≡◌, refl, ◌≢◌, true, Option, List, [], ◌∷◌, map, String, arith, All, ℤ,
  Result, pos, negsuc, ok, err, int_eq, string_eq,
}
use kafka_playgroud.Events.{
  OrderItem, Payload, OrderCreatedPayload, ShippedPayload, ItemFields, OrderCreatedFields,
  EventFields, LifecycleEvent, Pydantic, EventType, ValueError, item_sum, min_length_1, gt_0, ge_0,
  validate_item, validate_items, validate_payment, validate_order_created, validate_payload,
  validate_event, as_order_created, as_shipped, ◌>>=◌, order_created_of, shipped_of, or_bad_shape,
}
use kafka_playgroud.Prelude.Json.{Json}

abbrev pub IsItem : OrderItem → Type 0
IsItem i = (i.sku ≢ "") × (0 < i.qty) × (0 < i.unit_price)

-- The invariant of a payload that passed its model's validators.
pub record IsConsistent (p : OrderCreatedPayload) : Type 0 where
  pub customer : p.customer_id ≢ ""
  pub nonempty : p.items ≢ []
  pub items : All IsItem p.items
  pub reference : p.payment.reference ≢ ""
  pub total : p.total_amount ≡ item_sum p.items
  pub paid : p.payment.amount ≡ p.total_amount

min_length_1_ne : (s : String) → min_length_1 s ≡ true → s ≢ ""
unfolding min_length_1
min_length_1_ne s h e = ground (arith, string_eq.beq_iff s "")

ne-min_length_1 : (s : String) → s ≢ "" → min_length_1 s ≡ true
unfolding min_length_1
ne-min_length_1 s h = ground (arith, string_eq.beq_iff s "")

gt_0_lem : (z : ℤ) (n : ℕ) → gt_0 z ≡ ok n → (0 < n) × (z ≡ pos n)
unfolding gt_0
gt_0_lem (pos zero) n h = cc
gt_0_lem (pos (suc m)) n h = ground arith
gt_0_lem (negsuc m) n h = cc

validate_item-IsItem : (f : ItemFields) (i : OrderItem) → validate_item f ≡ ok i → IsItem i
unfolding validate_item
validate_item-IsItem f i h =
    ground (arith, min_length_1_ne f.sku, gt_0_lem f.qty i.qty, gt_0_lem f.unit_price i.unit_price)

-- Inversion of a step that went through.
pub bind-eq-ok {ℓ} :
    {A B : Type ℓ} (r : Result ValueError A) (next : A → Result ValueError B) {last : B}
    → (r >>= next) ≡ ok last
    → (x : A) × (r ≡ ok x) × (next x ≡ ok last)
bind-eq-ok (ok x) next h = (x, refl, h)
bind-eq-ok (err e) next h = cc

validate_items-IsItem :
    (fs : List ItemFields) (is : List OrderItem) → validate_items fs ≡ ok is → All IsItem is
unfolding validate_items
validate_items-IsItem [] [] h = tt
validate_items-IsItem [] (i ∷ is) h = cc
validate_items-IsItem (f ∷ fs) is h =
    let (i, ei, rest) = bind-eq-ok (validate_item f) _ h in
    let (js, ejs, last) = bind-eq-ok (validate_items fs) _ rest in
    ground (arith, validate_item-IsItem f i ei, validate_items-IsItem fs js ejs)

-- A payload that its validators accept is consistent: no blank text, at least one item, every
-- quantity and price positive, and the total is the item sum and the amount that was paid.
pub validate_order_created-IsConsistent :
    (f : OrderCreatedFields) (p : OrderCreatedPayload)
    → validate_order_created f ≡ ok p
    → IsConsistent p
unfolding validate_order_created validate_payment ge_0
validate_order_created-IsConsistent f p h = ground (
  arith,
  min_length_1_ne f.customer_id,
  min_length_1_ne f.payment.reference,
  validate_items-IsItem f.items p.items,
)

-- The fields of a payload, as pydantic reads them.
abbrev pub item_fields : OrderItem → ItemFields
item_fields i = record { sku = i.sku; qty = pos i.qty; unit_price = pos i.unit_price }

abbrev pub fields_of : OrderCreatedPayload → OrderCreatedFields
fields_of p = record {
  customer_id = p.customer_id;
  items = map item_fields p.items;
  total_amount = pos p.total_amount;
  payment = record {
    method = p.payment.method;
    reference = p.payment.reference;
    amount = pos p.payment.amount;
  };
}

pub gt_0-pos : (n : ℕ) → 0 < n → gt_0 (pos n) ≡ ok n
unfolding gt_0
gt_0-pos zero h = absurd (omega arith)
gt_0-pos (suc n) h = refl

validate_item-fields : (i : OrderItem) → IsItem i → validate_item (item_fields i) ≡ ok i
unfolding validate_item
validate_item-fields i h =
    rw (ne-min_length_1 i.sku h.0, gt_0-pos i.qty h.1, gt_0-pos i.unit_price h.2)

validate_items-fields :
    (is : List OrderItem) → All IsItem is → validate_items (map item_fields is) ≡ ok is
unfolding validate_items
validate_items-fields [] h = refl
validate_items-fields (i ∷ is) h = rw (validate_item-fields i h.0, validate_items-fields is h.1)

-- A consistent payload is accepted and comes back as it was.
pub validate_order_created-fields_of :
    (p : OrderCreatedPayload) → IsConsistent p → validate_order_created (fields_of p) ≡ ok p
unfolding validate_order_created validate_payment ge_0
validate_order_created-fields_of p h = ground (
  arith,
  ne-min_length_1 p.customer_id,
  ne-min_length_1 p.payment.reference,
  validate_items-fields p.items h.items,
)

-- An accepted payload was paid in full.
pub validate_order_created_paid :
    (q p : OrderCreatedPayload)
    → validate_order_created (fields_of q) ≡ ok p
    → q.payment.amount ≡ q.total_amount
unfolding validate_order_created validate_payment ge_0
validate_order_created_paid q p h = ground arith

module _ (py : Pydantic) where
  -- A validated event has a sequence of at least 1, the fields that were read, and a payload that
  -- fits its type.
  pub validate_event_fields :
      (f : EventFields) (e : LifecycleEvent)
      → validate_event py f ≡ ok e
      → (0 < e.sequence)
        × (f.sequence ≡ pos e.sequence)
        × (e.order_id ≡ f.order_id)
        × (e.event_type ≡ f.event_type)
        × (e.payload ≡ f.payload)
        × ((o : Option Payload) × (validate_payload py e.event_type e.payload ≡ ok o))
  unfolding validate_event
  validate_event_fields f e h =
      let (n, en, rest) = bind-eq-ok (gt_0 f.sequence) _ h in
      let (o, eo, last) = bind-eq-ok (validate_payload py f.event_type f.payload) _ rest in
      let fits = gt_0_lem f.sequence n en in
      (ground arith, ground arith, ground arith, ground arith, ground arith, (o, ground arith))

  payload_order_created :
      (j : Json) (o : Option Payload)
      → validate_payload py EventType.order_created j ≡ ok o
      → (p : OrderCreatedPayload) × (order_created_of py j ≡ ok p) × IsConsistent p
  unfolding validate_payload
  payload_order_created j o h =
      let (p, ep, _) = bind-eq-ok (order_created_of py j) _ h in
      let (f, _, ev) = bind-eq-ok (or_bad_shape (py.read_order_created j)) _ ep in
      (p, ep, validate_order_created-IsConsistent f p ev)

  -- An event that was validated as `ORDER_CREATED` gives its payload, and that is consistent: the
  -- accessor cannot raise on it.
  pub as_order_created_total :
      (f : EventFields) (e : LifecycleEvent)
      → validate_event py f ≡ ok e
      → e.event_type ≡ EventType.order_created
      → (p : OrderCreatedPayload) × (as_order_created py e ≡ ok p) × IsConsistent p
  unfolding as_order_created
  as_order_created_total f e h t =
      let (o, eo) = (validate_event_fields f e h).5 in
      let (p, ep, c) = payload_order_created e.payload o (cc) in (p, rw t ep, c)

  -- An event that was validated as `SHIPPED` gives its payload: the accessor cannot raise on it.
  pub as_shipped_total :
      (f : EventFields) (e : LifecycleEvent)
      → validate_event py f ≡ ok e
      → e.event_type ≡ EventType.shipped
      → (p : ShippedPayload) × (as_shipped py e ≡ ok p)
  unfolding validate_payload as_shipped
  as_shipped_total f e h t =
      let (o, eo) = (validate_event_fields f e h).5 in
      let (p, ep, _) = bind-eq-ok (shipped_of py e.payload) _ (rw t at eo) in (p, rw t ep)
