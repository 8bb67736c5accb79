-- ===== src/Producer/Orders/Interleaving/Numbers.antt =====
-- Every interleaving keeps the numbering.
use kafka_playgroud.Prelude.{
  ℕ, ◌<◌, ◌≡◌, refl, Bool, false, some, ◌∷◌, String, ok, arith, contains, string_eq, nat_eq,
  pair_eq, Bool-cases, Option-cases, inl, inr, ◌==◌,
}
use kafka_playgroud.Dict.{lookup}
use kafka_playgroud.Dict.Laws.{lookup-insert, lookup-erase}
use kafka_playgroud.Events.{EventType, OrderCreatedPayload, resulting_state}
use kafka_playgroud.Producer.Orders.{Order, Orders, register, get, remove, reserve, commit}
use kafka_playgroud.Producer.Orders.Methods.{reserve_err, reserve_iff, get-reserve}
use kafka_playgroud.Producer.Orders.Interleaving.{
  System, start, Step, registers, reserves, refuses, commits, removes, Reach, here, next,
  IsSequenced,
}

registers-IsSequenced :
    {s : System} (id : String) (p : OrderCreatedPayload)
    → ((n : ℕ) → contains (id, n) s.issued ≡ false)
    → IsSequenced s
    → IsSequenced (record { orders = (register id p s.orders).1; issued = (id, 1) ∷ s.issued })
unfolding register get
registers-IsSequenced {s} id p fresh h = record {
  distinct = (fresh 1, h.distinct);
  bounded = λ j n o c g. ground (
    arith,
    lookup-insert id j (register id p s.orders).0 s.orders,
    fresh n,
    h.bounded j n o,
    string_eq.beq_iff id j,
    string_eq.beq_iff j id,
  );
  gapless = λ j n o g lo hi. ground (
    arith,
    lookup-insert id j (register id p s.orders).0 s.orders,
    h.gapless j n o,
    string_eq.beq_iff id j,
    string_eq.beq_iff j id,
  );
}

-- A number above the last was never handed out.
fresh_above :
    {s : System} (id : String) (o : Order) (n : ℕ)
    → IsSequenced s
    → get id s.orders ≡ some o
    → o.last_sequence < n
    → contains (id, n) s.issued ≡ false
fresh_above {s} id o n h g lt = elim (Bool-cases (contains (id, n) s.issued)) [
  | inl old ↦ absurd (omega (arith, h.bounded id n o old g))
  | inr new ↦ new
]

reserves-IsSequenced :
    {s : System} (id : String) (e : EventType) (force : Bool) (n : ℕ)
    → (reserve id e force s.orders).0 ≡ ok n
    → IsSequenced s
    → IsSequenced (record { orders = (reserve id e force s.orders).1; issued = (id, n) ∷ s.issued })
reserves-IsSequenced {s} id e force n done h =
    let (o, known, allowed, eq) = (reserve_iff id e force s.orders n).0 done in
    record {
      distinct = (fresh_above id o n h known (omega arith), h.distinct);
      bounded = λ j m q c g. ground (
        arith,
        get-reserve id j e force s.orders n o known done,
        h.bounded j m q,
        h.bounded id m o,
        string_eq.beq_iff id j,
        string_eq.beq_iff j id,
      );
      gapless = λ j m q g lo hi. ground (
        arith,
        get-reserve id j e force s.orders n o known done,
        h.gapless j m q,
        h.gapless id m o,
        string_eq.beq_iff id j,
        string_eq.beq_iff j id,
      );
    }

-- A commit leaves every order's number alone.
get-commit :
    (id j : String) (e : EventType) (force : Bool) (orders : Orders) (o : Order)
    → get j (commit id e force orders).1 ≡ some o
    → (q : Order) × (get j orders ≡ some q) × (q.last_sequence ≡ o.last_sequence)
unfolding commit get
get-commit id j e force orders o h = elim (Option-cases (lookup id orders)) [
  | inl unknown ↦ (o, ground arith, refl)
  | inr (q, known) ↦ elim (Bool-cases (id == j)) [
    | inl same ↦ (
      q,
      ground (arith, string_eq.beq_iff id j),
      ground (
        arith,
        lookup-insert id j (record q { state = resulting_state e }) orders,
        string_eq.beq_iff id j,
      ),
    )
    | inr other ↦ (
      o,
      ground (arith, lookup-insert id j (record q { state = resulting_state e }) orders),
      refl,
    )
  ]
]

-- A removed order is gone, and the others are what they were.
get-remove :
    (id j : String) (orders : Orders) (o : Order)
    → get j (remove id orders).1 ≡ some o
    → get j orders ≡ some o
unfolding remove get
get-remove id j orders o h = ground (arith, lookup-erase id j orders)

pub Step-IsSequenced : {s t : System} → Step s t → IsSequenced s → IsSequenced t
Step-IsSequenced (registers id p fresh) h = registers-IsSequenced id p fresh h
Step-IsSequenced (reserves id e force n done) h = reserves-IsSequenced id e force n done h
Step-IsSequenced (refuses {s = s} id e force x failed) h =
    rw (reserve_err id e force s.orders failed) h
Step-IsSequenced (commits {s = s} id e force) h = record {
  distinct = h.distinct;
  bounded = λ j n o c g.
      let (q, known, same) = get-commit id j e force s.orders o g in
      omega (arith, h.bounded j n q c known);
  gapless = λ j n o g lo hi.
      let (q, known, same) = get-commit id j e force s.orders o g in
      h.gapless j n q known lo (omega arith);
}
Step-IsSequenced (removes {s = s} id) h = record {
  distinct = h.distinct;
  bounded = λ j n o c g. h.bounded j n o c (get-remove id j s.orders o g);
  gapless = λ j n o g. h.gapless j n o (get-remove id j s.orders o g);
}

start-IsSequenced : IsSequenced start
unfolding get lookup
start-IsSequenced = record {
  distinct = tt;
  bounded = λ id n o c g. cc;
  gapless = λ id n o g lo hi. cc;
}

-- However the requests interleave, each number of an order is handed out once, and the numbers of
-- an order in the store are 1 up to its last with no gap.
pub Reach-IsSequenced : {s : System} → Reach s → IsSequenced s
Reach-IsSequenced here = start-IsSequenced
Reach-IsSequenced (next r st) = Step-IsSequenced st (Reach-IsSequenced r)
