-- ===== src/Producer/App/Numbers/Ascending.antt =====
-- The numbers of an order over all that is served.
use kafka_playgroud.Prelude.{
  ℕ, ◌+◌, ◌≤◌, ◌<◌, ◌≡◌, ◌⊎◌, inl, inr, refl, sym, ap, ◌∙◌, false, Option, none, some, List, [],
  ◌∷◌, ◌++◌, String, arith, Bool-cases, string_eq, nat_eq, ◌==◌, beq_refl, if◌then◌else◌,
}
use mathlib.Core.Path.{subst}
use kafka_playgroud.Dict.{lookup}
use kafka_playgroud.Producer.Orders as Store
use kafka_playgroud.Producer.Kafka.{Wire}
use kafka_playgroud.Producer.Routes.{App, Platform}
use kafka_playgroud.Producer.App.{
  Call, creation, posting, deletion, reading, serve, serve_all, lifespan, opened,
}
use kafka_playgroud.Producer.App.Numbers.{numbers_on, known, IsReadable, numbers}
use kafka_playgroud.Producer.App.Numbers.Handlers.{Posted, publish_event-Posted}
use kafka_playgroud.Producer.App.Numbers.Creation.{Created, create_order-Created}
use kafka_playgroud.Producer.App.Numbers.Deletion.{Kept, delete_order-Kept, get_order-Kept}

-- strictly increasing, above `low` and not beyond `high`
unfoldable pub Ascends : ℕ → List ℕ → ℕ → Type 0
Ascends low [] high = low ≤ high
Ascends low (n ∷ ns) high = (low < n) × Ascends n ns high

Ascends-snoc :
    (low : ℕ) (ns : List ℕ) (high n : ℕ)
    → high < n
    → Ascends low ns high
    → Ascends low (ns ++ n ∷ []) n
unfolding Ascends
Ascends-snoc low [] high n above up = (ground arith, ground arith)
Ascends-snoc low (m ∷ ns) high n above (first, rest) = (first, Ascends-snoc m ns high n above rest)

Ascends-mono :
    (low : ℕ) (ns : List ℕ) (high n : ℕ) → high ≤ n → Ascends low ns high → Ascends low ns n
unfolding Ascends
Ascends-mono low [] high n above up = ground arith
Ascends-mono low (m ∷ ns) high n above (first, rest) = (first, Ascends-mono m ns high n above rest)

-- how often an id is given to a new order
unfoldable pub creations_of : String → List Call → ℕ
creations_of id [] = 0
creations_of id (creation req body ∷ cs) =
    (if req.new_order_id == id then 1 else 0) + creations_of id cs
creations_of id (posting req order_id body ∷ cs) = creations_of id cs
creations_of id (deletion order_id ∷ cs) = creations_of id cs
creations_of id (reading order_id ∷ cs) = creations_of id cs

module _ (pf : Platform) (read : String → Option ℕ) where
  -- The numbers that are published for an order ascend, up to a number that is the order's where the
  -- store has it.
  abbrev pub HasAscending : String → App → Type 0
  HasAscending id app =
      (high : ℕ) × Ascends 0 (numbers pf read id app) high
      × ((known id app ≡ none) ⊎ (known id app ≡ some high))

  -- Nothing has been heard of the order.
  abbrev IsFresh : String → App → Type 0
  IsFresh id app = (known id app ≡ none) × (numbers pf read id app ≡ [])

  fresh_ascends : (id : String) (app : App) → IsFresh id app → HasAscending id app
  unfolding Ascends
  fresh_ascends id app (unknown, unheard) =
      (0, subst (λ ns. Ascends 0 ns 0) (sym unheard) (ground arith), inl unknown)

  module _ (readable : IsReadable pf read) (id : String) (app app' : App) where
    same_ascends :
        known id app' ≡ known id app
        → numbers pf read id app' ≡ numbers pf read id app
        → HasAscending id app
        → HasAscending id app'
    same_ascends k n (high, up, at) = (
      high,
      subst (λ ns. Ascends 0 ns high) (sym n) up,
      elim at [ inl unknown ↦ inl (k ∙ unknown) | inr at_high ↦ inr (k ∙ at_high) ],
    )

    Posted-ascends :
        Posted pf read readable id app app' → HasAscending id app → HasAscending id app'
    Posted-ascends (inl (k, n)) has = same_ascends k n has
    Posted-ascends (inr (m, at_m, at_next, published)) (high, up, at) =
        let below : high ≤ m = elim at [
          | inl unknown ↦ grind (arith, unknown, at_m)
          | inr at_high ↦ grind (arith, at_high, at_m)
        ] in
        (
          m + 1,
          elim published [
            | inl kept ↦
                subst (λ ns. Ascends 0 ns (m + 1)) (sym kept)
                  (Ascends-mono 0 (numbers pf read id app) high (m + 1) (omega arith) up)
            | inr more ↦
                subst (λ ns. Ascends 0 ns (m + 1)) (sym more)
                  (Ascends-snoc 0 (numbers pf read id app) high (m + 1) (omega arith) up)
          ],
          inr at_next,
        )

    Posted-IsFresh : Posted pf read readable id app app' → IsFresh id app → IsFresh id app'
    Posted-IsFresh (inl (k, n)) (unknown, unheard) = (k ∙ unknown, n ∙ unheard)
    Posted-IsFresh (inr (m, at_m, _, _)) (unknown, unheard) = grind (arith, unknown, at_m)

    Kept-ascends : Kept pf read readable id app app' → HasAscending id app → HasAscending id app'
    Kept-ascends (inl k, n) has = same_ascends k n has
    Kept-ascends (inr gone, n) (high, up, at) =
        (high, subst (λ ns. Ascends 0 ns high) (sym n) up, inl gone)

    Kept-IsFresh : Kept pf read readable id app app' → IsFresh id app → IsFresh id app'
    Kept-IsFresh (k, n) (unknown, unheard) =
        (elim k [ inl same ↦ same ∙ unknown | inr gone ↦ gone ], n ∙ unheard)

    -- another order's creation
    other_same :
        (new : String)
        → Created pf read readable new id app app'
        → (new == id) ≡ false
        → (known id app' ≡ known id app) × (numbers pf read id app' ≡ numbers pf read id app)
    other_same new (k, n) other = (
      elim k [ inl same ↦ same | inr (is_id, _) ↦ grind (arith, is_id, other, beq_refl id) ],
      elim n [ inl same ↦ same | inr (is_id, _) ↦ grind (arith, is_id, other, beq_refl id) ],
    )

    Created-ascends :
        (new : String)
        → Created pf read readable new id app app'
        → IsFresh id app
        → HasAscending id app'
    unfolding Ascends
    Created-ascends new (k, n) (unknown, unheard) = (
      1,
      elim n [
        | inl same ↦ subst (λ ns. Ascends 0 ns 1) (sym (same ∙ unheard)) (ground arith)
        | inr (_, more) ↦
            subst (λ ns. Ascends 0 ns 1) (sym (more ∙ ap (λ ns. ns ++ 1 ∷ []) unheard))
              (ground arith, ground arith)
      ],
      elim k [ inl same ↦ inl (same ∙ unknown) | inr (_, at_1) ↦ inr at_1 ],
    )

  module _ (readable : IsReadable pf read) (id : String) where
    serve_has :
        (c : Call) (app : App)
        → creations_of id (c ∷ []) ≡ 0
        → HasAscending id app
        → HasAscending id (serve pf c app)
    unfolding serve creations_of
    serve_has (creation req body) app no_creation has =
        let made = create_order-Created pf read readable req body id app in
        let other : (req.new_order_id == id) ≡ false = ground (arith, no_creation) in
        let (k, n) = other_same readable id app _ req.new_order_id made other in
        same_ascends readable id app _ k n has
    serve_has (posting req order_id body) app _ has =
        Posted-ascends readable id app _
          (publish_event-Posted pf read readable req order_id body id app) has
    serve_has (deletion order_id) app _ has =
        Kept-ascends readable id app _ (delete_order-Kept pf read readable order_id id app) has
    serve_has (reading order_id) app _ has =
        Kept-ascends readable id app _ (get_order-Kept pf read readable order_id id app) has

    serve-IsFresh :
        (c : Call) (app : App)
        → creations_of id (c ∷ []) ≡ 0
        → IsFresh id app
        → IsFresh id (serve pf c app)
    unfolding serve creations_of
    serve-IsFresh (creation req body) app no_creation (unknown, unheard) =
        let made = create_order-Created pf read readable req body id app in
        let other : (req.new_order_id == id) ≡ false = ground (arith, no_creation) in
        let (k, n) = other_same readable id app _ req.new_order_id made other in
        (k ∙ unknown, n ∙ unheard)
    serve-IsFresh (posting req order_id body) app _ fresh =
        Posted-IsFresh readable id app _
          (publish_event-Posted pf read readable req order_id body id app) fresh
    serve-IsFresh (deletion order_id) app _ fresh =
        Kept-IsFresh readable id app _ (delete_order-Kept pf read readable order_id id app) fresh
    serve-IsFresh (reading order_id) app _ fresh =
        Kept-IsFresh readable id app _ (get_order-Kept pf read readable order_id id app) fresh

    -- the one call that may create the order
    serve_first : (c : Call) (app : App) → IsFresh id app → HasAscending id (serve pf c app)
    unfolding serve creations_of
    serve_first (creation req body) app fresh =
        let made = create_order-Created pf read readable req body id app in
        elim (Bool-cases (req.new_order_id == id)) [
          | inl here ↦
              let new_is : req.new_order_id ≡ id = (string_eq.beq_iff req.new_order_id id).0 here in
              Created-ascends readable id app _ req.new_order_id made fresh
          | inr other ↦
              let (k, n) = other_same readable id app _ req.new_order_id made other in
              same_ascends readable id app _ k n (fresh_ascends id app fresh)
        ]
    serve_first (posting req order_id body) app fresh =
        fresh_ascends id _ (serve-IsFresh (posting req order_id body) app refl fresh)
    serve_first (deletion order_id) app fresh =
        fresh_ascends id _ (serve-IsFresh (deletion order_id) app refl fresh)
    serve_first (reading order_id) app fresh =
        fresh_ascends id _ (serve-IsFresh (reading order_id) app refl fresh)

    creations_of-cons :
        (c : Call) (cs : List Call)
        → creations_of id (c ∷ cs) ≡ creations_of id (c ∷ []) + creations_of id cs
    unfolding creations_of
    creations_of-cons (creation req body) cs = omega arith
    creations_of-cons (posting req order_id body) cs = omega arith
    creations_of-cons (deletion order_id) cs = omega arith
    creations_of-cons (reading order_id) cs = omega arith

    serve_all_has :
        (cs : List Call) (app : App)
        → creations_of id cs ≡ 0
        → HasAscending id app
        → HasAscending id (serve_all pf cs app)
    unfolding serve_all
    serve_all_has [] app _ has = has
    serve_all_has (c ∷ cs) app no_creation has =
        let split = creations_of-cons c cs in
        serve_all_has cs (serve pf c app) (omega arith) (serve_has c app (omega arith) has)

    serve_all_ascending :
        (cs : List Call) (app : App)
        → creations_of id cs ≤ 1
        → IsFresh id app
        → HasAscending id (serve_all pf cs app)
    unfolding serve_all
    serve_all_ascending [] app _ fresh = fresh_ascends id app fresh
    serve_all_ascending (c ∷ cs) app at_most_once fresh =
        let split = creations_of-cons c cs in
        elim (Bool-cases (creations_of id (c ∷ []) == 0)) [
          | inl is_0 ↦
              let no_creation = (nat_eq.beq_iff (creations_of id (c ∷ [])) 0).0 is_0 in
              serve_all_ascending cs (serve pf c app) (omega arith)
                (serve-IsFresh c app no_creation fresh)
          | inr not_0 ↦
              serve_all_has cs (serve pf c app)
                (grind (arith, not_0, nat_eq.beq_iff (creations_of id (c ∷ [])) 0))
                (serve_first c app fresh)
        ]

    -- Over any sequence of requests from the start of the process, forced or not and whatever fails,
    -- the sequence numbers on the lifecycle topic of an order whose id is given to at most one
    -- creation are strictly increasing, and none is beyond the number the store has of the order.
    pub lifespan_ascending :
        (flush : Wire → ℕ) (calls : List Call)
        → creations_of id calls ≤ 1
        → HasAscending id (lifespan pf flush calls).app
    unfolding lifespan numbers_on Store.get lookup
    lifespan_ascending flush calls at_most_once =
        serve_all_ascending calls (opened pf).app at_most_once (refl, refl)
