-- ===== src/Tools/DlqReplay/Rounds.antt =====
-- What one round of the replay tool publishes, and what it leaves pending.
use kafka_playgroud.Prelude.{
  ℕ, ◌+◌, ◌≡◌, ◌≢◌, ◌<◌, refl, ap, ◌∙◌, ◌⊎◌, inl, inr, Bool, true, false, not, ◌&&◌, Option, none,
  some, [], ◌∷◌, ◌++◌, String, arith, string_eq, nat_eq, ltb, leb, Bool-cases, Option-cases, ◌==◌,
}
use kafka_playgroud.Dict.{Dict, lookup, erase}
use kafka_playgroud.Dict.Laws.{lookup-erase}
use kafka_playgroud.Consumer.Broker.{
  Message, Outgoing, Kafka, KafkaError, enqueued, not_enqueued, Trace, emit,
}
use kafka_playgroud.Consumer.Dlq.{decode_headers, hdr_service, hdr_error_class, hdr_original_topic}
use kafka_playgroud.Consumer.RetryWorker.{Answer, nothing, error, message}
use kafka_playgroud.Tools.DlqReplay.{
  Args, Run, is_other, is_poison, bare_copy, put_back, republish, handle_match, handle_pending,
  step, replay, left_pending,
}
use kafka_playgroud.Tools.DlqReplay.Copies.{
  copies_of, copies_of-enqueued, copies_of-not_enqueued, Enqueue-cases,
}

-- `out` is the message without its headers, on the topic that its `x-original-topic` names; the
-- message stands before the end of its partition, is of the service asked for, and may be put back.
pub record IsReplayOf (args : Args) (ends : Dict ℕ ℕ) (m : Message) (out : Outgoing) : Type 0 where
  pub asked : args.publish ≡ true
  pub target : lookup hdr_original_topic (decode_headers m) ≡ some out.topic
  pub named : out.topic ≢ ""
  pub same : out ≡ bare_copy m out.topic
  pub within : (end : ℕ) × (lookup m.partition ends ≡ some end) × (m.offset < end)
  pub of_service : is_other args.service (lookup hdr_service (decode_headers m)) ≡ false
  pub allowed :
      (args.include_poison ≡ true) ⊎ (is_poison (lookup hdr_error_class (decode_headers m)) ≡ false)

-- what is pending was so at the start, with the same end
abbrev pub IsWithin : Dict ℕ ℕ → Dict ℕ ℕ → Type 0
IsWithin ends pending = (p end : ℕ) → lookup p pending ≡ some end → lookup p ends ≡ some end

IsWithin-erase :
    (ends pending : Dict ℕ ℕ) (p : ℕ) → IsWithin ends pending → IsWithin ends (erase p pending)
IsWithin-erase ends pending p h q end e =
    h q end (ground (arith, lookup-erase p q pending, nat_eq.beq_iff p q))

-- what a round adds to the copies
abbrev Adds : Args → Dict ℕ ℕ → Message → Trace → Trace → Type 0
Adds args ends m t t' =
    (copies_of t' ≡ copies_of t)
    ⊎ ((out : Outgoing) × IsReplayOf args ends m out × (copies_of t' ≡ copies_of t ++ out ∷ []))

is_allowed :
    (poison include : Bool) → (poison && not include) ≡ false → (include ≡ true) ⊎ (poison ≡ false)
is_allowed false include h = inr refl
is_allowed true false h = cc
is_allowed true true h = inl refl

module _ (kafka : Kafka) (args : Args) (ends : Dict ℕ ℕ) where
  put_back_trace :
      (m : Message) (target : String) (w : Run)
      → ((put_back kafka args m target w).1.trace ≡ emit (enqueued (bare_copy m target)) w.trace)
        ⊎ ((put_back kafka args m target w).1.trace
            ≡ emit (not_enqueued (bare_copy m target)) w.trace)
  unfolding put_back
  put_back_trace m target w = elim (Enqueue-cases (kafka.produce w.trace (bare_copy m target))) [
    | inl e ↦ inl (rw (e, put_back) refl)
    | inr (inl e) ↦ inr (rw (e, put_back) refl)
    | inr (inr (x, e)) ↦ inr (rw (e, put_back) refl)
  ]

  put_back_copies :
      (m : Message) (target : String) (w : Run)
      → (copies_of (put_back kafka args m target w).1.trace ≡ copies_of w.trace)
        ⊎ (copies_of (put_back kafka args m target w).1.trace
            ≡ copies_of w.trace ++ bare_copy m target ∷ [])
  put_back_copies m target w = elim (put_back_trace m target w) [
    | inl put ↦ inr (ap copies_of put ∙ copies_of-enqueued (bare_copy m target) w.trace)
    | inr refusal ↦ inl (ap copies_of refusal ∙ copies_of-not_enqueued (bare_copy m target) w.trace)
  ]

  put_back_pending :
      (m : Message) (target : String) (w : Run)
      → (put_back kafka args m target w).1.pending ≡ w.pending
  unfolding put_back
  put_back_pending m target w = ground arith

  republish-Adds :
      (m : Message) (target : Option String) (w : Run)
      → lookup hdr_original_topic (decode_headers m) ≡ target
      → args.publish ≡ true
      → (end : ℕ) × (lookup m.partition ends ≡ some end) × (m.offset < end)
      → is_other args.service (lookup hdr_service (decode_headers m)) ≡ false
      → (args.include_poison ≡ true)
        ⊎ (is_poison (lookup hdr_error_class (decode_headers m)) ≡ false)
      → Adds args ends m w.trace (republish kafka args m target w).1.trace
  republish-Adds m none w found asked within service allowed = inl refl
  republish-Adds m (some target) w found asked within service allowed =
      elim (Bool-cases (target == "")) [
        | inl blank ↦ rw blank (inl refl)
        | inr named ↦ rw named (elim (put_back_copies m target w) [
          | inl same ↦ inl same
          | inr put ↦ inr (
            bare_copy m target,
            record {
              asked = asked;
              target = found;
              named = λ e. ground (arith, named, string_eq.beq_iff target "");
              same = refl;
              within = within;
              of_service = service;
              allowed = allowed;
            },
            put,
          )
        ])
      ]

  republish_pending :
      (m : Message) (target : Option String) (w : Run)
      → (republish kafka args m target w).1.pending ≡ w.pending
  republish_pending m none w = refl
  republish_pending m (some target) w = ground (arith, put_back_pending m target w)

  -- a match publishes nothing, or goes on to its original topic
  handle_match_cases :
      (m : Message) (w : Run)
      → (((handle_match kafka args m w).1.trace ≡ w.trace)
          × ((handle_match kafka args m w).1.pending ≡ w.pending))
        ⊎ ((args.publish ≡ true)
            × ((is_poison (lookup hdr_error_class (decode_headers m)) && not args.include_poison)
                ≡ false)
            × (handle_match kafka args m w
                ≡ republish kafka args m
                    (lookup hdr_original_topic (decode_headers m))
                    (record w { matched = w.matched + 1 })))
  unfolding handle_match
  handle_match_cases m w =
      elim (Bool-cases
        (is_poison (lookup hdr_error_class (decode_headers m)) && not args.include_poison)) [
          | inl kept ↦ inl (ground (arith, kept), ground (arith, kept))
          | inr allowed ↦ elim (Bool-cases args.publish) [
            | inr asked ↦ inl (ground (arith, allowed), ground (arith, allowed))
            | inl asked ↦ inr (asked, allowed, ground (arith, allowed))
          ]
        ]

  handle_match-Adds :
      (m : Message) (w : Run)
      → (end : ℕ) × (lookup m.partition ends ≡ some end) × (m.offset < end)
      → is_other args.service (lookup hdr_service (decode_headers m)) ≡ false
      → Adds args ends m w.trace (handle_match kafka args m w).1.trace
        × ((handle_match kafka args m w).1.pending ≡ w.pending)
  handle_match-Adds m w within service =
      let w' = record w { matched = w.matched + 1 } in
      let target = lookup hdr_original_topic (decode_headers m) in
      let poison = is_poison (lookup hdr_error_class (decode_headers m)) in
      elim (handle_match_cases m w) [
        | inl (same, kept) ↦ (inl (ap copies_of same), kept)
        | inr (asked, allowed, e) ↦ rw e (
          republish-Adds m target w' refl asked within service
              (is_allowed poison args.include_poison allowed),
          republish_pending m target w',
        )
      ]

  -- a message of a pending partition is left alone, or it matches
  handle_pending_cases :
      (m : Message) (end : ℕ) (w : Run)
      → (((handle_pending kafka args m end w).1.trace ≡ w.trace)
          × ((handle_pending kafka args m end w).1.pending ≡ left_pending m end w.pending))
        ⊎ ((m.offset < end)
            × (is_other args.service (lookup hdr_service (decode_headers m)) ≡ false)
            × (handle_pending kafka args m end w
                ≡ handle_match kafka args m
                    (record w { pending = left_pending m end w.pending; seen = w.seen + 1 })))
  unfolding handle_pending
  handle_pending_cases m end w = elim (Bool-cases (ltb m.offset end)) [
    | inr beyond ↦ inl (ground (arith, beyond), ground (arith, beyond))
    | inl within ↦
        elim (Bool-cases (is_other args.service (lookup hdr_service (decode_headers m)))) [
          | inl other ↦ inl (ground (arith, within, other), ground (arith, within, other))
          | inr mine ↦ inr (ground (arith, within), mine, ground (arith, within, mine))
        ]
  ]

  handle_pending-Adds :
      (m : Message) (end : ℕ) (w : Run)
      → lookup m.partition ends ≡ some end
      → Adds args ends m w.trace (handle_pending kafka args m end w).1.trace
        × ((handle_pending kafka args m end w).1.pending ≡ left_pending m end w.pending)
  handle_pending-Adds m end w found = elim (handle_pending_cases m end w) [
    | inl (same, left) ↦ (inl (ap copies_of same), left)
    | inr (within, mine, e) ↦ rw e (
        handle_match-Adds m (record w { pending = left_pending m end w.pending; seen = w.seen + 1 })
          (end, found, within) mine)
  ]

  left_pending-IsWithin :
      (m : Message) (end : ℕ) (pending : Dict ℕ ℕ)
      → IsWithin ends pending
      → IsWithin ends (left_pending m end pending)
  left_pending-IsWithin m end pending h = elim (Bool-cases (leb end (m.offset + 1))) [
    | inl last ↦ rw last (IsWithin-erase ends pending m.partition h)
    | inr inner ↦ rw inner h
  ]

  -- one round
  step-Adds :
      (m : Message) (w : Run)
      → IsWithin ends w.pending
      → Adds args ends m w.trace (step kafka args (message m) w).1.trace
        × IsWithin ends (step kafka args (message m) w).1.pending
  unfolding step
  step-Adds m w h = elim (Option-cases (lookup m.partition w.pending)) [
    | inl missing ↦ rw missing (inl refl, h)
    | inr (end, e) ↦
        let (adds, left) = handle_pending-Adds m end w (h m.partition end e) in
        rw e (adds, rw left (left_pending-IsWithin m end w.pending h))
  ]

  -- a message of a pending partition leaves it pending or not, whatever else is done with it
  pub step_pending :
      (m : Message) (end : ℕ) (w : Run)
      → lookup m.partition w.pending ≡ some end
      → lookup m.partition ends ≡ some end
      → (step kafka args (message m) w).1.pending ≡ left_pending m end w.pending
  unfolding step
  step_pending m end w e found = rw e ((handle_pending-Adds m end w found).1)

  error_keeps :
      (e : KafkaError) (w : Run)
      → ((step kafka args (error e) w).1.trace ≡ w.trace)
        × ((step kafka args (error e) w).1.pending ≡ w.pending)
  unfolding step
  error_keeps e w = ground arith

  pub answer_adds :
      (x : Answer) (w : Run)
      → IsWithin ends w.pending
      → ((copies_of (step kafka args x w).1.trace ≡ copies_of w.trace)
          ⊎ ((m : Message) × (out : Outgoing) × (x ≡ message m)
              × IsReplayOf args ends m out
              × (copies_of (step kafka args x w).1.trace ≡ copies_of w.trace ++ out ∷ [])))
        × IsWithin ends (step kafka args x w).1.pending
  unfolding step
  answer_adds nothing w h = (inl refl, h)
  answer_adds (error e) w h = (inl (ap copies_of (error_keeps e w).0), rw ((error_keeps e w).1) h)
  answer_adds (message m) w h =
      let (adds, left) = step-Adds m w h in
      (
        elim adds [
          | inl same ↦ inl same
          | inr (out, replay, put) ↦ inr (m, out, refl, replay, put)
        ],
        left,
      )
