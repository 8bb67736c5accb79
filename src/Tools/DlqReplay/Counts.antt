-- ===== src/Tools/DlqReplay/Counts.antt =====
-- The counts that the replay tool keeps, and what one round adds to them under a limit.
use kafka_playgroud.Prelude.{
  ℕ, ◌+◌, ◌≡◌, ◌≢◌, ◌≤◌, ◌<◌, ap, ◌∙◌, ◌⊎◌, inl, inr, Bool, true, false, Option, none, some, [],
  ◌∷◌, String, arith, Result, ok, nat_eq, string_eq, ◌==◌, ◌&&◌, not, ltb, leb, Bool-cases,
  Option-cases, if◌then◌else◌, pos, suc, length, length-append,
}
use kafka_playgroud.Dict.{lookup}
use kafka_playgroud.Consumer.Broker.{
  Message, Exc, Kafka, Trace, enqueued, not_enqueued, emit, Outgoing,
}
use kafka_playgroud.Consumer.Dlq.{decode_headers, hdr_service, hdr_error_class, hdr_original_topic}
use kafka_playgroud.Consumer.RetryWorker.{Answer, nothing, error, message}
use kafka_playgroud.Tools.DlqReplay.{
  Args, Run, Next, more, stop, put_back, republish, handle_match, handle_pending, handle_error,
  step, is_other, is_poison, is_reached, left_pending, bare_copy,
}
use kafka_playgroud.Tools.DlqReplay.Copies.{
  copies_of, copies_of-enqueued, copies_of-not_enqueued, Enqueue-cases,
}

length_enqueued :
    (out : Outgoing) (t : Trace)
    → length (copies_of (emit (enqueued out) t)) ≡ length (copies_of t) + 1
length_enqueued out t =
    ap length (copies_of-enqueued out t) ∙ length-append (copies_of t) (out ∷ [])

length_not_enqueued :
    (out : Outgoing) (t : Trace)
    → length (copies_of (emit (not_enqueued out) t)) ≡ length (copies_of t)
length_not_enqueued out t = ap length (copies_of-not_enqueued out t)

-- The counts agree with the `k` copies at the start and with one another.
pub record IsCounted (k : ℕ) (w : Run) : Type 0 where
  pub copies : length (copies_of w.trace) ≡ k + w.published
  pub decided : w.published + w.excluded ≤ w.matched
  pub counted : w.matched ≤ w.seen

-- What a part of a round keeps, and that the loop goes on only below the limit.
abbrev pub IsLimited : ℕ → ℕ → Result Exc Next × Run → Type 0
IsLimited k limit (r, w) =
    IsCounted k w
    × (w.published + w.excluded ≤ limit)
    × ((r ≢ ok more) ⊎ (w.published + w.excluded < limit))

if_IsLimited :
    {k n : ℕ} (b : Bool) (r r' : Result Exc Next × Run)
    → IsLimited k n r
    → IsLimited k n r'
    → IsLimited k n (if b then r else r')
if_IsLimited true r r' h h' = h
if_IsLimited false r r' h h' = h'

module _ (kafka : Kafka) (args : Args) (k n : ℕ) (limited : args.limit ≡ pos (suc n)) where
  reached_lem : (matched : ℕ) → is_reached args.limit matched ≡ leb (suc n) matched
  reached_lem matched = ap (λ l. is_reached l matched) limited

  put_back-IsLimited :
      (m : Message) (target : String) (w : Run)
      → IsCounted k w
      → w.published + w.excluded < suc n
      → w.published + w.excluded < w.matched
      → IsLimited k (suc n) (put_back kafka args m target w)
  unfolding put_back
  put_back-IsLimited m target w c small room =
      let out = bare_copy m target in
      let reached = reached_lem w.matched in
      elim (Enqueue-cases (kafka.produce w.trace out)) [
        | inl e ↦ (
          record {
            copies = ground (arith, e, length_enqueued out w.trace);
            decided = ground (arith, e);
            counted = ground (arith, e);
          },
          ground (arith, e),
          elim (Bool-cases (leb (suc n) w.matched)) [
            | inl over ↦ inl (ground (arith, e, over, reached))
            | inr under ↦ inr (ground (arith, e, under, reached))
          ],
        )
        | inr (inl e) ↦ (
          record {
            copies = ground (arith, e, length_not_enqueued out w.trace);
            decided = ground (arith, e);
            counted = ground (arith, e);
          },
          ground (arith, e),
          inl (ground (arith, e)),
        )
        | inr (inr (x, e)) ↦ (
          record {
            copies = ground (arith, e, length_not_enqueued out w.trace);
            decided = ground (arith, e);
            counted = ground (arith, e);
          },
          ground (arith, e),
          inl (ground (arith, e)),
        )
      ]

  check-IsLimited :
      (w : Run)
      → IsCounted k w
      → w.published + w.excluded ≤ suc n
      → IsLimited k (suc n) (ok (if is_reached args.limit w.matched then stop else more), w)
  check-IsLimited w c small = (
    c,
    small,
    elim (Bool-cases (leb (suc n) w.matched)) [
      | inl over ↦ let reached = reached_lem w.matched in inl (ground (arith, over, reached))
      | inr under ↦ inr (ground (arith, under))
    ],
  )

  republish-IsLimited :
      (m : Message) (target : Option String) (w : Run)
      → IsCounted k w
      → w.published + w.excluded < suc n
      → w.published + w.excluded < w.matched
      → IsLimited k (suc n) (republish kafka args m target w)
  republish-IsLimited m none w c small room = (c, omega arith, inr small)
  republish-IsLimited m (some target) w c small room = elim (Bool-cases (target == "")) [
    | inl blank ↦ rw blank (c, omega arith, inr small)
    | inr named ↦ rw named (put_back-IsLimited m target w c small room)
  ]

  handle_match-IsLimited :
      (m : Message) (w : Run)
      → IsCounted k w
      → w.published + w.excluded < suc n
      → w.matched < w.seen
      → IsLimited k (suc n) (handle_match kafka args m w)
  unfolding handle_match
  handle_match-IsLimited m w c small room =
      let w' = record w { matched = w.matched + 1 } in
      let v = record w' { excluded = w.excluded + 1 } in
      let c' : IsCounted k w' = record {
        copies = c.copies;
        decided = omega arith;
        counted = omega arith;
      } in
      let d : IsCounted k v = record {
        copies = c.copies;
        decided = omega arith;
        counted = omega arith;
      } in
      let target = lookup hdr_original_topic (decode_headers m) in
      elim (Bool-cases
        (is_poison (lookup hdr_error_class (decode_headers m)) && not args.include_poison)) [
          | inl kept ↦ rw kept (check-IsLimited v d (omega arith))
          | inr allowed ↦ rw allowed (
              if_IsLimited args.publish (republish kafka args m target w')
                (ok (if is_reached args.limit (w.matched + 1) then stop else more), w')
                (republish-IsLimited m target w' c' small (omega arith))
                (check-IsLimited w' c' (omega arith)))
        ]

  handle_pending-IsLimited :
      (m : Message) (end : ℕ) (w : Run)
      → IsCounted k w
      → w.published + w.excluded < suc n
      → IsLimited k (suc n) (handle_pending kafka args m end w)
  unfolding handle_pending
  handle_pending-IsLimited m end w c small =
      let w' = record w { pending = left_pending m end w.pending } in
      let v = record w' { seen = w.seen + 1 } in
      let c' : IsCounted k w' = record {
        copies = c.copies;
        decided = c.decided;
        counted = c.counted;
      } in
      let d : IsCounted k v = record {
        copies = c.copies;
        decided = c.decided;
        counted = omega arith;
      } in
      if_IsLimited (ltb m.offset end)
        (if is_other args.service (lookup hdr_service (decode_headers m))
          then (ok more, v)
          else handle_match kafka args m v)
        (ok more, w')
        (if_IsLimited (is_other args.service (lookup hdr_service (decode_headers m))) (ok more, v)
          (handle_match kafka args m v) (d, omega arith, inr small)
          (handle_match-IsLimited m v d small (omega arith)))
        (c', omega arith, inr small)

  pub step-IsLimited :
      (x : Answer) (w : Run)
      → IsCounted k w
      → w.published + w.excluded < suc n
      → IsLimited k (suc n) (step kafka args x w)
  unfolding step
  step-IsLimited nothing w c small = (c, omega arith, inr small)
  step-IsLimited (error e) w c small =
      let same : (handle_error kafka args e w).1 ≡ w = ground arith in
      rw same (c, omega arith, inr small)
  step-IsLimited (message m) w c small = elim (Option-cases (lookup m.partition w.pending)) [
    | inl missing ↦ rw missing (c, omega arith, inr small)
    | inr (end, e) ↦ rw e (handle_pending-IsLimited m end w c small)
  ]
