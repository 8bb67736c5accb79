-- ===== src/Producer/App/Tests.antt =====
-- A run of the producer's application, and its witness.
use kafka_playgroud.Prelude.{
  ℕ, ◌≤◌, ◌≡◌, ◌⊎◌, ap, some, none, true, Option, [], ◌∷◌, List, String, arith, pos, string_eq, ℤ,
  negsuc,
}
use kafka_playgroud.Prelude.Words.{str_of, int_of}
use kafka_playgroud.Prelude.Words.RoundTrip.{int_of-str_of}
use kafka_playgroud.Events.{EventType}
use kafka_playgroud.Producer.Routes.{Platform}
use kafka_playgroud.Producer.Routes.Tests.{body, platform, req, pack}
use kafka_playgroud.Producer.App.{Call, creation, posting, deletion, reading, lifespan}
use kafka_playgroud.Producer.App.Numbers.{numbers, known, IsReadable}
use kafka_playgroud.Producer.App.Numbers.Ascending.{Ascends, creations_of, lifespan_ascending}

abbrev natural : Option ℤ → Option ℕ
natural (some (pos n)) = some n
natural (some (negsuc n)) = none
natural none = none

abbrev read : String → Option ℕ
read text = natural (int_of text)

-- events are written as their numbers
abbrev written : Platform
written = record platform { dump_event = λ e. str_of e.sequence }

readable : IsReadable written read
readable = record {
  read_dump = λ e. ap natural (int_of-str_of e.sequence);
  topics_differ = λ e. grind (arith, (string_eq.beq_iff "orders.snapshot" "orders.lifecycle").1 e);
}

-- a new order, an early DELIVERED, PACKED, DELIVERED by force, and its deletion
abbrev calls : List Call
calls =
    creation req body
    ∷ posting req "o-2" pack
    ∷ posting req "o-2" (record pack { event_type = EventType.delivered; force = true })
    ∷ reading "o-2"
    ∷ deletion "o-2"
    ∷ posting req "o-2" pack
    ∷ []

once : creations_of "o-2" calls ≤ 1
unfolding creations_of
once = omega arith

lifespan_ascending_example :
    (high : ℕ) × Ascends 0
      (numbers written read "o-2" (lifespan written (λ wire. 0) calls).app)
      high
    × ((known "o-2" (lifespan written (λ wire. 0) calls).app ≡ none)
        ⊎ (known "o-2" (lifespan written (λ wire. 0) calls).app ≡ some high))
lifespan_ascending_example = lifespan_ascending written read readable "o-2" (λ wire. 0) calls once
