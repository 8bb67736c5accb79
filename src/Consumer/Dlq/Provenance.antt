-- ===== src/Consumer/Dlq/Provenance.antt =====
-- What the headers of a routed message tell its next reader.
use kafka_playgroud.Prelude.{
  ℕ, ◌≡◌, refl, Option, some, List, [], ◌∷◌, ◌++◌, String, arith, ok, map, nat_eq, string_eq, max,
}
use kafka_playgroud.Prelude.Json.{Bytes}
use kafka_playgroud.Prelude.Words.{str_of}
use kafka_playgroud.Prelude.Words.RoundTrip.{int_of-str_of}
use kafka_playgroud.Dict.{lookup, insert}
use kafka_playgroud.Consumer.Folding.{attempt_of}
use kafka_playgroud.Consumer.Broker.{Message, IsoTime}
use kafka_playgroud.Consumer.Dlq.{
  Headers, Origin, decode_headers, from_headers, provenance, encode_header, str_of_int, hdr_service,
  hdr_consumer_group, hdr_error_class, hdr_error_message, hdr_failed_at, hdr_attempt, hdr_retry_at,
  from_message,
}

-- the headers as the broker hands them to a reader
abbrev pub as_read : String × Bytes → String × Option Bytes
as_read (name, v) = (name, some v)

abbrev pub received : List (String × Bytes) → List (String × Option Bytes)
received hs = map as_read hs

-- the headers of a scheduled attempt
abbrev pub retry_headers :
    Origin → String → String → ℕ → String → String × (String × String) → Headers
retry_headers o name group_id n due (class, (text, failed_at)) =
    provenance o name group_id
    ++ (hdr_attempt, str_of n)
      ∷ (hdr_retry_at, due)
      ∷ (hdr_error_class, class)
      ∷ (hdr_error_message, text)
      ∷ (hdr_failed_at, failed_at)
      ∷ []

pub decoded :
    (m : Message) (o : Origin) (name group_id : String) (n : ℕ) (due : String)
    (e : String × (String × String))
    → m.headers ≡ received (map encode_header (retry_headers o name group_id n due e))
    → decode_headers m ≡ retry_headers o name group_id n due e
unfolding decode_headers insert provenance
decoded m o name group_id n due e h = rw h refl

origin_read :
    (iso : IsoTime) (m m' : Message) (name group_id : String) (n : ℕ) (due : String)
    (e : String × (String × String))
    → from_headers iso (retry_headers (from_message iso m) name group_id n due e) m'
      ≡ ok (from_message iso m)
unfolding from_headers lookup provenance str_of_int from_message
origin_read iso m m' name group_id n due e =
    ground (arith, int_of-str_of m.partition, int_of-str_of m.offset)

-- A message that was routed to the retry topic tells its reader, through its headers alone, where
-- it first came from, which service and group it failed in, which attempt is next, and when.
pub retry_headers-read :
    (iso : IsoTime) (m m' : Message) (name group_id : String) (n : ℕ) (due : String)
    (e : String × (String × String))
    → m'.headers
      ≡ received (map encode_header (retry_headers (from_message iso m) name group_id n due e))
    → (from_headers iso (decode_headers m') m' ≡ ok (from_message iso m))
      × (lookup hdr_service (decode_headers m') ≡ some name)
      × (lookup hdr_consumer_group (decode_headers m') ≡ some group_id)
      × (attempt_of (decode_headers m') ≡ max 1 n)
      × (lookup hdr_retry_at (decode_headers m') ≡ some due)
unfolding lookup provenance attempt_of
retry_headers-read iso m m' name group_id n due e h =
    rw (decoded m' (from_message iso m) name group_id n due e h, int_of-str_of)
      (origin_read iso m m' name group_id n due e, refl, refl, refl, refl)
