-- ===== src/Consumer/RetryWorker/Release.antt =====
-- What the retry worker reads of the headers that a consumer wrote, and what it releases then.
use kafka_playgroud.Prelude.{
  ℕ, pos, ◌≡◌, refl, Bool, false, Option, none, some, String, string_eq, nat_eq, ltb,
}
use kafka_playgroud.Prelude.Words.RoundTrip.{int_of-str_of}
use kafka_playgroud.Dict.{lookup}
use kafka_playgroud.Consumer.Dlq.{Origin, provenance, hdr_attempt}
use kafka_playgroud.Consumer.Dlq.Provenance.{retry_headers}
use kafka_playgroud.Consumer.RetryWorker.{RetryWorker, Waiting, int_header}

-- the attempt that the worker reads
pub retry_attempt :
    (o : Origin) (name group_id : String) (n : ℕ) (due : String) (e : String × (String × String))
    → int_header (retry_headers o name group_id n due e) hdr_attempt (pos 2) ≡ pos n
unfolding int_header lookup provenance
retry_attempt o name group_id n due e = rw (int_of-str_of n, int_header) refl

-- whether a due time is later than the clock
abbrev pub is_later_than : RetryWorker → Option ℕ → Waiting → Bool
is_later_than worker none w = false
is_later_than worker (some due) w = ltb (worker.router.kafka.now w.trace) due
