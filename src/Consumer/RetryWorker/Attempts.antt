-- ===== src/Consumer/RetryWorker/Attempts.antt =====
-- How often a message can go from a consumer to the retry topic and back: the headers that a
-- consumer, the worker and the next consumer write and read.
use kafka_playgroud.Prelude.{
  ℕ, ℤ, pos, suc, ◌+◌, ◌≡◌, ◌≤◌, ◌<◌, refl, true, false, some, [], ◌∷◌, ◌++◌, String, arith, ok,
  map, string_eq, nat_eq, max, ap, ◌∙◌, sym,
}
use mathlib.Core.List.{append_cancel_left}
use kafka_playgroud.Prelude.Words.RoundTrip.{int_of-str_of}
use kafka_playgroud.Config.{group_id_for, is_exactly_once}
use kafka_playgroud.Dict.{lookup, insert}
use kafka_playgroud.Consumer.Broker.{Message, Exc, Outgoing, Trace, enqueued, flushed}
use kafka_playgroud.Consumer.Dlq.{
  Origin, decode_headers, from_message, provenance, encode_header, str_of_int, hdr_attempt,
  hdr_retry_target, to_source, error_headers,
}
use kafka_playgroud.Consumer.Dlq.Publishing.{source_headers, to_source_ok, copy_of}
use kafka_playgroud.Consumer.Dlq.Provenance.{received, decoded, retry_headers}
use kafka_playgroud.Consumer.Folding.{attempt_of}
use kafka_playgroud.Consumer.Errors.{classify, describe_error}
use kafka_playgroud.Consumer.Runtime.{Service, Worker, has_budget, publish_failure}
use kafka_playgroud.Consumer.Runtime.Routing.{next_copy, publish_failure_ok}
use kafka_playgroud.Consumer.RetryWorker.{RetryWorker, int_header}
use kafka_playgroud.Consumer.RetryWorker.Release.{retry_attempt}

source_decoded :
    (m : Message) (o : Origin) (name group_id : String) (n : ℤ)
    → m.headers ≡ received (map encode_header (source_headers o name group_id n))
    → decode_headers m ≡ source_headers o name group_id n
unfolding decode_headers insert provenance
source_decoded m o name group_id n h = rw h refl

source_attempt :
    (o : Origin) (name group_id : String) (n : ℕ)
    → (attempt_of (source_headers o name group_id (pos n)) ≡ max 1 n)
      × (lookup hdr_retry_target (source_headers o name group_id (pos n)) ≡ some name)
unfolding attempt_of lookup provenance str_of_int
source_attempt o name group_id n = (rw (int_of-str_of n) refl, refl)

-- the attempt that a message asks for
abbrev pub attempt_in : Message → ℕ
attempt_in m = attempt_of (decode_headers m)

module _ {S C : Type 0} (service : Service S C) (worker : RetryWorker) where
  -- From a message that a service failed on to the one that it sees next: its failure was published
  -- with attempts left, the worker read that copy and released it under the attempt that it read
  -- there, and what it released was read.
  pub record Retried (m m' : Message) : Type 0 where
    pub failure : Exc
    pub before : Worker S C
    pub scheduled : has_budget service failure (attempt_in m) ≡ true
    pub published : (publish_failure service m failure (attempt_in m) before).0 ≡ ok tt
    pub first_copy : Outgoing
    pub sent :
        (publish_failure service m failure (attempt_in m) before).1.trace
        ≡ before.trace ++ enqueued first_copy ∷ flushed 0 ∷ []
    pub waited : Message
    pub read_waited : waited.headers ≡ received first_copy.headers
    pub origin : Origin
    pub topic : String
    pub then_at : Trace
    pub second_copy : Outgoing
    pub released :
        to_source worker.router waited origin service.name
          (group_id_for worker.settings service.name)
          (int_header (decode_headers waited) hdr_attempt (pos 2))
          then_at
        ≡ (ok topic, then_at ++ enqueued second_copy ∷ flushed 0 ∷ [])
    pub read_next : m'.headers ≡ received second_copy.headers

  -- a number of such rounds
  pub data Retries (m : Message) : ℕ → Message → Type 0 where
    none_yet : Retries m 0 m
    once_more : {k : ℕ} {m' m'' : Message} → Retries m k m' → Retried m' m'' → Retries m (suc k) m''

enqueued_inj :
    {a b : Outgoing} (t : Trace)
    → t ++ enqueued a ∷ flushed 0 ∷ [] ≡ t ++ enqueued b ∷ flushed 0 ∷ []
    → a ≡ b
enqueued_inj {a} {b} t h =
    let e = append_cancel_left t (enqueued a ∷ flushed 0 ∷ []) (enqueued b ∷ flushed 0 ∷ []) h in cc

-- what the copy says about the failure
abbrev errors_at : {S C : Type 0} → Service S C → Exc → Trace → String × (String × String)
errors_at service x t =
    let now = service.router.iso.isoformat (service.router.kafka.now t) in
    let (class, text) = describe_error x in (class, (text, now))

next_copy_headers :
    {S C : Type 0} (service : Service S C) (m : Message) (x : Exc) (n due : ℕ) (t : Trace)
    → has_budget service x n ≡ true
    → (next_copy service m x n due t).headers
      ≡ map encode_header (
          retry_headers
            (from_message service.router.iso m)
            service.name
            (group_id_for service.settings service.name)
            (n + 1)
            (service.router.iso.isoformat due)
            (errors_at service x t))
unfolding error_headers
next_copy_headers service m x n due t h = rw h refl

has_budget-lt :
    {S C : Type 0} (service : Service S C) (x : Exc) (n : ℕ)
    → has_budget service x n ≡ true
    → n < service.settings.retry_max_attempts
unfolding has_budget classify
has_budget-lt service x n h = ground arith

module _ {S C : Type 0} (service : Service S C) (worker : RetryWorker)
    (at_least_once : is_exactly_once service.router.settings ≡ false)
    (worker_too : is_exactly_once worker.router.settings ≡ false) where
  -- what the worker reads of the copy that a consumer published
  waited_attempt :
      (m m' : Message) (r : Retried service worker m m')
      → int_header (decode_headers r.waited) hdr_attempt (pos 2) ≡ pos (attempt_in m + 1)
  waited_attempt m m' r =
      let n = attempt_in m in
      let o = from_message service.router.iso m in
      let g = group_id_for service.settings service.name in
      let (due, e) = publish_failure_ok service at_least_once m r.failure n r.before r.published in
      let copy =
        enqueued_inj {a = r.first_copy} {b = next_copy service m r.failure n due r.before.trace}
          r.before.trace (sym r.sent ∙ ap (λ v. v.trace) e) in
      let at = service.router.iso.isoformat due in
      let errors = errors_at service r.failure r.before.trace in
      let read = decoded r.waited o service.name g (n + 1) at errors (
        r.read_waited
        ∙ ap (λ (out : Outgoing). received out.headers) copy
        ∙ ap received (next_copy_headers service m r.failure n due r.before.trace r.scheduled)) in
      ap (λ hs. int_header hs hdr_attempt (pos 2)) read
      ∙ retry_attempt o service.name g (n + 1) at errors

  -- what the next consumer reads of the copy that the worker released
  next_headers :
      (m m' : Message) (r : Retried service worker m m')
      → decode_headers m'
        ≡ source_headers r.origin service.name
            (group_id_for worker.settings service.name)
            (pos (attempt_in m + 1))
  next_headers m m' r =
      let g = group_id_for worker.settings service.name in
      let n = int_header (decode_headers r.waited) hdr_attempt (pos 2) in
      let out = copy_of r.waited r.origin.topic (source_headers r.origin service.name g n) in
      let trace =
        to_source_ok worker.router worker_too r.waited r.origin service.name g n r.then_at r.topic
          (ap (λ a. a.0) r.released) in
      let copy =
        enqueued_inj {a = r.second_copy} {b = out} r.then_at
          (sym (ap (λ a. a.1) r.released) ∙ trace) in
      source_decoded m' r.origin service.name g n
        (r.read_next ∙ ap (λ (o : Outgoing). received o.headers) copy)
      ∙ ap (source_headers r.origin service.name g) (waited_attempt m m' r)

  -- A round through the retry topic asks the service that failed, and no other, for one attempt more,
  -- and there is none once the attempts have reached the maximum.
  pub Retried-attempt_of :
      (m m' : Message)
      → Retried service worker m m'
      → (attempt_in m' ≡ attempt_in m + 1)
        × (lookup hdr_retry_target (decode_headers m') ≡ some service.name)
        × (attempt_in m < service.settings.retry_max_attempts)
  Retried-attempt_of m m' r =
      let g = group_id_for worker.settings service.name in
      let n = attempt_in m in
      let read = next_headers m m' r in
      let sent = source_attempt r.origin service.name g (n + 1) in
      (
        ap attempt_of read ∙ sent.0 ∙ omega arith,
        ap (lookup hdr_retry_target) read ∙ sent.1,
        has_budget-lt service r.failure n r.scheduled,
      )

  -- However often a message is retried in one service, the attempt that it asks for has grown by one
  -- each time, and never beyond the configured maximum: the rounds through the retry topic end.
  pub Retries-attempt_in :
      (m m' : Message) (k : ℕ)
      → Retries service worker m k m'
      → (attempt_in m' ≡ attempt_in m + k)
        × (attempt_in m + k ≤ max (attempt_in m) service.settings.retry_max_attempts)
  Retries-attempt_in m _ _ none_yet = omega arith
  Retries-attempt_in m _ _ (once_more {k} {m'} {m''} before round) =
      omega (arith, Retries-attempt_in m m' k before, Retried-attempt_of m' m'' round)
