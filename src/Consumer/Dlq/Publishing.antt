-- ===== src/Consumer/Dlq/Publishing.antt =====
-- What the router has done once it returns.
use kafka_playgroud.Prelude.{
  ℕ, ◌≡◌, inl, inr, false, [], ◌∷◌, ◌++◌, String, arith, ok, map, Option-cases, nat_eq, string_eq,
  ℤ,
}
use mathlib.Core.List.{append_assoc}
use kafka_playgroud.Prelude.Action.{bind-ok, pure}
use kafka_playgroud.Prelude.Words.{str_of}
use kafka_playgroud.Config.{backoff_for_attempt, is_exactly_once}
use kafka_playgroud.Consumer.Broker.{Message, Outgoing, Exc, enqueued, flushed, Trace, delivered}
use kafka_playgroud.Consumer.Dlq.{
  Router, Headers, Origin, publish, await_delivery, judge, encode_header, str_of_int, to_retry,
  to_dead_letter, provenance, error_headers, add_ms, hdr_attempt, hdr_retry_at, hdr_attempts_made,
  hdr_retry_target, to_source,
}

-- what a failed message is published as
abbrev pub copy_of : Message → String → Headers → Outgoing
copy_of m topic headers = record {
  topic = topic;
  key = m.key;
  value = m.value;
  headers = map encode_header headers;
}

-- the headers of a message that goes back to its source
abbrev pub source_headers : Origin → String → String → ℤ → Headers
source_headers o name group_id n =
    provenance o name group_id ++ (hdr_attempt, str_of_int n) ∷ (hdr_retry_target, name) ∷ []

-- the headers of a dead letter
abbrev pub dead_headers : Router → Origin → String → String → ℤ → Exc → Trace → Headers
dead_headers r o name group_id n x t =
    provenance o name group_id
    ++ (hdr_attempts_made, str_of_int n) ∷ error_headers r x (r.kafka.now t)

module _ (r : Router) (at_least_once : is_exactly_once r.settings ≡ false) where
  -- Outside a transaction, a publish that returns has enqueued the message's own key and value under
  -- the new headers, has flushed until nothing remained, and was told that it is delivered.
  pub publish_ok :
      (topic : String) (m : Message) (headers : Headers) (t : Trace)
      → (publish r topic m headers t).0 ≡ ok tt
      → ((publish r topic m headers t).1 ≡ t ++ enqueued (copy_of m topic headers) ∷ flushed 0 ∷ [])
        × (r.kafka.report (publish r topic m headers t).1 (copy_of m topic headers) ≡ delivered)
  unfolding publish await_delivery judge
  publish_ok topic m headers t h = (grind (arith, append_assoc), ground (arith))

  -- The same of the three routes, each with its topic.
  pub to_dead_letter_ok :
      (m : Message) (o : Origin) (name group_id : String) (n : ℤ) (x : Exc) (t : Trace)
      → (to_dead_letter r m o name group_id n x t).0 ≡ ok tt
      → (to_dead_letter r m o name group_id n x t).1
        ≡ t
          ++ enqueued (copy_of m r.settings.dlq_topic (dead_headers r o name group_id n x t))
            ∷ flushed 0
            ∷ []
  unfolding to_dead_letter
  to_dead_letter_ok m o name group_id n x t h =
      (publish_ok r.settings.dlq_topic m (dead_headers r o name group_id n x t) t h).0

  pub to_source_ok :
      (m : Message) (o : Origin) (name group_id : String) (n : ℤ) (t : Trace) (topic : String)
      → (to_source r m o name group_id n t).0 ≡ ok topic
      → (to_source r m o name group_id n t).1
        ≡ t ++ enqueued (copy_of m o.topic (source_headers o name group_id n)) ∷ flushed 0 ∷ []
  unfolding to_source
  to_source_ok m o name group_id n t topic h =
      let (_, sent, _) =
        bind-ok (publish r o.topic m (source_headers o name group_id n)) (λ _. pure o.topic) t
          {b = topic} h in
      grind (arith, publish_ok o.topic m (source_headers o name group_id n) t sent)

  pub to_retry_ok :
      (m : Message) (o : Origin) (name group_id : String) (n : ℕ) (x : Exc) (t : Trace) (due : ℕ)
      → (to_retry r m o name group_id n x t).0 ≡ ok due
      → (to_retry r m o name group_id n x t).1
        ≡ t
          ++ enqueued (
              copy_of m r.settings.retry_topic (
                provenance o name group_id
                ++ (hdr_attempt, str_of n)
                  ∷ (hdr_retry_at, r.iso.isoformat due)
                  ∷ error_headers r x (r.kafka.now t)))
            ∷ flushed 0
            ∷ []
  unfolding to_retry
  to_retry_ok m o name group_id n x t due h =
      let now = r.kafka.now t in
      elim (Option-cases (backoff_for_attempt r.parse_float r.settings n)) [
        | inl missing ↦ absurd (ground arith)
        | inr (b, e) ↦
            let sent =
              provenance o name group_id
              ++ (hdr_attempt, str_of n)
                ∷ (hdr_retry_at, r.iso.isoformat (add_ms now b))
                ∷ error_headers r x now in
            grind (arith, e, publish_ok r.settings.retry_topic m sent t)
      ]
