-- ===== src/Producer/Kafka/Delivery.antt =====
-- `_publish_blocking`: its result beside what the client took.
use kafka_playgroud.Prelude.{◌≡◌, [], ◌∷◌, ◌++◌, ok, err, arith}
use kafka_playgroud.Config.{Settings, producer_delivery_wait_ms}
use kafka_playgroud.Producer.Kafka.{
  ProducerRecord, DeliveryResult, delivery_timeout, accepted, delivered, nothing, Metadata, Wire,
  Client, produce_keyed, await_report, publish_blocking,
}

module _ (client : Client) (settings : Settings) where
  -- Success means that the client took the message and reported its delivery within the wait; the
  -- message is then the last that it took.
  pub publish_blocking_ok :
      (r : ProducerRecord) (wire : Wire) (result : DeliveryResult)
      → (publish_blocking client settings r wire).0 ≡ ok result
      → (client.produce wire r ≡ accepted)
        × (client.wait (wire ++ r ∷ []) (producer_delivery_wait_ms settings) ≡ delivered result)
        × ((publish_blocking client settings r wire).1 ≡ wire ++ r ∷ [])
  unfolding publish_blocking produce_keyed await_report
  publish_blocking_ok r wire result h = ground arith

  -- A timeout is raised only for a message that the client took, when no report came and the topic
  -- is not known to be missing: whether it was delivered is open.
  pub publish_blocking_timeout :
      (r : ProducerRecord) (wire : Wire)
      → (publish_blocking client settings r wire).0 ≡ err delivery_timeout
      → (client.produce wire r ≡ accepted)
        × (client.wait (wire ++ r ∷ []) (producer_delivery_wait_ms settings) ≡ nothing)
        × (client.list_topics (wire ++ r ∷ []) r.topic ≡ Metadata.missing → ⊥)
        × ((publish_blocking client settings r wire).1 ≡ wire ++ r ∷ [])
  unfolding publish_blocking produce_keyed await_report
  publish_blocking_timeout r wire h = ground arith
