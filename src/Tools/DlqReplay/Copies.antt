-- ===== src/Tools/DlqReplay/Copies.antt =====
-- What the replay tool has put on topics: the copies in a trace, and how a run ends and starts.
use kafka_playgroud.Prelude.{
  ℕ, ◌≡◌, refl, ◌∙◌, ◌⊎◌, inl, inr, Bool, true, false, some, List, [], ◌∷◌, ◌++◌, Result, ok, err,
  string_eq, nat_eq,
}
use mathlib.Core.List.{append-nil}
use kafka_playgroud.Config.{Settings}
use kafka_playgroud.Consumer.Broker.{
  Outgoing, Exc, Kafka, KafkaError, Enqueue, accepted, buffer_error, refused, enqueued,
  not_enqueued, flushed, Trace, emit,
}
pub use kafka_playgroud.Consumer.Broker.Collecting.{copies_of}
use kafka_playgroud.Consumer.Broker.Collecting.{copies_of-emit}
use kafka_playgroud.Consumer.RetryWorker.{Answer}
use kafka_playgroud.Tools.DlqReplay.{
  Args, Run, Snapshot, Cluster, loop, finish, replay, start, snapshot_topic,
}

pub copies_of-enqueued :
    (out : Outgoing) (t : Trace) → copies_of (emit (enqueued out) t) ≡ copies_of t ++ out ∷ []
copies_of-enqueued out t = copies_of-emit (enqueued out) t

pub copies_of-not_enqueued :
    (out : Outgoing) (t : Trace) → copies_of (emit (not_enqueued out) t) ≡ copies_of t
copies_of-not_enqueued out t = copies_of-emit (not_enqueued out) t ∙ append-nil (copies_of t)

copies_of-flushed : (n : ℕ) (t : Trace) → copies_of (emit (flushed n) t) ≡ copies_of t
copies_of-flushed n t = copies_of-emit (flushed n) t ∙ append-nil (copies_of t)

pub Enqueue-cases :
    (a : Enqueue) → (a ≡ accepted) ⊎ (a ≡ buffer_error) ⊎ ((e : KafkaError) × (a ≡ refused e))
Enqueue-cases accepted = inl refl
Enqueue-cases buffer_error = inr (inl refl)
Enqueue-cases (refused e) = inr (inr (e, refl))

module _ (kafka : Kafka) (args : Args) where
  pub finish_copies :
      (r : Result Exc Bool) (w : Run) → copies_of (finish kafka args r w).1 ≡ copies_of w.trace
  unfolding finish
  finish_copies (ok false) w = refl
  finish_copies (ok true) w = copies_of-flushed (kafka.flush w.trace 30000) w.trace
  finish_copies (err x) w = copies_of-flushed (kafka.flush w.trace 30000) w.trace

module _ (kafka : Kafka) (args : Args) (cluster : Cluster) (settings : Settings) (s : Snapshot)
    (snapshot : snapshot_topic cluster settings.dlq_topic ≡ some s) where
  pub replay_from :
      (polled : List Answer) (t : Trace)
      → replay kafka args cluster settings polled t
        ≡ finish kafka args
            (loop kafka args polled (start kafka args s t)).0
            (loop kafka args polled (start kafka args s t)).1
  unfolding replay
  replay_from polled t = rw (snapshot, replay) refl
