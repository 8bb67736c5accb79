-- ===== src/Consumer/Runtime/Quiet.antt =====
-- The parts of `_handle_message` that commit no offset, for any commit strategy.
use kafka_playgroud.Prelude.{ℕ, ℤ, ◌≡◌, refl, Bool, Option, none, some, String, arith, string_eq}
use mathlib.Core.List.{append-nil}
use kafka_playgroud.Events.{LifecycleEvent}
use kafka_playgroud.Consumer.Broker.{Exc, Trace, Message, Io}
use kafka_playgroud.Consumer.Dlq.{
  Router, Origin, Headers, publish, await_delivery, judge, to_retry, to_dead_letter,
}
use kafka_playgroud.Consumer.State.{OrderFold}
use kafka_playgroud.Consumer.Runtime.{
  Service, publish_failure, run_attempt, run_handler, delay, save_fold, crash_if_configured,
}
use kafka_playgroud.Consumer.Runtime.Committing.{
  outcomes_of, outcomes_of-emit, IsQuiet, AreQuiet, Quiet,
}

module _ {S C : Type 0} (service : Service S C) where
  publish_quiet :
      (r : Router) (topic : String) (m : Message) (headers : Headers) (t : Trace)
      → outcomes_of (publish r topic m headers t).1 ≡ outcomes_of t
  unfolding publish await_delivery judge
  publish_quiet r topic m headers t = grind (arith, outcomes_of-emit, append-nil)

  to_dead_letter_quiet :
      (r : Router) (m : Message) (o : Origin) (name group_id : String) (n : ℤ) (x : Exc) (t : Trace)
      → outcomes_of (to_dead_letter r m o name group_id n x t).1 ≡ outcomes_of t
  unfolding to_dead_letter
  to_dead_letter_quiet r m o name group_id n x t = publish_quiet r r.settings.dlq_topic m _ t

  to_retry_quiet :
      (r : Router) (m : Message) (o : Origin) (name group_id : String) (n : ℕ) (x : Exc) (t : Trace)
      → outcomes_of (to_retry r m o name group_id n x t).1 ≡ outcomes_of t
  unfolding to_retry
  to_retry_quiet r m o name group_id n x t = grind (arith, publish_quiet)

  pub publish_failure-Quiet :
      (m : Message) (x : Exc) (n : ℕ) → Quiet service (publish_failure service m x n)
  unfolding publish_failure
  publish_failure-Quiet m x n w = grind (arith, to_retry_quiet, to_dead_letter_quiet)

module _ {S C : Type 0} (service : Service S C) (quiet : IsQuiet service.store)
    (silent : AreQuiet service.handlers) where
  pub run_handler-Quiet :
      (event : LifecycleEvent) (f : Option (LifecycleEvent → Io Unit))
      → service.handlers event.event_type ≡ f
      → Quiet service (run_handler service event f)
  run_handler-Quiet event none e w = refl
  run_handler-Quiet event (some f) e w =
      grind (arith, outcomes_of-emit, append-nil, silent event.event_type event f w.trace e)

  pub run_attempt-Quiet :
      (event : LifecycleEvent) (n : ℕ) → Quiet service (run_attempt service event n)
  unfolding run_attempt
  run_attempt-Quiet event n w =
      ground (arith, run_handler-Quiet event (service.handlers event.event_type) refl w)

  pub save_fold-Quiet :
      (event : LifecycleEvent) (fold : OrderFold) (p : ℕ)
      → Quiet service (save_fold service event fold p)
  unfolding save_fold
  save_fold-Quiet event fold p w =
      ground (arith, quiet.save_quiet p event.order_id fold event.event_id w.store w.trace)

  pub crash-Quiet : (b : Bool) → Quiet service (crash_if_configured service b)
  unfolding crash_if_configured
  crash-Quiet b w = grind (arith, outcomes_of-emit, append-nil)

  pub delay-Quiet : Quiet service (delay service)
  delay-Quiet w = grind (arith, outcomes_of-emit, append-nil)
