-- ===== src/Consumer/Failures.antt =====
-- src/order_service/consumer/failures.py: the lever that makes handlers fail on purpose. The text
-- of its exceptions is left out.
use kafka_playgroud.Prelude.{
  ℕ, Bool, true, List, [], ◌∷◌, String, Result, ok, err, leb, if◌then◌else◌, contains, string_eq,
}
use kafka_playgroud.Config.{Settings, HandlerFailureMode, failing_orders}
use kafka_playgroud.Events.{LifecycleEvent}
use kafka_playgroud.Consumer.Broker.{Exc, retryable_error, non_retryable_error}

-- `not targeted or order_id in targeted`
abbrev pub is_targeted : List String → String → Bool
is_targeted [] order_id = true
is_targeted (o ∷ os) order_id = contains order_id (o ∷ os)

abbrev pub fail_transient : Settings → ℕ → Result Exc (Unit {0})
fail_transient settings attempt =
    if leb attempt settings.handler_failure_attempts
    then err (record { class = retryable_error; text = "HANDLER_FAILURE_MODE=transient" })
    else ok tt

-- `maybe_fail`
unfoldable pub maybe_fail : Settings → LifecycleEvent → ℕ → Result Exc (Unit {0})
maybe_fail settings event attempt = elim settings.handler_failure_mode [
  | HandlerFailureMode.never ↦ ok tt
  | HandlerFailureMode.poison ↦
      if is_targeted (failing_orders settings) event.order_id
      then err (record { class = non_retryable_error; text = "HANDLER_FAILURE_MODE=poison" })
      else ok tt
  | HandlerFailureMode.transient ↦
      if is_targeted (failing_orders settings) event.order_id
      then fail_transient settings attempt
      else ok tt
]
