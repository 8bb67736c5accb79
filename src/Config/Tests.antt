-- ===== src/Config/Tests.antt =====
-- The settings that the witnesses run with, and a witness for the backoff schedule.
use kafka_playgroud.Prelude.{
  ◌≡◌, ◌<◌, ◌≤◌, ◌-◌, refl, true, Option, some, none, [], ◌∷◌, String, pos, ℤ, ◌==◌, string_eq,
  if◌then◌else◌,
}
use kafka_playgroud.Prelude.Words.{split_commas, strip}
use kafka_playgroud.Config.{
  Settings, classic, local, state_first, full, at_least_once, read_committed, StateCrashPoint,
  HandlerFailureMode, retry_backoff_schedule, nonblank, parse_all, backoff_for_attempt,
}
use kafka_playgroud.Config as Config
use kafka_playgroud.Config.Schedule.{backoff_for_attempt_total}

abbrev pub settings : Settings
settings = record {
  order_lifecycle_topic = "orders.lifecycle";
  order_snapshot_topic = "orders.snapshot";
  service_name = "inventory";
  consumer_group_id = none;
  consumer_instance_id = none;
  hostname = "host";
  consumer_group_protocol = Config.classic;
  consumer_assignment_strategy = none;
  consumer_remote_assignor = none;
  consumer_session_timeout_ms = none;
  consumer_max_poll_interval_ms = none;
  consumer_instance_id_static = none;
  handler_delay_ms = 0;
  state_backend = Config.local;
  state_write_order = Config.state_first;
  state_crash_after = Config.StateCrashPoint.never;
  state_changelog_prefix = "state";
  state_rebuild = Config.full;
  retry_topic = "orders.retry";
  dlq_topic = "orders.dlq";
  retry_max_attempts = 3;
  retry_backoff_seconds = "";
  producer_message_timeout_ms = 5000;
  handler_failure_mode = Config.HandlerFailureMode.never;
  handler_failure_orders = none;
  handler_failure_attempts = 0;
  processing_guarantee = Config.at_least_once;
  producer_idempotence = true;
  consumer_isolation_level = Config.read_committed;
  transaction_commit_interval_messages = 2;
  transaction_commit_interval_ms = 1000;
  transaction_timeout_ms = 60000;
}

abbrev parse_float : String → Option ℤ
parse_float s = if s == "1" then some (pos 1000) else some (pos 5000)

abbrev patient : Settings
patient = record settings { retry_backoff_seconds = "1, 5" }

schedule : retry_backoff_schedule parse_float patient ≡ some (pos 1000 ∷ pos 5000 ∷ [])
unfolding retry_backoff_schedule nonblank parse_all split_commas strip
schedule = refl

backoff_for_attempt_total_example :
    (b : ℤ) × (backoff_for_attempt parse_float patient 3 ≡ some b)
    × (3 < 2 → b ≡ pos 0)
    × (2 ≤ 3 → (3 - 2 < 2 → some (pos 5000) ≡ some b) × (2 ≤ 3 - 2 → some (pos 5000) ≡ some b))
backoff_for_attempt_total_example =
    backoff_for_attempt_total parse_float patient (pos 1000 ∷ pos 5000 ∷ []) 3 schedule
