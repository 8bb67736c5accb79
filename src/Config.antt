-- ===== src/Config.antt =====
-- src/order_service/config.py: the settings and what is derived from them. Settings that only
-- reach a client library unchanged (bootstrap servers, acks, ports) are left out. A float of
-- seconds is a signed count of milliseconds.
pub mod Schedule
pub mod Tests
use kafka_playgroud.Prelude.Words.{split_commas, strip}
use kafka_playgroud.Prelude.{
  ℕ, ◌+◌, ◌-◌, ◌<◌, zero, suc, Bool, true, false, Option, none, some, List, [], ◌∷◌, String, Result,
  ok, err, ◌==◌, string_eq, if◌then◌else◌, min, length, get_elem?, ltb, ℤ, pos, ◌&&◌,
}
use Prim.Native.String.{◌++◌}

pub data GroupProtocol : Type 0 where
  classic consumer : GroupProtocol

pub data StateBackend : Type 0 where
  memory local : StateBackend

pub data StateRebuild : Type 0 where
  full checkpoint : StateRebuild

pub data StateWriteOrder : Type 0 where
  state_first offset_first : StateWriteOrder

pub data StateCrashPoint : Type 0 where
  never state_write offset_commit transaction_open : StateCrashPoint

pub data ProcessingGuarantee : Type 0 where
  at_least_once exactly_once : ProcessingGuarantee

pub data IsolationLevel : Type 0 where
  read_committed read_uncommitted : IsolationLevel

pub data HandlerFailureMode : Type 0 where
  never transient poison : HandlerFailureMode

pub record Settings : Type 0 where
  pub order_lifecycle_topic : String
  pub order_snapshot_topic : String
  pub service_name : String
  pub consumer_group_id : Option String
  pub consumer_instance_id : Option String
  pub hostname : String  -- `socket.gethostname()`
  pub consumer_group_protocol : GroupProtocol
  pub consumer_assignment_strategy : Option String
  pub consumer_remote_assignor : Option String
  pub consumer_session_timeout_ms : Option ℤ
  pub consumer_max_poll_interval_ms : Option ℤ
  pub consumer_instance_id_static : Option String
  pub handler_delay_ms : ℕ
  pub state_backend : StateBackend
  pub state_write_order : StateWriteOrder
  pub state_crash_after : StateCrashPoint
  pub state_changelog_prefix : String
  pub state_rebuild : StateRebuild
  pub retry_topic : String
  pub dlq_topic : String
  pub retry_max_attempts : ℕ
  pub retry_backoff_seconds : String
  pub producer_message_timeout_ms : ℕ
  pub handler_failure_mode : HandlerFailureMode
  pub handler_failure_orders : Option String
  pub handler_failure_attempts : ℕ
  pub processing_guarantee : ProcessingGuarantee
  pub producer_idempotence : Bool
  pub consumer_isolation_level : IsolationLevel
  pub transaction_commit_interval_messages : ℕ
  pub transaction_commit_interval_ms : ℕ
  pub transaction_timeout_ms : ℕ

-- `a or b` on texts: an empty text is false.
abbrev pub or_text : Option String → String → String
or_text none b = b
or_text (some a) b = if a == "" then b else a

-- `_blank_is_unset`
unfoldable pub blank_is_unset : Option String → Option String
unfolding strip
blank_is_unset none = none
blank_is_unset (some v) = if strip v == "" then none else some v

-- `_refuse_checkpoint_under_exactly_once`; `none` is its `ValueError`
unfoldable pub refuse_checkpoint : Settings → Option Settings
refuse_checkpoint s = elim s.processing_guarantee [
  | ProcessingGuarantee.at_least_once ↦ some s
  | ProcessingGuarantee.exactly_once ↦ elim s.state_rebuild [
    | StateRebuild.full ↦ some s
    | StateRebuild.checkpoint ↦ none
  ]
]

-- What `Settings()` does after the fields are read: the five `_blank_is_unset` validators, then
-- the model's validator.
unfoldable pub validate : Settings → Option Settings
unfolding blank_is_unset refuse_checkpoint
validate s = refuse_checkpoint (record s {
  consumer_instance_id = blank_is_unset s.consumer_instance_id;
  consumer_assignment_strategy = blank_is_unset s.consumer_assignment_strategy;
  consumer_remote_assignor = blank_is_unset s.consumer_remote_assignor;
  consumer_instance_id_static = blank_is_unset s.consumer_instance_id_static;
  handler_failure_orders = blank_is_unset s.handler_failure_orders;
})

-- `Settings.exactly_once`
abbrev pub is_exactly_once : Settings → Bool
is_exactly_once s = elim s.processing_guarantee [
  | ProcessingGuarantee.exactly_once ↦ true
  | ProcessingGuarantee.at_least_once ↦ false
]

unfoldable pub group_id_for : Settings → String → String
group_id_for s service_name = or_text s.consumer_group_id (service_name ++ "-service")

unfoldable pub instance_label : Settings → String
instance_label s = or_text s.consumer_instance_id s.hostname

unfoldable pub transactional_id_for : Settings → String → String
unfolding instance_label
transactional_id_for s group_id = group_id ++ ("-" ++ instance_label s)

unfoldable pub changelog_topic_for : Settings → String → String
changelog_topic_for s group_id = s.state_changelog_prefix ++ ("." ++ group_id)

-- `producer_delivery_wait_seconds`, in milliseconds
unfoldable pub producer_delivery_wait_ms : Settings → ℕ
producer_delivery_wait_ms s = s.producer_message_timeout_ms + 1000

-- the parts of a comma-separated text that are not blank, stripped
unfoldable pub nonblank : List String → List String
unfolding strip
nonblank [] = []
nonblank (p ∷ ps) = let rest = nonblank ps in if strip p == "" then rest else strip p ∷ rest

-- `frozenset` is a list here: the program only asks whether it is empty and whether it has an id.
unfoldable pub failing_orders : Settings → List String
failing_orders s = elim s.handler_failure_orders [
  | none ↦ []
  | some orders ↦ nonblank (split_commas orders)
]

-- `float(...)` is a parameter, `none` standing for `ValueError`.
module _ (parse_float : String → Option ℤ) where
  unfoldable pub parse_all : List String → Option (List ℤ)
  parse_all [] = some []
  parse_all (p ∷ ps) = elim (parse_float p) [
    | none ↦ none
    | some x ↦ elim (parse_all ps) [ none ↦ none | some xs ↦ some (x ∷ xs) ]
  ]

  -- `parsed or [30.0]`
  abbrev pub or_default : List ℤ → List ℤ
  or_default [] = pos 30000 ∷ []
  or_default (x ∷ xs) = x ∷ xs

  unfoldable pub retry_backoff_schedule : Settings → Option (List ℤ)
  unfolding nonblank split_commas
  retry_backoff_schedule s = elim (parse_all (nonblank (split_commas s.retry_backoff_seconds))) [
    | none ↦ none
    | some parsed ↦ some (or_default parsed)
  ]

  -- `none` is an exception: a schedule that does not parse, or an index out of range.
  unfoldable pub backoff_for_attempt : Settings → ℕ → Option ℤ
  backoff_for_attempt s attempt =
      if ltb attempt 2 then some (pos 0) else (elim (retry_backoff_schedule s) [
        | none ↦ none
        | some schedule ↦ get_elem? schedule (min (attempt - 2) (length schedule - 1))
      ])
