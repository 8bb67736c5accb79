-- ===== src/Consumer/Group.antt =====
-- src/order_service/consumer/runtime.py: the configuration of a consumer for the group protocol.
-- The entry for `bootstrap.servers`, which is passed on unchanged, is left out.
use kafka_playgroud.Prelude.{Bool, Option, none, some, List, [], ◌∷◌, ◌++◌, String, Result, ok, err}
use kafka_playgroud.Prelude.Json.{Json, bool, int, str}
use kafka_playgroud.Dict.{Dict}
use kafka_playgroud.Config.{Settings, GroupProtocol, IsolationLevel, or_text}

-- one setting of `incompatible`, where it is set
abbrev pub problem {ℓ} : {A : Type ℓ} → String → Option A → List String
problem name none = []
problem name (some _) = name ∷ []

-- the settings that `validate_protocol_settings` names in its error, sorted
unfoldable pub problems : Settings → List String
problems s = elim s.consumer_group_protocol [
  | GroupProtocol.consumer ↦
      problem "CONSUMER_ASSIGNMENT_STRATEGY" s.consumer_assignment_strategy
      ++ problem "CONSUMER_SESSION_TIMEOUT_MS" s.consumer_session_timeout_ms
  | GroupProtocol.classic ↦ problem "CONSUMER_REMOTE_ASSIGNOR" s.consumer_remote_assignor
]

-- `validate_protocol_settings`, whose `ConsumerConfigError` is the list of the settings
abbrev pub refuse : List String → Result (List String) (Unit {0})
refuse [] = ok tt
refuse (p ∷ ps) = err (p ∷ ps)

unfoldable pub validate_protocol_settings : Settings → Result (List String) (Unit {0})
validate_protocol_settings s = refuse (problems s)

-- `assignor_in_effect`
unfoldable pub assignor_in_effect : Settings → String
assignor_in_effect s = elim s.consumer_group_protocol [
  | GroupProtocol.classic ↦ or_text s.consumer_assignment_strategy "range (client default)"
  | GroupProtocol.consumer ↦ or_text s.consumer_remote_assignor "uniform (broker default)"
]

abbrev pub protocol_value : GroupProtocol → String
protocol_value GroupProtocol.classic = "classic"
protocol_value GroupProtocol.consumer = "consumer"

-- `isolation_level` of transactions.py
abbrev pub isolation_value : IsolationLevel → String
isolation_value IsolationLevel.read_committed = "read_committed"
isolation_value IsolationLevel.read_uncommitted = "read_uncommitted"

-- an entry that is left out where the setting is not set
abbrev pub optional {ℓ} : {A : Type ℓ} → String → (A → Json) → Option A → Dict String Json
optional name f none = []
optional name f (some a) = (name, f a) ∷ []

abbrev pub group_settings : Settings → Dict String Json
group_settings s = elim s.consumer_group_protocol [
  | GroupProtocol.classic ↦
      optional "partition.assignment.strategy" str s.consumer_assignment_strategy
      ++ optional "session.timeout.ms" int s.consumer_session_timeout_ms
  | GroupProtocol.consumer ↦ optional "group.remote.assignor" str s.consumer_remote_assignor
]

-- `build_consumer_config`, once the settings are accepted
abbrev pub consumer_config : Settings → String → String → Dict String Json
consumer_config s group_id client_id =
    ("group.id", str group_id)
    ∷ ("enable.auto.commit", bool Bool.false)
    ∷ ("isolation.level", str (isolation_value s.consumer_isolation_level))
    ∷ ("auto.offset.reset", str "earliest")
    ∷ ("client.id", str client_id)
    ∷ ("group.protocol", str (protocol_value s.consumer_group_protocol))
    ∷ (group_settings s
        ++ (optional "max.poll.interval.ms" int s.consumer_max_poll_interval_ms
            ++ optional "group.instance.id" str s.consumer_instance_id_static))

-- `build_consumer_config`
unfoldable pub build_consumer_config :
    Settings → String → String → Result (List String) (Dict String Json)
build_consumer_config s group_id client_id = elim (validate_protocol_settings s) [
  | err x ↦ err x
  | ok _ ↦ ok (consumer_config s group_id client_id)
]
