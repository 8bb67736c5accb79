-- ===== src/Consumer/Transactions/Building.antt =====
-- src/order_service/consumer/transactions.py: the producer of a consumer process, and the choice of
-- the commit strategy. The entry for `bootstrap.servers`, which is passed on unchanged, is left out.
use kafka_playgroud.Prelude.{
  ◌≡◌, refl, inl, inr, true, ◌||◌, none, some, [], ◌∷◌, String, Result, ok, err, string_eq,
  if◌then◌else◌, pos, Bool-cases,
}
use Prim.Native.String.{◌++◌ as ◌++ˢ◌}
use kafka_playgroud.Prelude.Json.{Json, bool, int, str}
use kafka_playgroud.Dict.{Dict, lookup, insert}
use kafka_playgroud.Config.{Settings, ProcessingGuarantee, is_exactly_once, transactional_id_for}
use kafka_playgroud.Consumer.Broker.{Exc, Trace, Kafka}
use kafka_playgroud.Consumer.Transactions.{Transaction, init}

abbrev pub base_config : Settings → String → String → Dict String Json
base_config s group_id instance_name =
    ("acks", str "all")
    ∷ ("partitioner", str "consistent_random")
    ∷ ("client.id", str (group_id ++ˢ ("-" ++ˢ instance_name)))
    ∷ ("enable.idempotence", bool s.producer_idempotence)
    ∷ []

-- the configuration in `build_producer`
unfoldable pub producer_config : Settings → String → String → Dict String Json
unfolding insert
producer_config s group_id instance_name =
    let config = base_config s group_id instance_name in
    if is_exactly_once s
    then insert "transaction.timeout.ms" (int (pos s.transaction_timeout_ms)) (
        insert "transactional.id" (str (transactional_id_for s group_id))
          (insert "enable.idempotence" (bool true) config))
    else config

-- what `build_commit_strategy` can return: a committer of either class
pub data Strategy : Type 0 where
  direct : Strategy
  transactional : Transaction → Strategy

abbrev pub started : Result Exc Transaction → Result Exc Strategy
started (ok c) = ok (transactional c)
started (err x) = err x

-- `build_commit_strategy`
unfoldable pub build_commit_strategy : Kafka → Settings → Trace → Result Exc Strategy × Trace
build_commit_strategy k s t = elim s.processing_guarantee [
  | ProcessingGuarantee.exactly_once ↦ let (answer, t') = init k t in (started answer, t')
  | ProcessingGuarantee.at_least_once ↦ (ok direct, t)
]

-- Whatever PRODUCER_IDEMPOTENCE says, the producer is idempotent under exactly_once, and then and
-- only then it has a transactional identity, which is the one of its group.
pub producer_config_lem :
    (s : Settings) (group_id instance_name : String)
    → (lookup "enable.idempotence" (producer_config s group_id instance_name)
        ≡ some (bool (is_exactly_once s || s.producer_idempotence)))
      × (lookup "transactional.id" (producer_config s group_id instance_name)
          ≡ (if is_exactly_once s then some (str (transactional_id_for s group_id)) else none))
unfolding producer_config lookup insert
producer_config_lem s group_id instance_name = elim (Bool-cases (is_exactly_once s)) [
  | inl exactly_once ↦ rw exactly_once (refl, refl)
  | inr at_least_once ↦ rw at_least_once (refl, refl)
]
