-- ===== src/Consumer/Runtime/Defects.antt =====
-- `_settle` after a commit that failed.
use kafka_playgroud.Prelude.{◌≡◌, true, arith, ok, err, string_eq}
use kafka_playgroud.Config.{Settings}
use kafka_playgroud.Consumer.Broker.{Exc}
use kafka_playgroud.Consumer.Transactions.{
  Transaction, closed, commit, abort, maybe_commit, transactional_committer,
}
use kafka_playgroud.Consumer.Runtime.{Service, Worker, settle, abort_and_repair, is_kafka_exception}

-- Where a due transaction fails to commit with an error that is not fencing, `_settle` returns
-- without aborting it and without repairing: the only thing it leaves in the trace is the failed
-- commit, the store is as it was, and the committer holds no transaction.
pub settle_failed_commit :
    {S : Type 0} (service : Service S Transaction) (settings : Settings) (w : Worker S Transaction)
    (x : Exc)
    → service.commits ≡ transactional_committer service.router.kafka settings
    → (maybe_commit service.router.kafka settings (w.commits, w.trace)).0 ≡ err x
    → is_kafka_exception x ≡ true
    → settle service w ≡ (
      ok tt,
      record w { commits = closed; trace = (commit service.router.kafka (w.commits, w.trace)).1.1 },
    )
unfolding settle abort_and_repair maybe_commit commit abort
settle_failed_commit service settings w x e h k = ground (arith)
