-- ===== src/Consumer/Transactions/Closing.antt =====
-- `TransactionalCommitter`: how a transaction ends, and an abort after that.
use kafka_playgroud.Prelude.{◌≡◌, true, [], ◌∷◌, ◌++◌, arith, ok, err}
use mathlib.Core.List.{append_assoc}
use kafka_playgroud.Consumer.Broker.{Exc, Trace, Kafka, offsets_sent, transaction_committed}
use kafka_playgroud.Consumer.Transactions.{Transaction, closed, commit, abort}

module _ (k : Kafka) where
  -- A commit that ends well on an open transaction has submitted the noted offsets and then
  -- committed, and leaves the committer closed.
  pub commit_ok :
      (c : Transaction) (t : Trace)
      → c.opened ≡ true
      → (commit k (c, t)).0 ≡ ok tt
      → (commit k (c, t)).1 ≡ (closed, t ++ offsets_sent c.offsets ∷ transaction_committed ∷ [])
  unfolding commit
  commit_ok c t o h = grind (arith, append_assoc)

  -- A commit that raises leaves the committer closed, so that an abort that follows it finds no
  -- transaction: it answers no partition, asks the broker for nothing, and changes nothing.
  pub abort-commit_err :
      (c : Transaction) (t : Trace) (x : Exc)
      → (commit k (c, t)).0 ≡ err x
      → ((commit k (c, t)).1.0 ≡ closed)
        × (abort k (commit k (c, t)).1 ≡ (ok [], (commit k (c, t)).1))
  unfolding commit abort
  abort-commit_err c t x h = ground arith
