-- ===== src/Consumer/State/Protocol.antt =====
-- The fold of an order, and the protocol `StateStore`.
use kafka_playgroud.Prelude.{ℕ, Bool, Option, List, String}
use kafka_playgroud.Prelude.Action.{Action}
use kafka_playgroud.Events.{OrderState}
use kafka_playgroud.Consumer.Broker.{Exc, state_store_unavailable, Trace}

pub record OrderFold : Type 0 where
  pub order_id : String
  pub last_sequence : ℕ
  pub state : Option OrderState

pub record SaveOutcome : Type 0 where
  pub applied : Bool
  pub handled_count : ℕ

abbrev pub StoreIo : Type 0 → Type 0 → Type 0
StoreIo S A = Action (S × Trace) Exc A

pub record StateStore (S : Type 0) : Type 0 where
  pub load : ℕ → String → StoreIo S (Option OrderFold)
  pub save : ℕ → String → OrderFold → String → StoreIo S SaveOutcome
  pub delete : ℕ → String → StoreIo S Bool
  pub restore : List ℕ → StoreIo S Unit
  pub flush : StoreIo S Unit
  pub forget : List ℕ → StoreIo S Unit
  pub discard : List ℕ → StoreIo S Unit
  pub held : S → List ℕ

abbrev pub unavailable : Exc
unavailable = record { class = state_store_unavailable; text = "" }
