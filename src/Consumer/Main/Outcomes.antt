-- ===== src/Consumer/Main/Outcomes.antt =====
-- `main` as a whole: what its parts leave in the trace, and what it commits under exactly_once.
pub mod Accounted
use kafka_playgroud.Prelude.{
  ℕ, ◌≡◌, ◌≢◌, ◌⊎◌, inl, inr, refl, sym, ◌∙◌, ap, Bool, true, false, Option, none, some, List, [],
  ◌∷◌, ◌++◌, String, arith, Result, ok, err, Bool-cases, string_eq,
}
use mathlib.Core.List.{append-nil}
use mathlib.Core.Path.{subst}
use kafka_playgroud.Config.{
  Settings, StateWriteOrder, ProcessingGuarantee, exactly_once, at_least_once, state_first,
  validate, refuse_checkpoint, is_exactly_once,
}
use kafka_playgroud.Events.{EventType, LifecycleEvent}
use kafka_playgroud.Consumer.Broker.{
  Exc, Trace, Kafka, KafkaError, Message, Io, kafka_exception, flushed,
}
use kafka_playgroud.Consumer.State.{StateStore, StoreIo}
use kafka_playgroud.Consumer.Transactions.{
  Transaction, CommitStrategy, direct_committer, transactional_committer, init,
}
use kafka_playgroud.Consumer.Transactions.Building.{
  Strategy, direct, transactional, build_commit_strategy,
}
use kafka_playgroud.Consumer.Runtime.{Polled, Worker, exception}
use kafka_playgroud.Consumer.Runtime.Running.{run, is_exit}
use kafka_playgroud.Consumer.Runtime.Committing.{
  Outcome, outcomes_of, outcomes_of-emit, attempts_of, attempts_of-eq, IsQuiet, AreQuiet,
}
use kafka_playgroud.Consumer.Runtime.Settled.Runs.{
  messages_of, SettleAll, SettleSome, IsConserved, run-IsConserved,
}
use kafka_playgroud.Consumer.Runtime.Untouched.Runs.{run-Uncommitted}
use kafka_playgroud.Consumer.Services.{Spec, build_spec}
use kafka_playgroud.Consumer.Services.Handled.{build_spec_quiet}
use kafka_playgroud.Consumer.Main.{
  Exit, finished, exited, uncaught, killed, World, exit_of, service, closed_with, finally_close,
  after_run, subscribed, consume, after_strategy, main,
}
use kafka_playgroud.Consumer.Main.Startup.{Closes, main_P}

module _ (s s' : Settings) (valid : validate s ≡ some s') where
  pub valid_guarantee : s'.processing_guarantee ≡ s.processing_guarantee
  unfolding validate refuse_checkpoint
  valid_guarantee = ground arith

is_careful : (s : Settings) → s.processing_guarantee ≡ exactly_once → is_exactly_once s ≡ true
is_careful s e = rw e refl

not_direct :
    (k : Kafka) (s : Settings) (t : Trace)
    → s.processing_guarantee ≡ exactly_once
    → (build_commit_strategy k s t).0 ≢ ok direct
unfolding build_commit_strategy init
not_direct k s t e b = ground arith

pub no_attempt : (t : Trace) → outcomes_of t ≡ [] → attempts_of t ≡ []
unfolding attempts_of outcomes_of
no_attempt t e = attempts_of-eq t [] e

module _ {D : Type 0} (world : World D) where
  pub spec-AreQuiet :
      (name : String) (spec : Spec)
      → build_spec world.pydantic world.amount name ≡ some spec
      → AreQuiet spec.handlers
  spec-AreQuiet name spec built e event f t found =
      build_spec_quiet world.pydantic world.amount name spec e event f t built found

  pub closed_with_silent :
      (exit : Exit) (r : Result Exc (Unit {0})) (t : Trace)
      → outcomes_of (closed_with world exit r t).1 ≡ outcomes_of t
  closed_with_silent exit (ok _) t = outcomes_of-emit _ t ∙ append-nil _
  closed_with_silent exit (err x) t = refl

  closing :
      {S : Type 0} (close : StoreIo S Unit) (exit : Exit) (st : S × Trace)
      → Closes close
      → outcomes_of (finally_close world close exit st).1 ≡ outcomes_of st.1
  closing close exit st closes =
      closed_with_silent exit (close st).0 (close st).1.1 ∙ closes st.0 st.1

  after_run_silent :
      {S : Type 0} (close : StoreIo S Unit) (r : Result Exc (Unit {0})) (st : S × Trace)
      → Closes close
      → outcomes_of (after_run world close r st).1 ≡ outcomes_of st.1
  after_run_silent close (ok _) st closes = closing close finished st closes
  after_run_silent close (err x) st closes = elim (Bool-cases (is_exit x)) [
    | inl gone ↦ rw gone refl
    | inr raised ↦ rw raised (closing close (exit_of (err x)) st closes)
  ]

module _ {D : Type 0} (world : World D) where
  module _ (careful : world.settings.processing_guarantee ≡ exactly_once)
      (polled : List Polled) where
    abbrev Uncommitting : (List Polled → Exit × Trace) → Type 0
    Uncommitting f = attempts_of (f polled).1 ≡ []

    subscribed-Uncommitting :
        {S : Type 0} (s : Settings) (spec : Spec) (store : StateStore S) (close : StoreIo S Unit)
        (st : S) (c : Transaction) (t : Trace) (o : Option KafkaError)
        → validate world.settings ≡ some s
        → build_spec world.pydantic world.amount s.service_name ≡ some spec
        → IsQuiet store
        → Closes close
        → attempts_of t ≡ []
        → Uncommitting (λ ps.
          subscribed world s spec ps store close st (transactional_committer world.kafka s) c t o)
    subscribed-Uncommitting s spec store close st c t (some x) valid built quiet closes e =
        attempts_of-eq _ _
          (after_run_silent world close (err (exception (kafka_exception x))) (st, t) closes)
        ∙ e
    subscribed-Uncommitting {S} s spec store close st c t none valid built quiet closes e =
        let of = service world s spec polled store (transactional_committer world.kafka s) in
        let w : Worker S Transaction = record { store = st; commits = c; trace = t } in
        attempts_of-eq _ _ (
          after_run_silent world close (run of polled w).0
            ((run of polled w).1.store, (run of polled w).1.trace) closes)
        ∙ run-Uncommitted of refl (is_careful s (valid_guarantee world.settings s valid ∙ careful))
            quiet (spec-AreQuiet world s.service_name spec built) polled w
        ∙ e

    consumed-Uncommitting :
        (S : Type 0) (s : Settings) (spec : Spec) (store : StateStore S) (close : StoreIo S Unit)
        (st : S) (strategy : Strategy) (t : Trace)
        → validate world.settings ≡ some s
        → build_spec world.pydantic world.amount s.service_name ≡ some spec
        → IsQuiet store
        → Closes close
        → (build_commit_strategy world.kafka s []).0 ≡ ok strategy
        → outcomes_of t ≡ []
        → Uncommitting (λ ps. after_strategy world s spec ps store close st (ok strategy) t)
    unfolding consume
    consumed-Uncommitting S s spec store close st direct t valid built quiet closes b e =
        absurd (not_direct world.kafka s [] (valid_guarantee world.settings s valid ∙ careful) b)
    consumed-Uncommitting S s spec store close st (transactional c) t valid built quiet closes b e =
        subscribed-Uncommitting s spec store close st c t world.subscribe valid built quiet closes
          (no_attempt t e)

    -- Under exactly_once, for every environment, every behaviour of the broker, and whatever there is
    -- to poll: however the process ends, its consumer itself has tried to commit no offset.
    pub main_uncommitted : attempts_of (main world polled).1 ≡ []
    main_uncommitted =
        main_P world Uncommitting (λ exit t ne e. no_attempt t e) consumed-Uncommitting
