-- ===== src/Consumer/Main/Outcomes/Accounted.antt =====
-- `main` as a whole, at least once: what becomes of what a consumer process polls.
use kafka_playgroud.Prelude.{
  ◌≡◌, ◌≢◌, inl, inr, refl, ◌∙◌, false, Option, none, some, List, [], ◌∷◌, arith, Result, ok, err,
  Bool-cases, string_eq,
}
use mathlib.Core.Path.{subst}
use kafka_playgroud.Config.{
  Settings, at_least_once, state_first, validate, refuse_checkpoint, is_exactly_once,
}
use kafka_playgroud.Consumer.Broker.{Exc, Trace, Kafka, KafkaError, Message, kafka_exception}
use kafka_playgroud.Consumer.State.{StateStore, StoreIo}
use kafka_playgroud.Consumer.Transactions.{Transaction, direct_committer}
use kafka_playgroud.Consumer.Transactions.Building.{
  Strategy, direct, transactional, build_commit_strategy,
}
use kafka_playgroud.Consumer.Runtime.{Polled, Worker, exception}
use kafka_playgroud.Consumer.Runtime.Running.{run, is_exit}
use kafka_playgroud.Consumer.Runtime.Committing.{Outcome, outcomes_of, IsQuiet}
use kafka_playgroud.Consumer.Runtime.Settled.Runs.{
  messages_of, SettleAll, SettleSome, IsConserved, run-IsConserved,
}
use kafka_playgroud.Consumer.Services.{Spec, build_spec}
use kafka_playgroud.Consumer.Main.{
  Exit, finished, exited, uncaught, killed, World, exit_of, service, closed_with, finally_close,
  after_run, subscribed, consume, after_strategy, main,
}
use kafka_playgroud.Consumer.Main.Startup.{Closes, main_P}
use kafka_playgroud.Consumer.Main.Outcomes.{valid_guarantee, spec-AreQuiet, closed_with_silent}

module _ (s s' : Settings) (valid : validate s ≡ some s') where
  valid_write_order : s'.state_write_order ≡ s.state_write_order
  unfolding validate refuse_checkpoint
  valid_write_order = ground arith

pub not_exactly_once :
    (s : Settings) → s.processing_guarantee ≡ at_least_once → is_exactly_once s ≡ false
not_exactly_once s e = rw e refl

not_transactional :
    (k : Kafka) (s : Settings) (c : Transaction) (t : Trace)
    → s.processing_guarantee ≡ at_least_once
    → (build_commit_strategy k s t).0 ≢ ok (transactional c)
unfolding build_commit_strategy
not_transactional k s c t e b = ground arith

-- What a process has done with the messages there were: where it ends normally, each was tried to be
-- committed or sought back to, once and in order, and nothing besides; however else it ends, the
-- first of them were, and no other.
abbrev pub IsAccounted : List Message → Exit → List Outcome → Type 0
IsAccounted ms finished os = SettleAll ms os
IsAccounted ms (exited _) os = SettleSome ms os
IsAccounted ms (uncaught _) os = SettleSome ms os
IsAccounted ms killed os = SettleSome ms os

SettleAll-Some : (ms : List Message) (os : List Outcome) → SettleAll ms os → SettleSome ms os
SettleAll-Some [] [] h = tt
SettleAll-Some [] (o ∷ os) h = h
SettleAll-Some (m ∷ ms) [] h = tt
SettleAll-Some (m ∷ ms) (o ∷ os) h = (h.0, SettleAll-Some ms os h.1)

IsAccounted-Some :
    (ms : List Message) (exit : Exit) (os : List Outcome)
    → IsAccounted ms exit os
    → SettleSome ms os
IsAccounted-Some ms finished os h = SettleAll-Some ms os h
IsAccounted-Some ms (exited n) os h = h
IsAccounted-Some ms (uncaught x) os h = h
IsAccounted-Some ms killed os h = h

IsAccounted-ne :
    (ms : List Message) (exit : Exit) (os : List Outcome)
    → exit ≢ finished
    → SettleSome ms os
    → IsAccounted ms exit os
IsAccounted-ne ms finished os ne h = absurd (ne refl)
IsAccounted-ne ms (exited n) os ne h = h
IsAccounted-ne ms (uncaught x) os ne h = h
IsAccounted-ne ms killed os ne h = h

exit_of-ne-finished : (x : Exc) → exit_of (err x) ≢ finished
exit_of-ne-finished x = ground arith

module _ {D : Type 0} (world : World D) where
  closed_with-IsAccounted :
      (ms : List Message) (exit : Exit) (r : Result Exc (Unit {0})) (t : Trace)
      → IsAccounted ms exit (outcomes_of t)
      → IsAccounted ms (closed_with world exit r t).0 (outcomes_of (closed_with world exit r t).1)
  closed_with-IsAccounted ms exit (ok _) t h = rw (closed_with_silent world exit (ok tt) t) h
  closed_with-IsAccounted ms exit (err x) t h = IsAccounted-Some ms exit _ h

  finally-IsAccounted :
      {S : Type 0} (ms : List Message) (close : StoreIo S Unit) (exit : Exit) (st : S × Trace)
      → Closes close
      → IsAccounted ms exit (outcomes_of st.1)
      → IsAccounted ms
          (finally_close world close exit st).0
          (outcomes_of (finally_close world close exit st).1)
  finally-IsAccounted ms close exit st closes h =
      closed_with-IsAccounted ms exit (close st).0 (close st).1.1 (rw (closes st.0 st.1) h)

  after_run-IsAccounted :
      {S : Type 0} (ms : List Message) (close : StoreIo S Unit) (r : Result Exc (Unit {0}))
      (st : S × Trace)
      → Closes close
      → IsConserved ms [] r st.1
      → IsAccounted ms (after_run world close r st).0 (outcomes_of (after_run world close r st).1)
  after_run-IsAccounted ms close (ok _) st closes (os, all, e) =
      finally-IsAccounted ms close finished st closes (rw e all)
  after_run-IsAccounted ms close (err x) st closes (os, some_of, e) =
      elim (Bool-cases (is_exit x)) [
        | inl gone ↦ rw gone (rw e some_of)
        | inr raised ↦ rw raised (
            finally-IsAccounted ms close (exit_of (err x)) st closes
              (IsAccounted-ne ms (exit_of (err x)) _ (exit_of-ne-finished x) (rw e some_of)))
      ]

  module _ (ordinary : world.settings.processing_guarantee ≡ at_least_once)
      (ordered : world.settings.state_write_order ≡ state_first) (polled : List Polled) where
    abbrev Accounted : (List Polled → Exit × Trace) → Type 0
    Accounted f = IsAccounted (messages_of polled) (f polled).0 (outcomes_of (f polled).1)

    module _ {S : Type 0} (s : Settings) (spec : Spec) (store : StateStore S)
        (close : StoreIo S Unit) (st : S) (valid : validate world.settings ≡ some s)
        (built : build_spec world.pydantic world.amount s.service_name ≡ some spec)
        (quiet : IsQuiet store) (closes : Closes close) where
      subscribed-Accounted :
          (t : Trace) (o : Option KafkaError)
          → outcomes_of t ≡ []
          → Accounted (λ ps.
            subscribed world s spec ps store close st (direct_committer world.kafka) tt t o)
      subscribed-Accounted t (some x) e =
          after_run-IsAccounted (messages_of polled) close (err (exception (kafka_exception x)))
            (st, t) closes ([], tt, e)
      subscribed-Accounted t none e =
          let of = service world s spec polled store (direct_committer world.kafka) in
          let w : Worker S Unit = record { store = st; commits = tt; trace = t } in
          after_run-IsAccounted (messages_of polled) close (run of polled w).0
            ((run of polled w).1.store, (run of polled w).1.trace) closes
            (subst
              (λ os.
                IsConserved (messages_of polled) os (run of polled w).0 (run of polled w).1.trace)
              e
              (run-IsConserved of refl quiet (spec-AreQuiet world s.service_name spec built)
                (not_exactly_once s (valid_guarantee world.settings s valid ∙ ordinary))
                (valid_write_order world.settings s valid ∙ ordered) polled w))

    consumed-Accounted :
        (S : Type 0) (s : Settings) (spec : Spec) (store : StateStore S) (close : StoreIo S Unit)
        (st : S) (strategy : Strategy) (t : Trace)
        → validate world.settings ≡ some s
        → build_spec world.pydantic world.amount s.service_name ≡ some spec
        → IsQuiet store
        → Closes close
        → (build_commit_strategy world.kafka s []).0 ≡ ok strategy
        → outcomes_of t ≡ []
        → Accounted (λ ps. after_strategy world s spec ps store close st (ok strategy) t)
    unfolding consume
    consumed-Accounted S s spec store close st direct t valid built quiet closes b e =
        subscribed-Accounted s spec store close st valid built quiet closes t world.subscribe e
    consumed-Accounted S s spec store close st (transactional c) t valid built quiet closes b e =
        absurd (
          not_transactional world.kafka s c [] (valid_guarantee world.settings s valid ∙ ordinary)
            b)

    -- At least once with the state written first, for every environment, every behaviour of the broker,
    -- and whatever there is to poll: a process that ends normally has, for each polled message and in
    -- order, either tried to commit it or sought back to it, once, and committed and sought nothing
    -- else; a process that ends in any other way has done so for the first of them, and for no other.
    pub main-IsAccounted :
        IsAccounted (messages_of polled) (main world polled).0 (outcomes_of (main world polled).1)
    main-IsAccounted =
        main_P world Accounted
          (λ exit t ne e. IsAccounted-ne (messages_of polled) exit _ ne (rw e tt))
          consumed-Accounted
