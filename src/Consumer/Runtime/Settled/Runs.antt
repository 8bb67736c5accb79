-- ===== src/Consumer/Runtime/Settled/Runs.antt =====
-- `run` at least once and with the state written first: what becomes of all that is polled.
use kafka_playgroud.Prelude.{
  ℕ, ◌≡◌, refl, ap, ◌∙◌, sym, inl, inr, false, arith, Result, ok, err, Bool-cases, List, [], ◌∷◌,
  ◌++◌, string_eq, String,
}
use mathlib.Core.List.{append-nil, append_assoc}
use kafka_playgroud.Prelude.Action.{continue}
use kafka_playgroud.Config.{StateWriteOrder, is_exactly_once}
use kafka_playgroud.Consumer.Broker.{Exc, Trace, KafkaError, Message}
use kafka_playgroud.Consumer.Runtime.{
  Service, Worker, Method, Polled, nothing, error, message, assigned, revoked, lost, settle,
  handle_error, let_go, on_commits, step, loop, handle_message,
}
use kafka_playgroud.Consumer.Runtime.Running.{
  run, finally_close, is_exit, give_back, partitions_of, close_consumer, closing, after_close,
}
use kafka_playgroud.Consumer.Runtime.Committing.{
  Outcome, outcomes_of, IsQuiet, AreQuiet, Settle, IsSettled, Quiet,
}
use kafka_playgroud.Consumer.Runtime.Settled.{handle_message-IsSettled}
use kafka_playgroud.Consumer.Transactions.{CommitStrategy, direct_committer}

abbrev pub messages_of : List Polled → List Message
messages_of [] = []
messages_of (message m ∷ xs) = m ∷ messages_of xs
messages_of (_ ∷ xs) = messages_of xs

-- each message has its one outcome, in order
abbrev pub SettleAll : List Message → List Outcome → Type 0
SettleAll [] [] = Unit
SettleAll [] (o ∷ os) = ⊥
SettleAll (m ∷ ms) [] = ⊥
SettleAll (m ∷ ms) (o ∷ os) = Settle m o × SettleAll ms os

-- the first messages have, and no other
abbrev pub SettleSome : List Message → List Outcome → Type 0
SettleSome ms [] = Unit
SettleSome [] (o ∷ os) = ⊥
SettleSome (m ∷ ms) (o ∷ os) = Settle m o × SettleSome ms os

-- What a run leaves: where it ends by being stopped, an outcome of every message that was polled;
-- where an exception ends it, of the first of them.
abbrev pub IsConserved : List Message → List Outcome → Result Exc (Unit {0}) → Trace → Type 0
IsConserved ms before (ok _) t =
    (os : List Outcome) × SettleAll ms os × (outcomes_of t ≡ before ++ os)
IsConserved ms before (err _) t =
    (os : List Outcome) × SettleSome ms os × (outcomes_of t ≡ before ++ os)

extend :
    (m : Message) (ms : List Message) (before : List Outcome) (o : Outcome)
    (r : Result Exc (Unit {0})) (t : Trace)
    → Settle m o
    → IsConserved ms (before ++ o ∷ []) r t
    → IsConserved (m ∷ ms) before r t
extend m ms before o (ok _) t s (os, all, e) =
    (o ∷ os, (s, all), e ∙ append_assoc before (o ∷ []) os)
extend m ms before o (err x) t s (os, some_of, e) =
    (o ∷ os, (s, some_of), e ∙ append_assoc before (o ∷ []) os)

ended :
    (ms : List Message) (before : List Outcome) (x : Exc) (t : Trace)
    → outcomes_of t ≡ before
    → IsConserved ms before (err x) t
ended ms before x t e = ([], tt, e ∙ sym (append-nil before))

SettleAll-SettleSome : (ms : List Message) (os : List Outcome) → SettleAll ms os → SettleSome ms os
SettleAll-SettleSome [] [] h = tt
SettleAll-SettleSome [] (o ∷ os) h = absurd h
SettleAll-SettleSome (m ∷ ms) [] h = absurd h
SettleAll-SettleSome (m ∷ ms) (o ∷ os) (s, h) = (s, SettleAll-SettleSome ms os h)

-- A quiet end, whose exception takes the place of the answer.
IsConserved-closed :
    (ms : List Message) (before : List Outcome) (r closed_ok : Result Exc (Unit {0})) (t t' : Trace)
    → outcomes_of t' ≡ outcomes_of t
    → IsConserved ms before r t
    → IsConserved ms before (after_close r closed_ok) t'
IsConserved-closed ms before (ok _) (ok _) t t' same (os, all, e) = (os, all, same ∙ e)
IsConserved-closed ms before (err x) (ok _) t t' same (os, some_of, e) = (os, some_of, same ∙ e)
IsConserved-closed ms before (ok _) (err y) t t' same (os, all, e) =
    (os, SettleAll-SettleSome ms os all, same ∙ e)
IsConserved-closed ms before (err x) (err y) t t' same (os, some_of, e) = (os, some_of, same ∙ e)

module _ {S : Type 0} (service : Service S Unit)
    (direct : service.commits ≡ direct_committer service.router.kafka)
    (quiet : IsQuiet service.store) where
  settle_idle : (w : Worker S Unit) → settle service w ≡ (ok tt, w)
  unfolding settle
  settle_idle w = rw direct refl

  let_go-Quiet : (ps : List ℕ) → Quiet service (let_go service ps)
  let_go-Quiet ps w = rw direct (quiet.forget_quiet ps w.store w.trace)

  give_back-Quiet : (ps : List (String × ℕ)) → Quiet service (give_back service ps)
  give_back-Quiet [] w = refl
  give_back-Quiet (a ∷ ps) w = let_go-Quiet (partitions_of (a ∷ ps)) w

  close_idle : (w : Worker S Unit) → on_commits service service.commits.close w ≡ (ok tt, w)
  close_idle w =
      ap
        (λ (c : CommitStrategy Unit).
          let (answer, (d, t)) = c.close (w.commits, w.trace) in
          (answer, record w { commits = d; trace = t }))
        direct

  closing-Quiet : Quiet service (closing service)
  unfolding close_consumer
  closing-Quiet w =
      ap
        (λ (r : Result Exc (Unit {0}) × Worker S Unit).
          outcomes_of (continue r.0 (λ _. close_consumer service) r.1).1.trace)
        (close_idle w)
      ∙ give_back-Quiet (service.assignment w.trace) w

  handle_error-Quiet : (e : KafkaError) → Quiet service (handle_error service e)
  unfolding handle_error
  handle_error-Quiet e w = ground arith

  abbrev Conserves : List Message → Method service Unit → Type 0
  Conserves ms a = (w : Worker S Unit) → IsConserved ms (outcomes_of w.trace) (a w).0 (a w).1.trace

  quiet_first :
      (ms : List Message) (r : Result Exc (Unit {0})) (a : Method service Unit)
      (before : List Outcome) (w : Worker S Unit)
      → outcomes_of w.trace ≡ before
      → Conserves ms a
      → IsConserved ms before (continue r (λ _. a) w).0 (continue r (λ _. a) w).1.trace
  quiet_first ms (ok _) a before w e h = rw (sym e) (h w)
  quiet_first ms (err x) a before w e h = ended ms before x w.trace e

  settled_first :
      (m : Message) (ms : List Message) (r : Result Exc (Unit {0})) (a : Method service Unit)
      (before : List Outcome) (w : Worker S Unit)
      → IsSettled m before r w.trace
      → Conserves ms a
      → IsConserved (m ∷ ms) before (continue r (λ _. a) w).0 (continue r (λ _. a) w).1.trace
  settled_first m ms (ok _) a before w (o, s, e) h =
      extend m ms before o (a w).0 (a w).1.trace s (rw (sym e) (h w))
  settled_first m ms (err x) a before w e h = ended (m ∷ ms) before x w.trace e

  after :
      (x : Polled) (xs : List Polled)
      → Quiet service (step service x)
      → Conserves (messages_of xs) (loop service xs)
      → Conserves (messages_of xs) (loop service (x ∷ xs))
  unfolding loop
  after x xs q h w =
      quiet_first (messages_of xs) (step service x w).0 (loop service xs) (outcomes_of w.trace)
        (step service x w).1 (q w) h

  Quiet-settle : Quiet service (step service nothing)
  unfolding step
  Quiet-settle w = rw (settle_idle w) refl

  module _ (silent : AreQuiet service.handlers)
      (at_least_once : is_exactly_once service.settings ≡ false)
      (state_first : service.settings.state_write_order ≡ StateWriteOrder.state_first) where
    message_step :
        (m : Message) (r : Result Exc (Unit {0})) (before : List Outcome) (w : Worker S Unit)
        → IsSettled m before r w.trace
        → IsSettled m before
            (continue r (λ _. settle service) w).0
            (continue r (λ _. settle service) w).1.trace
    message_step m (ok _) before w h = rw (settle_idle w) h
    message_step m (err x) before w h = h

    step-IsSettled :
        (m : Message) (w : Worker S Unit)
        → IsSettled m
            (outcomes_of w.trace)
            (step service (message m) w).0
            (step service (message m) w).1.trace
    unfolding step
    step-IsSettled m w =
        message_step m (handle_message service m w).0 (outcomes_of w.trace)
          (handle_message service m w).1
          (handle_message-IsSettled service direct quiet silent at_least_once state_first m w)

    loop-Conserves : (xs : List Polled) → Conserves (messages_of xs) (loop service xs)
    unfolding loop step
    loop-Conserves [] = λ w. ([], tt, sym (append-nil _))
    loop-Conserves (message m ∷ xs) = λ w.
        let (r, w') = step service (message m) w in
        settled_first m (messages_of xs) r (loop service xs) (outcomes_of w.trace) w'
          (step-IsSettled m w) (loop-Conserves xs)
    loop-Conserves (nothing ∷ xs) = after nothing xs Quiet-settle (loop-Conserves xs)
    loop-Conserves (error e ∷ xs) = after (error e) xs (handle_error-Quiet e) (loop-Conserves xs)
    loop-Conserves (assigned ps ∷ xs) =
        after (assigned ps) xs (λ w. quiet.restore_quiet ps w.store w.trace) (loop-Conserves xs)
    loop-Conserves (revoked ps ∷ xs) = after (revoked ps) xs (let_go-Quiet ps) (loop-Conserves xs)
    loop-Conserves (lost ps ∷ xs) = after (lost ps) xs (let_go-Quiet ps) (loop-Conserves xs)

    finally_close-Conserved :
        (ms : List Message) (before : List Outcome) (r : Result Exc (Unit {0})) (w : Worker S Unit)
        → IsConserved ms before r w.trace
        → IsConserved ms before (finally_close service r w).0 (finally_close service r w).1.trace
    finally_close-Conserved ms before (ok _) w h =
        IsConserved-closed ms before (ok tt) (closing service w).0 w.trace
          (closing service w).1.trace (closing-Quiet w) h
    finally_close-Conserved ms before (err x) w h = elim (Bool-cases (is_exit x)) [
      | inl gone ↦ rw gone h
      | inr raised ↦ rw raised (
          IsConserved-closed ms before (err x) (closing service w).0 w.trace
            (closing service w).1.trace (closing-Quiet w) h)
    ]

    -- At least once with the state written first, whatever is polled, rebalances included, and whatever the
    -- broker does, and with a store and handlers that neither commit nor seek: a run that is stopped
    -- has, for each polled message and in order, either tried to commit it or sought back to it, once,
    -- and committed and sought nothing else; a run that an exception ends has done so for the first
    -- of them, and for no other.
    pub run-IsConserved :
        (polled : List Polled) (w : Worker S Unit)
        → IsConserved
            (messages_of polled)
            (outcomes_of w.trace)
            (run service polled w).0
            (run service polled w).1.trace
    unfolding run
    run-IsConserved polled w =
        let (r, w') = loop service polled w in
        finally_close-Conserved (messages_of polled) (outcomes_of w.trace) r w'
          (loop-Conserves polled w)
