-- ===== src/Consumer/RetryWorker/Paid.antt =====
-- The retry worker's loop: what is committed against what was published.
use kafka_playgroud.Prelude.{
  ℕ, ◌≡◌, refl, ◌∙◌, ◌⊎◌, inl, inr, false, List, [], ◌∷◌, ◌++◌, String, arith, Result, ok, err,
  Bool-cases, ltb, string_eq, nat_eq,
}
use mathlib.Core.List.{append-nil}
use kafka_playgroud.Prelude.Action.{◌>>=◌, ◌>>◌, continue}
use kafka_playgroud.Dict.{Dict}
use kafka_playgroud.Config.{is_exactly_once}
use kafka_playgroud.Consumer.Broker.{Message, Outgoing, Exc, KafkaError, Trace}
use kafka_playgroud.Consumer.Broker.Collecting.{collect, collect-append, copies_of, copies_of-emit}
use kafka_playgroud.Consumer.Runtime.Committing.{attempts_of, attempts_of-emit}
use kafka_playgroud.Consumer.RetryWorker.{
  RetryWorker, Waiting, Method, Answer, nothing, error, message, handle_message, resume,
  resume_each, resume_due, forget, handle_error, receive, step, loop,
}
use kafka_playgroud.Consumer.RetryWorker.Sending.{Sends, handle_message-Sends}
use kafka_playgroud.Consumer.RetryWorker.Unreleased.{attempts_of-append}
use kafka_playgroud.Consumer.RetryWorker.Handling.{Forwarded, IsKept, handle_message-IsKept}

-- Each message has a copy of its own, with its key and value, and the copies are in their order.
abbrev pub ArePaid : List Message → List Outgoing → Type 0
ArePaid [] os = Unit
ArePaid (m ∷ ms) [] = ⊥
ArePaid (m ∷ ms) (o ∷ os) =
    ((o.key ≡ m.key) × (o.value ≡ m.value) × ArePaid ms os) ⊎ ArePaid (m ∷ ms) os

ArePaid-more :
    (ms : List Message) (os : List Outgoing) (o : Outgoing)
    → ArePaid ms os
    → ArePaid ms (os ++ o ∷ [])
ArePaid-more [] os o h = tt
ArePaid-more (m ∷ ms) [] o h = absurd h
ArePaid-more (m ∷ ms) (p ∷ os) o (inl (k, v, h)) = inl (k, v, ArePaid-more ms os o h)
ArePaid-more (m ∷ ms) (p ∷ os) o (inr h) = inr (ArePaid-more (m ∷ ms) os o h)

-- one more message, paid by the last copy
ArePaid-snoc :
    (ms : List Message) (os : List Outgoing) (m : Message) (o : Outgoing)
    → o.key ≡ m.key
    → o.value ≡ m.value
    → ArePaid ms os
    → ArePaid (ms ++ m ∷ []) (os ++ o ∷ [])
ArePaid-snoc [] [] m o k v h = inl (k, v, tt)
ArePaid-snoc [] (p ∷ os) m o k v h = inr (ArePaid-snoc [] os m o k v tt)
ArePaid-snoc (n ∷ ms) [] m o k v h = absurd h
ArePaid-snoc (n ∷ ms) (p ∷ os) m o k v (inl (k', v', h)) =
    inl (k', v', ArePaid-snoc ms os m o k v h)
ArePaid-snoc (n ∷ ms) (p ∷ os) m o k v (inr h) = inr (ArePaid-snoc (n ∷ ms) os m o k v h)

module _ (worker : RetryWorker) where
  -- A call that neither commits nor publishes.
  abbrev pub Still : {A : Type 0} → Method A → Type 0
  Still a =
      (w : Waiting)
      → (attempts_of (a w).1.trace ≡ attempts_of w.trace)
        × (copies_of (a w).1.trace ≡ copies_of w.trace)

  continue-Still :
      {A B : Type 0} (r : Result Exc A) (f : A → Method B) (w : Waiting) (t : Trace)
      → (attempts_of w.trace ≡ attempts_of t) × (copies_of w.trace ≡ copies_of t)
      → ((x : A) → Still (f x))
      → (attempts_of (continue r f w).1.trace ≡ attempts_of t)
        × (copies_of (continue r f w).1.trace ≡ copies_of t)
  continue-Still (ok x) f w t e h = ((h x w).0 ∙ e.0, (h x w).1 ∙ e.1)
  continue-Still (err x) f w t e h = e

  bind-Still :
      {A B : Type 0} (a : Method A) (f : A → Method B)
      → Still a
      → ((x : A) → Still (f x))
      → Still (a >>= f)
  bind-Still a f q h w = continue-Still (a w).0 f (a w).1 w.trace (q w) h

  resume-Still : (key : String × ℕ) → Still (resume worker key)
  unfolding resume
  resume-Still key w =
      (grind (arith, attempts_of-emit, append-nil), grind (arith, copies_of-emit, append-nil))

  resume_each-Still : (now : ℕ) (ds : Dict (String × ℕ) ℕ) → Still (resume_each worker now ds)
  unfolding resume_each
  resume_each-Still now [] = λ w. (refl, refl)
  resume_each-Still now ((key, due) ∷ ds) = λ w. elim (Bool-cases (ltb now due)) [
    | inl later ↦ rw later (resume_each-Still now ds w)
    | inr passed ↦
        rw passed
          (bind-Still (resume worker key) _ (resume-Still key) (λ _. resume_each-Still now ds) w)
  ]

  resume_due-Still : Still (resume_due worker)
  unfolding resume_due
  resume_due-Still w = resume_each-Still (worker.router.kafka.now w.trace) w.deferred w

  pub forget-Still : (ps : List ℕ) → Still (forget worker ps)
  unfolding forget
  forget-Still [] = λ w. (refl, refl)
  forget-Still (p ∷ ps) = λ w. forget-Still ps _

  handle_error-Still : (e : KafkaError) → Still (handle_error worker e)
  unfolding handle_error
  handle_error-Still e w = (ground arith, ground arith)

  -- what is committed so far is paid by what was published so far
  abbrev pub Balances : Method Unit → Type 0
  Balances a =
      (w : Waiting)
      → ArePaid (attempts_of w.trace) (copies_of w.trace)
      → ArePaid (attempts_of (a w).1.trace) (copies_of (a w).1.trace)

  pub Still-Balances : (a : Method Unit) → Still a → Balances a
  Still-Balances a s w h = rw ((s w).0, (s w).1) h

  Forwarded-ArePaid :
      (m : Message) (out : Outgoing) (t t' : Trace)
      → Forwarded m out t t'
      → ArePaid (attempts_of t) (copies_of t)
      → ArePaid (attempts_of t') (copies_of t')
  unfolding attempts_of collect
  Forwarded-ArePaid m out t t' (k, v, inl e) h =
      rw (e, attempts_of-append, collect-append)
        (ArePaid-snoc (attempts_of t) (copies_of t) m out k v h)
  Forwarded-ArePaid m out t t' (k, v, inr e) h =
      rw (e, attempts_of-append, collect-append)
        (ArePaid-snoc (attempts_of t) (copies_of t) m out k v h)

  kept-ArePaid :
      (m : Message) (t t' : Trace)
      → IsKept m t t'
      → Sends t t'
      → ArePaid (attempts_of t) (copies_of t)
      → ArePaid (attempts_of t') (copies_of t')
  kept-ArePaid m t t' (inr (out, f)) s h = Forwarded-ArePaid m out t t' f h
  kept-ArePaid m t t' (inl a) (inl c) h = rw (a, c) h
  kept-ArePaid m t t' (inl a) (inr (out, c)) h =
      rw (a, c) (ArePaid-more (attempts_of t) (copies_of t) out h)

  continue-Balances :
      (r : Result Exc (Unit {0})) (a : Method Unit) (w : Waiting)
      → ArePaid (attempts_of w.trace) (copies_of w.trace)
      → Balances a
      → ArePaid
          (attempts_of (continue r (λ _. a) w).1.trace)
          (copies_of (continue r (λ _. a) w).1.trace)
  continue-Balances (ok _) a w h b = b w h
  continue-Balances (err x) a w h b = h

  pub then-Balances : (a b : Method Unit) → Balances a → Balances b → Balances (a >> b)
  then-Balances a b f g w h = continue-Balances (a w).0 b (a w).1 (f w h) g

  module _ (at_least_once : is_exactly_once worker.router.settings ≡ false) where
    receive-Balances : (x : Answer) → Balances (receive worker x)
    receive-Balances nothing = λ w h. h
    receive-Balances (error e) = Still-Balances (handle_error worker e) (handle_error-Still e)
    receive-Balances (message m) = λ w h.
        kept-ArePaid m w.trace (handle_message worker m w).1.trace
          (handle_message-IsKept worker at_least_once m w) (handle_message-Sends worker m w) h

    step-Balances : (x : List ℕ × Answer) → Balances (step worker x)
    unfolding step
    step-Balances (gone, answer) =
        then-Balances (resume_due worker) _ (Still-Balances (resume_due worker) resume_due-Still) (
          then-Balances (forget worker gone) _
            (Still-Balances (forget worker gone) (forget-Still gone)) (receive-Balances answer))

    -- Outside a transaction, whatever the broker does: if what the worker has committed is paid by the
    -- copies that were taken, it is so after any rounds of the loop.
    pub loop-Balances : (xs : List (List ℕ × Answer)) → Balances (loop worker xs)
    unfolding loop
    loop-Balances [] = λ w h. h
    loop-Balances (x ∷ xs) =
        then-Balances (step worker x) (loop worker xs) (step-Balances x) (loop-Balances xs)
