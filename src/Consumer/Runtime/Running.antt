-- ===== src/Consumer/Runtime/Running.antt =====
-- `ServiceConsumer.run`: the loop with its `finally`.
use kafka_playgroud.Prelude.{
  ℕ, [], ◌∷◌, String, Bool, false, List, Result, ok, err, ◌==◌, string_eq, if◌then◌else◌,
}
use kafka_playgroud.Consumer.Broker.{Exc, other_class}
use kafka_playgroud.Consumer.Runtime.{Service, Polled, loop, Method, on_commits, let_go}
use kafka_playgroud.Prelude.Action.{◌>>◌, pure}

-- whether the process is gone, so that no `finally` runs
abbrev pub is_exit : Exc → Bool
is_exit x = elim x.class [ other_class text ↦ text == "os._exit" | _ ↦ false ]

-- an exception of the `finally` block takes the place of the loop's answer
abbrev pub after_close : Result Exc (Unit {0}) → Result Exc (Unit {0}) → Result Exc (Unit {0})
after_close answer (ok _) = answer
after_close answer (err x) = err x

-- the partitions of what is assigned, topic by topic
abbrev pub partitions_of : List (String × ℕ) → List ℕ
partitions_of [] = []
partitions_of ((topic, p) ∷ ps) = p ∷ partitions_of ps

module _ {S C : Type 0} (service : Service S C) where
  abbrev pub give_back : List (String × ℕ) → Method service Unit
  give_back [] = pure tt
  give_back (a ∷ assigned) = let_go service (partitions_of (a ∷ assigned))

  -- `consumer.close()`: the client revokes what is assigned, by `_on_revoke`
  unfoldable pub close_consumer : Method service Unit
  close_consumer w = give_back (service.assignment w.trace) w

  -- the `finally` block; where the committer raises, the client is not closed
  abbrev pub closing : Method service Unit
  closing = do on_commits service service.commits.close; close_consumer

  abbrev pub close_after : Result Exc (Unit {0}) → Method service Unit
  close_after answer w = let (closed_ok, w') = closing w in (after_close answer closed_ok, w')

  abbrev pub finally_close : Result Exc (Unit {0}) → Method service Unit
  finally_close (ok _) = close_after (ok tt)
  finally_close (err x) = λ w. if is_exit x then (err x, w) else close_after (err x) w

  -- `run`, from the subscription on
  unfoldable pub run : List Polled → Method service Unit
  run polled w = let (answer, w') = loop service polled w in finally_close answer w'
