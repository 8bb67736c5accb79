-- ===== src/Consumer/Tests/Folds.antt =====
-- Witness for the folds of a run on the memory backend.
use kafka_playgroud.Prelude.{
  ◌≡◌, ap, ◌++◌, refl, List, [], some, none, ok, String, ℕ, string_eq, nat_eq, contains,
  if◌then◌else◌, ◌∷◌,
}
use kafka_playgroud.Consumer.Runtime.{Service, Worker, Polled, loop}
use kafka_playgroud.Consumer.Runtime.Running.{run}
use kafka_playgroud.Consumer.Services.{build_spec, notification}
use kafka_playgroud.Consumer.Services.Handled.{build_spec_total}
use kafka_playgroud.Consumer.State.Local.{Local}
use kafka_playgroud.Consumer.State.Memory as Memory
use kafka_playgroud.Consumer.State.Memory.{Memory}
use kafka_playgroud.Consumer.Projection.{on_memory, AreTotal, given_up}
use kafka_playgroud.Consumer.Projection.Folds.{fold_of, run_folds}
use kafka_playgroud.Consumer.Tests.{Disk}
use kafka_playgroud.Consumer.Tests.Commits.{pydantic, service, day}

abbrev amount : ℕ → String
amount n = "0.00"

abbrev notifying : Service (Local Disk) Unit
notifying = record service { handlers = (notification pydantic amount).handlers }

registered : build_spec pydantic amount "notification" ≡ some (notification pydantic amount)
unfolding build_spec
registered = refl

notifying-AreTotal : AreTotal notifying
notifying-AreTotal f e valid h found t =
    let (lines, says, _) =
      build_spec_total pydantic amount f e valid "notification" (notification pydantic amount) h t
        registered found in
    ap (λ r. r.0) says

-- a client that holds partition 1 when it is closed
abbrev holding : Service (Local Disk) Unit
holding = record notifying { assignment = λ t. ("orders.lifecycle", 1) ∷ [] }

holding-AreTotal : AreTotal holding
holding-AreTotal = notifying-AreTotal

abbrev started : Worker Memory Unit
started = record { store = Memory.empty; commits = tt; trace = [] }

run_folds_example :
    let (answer, left) = loop (on_memory holding) day started in
    (done : List Polled) × (rest : List Polled) × (day ≡ done ++ rest)
    × ((p : ℕ) (id : String)
        → Memory.load p id left.store ≡ fold_of holding p id done (Memory.load p id Memory.empty))
    × ((p : ℕ) (id : String)
        → Memory.load p id (run (on_memory holding) day started).1.store ≡ (
            if contains p (given_up holding answer left)
            then none
            else fold_of holding p id done (Memory.load p id Memory.empty)))
    × ((run (on_memory holding) day started).0 ≡ ok tt → rest ≡ [])
run_folds_example = run_folds holding holding-AreTotal day started
