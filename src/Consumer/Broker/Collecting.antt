-- ===== src/Consumer/Broker/Collecting.antt =====
-- What a trace shows of one kind of event, in order.
use kafka_playgroud.Prelude.{◌≡◌, refl, ◌∙◌, ap, sym, List, [], ◌∷◌, ◌++◌}
use mathlib.Core.List.{append-nil, append_assoc}
use kafka_playgroud.Consumer.Broker.{Event, Outgoing, enqueued, Trace, emit}

module _ {A : Type 0} (by_event : Event → List A) where
  unfoldable pub collect : Trace → List A
  collect [] = []
  collect (e ∷ t) = by_event e ++ collect t

  pub collect-append : (t u : Trace) → collect (t ++ u) ≡ collect t ++ collect u
  unfolding collect
  collect-append [] u = refl
  collect-append (e ∷ t) u =
      ap (λ xs. by_event e ++ xs) (collect-append t u)
      ∙ sym (append_assoc (by_event e) (collect t) (collect u))

  pub collect-emit : (e : Event) (t : Trace) → collect (emit e t) ≡ collect t ++ by_event e
  unfolding collect
  collect-emit e t =
      collect-append t (e ∷ []) ∙ ap (λ xs. collect t ++ xs) (append-nil (by_event e))

abbrev pub copy_by : Event → List Outgoing
copy_by (enqueued out) = out ∷ []
copy_by _ = []

-- the messages that the process's producer has taken
abbrev pub copies_of : Trace → List Outgoing
copies_of t = collect copy_by t

pub copies_of-emit : (e : Event) (t : Trace) → copies_of (emit e t) ≡ copies_of t ++ copy_by e
copies_of-emit e t = collect-emit copy_by e t
