-- ===== src/Sink/Queue.antt =====
-- The data queue of src/sink.cpp as a state machine: configurations come at any time, and the queue
-- is declared and consumed by requests that complete later.
use metricq_cpp.Prelude.{◌≡◌, refl, ◌∙◌, Bool, List, ◌∷◌, ◌++◌, String, arith}
use metricq_cpp.Prelude.Outcome.{Result}
use metricq_cpp.Json.{Json}
use metricq_cpp.Sink.Settles.{asked-middle, Inv, Fixed, sink_config-Settles}
use metricq_cpp.Sink.{
  Sink, Call, declares, consumes, setup_data_consumer, consume_success, sink_config,
}

module _ {j : Json} {A V : Type 0} (derive : String → Result A) (same : A → A → Bool) where
  open j use {Value}

  -- What happens to the queue: a configuration comes, a queue that was asked for is declared, and
  -- a queue that was consumed starts to deliver.
  pub data Step (s : Sink j A V) : Sink j A V → Type 0 where
    configures : (config : Value) → Step s (sink_config derive same config s).1
    declared :
        (name : String) (before after : List Call)
        → s.calls ≡ before ++ declares name ∷ after
        → Step s (setup_data_consumer name s).1
    delivers :
        (name : String) (before after : List Call)
        → s.calls ≡ before ++ consumes name ∷ after
        → Step s (consume_success s).1

  pub data Reach (s : Sink j A V) : Sink j A V → Type 0 where
    here : Reach s s
    snoc : {s' s'' : Sink j A V} → Reach s s' → Step s' s'' → Reach s s''

  Step-settles : {s s' : Sink j A V} → Step s s' → Inv s → Inv s' × Fixed s s'
  unfolding setup_data_consumer consume_success
  Step-settles {s} (configures config) i = (sink_config-Settles derive same config).settles s i
  Step-settles {s} (declared name before after e) i =
      let a = asked-middle s.calls before after (declares name) e refl in
      (λ _. i (ground arith), λ up. (up, refl))
  Step-settles {s} (delivers name before after e) i =
      let a = asked-middle s.calls before after (consumes name) e refl in
      (λ _. i (ground arith), λ up. (refl, refl))

  -- From a sink whose data queue has a name if a queue was declared or consumed or delivers, in any
  -- course of configurations, declarations and deliveries: that still holds, and once a queue
  -- delivers, that stays so and the name of the data queue never changes again.
  pub Reach-settled : {s s' : Sink j A V} → Reach s s' → Inv s → Inv s' × Fixed s s'
  Reach-settled here i = (i, λ up. (up, refl))
  Reach-settled (snoc r step) i =
      let (i', f) = Reach-settled r i in
      let (i'', g) = Step-settles step i' in
      (i'', λ up. let (up', q) = f up in let (up'', q') = g up' in (up'', q' ∙ q))
