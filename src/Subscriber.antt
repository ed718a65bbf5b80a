-- ===== src/Subscriber.antt =====
-- include/metricq/subscriber.hpp and src/subscriber.cpp: a client that subscribes to metrics, is told the
-- queue for their data, and stops.
mod Tests
use metricq_cpp.Prelude.{List, [], ◌∷◌, ◌++◌, String}
use metricq_cpp.Prelude.Int.{ℤ}
use metricq_cpp.Prelude.Outcome.{Result, ok, Action, ◌>>=◌, ◌>>◌, skip, lift, modify}
use metricq_cpp.Json.{Json, entry_text}
use metricq_cpp.Sink.{Argument, of_strings, of_duration}

pub data Call : Type 0 where
  requests : String → List (String × Argument) → Call
  stops : Call

pub record Subscriber : Type 0 where
  pub metrics : List String
  pub expires : ℤ
  pub queue : String
  pub calls : List Call

abbrev pub call : Call → Subscriber → Subscriber
call c s = record s { calls = s.calls ++ c ∷ [] }

-- The constructor; the token is kept by the connection.
unfoldable pub new : ℤ → Subscriber
new expires = record { metrics = []; expires = expires; queue = ""; calls = [] }

unfoldable pub add : String → Action Subscriber (Unit {0})
add metric = modify (λ s. record s { metrics = s.metrics ++ metric ∷ [] })

unfoldable pub add_all : List String → Action Subscriber (Unit {0})
unfolding add
add_all [] = skip
add_all (metric ∷ metrics) = add metric >> add_all metrics

unfoldable pub on_connected : Action Subscriber (Unit {0})
on_connected s = (
  ok tt,
  call
      (requests "sink.subscribe"
        (("metrics", of_strings s.metrics) ∷ ("expires", of_duration s.expires) ∷ []))
      s,
)

-- The callback that `on_connected` gives to `rpc` for the answer.
unfoldable pub subscribed : (j : Json) → j.Value → Action Subscriber (Unit {0})
subscribed j response = do
  queue ← lift (entry_text j response "dataQueue")
  modify (λ s. record s { queue = queue })
  modify (call stops)
