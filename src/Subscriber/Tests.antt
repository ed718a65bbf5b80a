-- ===== src/Subscriber/Tests.antt =====
-- A subscription of src/subscriber.cpp.
use metricq_cpp.Prelude.{◌≡◌, refl, [], ◌∷◌, ◌++◌}
use metricq_cpp.Prelude.Int.{pos}
use metricq_cpp.Prelude.Outcome.{ok, err, assertion, ◌>>◌}
use metricq_cpp.Json.Tree.{object, text, field, end}
use metricq_cpp.Json.Sample.{sample}
use metricq_cpp.Sink.{of_strings, of_duration}
use metricq_cpp.Subscriber.{Subscriber, requests, stops, add_all, on_connected, subscribed}

abbrev fresh : Subscriber
fresh = record { metrics = []; expires = pos 60; queue = ""; calls = [] }

abbrev asked : Subscriber
asked = record fresh {
  metrics = "power" ∷ "load" ∷ [];
  calls =
      requests "sink.subscribe"
        (("metrics", of_strings ("power" ∷ "load" ∷ [])) ∷ ("expires", of_duration (pos 60)) ∷ [])
      ∷ [];
}

asked-fresh : (add_all ("power" ∷ "load" ∷ []) >> on_connected) fresh ≡ (ok tt, asked)
unfolding add_all on_connected
asked-fresh = refl

answered :
    subscribed sample (object (field "dataQueue" (text "queue") end)) asked
    ≡ (ok tt, record asked { queue = "queue"; calls = asked.calls ++ stops ∷ [] })
unfolding subscribed
answered = refl

-- An answer without the queue.
unanswered : subscribed sample (object end) asked ≡ (err assertion, asked)
unfolding subscribed
unanswered = refl
