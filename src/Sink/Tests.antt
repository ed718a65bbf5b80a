-- ===== src/Sink/Tests.antt =====
-- A sink of src/sink.cpp over a small JSON library, and the theorems at it.
use metricq_cpp.Prelude.{
  ℕ, ◌≡◌, refl, true, false, [], ◌∷◌, ◌++◌, some, none, String, str_eq, if◌then◌else◌, ◌==◌, List,
  ◌∙◌, ◌⊎◌, inl, inr, Bool-cases, append-nil, arith,
}
use metricq_cpp.Prelude.Int.{pos}
use metricq_cpp.Prelude.Outcome.{ok, err, Failure, runtime_error, Action}
use metricq_cpp.Chunk.{DataChunk, TimeValue, empty_chunk}
use metricq_cpp.Json.Tree.{Tree, text, object, field, end}
use metricq_cpp.Json.Sample.{sample}
use metricq_cpp.Table.{insert_or_keep, contains}
use metricq_cpp.Sink.{
  Sink, Delivery, opens_connection, sets_qos, declares, consumes, acks, call, set_data_queue,
  setup_data_consumer, consume_success, sink_config, subscribed, on_data,
}
use metricq_cpp.Sink.Settles.{Inv, Fixed}
use metricq_cpp.Sink.Queue.{Reach, here, snoc, configures, declared, delivers, Reach-settled}
use metricq_cpp.Sink.Subscribed.{subscribed-sink_config}
use metricq_cpp.Sink.Data.{IsQuiet, acked, acked-append, on_data-acks}
use metricq_cpp.Chunk.Encode.{chunk_of, for_each}

abbrev State : Type 0
State = Sink sample String ℕ

abbrev fresh : State
fresh = record {
  data_server_address = none;
  data_queue = "";
  data_chunk = empty_chunk;
  metadata = [];
  is_data_queue_set_up = false;
  calls = [];
}

abbrev config : String → Tree
config queue = object (
    field "dataServerAddress" (text "server") (
      field "dataQueue" (text queue)
        (field "metrics" (object (field "power" (object end) end)) end)))

abbrev configured : State
configured = record fresh {
  data_server_address = some "server";
  data_queue = "first";
  metadata = ("power", record { metadata = object end }) ∷ [];
  calls = opens_connection ∷ sets_qos 400 ∷ declares "first" ∷ [];
}

configured-fresh : sink_config ok str_eq (config "first") fresh ≡ (ok tt, configured)
unfolding sink_config contains insert_or_keep
configured-fresh = refl

-- A second configuration that comes before the queue delivers asks for a second queue.
configured-twice :
    (sink_config ok str_eq (config "second") configured).1.calls
    ≡ configured.calls ++ sets_qos 400 ∷ declares "second" ∷ []
unfolding sink_config contains insert_or_keep
configured-twice = refl

abbrev delivering : State
delivering = record configured {
  is_data_queue_set_up = true;
  calls = configured.calls ++ consumes "first" ∷ [];
}

set_data_queue-delivering : set_data_queue "second" delivering ≡ (
  err (runtime_error "Trying to change data_queue, but data consumption has already started."),
  delivering,
)
unfolding set_data_queue
set_data_queue-delivering = refl

fresh-Inv : Inv fresh
fresh-Inv h = absurd (cc)

reached : Reach ok str_eq fresh delivering
unfolding sink_config setup_data_consumer consume_success contains insert_or_keep
reached =
    snoc
      (snoc (snoc here (configures (config "first")))
        (declared "first" (opens_connection ∷ sets_qos 400 ∷ []) [] refl))
      (delivers "first" configured.calls [] refl)

Reach-settled_example : Inv delivering × Fixed fresh delivering
Reach-settled_example = Reach-settled ok str_eq reached fresh-Inv

subscribed-sink_config_example :
    subscribed ok str_eq (config "first") fresh ≡ sink_config ok str_eq (config "first") fresh
subscribed-sink_config_example = subscribed-sink_config ok str_eq (config "first") fresh

-- Each point is answered by a call, and 0 throws.
abbrev on_value : String → TimeValue ℕ → Action State (Unit {0})
on_value id tv s =
    if tv.value == 0 then (err (runtime_error "zero"), s) else (ok tt, call (sets_qos tv.value) s)

abbrev points : List (TimeValue ℕ)
points = record { time = pos 10; value = 7 } ∷ record { time = pos 15; value = 8 } ∷ []

abbrev parse : String → DataChunk ℕ
parse body = record { time_delta = pos 10 ∷ pos 5 ∷ []; value = 7 ∷ 8 ∷ [] }

abbrev message : Delivery
message = record { routingkey = "power"; body = "bytes"; delivery_tag = 3 }

on_value-IsQuiet : (id : String) → IsQuiet {j = sample} {A = String} (on_value id)
on_value-IsQuiet id tv s = elim (Bool-cases (tv.value == 0)) [
  | inl e ↦ rw e refl
  | inr e ↦ rw e (acked-append s.calls (sets_qos tv.value ∷ []) ∙ append-nil (acked s.calls))
]

reads : parse "bytes" ≡ chunk_of points
unfolding metricq_cpp.Prelude.Int.◌-ℤ◌
reads = refl

on_data-acks_example :
    let (r, s') = on_data parse on_value message delivering in
    let (v, visited) =
      for_each (on_value "power") points (record delivering { data_chunk = chunk_of points }) in
    ((v ≡ ok tt)
      × (r ≡ ok tt)
      × (s' ≡ call (acks 3) visited)
      × (acked s'.calls ≡ acked delivering.calls ++ 3 ∷ []))
    ⊎ ((e : Failure) × (v ≡ err e)
        × (r ≡ err e)
        × (s' ≡ visited)
        × (acked s'.calls ≡ acked delivering.calls))
on_data-acks_example =
    on_data-acks parse on_value message points delivering reads (omega arith)
      (on_value-IsQuiet "power")
