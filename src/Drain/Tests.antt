-- ===== src/Drain/Tests.antt =====
-- A drain of include/metricq/simple_drain.hpp over a small JSON library, whose bodies of messages are
-- read and written by a protobuf library that is a parameter.
use metricq_cpp.Prelude.{
  ℕ, ◌≡◌, refl, false, List, [], ◌∷◌, ◌++◌, none, String, str_eq, arith, length, ◌==◌,
  if◌then◌else◌,
}
use mathlib.Core.Option
use metricq_cpp.Prelude.Int.{pos}
use metricq_cpp.Prelude.Outcome.{ok, err, out_of_range, assertion, ◌>>◌}
use metricq_cpp.Chunk.{DataChunk, TimeValue, empty_chunk}
use metricq_cpp.Chunk.Encode.{chunk_of}
use metricq_cpp.Json.Sample.{sample}
use metricq_cpp.Table.{lookup, contains, insert_or_keep}
use metricq_cpp.Sink.{acks, requests, of_string, of_strings}
use metricq_cpp.Drain.{
  Drain, Message, add_all, simple_on_connected, keep_chunk, on_data, on_connected,
}
use metricq_cpp.Drain.Collect.{Batch, carrier, deliver, points_of, acks_of, deliver-collects}

abbrev State : Type 0
State = Drain sample String ℕ

abbrev fresh : State
fresh = record {
  sink = record {
    data_server_address = none;
    data_queue = "queue";
    data_chunk = empty_chunk;
    metadata = [];
    is_data_queue_set_up = false;
    calls = [];
  };
  metrics = [];
  points = [];
}

abbrev point : ℕ → ℕ → TimeValue ℕ
point t v = record { time = pos t; value = v }

-- Two chunks and their bodies.
abbrev long : List (TimeValue ℕ)
long = point 100 7 ∷ point 140 8 ∷ []

abbrev short : List (TimeValue ℕ)
short = point 200 9 ∷ []

abbrev serialize : DataChunk ℕ → String
serialize c = if length c.value == 2 then "long" else "short"

abbrev parse : String → DataChunk ℕ
parse body = if str_eq body "long" then chunk_of long else chunk_of short

abbrev connected : State
connected = record fresh {
  sink = record fresh.sink {
    calls =
        requests "sink.unsubscribe"
          (("dataQueue", of_string "queue") ∷ ("metrics", of_strings ("power" ∷ "load" ∷ [])) ∷ [])
        ∷ [];
  };
  metrics = "power" ∷ "load" ∷ [];
  points = ("load", []) ∷ ("power", []) ∷ [];
}

connected-fresh :
    (add_all ("power" ∷ "load" ∷ []) >> simple_on_connected) fresh ≡ (ok tt, connected)
unfolding add_all simple_on_connected insert_or_keep contains
connected-fresh = refl

-- Without a metric there is nothing to drain.
unconnected : on_connected fresh ≡ (err assertion, fresh)
unfolding on_connected
unconnected = refl

abbrev last_message : Message
last_message = record {
  type_name = "end";
  delivery = record { routingkey = ""; body = ""; delivery_tag = 9 };
}

-- The message at the end of the queue is acknowledged, and then the queue is released.
ended :
    (on_data parse keep_chunk last_message fresh).1.sink.calls
    ≡ acks 9 ∷ requests "sink.release" (("dataQueue", of_string "queue") ∷ []) ∷ []
unfolding on_data
ended = refl

-- Points of a metric that was not added are not acknowledged.
unknown :
    (on_data parse keep_chunk
      (carrier serialize (record { id = "heat"; points = short; tag = 1 }))
      connected).0
    ≡ err out_of_range
unfolding on_data keep_chunk lookup
unknown = refl

abbrev batches : List (Batch ℕ)
batches =
    record { id = "power"; points = long; tag = 1 }
    ∷ record { id = "load"; points = short; tag = 2 }
    ∷ record { id = "power"; points = short; tag = 3 }
    ∷ []

deliver-collects_example :
    let (r, s') = deliver parse serialize batches connected in
    (r ≡ ok tt)
    × (s'.sink.calls ≡ connected.sink.calls ++ acks_of batches)
    × ((id : String)
        → lookup id s'.points
          ≡ Option.map (λ tvs. tvs ++ points_of id batches) (lookup id connected.points))
unfolding contains
deliver-collects_example = deliver-collects parse serialize batches connected (
  ((omega arith, omega arith), refl, refl),
  ((omega arith, refl, refl), ((omega arith, refl, refl), tt)),
)
