-- ===== src/EndToEnd/Tests.antt =====
-- A source and a drain with chunks that are written as one of two texts.
use metricq_cpp.Prelude.{
  ℕ, ◌≡◌, refl, true, List, [], ◌∷◌, ◌++◌, some, String, str_eq, length, ◌==◌, if◌then◌else◌, arith,
}
use mathlib.Core.Option
use metricq_cpp.Prelude.Int.{pos}
use metricq_cpp.Prelude.Outcome.{ok}
use metricq_cpp.Chunk.{DataChunk, TimeValue, empty_chunk}
use metricq_cpp.Chunk.Encode.{chunk_of}
use metricq_cpp.Json.Sample.{sample}
use metricq_cpp.Metric.Batches.{Call, sends, resizes, sent_by}
use metricq_cpp.Metric.Delivery.{then_flush}
use metricq_cpp.Table.{lookup, contains}
use metricq_cpp.Source.{Source, opens_connection}
use metricq_cpp.Source.Mirror.{perform_all_by}
use metricq_cpp.Drain.{Drain}
use metricq_cpp.EndToEnd.{route, handle_all, drained-sent}

abbrev source : Source sample String ℕ
source = record {
  data_server_address = some "server";
  data_exchange = "data";
  metrics = [];
  calls = opens_connection ∷ [];
}

abbrev drain : Drain sample String ℕ
drain = record {
  sink = record {
    data_server_address = some "server";
    data_queue = "queue";
    data_chunk = empty_chunk;
    metadata = [];
    is_data_queue_set_up = true;
    calls = [];
  };
  metrics = "power" ∷ [];
  points = ("power", []) ∷ [];
}

abbrev point : ℕ → ℕ → TimeValue ℕ
point t v = record { time = pos t; value = v }

abbrev serialize : DataChunk ℕ → String
serialize c = if length c.value == 2 then "long" else "short"

abbrev parse : String → DataChunk ℕ
parse body =
    if str_eq body "long"
    then chunk_of (point 100 7 ∷ point 140 8 ∷ [])
    else chunk_of (point 200 9 ∷ [])

abbrev calls : List (Call (TimeValue ℕ))
calls = resizes 2 ∷ sends (point 100 7) ∷ sends (point 140 8) ∷ sends (point 200 9) ∷ []

drained-sent_example :
    let (r, s') = perform_all_by serialize "power" (then_flush calls) source in
    let (r', d') = handle_all parse serialize (route 1 s'.calls) drain in
    (r ≡ ok tt)
    × (r' ≡ ok tt)
    × (lookup "power" d'.points
        ≡ Option.map (λ tvs. tvs ++ sent_by calls) (lookup "power" drain.points))
unfolding contains
drained-sent_example =
    drained-sent parse serialize 1 "power" "server" source drain calls refl refl refl refl
      (omega arith) (refl, (refl, tt))
