-- ===== src/Source/Tests.antt =====
-- A source of src/source.cpp over a small JSON library.
use metricq_cpp.Prelude.{
  ℕ, ◌≡◌, refl, List, [], ◌∷◌, none, some, String, str_eq, length, ◌==◌, if◌then◌else◌, All,
}
use metricq_cpp.Prelude.Int.{pos, ◌-ℤ◌}
use metricq_cpp.Prelude.Outcome.{ok, err, assertion, skip, sub_int64}
use metricq_cpp.Chunk.{DataChunk, TimeValue}
use metricq_cpp.Json.Tree
use metricq_cpp.Json.Tree.{Tree, text, object, number, field, end}
use metricq_cpp.Json.Sample.{sample}
use metricq_cpp.Metadata
use metricq_cpp.Metric
use metricq_cpp.Table.{contains, insert_or_keep, lookup, update}
use metricq_cpp.Source.{
  Source, Hooks, call, opens_connection, publishes, requests, send_by, declare_metrics,
  on_register_response, index, send_chunk,
}
use metricq_cpp.Source.Declare.{AreCompleted, IsSized, Tells, declare_metrics-Tells}

abbrev State : Type 0
State = Source sample String ℕ

abbrev fresh : State
fresh = record { data_server_address = none; data_exchange = ""; metrics = []; calls = [] }

abbrev hooks : Hooks sample String ℕ
hooks = record { on_source_config = λ v. skip; on_source_ready = skip }

abbrev answer : Tree
answer = object (
    field "dataServerAddress" (text "server")
      (field "dataExchange" (text "data") (field "config" (object end) end)))

abbrev registered : State
registered = record fresh {
  data_server_address = some "server";
  data_exchange = "data";
  calls = opens_connection ∷ [];
}

registered-fresh : on_register_response hooks ok str_eq answer fresh ≡ (ok tt, registered)
unfolding on_register_response
registered-fresh = refl

-- The exchange is set once.
registered-twice : (on_register_response hooks ok str_eq answer registered).0 ≡ err assertion
unfolding on_register_response
registered-twice = refl

abbrev point : ℕ → ℕ → TimeValue ℕ
point t v = record { time = pos t; value = v }

abbrev serialize : DataChunk ℕ → String
serialize c = if length c.value == 2 then "long" else "short"

-- A metric that is new hands every point over at once.
sent-registered :
    (send_by serialize "power" (point 100 7) registered).1.calls
    ≡ opens_connection ∷ publishes "data" "power" "short" ∷ []
unfolding send_by insert_or_keep contains Metric.new Metric.send Metadata.new lookup update
    sub_int64 ◌-ℤ◌ send_chunk
sent-registered = refl

-- Its chunk size goes into the metadata that are sent.
declared-registered :
    (declare_metrics (index "power" registered)).1.calls
    ≡ opens_connection
      ∷ requests "source.declare_metrics" (
          object (
            field "metrics"
              (object (field "power" (object (field "chunkSize" (number (some 1)) end)) end))
              end))
      ∷ []
unfolding declare_metrics index insert_or_keep contains Metric.new Metadata.new Metadata.chunk_size
    Metadata.set_chunk_size
declared-registered = refl

abbrev power : Metric.Metric ℕ (Metadata.Metadata sample) (Unit {0})
power = record {
  id = "power";
  metadata = record { metadata = object end };
  writer = tt;
  chunk_size = pos 1;
  previous_timestamp = pos 0;
  chunk = record { time_delta = []; value = [] };
}

abbrev with_power : State
with_power = record registered { metrics = ("power", power) ∷ [] }

declare_metrics-Tells_example :
    (payload told : Tree) × (ms' : List
      (String × Metric.Metric ℕ (Metadata.Metadata sample) (Unit {0})))
    × (declare_metrics with_power ≡ (
      ok tt,
      call (requests "source.declare_metrics" payload) (record with_power { metrics = ms' }),
    ))
    × (Tree.at payload "metrics" ≡ ok told)
    × ((k : String) → Tells sample (lookup k ms') (Tree.at told k))
    × All
        (λ (e : String × Metric.Metric ℕ (Metadata.Metadata sample) (Unit {0})). IsSized sample e.1)
        ms'
    × AreCompleted sample with_power.metrics ms'
unfolding contains Metadata.chunk_size
declare_metrics-Tells_example =
    declare_metrics-Tells "power" power [] with_power refl (refl, refl, tt)
      ((refl, (none, refl)), tt)
