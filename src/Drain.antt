-- ===== src/Drain.antt =====
-- include/metricq/drain.hpp, src/drain.cpp and include/metricq/simple_drain.hpp: a drain empties a data
-- queue that was subscribed to before, and `SimpleDrain` keeps the points of each metric. Logging is
-- left out.
pub mod Collect
mod Tests
use metricq_cpp.Prelude.{
  Bool, true, false, not, List, [], ◌∷◌, ◌++◌, Option, none, some, String, str_eq, if◌then◌else◌,
}
use metricq_cpp.Prelude.Outcome.{
  Result, ok, err, out_of_range, Action, ◌>>=◌, ◌>>◌, skip, lift, gets, modify, or_raise, assert,
}
use metricq_cpp.Chunk.{DataChunk, TimeValue, range_for, time_value}
use metricq_cpp.Json.{Json}
use metricq_cpp.Table.{lookup, insert_or_keep, update}
use metricq_cpp.Sink.{
  Sink, Delivery, Argument, of_string, of_strings, call, requests, acks, sink_config,
  set_data_queue, close,
}

-- A `Drain` with the points of a `SimpleDrain`.
pub record Drain (j : Json) (A V : Type 0) : Type 0 where
  pub sink : Sink j A V
  pub metrics : List String
  pub points : List (String × List (TimeValue V))

pub record Message : Type 0 where
  pub type_name : String
  pub delivery : Delivery

abbrev pub is_empty : List String → Bool
is_empty [] = true
is_empty (x ∷ xs) = false

module _ {j : Json} {A V : Type 0} where
  open j use {Value}

  -- A method of the sink, called on the drain.
  abbrev pub on_sink : {B : Type 0} → Action (Sink j A V) B → Action (Drain j A V) B
  on_sink m s = let (r, sink) = m s.sink in (r, record s { sink = sink })

  -- The members before the constructor has run.
  abbrev pub blank : Drain j A V
  blank = record {
    sink = record {
      data_server_address = none;
      data_queue = "";
      data_chunk = record { time_delta = []; value = [] };
      metadata = [];
      is_data_queue_set_up = false;
      calls = [];
    };
    metrics = [];
    points = [];
  }

  -- `Drain::Drain`, of the name of a queue.
  unfoldable pub construct : String → Action (Drain j A V) (Unit {0})
  unfolding set_data_queue
  construct queue = on_sink (set_data_queue queue)

  unfoldable pub add : String → Action (Drain j A V) (Unit {0})
  add metric = modify (λ s. record s { metrics = s.metrics ++ metric ∷ [] })

  unfoldable pub add_all : List String → Action (Drain j A V) (Unit {0})
  unfolding add
  add_all [] = skip
  add_all (metric ∷ metrics) = add metric >> add_all metrics

  unfoldable pub on_connected : Action (Drain j A V) (Unit {0})
  on_connected = do
    metrics ← gets (λ s. s.metrics)
    assert (not (is_empty metrics))
    queue ← gets (λ s. s.sink.data_queue)
    on_sink (
        modify (
          call (
            requests "sink.unsubscribe"
              (("dataQueue", of_string queue) ∷ ("metrics", of_strings metrics) ∷ []))))

  unfoldable pub unsubscribe_complete :
      (String → Result A) → (A → A → Bool) → Value → Action (Drain j A V) (Unit {0})
  unsubscribe_complete derive same response = do
    queue ← gets (λ s. s.sink.data_queue)
    assert (not (str_eq queue ""))
    on_sink (sink_config derive same response)

  -- `data_[metric]` for every metric, where a metric that is there keeps its points.
  unfoldable pub add_vectors : List String → Drain j A V → Drain j A V
  add_vectors [] s = s
  add_vectors (metric ∷ metrics) s =
      add_vectors metrics (record s { points = insert_or_keep metric [] s.points })

  unfoldable pub simple_on_connected : Action (Drain j A V) (Unit {0})
  unfolding on_connected add_vectors
  simple_on_connected = do
    on_connected
    metrics ← gets (λ s. s.metrics)
    modify (add_vectors metrics)

  -- `data_.at(id)`
  unfoldable pub at : String → Action (Drain j A V) (List (TimeValue V))
  at id = gets (λ s. lookup id s.points) >>= λ found. or_raise found out_of_range

  -- `d.emplace_back(tv)`, where `d` is the vector of `id`.
  unfoldable pub emplace_back : String → TimeValue V → Action (Drain j A V) (Unit {0})
  unfolding at
  emplace_back id tv = do
    d ← at id
    modify (λ s. record s { points = update id (d ++ tv ∷ []) s.points })

  -- `SimpleDrain::on_data(id, chunk)`
  unfoldable pub keep_chunk : String → DataChunk V → Action (Drain j A V) (Unit {0})
  unfolding at emplace_back range_for
  keep_chunk id chunk = at id >> range_for time_value (emplace_back id) chunk.time_delta chunk.value

  -- `Sink::on_data(message)` of an object whose method for chunks is `on_chunk`; `parse` is what
  -- `ParseFromString` leaves in an empty chunk.
  unfoldable pub on_message :
      (String → DataChunk V)
      → (String → DataChunk V → Action (Drain j A V) (Unit {0}))
      → Delivery
      → Action (Drain j A V) (Unit {0})
  on_message parse on_chunk message = do
    on_sink (modify (λ s. record s { data_chunk = parse message.body }))
    chunk ← gets (λ s. s.sink.data_chunk)
    on_chunk message.routingkey chunk
    on_sink (modify (call (acks message.delivery_tag)))

  unfoldable pub on_data :
      (String → DataChunk V)
      → (String → DataChunk V → Action (Drain j A V) (Unit {0}))
      → Message
      → Action (Drain j A V) (Unit {0})
  unfolding on_message
  on_data parse on_chunk message =
      if str_eq message.type_name "end"
      then (do
        on_sink (modify (call (acks message.delivery.delivery_tag)))
        queue ← gets (λ s. s.sink.data_queue)
        on_sink (modify (call (requests "sink.release" (("dataQueue", of_string queue) ∷ [])))))
      else on_message parse on_chunk message.delivery

  -- The callback for the answer to "sink.release".
  unfoldable pub released : Action (Drain j A V) (Unit {0})
  unfolding close
  released = on_sink close
