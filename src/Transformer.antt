-- ===== src/Transformer.antt =====
-- include/metricq/transformer.hpp and src/transformer.cpp: a transformer is a sink that publishes metrics
-- of its own. What its sink asks of the AMQP library is passed on to `calls` in its order. The
-- parameters are those of the sink and of the source. Logging is left out.
pub mod Subscribed
mod Tests
use metricq_cpp.Prelude.{
  Bool, true, false, not, List, [], ◌∷◌, ◌++◌, map, Option, none, some, String, str_eq,
  if◌then◌else◌,
}
use metricq_cpp.Prelude.Outcome.{
  Result, ok, err, null_pointer, aborted, out_of_range, Action, ◌>>=◌, ◌>>◌, skip, lift, raise,
  gets, modify, assert,
}
use metricq_cpp.Chunk.{DataChunk, TimeValue, to_chunk}
use metricq_cpp.Json.{Json}
use metricq_cpp.Metadata
use metricq_cpp.Metadata.{Metadata}
use metricq_cpp.Metric
use metricq_cpp.Metric.{Metric}
use metricq_cpp.Table.{lookup, insert_or_keep, update}
use metricq_cpp.Sink
use metricq_cpp.Sink.{Sink, Argument, of_strings, sink_config}
use metricq_cpp.Source.{with_writer, declare_each}

pub data Call (Value : Type 0) : Type 0 where
  from_sink : Sink.Call → Call Value
  publishes : String → String → String → Call Value
  registers : Call Value
  subscribes : List (String × Argument) → Call Value
  declares : Value → Call Value

pub record Transformer (j : Json) (A V : Type 0) : Type 0 where
  pub sink : Sink j A V
  pub data_exchange : String
  pub output_metrics : List (String × Metric V (Metadata j) (Unit {0}))
  pub input_metrics : List String
  pub calls : List (Call j.Value)

-- The methods that a subclass defines.
pub record Hooks (j : Json) (A V : Type 0) : Type 0 where
  pub on_transformer_config : j.Value → Action (Transformer j A V) (Unit {0})
  pub on_transformer_ready : Action (Transformer j A V) (Unit {0})

module _ {j : Json} {A V : Type 0} where
  open j use {Value}

  abbrev pub call : Call Value → Transformer j A V → Transformer j A V
  call c s = record s { calls = s.calls ++ c ∷ [] }

  -- The transformer once its sink is `sink`, whose new calls are passed on.
  abbrev pub pass_on : Sink j A V → Transformer j A V → Transformer j A V
  pass_on sink s = record s {
    sink = record sink { calls = [] };
    calls = s.calls ++ map from_sink sink.calls;
  }

  -- A method of the sink, called on the transformer.
  abbrev pub on_sink : {B : Type 0} → Action (Sink j A V) B → Action (Transformer j A V) B
  on_sink m s = let (r, sink) = m s.sink in (r, pass_on sink s)

  -- `send(id, chunk)`; `serialize` is `SerializeAsString`. There is a data channel once the data
  -- connection has its address, and a null pointer before.
  unfoldable pub send_chunk :
      (DataChunk V → String) → String → DataChunk V → Action (Transformer j A V) (Unit {0})
  send_chunk serialize id dc s = elim s.sink.data_server_address [
    | none ↦ (err null_pointer, s)
    | some address ↦ (ok tt, call (publishes s.data_exchange id (serialize dc)) s)
  ]

  -- `send(id, tv)`
  unfoldable pub send_value :
      (DataChunk V → String) → String → TimeValue V → Action (Transformer j A V) (Unit {0})
  unfolding send_chunk to_chunk
  send_value serialize id tv = send_chunk serialize id (to_chunk tv)

  -- `(*this)[id]`: a metric that is not there is made.
  unfoldable pub index : String → Transformer j A V → Transformer j A V
  index id s = record s {
    output_metrics = insert_or_keep id (Metric.new id (Metadata.new j) tt) s.output_metrics;
  }

  -- A method of the metric with this id, which has the transformer for its writer.
  unfoldable pub on_metric :
      Action (Metric V (Metadata j) (Transformer j A V)) (Unit {0})
      → String
      → Action (Transformer j A V) (Unit {0})
  on_metric method id s = elim (lookup id s.output_metrics) [
    | none ↦ (err out_of_range, s)
    | some m ↦
        let (r, m') = method (with_writer s m) in
        (
          r,
          record m'.writer {
            output_metrics = update id (with_writer tt m') m'.writer.output_metrics;
          },
        )
  ]

  unfoldable pub on_connected : Action (Transformer j A V) (Unit {0})
  on_connected = modify (call registers)

  -- The payload names no metrics where there are none, and then nothing is sent.
  unfoldable pub declare_metrics : Action (Transformer j A V) (Unit {0})
  unfolding declare_each
  declare_metrics s = elim s.output_metrics [
    | [] ↦ (ok tt, s)
    | m ∷ ms ↦
        let (r, metrics) = declare_each j j.null s.output_metrics in
        let s' = record s { output_metrics = metrics } in
        elim r [ err e ↦ (err e, s') | ok payload ↦ (ok tt, call (declares payload) s') ]
  ]

  -- Without metrics to read the process ends.
  unfoldable pub subscribe_metrics : Action (Transformer j A V) (Unit {0})
  subscribe_metrics s = elim s.input_metrics [
    | [] ↦ (err aborted, s)
    | m ∷ ms ↦ (ok tt, call (subscribes (("metrics", of_strings s.input_metrics) ∷ [])) s)
  ]

  -- The assertion that the answer to a subscription names the data queue.
  unfoldable pub assert_queue : Value → Action (Transformer j A V) (Unit {0})
  assert_queue response = do
    entry ← lift (j.at response "dataQueue")
    queue ← gets (λ s. s.sink.data_queue)
    assert (elim (j.get_string entry) [ ok name ↦ str_eq queue name | err e ↦ false ])

  module _ (hooks : Hooks j A V) where
    -- The callback that `subscribe_metrics` gives to `rpc` for the answer.
    unfoldable pub subscribed :
        (String → Result A) → (A → A → Bool) → Value → Action (Transformer j A V) (Unit {0})
    unfolding assert_queue declare_metrics
    subscribed derive same response =
        on_sink (sink_config derive same response)
        >> (assert_queue response >> (hooks.on_transformer_ready >> declare_metrics))

    -- The function "config" that others call, up to the empty object that it answers.
    unfoldable pub on_config : Value → Action (Transformer j A V) (Unit {0})
    unfolding subscribe_metrics
    on_config config = hooks.on_transformer_config config >> subscribe_metrics

    unfoldable pub on_register_response : Value → Action (Transformer j A V) (Unit {0})
    unfolding subscribe_metrics
    on_register_response response = do
      exchange ← gets (λ s. s.data_exchange)
      assert (str_eq exchange "")
      entry ← lift (j.at response "dataExchange")
      exchange' ← lift (j.get_string entry)
      modify (λ s. record s { data_exchange = exchange' })
      config ← lift (j.at response "config")
      hooks.on_transformer_config config
      subscribe_metrics
