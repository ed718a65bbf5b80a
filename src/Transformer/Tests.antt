-- ===== src/Transformer/Tests.antt =====
-- A transformer of src/transformer.cpp over a small JSON library.
use metricq_cpp.Prelude.{ℕ, ◌≡◌, refl, false, [], ◌∷◌, none, String, str_eq}
use metricq_cpp.Prelude.Outcome.{ok, err, aborted, ◌>>◌, skip, modify}
use metricq_cpp.Chunk.{empty_chunk}
use metricq_cpp.Json.Tree.{Tree, text, object, field, end}
use metricq_cpp.Json.Sample.{sample}
use metricq_cpp.Sink.{opens_connection, sets_qos, declares, of_strings, sink_config}
use metricq_cpp.Transformer.{
  Transformer, Hooks, from_sink, registers, subscribes, index, on_connected, on_register_response,
  subscribed, on_sink, declare_metrics,
}
use metricq_cpp.Transformer.Subscribed.{subscribed-on_sink}

abbrev State : Type 0
State = Transformer sample String ℕ

abbrev fresh : State
fresh = record {
  sink = record {
    data_server_address = none;
    data_queue = "";
    data_chunk = empty_chunk;
    metadata = [];
    is_data_queue_set_up = false;
    calls = [];
  };
  data_exchange = "";
  output_metrics = [];
  input_metrics = [];
  calls = [];
}

abbrev nothing : Hooks sample String ℕ
nothing = record { on_transformer_config = λ v. skip; on_transformer_ready = skip }

-- Reads one metric, and declares another once it is ready.
abbrev hooks : Hooks sample String ℕ
hooks = record {
  on_transformer_config = λ v. modify (λ s. record s { input_metrics = "power" ∷ [] });
  on_transformer_ready = modify (index "load");
}

abbrev registration : Tree
registration = object (field "dataExchange" (text "data") (field "config" (object end) end))

abbrev answer : Tree
answer = object (field "dataServerAddress" (text "server") (field "dataQueue" (text "queue") end))

-- A transformer that reads no metric ends the process.
registered-nothing : (on_register_response nothing registration fresh).0 ≡ err aborted
unfolding on_register_response
registered-nothing = refl

registered-fresh : (on_connected >> on_register_response hooks registration) fresh ≡ (
  ok tt,
  record fresh {
    data_exchange = "data";
    input_metrics = "power" ∷ [];
    calls = registers ∷ subscribes (("metrics", of_strings ("power" ∷ [])) ∷ []) ∷ [];
  },
)
unfolding on_connected on_register_response
registered-fresh = refl

subscribed-fresh :
    (subscribed nothing ok str_eq answer fresh).1.calls
    ≡ from_sink opens_connection ∷ from_sink (sets_qos 400) ∷ from_sink (declares "queue") ∷ []
unfolding subscribed sink_config
subscribed-fresh = refl

subscribed-on_sink_example :
    subscribed hooks ok str_eq answer fresh
    ≡ (on_sink (sink_config ok str_eq answer) >> (hooks.on_transformer_ready >> declare_metrics))
        fresh
subscribed-on_sink_example = subscribed-on_sink hooks ok str_eq answer fresh
