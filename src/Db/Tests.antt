-- ===== src/Db/Tests.antt =====
-- A database of src/db.cpp over a small JSON library, whose requests and responses are texts.
use metricq_cpp.Prelude.{
  ℕ, ◌≡◌, refl, false, List, [], ◌∷◌, ◌++◌, none, some, String, str_eq, str_append,
}
use metricq_cpp.Prelude.Outcome.{ok, err, runtime_error, ◌>>◌, skip}
use metricq_cpp.Chunk.{empty_chunk}
use metricq_cpp.Json.Tree.{Tree, text, object, field, end}
use metricq_cpp.Json.Sample.{sample}
use metricq_cpp.Sink.{opens_connection, sets_qos, declares, sink_config}
use metricq_cpp.Db.{
  Db, Hooks, Message, Call, from_sink, registers, subscribes, publishes, acks, on_connected,
  on_register_response, subscribed,
}
use metricq_cpp.Db
use metricq_cpp.Db.Answers.{Responds, serve, answers, serve-answers}

abbrev State : Type 0
State = Db sample String ℕ String

abbrev fresh : State
fresh = record {
  sink = record {
    data_server_address = none;
    data_queue = "";
    data_chunk = empty_chunk;
    metadata = [];
    is_data_queue_set_up = false;
    calls = [];
  };
  token = "db";
  history_queue = "";
  history_request = none;
  calls = [];
}

-- Every request is answered by the metric and the request.
abbrev hooks : Hooks sample String ℕ String String
hooks = record {
  on_history = λ id q s. (ok (str_append id q), s);
  on_db_config = λ v s. (ok v, s);
  on_db_ready = skip;
}

abbrev registration : Tree
registration = object (
    field "dataServerAddress" (text "server") (
      field "dataQueue" (text "data")
        (field "historyQueue" (text "history") (field "config" (text "all") end))))

abbrev registered : State
registered = record fresh {
  sink = record fresh.sink { data_server_address = some "server"; data_queue = "data" };
  history_queue = "history";
  calls =
      registers
      ∷ from_sink opens_connection
      ∷ from_sink (sets_qos 400)
      ∷ from_sink (declares "data")
      ∷ subscribes (text "all")
      ∷ Db.declares "history"
      ∷ [];
}

registered-fresh :
    (on_connected >> on_register_response hooks ok str_eq registration) fresh ≡ (ok tt, registered)
unfolding on_connected on_register_response sink_config
registered-fresh = refl

subscribed-registered : subscribed registration registered ≡ (ok tt, registered)
unfolding subscribed
subscribed-registered = refl

subscribed-fresh :
    (subscribed registration fresh).0
    ≡ err (runtime_error "data_queue or history_queue empty upon db.subscribe return")
unfolding subscribed
subscribed-fresh = refl

responds : Responds hooks str_append
responds = record {
  succeeds = λ id q s. refl;
  sends_nothing = λ id q s. refl;
  keeps_token = λ id q s. refl;
}

abbrev message : String → ℕ → Message
message id tag = record {
  routingkey = id;
  body = "last";
  correlation_id = "1";
  reply_to = "client";
  delivery_tag = tag;
}

abbrev messages : List (Message × String)
messages = (message "power" 1, "10") ∷ (message "load" 2, "20") ∷ []

serve-answers_example :
    let (r, s') = serve hooks (λ b. b) (λ b. b) messages registered in
    (r ≡ ok tt)
    × (s'.calls ≡ registered.calls ++ answers hooks (λ b. b) (λ b. b) str_append "db" messages)
serve-answers_example =
    serve-answers hooks (λ b. b) (λ b. b) str_append messages registered responds
