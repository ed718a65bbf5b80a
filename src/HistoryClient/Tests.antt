-- ===== src/HistoryClient/Tests.antt =====
-- A history client of src/history_client.cpp over a small JSON library, and the theorems at it.
use metricq_cpp.Prelude.{ℕ, ◌≡◌, refl, List, [], ◌∷◌, none, some, String, str_eq}
use metricq_cpp.Prelude.Int.{pos}
use metricq_cpp.Prelude.Outcome.{ok, err, aborted, Action}
use metricq_cpp.Json.Tree.{Tree, text, object, field, end}
use metricq_cpp.Json.Sample.{sample}
use metricq_cpp.History.{HistoryResponse}
use metricq_cpp.HistoryClient.{
  HistoryClient, Hooks, Message, HistoryRequest, Call, opens_connection, declares, consumes, call,
  config,
}
use metricq_cpp.HistoryClient.Config.{
  Fixed, LeavesSettings, Event, answers, queue_declared, arrives, requests, closing, closed, course,
  course-Fixed, same-Relates,
}

abbrev Client : Type 0
Client = HistoryClient String ℕ

abbrev empty : HistoryResponse ℕ
empty = record {
  metric = "";
  time_delta = [];
  value_min = [];
  value_max = [];
  value_avg = [];
  aggregate = [];
  value = [];
  error = "";
}

abbrev fresh : Client
fresh = record {
  token = "me";
  data_server_address = none;
  history_exchange = "";
  history_queue = "";
  history_response = empty;
  calls = [];
}

-- Each method leaves a call of its own.
abbrev does : Call → Action Client (Unit {0})
does c s = (ok tt, call c s)

abbrev hooks : Hooks sample String ℕ
hooks = record {
  on_values = λ id r. does (consumes "values");
  on_aggregates = λ id r. does (consumes "aggregates");
  on_error = λ id error. does (consumes error);
  on_history_config = λ v. does (consumes "config");
  on_history_ready = does (consumes "ready");
}

abbrev parse : String → HistoryResponse ℕ
parse body = record empty { error = body }

abbrev serialize : HistoryRequest → String
serialize r = "request"

abbrev answer : String → Tree
answer exchange = object (
    field "dataServerAddress" (text "server") (
      field "historyExchange" (text exchange)
        (field "historyQueue" (text "queue") (field "config" (object end) end))))

abbrev configured : Client
configured = record fresh {
  data_server_address = some "server";
  history_exchange = "history";
  history_queue = "queue";
  calls = opens_connection ∷ consumes "config" ∷ declares "queue" ∷ consumes "ready" ∷ [];
}

config-fresh : config hooks ok str_eq (answer "history") fresh ≡ (ok tt, configured)
unfolding config
config-fresh = refl

-- Another exchange ends the process.
config-other : config hooks ok str_eq (answer "other") configured ≡ (err aborted, configured)
unfolding config
config-other = refl

hooks-LeavesSettings : LeavesSettings hooks
hooks-LeavesSettings = record {
  on_values = λ id r. same-Relates (does (consumes "values")) (λ s. (refl, refl));
  on_aggregates = λ id r. same-Relates (does (consumes "aggregates")) (λ s. (refl, refl));
  on_error = λ id error. same-Relates (does (consumes error)) (λ s. (refl, refl));
  on_history_config = λ v. same-Relates (does (consumes "config")) (λ s. (refl, refl));
  on_history_ready = same-Relates (does (consumes "ready")) (λ s. (refl, refl));
}

abbrev message : String → Message
message body = record { body = body; correlation_id = "id"; delivery_tag = 4 }

abbrev events : List (Event Tree)
events =
    answers (answer "other")
    ∷ queue_declared "queue"
    ∷ arrives (message "")
    ∷ requests "power" (pos 0) (pos 10) (pos 1) "1"
    ∷ closing
    ∷ closed
    ∷ []

course-Fixed_example : Fixed configured (course hooks ok str_eq parse serialize events configured)
course-Fixed_example =
    course-Fixed hooks hooks-LeavesSettings ok str_eq parse serialize events configured
