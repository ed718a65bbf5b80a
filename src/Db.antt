-- ===== src/Db.antt =====
-- include/metricq/db.hpp and src/db.cpp: a database is a sink that answers requests for the history of
-- metrics. `Q` are the requests and `P` the responses. What its sink asks of the AMQP library is passed
-- on to `calls` in its order. Logging is left out.
pub mod Answers
mod Tests
use metricq_cpp.Prelude.{
  ℕ, Bool, true, false, not, ◌||◌, List, [], ◌∷◌, ◌++◌, map, Option, none, some, String, str_eq,
  if◌then◌else◌,
}
use metricq_cpp.Prelude.Outcome.{
  Result, ok, err, runtime_error, assertion, Action, ◌>>=◌, ◌>>◌, skip, lift, raise, gets, modify,
  when,
}
use metricq_cpp.Json.{Json, entry_text}
use metricq_cpp.Sink
use metricq_cpp.Sink.{Sink, sink_config, subscribe}

pub record Envelope : Type 0 where
  pub payload : String
  -- The header "x-request-duration".
  pub duration : String
  pub correlation_id : String
  pub app_id : String
  pub content_type : String

pub data Call (Value : Type 0) : Type 0 where
  from_sink : Sink.Call → Call Value
  registers : Call Value
  -- "db.subscribe" for metrics, without their metadata.
  subscribes : Value → Call Value
  declares consumes : String → Call Value
  publishes : String → String → Envelope → Call Value
  acks : ℕ → Call Value

pub record Message : Type 0 where
  pub routingkey : String
  pub body : String
  pub correlation_id : String
  pub reply_to : String
  pub delivery_tag : ℕ

pub record Db (j : Json) (A V Q : Type 0) : Type 0 where
  pub sink : Sink j A V
  pub token : String
  pub history_queue : String
  pub history_request : Option Q
  pub calls : List (Call j.Value)

-- The methods that a subclass defines.
pub record Hooks (j : Json) (A V Q P : Type 0) : Type 0 where
  pub on_history : String → Q → Action (Db j A V Q) P
  pub on_db_config : j.Value → Action (Db j A V Q) j.Value
  pub on_db_ready : Action (Db j A V Q) (Unit {0})

-- Whether an entry of the answer is another text. A text differs from JSON that is no text.
abbrev pub differs : (j : Json) → String → j.Value → String → Result Bool
differs j queue response key = elim (j.at response key) [
  | err e ↦ err e
  | ok entry ↦ ok (elim (j.get_string entry) [ ok name ↦ not (str_eq queue name) | err e ↦ true ])
]

module _ {j : Json} {A V Q : Type 0} where
  open j use {Value}

  abbrev pub call : Call Value → Db j A V Q → Db j A V Q
  call c s = record s { calls = s.calls ++ c ∷ [] }

  -- A method of the sink, called on the database; the new calls of the sink are passed on.
  abbrev pub on_sink : {B : Type 0} → Action (Sink j A V) B → Action (Db j A V Q) B
  on_sink m s =
      let (r, sink) = m s.sink in
      (
        r,
        record s { sink = record sink { calls = [] }; calls = s.calls ++ map from_sink sink.calls },
      )

  -- The data channel is there as soon as the data connection is.
  unfoldable pub setup_history_queue : Action (Db j A V Q) (Unit {0})
  setup_history_queue s = elim s.sink.data_server_address [
    | none ↦ raise assertion s
    | some address ↦ (ok tt, call (declares s.history_queue) s)
  ]

  -- Once the queue `name` is declared; other consumers are only logged.
  unfoldable pub history_queue_declared : String → Action (Db j A V Q) (Unit {0})
  history_queue_declared name = modify (call (consumes name))

  unfoldable pub on_connected : Action (Db j A V Q) (Unit {0})
  on_connected = modify (call registers)

  unfoldable pub db_subscribe : Value → Action (Db j A V Q) (Unit {0})
  db_subscribe metrics = modify (call (subscribes metrics))

  -- The callback that `db_subscribe` gives to `rpc` for the answer; the second entry is read only where
  -- the first one is as it should be.
  unfoldable pub subscribed : Value → Action (Db j A V Q) (Unit {0})
  subscribed response = do
    queue ← gets (λ s. s.sink.data_queue)
    history ← gets (λ s. s.history_queue)
    when (str_eq queue "" || str_eq history "")
        (raise (runtime_error "data_queue or history_queue empty upon db.subscribe return"))
    other ← lift (differs j queue response "dataQueue")
    other' ← (if other then lift (ok true) else lift (differs j history response "historyQueue"))
    when other' (raise (runtime_error "inconsistent dataQueue or historyQueue from db.subscribe"))

  module _ {P : Type 0} (hooks : Hooks j A V Q P) where
    -- The function "config" that others call, up to the empty object that it answers; `strings` is the
    -- conversion to a `std::vector<std::string>`.
    unfoldable pub on_config :
        (Value → Result (List String)) → Value → Action (Db j A V Q) (Unit {0})
    unfolding subscribe
    on_config strings config = do
      subscribe_metrics ← hooks.on_db_config config
      metrics ← lift (strings subscribe_metrics)
      on_sink (subscribe metrics)

    -- The configuration is taken for a text here.
    unfoldable pub on_register_response :
        (String → Result A) → (A → A → Bool) → Value → Action (Db j A V Q) (Unit {0})
    unfolding sink_config db_subscribe setup_history_queue
    on_register_response derive same response = do
      on_sink (sink_config derive same response)
      queue ← lift (entry_text j response "historyQueue")
      modify (λ s. record s { history_queue = queue })
      config ← lift (entry_text j response "config")
      subscribe_metrics ← hooks.on_db_config (j.text config)
      db_subscribe subscribe_metrics
      setup_history_queue
      hooks.on_db_ready

    -- `on_history(message)`: `parse` is what `ParseFromString` leaves in an empty request, `serialize`
    -- is `SerializeAsString`, and `duration` the text of the time that the request has taken.
    unfoldable pub on_history :
        (String → Q) → (P → String) → Message → String → Action (Db j A V Q) (Unit {0})
    on_history parse serialize message duration = do
      modify (λ s. record s { history_request = some (parse message.body) })
      response ← hooks.on_history message.routingkey (parse message.body)
      token ← gets (λ s. s.token)
      modify (
          call (
            publishes "" message.reply_to (record {
              payload = serialize response;
              duration = duration;
              correlation_id = message.correlation_id;
              app_id = token;
              content_type = "application/json";
            })))

    -- The handler of a message on the history queue.
    unfoldable pub on_history_message :
        (String → Q) → (P → String) → Message → String → Action (Db j A V Q) (Unit {0})
    unfolding on_history
    on_history_message parse serialize message duration =
        on_history parse serialize message duration >> modify (call (acks message.delivery_tag))
