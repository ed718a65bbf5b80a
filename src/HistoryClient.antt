-- ===== src/HistoryClient.antt =====
-- include/metricq/history_client.hpp and src/history_client.cpp: a client that asks for the history of
-- metrics. `A` are addresses of servers: `derive` is `Connection::derive_address`, and `same` compares
-- two of them. `V` is the type of the values. What is asked of the AMQP library is kept in `calls`;
-- the channel is there as soon as the connection is. Logging is left out.
pub mod Config
mod Tests
use metricq_cpp.Prelude.{
  ℕ, ltb, Bool, true, false, not, ◌&&◌, List, [], ◌∷◌, ◌++◌, Option, none, some, String, str_eq,
  str_append, length, if◌then◌else◌,
}
use metricq_cpp.Prelude.Int.{ℤ}
use metricq_cpp.Prelude.Outcome.{
  Result, ok, err, assertion, aborted, Action, ◌>>=◌, ◌>>◌, skip, raise, lift, gets, modify, when,
  assert, bind,
}
use metricq_cpp.Json.{Json, entry, entry_text}
use metricq_cpp.History.{HistoryResponse}

-- `HistoryRequest`, with the only type of request that is sent.
pub record HistoryRequest : Type 0 where
  pub start_time : ℤ
  pub end_time : ℤ
  pub interval_max : ℤ

pub record Envelope : Type 0 where
  pub payload : String
  pub correlation_id : String
  pub content_type : String
  pub reply_to : String

pub data Call : Type 0 where
  opens_connection : Call
  declares consumes : String → Call
  publishes : String → String → Envelope → Call
  acks : ℕ → Call
  closes_history closes_management : Call

pub record Message : Type 0 where
  pub body : String
  pub correlation_id : String
  pub delivery_tag : ℕ

pub record HistoryClient (A V : Type 0) : Type 0 where
  pub token : String
  -- The address of the history connection, once there is one.
  pub data_server_address : Option A
  pub history_exchange : String
  pub history_queue : String
  pub history_response : HistoryResponse V
  pub calls : List Call

-- The methods that a subclass defines: for values, for aggregates, for errors, and for the answer to
-- the registration. The two views are the response itself.
pub record Hooks (j : Json) (A V : Type 0) : Type 0 where
  pub on_values : String → HistoryResponse V → Action (HistoryClient A V) (Unit {0})
  pub on_aggregates : String → HistoryResponse V → Action (HistoryClient A V) (Unit {0})
  pub on_error : String → String → Action (HistoryClient A V) (Unit {0})
  pub on_history_config : j.Value → Action (HistoryClient A V) (Unit {0})
  pub on_history_ready : Action (HistoryClient A V) (Unit {0})

module _ {A V : Type 0} where
  abbrev pub call : Call → HistoryClient A V → HistoryClient A V
  call c s = record s { calls = s.calls ++ c ∷ [] }

  unfoldable pub setup_history_queue : Action (HistoryClient A V) (Unit {0})
  setup_history_queue s = elim s.data_server_address [
    | none ↦ raise assertion s
    | some address ↦ (ok tt, call (declares s.history_queue) s)
  ]

  -- Once the queue `name` is declared.
  unfoldable pub setup_history_consumer : String → Action (HistoryClient A V) (Unit {0})
  setup_history_consumer name = modify (call (consumes name))

  -- `serialize` is `SerializeAsString`, and `uuid` the text that `uuid()` makes.
  unfoldable pub history_request :
      (HistoryRequest → String) → String → ℤ → ℤ → ℤ → String → Action (HistoryClient A V) String
  history_request serialize id begin stop interval uuid s =
      let correlation_id =
        str_append (str_append (str_append "metricq-history-" s.token) "-") uuid in
      let request : HistoryRequest = record {
        start_time = begin;
        end_time = stop;
        interval_max = interval;
      } in
      (
        ok correlation_id,
        call
            (publishes s.history_exchange id (record {
              payload = serialize request;
              correlation_id = correlation_id;
              content_type = "application/json";
              reply_to = s.history_queue;
            }))
            s,
      )

  -- `close()`: the management connection is closed once the history connection is.
  unfoldable pub close : Action (HistoryClient A V) (Unit {0})
  close s = elim s.data_server_address [
    | none ↦ (ok tt, call closes_management s)
    | some address ↦ (ok tt, call closes_history s)
  ]

  -- The callback that `close` gives to the history connection.
  unfoldable pub history_closed : Action (HistoryClient A V) (Unit {0})
  history_closed = modify (call closes_management)

  -- The exchange must not change once it is known.
  unfoldable pub use_exchange : String → Action (HistoryClient A V) (Unit {0})
  use_exchange exchange s =
      if not (str_eq s.history_exchange "") && not (str_eq exchange s.history_exchange)
      then (err aborted, s)
      else (ok tt, record s { history_exchange = exchange })

  unfoldable pub use_queue : String → Action (HistoryClient A V) (Unit {0})
  use_queue queue = modify (λ s. record s { history_queue = queue })

  -- The connection is opened once, and a second address must be the same.
  unfoldable pub use_address : (A → A → Bool) → A → Action (HistoryClient A V) (Unit {0})
  use_address same address s = elim s.data_server_address [
    | some old ↦ if same address old then (ok tt, s) else (err aborted, s)
    | none ↦ (ok tt, call opens_connection (record s { data_server_address = some address }))
  ]

  unfoldable pub keep_response : HistoryResponse V → Action (HistoryClient A V) (Unit {0})
  keep_response response = modify (λ s. record s { history_response = response })

  unfoldable pub acknowledge : ℕ → Action (HistoryClient A V) (Unit {0})
  acknowledge tag = modify (call (acks tag))

module _ (j : Json) {A V : Type 0} (derive : String → Result A) (same : A → A → Bool) where
  open j use {Value}

  unfoldable pub history_config : Value → Action (HistoryClient A V) (Unit {0})
  unfolding use_address
  history_config config =
      lift (bind (entry_text j config "dataServerAddress") derive) >>= use_address same

module _ {j : Json} {A V : Type 0} (hooks : Hooks j A V) where
  open j use {Value}

  -- The rest of `config` once the queue is known.
  unfoldable pub start : Value → Action (HistoryClient A V) (Unit {0})
  unfolding setup_history_queue
  start answer = do
    settings ← lift (entry j answer "config")
    hooks.on_history_config settings
    setup_history_queue
    hooks.on_history_ready

  unfoldable pub config :
      (String → Result A) → (A → A → Bool) → Value → Action (HistoryClient A V) (Unit {0})
  unfolding history_config use_exchange use_queue start
  config derive same answer =
      history_config j derive same answer
      >> (lift (entry_text j answer "historyExchange") >>= use_exchange)
      >> (lift (entry_text j answer "historyQueue") >>= use_queue)
      >> start answer

  -- `on_history_response(id, response)`
  unfoldable pub dispatch : String → HistoryResponse V → Action (HistoryClient A V) (Unit {0})
  dispatch id response =
      if not (str_eq response.error "")
      then hooks.on_error id response.error
      else if ltb 0 (length response.value)
      then hooks.on_values id response
      else hooks.on_aggregates id response

  -- The handler of a message on the history queue. `parse` is what `ParseFromString` leaves in an
  -- empty response.
  unfoldable pub on_message :
      (String → HistoryResponse V) → Message → Action (HistoryClient A V) (Unit {0})
  unfolding dispatch keep_response acknowledge
  on_message parse message =
      keep_response (parse message.body)
      >> dispatch message.correlation_id (parse message.body)
      >> acknowledge message.delivery_tag
