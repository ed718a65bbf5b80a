-- ===== src/HistoryClient/Config.antt =====
-- The configuration of a history client, src/history_client.cpp, in any course of events.
use metricq_cpp.Prelude.{
  ◌≡◌, refl, ◌∙◌, Bool, false, not, List, [], ◌∷◌, some, String, str_eq, ltb, length, arith, eq_iff,
}
use metricq_cpp.Prelude.Int.{ℤ}
use metricq_cpp.Prelude.Outcome.{Result, Action, lift}
use metricq_cpp.Prelude.Relates.{
  IsPreorder, Relates, >>=-Relates, >>-Relates, lift-Relates, if-Relates,
}
use metricq_cpp.Json.{Json, entry}
use metricq_cpp.History.{HistoryResponse}
use metricq_cpp.HistoryClient.{
  HistoryClient, HistoryRequest, Message, Hooks, setup_history_queue, setup_history_consumer,
  history_request, close, history_closed, use_exchange, use_queue, use_address, history_config,
  start, config, dispatch, on_message, keep_response, acknowledge,
}

-- What happens to a client: an answer to its registration, a declared queue, a message, a request,
-- the call of `close`, and the end of the history connection.
pub data Event (Value : Type 0) : Type 0 where
  answers : Value → Event Value
  queue_declared : String → Event Value
  arrives : Message → Event Value
  requests : String → ℤ → ℤ → ℤ → String → Event Value
  closing closed : Event Value

module _ {A V : Type 0} where
  -- The exchange and the address of the connection stay as they are once they are known.
  pub record Fixed (s s' : HistoryClient A V) : Type 0 where
    pub exchange : str_eq s.history_exchange "" ≡ false → s'.history_exchange ≡ s.history_exchange
    pub address : (a : A) → s.data_server_address ≡ some a → s'.data_server_address ≡ some a

  Fixed-IsPreorder : IsPreorder Fixed
  Fixed-IsPreorder = record {
    refl_of = λ s. record { exchange = λ h. refl; address = λ a h. h };
    trans_of = λ s s' s'' f g. record {
      exchange = λ h. ground (arith, f.exchange h, g.exchange);
      address = λ a h. g.address a (f.address a h);
    };
  }

  -- A call that leaves both as they are.
  pub same-Relates :
      {B : Type 0} (m : Action (HistoryClient A V) B)
      → ((s : HistoryClient A V)
          → ((m s).1.history_exchange ≡ s.history_exchange)
            × ((m s).1.data_server_address ≡ s.data_server_address))
      → Relates Fixed m
  same-Relates m same = record {
    relates = λ s. record { exchange = λ h. (same s).0; address = λ a h. (same s).1 ∙ h };
  }

  use_exchange-Relates : (exchange : String) → Relates Fixed (use_exchange exchange)
  unfolding use_exchange
  use_exchange-Relates exchange = record {
    relates = λ s. record {
      exchange = λ h. ground (arith, eq_iff exchange s.history_exchange);
      address = λ a h. ground arith;
    };
  }

  use_address-Relates :
      (same : A → A → Bool) (address : A) → Relates Fixed (use_address same address)
  unfolding use_address
  use_address-Relates same address = record {
    relates = λ s. record { exchange = λ h. ground arith; address = λ a h. ground arith };
  }

  setup_history_queue-Relates : Relates Fixed setup_history_queue
  unfolding setup_history_queue
  setup_history_queue-Relates = record {
    relates = λ s. record { exchange = λ h. ground arith; address = λ a h. ground arith };
  }

  close-Relates : Relates Fixed close
  unfolding close
  close-Relates = record {
    relates = λ s. record { exchange = λ h. ground arith; address = λ a h. ground arith };
  }

-- The methods of the subclass leave the exchange and the address alone.
pub record LeavesSettings {j : Json} {A V : Type 0} (hooks : Hooks j A V) : Type 0 where
  pub on_values : (id : String) (r : HistoryResponse V) → Relates Fixed (hooks.on_values id r)
  pub on_aggregates :
      (id : String) (r : HistoryResponse V) → Relates Fixed (hooks.on_aggregates id r)
  pub on_error : (id error : String) → Relates Fixed (hooks.on_error id error)
  pub on_history_config : (v : j.Value) → Relates Fixed (hooks.on_history_config v)
  pub on_history_ready : Relates Fixed hooks.on_history_ready

module _ {j : Json} {A V : Type 0} (hooks : Hooks j A V) (derive : String → Result A)
    (same : A → A → Bool) (parse : String → HistoryResponse V)
    (serialize : HistoryRequest → String) where
  abbrev pub react : Event j.Value → HistoryClient A V → HistoryClient A V
  react (answers answer) s = (config hooks derive same answer s).1
  react (queue_declared name) s = (setup_history_consumer name s).1
  react (arrives message) s = (on_message hooks parse message s).1
  react (requests id begin stop interval uuid) s =
      (history_request serialize id begin stop interval uuid s).1
  react closing s = (close s).1
  react closed s = (history_closed s).1

  abbrev pub course : List (Event j.Value) → HistoryClient A V → HistoryClient A V
  course [] s = s
  course (e ∷ es) s = course es (react e s)

module _ {j : Json} {A V : Type 0} (hooks : Hooks j A V) (leaves : LeavesSettings hooks) where
  open j use {Value}

  start-Relates : (answer : Value) → Relates Fixed (start hooks answer)
  unfolding start
  start-Relates answer =
      >>=-Relates Fixed-IsPreorder (lift (entry j answer "config")) _
        (lift-Relates Fixed-IsPreorder (entry j answer "config"))
        (λ settings.
          >>-Relates Fixed-IsPreorder (hooks.on_history_config settings) _
            (leaves.on_history_config settings)
            (>>-Relates Fixed-IsPreorder setup_history_queue hooks.on_history_ready
              setup_history_queue-Relates leaves.on_history_ready))

  config-Relates :
      (derive : String → Result A) (same : A → A → Bool) (answer : Value)
      → Relates Fixed (config hooks derive same answer)
  unfolding config history_config use_queue
  config-Relates derive same answer =
      let p = Fixed-IsPreorder in
      >>-Relates p _ (start hooks answer)
        (>>-Relates p _ _
          (>>-Relates p _ _
            (>>=-Relates p _ (use_address same) (lift-Relates p _) (use_address-Relates same))
            (>>=-Relates p _ use_exchange (lift-Relates p _) use_exchange-Relates))
          (>>=-Relates p _ use_queue (lift-Relates p _)
            (λ queue. same-Relates (use_queue queue) (λ s. (refl, refl)))))
        (start-Relates answer)

  dispatch-Relates :
      (id : String) (response : HistoryResponse V) → Relates Fixed (dispatch hooks id response)
  unfolding dispatch
  dispatch-Relates id response =
      if-Relates (not (str_eq response.error "")) _ _ (leaves.on_error id response.error) (
        if-Relates (ltb 0 (length response.value)) _ _ (leaves.on_values id response)
          (leaves.on_aggregates id response))

  on_message-Relates :
      (parse : String → HistoryResponse V) (message : Message)
      → Relates Fixed (on_message hooks parse message)
  unfolding on_message
  on_message-Relates parse message =
      let p = Fixed-IsPreorder in
      let response = parse message.body in
      >>-Relates p _ (acknowledge message.delivery_tag)
        (>>-Relates p (keep_response response) (dispatch hooks message.correlation_id response)
          (same-Relates (keep_response response) (λ s. (refl, refl)))
          (dispatch-Relates message.correlation_id response))
        (same-Relates (acknowledge message.delivery_tag) (λ s. (refl, refl)))

  module _ (derive : String → Result A) (same : A → A → Bool) (parse : String → HistoryResponse V)
      (serialize : HistoryRequest → String) where
    react-Fixed :
        (e : Event j.Value) (s : HistoryClient A V)
        → Fixed s (react hooks derive same parse serialize e s)
    unfolding setup_history_consumer history_request history_closed
    react-Fixed (answers answer) s = (config-Relates derive same answer).relates s
    react-Fixed (queue_declared name) s =
        (same-Relates (setup_history_consumer name) (λ s. (refl, refl))).relates s
    react-Fixed (arrives message) s = (on_message-Relates parse message).relates s
    react-Fixed (requests id begin stop interval uuid) s = record {
      exchange = λ h. refl;
      address = λ a h. h;
    }
    react-Fixed closing s = close-Relates.relates s
    react-Fixed closed s = record { exchange = λ h. refl; address = λ a h. h }

    -- Where the methods of the subclass leave them alone: once a client knows its exchange and the
    -- address of its history connection, both stay as they are in any course of events, whether the
    -- calls succeed or fail.
    pub course-Fixed :
        (es : List (Event j.Value)) (s : HistoryClient A V)
        → Fixed s (course hooks derive same parse serialize es s)
    course-Fixed [] s = Fixed-IsPreorder.refl_of s
    course-Fixed (e ∷ es) s =
        Fixed-IsPreorder.trans_of s (react hooks derive same parse serialize e s)
          (course hooks derive same parse serialize es
            (react hooks derive same parse serialize e s))
          (react-Fixed e s) (course-Fixed es (react hooks derive same parse serialize e s))
