-- ===== src/Rpc.antt =====
-- The remote procedure calls of `Connection`: src/connection.cpp, include/metricq/connection.hpp. The maps of callbacks are association lists. A
-- callback is a value of a type `K`, and `Client` says what it does when it is called: it acts on
-- the connection, since it may start another call or stop. What goes to the AMQP library is kept in
-- `events`, in its order. Logging is left out.
pub mod Acknowledge
pub mod Respond
pub mod Register
pub mod Keeps
pub mod Timeouts
mod Tests
use metricq_cpp.Prelude.{
  ℕ, Bool, true, false, not, List, [], ◌∷◌, ◌++◌, map, Option, none, some, String, str_eq,
  str_append, if◌then◌else◌,
}
use metricq_cpp.Prelude.Int.{ℤ, pos, eqb_ℤ}
use metricq_cpp.Prelude.Outcome.{
  Result, ok, err, Failure, invalid_argument, runtime_error, logic_error, dangling, out_of_range,
  type_error, parse_error, rpc_error, Action, ◌>>=◌, ◌>>◌, skip, raise, lift, gets, or_raise,
  modify, when, assert,
}
use metricq_cpp.FinalAction.{Scoped, invoke, finally, inside}
use metricq_cpp.Json.{Json}
use metricq_cpp.Timer.{ErrorCode, operation_aborted, to_microseconds}
use metricq_cpp.Table.{lookup, insert_new, erase, update, contains}

pub record Message : Type 0 where
  pub body : String
  pub correlation_id : String
  pub reply_to : String

pub record Envelope : Type 0 where
  pub payload : String
  pub correlation_id : String
  pub app_id : String
  pub content_type : String
  pub reply_to : String

-- What a connection has asked of the AMQP library or told its own subclass, in order.
pub data Event : Type 0 where
  published : String → String → Envelope → Event
  acked : ℕ → Event
  closing : Event
  closed_hook : Event

-- `RPCResponseGuard`: a callback whose timeout is armed until the response has come.
pub record Guard (K : Type 0) : Type 0 where
  pub callback : K
  pub armed : Bool

-- `R` are the callbacks for responses, `F` those for functions that others call.
pub record Connection (R F : Type 0) : Type 0 where
  pub token : String
  pub client_queue : String
  pub connected : Bool
  pub rpc_callbacks : List (String × F)
  pub rpc_response_callbacks : List (String × Guard R)
  pub events : List Event

-- What a callback does.
pub record Client (j : Json) (R F : Type 0) : Type 0 where
  pub on_response : R → j.Value → Action (Connection R F) (Unit {0})
  pub on_call : F → j.Value → Action (Connection R F) j.Value

-- Which failures are exceptions that derive from `std::exception`.
abbrev pub is_exception : Failure → Bool
is_exception (runtime_error s) = true
is_exception (invalid_argument s) = true
is_exception (logic_error s) = true
is_exception out_of_range = true
is_exception type_error = true
is_exception parse_error = true
is_exception rpc_error = true
is_exception _ = false

-- The `catch` clauses round a callback, which all throw an `RPCError`.
abbrev pub as_rpc_error : {S A : Type 0} → Action S A → Action S A
as_rpc_error m s =
    let (r, s') = m s in
    elim r [ ok x ↦ (ok x, s') | err e ↦ (err (if is_exception e then rpc_error else e), s') ]

module _ {R F : Type 0} where
  abbrev pub emit : Event → Connection R F → Connection R F
  emit e c = record c { events = c.events ++ e ∷ [] }

  -- `close()`; with no connection `on_closed()` of the subclass is called at once.
  unfoldable pub close : Action (Connection R F) (Unit {0})
  close c = if c.connected then (ok tt, emit closing c) else (ok tt, emit closed_hook c)

  -- `stop()`
  unfoldable pub stop : Action (Connection R F) (Unit {0})
  unfolding close
  stop = close

  unfoldable pub register_rpc_callback : String → F → Action (Connection R F) (Unit {0})
  register_rpc_callback function callback = do
    callbacks ← gets (λ c. c.rpc_callbacks)
    callbacks' ←
        or_raise (insert_new function callback callbacks)
          (invalid_argument "trying to register RPC callback that is already registered")
    modify (λ c. record c { rpc_callbacks = callbacks' })

  -- The guard is made before the map is asked for its key, and its timer refuses a timeout of less
  -- than a microsecond.
  unfoldable pub register_rpc_response_callback :
      String → R → ℤ → Action (Connection R F) (Unit {0})
  register_rpc_response_callback correlation_id callback timeout = do
    when (eqb_ℤ (to_microseconds timeout) (pos 0))
        (raise (invalid_argument "metricq::Timer doesn't support sub-microseconds intervals."))
    callbacks ← gets (λ c. c.rpc_response_callbacks)
    callbacks' ←
        or_raise
          (insert_new correlation_id (record { callback = callback; armed = true }) callbacks)
          (invalid_argument "trying to register RPC response callback that is already registered")
    modify (λ c. record c { rpc_response_callbacks = callbacks' })

module _ (j : Json) where
  open j use {Value}

  unfoldable pub prepare_message : String → Value → Result String
  prepare_message function payload =
      if j.contains payload "function"
      then err (invalid_argument "Function was already set in payload.")
      else elim (j.put payload "function" (j.text function)) [
        | ok payload' ↦ ok (j.dump payload')
        | err e ↦ err e
      ]

abbrev pub correlation_id_of : String → String → String
correlation_id_of token uuid = str_append (str_append (str_append "metricq-rpc-" token) "-") uuid

module _ (j : Json) {R F : Type 0} where
  open j use {Value}

  -- `uuid` is the text that `uuid()` makes from random numbers.
  unfoldable pub prepare_rpc_envelope : String → String → Action (Connection R F) Envelope
  prepare_rpc_envelope message uuid = do
    c ← gets (λ c'. c')
    assert (not (str_eq c.client_queue ""))
    lift (
        ok (record {
          payload = message;
          correlation_id = correlation_id_of c.token uuid;
          app_id = c.token;
          content_type = "application/json";
          reply_to = c.client_queue;
        }))

  unfoldable pub rpc : String → R → Value → ℤ → String → Action (Connection R F) (Unit {0})
  unfolding prepare_message prepare_rpc_envelope register_rpc_response_callback
  rpc function callback payload timeout uuid = do
    message ← lift (prepare_message j function payload)
    envelope ← prepare_rpc_envelope message uuid
    register_rpc_response_callback envelope.correlation_id callback timeout
    modify (emit (published "metricq.management" function envelope))

module _ (j : Json) {R F : Type 0} (client : Client j R F) where
  open j use {Value}

  abbrev pub disarm : String → Guard R → Connection R F → Connection R F
  disarm id guard c = record c {
    rpc_response_callbacks = update id (record guard { armed = false }) c.rpc_response_callbacks;
  }

  -- `RPCResponseGuard::operator()` of the entry of an id: its timer is cancelled, and then the
  -- callback is called.
  unfoldable pub call_guard : String → Guard R → Value → Action (Connection R F) (Unit {0})
  call_guard id guard content = do
    modify (disarm id guard)
    client.on_response guard.callback content

  -- `RPCResponseGuard::on_timeout`
  unfoldable pub on_timeout : Action (Connection R F) (Unit {0})
  on_timeout = raise (runtime_error "Timeout during RPC")

  -- The handler of the wait of the timer of an id, as `timer_callback` runs it: a wait that was aborted
  -- does nothing. One that has expired runs also where the timer has been cancelled since, and where the
  -- entry is gone, on a guard that has been destroyed.
  unfoldable pub wait_over : ErrorCode → String → Action (Connection R F) (Unit {0})
  unfolding on_timeout
  wait_over operation_aborted id c = (ok tt, c)
  wait_over error id c = elim (lookup id c.rpc_response_callbacks) [
    | none ↦ (err dangling, c)
    | some guard ↦ on_timeout c
  ]

  unfoldable pub clear_responses : Action (Connection R F) (Unit {0})
  clear_responses = modify (λ c. record c { rpc_response_callbacks = [] })

  -- The entry is searched for again, since the callback may have changed the map.
  unfoldable pub erase_response : String → Action (Connection R F) (Unit {0})
  erase_response id c =
      if contains id c.rpc_response_callbacks
      then (ok tt, record c { rpc_response_callbacks = erase id c.rpc_response_callbacks })
      else (err rpc_error, c)

  -- The rest of the handler once a response with an error has been logged.
  unfoldable pub give_up : ℕ → Action (Scoped (Connection R F)) (Unit {0})
  unfolding invoke stop clear_responses
  give_up tag = do invoke (emit (acked tag)); inside clear_responses; inside stop

  -- A message that answers a call of ours.
  unfoldable pub handle_response :
      ℕ → String → Guard R → Value → Action (Scoped (Connection R F)) (Unit {0})
  unfolding call_guard erase_response give_up
  handle_response tag id guard content =
      if j.contains content "error"
      then (do
        entry ← lift (j.at content "error")
        message ← lift (j.get_string entry)
        give_up tag)
      else (do inside (as_rpc_error (call_guard id guard content)); inside (erase_response id))

  -- The reply to a function that was called.
  abbrev pub reply : Message → Value → Connection R F → Connection R F
  reply message response c =
      emit
        (published "" message.reply_to (record {
          payload = j.dump response;
          correlation_id = message.correlation_id;
          app_id = c.token;
          content_type = "application/json";
          reply_to = "";
        }))
        c

  unfoldable pub answer : Message → F → Value → Action (Connection R F) (Unit {0})
  answer message callback content =
      as_rpc_error (do response ← client.on_call callback content; modify (reply message response))

  unfoldable pub call_function :
      Message → Value → String → Action (Scoped (Connection R F)) (Unit {0})
  unfolding answer
  call_function message content function s = elim (lookup function s.object.rpc_callbacks) [
    | none ↦ (ok tt, s)
    | some callback ↦ inside (answer message callback content) s
  ]

  -- A message that is no answer: a call of one of our functions, or one that is ignored.
  unfoldable pub handle_call : Message → Value → Action (Scoped (Connection R F)) (Unit {0})
  unfolding call_function
  handle_call message content = if not (j.contains content "function") then skip else (do
    entry ← lift (j.at content "function")
    function ← lift (j.get_string entry)
    call_function message content function)

  unfoldable pub dispatch : ℕ → Message → Value → Action (Scoped (Connection R F)) (Unit {0})
  unfolding handle_response handle_call
  dispatch tag message content s =
      elim (lookup message.correlation_id s.object.rpc_response_callbacks) [
        | some guard ↦ handle_response tag message.correlation_id guard content s
        | none ↦ handle_call message content s
      ]

  unfoldable pub handle_management_message : Message → ℕ → Action (Connection R F) (Unit {0})
  unfolding finally dispatch
  handle_management_message message tag = do
    content ← or_raise (j.parse message.body) parse_error
    finally (emit (acked tag)) (dispatch tag message content)
