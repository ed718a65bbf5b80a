-- ===== src/Handler/State.antt =====
-- The state of a connection handler of src/connection_handler.hpp, and what it uses of the AMQP library.
use metricq_cpp.Prelude.{ℕ, Bool, true, false, List, Option, none, some, String}
use metricq_cpp.Prelude.Outcome.{Action}
use metricq_cpp.Buffer.{QueuedBuffer}

-- `PlainConnectionHandler` or `SSLConnectionHandler`.
pub data Transport : Type 0 where
  plain ssl : Transport

pub data Op : Type 0 where
  resolve_host connect_endpoints : Op
  ssl_handshake : String → Op
  read_some : ℕ → Op
  write_some : List ℕ → Op
  wait_heartbeat : ℕ → Op
  aborted_heartbeat : Op

-- A call of one of the callbacks that the owner of the connection has set.
pub data Notice : Type 0 where
  error_notice : String → Notice
  close_notice : Notice

-- How a background operation ends.
pub data Completion (A : Type 0) : Type 0 where
  success : A → Completion A
  operation_aborted : Completion A
  failed : String → Completion A

-- `C` is the state of an `AMQP::Connection`; intervals are in milliseconds.
pub record Handler (C : Type 0) : Type 0 where
  pub transport : Transport
  pub connection : Option C
  pub socket_open : Bool
  pub heartbeat_interval : ℕ
  pub recv_buffer : List ℕ
  pub send_buffers : QueuedBuffer
  pub flush_in_progress : Bool
  pub has_error_callback : Bool
  pub has_close_callback : Bool
  pub pending : List Op
  pub notices : List Notice
  -- Not in the source, and read by no method: what `onData` has been given so far.
  pub handed : List ℕ

pub record Amqp : Type 1 where
  pub C : Type 0
  pub expected : C → ℕ
  pub max_frame : C → ℕ
  pub parse : List ℕ → Action (Handler C) ℕ
  pub heartbeat : Action (Handler C) Bool
  pub shut : Action (Handler C) (Unit {0})
  pub fail : String → Action (Handler C) (Unit {0})

module _ {A : Type 0} where
  abbrev pub is_some : Option A → Bool
  is_some none = false
  is_some (some a) = true

abbrev pub abort_wait : Op → Op
abort_wait (wait_heartbeat ms) = aborted_heartbeat
abort_wait op = op
