-- ===== src/Handler.antt =====
-- `AsioConnectionHandler` and its two subclasses, of src/connection_handler.hpp and
-- src/connection_handler.cpp. An operation that asio runs in the background is an entry of
-- `pending` until it completes; its completion handler is a function here. The AMQP library is the
-- parameter `Amqp`: its methods may call the handler's callbacks, so they act on the handler.
-- Logging is left out.
mod State
pub mod Write
pub mod Library
pub mod Preserves
pub mod Keeps
pub mod Stream
pub mod Reach
pub mod Lifecycle
mod Tests
use metricq_cpp.Prelude.{
  ℕ, ◌+◌, ◌*◌, ◌/◌, ◌==◌, leb, Bool, true, false, not, ◌&&◌, ◌||◌, List, [], ◌∷◌, ◌++◌, map, Option,
  none, some, String, str_append, length, drop, if◌then◌else◌,
}
use metricq_cpp.Prelude.Outcome.{
  Result, ok, err, Failure, runtime_error, null_pointer, assertion, Action, ◌>>=◌, ◌>>◌, skip, pure,
  raise, lift, gets, or_raise, modify, when, assert,
}
pub use State.*
use metricq_cpp.Buffer.{QueuedBuffer, no_data, emplace, empty, front, consume}

module _ {C : Type 0} where
  abbrev pub submit : Op → Action (Handler C) (Unit {0})
  submit op = modify (λ h. record h { pending = h.pending ++ op ∷ [] })

  abbrev pub notify : Notice → Action (Handler C) (Unit {0})
  notify n = modify (λ h. record h { notices = h.notices ++ n ∷ [] })

  -- The constructors.
  unfoldable pub new : Transport → Handler C
  new transport = record {
    transport = transport;
    connection = none;
    socket_open = false;
    heartbeat_interval = 0;
    recv_buffer = [];
    send_buffers = no_data;
    flush_in_progress = false;
    has_error_callback = false;
    has_close_callback = false;
    pending = [];
    notices = [];
    handed = [];
  }

  -- `heartbeat_timer_.expires_after` and `async_wait`
  abbrev pub schedule_beat : ℕ → Action (Handler C) (Unit {0})
  schedule_beat ms =
      modify (λ h. record h { pending = map abort_wait h.pending }) >> submit (wait_heartbeat ms)

  -- `async_write_some` of both subclasses
  unfoldable pub async_write_some : Action (Handler C) (Unit {0})
  async_write_some = do
    buffers ← gets (λ h. h.send_buffers)
    bytes ← lift (front buffers)
    submit (write_some bytes)

  abbrev pub cannot_flush : Handler C → Bool
  cannot_flush h = not h.socket_open || empty h.send_buffers || h.flush_in_progress

  unfoldable pub flush : Action (Handler C) (Unit {0})
  unfolding async_write_some
  flush = do
    idle ← gets cannot_flush
    when (not idle) (modify (λ h. record h { flush_in_progress = true }) >> async_write_some)

  -- Keeps account of what `onData` is given, for the theorems.
  abbrev pub record_given : List ℕ → Handler C → Handler C
  record_given bytes h = record h { handed = h.handed ++ bytes }

  unfoldable pub on_data : List ℕ → Action (Handler C) (Unit {0})
  on_data bytes = do
    modify (record_given bytes)
    modify (λ h. record h { send_buffers = emplace bytes h.send_buffers })
    flush

  unfoldable pub on_error : String → Action (Handler C) (Unit {0})
  on_error message = do
    told ← gets (λ h. h.has_error_callback)
    when told (notify (error_notice message))
    modify (λ h. record h { socket_open = false })
    raise (runtime_error (str_append "ConnectionHandler::onError: " message))

  unfoldable pub on_closed : Action (Handler C) (Unit {0})
  on_closed = do
    modify (λ h. record h { socket_open = false })
    modify (λ h. record h { pending = map abort_wait h.pending })
    modify (λ h. record h { connection = none })
    told ← gets (λ h. h.has_close_callback)
    when told (notify close_notice)

  -- The timeout of the server in seconds; the beat comes after half of it, in whole seconds.
  unfoldable pub on_negotiate : ℕ → Action (Handler C) ℕ
  on_negotiate timeout = do
    modify (λ h. record h { heartbeat_interval = timeout / 2 * 1000 })
    pure timeout

module _ (a : Amqp) where
  open a use {C, expected, max_frame, parse, heartbeat, shut, fail}

  -- `async_read_some` of both subclasses
  unfoldable pub read : Action (Handler C) (Unit {0})
  read = do
    connection ← gets (λ h. h.connection)
    c ← or_raise connection assertion
    submit (read_some (max_frame c * 32))

  -- `connection_->fail` where there is a connection, and then `onError`
  abbrev pub fail_with : String → String → Action (Handler C) (Unit {0})
  fail_with reason message = do
    connected ← gets (λ h. is_some h.connection)
    when connected (fail reason)
    on_error message

  -- The text of `asio::error::operation_aborted` is a library's; every error is handled alike.
  abbrev pub aborted_text : String
  aborted_text = "Operation canceled"

  unfoldable pub on_read : Completion (List ℕ) → Action (Handler C) (Unit {0})
  unfolding read
  on_read (failed reason) = fail_with reason "read failed"
  on_read operation_aborted = fail_with aborted_text "read failed"
  on_read (success received) = do
    connection ← gets (λ h. h.connection)
    c ← or_raise connection null_pointer
    modify (λ h. record h { recv_buffer = h.recv_buffer ++ received })
    buffered ← gets (λ h. h.recv_buffer)
    when (leb (expected c) (length buffered)) (do
      consumed ← parse buffered
      modify (λ h. record h { recv_buffer = drop consumed h.recv_buffer }))
    still_open ← gets (λ h. h.socket_open)
    when still_open read

  unfoldable pub on_written : Completion ℕ → Action (Handler C) (Unit {0})
  on_written (failed reason) = fail_with reason "write failed"
  on_written operation_aborted = fail_with aborted_text "write failed"
  on_written (success transferred) = do
    buffers ← gets (λ h. h.send_buffers)
    rest ← lift (consume transferred buffers)
    modify (λ h. record h { send_buffers = rest })
    interval ← gets (λ h. h.heartbeat_interval)
    still_open ← gets (λ h. h.socket_open)
    when (not (interval == 0) && still_open) (schedule_beat interval)
    modify (λ h. record h { flush_in_progress = false })
    flush

  unfoldable pub beat : Completion (Unit {0}) → Action (Handler C) (Unit {0})
  beat operation_aborted = skip
  beat (failed reason) = fail_with reason "heartbeat timer failed"
  beat (success _) = do
    connected ← gets (λ h. is_some h.connection)
    assert connected
    sent ← heartbeat
    when (not sent) (schedule_beat 1000)

  -- `connect(const AMQP::Address&)`; `c` is the new `AMQP::Connection` for the address.
  unfoldable pub connect : C → Action (Handler C) (Unit {0})
  connect c = do
    is_open ← gets (λ h. h.socket_open)
    assert (not is_open)
    connected ← gets (λ h. is_some h.connection)
    assert (not connected)
    modify (λ h. record h { connection = some c })
    submit resolve_host

  unfoldable pub on_resolved : Completion (Unit {0}) → Action (Handler C) (Unit {0})
  on_resolved (success _) = submit connect_endpoints
  on_resolved operation_aborted = on_error "resolve failed"
  on_resolved (failed reason) = on_error "resolve failed"

  -- What both handshakes end with.
  unfoldable pub begin_io : Action (Handler C) (Unit {0})
  unfolding read
  begin_io = read >> flush

  unfoldable pub handshake : Transport → String → Action (Handler C) (Unit {0})
  unfolding begin_io
  handshake plain hostname = begin_io
  handshake ssl hostname = submit (ssl_handshake hostname)

  -- The handler of `async_connect`, which has opened the socket where it succeeds.
  unfoldable pub on_connected : Completion String → Action (Handler C) (Unit {0})
  unfolding handshake
  on_connected (success hostname) = do
    modify (λ h. record h { socket_open = true })
    transport ← gets (λ h. h.transport)
    handshake transport hostname
  on_connected operation_aborted = on_error "Connect failed"
  on_connected (failed reason) = on_error "Connect failed"

  unfoldable pub on_handshake : Completion (Unit {0}) → Action (Handler C) (Unit {0})
  unfolding begin_io
  on_handshake (success _) = begin_io
  on_handshake operation_aborted = on_error "SSL handshake failed"
  on_handshake (failed reason) = on_error "SSL handshake failed"

  -- `close()`
  unfoldable pub close : Action (Handler C) Bool
  close h = elim h.connection [ none ↦ (ok false, h) | some c ↦ (shut >> pure true) h ]

  -- The setters of the two callbacks; a flag says whether one is there.
  unfoldable pub set_close_callback : Bool → Action (Handler C) (Unit {0})
  set_close_callback given = modify (λ h. record h { has_close_callback = given })

  unfoldable pub set_error_callback : Bool → Action (Handler C) (Unit {0})
  set_error_callback given = modify (λ h. record h { has_error_callback = given })

  -- What `onProperties` adds to the properties of the client: an entry "connection_name".
  unfoldable pub on_properties : String → String → List (String × String) → List (String × String)
  on_properties name token client =
      ("connection_name", str_append (str_append name " ") token) ∷ client

  -- `close(std::function<void()>)`
  unfoldable pub close_with_callback : Action (Handler C) Bool
  unfolding close
  close_with_callback = do modify (λ h. record h { has_close_callback = true }); close

  unfoldable pub make_channel : Action (Handler C) (Unit {0})
  make_channel = do connected ← gets (λ h. is_some h.connection); assert connected
