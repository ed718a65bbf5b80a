-- ===== src/Handler/Keeps.antt =====
-- Which methods of src/connection_handler.cpp keep the stream of bytes: all that are put together
-- from the callbacks and from calls of the AMQP library.
use metricq_cpp.Prelude.{
  ℕ, ◌*◌, ◌≡◌, refl, Bool, true, not, leb, List, ◌++◌, Option, none, some, length, drop,
  append_assoc, String, arith,
}
use metricq_cpp.Prelude.Outcome.{assertion, null_pointer, Action, modify}
use metricq_cpp.Handler.{
  Handler, Amqp, Transport, plain, ssl, resolve_host, connect_endpoints, ssl_handshake, read_some,
  Completion, success, operation_aborted, failed, read, fail_with, on_read, beat, connect,
  on_resolved, begin_io, handshake, on_connected, on_handshake, close, close_with_callback,
  set_close_callback, set_error_callback, on_written, is_some,
}
use metricq_cpp.Handler.Library.{
  Runs, nothing_yet, callbacks, close_run, close_with_callback_run, close_callback_run,
  error_callback_run, Calls, Calls-Inv, CallsOnly,
}
use metricq_cpp.Handler.Preserves.{
  Keeps, Preserves, chains, >>=-Preserves, >>-Preserves, when-Preserves, of_same, gets-Preserves,
  submit-Preserves, flush-Preserves, on_error-Preserves, schedule_beat-Preserves,
  or_raise-Preserves, assert-Preserves, pure-Preserves,
}

module _ (a : Amqp) (lib : CallsOnly a) where
  open a use {C, expected, max_frame, parse, heartbeat, shut, fail}

  of_Calls :
      {A : Type 0} (m : Action (Handler C) A)
      → ((h : Handler C) → (given : List ℕ) × Calls h given (m h).1)
      → Preserves m
  of_Calls m calls = record {
    keeps = λ wire accepted h v.
        let (more, c) = calls h in
        (v.0 ++ more, rw (← append_assoc accepted) (Calls-Inv wire (accepted ++ v.0) h c v.1));
  }

  shut-Preserves : Preserves shut
  shut-Preserves = of_Calls shut lib.shut_calls

  close_callback-Preserves :
      (b : Bool) → Preserves (modify (λ (h : Handler C). record h { has_close_callback = b }))
  close_callback-Preserves b = of_same _ (λ h. (refl, refl, refl, refl))

  pub close-Preserves : Preserves (close a)
  unfolding close
  close-Preserves = record { keeps = λ wire accepted h v. go wire accepted h v h.connection refl }
    where
      go :
          (wire accepted : List ℕ) (h : Handler C)
          → Keeps wire accepted h
          → (c : Option C) → h.connection ≡ c
          → Keeps wire accepted (close a h).1
      go wire accepted h v none e = ground arith
      go wire accepted h v (some c) e =
          rw (e, close)
            ((>>-Preserves shut-Preserves (pure-Preserves true)).keeps wire accepted h v)

  pub set_close_callback-Preserves : (b : Bool) → Preserves (set_close_callback a b)
  unfolding set_close_callback
  set_close_callback-Preserves b = of_same _ (λ h. (refl, refl, refl, refl))

  pub set_error_callback-Preserves : (b : Bool) → Preserves (set_error_callback a b)
  unfolding set_error_callback
  set_error_callback-Preserves b = of_same _ (λ h. (refl, refl, refl, refl))

  pub close_with_callback-Preserves : Preserves (close_with_callback a)
  unfolding close_with_callback
  close_with_callback-Preserves = >>-Preserves (close_callback-Preserves true) close-Preserves

  pub Runs-Keeps :
      (wire accepted : List ℕ) {h h' : Handler C}
      → Keeps wire accepted h
      → Runs a h h'
      → Keeps wire accepted h'
  Runs-Keeps wire accepted v nothing_yet = v
  Runs-Keeps wire accepted v (callbacks {h' = k} {given = more} r c) =
      let (given, held) = Runs-Keeps wire accepted v r in
      (given ++ more, rw (← append_assoc accepted) (Calls-Inv wire (accepted ++ given) k c held))
  Runs-Keeps wire accepted v (close_run {h' = k} r) =
      close-Preserves.keeps wire accepted k (Runs-Keeps wire accepted v r)
  Runs-Keeps wire accepted v (close_with_callback_run {h' = k} r) =
      close_with_callback-Preserves.keeps wire accepted k (Runs-Keeps wire accepted v r)
  Runs-Keeps wire accepted v (close_callback_run {h' = k} given r) =
      (set_close_callback-Preserves given).keeps wire accepted k (Runs-Keeps wire accepted v r)
  Runs-Keeps wire accepted v (error_callback_run {h' = k} given r) =
      (set_error_callback-Preserves given).keeps wire accepted k (Runs-Keeps wire accepted v r)

  -- So do calls of the library.
  of_Runs :
      {A : Type 0} (m : Action (Handler C) A) → ((h : Handler C) → Runs a h (m h).1) → Preserves m
  of_Runs m runs = record { keeps = λ wire accepted h v. Runs-Keeps wire accepted v (runs h) }

  fail-Preserves : (reason : String) → Preserves (fail reason)
  fail-Preserves reason = of_Runs (fail reason) (lib.fail_runs reason)

  parse-Preserves : (bytes : List ℕ) → Preserves (parse bytes)
  parse-Preserves bytes = of_Runs (parse bytes) (lib.parse_runs bytes)

  heartbeat-Preserves : Preserves heartbeat
  heartbeat-Preserves = of_Runs heartbeat lib.heartbeat_runs

  fail_with-Preserves : (reason message : String) → Preserves (fail_with a reason message)
  fail_with-Preserves reason message = search (chains, fail-Preserves) depth 9

  read-Preserves : Preserves (read a)
  unfolding read
  read-Preserves = >>=-Preserves (gets-Preserves _) (λ connection.
      >>=-Preserves (or_raise-Preserves connection assertion)
        (λ c. submit-Preserves (read_some (max_frame c * 32)) refl))

  recv_buffer-Preserves :
      (f : Handler C → List ℕ) → Preserves (modify (λ h. record h { recv_buffer = f h }))
  recv_buffer-Preserves f = of_same _ (λ h. (refl, refl, refl, refl))

  socket_open-Preserves :
      (b : Bool) → Preserves (modify (λ (h : Handler C). record h { socket_open = b }))
  socket_open-Preserves b = of_same _ (λ h. (refl, refl, refl, refl))

  connection-Preserves :
      (c : Option C) → Preserves (modify (λ (h : Handler C). record h { connection = c }))
  connection-Preserves c = of_same _ (λ h. (refl, refl, refl, refl))

  -- The completion of a read keeps the stream, however it ends.
  pub on_read-Preserves : (done : Completion (List ℕ)) → Preserves (on_read a done)
  unfolding on_read
  on_read-Preserves (failed reason) = fail_with-Preserves reason "read failed"
  on_read-Preserves operation_aborted = fail_with-Preserves _ "read failed"
  on_read-Preserves (success received) =
      >>=-Preserves (gets-Preserves (λ h. h.connection)) (λ connection.
        >>=-Preserves (or_raise-Preserves connection null_pointer) (λ c.
          >>-Preserves (recv_buffer-Preserves (λ h. h.recv_buffer ++ received)) (
            >>=-Preserves (gets-Preserves (λ h. h.recv_buffer)) (λ buffered.
              >>-Preserves
                (when-Preserves (leb (expected c) (length buffered)) (
                  >>=-Preserves (parse-Preserves buffered)
                    (λ consumed. recv_buffer-Preserves (λ h. drop consumed h.recv_buffer))))
                (>>=-Preserves (gets-Preserves (λ h. h.socket_open))
                  (λ still_open. when-Preserves still_open read-Preserves))))))

  -- A failed write keeps the stream, and so does the heartbeat timer, however it ends.
  pub write_failed-Preserves : (reason : String) → Preserves (on_written a (failed reason))
  unfolding on_written
  write_failed-Preserves reason = fail_with-Preserves reason "write failed"

  pub beat-Preserves : (done : Completion (Unit {0})) → Preserves (beat a done)
  unfolding beat
  beat-Preserves operation_aborted = record { keeps = λ wire accepted h v. v }
  beat-Preserves (failed reason) = fail_with-Preserves reason "heartbeat timer failed"
  beat-Preserves (success _) = >>=-Preserves (gets-Preserves _) (λ connected.
      >>-Preserves (assert-Preserves connected) (
        >>=-Preserves heartbeat-Preserves
          (λ sent. when-Preserves (not sent) (schedule_beat-Preserves 1000))))

  begin_io-Preserves : Preserves (begin_io a)
  unfolding begin_io
  begin_io-Preserves = >>-Preserves read-Preserves flush-Preserves

  handshake-Preserves : (t : Transport) (hostname : String) → Preserves (handshake a t hostname)
  unfolding handshake
  handshake-Preserves plain hostname = begin_io-Preserves
  handshake-Preserves ssl hostname = submit-Preserves (ssl_handshake hostname) refl

  -- So do the steps that set a connection up, and `close`.
  pub connect-Preserves : (c : C) → Preserves (connect a c)
  unfolding connect
  connect-Preserves c = >>=-Preserves (gets-Preserves (λ h. h.socket_open)) (λ is_open.
      >>-Preserves (assert-Preserves (not is_open)) (
        >>=-Preserves (gets-Preserves (λ h. is_some h.connection)) (λ connected.
          >>-Preserves (assert-Preserves (not connected))
            (>>-Preserves (connection-Preserves (some c)) (submit-Preserves resolve_host refl)))))

  pub on_resolved-Preserves : (done : Completion (Unit {0})) → Preserves (on_resolved a done)
  unfolding on_resolved
  on_resolved-Preserves (success _) = submit-Preserves connect_endpoints refl
  on_resolved-Preserves operation_aborted = on_error-Preserves "resolve failed"
  on_resolved-Preserves (failed reason) = on_error-Preserves "resolve failed"

  pub on_connected-Preserves : (done : Completion String) → Preserves (on_connected a done)
  unfolding on_connected
  on_connected-Preserves (success hostname) = >>-Preserves (socket_open-Preserves true) (
      >>=-Preserves (gets-Preserves (λ h. h.transport))
        (λ transport. handshake-Preserves transport hostname))
  on_connected-Preserves operation_aborted = on_error-Preserves "Connect failed"
  on_connected-Preserves (failed reason) = on_error-Preserves "Connect failed"

  pub on_handshake-Preserves : (done : Completion (Unit {0})) → Preserves (on_handshake a done)
  unfolding on_handshake
  on_handshake-Preserves (success _) = begin_io-Preserves
  on_handshake-Preserves operation_aborted = on_error-Preserves "SSL handshake failed"
  on_handshake-Preserves (failed reason) = on_error-Preserves "SSL handshake failed"
