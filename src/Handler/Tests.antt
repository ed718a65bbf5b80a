-- ===== src/Handler/Tests.antt =====
-- A handler of src/connection_handler.cpp over a small AMQP library, and the theorems at it.
use metricq_cpp.Prelude.{
  ℕ, List, ◌++◌, ◌⊎◌, ◌≡◌, refl, inl, true, false, [], ◌∷◌, none, some, length, arith,
}
use metricq_cpp.Prelude.Outcome.{ok, pure, skip, ◌>>◌}
use metricq_cpp.Buffer.{no_data, empty, front, consume}
use metricq_cpp.Handler.{
  Handler, Amqp, plain, write_some, wait_heartbeat, read_some, success, on_data, flush, on_written,
  on_connected, on_negotiate, on_closed,
}
use metricq_cpp.Buffer.Bytes.{contents}
use metricq_cpp.Handler.Write.{Inv}
use metricq_cpp.Handler.Library.{none_yet, data_call, nothing_yet, callbacks, CallsOnly}
use metricq_cpp.Handler.Stream.{Picks}
use metricq_cpp.Handler.Reach.{
  World, stream, method, library, written, connected, Reach, here, then, Reach-Extends,
}
use metricq_cpp.Handler.Lifecycle.{waits, on_data-busy, on_written-waits, on_negotiate-one}

-- A library that takes whatever it reads, and sends one byte as a heartbeat.
abbrev tiny : Amqp
tiny = record {
  C = Unit {0};
  expected = λ c. 1;
  max_frame = λ c. 4;
  parse = λ bytes. pure (length bytes);
  heartbeat = on_data (8 ∷ []) >> pure true;
  shut = skip;
  fail = λ reason. skip;
}

tiny_heartbeat : (h : Handler (Unit {0})) → (tiny.heartbeat h).1 ≡ (on_data (8 ∷ []) h).1
tiny_heartbeat h = ground arith

tiny-CallsOnly : CallsOnly tiny
tiny-CallsOnly = record {
  parse_runs = λ bytes h. nothing_yet;
  heartbeat_runs = λ h. rw (tiny_heartbeat h) (callbacks nothing_yet (data_call (8 ∷ []) none_yet));
  fail_runs = λ reason h. nothing_yet;
  shut_calls = λ h. ([], none_yet);
}

abbrev Tiny : Type 0
Tiny = Handler (Unit {0})

-- The library has handed over three bytes before the connection is up.
abbrev waiting : Tiny
waiting = record {
  transport = plain;
  connection = some tt;
  socket_open = false;
  heartbeat_interval = 5000;
  recv_buffer = [];
  send_buffers = record { buffers = (1 ∷ 2 ∷ 3 ∷ []) ∷ []; offset = 0 };
  flush_in_progress = false;
  has_error_callback = true;
  has_close_callback = false;
  pending = [];
  notices = [];
  handed = 1 ∷ 2 ∷ 3 ∷ [];
}

-- Once it is up, a read and a write are under way.
abbrev writing : Tiny
writing = record waiting {
  socket_open = true;
  flush_in_progress = true;
  pending = read_some 128 ∷ write_some (1 ∷ 2 ∷ 3 ∷ []) ∷ [];
}

on_connected-waiting : on_connected tiny (success "host") waiting ≡ (ok tt, writing)
unfolding on_connected flush empty front
on_connected-waiting = refl

-- The socket takes two of the three bytes: the next beat is scheduled, and the last byte follows.
on_written-writing :
    (on_written tiny (success 2) (record writing { pending = read_some 128 ∷ [] })).1.pending
    ≡ read_some 128 ∷ wait_heartbeat 5000 ∷ write_some (3 ∷ []) ∷ []
unfolding on_written flush consume empty front
on_written-writing = refl

on_closed-writing :
    on_closed writing ≡ (ok tt, record writing { socket_open = false; connection = none })
unfolding on_closed
on_closed-writing = refl

abbrev before : World (Unit {0})
before = record { handler = waiting; wire = [] }

-- The library hands over a fourth byte while the write is under way.
abbrev fed : Tiny
unfolding on_data flush
fed = (on_data (9 ∷ []) writing).1

abbrev after : World (Unit {0})
after = record {
  handler = (on_written tiny (success 2) (record fed { pending = read_some 128 ∷ [] })).1;
  wire = 1 ∷ 2 ∷ [];
}

Inv-before : Inv [] (stream before) waiting
Inv-before = record { valid = omega arith; account = refl; counted = refl; state = inl refl }

Picks-fed : Picks (1 ∷ 2 ∷ 3 ∷ []) fed.pending (read_some 128 ∷ [])
unfolding on_data flush empty metricq_cpp.Buffer.emplace
Picks-fed = record { before = read_some 128 ∷ []; after = []; ops_eq = refl; rest_eq = refl }

Reach-after : Reach tiny before after
unfolding on_connected flush empty front on_data fed
Reach-after =
    then
      (then (then here (method (connected (success "host")) [] refl))
        (library (callbacks nothing_yet (data_call (9 ∷ []) none_yet))))
      (written (1 ∷ 2 ∷ 3 ∷ []) 2 (read_some 128 ∷ []) Picks-fed (omega arith))

Reach-Extends_example :
    (given : List ℕ) × (after.handler.handed ≡ before.handler.handed ++ given)
    × (stream after ≡ stream before ++ given)
    × Inv after.wire (stream after) after.handler
Reach-Extends_example = Reach-Extends tiny tiny-CallsOnly Inv-before Reach-after

abbrev idle : Tiny
idle = record waiting { socket_open = true }

on_data-busy_example :
    let (r, h') = on_data (9 ∷ []) idle in
    (r ≡ ok tt)
    × (contents h'.send_buffers ≡ 1 ∷ 2 ∷ 3 ∷ 9 ∷ [])
    × (true ≡ true
        → false ≡ false
        → (next : List ℕ) × (front h'.send_buffers ≡ ok next)
          × (h'.flush_in_progress ≡ true)
          × (h'.pending ≡ write_some next ∷ []))
    × ((true ≡ false) ⊎ (false ≡ true) → (h'.flush_in_progress ≡ false) × (h'.pending ≡ []))
on_data-busy_example = on_data-busy (9 ∷ []) idle (omega arith)

on_written-waits_example : waits (on_written tiny (success 3) writing).1.pending ≡ 5000 ∷ []
unfolding consume
on_written-waits_example = on_written-waits tiny 3 no_data writing refl

on_negotiate-one_example :
    let (r, h) = on_negotiate 1 writing in
    (r ≡ ok 1) × (waits (on_written tiny (success 3) h).1.pending ≡ [])
unfolding consume
on_negotiate-one_example = on_negotiate-one tiny 1 3 no_data writing (omega arith) refl
