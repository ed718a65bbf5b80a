-- ===== src/Handler/Reach.antt =====
-- Every course of events on the handler of src/connection_handler.cpp, as a step relation: the
-- owner and the AMQP library call methods, and the operations in the background complete in any
-- order.
use metricq_cpp.Prelude.{
  ℕ, ◌≤◌, ◌≡◌, refl, ap, sym, ◌∙◌, Bool, List, [], ◌++◌, length, take, append_assoc, append-nil,
  String,
}
use metricq_cpp.Buffer.Bytes.{contents}
use metricq_cpp.Handler.{
  Handler, Amqp, Op, Completion, success, failed, on_read, on_written, beat, connect, on_resolved,
  on_connected, on_handshake, close, close_with_callback, set_close_callback, set_error_callback,
}
use metricq_cpp.Handler.Write.{Inv, Inv-same, writes}
use metricq_cpp.Handler.Library.{CallsOnly, Runs}
use metricq_cpp.Handler.Preserves.{Keeps}
use metricq_cpp.Handler.Keeps.{
  Runs-Keeps, on_read-Preserves, write_failed-Preserves, beat-Preserves, connect-Preserves,
  on_resolved-Preserves, on_connected-Preserves, on_handshake-Preserves, close-Preserves,
  close_with_callback-Preserves, set_close_callback-Preserves, set_error_callback-Preserves,
}
use metricq_cpp.Handler.Stream.{Picks, picked-Inv, on_written-Inv}

-- A handler, and the bytes that its socket has taken so far.
pub record World (C : Type 0) : Type 0 where
  pub handler : Handler C
  pub wire : List ℕ

-- What has been written and what waits to be, in order.
abbrev pub stream : {C : Type 0} → World C → List ℕ
stream w = w.wire ++ contents w.handler.send_buffers

module _ (a : Amqp) where
  open a use {C}

  -- The methods and completion handlers, but for a write that completes.
  pub data Method : Type 0 where
    reads : Completion (List ℕ) → Method
    write_fails : String → Method
    beats : Completion (Unit {0}) → Method
    connects : C → Method
    resolves : Completion (Unit {0}) → Method
    connected : Completion String → Method
    handshakes : Completion (Unit {0}) → Method
    closes closes_with_callback : Method
    sets_close_callback sets_error_callback : Bool → Method

  abbrev pub run : Method → Handler C → Handler C
  run (reads done) h = (on_read a done h).1
  run (write_fails reason) h = (on_written a (failed reason) h).1
  run (beats done) h = (beat a done h).1
  run (connects c) h = (connect a c h).1
  run (resolves done) h = (on_resolved a done h).1
  run (connected done) h = (on_connected a done h).1
  run (handshakes done) h = (on_handshake a done h).1
  run closes h = (close a h).1
  run closes_with_callback h = (close_with_callback a h).1
  run (sets_close_callback given) h = (set_close_callback a given h).1
  run (sets_error_callback given) h = (set_error_callback a given h).1

  -- An event. An operation that completes leaves `pending`: `rest` is what stays. A failed write
  -- takes its operation out; any other operation that completes is no write.
  pub data Step (w : World C) : World C → Type 0 where
    library : {h : Handler C} → Runs a w.handler h → Step w (record { handler = h; wire = w.wire })
    method :
        (m : Method) (rest : List Op)
        → writes rest ≡ writes w.handler.pending
        → Step w (record { handler = run m (record w.handler { pending = rest }); wire = w.wire })
    write_failed :
        (reason : String) (bytes : List ℕ) (rest : List Op)
        → Picks bytes w.handler.pending rest
        → Step w (record {
          handler = run (write_fails reason) (record w.handler { pending = rest });
          wire = w.wire;
        })
    written :
        (bytes : List ℕ) (n : ℕ) (rest : List Op)
        → Picks bytes w.handler.pending rest
        → n ≤ length bytes
        → Step w (record {
          handler = (on_written a (success n) (record w.handler { pending = rest })).1;
          wire = w.wire ++ take n bytes;
        })

  pub data Reach (w : World C) : World C → Type 0 where
    here : Reach w w
    then : {u v : World C} → Reach w u → Step u v → Reach w v

  module _ (lib : CallsOnly a) where
    run-Keeps :
        (m : Method) (wire accepted : List ℕ) (h : Handler C)
        → Inv wire accepted h
        → Keeps wire accepted (run m h)
    run-Keeps m wire accepted h v = go m
      where
        start : Keeps wire accepted h
        start = ([], rw append-nil v)

        go : (m' : Method) → Keeps wire accepted (run m' h)
        go (reads done) = (on_read-Preserves a lib done).keeps wire accepted h start
        go (write_fails reason) = (write_failed-Preserves a lib reason).keeps wire accepted h start
        go (beats done) = (beat-Preserves a lib done).keeps wire accepted h start
        go (connects c) = (connect-Preserves a lib c).keeps wire accepted h start
        go (resolves done) = (on_resolved-Preserves a lib done).keeps wire accepted h start
        go (connected done) = (on_connected-Preserves a lib done).keeps wire accepted h start
        go (handshakes done) = (on_handshake-Preserves a lib done).keeps wire accepted h start
        go closes = (close-Preserves a lib).keeps wire accepted h start
        go closes_with_callback = (close_with_callback-Preserves a lib).keeps wire accepted h start
        go (sets_close_callback given) =
            (set_close_callback-Preserves a lib given).keeps wire accepted h start
        go (sets_error_callback given) =
            (set_error_callback-Preserves a lib given).keeps wire accepted h start

    abbrev pub Extends : List ℕ → World C → Type 0
    Extends accepted w = (given : List ℕ) × Inv w.wire (accepted ++ given) w.handler

    Step-Extends :
        (accepted : List ℕ) {u v : World C}
        → Step u v
        → Inv u.wire accepted u.handler
        → Extends accepted v
    Step-Extends accepted {u} (library r) v =
        Runs-Keeps a lib u.wire accepted ([], rw append-nil v) r
    Step-Extends accepted {u} (method m rest e) v =
        run-Keeps m u.wire accepted (record u.handler { pending = rest })
          (Inv-same u.wire accepted u.handler _ refl refl e refl v)
    Step-Extends accepted {u} (write_failed reason bytes rest p) v =
        run-Keeps (write_fails reason) u.wire accepted (record u.handler { pending = rest })
          (picked-Inv u.wire accepted bytes u.handler rest v p)
    Step-Extends accepted {u} (written bytes n rest p k) v =
        ([], rw append-nil (on_written-Inv a u.wire accepted bytes n u.handler rest v p k))

    Reach-Keeps :
        {w v : World C} → Inv w.wire (stream w) w.handler → Reach w v → Extends (stream w) v
    Reach-Keeps {w} inv here = ([], rw append-nil inv)
    Reach-Keeps {w} inv (then {u = u} {v = v} r st) =
        let (given, held) = Reach-Keeps inv r in
        let (more, held') = Step-Extends (stream w ++ given) st held in
        (given ++ more, rw (← append_assoc (stream w)) held')

    -- From a handler whose invariant holds, whatever happens: the stream of what the socket has taken and
    -- what waits is the one of before, followed by exactly the bytes that `onData` has been given since, in
    -- their order, also when operations fail. The invariant still holds: at most one write is under way,
    -- and it is of the bytes that come next.
    pub Reach-Extends :
        {w v : World C}
        → Inv w.wire (stream w) w.handler
        → Reach w v
        → (given : List ℕ) × (v.handler.handed ≡ w.handler.handed ++ given)
          × (stream v ≡ stream w ++ given)
          × Inv v.wire (stream v) v.handler
    Reach-Extends {w} {v} inv r =
        let (given, held) = Reach-Keeps inv r in
        (
          given,
          held.counted ∙ ap (λ xs. xs ++ given) (sym inv.counted),
          held.account,
          rw held.account held,
        )
