-- ===== src/Handler/Library.antt =====
-- The callbacks of src/connection_handler.cpp keep the write invariant, and so does each
-- completion handler over an AMQP library that acts on the handler through its callbacks only.
use metricq_cpp.Prelude.{
  ℕ, Bool, ◌≡◌, refl, ◌∙◌, Bool-cases, inl, inr, List, [], ◌∷◌, ◌++◌, map, append_assoc, append-nil,
  String, arith,
}
use metricq_cpp.Handler.{
  Handler, Amqp, wait_heartbeat, abort_wait, on_data, on_error, on_closed, on_negotiate,
  schedule_beat, close, close_with_callback, set_close_callback, set_error_callback,
}
use metricq_cpp.Handler.Write.{Inv, Inv-same, writes, writes-append, writes-abort_wait, on_data-Inv}

-- What the AMQP library has done to the handler in one of its calls: it has called callbacks, and
-- has handed over the bytes `given` in all. An `onError` leaves the handler by its exception.
pub data Calls {C : Type 0} (h : Handler C) : List ℕ → Handler C → Type 0 where
  none_yet : Calls h [] h
  data_call :
      {given : List ℕ} {h' : Handler C} (bytes : List ℕ)
      → Calls h given h'
      → Calls h (given ++ bytes) (on_data bytes h').1
  error_call :
      {given : List ℕ} {h' : Handler C} (message : String)
      → Calls h given h'
      → Calls h given (on_error message h').1
  closed_call :
      {given : List ℕ} {h' : Handler C} → Calls h given h' → Calls h given (on_closed h').1
  negotiate_call :
      {given : List ℕ} {h' : Handler C} (timeout : ℕ)
      → Calls h given h'
      → Calls h given (on_negotiate timeout h').1

module _ {C : Type 0} (wire accepted : List ℕ) where
  pub on_error-Inv :
      (message : String) (h : Handler C)
      → Inv wire accepted h
      → Inv wire accepted (on_error message h).1
  unfolding on_error
  on_error-Inv message h v = elim (Bool-cases h.has_error_callback) [
    | inl e ↦
        Inv-same wire accepted h _ (ground arith) (ground arith) (ground arith) (ground arith) v
    | inr e ↦
        Inv-same wire accepted h _ (ground arith) (ground arith) (ground arith) (ground arith) v
  ]

  pub on_closed-Inv : (h : Handler C) → Inv wire accepted h → Inv wire accepted (on_closed h).1
  unfolding on_closed
  on_closed-Inv h v =
      Inv-same wire accepted h _ (ground arith) (ground arith)
        (ground (arith, writes-abort_wait h.pending)) (ground arith) v

  pub on_negotiate-Inv :
      (timeout : ℕ) (h : Handler C)
      → Inv wire accepted h
      → Inv wire accepted (on_negotiate timeout h).1
  unfolding on_negotiate
  on_negotiate-Inv timeout h v = Inv-same wire accepted h _ refl refl refl refl v

  pub schedule_beat-Inv :
      (ms : ℕ) (h : Handler C) → Inv wire accepted h → Inv wire accepted (schedule_beat ms h).1
  schedule_beat-Inv ms h v =
      Inv-same wire accepted h _ refl refl
        (writes-append (map abort_wait h.pending) (wait_heartbeat ms ∷ [])
          ∙ (append-nil _ ∙ writes-abort_wait h.pending))
        refl v

-- Scheduling a beat adds no write.
pub schedule_beat-writes :
    {C : Type 0} (ms : ℕ) (h : Handler C)
    → writes h.pending ≡ []
    → writes (schedule_beat ms h).1.pending ≡ []
schedule_beat-writes ms h e =
    writes-append (map abort_wait h.pending) (wait_heartbeat ms ∷ [])
    ∙ (append-nil _ ∙ (writes-abort_wait h.pending ∙ e))

-- The calls of the library hand over data and otherwise leave the stream as it is.
pub Calls-Inv :
    {C : Type 0} (wire accepted : List ℕ) (h : Handler C) {given : List ℕ} {h' : Handler C}
    → Calls h given h'
    → Inv wire accepted h
    → Inv wire (accepted ++ given) h'
Calls-Inv wire accepted h none_yet v = rw append-nil v
Calls-Inv wire accepted h (data_call {given = g} {h' = k} bytes c) v =
    rw (← append_assoc accepted)
      (on_data-Inv wire (accepted ++ g) bytes k (Calls-Inv wire accepted h c v))
Calls-Inv wire accepted h (error_call {h' = k} message c) v =
    on_error-Inv wire _ message k (Calls-Inv wire accepted h c v)
Calls-Inv wire accepted h (closed_call {h' = k} c) v =
    on_closed-Inv wire _ k (Calls-Inv wire accepted h c v)
Calls-Inv wire accepted h (negotiate_call {h' = k} timeout c) v =
    on_negotiate-Inv wire _ timeout k (Calls-Inv wire accepted h c v)

-- What may happen within a call that reads, or reports an error or a beat: the library calls callbacks of
-- the handler, and those of channels, which are the owner's; these may close the connection, and set
-- callbacks of the handler.
pub data Runs (a : Amqp) (h : Handler a.C) : Handler a.C → Type 0 where
  nothing_yet : Runs a h h
  callbacks :
      {h' h'' : Handler a.C} {given : List ℕ} → Runs a h h' → Calls h' given h'' → Runs a h h''
  close_run : {h' : Handler a.C} → Runs a h h' → Runs a h (close a h').1
  close_with_callback_run : {h' : Handler a.C} → Runs a h h' → Runs a h (close_with_callback a h').1
  close_callback_run :
      {h' : Handler a.C} (given : Bool) → Runs a h h' → Runs a h (set_close_callback a given h').1
  error_callback_run :
      {h' : Handler a.C} (given : Bool) → Runs a h h' → Runs a h (set_error_callback a given h').1

-- The AMQP library acts on a handler only so. Its `close` calls callbacks of the handler only.
pub record CallsOnly (a : Amqp) : Type 0 where
  pub parse_runs : (bytes : List ℕ) (h : Handler a.C) → Runs a h (a.parse bytes h).1
  pub heartbeat_runs : (h : Handler a.C) → Runs a h (a.heartbeat h).1
  pub fail_runs : (reason : String) (h : Handler a.C) → Runs a h (a.fail reason h).1
  pub shut_calls : (h : Handler a.C) → (given : List ℕ) × Calls h given (a.shut h).1
