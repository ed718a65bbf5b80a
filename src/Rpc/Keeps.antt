-- ===== src/Rpc/Keeps.antt =====
-- Calls on a connection of src/connection.cpp that keep a property of the callbacks that wait for an answer.
pub mod Handlers
use metricq_cpp.Prelude.{
  ℕ, ◌≡◌, refl, ap, sym, Bool, true, not, false, inl, inr, [], ◌∷◌, none, some, Option, String,
  subst, arith, Bool-cases, Option-cases, str_eq,
}
use metricq_cpp.Prelude.Int.{ℤ, pos, eqb_ℤ}
use metricq_cpp.Prelude.Outcome.{
  Result, Failure, invalid_argument, Action, ◌>>=◌, ◌>>◌, lift, gets, or_raise, when, assert,
  modify, Result-cases, >>=-ok, >>=-err,
}
use metricq_cpp.Prelude.Kept.{
  Kept, Kept-state, >>=-Kept, >>-Kept, modify-Kept, lift-Kept, gets-Kept, or_raise-Kept, when-Kept,
  assert-Kept,
}
use metricq_cpp.Json.{Json}
use metricq_cpp.FinalAction.{Scoped, invoke, finally, inside}
use metricq_cpp.Rpc.{
  Message, Guard, Connection, Client, as_rpc_error, emit, acked, published, closing, closed_hook,
  stop, close, clear_responses, give_up, handle_response, reply, answer, call_function, handle_call,
  rpc, prepare_message, register_rpc_callback, register_rpc_response_callback, prepare_rpc_envelope,
}
use metricq_cpp.Timer.{to_microseconds}
use metricq_cpp.Table.{lookup, insert_new, contains}

module _ {R F : Type 0} where
  -- A call that keeps a property of the connection; `on` is the connection in the state of the call.
  abbrev pub Keeps :
      {S A : Type 0} → (S → Connection R F) → (Connection R F → Type 0) → Action S A → Type 0
  Keeps on I m = Kept (λ s. I (on s)) m

  -- A property of the callbacks that wait for an answer, which a new one and their end keep.
  pub record Stable (I : Connection R F → Type 0) : Type 0 where
    pub same :
        (c c' : Connection R F) → c'.rpc_response_callbacks ≡ c.rpc_response_callbacks → I c → I c'
    pub new :
        (id : String) (callback : R) (c : Connection R F)
        → contains id c.rpc_response_callbacks ≡ false
        → I c
        → I (record c {
          rpc_response_callbacks =
              (id, record { callback = callback; armed = true }) ∷ c.rpc_response_callbacks;
        })
    pub clear : (c : Connection R F) → I (record c { rpc_response_callbacks = [] })

  abbrev pub itself : Connection R F → Connection R F
  itself c = c

  abbrev pub object_of : Scoped (Connection R F) → Connection R F
  object_of s = s.object

  module _ {I : Connection R F → Type 0} where
    pub inside-Keeps :
        {A : Type 0} {m : Action (Connection R F) A}
        → Keeps itself I m
        → Keeps object_of I (inside m)
    inside-Keeps km = record { keeps = λ s h. km.keeps s.object h }

    pub as_rpc_error-Keeps :
        {A : Type 0} {m : Action (Connection R F) A}
        → Keeps itself I m
        → Keeps itself I (as_rpc_error m)
    as_rpc_error-Keeps {m = m} km = Kept-state λ c h. elim (Result-cases (m c).0) [
      | inl (x, e) ↦ ((m c).1, ground arith, km.keeps c h)
      | inr (x, e) ↦ ((m c).1, ground arith, km.keeps c h)
    ]

  module _ {I : Connection R F → Type 0} (st : Stable I) where
    pub stop-Keeps : Keeps itself I stop
    unfolding stop close
    stop-Keeps = Kept-state λ c h. elim (Bool-cases c.connected) [
      | inl e ↦ (emit closing c, rw e refl, st.same c (emit closing c) refl h)
      | inr e ↦ (emit closed_hook c, rw e refl, st.same c (emit closed_hook c) refl h)
    ]

    pub invoke-Keeps : (tag : ℕ) → Keeps object_of I (invoke (emit (acked tag)))
    unfolding invoke
    invoke-Keeps tag = Kept-state λ s h. elim (Bool-cases s.armed) [
      | inl e ↦ (
        record { object = emit (acked tag) s.object; armed = false },
        rw e refl,
        st.same s.object (emit (acked tag) s.object) refl h,
      )
      | inr e ↦ (s, rw e refl, h)
    ]

    pub finally-kept :
        {A : Type 0} (tag : ℕ) (body : Action (Scoped (Connection R F)) A) (c : Connection R F)
        → I (body (record { object = c; armed = true })).1.object
        → I (finally (emit (acked tag)) body c).1
    unfolding finally
    finally-kept tag body c h =
        (invoke-Keeps tag).keeps (body (record { object = c; armed = true })).1 h

    register-Keeps :
        (id : String) (callback : R) (timeout : ℤ)
        → Keeps itself I (register_rpc_response_callback id callback timeout)
    unfolding register_rpc_response_callback insert_new
    register-Keeps id callback timeout = Kept-state λ c h.
        elim (Bool-cases (eqb_ℤ (to_microseconds timeout) (pos 0))) [
          | inl short ↦ (c, rw short refl, h)
          | inr long ↦ elim (Bool-cases (contains id c.rpc_response_callbacks)) [
            | inl taken ↦ (c, ground arith, h)
            | inr free ↦ (
              record c {
                rpc_response_callbacks =
                    (id, record { callback = callback; armed = true }) ∷ c.rpc_response_callbacks;
              },
              ground arith,
              st.new id callback c free h,
            )
          ]
        ]

    -- What a client can do itself.
    pub register_rpc_callback-Keeps :
        (function : String) (callback : F)
        → Keeps itself I (register_rpc_callback function callback)
    unfolding register_rpc_callback
    register_rpc_callback-Keeps function callback =
        >>=-Kept (gets-Kept (λ c. c.rpc_callbacks)) λ callbacks.
          >>=-Kept
            (or_raise-Kept (insert_new function callback callbacks)
              (invalid_argument "trying to register RPC callback that is already registered"))
            λ callbacks'.
              modify-Kept (λ c. record c { rpc_callbacks = callbacks' })
                λ c h. st.same c (record c { rpc_callbacks = callbacks' }) refl h

    pub rpc-Keeps :
        (j : Json) (function : String) (callback : R) (payload : j.Value) (timeout : ℤ)
        (uuid : String)
        → Keeps itself I (rpc j function callback payload timeout uuid)
    unfolding rpc prepare_rpc_envelope
    rpc-Keeps j function callback payload timeout uuid =
        >>=-Kept (lift-Kept (prepare_message j function payload)) λ message.
          >>=-Kept
            (>>=-Kept (gets-Kept (λ c. c))
              λ c. >>-Kept (assert-Kept (not (str_eq c.client_queue ""))) (lift-Kept _))
            λ envelope. >>-Kept (register-Keeps envelope.correlation_id callback timeout) (
              modify-Kept (emit (published "metricq.management" function envelope))
                λ c h. st.same c (emit (published "metricq.management" function envelope) c) refl h)
