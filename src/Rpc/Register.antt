-- ===== src/Rpc/Register.antt =====
-- Calls of functions and the registration of callbacks: `Connection::rpc` and
-- `Connection::register_rpc_callback` of src/connection.cpp, up to the answer of a call.
use metricq_cpp.Prelude.{
  ◌≡◌, ℕ, refl, ap, ◌∙◌, ◌⊎◌, true, false, inl, inr, [], ◌∷◌, ◌++◌, none, some, String, arith,
  Bool-cases, str_eq, if◌then◌else◌, eq_iff,
}
use metricq_cpp.Prelude.Int.{ℤ}
use metricq_cpp.Prelude.Outcome.{ok, err, invalid_argument, Result-cases}
use metricq_cpp.Json.{Json}
use metricq_cpp.Rpc.{
  Message, published, Connection, Client, prepare_message, correlation_id_of, prepare_rpc_envelope,
  register_rpc_callback, register_rpc_response_callback, rpc, disarm, handle_management_message,
}
use metricq_cpp.Rpc.Respond.{response-erased}
use metricq_cpp.Table.{lookup, contains, insert_new, lookup-absent}

module _ {R F : Type 0} where
  -- A function is registered when its name was free, and then its callback is found under its name
  -- and those of all other functions are as before; when the name was taken, the registration fails
  -- with `std::invalid_argument` and changes nothing.
  pub register_rpc_callback-lookup :
      (function : String) (callback : F) (c : Connection R F)
      → let (r, c') = register_rpc_callback function callback c in
        ((contains function c.rpc_callbacks ≡ false)
          × (r ≡ ok tt)
          × ((k : String)
              → lookup k c'.rpc_callbacks
                ≡ (if str_eq function k then some callback else lookup k c.rpc_callbacks)))
        ⊎ ((contains function c.rpc_callbacks ≡ true)
            × (r
                ≡ err
                    (invalid_argument "trying to register RPC callback that is already registered"))
            × (c' ≡ c))
  unfolding register_rpc_callback insert_new lookup
  register_rpc_callback-lookup function callback c =
      elim (Bool-cases (contains function c.rpc_callbacks)) [
        | inl e ↦ inr (e, rw (e, insert_new) refl, rw (e, insert_new) refl)
        | inr e ↦ inl (e, rw (e, insert_new) refl, λ k. rw (e, insert_new) refl)
      ]

module _ {j : Json} {R F : Type 0} (client : Client j R F) where
  open j use {Value}

  pub rpc-sent :
      (function : String) (callback : R) (payload : Value) (timeout : ℤ) (uuid : String)
      (c c' : Connection R F)
      → rpc j function callback payload timeout uuid c ≡ (ok tt, c')
      → (text : String) × (prepare_message j function payload ≡ ok text)
        × (c'.events
            ≡ c.events
              ++ published "metricq.management" function (record {
                payload = text;
                correlation_id = correlation_id_of c.token uuid;
                app_id = c.token;
                content_type = "application/json";
                reply_to = c.client_queue;
              })
                ∷ [])
        × (lookup (correlation_id_of c.token uuid) c.rpc_response_callbacks ≡ none)
        × (c'.rpc_response_callbacks
            ≡ (correlation_id_of c.token uuid, record { callback = callback; armed = true })
              ∷ c.rpc_response_callbacks)
  unfolding rpc prepare_rpc_envelope register_rpc_response_callback insert_new
  rpc-sent function callback payload timeout uuid c c' h =
      elim (Result-cases (prepare_message j function payload)) [
        | inl (text, q) ↦
            elim (Bool-cases (contains (correlation_id_of c.token uuid) c.rpc_response_callbacks)) [
              | inl b ↦ absurd ground arith
              | inr b ↦
                  (text, q, ground arith, lookup-absent _ c.rpc_response_callbacks b, ground arith)
            ]
        | inr (x, q) ↦ absurd ground arith
      ]

  -- When `rpc` has succeeded, an answer without an error that has its correlation id, comes next and
  -- is handled with success has run the callback that `rpc` was given, on that answer, and then no
  -- callback waits for this id.
  pub rpc-answered :
      (function : String) (callback : R) (payload : Value) (timeout : ℤ) (uuid : String)
      (c c' c'' : Connection R F) (message : Message) (tag : ℕ) (content : Value)
      → rpc j function callback payload timeout uuid c ≡ (ok tt, c')
      → message.correlation_id ≡ correlation_id_of c.token uuid
      → j.parse message.body ≡ some content
      → j.contains content "error" ≡ false
      → handle_management_message j client message tag c' ≡ (ok tt, c'')
      → (c₁ : Connection R F) × (client.on_response callback content (
            disarm j client message.correlation_id
              (record { callback = callback; armed = true })
              c')
          ≡ (ok tt, c₁))
        × (lookup message.correlation_id c''.rpc_response_callbacks ≡ none)
  unfolding lookup
  rpc-answered function callback payload timeout uuid c c' c'' message tag content sent id p e
        done =
      let (text, made, sent', free, registered) =
        rpc-sent function callback payload timeout uuid c c' sent in
      let (c₁, run, events, gone, others) =
        response-erased client message tag c' c'' content
          (record { callback = callback; armed = true }) p e
          (ap (lookup message.correlation_id) registered
            ∙ ground (arith, id, eq_iff (correlation_id_of c.token uuid) message.correlation_id))
          done in
      (c₁, run, gone)
