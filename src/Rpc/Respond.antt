-- ===== src/Rpc/Respond.antt =====
-- What `Connection::handle_management_message` of src/connection.cpp does with the answer to a call:
-- the callback of its correlation id is run and removed, and an error ends the connection.
use metricq_cpp.Prelude.{
  ℕ, ◌≡◌, ◌≢◌, refl, ap, sym, ◌∙◌, true, false, inl, inr, [], ◌∷◌, ◌++◌, none, some, String,
  append_assoc, arith, Bool-cases, if◌then◌else◌, eq_iff,
}
use metricq_cpp.Prelude.Outcome.{ok, Action, ◌>>◌, Result-cases, >>-inv}
use metricq_cpp.Json.{Json}
use metricq_cpp.FinalAction.{invoke, finally}
use metricq_cpp.Rpc.{
  Message, acked, closing, closed_hook, Guard, Connection, Client, as_rpc_error, emit, close, stop,
  disarm, call_guard, clear_responses, erase_response, give_up, handle_response, dispatch,
  handle_management_message,
}
use metricq_cpp.Table.{lookup, erase, lookup-erase}

module _ {j : Json} {R F : Type 0} (client : Client j R F) where
  open j use {Value}

  -- An answer without an error is the call of the guard and the removal of its entry, with the
  -- acknowledgement at the end.
  handle_management_message-response :
      (message : Message) (tag : ℕ) (c : Connection R F) (content : Value) (guard : Guard R)
      → j.parse message.body ≡ some content
      → j.contains content "error" ≡ false
      → lookup message.correlation_id c.rpc_response_callbacks ≡ some guard
      → handle_management_message j client message tag c ≡ (
          let (r, c₁) =
            (as_rpc_error (call_guard j client message.correlation_id guard content)
                >> erase_response j client message.correlation_id)
              c in
          (r, emit (acked tag) c₁))
  unfolding handle_management_message finally invoke dispatch handle_response
  handle_management_message-response message tag c content guard p e l =
      rw (p, handle_management_message, finally, invoke, dispatch, l, handle_response, e)
        (elim (Result-cases
          (client.on_response guard.callback content
            (disarm j client message.correlation_id guard c)).0) [
              | inl (x, q) ↦ rw q refl
              | inr (x, q) ↦ rw q refl
            ])

  erase_response-ok :
      (id : String) (c : Connection R F)
      → (erase_response j client id c).0 ≡ ok tt
      → (erase_response j client id c).1
        ≡ record c { rpc_response_callbacks = erase id c.rpc_response_callbacks }
  unfolding erase_response
  erase_response-ok id c h = ground arith

  call_guard-ok :
      (id : String) (guard : Guard R) (content : Value) (c : Connection R F)
      → (as_rpc_error (call_guard j client id guard content) c).0 ≡ ok tt
      → client.on_response guard.callback content (disarm j client id guard c)
        ≡ (ok tt, (as_rpc_error (call_guard j client id guard content) c).1)
  unfolding call_guard
  call_guard-ok id guard content c h =
      elim (Result-cases
        (client.on_response guard.callback content (disarm j client id guard c)).0) [
          | inl (x, q) ↦ ground arith
          | inr (f, q) ↦ ground arith
        ]

  abbrev called : String → Guard R → Value → Action (Connection R F) (Unit {0})
  called id guard content = as_rpc_error (call_guard j client id guard content)

  abbrev pub without : String → Connection R F → Connection R F
  without id c = record c { rpc_response_callbacks = erase id c.rpc_response_callbacks }

  response-ok :
      (id : String) (guard : Guard R) (content : Value) (c : Connection R F)
      → ((called id guard content >> erase_response j client id) c).0 ≡ ok tt
      → ((called id guard content c).0 ≡ ok tt)
        × (((called id guard content >> erase_response j client id) c).1
            ≡ without id (called id guard content c).1)
  response-ok id guard content c h =
      let (x, run, rest) = >>-inv (called id guard content) (erase_response j client id) c tt h in
      (run, ap (λ p. p.1) rest ∙ erase_response-ok id _ (ap (λ p. p.0) (sym rest) ∙ h))

  -- When the answer to a call has no error and handling it succeeds, the callback registered under
  -- its correlation id has been run once on the content, with its timeout disarmed, and has
  -- succeeded; its entry is gone, every other entry is as the callback left it, and the message is
  -- acknowledged after all that the callback did.
  pub response-erased :
      (message : Message) (tag : ℕ) (c c' : Connection R F) (content : Value) (guard : Guard R)
      → j.parse message.body ≡ some content
      → j.contains content "error" ≡ false
      → lookup message.correlation_id c.rpc_response_callbacks ≡ some guard
      → handle_management_message j client message tag c ≡ (ok tt, c')
      → (c₁ : Connection R F) × (client.on_response guard.callback content
            (disarm j client message.correlation_id guard c)
          ≡ (ok tt, c₁))
        × (c'.events ≡ c₁.events ++ acked tag ∷ [])
        × (lookup message.correlation_id c'.rpc_response_callbacks ≡ none)
        × ((id : String)
            → message.correlation_id ≢ id
            → lookup id c'.rpc_response_callbacks ≡ lookup id c₁.rpc_response_callbacks)
  response-erased message tag c c' content guard p e l h =
      let steps = sym (handle_management_message-response message tag c content guard p e l) ∙ h in
      let id = message.correlation_id in
      let (run, after) = response-ok id guard content c (ap (λ p. p.0) steps) in
      let c₁ = (called id guard content c).1 in
      let result = sym (ap (λ p. p.1) steps) ∙ ap (emit (acked tag)) after in
      (
        c₁,
        call_guard-ok id guard content c run,
        ap (λ c. c.events) result,
        ap (λ c. lookup id c.rpc_response_callbacks) result
            ∙ lookup-erase id c₁.rpc_response_callbacks id
            ∙ ground (arith, eq_iff id id),
        λ k ne.
            ap (λ c. lookup k c.rpc_response_callbacks) result
            ∙ lookup-erase id c₁.rpc_response_callbacks k
            ∙ ground (arith, eq_iff id k),
      )

  abbrev closed : ℕ → Connection R F → Connection R F
  closed tag c = record c {
    rpc_response_callbacks = [];
    events = c.events ++ acked tag ∷ (if c.connected then closing else closed_hook) ∷ [];
  }

  stop-closed :
      (tag : ℕ) (c : Connection R F)
      → stop (record c { rpc_response_callbacks = []; events = c.events ++ acked tag ∷ [] })
        ≡ (ok tt, closed tag c)
  unfolding stop close
  stop-closed tag c = elim (Bool-cases c.connected) [
    | inl k ↦ rw (stop, close, k, append_assoc c.events (acked tag ∷ []) (closing ∷ [])) refl
    | inr k ↦ rw (stop, close, k, append_assoc c.events (acked tag ∷ []) (closed_hook ∷ [])) refl
  ]

  -- When the answer to a call has an error with a text, the message is acknowledged before the
  -- connection closes (or, without one, its subclass is told that it is closed), it is not
  -- acknowledged again at the end, no callback is run, and all callbacks that wait for an answer
  -- are dropped.
  pub response_error-closes :
      (message : Message) (tag : ℕ) (c : Connection R F) (content entry : Value) (text : String)
      (guard : Guard R)
      → j.parse message.body ≡ some content
      → j.contains content "error" ≡ true
      → j.at content "error" ≡ ok entry
      → j.get_string entry ≡ ok text
      → lookup message.correlation_id c.rpc_response_callbacks ≡ some guard
      → handle_management_message j client message tag c ≡ (
        ok tt,
        record c {
          rpc_response_callbacks = [];
          events = c.events ++ acked tag ∷ (if c.connected then closing else closed_hook) ∷ [];
        },
      )
  unfolding handle_management_message finally invoke dispatch handle_response give_up
      clear_responses
  response_error-closes message tag c content entry text guard p e at get l =
      rw (p, handle_management_message, finally, invoke, dispatch, l, handle_response, e, at, get)
        (stop-closed tag c)
