-- ===== src/Rpc/Keeps/Handlers.antt =====
-- The handlers of messages of src/connection.cpp keep what all calls keep.
use metricq_cpp.Prelude.{ℕ, ◌≡◌, refl, true, inl, inr, [], String, Bool-cases, Option-cases}
use metricq_cpp.Prelude.Kept.{Kept-state, >>=-Kept, >>-Kept, lift-Kept, modify-Kept}
use metricq_cpp.Json.{Json}
use metricq_cpp.FinalAction.{inside}
use metricq_cpp.Rpc.{
  Message, Guard, Connection, Client, clear_responses, give_up, handle_response, reply, answer,
  call_function, handle_call,
}
use metricq_cpp.Table.{lookup}
use metricq_cpp.Rpc.Keeps.{
  Keeps, Stable, itself, object_of, inside-Keeps, stop-Keeps, as_rpc_error-Keeps, invoke-Keeps,
}

module _ {j : Json} {R F : Type 0} (client : Client j R F) {I : Connection R F → Type 0}
    (st : Stable I)
    (on_call : (callback : F) (content : j.Value)
      → Keeps itself I (client.on_call callback content)) where
  open j use {Value}

  answer-Keeps :
      (message : Message) (callback : F) (content : Value)
      → Keeps itself I (answer j client message callback content)
  unfolding answer
  answer-Keeps message callback content = as_rpc_error-Keeps (
      >>=-Kept (on_call callback content) λ response.
        modify-Kept (reply j client message response)
          λ c h. st.same c (reply j client message response c) refl h)

  call_function-Keeps :
      (message : Message) (content : Value) (function : String)
      → Keeps object_of I (call_function j client message content function)
  unfolding call_function
  call_function-Keeps message content function = Kept-state λ s h.
      elim (Option-cases (lookup function s.object.rpc_callbacks)) [
        | inl l ↦ (s, rw (l, call_function) refl, h)
        | inr (callback, l) ↦ (
          (inside (answer j client message callback content) s).1,
          rw (l, call_function) refl,
          (inside-Keeps {I = I} (answer-Keeps message callback content)).keeps s h,
        )
      ]

  pub handle_call-Keeps :
      (message : Message) (content : Value)
      → Keeps object_of I (handle_call j client message content)
  unfolding handle_call
  handle_call-Keeps message content = elim (Bool-cases (j.contains content "function")) [
    | inl e ↦ rw e (
        >>=-Kept (lift-Kept (j.at content "function")) λ entry.
          >>=-Kept (lift-Kept (j.get_string entry))
            λ function. call_function-Keeps message content function)
    | inr e ↦ rw e (record { keeps = λ s h. h })
  ]

  -- After an error all entries are dropped.
  pub error-Keeps :
      (tag : ℕ) (id : String) (guard : Guard R) (content : Value)
      → j.contains content "error" ≡ true
      → Keeps object_of I (handle_response j client tag id guard content)
  unfolding handle_response give_up clear_responses
  error-Keeps tag id guard content e = rw e (
      >>=-Kept (lift-Kept (j.at content "error")) λ entry.
        >>=-Kept (lift-Kept (j.get_string entry)) λ text. >>-Kept (invoke-Keeps st tag) (
          >>-Kept
            (inside-Keeps {I = I}
              (modify-Kept (λ c. record c { rpc_response_callbacks = [] }) λ c h. st.clear c))
            (inside-Keeps {I = I} (stop-Keeps st))))
