-- ===== src/Rpc/Acknowledge.antt =====
-- `Connection::handle_management_message` of src/connection.cpp acknowledges each message that it
-- can parse exactly once, on every path.
use metricq_cpp.Prelude.{
  ℕ, ◌≡◌, ◌⊎◌, refl, ap, sym, ◌∙◌, true, false, inl, inr, List, [], ◌∷◌, ◌++◌, none, some, String,
  append_assoc, append-nil, arith, Bool-cases, Option-cases,
}
use metricq_cpp.Prelude.Outcome.{
  err, parse_error, Action, ◌>>=◌, modify, Result-cases, >>=-ok, >>=-err,
}
use metricq_cpp.Prelude.Kept.{Kept, >>=-Kept, >>-Kept, lift-Kept}
use metricq_cpp.Json.{Json}
use metricq_cpp.FinalAction.{Scoped, invoke, finally, inside}
use metricq_cpp.Rpc.{
  Message, Event, acked, closing, closed_hook, Guard, Connection, Client, as_rpc_error, emit, stop,
  call_guard, clear_responses, erase_response, give_up, handle_response, answer, reply, handle_call,
  call_function, dispatch, handle_management_message,
}
use metricq_cpp.Table.{lookup, update}

abbrev pub ack_of : Event → List ℕ
ack_of (acked tag) = tag ∷ []
ack_of _ = []

-- The tags that have been acknowledged, in order.
abbrev pub acks : List Event → List ℕ
acks [] = []
acks (e ∷ es) = ack_of e ++ acks es

pub acks-append : (xs ys : List Event) → acks (xs ++ ys) ≡ acks xs ++ acks ys
acks-append [] ys = refl
acks-append (e ∷ xs) ys =
    ap (◌++◌ (ack_of e)) (acks-append xs ys) ∙ sym (append_assoc (ack_of e) (acks xs) (acks ys))

module _ {R F : Type 0} where
  -- A call on the connection that acknowledges nothing.
  pub record IsQuiet {A : Type 0} (m : Action (Connection R F) A) : Type 0 where
    pub quiet : (c : Connection R F) → acks (m c).1.events ≡ acks c.events

  -- Within the scope of the acknowledgement of `tag`: it is still to come, or has been sent.
  abbrev Once : ℕ → List ℕ → Scoped (Connection R F) → Type 0
  Once tag before s =
      ((s.armed ≡ true) × (acks s.object.events ≡ before))
      ⊎ ((s.armed ≡ false) × (acks s.object.events ≡ before ++ tag ∷ []))

  abbrev Keeps : ℕ → List ℕ → {A : Type 0} → Action (Scoped (Connection R F)) A → Type 0
  Keeps tag before m = Kept (Once tag before) m

  emit-acks : (e : Event) (c : Connection R F) → acks (emit e c).events ≡ acks c.events ++ ack_of e
  emit-acks e c = acks-append c.events (e ∷ []) ∙ ap (◌++◌ (acks c.events)) (append-nil (ack_of e))

  -- Chains of quiet calls are quiet.
  >>=-IsQuiet :
      {A B : Type 0} {m : Action (Connection R F) A} {k : A → Action (Connection R F) B}
      → IsQuiet m
      → ((x : A) → IsQuiet (k x))
      → IsQuiet (m >>= k)
  >>=-IsQuiet {m = m} {k = k} qm qk = record {
    quiet = λ c. elim (Result-cases (m c).0) [
      | inl (x, e) ↦ rw (>>=-ok m k c x e) ((qk x).quiet (m c).1 ∙ qm.quiet c)
      | inr (x, e) ↦ rw (>>=-err m k c x e) (qm.quiet c)
    ];
  }

  as_rpc_error-IsQuiet :
      {A : Type 0} {m : Action (Connection R F) A} → IsQuiet m → IsQuiet (as_rpc_error m)
  as_rpc_error-IsQuiet {m = m} qm = record {
    quiet = λ c. elim (Result-cases (m c).0) [
      | inl (x, e) ↦ ground (arith, qm.quiet c)
      | inr (x, e) ↦ ground (arith, qm.quiet c)
    ];
  }

  stop-IsQuiet : IsQuiet stop
  unfolding stop
  stop-IsQuiet = record {
    quiet = λ c. elim (Bool-cases c.connected) [
      | inl e ↦ rw e (emit-acks closing c ∙ append-nil (acks c.events))
      | inr e ↦ rw e (emit-acks closed_hook c ∙ append-nil (acks c.events))
    ];
  }

  module _ (tag : ℕ) (before : List ℕ) where
    inside-Keeps :
        {A : Type 0} {m : Action (Connection R F) A} → IsQuiet m → Keeps tag before (inside m)
    inside-Keeps {m = m} qm = record {
      keeps = λ s. elim [
        | inl (armed, e) ↦ inl (armed, qm.quiet s.object ∙ e)
        | inr (armed, e) ↦ inr (armed, qm.quiet s.object ∙ e)
      ];
    }

    invoke-Keeps : Keeps tag before (invoke (emit (acked tag)))
    unfolding invoke
    invoke-Keeps = record {
      keeps = λ s. elim [
        | inl (armed, e) ↦
            rw armed (inr (refl, emit-acks (acked tag) s.object ∙ ap (λ xs. xs ++ tag ∷ []) e))
        | inr (armed, e) ↦ rw armed (inr (refl, e))
      ];
    }

  -- At the end of the scope the message has been acknowledged.
  finally-acks :
      (tag : ℕ) {A : Type 0} {m : Action (Scoped (Connection R F)) A} (c : Connection R F)
      → Keeps tag (acks c.events) m
      → acks (finally (emit (acked tag)) m c).1.events ≡ acks c.events ++ tag ∷ []
  unfolding finally invoke
  finally-acks tag {m = m} c km =
      elim (km.keeps (record { object = c; armed = true }) (inl (refl, refl))) [
        | inl (armed, e) ↦
            rw (armed, finally, invoke)
              (emit-acks (acked tag) (m (record { object = c; armed = true })).1.object
                ∙ ap (λ xs. xs ++ tag ∷ []) e)
        | inr (armed, e) ↦ rw (armed, finally, invoke) e
      ]

-- The callbacks of the client leave the acknowledging of management messages to the connection.
pub record AcksNothing {j : Json} {R F : Type 0} (client : Client j R F) : Type 0 where
  pub response_quiet : (r : R) (v : j.Value) → IsQuiet (client.on_response r v)
  pub call_quiet : (f : F) (v : j.Value) → IsQuiet (client.on_call f v)

module _ {j : Json} {R F : Type 0} {client : Client j R F} (quiet : AcksNothing client) where
  open j use {Value}

  call_guard-IsQuiet :
      (id : String) (guard : Guard R) (content : Value)
      → IsQuiet (call_guard j client id guard content)
  unfolding call_guard
  call_guard-IsQuiet id guard content = record {
    quiet = λ c. (quiet.response_quiet guard.callback content).quiet (record c {
      rpc_response_callbacks = update id (record guard { armed = false }) c.rpc_response_callbacks;
    });
  }

  clear_responses-IsQuiet : IsQuiet (clear_responses j client)
  unfolding clear_responses
  clear_responses-IsQuiet = record { quiet = λ c. refl }

  erase_response-IsQuiet : (id : String) → IsQuiet (erase_response j client id)
  unfolding erase_response
  erase_response-IsQuiet id = record { quiet = λ c. ground arith }

  answer-IsQuiet :
      (message : Message) (callback : F) (content : Value)
      → IsQuiet (answer j client message callback content)
  unfolding answer
  answer-IsQuiet message callback content = as_rpc_error-IsQuiet (
      >>=-IsQuiet {k = λ response. modify (reply j client message response)}
        (quiet.call_quiet callback content)
        (λ response. record { quiet = λ c. acks-append c.events _ ∙ append-nil (acks c.events) }))

  give_up-Keeps : (tag : ℕ) (before : List ℕ) → Keeps tag before (give_up j client tag)
  unfolding give_up
  give_up-Keeps tag before = >>-Kept (invoke-Keeps tag before) (
      >>-Kept (inside-Keeps tag before clear_responses-IsQuiet)
        (inside-Keeps tag before stop-IsQuiet))

  handle_response-Keeps :
      (tag : ℕ) (before : List ℕ) (id : String) (guard : Guard R) (content : Value)
      → Keeps tag before (handle_response j client tag id guard content)
  unfolding handle_response
  handle_response-Keeps tag before id guard content =
      elim (Bool-cases (j.contains content "error")) [
        | inl e ↦ rw e (
            >>=-Kept (lift-Kept (j.at content "error")) (λ entry.
              >>=-Kept (lift-Kept (j.get_string entry)) (λ text. give_up-Keeps tag before)))
        | inr e ↦ rw e (
            >>-Kept
              (inside-Keeps tag before (as_rpc_error-IsQuiet (call_guard-IsQuiet id guard content)))
              (inside-Keeps tag before (erase_response-IsQuiet id)))
      ]

  call_function-Keeps :
      (tag : ℕ) (before : List ℕ) (message : Message) (content : Value) (function : String)
      → Keeps tag before (call_function j client message content function)
  unfolding call_function
  call_function-Keeps tag before message content function = record {
    keeps = λ s o. elim (Option-cases (lookup function s.object.rpc_callbacks)) [
      | inl l ↦ rw (l, call_function) o
      | inr (callback, l) ↦
          rw (l, call_function)
            ((inside-Keeps tag before (answer-IsQuiet message callback content)).keeps s o)
    ];
  }

  handle_call-Keeps :
      (tag : ℕ) (before : List ℕ) (message : Message) (content : Value)
      → Keeps tag before (handle_call j client message content)
  unfolding handle_call
  handle_call-Keeps tag before message content = elim (Bool-cases (j.contains content "function")) [
    | inl e ↦ rw e (
        >>=-Kept (lift-Kept (j.at content "function")) (λ entry.
          >>=-Kept (lift-Kept (j.get_string entry))
            (λ function. call_function-Keeps tag before message content function)))
    | inr e ↦ rw e (record { keeps = λ s o. o })
  ]

  dispatch-Keeps :
      (tag : ℕ) (before : List ℕ) (message : Message) (content : Value)
      → Keeps tag before (dispatch j client tag message content)
  unfolding dispatch
  dispatch-Keeps tag before message content = record {
    keeps = λ s o.
        elim (Option-cases (lookup message.correlation_id s.object.rpc_response_callbacks)) [
          | inl l ↦ rw (l, dispatch) ((handle_call-Keeps tag before message content).keeps s o)
          | inr (guard, l) ↦
              rw (l, dispatch)
                ((handle_response-Keeps tag before message.correlation_id guard content).keeps s o)
        ];
  }

  -- In a connection whose callbacks leave acknowledging to it, a management message that parses is
  -- acknowledged, and exactly once, after whatever was acknowledged before, whether its handler
  -- succeeds or fails; one that does not parse changes nothing and fails with a parse error.
  pub handle_management_message-acks :
      (message : Message) (tag : ℕ) (c : Connection R F)
      → let (r, c') = handle_management_message j client message tag c in
        ((content : Value) × (j.parse message.body ≡ some content)
          × (acks c'.events ≡ acks c.events ++ tag ∷ []))
        ⊎ ((j.parse message.body ≡ none) × (r ≡ err parse_error) × (c' ≡ c))
  unfolding handle_management_message
  handle_management_message-acks message tag c = elim (Option-cases (j.parse message.body)) [
    | inl l ↦ inr (l, rw l refl, rw l refl)
    | inr (content, l) ↦
        inl (
          content,
          l,
          rw l (finally-acks tag c (dispatch-Keeps tag (acks c.events) message content)),
        )
  ]
