-- ===== src/Db/Answers.antt =====
-- How a database of src/db.cpp answers requests for history.
use metricq_cpp.Prelude.{
  ◌≡◌, refl, sym, ◌∙◌, List, [], ◌∷◌, ◌++◌, append_assoc, append-nil, some, String, arith,
}
use metricq_cpp.Prelude.Outcome.{ok, Action, ◌>>◌, skip, >>-ok}
use metricq_cpp.Json.{Json}
use metricq_cpp.Db.{Db, Message, Call, Hooks, publishes, acks, on_history_message}

module _ {j : Json} {A V Q P : Type 0} where
  -- The method of the subclass answers every request, by `respond`, and sends nothing itself.
  pub record Responds (hooks : Hooks j A V Q P) (respond : String → Q → P) : Type 0 where
    pub succeeds :
        (id : String) (q : Q) (s : Db j A V Q) → (hooks.on_history id q s).0 ≡ ok (respond id q)
    pub sends_nothing :
        (id : String) (q : Q) (s : Db j A V Q) → (hooks.on_history id q s).1.calls ≡ s.calls
    pub keeps_token :
        (id : String) (q : Q) (s : Db j A V Q) → (hooks.on_history id q s).1.token ≡ s.token

  module _ (hooks : Hooks j A V Q P) (parse : String → Q) (serialize : P → String) where
    -- Messages, each with the text of the time that it takes.
    abbrev pub serve : List (Message × String) → Action (Db j A V Q) (Unit {0})
    serve [] = skip
    serve ((message, duration) ∷ rest) =
        on_history_message hooks parse serialize message duration >> serve rest

    module _ (respond : String → Q → P) where
      abbrev pub answer : String → Message → String → Call j.Value
      answer token message duration = publishes "" message.reply_to (record {
        payload = serialize (respond message.routingkey (parse message.body));
        duration = duration;
        correlation_id = message.correlation_id;
        app_id = token;
        content_type = "application/json";
      })

      -- The answer to each message, and then its acknowledgement.
      abbrev pub answers : String → List (Message × String) → List (Call j.Value)
      answers token [] = []
      answers token ((message, duration) ∷ rest) =
          answer token message duration ∷ acks message.delivery_tag ∷ answers token rest

      on_history_message_lem :
          (message : Message) (duration : String) (s : Db j A V Q)
          → Responds hooks respond
          → let (r, s') = on_history_message hooks parse serialize message duration s in
            (r ≡ ok tt)
            × (s'.calls ≡ s.calls ++ answers s.token ((message, duration) ∷ []))
            × (s'.token ≡ s.token)
      unfolding on_history_message
      on_history_message_lem message duration s h =
          let s₁ = record s { history_request = some (parse message.body) } in
          let q = parse message.body in
          let done = h.succeeds message.routingkey q s₁ in
          let silent = h.sends_nothing message.routingkey q s₁ in
          let same = h.keeps_token message.routingkey q s₁ in
          (
            ground arith,
            ground (
              arith,
              append_assoc s.calls (answer s.token message duration ∷ [])
                  (acks message.delivery_tag ∷ []),
            ),
            ground arith,
          )

      -- Where the method of the subclass answers every request and sends nothing itself, all messages are
      -- handled with success, and each has been answered once, to the queue and with the correlation id
      -- that it came with, right before its acknowledgement, in the order of the messages.
      pub serve-answers :
          (ms : List (Message × String)) (s : Db j A V Q)
          → Responds hooks respond
          → let (r, s') = serve ms s in (r ≡ ok tt) × (s'.calls ≡ s.calls ++ answers s.token ms)
      serve-answers [] s h = (refl, sym (append-nil s.calls))
      serve-answers ((message, duration) ∷ rest) s h =
          let handle = on_history_message hooks parse serialize message duration in
          let (done, sent, same) = on_history_message_lem message duration s h in
          let (later, others) = serve-answers rest (handle s).1 h in
          rw (>>-ok handle (serve rest) s tt done) (
            later,
            others
                ∙ rw (sent, same)
                    (append_assoc s.calls (answers s.token ((message, duration) ∷ []))
                      (answers s.token rest)),
          )
