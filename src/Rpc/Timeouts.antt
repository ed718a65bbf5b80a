-- ===== src/Rpc/Timeouts.antt =====
-- Which calls of src/connection.cpp can time out: as long as no handler has failed, all that wait for an
-- answer.
use metricq_cpp.Prelude.{
  ℕ, ◌≡◌, ◌≢◌, refl, ap, sym, [], ◌∷◌, ◌∙◌, ◌⊎◌, Bool, true, false, inl, inr, none, some, String,
  subst, arith, Bool-cases, Option-cases, str_eq, eq_iff,
}
use metricq_cpp.Prelude.Int.{ℤ}
use metricq_cpp.Prelude.Outcome.{ok, err, dangling, runtime_error}
use metricq_cpp.Json.{Json}
use metricq_cpp.FinalAction.{Scoped}
use metricq_cpp.Rpc.{
  Message, Guard, Connection, Client, disarm, dispatch, handle_management_message, rpc,
  register_rpc_callback, wait_over, on_timeout,
}
use metricq_cpp.Rpc.Respond.{response-erased}
use metricq_cpp.Timer.{ErrorCode, success, operation_aborted, other}
use metricq_cpp.Table.{lookup, lookup-update, contains-lookup}
use metricq_cpp.Rpc.Keeps.{
  Keeps, Stable, itself, rpc-Keeps, register_rpc_callback-Keeps, finally-kept,
}
use metricq_cpp.Rpc.Keeps.Handlers.{handle_call-Keeps, error-Keeps}

abbrev pub nobody : String → Bool
nobody id = false

module _ {R F : Type 0} where
  -- All timeouts run but those of the ids that `exempt` names.
  abbrev pub AreArmed : (String → Bool) → Connection R F → Type 0
  AreArmed exempt c =
      (id : String) (guard : Guard R)
      → lookup id c.rpc_response_callbacks ≡ some guard
      → exempt id ≡ false
      → guard.armed ≡ true

  -- A new entry has its timeout running.
  AreArmed-new :
      (exempt : String → Bool) (id : String) (callback : R) (c : Connection R F)
      → AreArmed exempt c
      → AreArmed exempt (record c {
        rpc_response_callbacks =
            (id, record { callback = callback; armed = true }) ∷ c.rpc_response_callbacks;
      })
  unfolding lookup
  AreArmed-new exempt id callback c h k guard l e = elim (Bool-cases (str_eq id k)) [
    | inl x ↦ ground arith
    | inr x ↦ h k guard (ground arith) e
  ]

  clear-AreArmed :
      (exempt : String → Bool) (c : Connection R F)
      → AreArmed exempt (record c { rpc_response_callbacks = [] })
  unfolding lookup
  clear-AreArmed exempt c id guard l e = absurd (cc)

  nobody-Stable : Stable (AreArmed nobody)
  nobody-Stable = record {
    same = λ c c' e h id guard l. h id guard (ap (lookup id) (sym e) ∙ l);
    new = λ id callback c free h. AreArmed-new nobody id callback c h;
    clear = clear-AreArmed nobody;
  }

module _ {j : Json} {R F : Type 0} (client : Client j R F) where
  open j use {Value}

  -- The handlers that end without a failure, in any order: calls that the client starts, functions that
  -- it registers, and messages of the manager.
  pub data Reach (c : Connection R F) : Connection R F → Type 0 where
    here : Reach c c
    calls :
        {d d' : Connection R F} (function : String) (callback : R) (payload : Value) (timeout : ℤ)
        (uuid : String)
        → Reach c d
        → rpc j function callback payload timeout uuid d ≡ (ok tt, d')
        → Reach c d'
    registers :
        {d d' : Connection R F} (function : String) (callback : F)
        → Reach c d
        → register_rpc_callback function callback d ≡ (ok tt, d')
        → Reach c d'
    handles :
        {d d' : Connection R F} (message : Message) (tag : ℕ)
        → Reach c d
        → handle_management_message j client message tag d ≡ (ok tt, d')
        → Reach c d'

module _ {j : Json} {R F : Type 0} (client : Client j R F)
    (on_response : (exempt : String → Bool) (callback : R) (content : j.Value)
      → Keeps itself (AreArmed exempt) (client.on_response callback content))
    (on_call : (exempt : String → Bool) (callback : F) (content : j.Value)
      → Keeps itself (AreArmed exempt) (client.on_call callback content)) where
  open j use {Value}

  -- Once its answer is handled, the entry whose timeout was cancelled is gone.
  answered-AreArmed :
      (message : Message) (tag : ℕ) (c c' : Connection R F) (content : Value) (guard : Guard R)
      → j.parse message.body ≡ some content
      → j.contains content "error" ≡ false
      → lookup message.correlation_id c.rpc_response_callbacks ≡ some guard
      → handle_management_message j client message tag c ≡ (ok tt, c')
      → AreArmed nobody c
      → AreArmed nobody c'
  answered-AreArmed message tag c c' content guard p e l h armed =
      let id = message.correlation_id in
      let (c₁, runs, _, gone, others) =
        response-erased client message tag c c' content guard p e l h in
      let disarmed : AreArmed (λ k. str_eq id k) (disarm j client id guard c) = λ k g q ne.
        armed k g
          (sym (
              lookup-update id (record guard { armed = false }) c.rpc_response_callbacks k
                (contains-lookup id c.rpc_response_callbacks guard l)
              ∙ rw ne refl)
            ∙ q)
          refl in
      let after = (on_response (λ k. str_eq id k) guard.callback content).keeps _ disarmed in
      let kept : AreArmed (λ k. str_eq id k) c₁ =
        subst (λ x. AreArmed (λ k. str_eq id k) x.1) runs after in
      λ k g q _. elim (Bool-cases (str_eq id k)) [
        | inl same ↦ absurd (
            let absent : lookup k c'.rpc_response_callbacks ≡ none =
              subst (λ x. lookup x c'.rpc_response_callbacks ≡ none) ((eq_iff id k).0 same) gone in
            cc)
        | inr differs ↦ kept k g (sym (others k (λ same. ground (arith, eq_iff id k))) ∙ q) differs
      ]

  not_answered-AreArmed :
      (message : Message) (tag : ℕ) (c : Connection R F) (content : Value)
      → j.parse message.body ≡ some content
      → (lookup message.correlation_id c.rpc_response_callbacks ≡ none)
        ⊎ (j.contains content "error" ≡ true)
      → AreArmed nobody c
      → AreArmed nobody (handle_management_message j client message tag c).1
  unfolding handle_management_message dispatch
  not_answered-AreArmed message tag c content p h armed =
      let s : Scoped (Connection R F) = record { object = c; armed = true } in
      let handled : AreArmed nobody (dispatch j client tag message content s).1.object =
        elim (Option-cases (lookup message.correlation_id c.rpc_response_callbacks)) [
          | inl l ↦
              rw (l, dispatch)
                ((handle_call-Keeps client nobody-Stable (on_call nobody) message content).keeps s
                  armed)
          | inr (guard, l) ↦ elim h [
            | inl none_eq ↦ absurd (cc)
            | inr error ↦
                rw (l, dispatch)
                  ((error-Keeps client nobody-Stable (on_call nobody) tag message.correlation_id
                      guard content error).keeps
                    s armed)
          ]
        ] in
      rw p (finally-kept nobody-Stable tag (dispatch j client tag message content) c handled)

  handles-AreArmed :
      (message : Message) (tag : ℕ) (c c' : Connection R F)
      → handle_management_message j client message tag c ≡ (ok tt, c')
      → AreArmed nobody c
      → AreArmed nobody c'
  unfolding handle_management_message
  handles-AreArmed message tag c c' h armed = elim (Option-cases (j.parse message.body)) [
    | inl p ↦ absurd (ground arith)
    | inr (content, p) ↦
        let differs : (lookup message.correlation_id c.rpc_response_callbacks ≡ none)
              ⊎ (j.contains content "error" ≡ true)
            → AreArmed nobody c' =
          λ o.
            subst (λ x. AreArmed nobody x.1) h
              (not_answered-AreArmed message tag c content p o armed) in
        elim (Option-cases (lookup message.correlation_id c.rpc_response_callbacks)) [
          | inl l ↦ differs (inl l)
          | inr (guard, l) ↦ elim (Bool-cases (j.contains content "error")) [
            | inl e ↦ differs (inr e)
            | inr e ↦ answered-AreArmed message tag c c' content guard p e l h armed
          ]
        ]
  ]

  Reach-AreArmed :
      {c c' : Connection R F} → Reach client c c' → AreArmed nobody c → AreArmed nobody c'
  Reach-AreArmed here armed = armed
  Reach-AreArmed (calls {d} function callback payload timeout uuid r e) armed =
      subst (λ p. AreArmed nobody p.1) e
        ((rpc-Keeps nobody-Stable j function callback payload timeout uuid).keeps d
          (Reach-AreArmed r armed))
  Reach-AreArmed (registers {d} function callback r e) armed =
      subst (λ p. AreArmed nobody p.1) e
        ((register_rpc_callback-Keeps nobody-Stable function callback).keeps d
          (Reach-AreArmed r armed))
  Reach-AreArmed (handles {d} {d'} message tag r e) armed =
      handles-AreArmed message tag d d' e (Reach-AreArmed r armed)

  -- Where the callbacks leave the timeouts of other calls alone, and from a connection in which all run:
  -- after any course of handlers without a failure, the timer of every call that still waits for an
  -- answer has not been cancelled, and its wait, when it expires, ends in the exception for a timeout. A
  -- wait that was aborted does nothing; one that had expired before its call was answered runs all the
  -- same, on a guard that is gone.
  pub Reach-times_out :
      (c c' : Connection R F) (id : String) (error : ErrorCode)
      → Reach client c c'
      → AreArmed nobody c
      → error ≢ operation_aborted
      → (wait_over j client operation_aborted id c' ≡ (ok tt, c'))
        × (((guard : Guard R) × (lookup id c'.rpc_response_callbacks ≡ some guard)
              × (guard.armed ≡ true)
              × (wait_over j client error id c' ≡ (err (runtime_error "Timeout during RPC"), c')))
            ⊎ ((lookup id c'.rpc_response_callbacks ≡ none)
                × (wait_over j client error id c' ≡ (err dangling, c'))))
  unfolding wait_over on_timeout
  Reach-times_out c c' id error r armed expired = (
    refl,
    elim (Option-cases (lookup id c'.rpc_response_callbacks)) [
      | inl l ↦ inr (l, absent error l expired)
      | inr (guard, l) ↦
          inl (guard, l, Reach-AreArmed r armed id guard l refl, waiting error guard l expired)
    ],
  )
    where
      absent :
          (e : ErrorCode)
          → lookup id c'.rpc_response_callbacks ≡ none
          → e ≢ operation_aborted
          → wait_over j client e id c' ≡ (err dangling, c')
      absent success l x = rw (l, wait_over) refl
      absent operation_aborted l x = absurd (x refl)
      absent (other n) l x = rw (l, wait_over) refl

      waiting :
          (e : ErrorCode) (guard : Guard R)
          → lookup id c'.rpc_response_callbacks ≡ some guard
          → e ≢ operation_aborted
          → wait_over j client e id c' ≡ (err (runtime_error "Timeout during RPC"), c')
      waiting success guard l x = rw (l, wait_over) refl
      waiting operation_aborted guard l x = absurd (x refl)
      waiting (other n) guard l x = rw (l, wait_over) refl
