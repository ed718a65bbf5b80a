-- ===== src/Connect/Steps.antt =====
-- The steps in which `Connection::connect` of src/connection.cpp sets up a connection, and the addresses
-- that are derived from its own.
use metricq_cpp.Prelude.{
  ℕ, suc, ◌≤◌, take, ◌≡◌, inl, inr, Bool, List, [], ◌∷◌, Option, none, some, String, arith,
  Bool-cases,
}
use metricq_cpp.Prelude.Outcome.{Result, ok, Action, Result-cases}
use metricq_cpp.Connect.{
  Address, Call, opens, declares, binds, consumes, connected, Connection, broadcast_exchange,
  starts_with, derive_address, queue_declared, queue_bound, bind_failed, consuming, consume_failed,
  channel_failed,
}

-- An answer of the library, with the queue that it is about.
pub data Answer : Type 0 where
  declared bound started : String → Answer
  unbound refused : Answer
  broken : String → Answer

-- The last entry of a list.
abbrev pub last : {A : Type 0} → List A → Option A
last [] = none
last (x ∷ []) = some x
last (x ∷ y ∷ ys) = last (y ∷ ys)

-- How many of the answers say that what was asked for has been done.
abbrev pub and_done : Answer → ℕ → ℕ
and_done (declared queue) n = suc n
and_done (bound queue) n = suc n
and_done (started queue) n = suc n
and_done _ n = n

abbrev pub done : List Answer → ℕ
done [] = 0
done (a ∷ as') = and_done a (done as')

module _ {Login : Type 0} where
  -- The callback for an answer.
  abbrev pub on_answer : Answer → Action (Connection Login) (Unit {0})
  on_answer (declared queue) = queue_declared queue
  on_answer (bound queue) = queue_bound queue
  on_answer (started queue) = consuming
  on_answer unbound = bind_failed
  on_answer refused = consume_failed
  on_answer (broken message) = channel_failed message

  -- The library answers what it was asked for last, with the queue of the request. The channel may fail at
  -- any time.
  abbrev pub IsAsked : Answer → List (Call Login) → Type 0
  IsAsked (declared queue) calls = last calls ≡ some (declares queue)
  IsAsked (bound queue) calls =
      (exchange key : String) × (last calls ≡ some (binds exchange queue key))
  IsAsked (started queue) calls = last calls ≡ some (consumes queue)
  IsAsked unbound calls =
      (exchange queue key : String) × (last calls ≡ some (binds exchange queue key))
  IsAsked refused calls = (queue : String) × (last calls ≡ some (consumes queue))
  IsAsked (broken message) calls = Unit

  -- What a connection may become, with the answers that have come, the latest first.
  pub data Reach (s : Connection Login) : Connection Login → List Answer → Type 0 where
    here : Reach s s []
    then :
        {s' : Connection Login} {answers : List Answer} (a : Answer)
        → Reach s s' answers
        → IsAsked a s'.calls
        → Reach s (on_answer a s').1 (a ∷ answers)

  -- The calls of a setup that succeeds.
  abbrev pub setup : Bool → Address Login → String → List (Call Login)
  setup secure address queue =
      opens secure address
      ∷ declares queue
      ∷ binds broadcast_exchange queue "#"
      ∷ consumes queue
      ∷ connected
      ∷ []

  -- The first two calls, and one more for each answer that says that something has been done.
  abbrev pub made : Bool → Address Login → String → ℕ → List (Call Login)
  made secure address queue n = take (suc (suc n)) (setup secure address queue)

  module _ (secure : Bool) (address : Address Login) where
    record Sound (s s' : Connection Login) (n : ℕ) : Type 0 where
      same_queue : s'.client_queue ≡ s.client_queue
      below : n ≤ 3
      calls_made : s'.calls ≡ made secure address s.client_queue n

  module _ (parse : String → Result (Address Login)) where
    -- An address that is derived has the login of the connection to the manager, and the connection stays
    -- as it is.
    pub derive_address-login :
        (text : String) (s : Connection Login) (own address : Address Login)
        → s.management_address ≡ some own
        → (derive_address parse text s).0 ≡ ok address
        → (address.login ≡ own.login) × ((derive_address parse text s).1 ≡ s)
    unfolding derive_address
    derive_address-login text s own address known h =
        elim (Bool-cases (starts_with text "vhost:")) [
          | inl e ↦ ground arith
          | inr e ↦ elim (Result-cases (parse text)) [
            | inl (a, p) ↦ ground arith
            | inr (x, p) ↦ absurd ground arith
          ]
        ]
