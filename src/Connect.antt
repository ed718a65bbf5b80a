-- ===== src/Connect.antt =====
-- `make_token`, `Connection::connect` and `Connection::derive_address` of src/connection.cpp: a connection
-- to the manager is set up in steps, each of which waits for the AMQP library. `parse` is the constructor
-- of `AMQP::Address` from a text, which may throw. Logging is left out.
pub mod Steps
mod Tests
use Prim.Native.String.{slice, len}
use metricq_cpp.Prelude.{
  ℕ, Bool, true, false, List, [], ◌∷◌, ◌++◌, Option, none, some, String, str_eq, str_append,
  if◌then◌else◌,
}
use metricq_cpp.Prelude.Outcome.{
  Result, ok, err, runtime_error, null_pointer, bind, Action, ◌>>=◌, ◌>>◌, lift, raise, skip, gets,
  modify,
}

-- `AMQP::Address`
pub record Address (Login : Type 0) : Type 0 where
  pub hostname : String
  pub port : ℕ
  pub login : Login
  pub vhost : String
  pub secure : Bool

pub data Call (Login : Type 0) : Type 0 where
  -- With an `SSLConnectionHandler` or not.
  opens : Bool → Address Login → Call Login
  declares : String → Call Login
  binds : String → String → String → Call Login
  consumes : String → Call Login
  -- `on_connected()`
  connected : Call Login

pub record Connection (Login : Type 0) : Type 0 where
  pub token : String
  pub management_address : Option (Address Login)
  pub client_queue : String
  pub calls : List (Call Login)

-- `make_token`; `uuid` is the text that `uuid()` makes.
unfoldable pub make_token : String → String → Bool → String
make_token token uuid add_uuid = if add_uuid then str_append (str_append token ".") uuid else token

-- `Connection::Connection`
unfoldable pub new : {Login : Type 0} → String → String → Bool → Connection Login
unfolding make_token
new token uuid add_uuid = record {
  token = make_token token uuid add_uuid;
  management_address = none;
  client_queue = "";
  calls = [];
}

abbrev pub broadcast_exchange : String
broadcast_exchange = "metricq.broadcast"

-- Whether a text starts with another.
abbrev pub starts_with : String → String → Bool
starts_with text prefix = str_eq (slice text 0 (len prefix)) prefix

module _ {Login : Type 0} where
  abbrev pub call : Call Login → Connection Login → Connection Login
  call c s = record s { calls = s.calls ++ c ∷ [] }

  module _ (parse : String → Result (Address Login)) where
    unfoldable pub connect : String → Action (Connection Login) (Unit {0})
    connect server_address = do
      address ← lift (parse server_address)
      modify (λ s. record s { management_address = some address })
      modify (call (opens (starts_with server_address "amqps") address))
      modify (λ s. record s { client_queue = str_append s.token "-rpc" })
      modify (λ s. call (declares s.client_queue) s)

    unfoldable pub derive_address : String → Action (Connection Login) (Address Login)
    derive_address text s = elim s.management_address [
      | none ↦ (err null_pointer, s)
      | some own ↦
          if starts_with text "vhost:"
          then (ok (record own { vhost = slice text (len "vhost:") (len text) }), s)
          else (bind (parse text) (λ address. ok (record address { login = own.login })), s)
    ]

  -- Once the queue of the client is declared.
  unfoldable pub queue_declared : String → Action (Connection Login) (Unit {0})
  queue_declared name = modify (λ s. call (binds broadcast_exchange s.client_queue "#") s)

  -- Once this queue is bound.
  unfoldable pub queue_bound : String → Action (Connection Login) (Unit {0})
  queue_bound name = modify (call (consumes name))

  unfoldable pub bind_failed : Action (Connection Login) (Unit {0})
  bind_failed = raise (runtime_error "Couldn't bind the management queue to the broadcast exchange")

  -- Once its consumption has started.
  unfoldable pub consuming : Action (Connection Login) (Unit {0})
  consuming = modify (call connected)

  -- The consumption was refused, which is logged only.
  unfoldable pub consume_failed : Action (Connection Login) (Unit {0})
  consume_failed = skip

  -- The channel has failed, at any time.
  unfoldable pub channel_failed : String → Action (Connection Login) (Unit {0})
  channel_failed message = raise (runtime_error message)
