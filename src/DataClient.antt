-- ===== src/DataClient.antt =====
-- `DataClient::data_config`, `open_data_connection` and `close` of src/data_client.cpp, with the connection to
-- the manager that the address is derived from. `same` compares two addresses, which the AMQP library
-- does. Logging is left out.
pub mod Opened
mod Tests
use metricq_cpp.Prelude.{
  Bool, not, ◌&&◌, List, [], ◌∷◌, ◌++◌, Option, none, some, String, if◌then◌else◌,
}
use metricq_cpp.Prelude.Outcome.{
  Result, ok, err, aborted, null_pointer, bind, Action, ◌>>=◌, ◌>>◌, lift, gets, modify, assertion,
}
use metricq_cpp.Connect.{Address, derive_address}
use metricq_cpp.Connect
use metricq_cpp.Json.{Json}

pub data Call (Login : Type 0) : Type 0 where
  -- With an `SSLConnectionHandler` or not.
  opens : Bool → Address Login → Call Login
  makes_channel closes_data closes_management : Call Login

pub record DataClient (Login : Type 0) : Type 0 where
  pub management : Connect.Connection Login
  pub data_server_address : Option (Address Login)
  -- Once there is one, whether it is an `SSLConnectionHandler`.
  pub data_connection : Option Bool
  pub calls : List (Call Login)

module _ (j : Json) where
  open j use {Value}

  -- `config["dataServerAddress"].get<std::string>()`. The entry of an object without that key is
  -- undefined, as an assertion of the JSON library says.
  abbrev pub named_address : Value → Result String
  named_address config =
      if j.is_object config && not (j.contains config "dataServerAddress")
      then err assertion
      else bind (j.at config "dataServerAddress") j.get_string

module _ {Login : Type 0} where
  abbrev pub call : Call Login → DataClient Login → DataClient Login
  call c s = record s { calls = s.calls ++ c ∷ [] }

  unfoldable pub open_data_connection : Action (DataClient Login) (Unit {0})
  open_data_connection s = elim s.data_server_address [
    | none ↦ (err null_pointer, s)
    | some address ↦ (
      ok tt,
      call makes_channel (
          call (opens address.secure address) (record s { data_connection = some address.secure })),
    )
  ]

  unfoldable pub close : Action (DataClient Login) (Unit {0})
  close s = elim s.data_connection [
    | none ↦ (ok tt, call closes_management s)
    | some secure ↦ (ok tt, call closes_data s)
  ]

  -- The callback that `close` gives to the data connection.
  unfoldable pub data_closed : Action (DataClient Login) (Unit {0})
  data_closed = modify (call closes_management)

  module _ (parse : String → Result (Address Login))
      (same : Address Login → Address Login → Bool) where
    -- The address is taken when there is no connection yet; after that it must not differ.
    unfoldable pub use_address : Address Login → Action (DataClient Login) (Unit {0})
    unfolding open_data_connection
    use_address address s = elim s.data_connection [
      | none ↦ open_data_connection (record s { data_server_address = some address })
      | some secure ↦ elim s.data_server_address [
        | none ↦ (err aborted, s)
        | some old ↦ if same address old then (ok tt, s) else (err aborted, s)
      ]
    ]

    unfoldable pub data_config : (j : Json) → j.Value → Action (DataClient Login) (Unit {0})
    unfolding use_address
    data_config j config = do
      text ← lift (named_address j config)
      address ← gets (λ s. (derive_address parse text s.management).0)
      address' ← lift address
      use_address address'
