-- ===== src/RpcRequest.antt =====
-- include/metricq/rpc_request.hpp: a client that makes one remote procedure call, keeps the answer, and
-- stops.
use metricq_cpp.Prelude.{List, [], ◌∷◌, ◌++◌, String}
use metricq_cpp.Prelude.Outcome.{Action, ◌>>◌, modify}
use metricq_cpp.Json.{Json}

pub data Call (Value : Type 0) : Type 0 where
  requests : String → Value → Call Value
  stops : Call Value

pub record RpcRequest (Value : Type 0) : Type 0 where
  pub function : String
  pub payload : Value
  pub response : Value
  pub calls : List (Call Value)

-- The constructor.
unfoldable pub new : (j : Json) → String → j.Value → RpcRequest j.Value
new j function payload = record {
  function = function;
  payload = payload;
  response = j.null;
  calls = [];
}

module _ {Value : Type 0} where
  abbrev pub call : Call Value → RpcRequest Value → RpcRequest Value
  call c s = record s { calls = s.calls ++ c ∷ [] }

  unfoldable pub on_connected : Action (RpcRequest Value) (Unit {0})
  on_connected = modify (λ s. call (requests s.function s.payload) s)

  -- The callback that `on_connected` gives to `rpc` for the answer.
  unfoldable pub answered : Value → Action (RpcRequest Value) (Unit {0})
  answered response = do modify (λ s. record s { response = response }); modify (call stops)
