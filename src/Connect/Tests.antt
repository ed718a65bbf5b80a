-- ===== src/Connect/Tests.antt =====
-- A connection of src/connection.cpp that is set up, and addresses derived from its own.
use metricq_cpp.Prelude.{ℕ, ◌≡◌, refl, true, false, [], ◌∷◌, some, String}
use metricq_cpp.Prelude.Outcome.{Result, ok, err, null_pointer, ◌>>◌}
use metricq_cpp.Connect.{
  Address, Connection, opens, declares, binds, consumes, connected, new, connect, derive_address,
  queue_declared, queue_bound, consuming,
}

-- The host is the text, and the login a number.
abbrev parse : String → Result (Address ℕ)
parse text = ok (record { hostname = text; port = 5672; login = 0; vhost = "/"; secure = false })

abbrev own : Address ℕ
own = record { hostname = "amqps"; port = 5672; login = 7; vhost = "/"; secure = true }

abbrev ready : Connection ℕ
ready = record {
  token = "me.1";
  management_address = some (record own { login = 0; secure = false });
  client_queue = "me.1-rpc";
  calls =
      opens true (record own { login = 0; secure = false })
      ∷ declares "me.1-rpc"
      ∷ binds "metricq.broadcast" "me.1-rpc" "#"
      ∷ consumes "me.1-rpc"
      ∷ connected
      ∷ [];
}

set_up :
    (connect parse "amqps" >> queue_declared "me.1-rpc" >> queue_bound "me.1-rpc" >> consuming)
      (new "me" "1" true)
    ≡ (ok tt, ready)
unfolding connect queue_declared queue_bound consuming new
set_up = refl

abbrev with_own : Connection ℕ
with_own = record ready { management_address = some own }

-- A virtual host is one of the server of the manager.
derived_vhost :
    derive_address parse "vhost:data" with_own ≡ (ok (record own { vhost = "data" }), with_own)
unfolding derive_address
derived_vhost = refl

derived_host : derive_address parse "other" with_own ≡ (
  ok (record { hostname = "other"; port = 5672; login = 7; vhost = "/"; secure = false }),
  with_own,
)
unfolding derive_address
derived_host = refl

derived_early : (derive_address parse "vhost:data" (new "me" "" false)).0 ≡ err null_pointer
unfolding derive_address new
derived_early = refl
