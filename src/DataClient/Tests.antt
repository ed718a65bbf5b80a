-- ===== src/DataClient/Tests.antt =====
-- Data connections of src/data_client.cpp that are opened, kept, refused and closed.
use metricq_cpp.Prelude.{ℕ, ◌≡◌, refl, ap, sym, Bool, true, [], ◌∷◌, String, str_eq}
use metricq_cpp.Prelude.Outcome.{Result, ok, err, aborted, assertion, ◌>>◌, ok_injective}
use metricq_cpp.Connect.{Address, Connection, starts_with, connect}
use metricq_cpp.Connect
use metricq_cpp.DataClient.{
  opens, makes_channel, closes_data, closes_management, named_address, data_config, close,
  data_closed,
}
use metricq_cpp.DataClient.Opened.{configure, over, opened, asks_tls, configure-opened}
use metricq_cpp.Json.Tree.{Tree, text, object, field, end}
use metricq_cpp.Json.Sample.{sample}

abbrev parse : String → Result (Address ℕ)
parse host = ok (record {
  hostname = host;
  port = 5672;
  login = 7;
  vhost = "/";
  secure = starts_with host "amqps";
})

abbrev same : Address ℕ → Address ℕ → Bool
same a b = str_eq a.vhost b.vhost

abbrev manager : Connection ℕ
unfolding connect
manager = (connect parse "amqps://manager" (Connect.new "me" "1" true)).1

abbrev names : String → Tree
names address = object (field "dataServerAddress" (text address) end)

abbrev of_manager : Address ℕ
of_manager = record {
  hostname = "amqps://manager";
  port = 5672;
  login = 7;
  vhost = "data";
  secure = true;
}

-- A virtual host on the server of the manager, which is connected with TLS.
opens-vhost :
    (data_config parse same sample (names "vhost:data") (over manager)).1.calls
    ≡ opens true of_manager ∷ makes_channel ∷ []
unfolding data_config connect Connect.new Connect.derive_address
opens-vhost = refl

refuses-other :
    (configure parse same sample (names "vhost:data" ∷ names "vhost:other" ∷ []) (over manager)).0
    ≡ err aborted
unfolding data_config connect Connect.new Connect.derive_address
refuses-other = refl

refuses-unnamed : (data_config parse same sample (object end) (over manager)).0 ≡ err assertion
unfolding data_config
refuses-unnamed = refl

closes-early : (close (over manager)).1.calls ≡ closes_management ∷ []
unfolding close
closes-early = refl

connects : connect parse "amqps://manager" (Connect.new "me" "1" true) ≡ (ok tt, manager)
unfolding connect
connects = refl

configures :
    (configure parse same sample (names "vhost:data" ∷ names "vhost:data" ∷ []) (over manager)).0
    ≡ ok tt
unfolding data_config connect Connect.new Connect.derive_address
configures = refl

configure-opened_example :
    (own address : Address ℕ) × (named : String) × (parse "amqps://manager" ≡ ok own)
    × (named_address sample (names "vhost:data") ≡ ok named)
    × (configure parse same sample (names "vhost:data" ∷ names "vhost:data" ∷ []) (over manager)
        ≡ (ok tt, opened address (over manager)))
    × (address.login ≡ own.login)
    × (address.secure ≡ asks_tls "amqps://manager" named)
    × (((close >> data_closed) (opened address (over manager))).1.calls
        ≡ opens address.secure address ∷ makes_channel ∷ closes_data ∷ closes_management ∷ [])
configure-opened_example =
    configure-opened parse same sample (λ t a e. sym (ap (λ b. b.secure) (ok_injective e)))
      "amqps://manager" (Connect.new "me" "1" true) manager (names "vhost:data")
      (names "vhost:data" ∷ []) connects configures
