-- ===== src/DataClient/Opened.antt =====
-- The data connection that a client of src/data_client.cpp opens, and its address.
use Prim.Native.String.{slice, len}
use metricq_cpp.Prelude.{
  ◌≡◌, refl, ap, sym, ◌∙◌, inl, inr, Bool, List, [], ◌∷◌, none, some, String, Bool-cases,
  if◌then◌else◌,
}
use metricq_cpp.Prelude.Outcome.{
  Result, ok, err, aborted, Action, ◌>>◌, skip, Result-cases, >>-inv, ok_injective,
}
use metricq_cpp.Connect.{Address, Connection, starts_with, connect, derive_address}
use metricq_cpp.DataClient.{
  DataClient, named_address, opens, makes_channel, closes_data, closes_management, close,
  data_closed, call, use_address, data_config,
}
use metricq_cpp.Json.{Json}

-- Whether a text asks for TLS, for a manager at `server`.
abbrev pub asks_tls : String → String → Bool
asks_tls server text =
    if starts_with text "vhost:" then starts_with server "amqps" else starts_with text "amqps"

-- The client once it has a data connection to an address.
abbrev pub opened : {Login : Type 0} → Address Login → DataClient Login → DataClient Login
opened address s = call makes_channel (
    call (opens address.secure address)
      (record s { data_server_address = some address; data_connection = some address.secure }))

-- A client with this connection to the manager and none for data.
abbrev pub over : {Login : Type 0} → Connection Login → DataClient Login
over management = record {
  management = management;
  data_server_address = none;
  data_connection = none;
  calls = [];
}

module _ {Login : Type 0} (parse : String → Result (Address Login))
    (same : Address Login → Address Login → Bool) (j : Json) where
  open j use {Value}

  -- One configuration after the other.
  abbrev pub configure : List Value → Action (DataClient Login) (Unit {0})
  configure [] = skip
  configure (config ∷ configs) = data_config parse same j config >> configure configs

  -- A configuration that is taken has an address, which is derived and then used.
  data_config-inv :
      (config : Value) (s : DataClient Login)
      → (data_config parse same j config s).0 ≡ ok tt
      → (text : String) × (address : Address Login) × (named_address j config ≡ ok text)
        × ((derive_address parse text s.management).0 ≡ ok address)
        × (data_config parse same j config s ≡ use_address parse same address s)
  unfolding data_config
  data_config-inv config s h = elim (Result-cases (named_address j config)) [
    | inl (text, e) ↦ elim (Result-cases (derive_address parse text s.management).0) [
      | inl (address, f) ↦ (text, address, e, f, rw (e, f) refl)
      | inr (x, f) ↦ absurd (let failed : err x ≡ ok tt = sym (rw (e, f) refl) ∙ h in cc)
    ]
    | inr (x, e) ↦ absurd (let failed : err x ≡ ok tt = sym (rw e refl) ∙ h in cc)
  ]

  -- With a data connection, what is taken changes nothing.
  kept :
      (config : Value) (address : Address Login) (s : DataClient Login)
      → (data_config parse same j config (opened address s)).0 ≡ ok tt
      → data_config parse same j config (opened address s) ≡ (ok tt, opened address s)
  unfolding use_address
  kept config address s h =
      let (_, other, _, _, e) = data_config-inv config (opened address s) h in
      elim (Bool-cases (same other address)) [
        | inl x ↦ e ∙ rw x refl
        | inr x ↦ absurd (
            let differs : use_address parse same other (opened address s)
                ≡ (err aborted, opened address s) =
              rw x refl in
            let failed : err aborted ≡ ok tt = sym (ap (λ p. p.0) (e ∙ differs)) ∙ h in cc)
      ]

  configure-kept :
      (configs : List Value) (address : Address Login) (s : DataClient Login)
      → (configure configs (opened address s)).0 ≡ ok tt
      → configure configs (opened address s) ≡ (ok tt, opened address s)
  configure-kept [] address s h = refl
  configure-kept (config ∷ configs) address s h =
      let (_, first, e) =
        >>-inv (data_config parse same j config) (configure configs) (opened address s) tt h in
      let same_state = kept config address s first in
      let e' = e ∙ ap (λ p. configure configs p.1) same_state in
      e' ∙ configure-kept configs address s (sym (ap (λ p. p.0) e') ∙ h)

  connect-own :
      (server : String) (c m : Connection Login)
      → connect parse server c ≡ (ok tt, m)
      → (own : Address Login) × (parse server ≡ ok own) × (m.management_address ≡ some own)
  unfolding connect
  connect-own server c m h = elim (Result-cases (parse server)) [
    | inl (own, e) ↦
        let kept : (connect parse server c).1.management_address ≡ some own = rw e refl in
        (own, e, sym (ap (λ p. p.1.management_address) h) ∙ kept)
    | inr (x, e) ↦ absurd (let failed : err x ≡ ok tt = sym (rw e refl) ∙ ap (λ p. p.0) h in cc)
  ]

  module _
      (parse-secure : (text : String) (address : Address Login)
        → parse text ≡ ok address
        → address.secure ≡ starts_with text "amqps") where
    derived :
        (server text : String) (m : Connection Login) (own address : Address Login)
        → parse server ≡ ok own
        → m.management_address ≡ some own
        → (derive_address parse text m).0 ≡ ok address
        → (address.login ≡ own.login) × (address.secure ≡ asks_tls server text)
    unfolding derive_address
    derived server text m own address e f h = elim (Bool-cases (starts_with text "vhost:")) [
      | inl v ↦
          let vhost : Address Login = record own { vhost = slice text (len "vhost:") (len text) } in
          let runs : (derive_address parse text m).0 ≡ ok vhost = rw (f, v) refl in
          let is_own : vhost ≡ address = ok_injective (sym runs ∙ h) in
          (
            sym (ap (λ a. a.login) is_own),
            sym (ap (λ a. a.secure) is_own) ∙ parse-secure server own e ∙ rw v refl,
          )
      | inr v ↦ elim (Result-cases (parse text)) [
        | inl (other, p) ↦
            let with_login : Address Login = record other { login = own.login } in
            let runs : (derive_address parse text m).0 ≡ ok with_login = rw (f, v, p) refl in
            let is_other : with_login ≡ address = ok_injective (sym runs ∙ h) in
            (
              sym (ap (λ a. a.login) is_other),
              sym (ap (λ a. a.secure) is_other) ∙ parse-secure text other p ∙ rw v refl,
            )
        | inr (x, p) ↦
            absurd (let runs : (derive_address parse text m).0 ≡ err x = rw (f, v, p) refl in cc)
      ]
    ]

    -- For a library that makes an address with TLS exactly from a text that starts with `amqps`: when a client
    -- is connected to the manager and takes a first configuration and then any others, it has opened one
    -- data connection, to an address with the login of the manager, and every later one has changed
    -- nothing. That connection uses TLS exactly when the text of the first configuration asks for it, or,
    -- where it names a virtual host only, when that of the manager does. A close then closes the data
    -- connection first, and the management connection once that is done.
    pub configure-opened :
        (server : String) (c m : Connection Login) (config : Value) (configs : List Value)
        → connect parse server c ≡ (ok tt, m)
        → (configure (config ∷ configs) (over m)).0 ≡ ok tt
        → (own address : Address Login) × (text : String) × (parse server ≡ ok own)
          × (named_address j config ≡ ok text)
          × (configure (config ∷ configs) (over m) ≡ (ok tt, opened address (over m)))
          × (address.login ≡ own.login)
          × (address.secure ≡ asks_tls server text)
          × (((close >> data_closed) (opened address (over m))).1.calls
              ≡ opens address.secure address ∷ makes_channel ∷ closes_data ∷ closes_management ∷ [])
    unfolding use_address close data_closed
    configure-opened server c m config configs connects h =
        let (own, e, f) = connect-own server c m connects in
        let (_, first, then_rest) =
          >>-inv (data_config parse same j config) (configure configs) (over m) tt h in
        let (text, address, named, derives, used) = data_config-inv config (over m) first in
        let (login, secure) = derived server text m own address e f derives in
        let after = then_rest ∙ ap (λ p. configure configs p.1) used in
        (
          own,
          address,
          text,
          e,
          named,
          after ∙ configure-kept configs address (over m) (sym (ap (λ p. p.0) after) ∙ h),
          login,
          secure,
          refl,
        )
