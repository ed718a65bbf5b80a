-- ===== src/Simple.antt =====
-- src/simple.cpp: functions that connect to the manager, wait until one task is done, and return what it
-- has given. `main_loop` runs handlers until there are none left, in an order that the network decides;
-- the list of events says which handlers run. `fails` stands for a handler of the connection itself that
-- ends with an exception, as after a failed binding or a timeout. Logging is left out.
pub mod Answers
pub mod Drained
mod Tests
use metricq_cpp.Prelude.{
  not, Bool, true, List, [], ◌∷◌, Option, none, some, String, str_eq, if◌then◌else◌,
}
use metricq_cpp.Prelude.Int.{ℤ}
use metricq_cpp.Prelude.Outcome.{
  Result, ok, err, Failure, Action, ◌>>=◌, ◌>>◌, skip, raise, lift, gets, bind,
}
use metricq_cpp.Chunk.{DataChunk, TimeValue}
use metricq_cpp.Connect.{Address, Connection, connect, derive_address}
use metricq_cpp.Connect
use metricq_cpp.Drain.{
  Drain, Message, blank, construct, simple_on_connected, unsubscribe_complete, keep_chunk, on_data,
  released,
}
use metricq_cpp.Drain
use metricq_cpp.Json.{Json}
use metricq_cpp.Metadata.{Metadata}
use metricq_cpp.RpcRequest.{RpcRequest}
use metricq_cpp.RpcRequest
use metricq_cpp.Subscriber.{Subscriber, subscribed}
use metricq_cpp.Subscriber
use metricq_cpp.Table.{insert_or_keep}

-- `Connection::main_loop`: the first exception leaves `io_service.run()`.
unfoldable pub main_loop : {S E : Type 0} → (E → Action S (Unit {0})) → List E → Action S (Unit {0})
main_loop handle [] = skip
main_loop handle (e ∷ es) = handle e >> main_loop handle es

-- What happens to a client that makes one call.
pub data Event (Value : Type 0) : Type 0 where
  connected : Event Value
  answered : Value → Event Value
  fails : Failure → Event Value

-- What happens to a drain.
pub data DrainEvent (Value : Type 0) : Type 0 where
  drain_connected : DrainEvent Value
  unsubscribed : Value → DrainEvent Value
  delivered : Message → DrainEvent Value
  queue_released : DrainEvent Value
  drain_fails : Failure → DrainEvent Value

abbrev pub on_event : (j : Json) → Event j.Value → Action Subscriber (Unit {0})
on_event j connected = Subscriber.on_connected
on_event j (answered response) = subscribed j response
on_event j (fails e) = raise e

abbrev pub on_request : {V : Type 0} → Event V → Action (RpcRequest V) (Unit {0})
on_request connected = RpcRequest.on_connected
on_request (answered response) = RpcRequest.answered response
on_request (fails e) = raise e

module _ (j : Json) where
  open j use {Value}

  -- The payload: `has_selector` is the test of the caller.
  unfoldable pub payload_of : String → Bool → Value → Result Value
  payload_of format has_selector selector =
      bind (j.put j.object "format" (j.text format))
        λ payload. if has_selector then j.put payload "selector" selector else ok payload

  unfoldable pub read_texts : List Value → Result (List String)
  read_texts [] = ok []
  read_texts (value ∷ values) =
      bind (j.get_string value) λ text. bind (read_texts values) λ texts. ok (text ∷ texts)

  abbrev pub emplace_all :
      List (String × Value) → List (String × Metadata j) → List (String × Metadata j)
  emplace_all [] response = response
  emplace_all ((key, value) ∷ rest) response =
      emplace_all rest (insert_or_keep key (record { metadata = value }) response)

-- A connection of its own for every call; all its clients add a `uuid` to their token. `parse` is the
-- constructor of `AMQP::Address` from a text, and `same` compares two addresses.
module _ {Login : Type 0} (parse : String → Result (Address Login)) (url token uuid : String) where
  abbrev pub connecting : Result (Unit {0}) × Connection Login
  connecting = connect parse url (Connect.new token uuid true)

  -- `Connection::derive_address` of the connection.
  abbrev pub derive : String → Result (Address Login)
  derive text = (derive_address parse text (connecting).1).0

  module _ (j : Json) where
    open j use {Value}

    -- `subscribe`, with the client it leaves.
    unfoldable pub subscribe : List String → ℤ → List (Event Value) → Result String × Subscriber
    unfolding main_loop
    subscribe metrics expires events =
        (do
          Subscriber.add_all metrics
          lift (connecting).0
          main_loop (on_event j) events
          gets (λ s. s.queue))
          (Subscriber.new expires)

    unfoldable pub subscribe_one : String → ℤ → List (Event Value) → Result String × Subscriber
    unfolding subscribe
    subscribe_one metric = subscribe (metric ∷ [])

    -- The call of a client that makes one, up to the answer.
    unfoldable pub ask : String → Value → List (Event Value) → Result Value × RpcRequest Value
    unfolding main_loop
    ask function payload events =
        (do lift (connecting).0; main_loop on_request events; gets (λ s. s.response))
          (RpcRequest.new j function payload)

    -- The client is there once the payload is made.
    unfoldable pub get_metrics :
        String → List (Event Value) → Result (List String) × Option (RpcRequest Value)
    unfolding ask payload_of read_texts
    get_metrics selector events =
        elim (payload_of j "array" (not (str_eq selector "")) (j.text selector)) [
          | err e ↦ (err e, none)
          | ok payload ↦
              let (r, client) = ask "history.get_metrics" payload events in
              (
                bind r λ response.
                    bind (j.at response "metrics") λ metrics. read_texts j (j.elements metrics),
                some client,
              )
        ]

    -- `get_metadata_`
    unfoldable pub get_metadata_by :
        Value → List (Event Value) → Result (List (String × Metadata j)) × Option (RpcRequest Value)
    unfolding ask payload_of
    get_metadata_by selector events =
        elim (payload_of j "object" (not (j.is_empty selector)) selector) [
          | err e ↦ (err e, none)
          | ok payload ↦
              let (r, client) = ask "get_metrics" payload events in
              (
                bind r λ response.
                    bind (j.at response "metrics")
                      λ metrics. bind (j.items metrics) λ items. ok (emplace_all j items []),
                some client,
              )
        ]

    unfoldable pub get_metadata :
        List (Event Value) → Result (List (String × Metadata j)) × Option (RpcRequest Value)
    unfolding get_metadata_by
    get_metadata = get_metadata_by j.null

    unfoldable pub get_metadata_text :
        String
        → List (Event Value)
        → Result (List (String × Metadata j)) × Option (RpcRequest Value)
    unfolding get_metadata_by
    get_metadata_text selector = get_metadata_by (j.text selector)

    unfoldable pub get_metadata_texts :
        List String
        → List (Event Value)
        → Result (List (String × Metadata j)) × Option (RpcRequest Value)
    unfolding get_metadata_by
    get_metadata_texts selector = get_metadata_by (j.texts selector)

  -- `read_chunk` is what `ParseFromString` leaves in an empty chunk.
  module _ {j : Json} {V : Type 0} (same : Address Login → Address Login → Bool)
      (read_chunk : String → DataChunk V) where
    open j use {Value}

    abbrev pub on_drain_event : DrainEvent Value → Action (Drain j (Address Login) V) (Unit {0})
    on_drain_event drain_connected = simple_on_connected
    on_drain_event (unsubscribed response) = unsubscribe_complete derive same response
    on_drain_event (delivered message) = on_data read_chunk keep_chunk message
    on_drain_event queue_released = released
    on_drain_event (drain_fails e) = raise e

    -- `drain`, with the client it leaves.
    unfoldable pub drain :
        List String
        → String
        → List (DrainEvent Value)
        → Result (List (String × List (TimeValue V))) × Drain j (Address Login) V
    unfolding main_loop
    drain metrics queue events =
        (do
          construct queue
          Drain.add_all metrics
          lift (connecting).0
          main_loop on_drain_event events
          gets (λ s. s.points))
          blank

    unfoldable pub drain_one :
        String
        → String
        → List (DrainEvent Value)
        → Result (List (TimeValue V)) × Drain j (Address Login) V
    unfolding main_loop
    drain_one metric queue events =
        (do
          construct queue
          Drain.add metric
          lift (connecting).0
          main_loop on_drain_event events
          Drain.at metric)
          blank
