-- ===== src/Sink.antt =====
-- include/metricq/sink.hpp and src/sink.cpp, with `DataClient::data_config` of src/data_client.cpp:
-- a sink is told its data queue, declares and consumes it, keeps the metadata of its metrics and
-- acknowledges data. `A` are addresses of servers: `derive` is `Connection::derive_address`, which
-- parses by the AMQP library, and `same` compares two of them. `V` is the type of the values. What
-- the sink asks of the AMQP library is kept in `calls`; logging is left out.
pub mod Settles
pub mod Queue
pub mod Subscribed
pub mod Data
mod Tests
use metricq_cpp.Prelude.{
  ℕ, Bool, true, false, not, List, [], ◌∷◌, ◌++◌, Option, none, some, String, str_eq, if◌then◌else◌,
}
use metricq_cpp.Prelude.Int.{ℤ, pos, leb_ℤ}
use metricq_cpp.Prelude.Outcome.{
  Result, ok, err, runtime_error, aborted, Action, ◌>>=◌, ◌>>◌, skip, raise, lift, gets, modify,
  when, assert, bind,
}
use metricq_cpp.Chunk.{DataChunk, TimeValue, range_for, time_value}
use metricq_cpp.Json.{Json}
use metricq_cpp.Metadata.{Metadata}
use metricq_cpp.Table.{insert_or_keep}

-- The values that the payload of a call of the manager holds. Durations are nanoseconds; they are sent
-- as seconds.
pub data Argument : Type 0 where
  of_string : String → Argument
  of_strings : List String → Argument
  of_flag : Bool → Argument
  of_duration : ℤ → Argument

pub data Call : Type 0 where
  opens_connection : Call
  sets_qos : ℕ → Call
  declares consumes : String → Call
  acks : ℕ → Call
  -- `rpc(function, callback, payload)`
  requests : String → List (String × Argument) → Call
  closes_data closes_management : Call

pub record Sink (j : Json) (A V : Type 0) : Type 0 where
  -- The address of the data connection, once there is one.
  pub data_server_address : Option A
  pub data_queue : String
  pub data_chunk : DataChunk V
  pub metadata : List (String × Metadata j)
  pub is_data_queue_set_up : Bool
  pub calls : List Call

pub record Delivery : Type 0 where
  pub routingkey : String
  pub body : String
  pub delivery_tag : ℕ

module _ (j : Json) where
  open j use {Value}

  -- `config.at("dataQueue").get<std::string>()`
  abbrev pub named_queue : Value → Result String
  named_queue config = bind (j.at config "dataQueue") j.get_string

module _ {j : Json} {A V : Type 0} where
  open j use {Value}

  abbrev pub call : Call → Sink j A V → Sink j A V
  call c s = record s { calls = s.calls ++ c ∷ [] }

  -- The setter `data_queue(name)`.
  unfoldable pub set_data_queue : String → Action (Sink j A V) (Unit {0})
  set_data_queue name s =
      if str_eq name ""
      then (err (runtime_error "Trying to set data_queue name to empty string."), s)
      else if str_eq s.data_queue ""
      then (assert (not s.is_data_queue_set_up) >> modify (λ s'. record s' { data_queue = name })) s
      else if str_eq s.data_queue name
      then (ok tt, s)
      else if s.is_data_queue_set_up
      then (
        err (
            runtime_error "Trying to change data_queue, but data consumption has already started."),
        s,
      )
      else (ok tt, record s { data_queue = name })

  unfoldable pub setup_data_queue : Action (Sink j A V) (Unit {0})
  setup_data_queue s =
      if s.is_data_queue_set_up
      then (ok tt, s)
      else (do
        modify (call (sets_qos 400))
        queue ← gets (λ s'. s'.data_queue)
        assert (not (str_eq queue ""))
        modify (call (declares queue)))
          s

  -- Once the queue `name` is declared.
  unfoldable pub setup_data_consumer : String → Action (Sink j A V) (Unit {0})
  setup_data_consumer name = modify (call (consumes name))

  -- Once its consumption has started.
  unfoldable pub consume_success : Action (Sink j A V) (Unit {0})
  consume_success = modify (λ s. record s { is_data_queue_set_up = true })

  -- `emplace` on the map of metadata: an entry that is there stays as it is.
  abbrev pub emplace_metadata : String → Value → Sink j A V → Sink j A V
  emplace_metadata key value s = record s {
    metadata = insert_or_keep key (record { metadata = value }) s.metadata;
  }

  unfoldable pub add_metadata : List (String × Value) → Sink j A V → Sink j A V
  add_metadata [] s = s
  add_metadata ((key, value) ∷ rest) s =
      add_metadata rest (if j.is_object value then emplace_metadata key value s else s)

  unfoldable pub update_metadata : Value → Action (Sink j A V) (Unit {0})
  unfolding add_metadata
  update_metadata config = when (j.contains config "metrics") (do
    metrics ← lift (j.at config "metrics")
    items ← lift (j.items metrics)
    modify (add_metadata items))

  -- The rest of `sink_config` once the name of the queue has been read.
  unfoldable pub queue_config : Value → String → Action (Sink j A V) (Unit {0})
  unfolding set_data_queue update_metadata setup_data_queue
  queue_config config name = set_data_queue name >> (update_metadata config >> setup_data_queue)

  unfoldable pub subscribe : List String → Action (Sink j A V) (Unit {0})
  subscribe metrics = modify (
      call (
        requests "sink.subscribe"
          (("metrics", of_strings metrics) ∷ ("metadata", of_flag true) ∷ [])))

  unfoldable pub subscribe_for : List String → ℤ → Action (Sink j A V) (Unit {0})
  subscribe_for metrics expires =
      if leb_ℤ expires (pos 0)
      then raise (runtime_error "Expires must be >0")
      else modify (
          call (
            requests "sink.subscribe" (
              ("metrics", of_strings metrics)
              ∷ ("expires", of_duration expires)
              ∷ ("metadata", of_flag true)
              ∷ [])))

  -- `DataClient::close`: the management connection is closed once the data connection is.
  unfoldable pub close : Action (Sink j A V) (Unit {0})
  close s = elim s.data_server_address [
    | none ↦ (ok tt, call closes_management s)
    | some address ↦ (ok tt, call closes_data s)
  ]

  -- The callback that `close` gives to the data connection.
  unfoldable pub data_closed : Action (Sink j A V) (Unit {0})
  data_closed = modify (call closes_management)

  -- Whether the answer to a subscription names the data queue. A text differs from JSON that is no
  -- text.
  unfoldable pub check_queue : Value → Action (Sink j A V) (Unit {0})
  check_queue response = do
    entry ← lift (j.at response "dataQueue")
    queue ← gets (λ s. s.data_queue)
    when (elim (j.get_string entry) [ ok name ↦ not (str_eq queue name) | err e ↦ true ])
        (raise (runtime_error "inconsistent sink dataQueue setting after subscription"))

  module _ (derive : String → Result A) (same : A → A → Bool) where
    -- The connection is opened once, and a second address must be the same.
    unfoldable pub use_address : A → Action (Sink j A V) (Unit {0})
    use_address address s = elim s.data_server_address [
      | some old ↦ if same address old then (ok tt, s) else (err aborted, s)
      | none ↦ (ok tt, call opens_connection (record s { data_server_address = some address }))
    ]

    -- `config["dataServerAddress"]` of an object without that key is undefined, as an assertion of
    -- the JSON library says.
    unfoldable pub data_config : Value → Action (Sink j A V) (Unit {0})
    unfolding use_address
    data_config config = do
      when (j.is_object config) (assert (j.contains config "dataServerAddress"))
      entry ← lift (j.at config "dataServerAddress")
      text ← lift (j.get_string entry)
      address ← lift (derive text)
      use_address address

    unfoldable pub sink_config : Value → Action (Sink j A V) (Unit {0})
    unfolding data_config queue_config
    sink_config config = data_config config >> (lift (named_queue j config) >>= queue_config config)

    -- The callback that both `subscribe` give to `rpc` for the answer.
    unfoldable pub subscribed : Value → Action (Sink j A V) (Unit {0})
    unfolding sink_config check_queue
    subscribed response = sink_config response >> check_queue response

  -- `parse` is what `ParseFromString` leaves in an empty chunk, and `on_value` what the subclass
  -- does with one point.
  unfoldable pub on_data :
      (String → DataChunk V)
      → (String → TimeValue V → Action (Sink j A V) (Unit {0}))
      → Delivery
      → Action (Sink j A V) (Unit {0})
  unfolding range_for
  on_data parse on_value message = do
    modify (λ s. record s { data_chunk = parse message.body })
    chunk ← gets (λ s. s.data_chunk)
    range_for time_value (on_value message.routingkey) chunk.time_delta chunk.value
    modify (call (acks message.delivery_tag))
