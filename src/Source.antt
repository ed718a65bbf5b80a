-- ===== src/Source.antt =====
-- include/metricq/source.hpp and src/source.cpp, with `DataClient::data_config` of src/data_client.cpp: a
-- source owns metrics, tells the manager about them and publishes their chunks. `A` are addresses of
-- servers: `derive` is `Connection::derive_address`, and `same` compares two of them. `V` is the type
-- of the values. What is asked of the AMQP library and of `rpc` is kept in `calls`. A metric holds a
-- reference to its writer, the source; here it is given the source while one of its methods runs.
-- Logging is left out.
pub mod Mirror
pub mod Publish
pub mod Payload
pub mod Declare
mod Tests
use metricq_cpp.Prelude.{
  Bool, true, false, not, List, [], ◌∷◌, ◌++◌, Option, none, some, String, str_eq, if◌then◌else◌,
}
use metricq_cpp.Prelude.Outcome.{
  Result, ok, err, aborted, null_pointer, out_of_range, Action, ◌>>=◌, ◌>>◌, skip, lift, gets,
  modify, or_raise, when, assert, bind,
}
use metricq_cpp.Chunk.{DataChunk, TimeValue, to_chunk}
use metricq_cpp.Json.{Json, entry_text}
use metricq_cpp.Metadata
use metricq_cpp.Metadata.{Metadata}
use metricq_cpp.Metric
use metricq_cpp.Metric.{Metric}
use metricq_cpp.Table.{lookup, insert_or_keep, update}

pub data Call (Value : Type 0) : Type 0 where
  opens_connection : Call Value
  publishes : String → String → String → Call Value
  requests : String → Value → Call Value

pub record Source (j : Json) (A V : Type 0) : Type 0 where
  -- The address of the data connection, once there is one.
  pub data_server_address : Option A
  pub data_exchange : String
  pub metrics : List (String × Metric V (Metadata j) (Unit {0}))
  pub calls : List (Call j.Value)

-- The methods that a subclass defines.
pub record Hooks (j : Json) (A V : Type 0) : Type 0 where
  pub on_source_config : j.Value → Action (Source j A V) (Unit {0})
  pub on_source_ready : Action (Source j A V) (Unit {0})

-- The metric with another writer.
abbrev pub with_writer : {V M W W' : Type 0} → W' → Metric V M W → Metric V M W'
with_writer w m = record {
  id = m.id;
  metadata = m.metadata;
  writer = w;
  chunk_size = m.chunk_size;
  previous_timestamp = m.previous_timestamp;
  chunk = m.chunk;
}

module _ (j : Json) where
  open j use {Value}

  -- Tell the metadata of a metric, which gets the chunk size of the metric where it has none.
  unfoldable pub declared_metadata : {V W : Type 0} → Action (Metric V (Metadata j) W) Value
  declared_metadata m = elim (Metadata.chunk_size j m.metadata) [
    | err e ↦ (err e, m)
    | ok size ↦
        if not (j.is_nan size)
        then (ok m.metadata.metadata, m)
        else elim (Metadata.set_chunk_size j (j.of_int64 m.chunk_size) m.metadata) [
          | err e ↦ (err e, m)
          | ok metadata ↦ (ok metadata.metadata, record m { metadata = metadata })
        ]
  ]

  -- `payload["metrics"][id] = entry`; an entry that is missing is made, as `null`.
  unfoldable pub put_metric : String → Value → Value → Result Value
  put_metric id entry payload =
      bind (if j.contains payload "metrics" then j.at payload "metrics" else ok j.null)
        λ metrics. bind (j.put metrics id entry) λ metrics'. j.put payload "metrics" metrics'

  -- The loop of `declare_metrics` from a payload on.
  unfoldable pub declare_each :
      {V W : Type 0} → Value → Action (List (String × Metric V (Metadata j) W)) Value
  unfolding declared_metadata put_metric
  declare_each payload [] = (ok payload, [])
  declare_each payload ((key, m) ∷ ms) =
      let (r, m') = declared_metadata m in
      elim (bind r λ entry. put_metric m.id entry payload) [
        | err e ↦ (err e, (key, m') ∷ ms)
        | ok payload' ↦ let (r', ms') = declare_each payload' ms in (r', (key, m') ∷ ms')
      ]

module _ {j : Json} {A V : Type 0} where
  open j use {Value}

  abbrev pub call : Call Value → Source j A V → Source j A V
  call c s = record s { calls = s.calls ++ c ∷ [] }

  module _ (serialize : DataChunk V → String) where
    -- `send(id, chunk)`; `serialize` is `SerializeAsString`. There is a data channel once the data
    -- connection has its address, and a null pointer before.
    unfoldable pub send_chunk : String → DataChunk V → Action (Source j A V) (Unit {0})
    send_chunk id dc s = elim s.data_server_address [
      | none ↦ (err null_pointer, s)
      | some address ↦ (ok tt, call (publishes s.data_exchange id (serialize dc)) s)
    ]

    -- `send(id, tv)`
    unfoldable pub send_value : String → TimeValue V → Action (Source j A V) (Unit {0})
    unfolding send_chunk to_chunk
    send_value id tv = send_chunk id (to_chunk tv)

  -- `(*this)[id]`: a metric that is not there is made.
  unfoldable pub index : String → Source j A V → Source j A V
  index id s = record s {
    metrics = insert_or_keep id (Metric.new id (Metadata.new j) tt) s.metrics;
  }

  -- A method of the metric with this id, which has the source for its writer.
  unfoldable pub on_metric :
      Action (Metric V (Metadata j) (Source j A V)) (Unit {0})
      → String
      → Action (Source j A V) (Unit {0})
  on_metric method id s = elim (lookup id s.metrics) [
    | none ↦ (err out_of_range, s)
    | some m ↦
        let (r, m') = method (with_writer s m) in
        (r, record m'.writer { metrics = update id (with_writer tt m') m'.writer.metrics })
  ]

  -- `(*this)[id].send(tv)`
  unfoldable pub send_by :
      (DataChunk V → String) → String → TimeValue V → Action (Source j A V) (Unit {0})
  unfolding index on_metric
  send_by serialize id tv =
      modify (index id) >> on_metric (Metric.send (send_chunk serialize) tv) id

  -- `(*this)[id].flush()`
  unfoldable pub flush_by : (DataChunk V → String) → String → Action (Source j A V) (Unit {0})
  unfolding index on_metric
  flush_by serialize id = modify (index id) >> on_metric (Metric.flush (send_chunk serialize)) id

  unfoldable pub on_connected : Action (Source j A V) (Unit {0})
  on_connected = modify (call (requests "source.register" j.object))

  -- The payload names no metrics where there are none, and then nothing is sent.
  unfoldable pub declare_metrics : Action (Source j A V) (Unit {0})
  unfolding declare_each
  declare_metrics s = elim s.metrics [
    | [] ↦ (ok tt, s)
    | m ∷ ms ↦
        let (r, metrics) = declare_each j j.null s.metrics in
        let s' = record s { metrics = metrics } in
        elim r [
          | err e ↦ (err e, s')
          | ok payload ↦ (ok tt, call (requests "source.declare_metrics" payload) s')
        ]
  ]

  unfoldable pub clear_metrics : Action (Source j A V) (Unit {0})
  clear_metrics = modify (λ s. record s { metrics = [] })

  -- The connection is opened once, and a second address must be the same.
  unfoldable pub use_address : (A → A → Bool) → A → Action (Source j A V) (Unit {0})
  use_address same address s = elim s.data_server_address [
    | some old ↦ if same address old then (ok tt, s) else (err aborted, s)
    | none ↦ (ok tt, call opens_connection (record s { data_server_address = some address }))
  ]

  module _ (hooks : Hooks j A V) where
    -- The function "config" that others call, up to the empty object that it answers.
    unfoldable pub on_config : Value → Action (Source j A V) (Unit {0})
    unfolding declare_metrics
    on_config config = hooks.on_source_config config >> declare_metrics

    unfoldable pub on_data_channel_ready : Action (Source j A V) (Unit {0})
    unfolding declare_metrics
    on_data_channel_ready = hooks.on_source_ready >> declare_metrics

    unfoldable pub on_register_response :
        (String → Result A) → (A → A → Bool) → Value → Action (Source j A V) (Unit {0})
    unfolding use_address
    on_register_response derive same response = do
      address ← lift (bind (entry_text j response "dataServerAddress") derive)
      use_address same address
      exchange ← gets (λ s. s.data_exchange)
      assert (str_eq exchange "")
      entry ← lift (j.at response "dataExchange")
      exchange' ← lift (j.get_string entry)
      modify (λ s. record s { data_exchange = exchange' })
      config ← lift (j.at response "config")
      hooks.on_source_config config
