-- ===== src/Lib.antt =====
-- The client library of MetricQ in C++ (include/metricq, src), modelled part by part.
--
-- A `Source` or `Transformer` owns metrics (Metric), which collect points in data chunks (Chunk) and
-- publish them over an AMQP connection; a `Sink` (Sink) iterates over the chunks that it gets. Each
-- connection is run by a connection handler (Handler) over asio, which queues outgoing bytes in its
-- send buffers (Buffer). Timers (Timer) repeat callbacks. A connection calls functions of the manager
-- and is called by it (Rpc), with JSON for its messages and for the metadata of metrics (Metadata).
-- The functions of Simple each run one such client to its end, and the summary tool (SummaryTool) is
-- made of them: it subscribes, runs a command (RunCommand), drains the queue and prints the statistics
-- (Summary) of what it got. The handlers that `main_loop` runs are a list of events.
--
-- Prelude    names of the libraries, tests, lists, signed integers, results of calls
-- Chunk      include/metricq/types.hpp: DataChunk, TimeValue, DataChunkIter, data_chunk_foreach
-- Metric     include/metricq/metric.hpp: Metric::send, flush, chunk_size
-- Timer      include/metricq/timer.hpp, src/timer.cpp: start, restart, cancel, timer_callback
-- Buffer     src/connection_handler.hpp, src/connection_handler.cpp: QueuedBuffer
-- Handler    the same files: AsioConnectionHandler, PlainConnectionHandler, SSLConnectionHandler
-- Json       include/metricq/json.hpp: the library as an interface, with a small instance for tests
-- Metadata   include/metricq/metadata.hpp, src/metadata.cpp: the entries of a metric's metadata
-- Table      maps with texts for keys, as the connection and the sink use them
-- Rpc        include/metricq/connection.hpp, src/connection.cpp: calls, answers, their callbacks and timeouts
-- FinalAction  include/metricq/utils.hpp: final_action
-- History    include/metricq/types.hpp: responses to history requests and their iterators, Aggregate
-- HistoryClient  include/metricq/history_client.hpp, src/history_client.cpp: a client for such requests
-- Connect    src/connection.cpp: setting up a connection, and the addresses that are derived from it
-- RpcRequest  include/metricq/rpc_request.hpp: a client that makes one call
-- Simple     src/simple.cpp: functions that connect, wait for one task, and return its result
-- Subscriber  include/metricq/subscriber.hpp, src/subscriber.cpp: the subscription of a queue
-- RunCommand  tools/metricq-summary/src/run_command.cpp: running a command and waiting for its end
-- Summary    tools/metricq-summary/src/summary.cpp: the statistics of a metric over a window
-- SummaryTool  tools/metricq-summary/src/main.cpp: the tool that subscribes, runs a command, drains and prints
-- DataClient  src/data_client.cpp: the data connection that all clients of data open
-- Drain      include/metricq/drain.hpp, src/drain.cpp, include/metricq/simple_drain.hpp: emptying a queue
-- Source     include/metricq/source.hpp, src/source.cpp: the metrics of a source, and what it publishes
-- Transformer  include/metricq/transformer.hpp, src/transformer.cpp: a sink that publishes
-- Db         include/metricq/db.hpp, src/db.cpp: answers to history requests
-- EndToEnd   a source and a drain together
-- Clock      src/chrono.cpp: Clock::format and format_iso
-- Discover   src/connection.cpp: the answer to the function "discover"
-- Uuid       src/util.hpp: random identifiers
-- Durations  src/chrono.cpp: duration_parse
-- Sink       include/metricq/sink.hpp, src/sink.cpp, src/data_client.cpp: data queue, metadata, data
--
-- A method is a function from the state of its object to a result and the new state
-- (`Prelude.Outcome.Action`), since what it wrote before an exception stays written. An exception, a
-- failed `assert`, signed overflow and a read past the end are failures of the result; a failed
-- `assert` ends the process, and the state beside it says nothing. Times are unbounded integers with
-- the 64-bit range written out where the source computes with int64_t; only the time points of Timer
-- are not checked for overflow. asio, AMQP-CPP, protobuf and JSON are parameters with their documented
-- behaviour as hypotheses. Three loops take fuel: `catch_up` of Timer ends with fuel above the
-- nanoseconds by which the clock is ahead of the deadline, `write` of Clock with fuel above the length
-- of the text, and `wait_loop` of RunCommand with fuel above the number of times that the child stops.
--
-- A handler keeps, beside the state of its class, what `onData` has been given (`handed`), which no
-- method reads and the theorems count by. A wait of a timer that has expired may still run after a
-- `cancel`; `wait_over` of Rpc has this, with the use of a guard that is gone as a failure.
--
-- Not modelled: logging, the examples, tests and benchmarks, and the build.
pub mod Prelude
pub mod Buffer
pub mod Chunk
pub mod Clock
pub mod Connect
pub mod DataClient
pub mod Db
pub mod Discover
pub mod Drain
pub mod Durations
pub mod EndToEnd
pub mod FinalAction
pub mod Handler
pub mod History
pub mod HistoryClient
pub mod Json
pub mod Metadata
pub mod Metric
pub mod Rpc
pub mod RpcRequest
pub mod RunCommand
pub mod Simple
pub mod Sink
pub mod Source
pub mod Subscriber
pub mod Summary
pub mod SummaryTool
pub mod Table
pub mod Timer
pub mod Transformer
pub mod Uuid
