-- ===== src/Simple/Tests.antt =====
-- Calls of src/simple.cpp over a small JSON library, and the theorems at them.
use metricq_cpp.Prelude.{
  ℕ, ◌≡◌, refl, Bool, true, false, not, List, [], ◌∷◌, ◌++◌, some, none, String, str_eq,
  if◌then◌else◌, arith,
}
use metricq_cpp.Prelude.Int.{pos}
use metricq_cpp.Prelude.Outcome.{Result, ok, err, runtime_error}
use metricq_cpp.Chunk.{DataChunk, TimeValue}
use metricq_cpp.Chunk.Encode.{chunk_of}
use metricq_cpp.Connect.{Address, connect, derive_address}
use metricq_cpp.Connect
use metricq_cpp.Drain.{Message}
use metricq_cpp.Drain.Collect.{Batch, points_of}
use metricq_cpp.Json.Tree.{Tree, null, text, texts, object, field, end}
use metricq_cpp.Json.Sample.{sample}
use metricq_cpp.Sink.{Sink, opens_connection, sets_qos, declares, sink_config}
use metricq_cpp.Simple.{
  connected, answered, fails, subscribe, get_metrics, payload_of, drain, connecting, derive,
}
use metricq_cpp.Simple.Answers.{asked, subscriber, subscribe-answered, get_metrics-answered}
use metricq_cpp.Simple.Drained.{session, drain-collects}
use metricq_cpp.Simple.Drained.Steps.{asking, is_among}
use metricq_cpp.Subscriber
use metricq_cpp.Table.{lookup}

abbrev parse : String → Result (Address ℕ)
parse host =
    if str_eq host ""
    then err (runtime_error "protocol is missing")
    else ok (record { hostname = host; port = 5672; login = 0; vhost = "/"; secure = false })

abbrev same : Address ℕ → Address ℕ → Bool
same a b = str_eq a.hostname b.hostname

abbrev answer : Tree
answer = object (field "dataQueue" (text "queue") end)

connects : (connecting parse "host" "tool" "1").0 ≡ ok tt
unfolding connect Connect.new
connects = refl

subscribed :
    subscribe parse "host" "tool" "1" sample
      ("power" ∷ [])
      (pos 60)
      (connected ∷ answered answer ∷ [])
    ≡ (ok "queue", subscriber ("power" ∷ []) (pos 60) "queue")
subscribed =
    subscribe-answered parse "host" "tool" "1" sample connects ("power" ∷ []) (pos 60) answer
      "queue" refl

-- After an answer with an error the connection closes, and no name is known.
rejected :
    (subscribe parse "host" "tool" "1" sample ("power" ∷ []) (pos 60) (connected ∷ [])).0 ≡ ok ""
unfolding subscribe Subscriber.add_all connect Connect.new Subscriber.on_connected Subscriber.new
rejected = refl

timed_out :
    (subscribe parse "host" "tool" "1" sample []
      (pos 60)
      (connected ∷ fails (runtime_error "Timeout during RPC") ∷ [])).0
    ≡ err (runtime_error "Timeout during RPC")
unfolding subscribe Subscriber.add_all connect Connect.new Subscriber.on_connected Subscriber.new
timed_out = refl

abbrev names : Tree
names = object (field "metrics" (texts ("power" ∷ "load" ∷ [])) end)

abbrev selection : Bool
selection = not (str_eq "po.*" "")

get_metrics-answered_example :
    (payload : Tree) × (get_metrics parse "host" "tool" "1" sample "po.*"
        (connected ∷ answered names ∷ [])
      ≡ (ok ("power" ∷ "load" ∷ []), some (asked "history.get_metrics" payload names)))
    × (sample.at payload "format" ≡ ok (text "array"))
    × (sample.contains payload "selector" ≡ selection)
    × (selection ≡ true → sample.at payload "selector" ≡ ok (text "po.*"))
get_metrics-answered_example =
    get_metrics-answered parse "host" "tool" "1" sample connects "po.*" names
      ("power" ∷ "load" ∷ []) refl

abbrev entries : Tree
entries = object (field "power" (object end) (field "load" null end))

abbrev described : Tree
described = object (field "metrics" entries end)

-- An empty text is sent as a selector.
empty_text :
    payload_of sample "object" (not (sample.is_empty (text ""))) (text "")
    ≡ ok (object (field "format" (text "object") (field "selector" (text "") end)))
unfolding payload_of
empty_text = refl

abbrev configuration : Tree
configuration =
    object (field "dataServerAddress" (text "data") (field "dataQueue" (text "queue") end))

abbrev configured : Sink sample (Address ℕ) ℕ
configured = record (asking "queue" ("power" ∷ "load" ∷ [])) {
  data_server_address =
      some (record { hostname = "data"; port = 5672; login = 0; vhost = "/"; secure = false });
  data_queue = "queue";
  calls =
      (asking {j = sample} {A = Address ℕ} {V = ℕ} "queue" ("power" ∷ "load" ∷ [])).calls
      ++ opens_connection ∷ sets_qos 400 ∷ declares "queue" ∷ [];
}

configures :
    sink_config
      (derive parse "host" "tool" "2")
      same
      configuration
      (asking "queue" ("power" ∷ "load" ∷ []))
    ≡ (ok tt, configured)
unfolding sink_config connect derive_address Connect.new
configures = refl

abbrev point : ℕ → ℕ → TimeValue ℕ
point t v = record { time = pos t; value = v }

abbrev batch : Batch ℕ
batch = record { id = "power"; points = point 100 7 ∷ point 140 8 ∷ []; tag = 1 }

abbrev last : Message
last = record {
  type_name = "end";
  delivery = record { routingkey = ""; body = ""; delivery_tag = 2 };
}

abbrev serialize : DataChunk ℕ → String
serialize c = "chunk"

abbrev read_chunk : String → DataChunk ℕ
read_chunk body = chunk_of batch.points

drain-collects_example :
    (points : List (String × List (TimeValue ℕ))) × ((drain parse "host" "tool" "2" {j = sample}
        same read_chunk
        ("power" ∷ "load" ∷ [])
        "queue"
        (session serialize configuration (batch ∷ []) last)).0
      ≡ ok points)
    × ((id : String)
        → lookup id points ≡ (
            if is_among id ("power" ∷ "load" ∷ []) then some (points_of id (batch ∷ [])) else none))
unfolding connect Connect.new
drain-collects_example =
    drain-collects parse "host" "tool" "2" same read_chunk serialize ("power" ∷ "load" ∷ []) "queue"
      configuration configured (batch ∷ []) last refl refl refl configures
      ((omega arith, refl, refl), tt) refl
