-- ===== src/SummaryTool/Tests.antt =====
-- Runs of tools/metricq-summary/src/main.cpp on numbers that are naturals.
use mathlib.Core.List.{Permᴰ}
use mathlib.Core.List.Permᴰ.{cons, swap}
use metricq_cpp.Prelude.{
  ℕ, ◌≡◌, refl, true, false, List, [], ◌∷◌, ◌++◌, some, none, String, str_eq, if◌then◌else◌, arith,
}
use metricq_cpp.Prelude.Int.{ℤ, pos}
use metricq_cpp.Prelude.Outcome.{Result, ok, err, Failure, invalid_argument}
use metricq_cpp.Chunk.{DataChunk, TimeValue}
use metricq_cpp.Chunk.Encode.{chunk_of}
use metricq_cpp.Connect.{Address, connect, derive_address}
use metricq_cpp.Connect
use metricq_cpp.Drain.{Message}
use metricq_cpp.Drain
use metricq_cpp.Drain.Collect.{Batch, points_of}
use metricq_cpp.Json.Tree.{Tree, text, object, field, end}
use metricq_cpp.Json.Sample.{sample}
use metricq_cpp.RunCommand.{exited, returns, in_parent, run_command, exit_failure}
use metricq_cpp.Simple.{connected, answered, connecting, derive}
use metricq_cpp.Simple.Drained.{session}
use metricq_cpp.Simple.Drained.Steps.{asking, is_among}
use metricq_cpp.Sink.{Sink, opens_connection, sets_qos, declares, sink_config}
use metricq_cpp.Subscriber
use metricq_cpp.Summary.{calculate}
use metricq_cpp.Summary.Naturals.{naturals, sorting}
use metricq_cpp.SummaryTool.{
  Options, Config, on_with, to_exit, Line, World, Surroundings, config, main, cout, header,
  summary_csv_print,
}
use metricq_cpp.SummaryTool.Few.{calculate-few}
use metricq_cpp.SummaryTool.Order.{summary_csv_print-permuted}
use metricq_cpp.SummaryTool.Report.{ended, reported, main-reports}
use metricq_cpp.SummaryTool.Rows.{AreRows, to_stream, with_lines}
use metricq_cpp.Table.{lookup}

abbrev point : ℕ → ℕ → TimeValue ℕ
point t v = record { time = pos t; value = v }

abbrev five : List (TimeValue ℕ)
five = point 10 7 ∷ point 20 3 ∷ point 30 9 ∷ point 40 5 ∷ point 50 1 ∷ []

abbrev nothing : World ℕ
nothing = record { started = []; printed = [] }

calculate-few_example :
    (e : Failure) × (calculate naturals sorting
        (pos 0)
        (pos 0)
        (point 10 7 ∷ point 20 3 ∷ point 30 9 ∷ [])
      ≡ err e)
calculate-few_example =
    calculate-few naturals sorting (point 10 7 ∷ point 20 3 ∷ point 30 9 ∷ []) (omega arith)
      (omega arith, (omega arith, (omega arith, tt)))

abbrev parse : String → Result (Address ℕ)
parse host = ok (record { hostname = host; port = 5672; login = 0; vhost = "/"; secure = false })

abbrev answer : Tree
answer = object (field "dataQueue" (text "queue") end)

abbrev configuration : Tree
configuration =
    object (field "dataServerAddress" (text "data") (field "dataQueue" (text "queue") end))

abbrev cfg : Config
cfg = record {
  url = "host";
  token = "summary";
  timeout = pos 60;
  start_delta = pos 0;
  stop_delta = pos 0;
  metrics = "power" ∷ "load" ∷ [];
  cmdline = "sleep" ∷ "1" ∷ [];
}

abbrev batch : Batch ℕ
batch = record { id = "power"; points = five; tag = 1 }

abbrev last : Message
last = record {
  type_name = "end";
  delivery = record { routingkey = ""; body = ""; delivery_tag = 2 };
}

abbrev serialize : DataChunk ℕ → String
serialize c = "chunk"

abbrev surroundings : Surroundings sample ℕ ℕ
surroundings = record {
  parse = parse;
  same = λ a b. str_eq a.hostname b.hostname;
  read_chunk = λ body. chunk_of five;
  subscriber_uuid = "1";
  drain_uuid = "2";
  subscriber_events = connected ∷ answered answer ∷ [];
  drain_events = session serialize configuration (batch ∷ []) last;
  fuel = 3;
  executes = λ p a. true;
  waitpid = λ n. exited 4;
  fork = in_parent 7;
}

abbrev configured : Sink sample (Address ℕ) ℕ
configured = record (asking "queue" cfg.metrics) {
  data_server_address =
      some (record { hostname = "data"; port = 5672; login = 0; vhost = "/"; secure = false });
  calls =
      (asking {j = sample} {A = Address ℕ} {V = ℕ} "queue" cfg.metrics).calls
      ++ opens_connection ∷ sets_qos 400 ∷ declares "queue" ∷ [];
}

connects : (connecting parse "host" "summary" "1").0 ≡ ok tt
unfolding connect Connect.new
connects = refl

reconnects : (connecting parse "host" "summary" "2").0 ≡ ok tt
unfolding connect Connect.new
reconnects = refl

configures :
    sink_config
      (derive parse "host" "summary" "2")
      surroundings.same
      configuration
      (asking "queue" cfg.metrics)
    ≡ (ok tt, configured)
unfolding sink_config connect derive_address Connect.new
configures = refl

runs : run_command 3 (λ p a. true) (λ n. exited 4) (in_parent 7) cfg.cmdline ≡ some (returns 4)
unfolding run_command
runs = refl

main-reports_example :
    (stats : List (String × List (TimeValue ℕ))) × (lines : List (Line ℕ)) × (r : Result (Unit {0}))
    × ((id : String)
        → lookup id stats
          ≡ (if is_among id cfg.metrics then some (points_of id (batch ∷ [])) else none))
    × AreRows naturals sorting (pos 0) (pos 0) stats lines r
    × (main naturals sorting surroundings (on_with cfg) nothing
        ≡ (ended 4 r, reported cfg lines nothing))
main-reports_example =
    main-reports naturals sorting surroundings serialize cfg nothing answer configuration "queue" 4
      configured (batch ∷ []) last connects reconnects refl refl refl runs configures
      ((omega arith, refl, refl), tt) refl

abbrev statistics : List (String × List (TimeValue ℕ))
statistics = ("load", []) ∷ ("power", five) ∷ ("heat", point 5 6 ∷ five) ∷ []

prints : (summary_csv_print naturals sorting cout statistics (pos 0) (pos 0) nothing).0 ≡ ok tt
unfolding summary_csv_print calculate metricq_cpp.Prelude.Outcome.add_int64
    metricq_cpp.Prelude.Outcome.sub_int64 metricq_cpp.Prelude.Int.◌+ℤ◌ metricq_cpp.Prelude.Int.◌-ℤ◌
prints = refl

summary_csv_print-permuted_example :
    (lines : List (Line ℕ)) × (lines' : List (Line ℕ)) × Permᴰ lines lines'
    × (summary_csv_print naturals sorting cout statistics (pos 0) (pos 0) nothing
        ≡ (ok tt, with_lines ((cout, header) ∷ to_stream cout lines) nothing))
    × (summary_csv_print naturals sorting cout
          (("load", []) ∷ ("heat", point 5 6 ∷ five) ∷ ("power", five) ∷ [])
          (pos 0)
          (pos 0)
          nothing
        ≡ (ok tt, with_lines ((cout, header) ∷ to_stream cout lines') nothing))
summary_csv_print-permuted_example =
    summary_csv_print-permuted naturals sorting (pos 0) (pos 0) cout statistics
      (("load", []) ∷ ("heat", point 5 6 ∷ five) ∷ ("power", five) ∷ []) nothing
      (cons refl (swap refl refl)) prints

-- The manager has answered the subscription with an error: the command is run nonetheless.
unnamed :
    main naturals sorting
      (record surroundings { subscriber_events = connected ∷ [] })
      (on_with cfg)
      nothing
    ≡ (to_exit exit_failure, record nothing { started = cfg.cmdline ∷ [] })
unfolding main run_command Subscriber.add_all connect Connect.new Subscriber.on_connected
    Subscriber.new Drain.construct
unnamed = refl

abbrev options : String → List String → Options
options timeout positionals = record {
  given = λ name. false;
  get = λ name. if str_eq name "timeout" then timeout else "";
  get_all = λ name. "power" ∷ [];
  positionals = positionals;
}

-- A parser of durations that knows one unit.
abbrev parse_duration : String → Result ℤ
parse_duration str =
    if str_eq str "1 s"
    then ok (pos 1)
    else if str_eq str ""
    then ok (pos 0)
    else err (invalid_argument "")

no_command : config parse_duration (ok (options "1 s" [])) ≡ to_exit exit_failure
unfolding config
no_command = refl

no_timeout : config parse_duration (ok (options "soon" ("sleep" ∷ []))) ≡ to_exit exit_failure
unfolding config
no_timeout = refl
