-- ===== src/SummaryTool.antt =====
-- tools/metricq-summary/src/main.cpp: the tool that subscribes to metrics, runs a command, drains the
-- queue and prints the statistics of each metric. The option parser is a parameter: `Options` holds what
-- it has found on the command line and in the environment, with its defaults. Log levels are left out.
pub mod Rows
pub mod Order
pub mod Report
pub mod Few
pub mod Starts
mod Tests
use metricq_cpp.Prelude.{
  ℕ, Bool, true, false, List, [], ◌∷◌, ◌++◌, Option, none, some, String, if◌then◌else◌,
}
use metricq_cpp.Prelude.Int.{ℤ}
use metricq_cpp.Prelude.Outcome.{
  Result, ok, err, Failure, runtime_error, rpc_error, invalid_argument, logic_error, out_of_range,
  Action, ◌>>=◌, ◌>>◌, skip, lift, modify,
}
use metricq_cpp.Chunk.{DataChunk, TimeValue}
use metricq_cpp.Connect.{Address}
use metricq_cpp.Drain.{is_empty}
use metricq_cpp.Json.{Json}
use metricq_cpp.Rpc.{is_exception}
use metricq_cpp.RunCommand.{
  Status, Fork, Outcome, returns, exits, replaced_by, fails_assertion, exit_failure, run_command,
}
use metricq_cpp.Simple.{Event, DrainEvent, subscribe, drain}
use metricq_cpp.Summary.{Double, Sorting, Summary, calculate}

pub record Options : Type 0 where
  pub given : String → Bool
  pub get : String → String
  pub get_all : String → List String
  pub positionals : List String

pub record Config : Type 0 where
  pub url : String
  pub token : String
  pub timeout : ℤ
  pub start_delta : ℤ
  pub stop_delta : ℤ
  pub metrics : List String
  pub cmdline : List String

-- How the program, or a part of it, goes on: `terminates` is an exception that nothing catches, a failed
-- assertion, or undefined behaviour, and `unfinished` that the fuel has run out.
pub data Goes (A : Type 0) : Type 0 where
  on_with : A → Goes A
  to_exit : ℕ → Goes A
  to_program : String → List (Option String) → Goes A
  to_terminate : Failure → Goes A
  to_assertion : Goes A
  unfinished : Goes A

abbrev pub exit_success : ℕ
exit_success = 0

-- Where an exception leaves a `try` block with a handler for all of `std::exception`, which exits.
abbrev pub or_exit : {A B : Type 0} → Result A → (A → Goes B) → Goes B
or_exit (ok x) go = go x
or_exit (err e) go = if is_exception e then to_exit exit_failure else to_terminate e

-- `Config::Config`; `parse_options` is `parser.parse(argc, argv)`, and `duration_parse` the function of
-- src/chrono.cpp. All handlers of its exceptions exit with the same status.
unfoldable pub config : (String → Result ℤ) → Result Options → Goes Config
config duration_parse parse_options = or_exit parse_options λ options.
    if options.given "help"
    then to_exit exit_success
    else or_exit (duration_parse (options.get "timeout")) λ timeout.
      or_exit (duration_parse (options.get "start-delta")) λ start_delta.
        or_exit (duration_parse (options.get "stop-delta")) λ stop_delta.
          if is_empty options.positionals
          then to_exit exit_failure
          else on_with (record {
            url = options.get "server";
            token = options.get "token";
            timeout = timeout;
            start_delta = start_delta;
            stop_delta = stop_delta;
            metrics = options.get_all "metrics";
            cmdline = options.positionals;
          })

-- The stream of the process or another.
pub data Stream : Type 0 where
  cout : Stream
  stream : ℕ → Stream

-- A row stands for its fields, in the order of the record, with commas between them; the name is quoted.
pub data Line (V : Type 0) : Type 0 where
  header : Line V
  row : String → Summary V → Line V

-- What is done for all to see: the commands that are started, and the lines that are printed.
pub record World (V : Type 0) : Type 0 where
  pub started : List (List String)
  pub printed : List (Stream × Line V)

-- What the program meets: the constructor of `AMQP::Address` and its comparison, the parser of chunks,
-- the texts that `uuid()` makes, what happens to its two connections, and what the system calls of
-- `run_command` return.
pub record Surroundings (j : Json) (Login V : Type 0) : Type 0 where
  pub parse : String → Result (Address Login)
  pub same : Address Login → Address Login → Bool
  pub read_chunk : String → DataChunk V
  pub subscriber_uuid : String
  pub drain_uuid : String
  pub subscriber_events : List (Event j.Value)
  pub drain_events : List (DrainEvent j.Value)
  pub fuel : ℕ
  pub executes : String → List (Option String) → Bool
  pub waitpid : ℕ → Status
  pub fork : Fork

-- Which failures are exceptions that derive from `std::runtime_error`.
abbrev pub is_runtime_error : Failure → Bool
is_runtime_error (runtime_error text) = true
is_runtime_error rpc_error = true
is_runtime_error _ = false

module _ {V : Type 0} where
  -- A call in the `try` block of `main`.
  abbrev pub catching :
      {A B : Type 0} → Result A → World V → (A → Goes B × World V) → Goes B × World V
  catching (ok x) w go = go x
  catching (err e) w go = ((if is_runtime_error e then to_exit exit_failure else to_terminate e), w)

  abbrev pub after_command : Option Outcome → World V → (ℕ → Goes ℕ × World V) → Goes ℕ × World V
  after_command none w go = (unfinished, w)
  after_command (some (returns status)) w go = go status
  after_command (some (exits status)) w go = (to_exit status, w)
  after_command (some (replaced_by progname args)) w go = (to_program progname args, w)
  after_command (some fails_assertion) w go = (to_assertion, w)

module _ (d : Double) (s : Sorting d) where
  open d use {Value}

  abbrev pub print : Stream → Line Value → Action (World Value) (Unit {0})
  print os line = modify (λ w. record w { printed = w.printed ++ (os, line) ∷ [] })

  -- The body of the loop over the metrics.
  unfoldable pub print_metric :
      Stream → ℤ → ℤ → String → List (TimeValue Value) → Action (World Value) (Unit {0})
  unfolding calculate
  print_metric os start_delta stop_delta metric [] = skip
  print_metric os start_delta stop_delta metric (tv ∷ tvs) = do
    sum ← lift (calculate d s start_delta stop_delta (tv ∷ tvs))
    print os (row metric sum)

  unfoldable pub print_metrics :
      Stream → ℤ → ℤ → List (String × List (TimeValue Value)) → Action (World Value) (Unit {0})
  unfolding print_metric
  print_metrics os start_delta stop_delta [] = skip
  print_metrics os start_delta stop_delta ((metric, values) ∷ stats) = do
    print_metric os start_delta stop_delta metric values
    print_metrics os start_delta stop_delta stats

  unfoldable pub summary_csv_print :
      Stream → List (String × List (TimeValue Value)) → ℤ → ℤ → Action (World Value) (Unit {0})
  unfolding print_metrics
  summary_csv_print os stats start_delta stop_delta =
      print cout header >> print_metrics os start_delta stop_delta stats

  module _ {j : Json} {Login : Type 0} (e : Surroundings j Login Value) where
    abbrev pub subscribing : Config → Result String
    subscribing cfg =
        (subscribe e.parse cfg.url cfg.token e.subscriber_uuid j cfg.metrics cfg.timeout
          e.subscriber_events).0

    abbrev pub draining : Config → String → Result (List (String × List (TimeValue Value)))
    draining cfg queue =
        (drain e.parse cfg.url cfg.token e.drain_uuid {j = j} e.same e.read_chunk cfg.metrics queue
          e.drain_events).0

    -- The rest of `main` once the command has ended.
    unfoldable pub report : Config → String → ℕ → World Value → Goes ℕ × World Value
    unfolding summary_csv_print drain
    report cfg queue status w = catching (draining cfg queue) w λ stats.
        let (r, w') = summary_csv_print cout stats cfg.start_delta cfg.stop_delta w in
        catching r w' λ done. (on_with status, w')

    -- `main`; `on_with` is what it returns.
    unfoldable pub main : Goes Config → World Value → Goes ℕ × World Value
    unfolding report subscribe run_command
    main (to_exit status) w = (to_exit status, w)
    main (to_program progname args) w = (to_program progname args, w)
    main (to_terminate failure) w = (to_terminate failure, w)
    main to_assertion w = (to_assertion, w)
    main unfinished w = (unfinished, w)
    main (on_with cfg) w = catching (subscribing cfg) w λ queue.
        let w' = record w { started = w.started ++ cfg.cmdline ∷ [] } in
        after_command (run_command e.fuel e.executes e.waitpid e.fork cfg.cmdline) w'
          (λ status. report cfg queue status w')
