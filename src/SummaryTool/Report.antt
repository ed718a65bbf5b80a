-- ===== src/SummaryTool/Report.antt =====
-- A whole run of tools/metricq-summary/src/main.cpp.
use metricq_cpp.Prelude.{
  ◌≡◌, refl, ap, ◌∙◌, true, false, List, [], ◌∷◌, ◌++◌, ℕ, some, none, String, str_eq,
  if◌then◌else◌, All,
}
use metricq_cpp.Prelude.Outcome.{Result, ok, err}
use metricq_cpp.Chunk.{DataChunk, TimeValue}
use metricq_cpp.Chunk.Encode.{AreStamps, chunk_of}
use metricq_cpp.Connect.{Address}
use metricq_cpp.Drain.{Message, is_empty}
use metricq_cpp.Drain.Collect.{Batch, IsRead, points_of}
use metricq_cpp.Json.{Json, entry_text}
use metricq_cpp.RunCommand.{returns, exit_failure, run_command}
use metricq_cpp.Simple.{connected, answered, connecting, derive}
use metricq_cpp.Simple.Answers.{subscribe-answered}
use metricq_cpp.Simple.Drained.{session, drain-collects}
use metricq_cpp.Simple.Drained.Steps.{is_among, asking}
use metricq_cpp.Sink.{Sink, sink_config}
use metricq_cpp.Summary.{Double, Sorting}
use metricq_cpp.SummaryTool.{
  Config, Goes, on_with, to_exit, to_terminate, cout, header, Line, World, Surroundings,
  subscribing, draining, is_runtime_error, report, main, summary_csv_print,
}
use metricq_cpp.SummaryTool.Rows.{AreRows, to_stream, summary_csv_print-rows}
use metricq_cpp.Table.{lookup}

-- How the tool ends after the lines are printed.
abbrev pub ended : ℕ → Result (Unit {0}) → Goes ℕ
ended status (ok done) = on_with status
ended status (err e) = if is_runtime_error e then to_exit exit_failure else to_terminate e

-- The command has been started, and the header and some lines are printed.
abbrev pub reported : {V : Type 0} → Config → List (Line V) → World V → World V
reported cfg lines w = record {
  started = w.started ++ cfg.cmdline ∷ [];
  printed = w.printed ++ (cout, header) ∷ to_stream cout lines;
}

module _ (d : Double) (s : Sorting d) {j : Json} {Login : Type 0} where
  open d use {Value}

  report-ended :
      (e : Surroundings j Login Value) (cfg : Config) (queue : String) (status : ℕ)
      (w : World Value) (stats : List (String × List (TimeValue Value)))
      → draining d s e cfg queue ≡ ok stats
      → (r : Result (Unit {0})) (w' : World Value)
      → summary_csv_print d s cout stats cfg.start_delta cfg.stop_delta w ≡ (r, w')
      → report d s e cfg queue status w ≡ (ended status r, w')
  unfolding report
  report-ended e cfg queue status w stats drains (ok done) w' prints = rw (drains, prints) refl
  report-ended e cfg queue status w stats drains (err x) w' prints = rw (drains, prints) refl

  report-rows :
      (e : Surroundings j Login Value) (cfg : Config) (queue : String) (status : ℕ)
      (w : World Value) (stats : List (String × List (TimeValue Value)))
      → draining d s e cfg queue ≡ ok stats
      → (lines : List (Line Value)) × (r : Result (Unit {0})) × AreRows d s cfg.start_delta
          cfg.stop_delta stats lines r
        × (report d s e cfg queue status w ≡ (
          ended status r,
          record w { printed = w.printed ++ (cout, header) ∷ to_stream cout lines },
        ))
  report-rows e cfg queue status w stats drains =
      let (lines, r, rows, prints) =
        summary_csv_print-rows d s cfg.start_delta cfg.stop_delta cout stats w in
      (lines, r, rows, report-ended e cfg queue status w stats drains r _ prints)

  main-report :
      (e : Surroundings j Login Value) (cfg : Config) (queue : String) (status : ℕ)
      (w : World Value)
      → subscribing d s e cfg ≡ ok queue
      → run_command e.fuel e.executes e.waitpid e.fork cfg.cmdline ≡ some (returns status)
      → main d s e (on_with cfg) w
        ≡ report d s e cfg queue status (record w { started = w.started ++ cfg.cmdline ∷ [] })
  unfolding main
  main-report e cfg queue status w subscribes runs = rw (subscribes, runs) refl

  -- In a run in which both connections can be set up, the manager answers the subscription with the name
  -- of a queue, there is a metric, the command ends with a status, and the answer to the call that
  -- unsubscribes configures the sink of the drain: whatever batches of points the queue then delivers for the metrics,
  -- of times from the epoch on and with chunks that the parser reads as they were written, until it ends
  -- and is released, the command has been started once, and the lines are the header and those of the
  -- points that were delivered for each metric and no other name, in the order of their batches; where
  -- all statistics can be computed, the tool returns the status of the command.
  pub main-reports :
      (e : Surroundings j Login Value) (serialize : DataChunk Value → String) (cfg : Config)
      (w : World Value) (answer configuration : j.Value) (queue : String) (status : ℕ)
      (sink : Sink j (Address Login) Value) (bs : List (Batch Value)) (last : Message)
      → (connecting e.parse cfg.url cfg.token e.subscriber_uuid).0 ≡ ok tt
      → (connecting e.parse cfg.url cfg.token e.drain_uuid).0 ≡ ok tt
      → entry_text j answer "dataQueue" ≡ ok queue
      → str_eq queue "" ≡ false
      → is_empty cfg.metrics ≡ false
      → run_command e.fuel e.executes e.waitpid e.fork cfg.cmdline ≡ some (returns status)
      → sink_config
          (derive e.parse cfg.url cfg.token e.drain_uuid)
          e.same
          configuration
          (asking queue cfg.metrics)
        ≡ (ok tt, sink)
      → All
          (λ b.
            AreStamps b.points
            × IsRead e.read_chunk serialize (chunk_of b.points)
            × (is_among b.id cfg.metrics ≡ true))
          bs
      → str_eq last.type_name "end" ≡ true
      → (stats : List (String × List (TimeValue Value))) × (lines : List (Line Value)) × (r : Result
          (Unit {0}))
        × ((id : String)
            → lookup id stats ≡ (if is_among id cfg.metrics then some (points_of id bs) else none))
        × AreRows d s cfg.start_delta cfg.stop_delta stats lines r
        × (main d s
              (record e {
                subscriber_events = connected ∷ answered answer ∷ [];
                drain_events = session serialize configuration bs last;
              })
              (on_with cfg)
              w
            ≡ (ended status r, reported cfg lines w))
  main-reports e serialize cfg w answer configuration queue status sink bs last connects reconnects
        names named some_metrics runs config good ends =
      let subscribes =
        subscribe-answered e.parse cfg.url cfg.token e.subscriber_uuid j connects cfg.metrics
          cfg.timeout answer queue names in
      let (stats, drains, found) =
        drain-collects e.parse cfg.url cfg.token e.drain_uuid e.same e.read_chunk serialize
          cfg.metrics queue configuration sink bs last reconnects named some_metrics config good
          ends in
      let e' = record e {
        subscriber_events = connected ∷ answered answer ∷ [];
        drain_events = session serialize configuration bs last;
      } in
      let w' = record w { started = w.started ++ cfg.cmdline ∷ [] } in
      let (lines, r, rows, reports) = report-rows e' cfg queue status w' stats drains in
      (
        stats,
        lines,
        r,
        found,
        rows,
        main-report e' cfg queue status w (ap (λ p. p.0) subscribes) runs ∙ reports,
      )
