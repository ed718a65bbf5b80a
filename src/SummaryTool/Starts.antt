-- ===== src/SummaryTool/Starts.antt =====
-- The command line that tools/metricq-summary/src/main.cpp hands to `run_command`, which asserts that it is
-- not empty.
use metricq_cpp.Prelude.{
  ℕ, zero, suc, ◌≡◌, refl, subst, ◌≢◌, inl, inr, Bool, true, false, List, [], ◌∷◌, ◌++◌, Option,
  some, none, String, arith, Bool-cases,
}
use metricq_cpp.Prelude.Int.{ℤ}
use metricq_cpp.Prelude.Outcome.{Result, ok, err}
use metricq_cpp.Drain.{is_empty}
use metricq_cpp.Json.{Json}
use metricq_cpp.Rpc.{is_exception}
use metricq_cpp.RunCommand.{
  Status, failed, exited, signaled, stopped, Fork, fork_failed, in_child, in_parent, Outcome,
  returns, exits, replaced_by, fails_assertion, wait_loop, run_command, spawn,
}
use metricq_cpp.Summary.{Double, Sorting}
use metricq_cpp.SummaryTool.{
  Options, Config, Goes, on_with, to_exit, to_program, to_terminate, to_assertion, unfinished,
  catching, after_command, cout, is_runtime_error, or_exit, config, World, Surroundings, report,
  main, subscribing, draining, summary_csv_print,
}

abbrev is_assertion : {A : Type 0} → Goes A → Bool
is_assertion to_assertion = true
is_assertion _ = false

-- A part that goes on with a command, or ends, but not by the assertion.
abbrev HasCommand : Goes Config → Type 0
HasCommand (on_with cfg) = is_empty cfg.cmdline ≡ false
HasCommand g = is_assertion g ≡ false

or_exit-HasCommand :
    {A : Type 0} (r : Result A) (go : A → Goes Config)
    → ((a : A) → HasCommand (go a))
    → HasCommand (or_exit r go)
or_exit-HasCommand (ok a) go h = h a
or_exit-HasCommand (err e) go h = elim (Bool-cases (is_exception e)) [
  | inl x ↦ rw x refl
  | inr x ↦ rw x refl
]

config-HasCommand :
    (duration_parse : String → Result ℤ) (parse_options : Result Options)
    → HasCommand (config duration_parse parse_options)
unfolding config
config-HasCommand duration_parse parse_options = or_exit-HasCommand parse_options _ λ options.
    elim (Bool-cases (options.given "help")) [
      | inl e ↦ rw e refl
      | inr e ↦ rw e (
          or_exit-HasCommand (duration_parse (options.get "timeout")) _ λ timeout.
            or_exit-HasCommand (duration_parse (options.get "start-delta")) _ λ start_delta.
              or_exit-HasCommand (duration_parse (options.get "stop-delta")) _ λ stop_delta.
                elim (Bool-cases (is_empty options.positionals)) [
                  | inl x ↦ rw x refl
                  | inr x ↦ rw x x
                ])
    ]

abbrev fails : Option Outcome → Bool
fails (some fails_assertion) = true
fails _ = false

wait_loop-fails_status :
    (fuel : ℕ) (waitpid : ℕ → Status) (n : ℕ) (status : Status)
    → waitpid n ≡ status
    → fails (wait_loop fuel waitpid (suc n)) ≡ false
    → fails (wait_loop (suc fuel) waitpid n) ≡ false
unfolding wait_loop
wait_loop-fails_status fuel waitpid n failed e h = ground arith
wait_loop-fails_status fuel waitpid n (exited status) e h = ground arith
wait_loop-fails_status fuel waitpid n (signaled sig) e h = ground arith
wait_loop-fails_status fuel waitpid n stopped e h = ground arith

wait_loop-fails :
    (fuel : ℕ) (waitpid : ℕ → Status) (n : ℕ) → fails (wait_loop fuel waitpid n) ≡ false
unfolding wait_loop
wait_loop-fails zero waitpid n = refl
wait_loop-fails (suc fuel) waitpid n =
    wait_loop-fails_status fuel waitpid n (waitpid n) refl (wait_loop-fails fuel waitpid (suc n))

run_command-fails :
    (fuel : ℕ) (executes : String → List (Option String) → Bool) (waitpid : ℕ → Status)
    (fork : Fork) (cmdline : List String)
    → is_empty cmdline ≡ false
    → fails (run_command fuel executes waitpid fork cmdline) ≡ false
unfolding run_command spawn
run_command-fails fuel executes waitpid fork [] h = absurd (cc)
run_command-fails fuel executes waitpid fork_failed (progname ∷ args) h = refl
run_command-fails fuel executes waitpid in_child (progname ∷ args) h = ground arith
run_command-fails fuel executes waitpid (in_parent child) (progname ∷ args) h =
    wait_loop-fails fuel waitpid 0

module _ {V : Type 0} where
  catching-is_assertion :
      {A B : Type 0} (r : Result A) (w : World V) (go : A → Goes B × World V)
      → ((a : A) → is_assertion (go a).0 ≡ false)
      → is_assertion (catching r w go).0 ≡ false
  catching-is_assertion (ok a) w go h = h a
  catching-is_assertion (err e) w go h = elim (Bool-cases (is_runtime_error e)) [
    | inl x ↦ rw x refl
    | inr x ↦ rw x refl
  ]

  after_command-is_assertion :
      (o : Option Outcome) (w : World V) (go : ℕ → Goes ℕ × World V)
      → fails o ≡ false
      → ((n : ℕ) → is_assertion (go n).0 ≡ false)
      → is_assertion (after_command o w go).0 ≡ false
  after_command-is_assertion none w go h k = refl
  after_command-is_assertion (some (returns status)) w go h k = k status
  after_command-is_assertion (some (exits status)) w go h k = refl
  after_command-is_assertion (some (replaced_by progname args)) w go h k = refl
  after_command-is_assertion (some fails_assertion) w go h k = h

module _ (d : Double) (s : Sorting d) {j : Json} {Login : Type 0}
    (e : Surroundings j Login d.Value) where
  open d use {Value}

  report-is_assertion :
      (cfg : Config) (queue : String) (status : ℕ) (w : World Value)
      → is_assertion (report d s e cfg queue status w).0 ≡ false
  unfolding report
  report-is_assertion cfg queue status w =
      catching-is_assertion (draining d s e cfg queue) w _ λ stats.
        let (r, w') = summary_csv_print d s cout stats cfg.start_delta cfg.stop_delta w in
        catching-is_assertion r w' (λ done. (on_with status, w')) (λ done. refl)

  main-goes :
      (g : Goes Config) (w : World Value) → HasCommand g → is_assertion (main d s e g w).0 ≡ false
  unfolding main
  main-goes (to_exit status) w h = refl
  main-goes (to_program progname args) w h = refl
  main-goes (to_terminate failure) w h = refl
  main-goes to_assertion w h = h
  main-goes unfinished w h = refl
  main-goes (on_with cfg) w h = catching-is_assertion (subscribing d s e cfg) w _ λ queue.
      let w' = record w { started = w.started ++ cfg.cmdline ∷ [] } in
      after_command-is_assertion (run_command e.fuel e.executes e.waitpid e.fork cfg.cmdline) w'
        (λ status. report d s e cfg queue status w')
        (run_command-fails e.fuel e.executes e.waitpid e.fork cfg.cmdline h)
        (λ status. report-is_assertion cfg queue status w')

  -- Whatever the command line holds and whatever happens, the tool does not end by the assertion of
  -- `run_command` that there is a command.
  pub main-goes_on :
      (duration_parse : String → Result ℤ) (parse_options : Result Options) (w : World Value)
      → (main d s e (config duration_parse parse_options) w).0 ≢ to_assertion
  main-goes_on duration_parse parse_options w h =
      let fine =
        main-goes (config duration_parse parse_options) w
          (config-HasCommand duration_parse parse_options) in
      let wrong : true ≡ false = subst (λ g. is_assertion g ≡ false) h fine in cc
