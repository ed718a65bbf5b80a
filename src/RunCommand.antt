-- ===== src/RunCommand.antt =====
-- tools/metricq-summary/src/run_command.cpp: running a command and waiting for its end. What `fork`,
-- `execvp` and `waitpid` return are parameters. Logging is left out.
pub mod Wait
mod Tests
use metricq_cpp.Prelude.{
  ℕ, zero, suc, ◌+◌, Bool, List, [], ◌∷◌, Option, none, some, String, if◌then◌else◌,
}

-- What a call of `waitpid` tells: it has failed, or the child has ended, was killed, or has stopped.
pub data Status : Type 0 where
  failed : Status
  exited : ℕ → Status
  signaled : ℕ → Status
  stopped : Status

-- How a run of the function ends: it returns, or the process exits, is replaced by another program, or
-- fails an assertion.
pub data Outcome : Type 0 where
  returns : ℕ → Outcome
  exits : ℕ → Outcome
  replaced_by : String → List (Option String) → Outcome
  fails_assertion : Outcome

abbrev pub exit_failure : ℕ
exit_failure = 1

-- What `fork` returns: -1, 0 in the child, or the id of the child.
pub data Fork : Type 0 where
  fork_failed : Fork
  in_child : Fork
  in_parent : ℕ → Fork

-- The arguments, with a null pointer after the last one.
unfoldable pub spawn_args : List String → List (Option String)
spawn_args [] = none ∷ []
spawn_args (arg ∷ args) = some arg ∷ spawn_args args

-- `spawn`, of a command line that is not empty; `executes` tells whether `execvp` succeeds.
unfoldable pub spawn : (String → List (Option String) → Bool) → String → List String → Outcome
unfolding spawn_args
spawn executes progname args =
    if executes progname (spawn_args (progname ∷ args))
    then replaced_by progname (spawn_args (progname ∷ args))
    else exits exit_failure

-- The loop round `waitpid`, whose `n`-th call and those after it are still to come; `none` where the
-- fuel has run out.
unfoldable pub wait_loop : ℕ → (ℕ → Status) → ℕ → Option Outcome
wait_loop zero waitpid n = none
wait_loop (suc fuel) waitpid n = elim (waitpid n) [
  | failed ↦ some (exits exit_failure)
  | exited status ↦ some (returns status)
  | signaled sig ↦ some (returns (128 + sig))
  | stopped ↦ wait_loop fuel waitpid (suc n)
]

unfoldable pub run_command :
    ℕ → (String → List (Option String) → Bool) → (ℕ → Status) → Fork → List String → Option Outcome
unfolding spawn wait_loop
run_command fuel executes waitpid fork [] = some fails_assertion
run_command fuel executes waitpid fork_failed (progname ∷ args) = some (exits exit_failure)
run_command fuel executes waitpid in_child (progname ∷ args) = some (spawn executes progname args)
run_command fuel executes waitpid (in_parent child) (progname ∷ args) = wait_loop fuel waitpid 0
