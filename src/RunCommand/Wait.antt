-- ===== src/RunCommand/Wait.antt =====
-- The loop round `waitpid` of tools/metricq-summary/src/run_command.cpp.
use metricq_cpp.Prelude.{
  ℕ, zero, suc, ◌+◌, ◌≤◌, ◌<◌, ◌≡◌, ap, ◌∙◌, List, ◌∷◌, Option, some, String, Bool, arith, ◌==◌,
  Bool-cases, inl, inr,
}
use metricq_cpp.RunCommand.{
  Status, failed, exited, signaled, stopped, Outcome, returns, exits, exit_failure, in_parent,
  wait_loop, run_command,
}

-- A status that is no stop.
pub data Ending : Type 0 where
  by_failure : Ending
  by_exit : ℕ → Ending
  by_signal : ℕ → Ending

abbrev pub status_of : Ending → Status
status_of by_failure = failed
status_of (by_exit status) = exited status
status_of (by_signal sig) = signaled sig

abbrev pub outcome_of : Ending → Outcome
outcome_of by_failure = exits exit_failure
outcome_of (by_exit status) = returns status
outcome_of (by_signal sig) = returns (128 + sig)

wait_loop-end :
    (fuel : ℕ) (waitpid : ℕ → Status) (n : ℕ) (e : Ending)
    → waitpid n ≡ status_of e
    → wait_loop (suc fuel) waitpid n ≡ some (outcome_of e)
unfolding wait_loop
wait_loop-end fuel waitpid n by_failure h = ground arith
wait_loop-end fuel waitpid n (by_exit status) h = ground arith
wait_loop-end fuel waitpid n (by_signal sig) h = ground arith

wait_loop-stop :
    (fuel : ℕ) (waitpid : ℕ → Status) (n : ℕ)
    → waitpid n ≡ stopped
    → wait_loop (suc fuel) waitpid n ≡ wait_loop fuel waitpid (suc n)
unfolding wait_loop
wait_loop-stop fuel waitpid n h = ground arith

wait_loop-ends :
    (fuel : ℕ) (waitpid : ℕ → Status) (n k : ℕ) (e : Ending)
    → ((i : ℕ) → i < k → waitpid i ≡ stopped)
    → waitpid k ≡ status_of e
    → n ≤ k
    → k < n + fuel
    → wait_loop fuel waitpid n ≡ some (outcome_of e)
wait_loop-ends zero waitpid n k e stops end low high = absurd (omega arith)
wait_loop-ends (suc fuel) waitpid n k e stops end low high = elim (Bool-cases (n == k)) [
  | inl same ↦ wait_loop-end fuel waitpid n e (ap waitpid (ground arith) ∙ end)
  | inr other ↦
      wait_loop-stop fuel waitpid n (stops n (ground arith))
      ∙ wait_loop-ends fuel waitpid (suc n) k e stops end (ground arith) (omega arith)
]

-- However often the child stops before, the parent returns once it has ended: with its status, with 128
-- and the signal that has killed it, or by an exit where `waitpid` fails; fuel above the number of stops
-- is enough.
pub run_command-ends :
    (fuel : ℕ) (executes : String → List (Option String) → Bool) (waitpid : ℕ → Status) (child : ℕ)
    (progname : String) (args : List String) (k : ℕ) (e : Ending)
    → ((i : ℕ) → i < k → waitpid i ≡ stopped)
    → waitpid k ≡ status_of e
    → k < fuel
    → run_command fuel executes waitpid (in_parent child) (progname ∷ args) ≡ some (outcome_of e)
unfolding run_command
run_command-ends fuel executes waitpid child progname args k e stops end h =
    wait_loop-ends fuel waitpid 0 k e stops end (omega arith) (omega arith)
