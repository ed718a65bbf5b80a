-- ===== src/RunCommand/Tests.antt =====
-- Runs of tools/metricq-summary/src/run_command.cpp.
use metricq_cpp.Prelude.{ℕ, ◌≡◌, refl, ltb, true, false, [], ◌∷◌, none, some, if◌then◌else◌}
use metricq_cpp.RunCommand.{
  Status, signaled, stopped, returns, exits, replaced_by, in_child, in_parent, run_command,
}

-- Two stops, and then a kill.
abbrev waitpid : ℕ → Status
waitpid n = if ltb n 2 then stopped else signaled 9

killed : run_command 3 (λ p a. true) waitpid (in_parent 7) ("sleep" ∷ []) ≡ some (returns 137)
unfolding run_command
killed = refl

spawned :
    run_command 0 (λ p a. true) waitpid in_child ("sleep" ∷ "1" ∷ [])
    ≡ some (replaced_by "sleep" (some "sleep" ∷ some "1" ∷ none ∷ []))
unfolding run_command
spawned = refl

missing : run_command 0 (λ p a. false) waitpid in_child ("sleep" ∷ []) ≡ some (exits 1)
unfolding run_command
missing = refl
