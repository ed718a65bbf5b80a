-- ===== src/FinalAction.antt =====
-- `final_action` of include/metricq/utils.hpp.
use metricq_cpp.Prelude.{Bool, true, false, if◌then◌else◌}
use metricq_cpp.Prelude.Outcome.{ok, Action}

-- `final_action`: the action runs at most once, by `invoke` or at the end of the scope.
pub record Scoped (S : Type 0) : Type 0 where
  pub object : S
  pub armed : Bool

module _ {S : Type 0} (final : S → S) where
  unfoldable pub invoke : Action (Scoped S) (Unit {0})
  invoke s =
      if s.armed then (ok tt, record { object = final s.object; armed = false }) else (ok tt, s)

  -- The rest of a scope after `auto f = finally(final);`. An exception leaves it by the destructor
  -- as well; after a failed `assert` there is no process, and the state says nothing.
  unfoldable pub finally : {A : Type 0} → Action (Scoped S) A → Action S A
  unfolding invoke
  finally body s =
      let (r, s') = body (record { object = s; armed = true }) in (r, (invoke s').1.object)

-- A call on the object inside such a scope.
abbrev pub inside : {S A : Type 0} → Action S A → Action (Scoped S) A
inside m s = let (r, o) = m s.object in (r, record s { object = o })
