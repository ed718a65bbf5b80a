-- ===== src/Timer/Tests.antt =====
-- A timer of src/timer.cpp over a concrete asio timer, and the theorems at it.
use metricq_cpp.Prelude.{ℕ, suc, ◌≡◌, ◌⊎◌, refl, true, false, some, arith}
use metricq_cpp.Prelude.Int.{ℤ, pos, negsuc, ◌+ℤ◌, ◌≤ℤ◌, ◌<ℤ◌, quot_ℤ}
use metricq_cpp.Prelude.Outcome.{ok, err, invalid_argument, Action, pure, modify, ◌>>◌}
use metricq_cpp.Timer.{
  ErrorCode, success, TimerResult, repeat, Waitable, Timer, start, cancel, timer_callback, catch_up,
}
use metricq_cpp.Timer.Deadline.{IsNext, catch_up-IsNext}
use metricq_cpp.Timer.Callback.{timer_callback-IsNext, start_cases, cancel_then_repeat}

record Waits : Type 0 where
  deadline : ℤ
  pending : ℕ

-- An asio timer over a clock that shows 0 whenever a duration is set.
abbrev waits : Waitable
waits = record {
  T = Waits;
  expiry = λ t. t.deadline;
  waiting = λ t. t.pending;
  expires_after = λ d t. record { deadline = d; pending = 0 };
  expires_at = λ d t. record { deadline = d; pending = 0 };
  async_wait = λ t. record { deadline = t.deadline; pending = suc t.pending };
  cancel_waits = λ t. record { deadline = t.deadline; pending = 0 };
  expiry-expires_at = λ d t. refl;
  expiry-async_wait = λ t. refl;
  waiting-expires_at = λ d t. refl;
  waiting-expires_after = λ d t. refl;
  waiting-async_wait = λ t. refl;
  waiting-cancel_waits = λ t. refl;
}

abbrev idle : Timer waits
idle = record {
  timer = record { deadline = pos 0; pending = 0 };
  interval = pos 0;
  running = false;
}

abbrev ticking : Timer waits
ticking = record {
  timer = record { deadline = pos 1000; pending = 1 };
  interval = pos 1;
  running = true;
}

abbrev again : ErrorCode → Action (Timer waits) TimerResult
again _ = pure repeat

start-microsecond : start waits (pos 1999) idle ≡ (ok tt, ticking)
unfolding start quot_ℤ
start-microsecond = refl

-- 3500 ns after the epoch the deadlines at 2000 and 3000 have been missed.
catch_up_missed : catch_up 9 (pos 1000) (pos 3500) (pos 2000) ≡ some (pos 4000)
unfolding catch_up ◌+ℤ◌
catch_up_missed = refl

catch_up-IsNext_example :
    (d : ℤ) × (catch_up 1502 (pos 1000) (pos 3500) (pos 2000) ≡ some d)
    × IsNext (pos 1000) (pos 3500) (pos 2000) d
unfolding ◌+ℤ◌
catch_up-IsNext_example =
    catch_up-IsNext 1502 (pos 1000) (pos 3500) (pos 2000) 1501 (omega arith) (omega arith)
      (omega arith)

timer_callback-IsNext_example :
    (t : Timer waits) × (timer_callback waits again 1502 (pos 3500) success ticking
      ≡ some (ok tt, t))
    × IsNext (pos 1000) (pos 3500) (pos 1000 +ℤ pos 1000) t.timer.deadline
    × (t.timer.pending ≡ 1)
    × (t.running ≡ true)
unfolding ◌+ℤ◌
timer_callback-IsNext_example =
    timer_callback-IsNext waits again 1502 (pos 3500) success ticking ticking 1501 ((λ e. cc), refl)
      (omega arith) (omega arith) (omega arith)

start_cases_example :
    let (r, t) = start waits (pos 1999) idle in
    ((negsuc 999 <ℤ pos 1999)
      × (pos 1999 <ℤ pos 1000)
      × (r ≡ err (invalid_argument "metricq::Timer doesn't support sub-microseconds intervals."))
      × (t.timer ≡ idle.timer)
      × (t.running ≡ false))
    ⊎ (((pos 1999 ≤ℤ negsuc 999) ⊎ (pos 1000 ≤ℤ pos 1999))
        × (r ≡ ok tt)
        × (t.running ≡ true)
        × (t.timer.pending ≡ 1))
start_cases_example = start_cases waits (pos 1999) idle

cancel_then_repeat_example :
    (t : Timer waits) × (timer_callback waits
        (λ _. modify (cancel waits) >> pure repeat)
        2
        (pos 1000)
        success
        ticking
      ≡ some (ok tt, t))
    × (t.running ≡ false)
    × (t.timer.pending ≡ 1)
unfolding cancel ◌+ℤ◌
cancel_then_repeat_example =
    cancel_then_repeat waits 2 (pos 1000) ticking 1 (omega arith) (omega arith) (omega arith)
