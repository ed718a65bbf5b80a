-- ===== src/Timer.antt =====
-- include/metricq/timer.hpp and src/timer.cpp: a repeating timer over asio's
-- `basic_waitable_timer`. Points in time and durations are counted in nanoseconds, the interval in
-- microseconds as in the source. What asio does is the parameter `Waitable`; the callback is a
-- parameter too, and may call the methods of the timer that calls it.
pub mod Deadline
pub mod Callback
mod Tests
use metricq_cpp.Prelude.{
  ℕ, zero, suc, ◌*◌, ◌≡◌, Bool, true, false, Option, none, some, if◌then◌else◌,
}
use metricq_cpp.Prelude.Int.{ℤ, pos, negsuc, ◌+ℤ◌, leb_ℤ, eqb_ℤ, sub_ℕ, quot_ℤ}
use metricq_cpp.Prelude.Outcome.{
  Result, ok, err, Failure, invalid_argument, logic_error, Action, ◌>>=◌, ◌>>◌, skip, raise, gets,
  modify, when,
}

-- The error codes that the code tells apart.
pub data ErrorCode : Type 0 where
  success operation_aborted : ErrorCode
  other : ℕ → ErrorCode

pub data TimerResult : Type 0 where
  repeat cancelled : TimerResult

-- asio's timer: each call that sets the expiry, and `cancel`, aborts the waits that are pending.
pub record Waitable : Type 1 where
  pub T : Type 0
  pub expiry : T → ℤ
  pub waiting : T → ℕ
  pub expires_after : ℤ → T → T
  pub expires_at : ℤ → T → T
  pub async_wait : T → T
  pub cancel_waits : T → T
  pub expiry-expires_at : (d : ℤ) (t : T) → expiry (expires_at d t) ≡ d
  pub expiry-async_wait : (t : T) → expiry (async_wait t) ≡ expiry t
  pub waiting-expires_at : (d : ℤ) (t : T) → waiting (expires_at d t) ≡ 0
  pub waiting-expires_after : (d : ℤ) (t : T) → waiting (expires_after d t) ≡ 0
  pub waiting-async_wait : (t : T) → waiting (async_wait t) ≡ suc (waiting t)
  pub waiting-cancel_waits : (t : T) → waiting (cancel_waits t) ≡ 0

-- `duration_cast<microseconds>`
abbrev pub to_microseconds : ℤ → ℤ
to_microseconds d = quot_ℤ d 1000

-- A number of microseconds in nanoseconds.
abbrev pub to_nanoseconds : ℤ → ℤ
to_nanoseconds (pos n) = pos (n * 1000)
to_nanoseconds (negsuc n) = sub_ℕ 0 (suc n * 1000)

-- `while (deadline <= now) deadline += interval_;`, with fuel; `none` when that runs out.
pub catch_up : ℕ → ℤ → ℤ → ℤ → Option ℤ
catch_up zero interval now deadline = none
catch_up (suc fuel) interval now deadline =
    let rest = catch_up fuel interval now (deadline +ℤ interval) in
    if leb_ℤ deadline now then rest else some deadline

module _ (w : Waitable) where
  open w use {T, expiry, expires_after, expires_at, async_wait, cancel_waits}

  pub record Timer : Type 0 where
    pub timer : T
    pub interval : ℤ
    pub running : Bool

  -- The constructor.
  unfoldable pub new : T → Timer
  new t = record { timer = t; interval = pos 0; running = false }

  unfoldable pub cancel : Timer → Timer
  cancel t = record t { timer = cancel_waits t.timer; running = false }

  abbrev pub arm : Timer → Timer
  arm t = record t { timer = async_wait t.timer }

  unfoldable pub restart : Action Timer (Unit {0})
  restart = do
    interval ← gets (λ t. t.interval)
    when (eqb_ℤ interval (pos 0))
        (raise (logic_error "metricq::Timer interval must be set before calling restart!"))
    modify (λ t. record t { running = true })
    modify (λ t. record t { timer = expires_after (to_nanoseconds t.interval) t.timer })
    modify arm

  -- `start(Duration)`
  unfoldable pub start : ℤ → Action Timer (Unit {0})
  unfolding restart quot_ℤ
  start duration = do
    modify (λ t. record t { interval = to_microseconds duration })
    interval ← gets (λ t. t.interval)
    when (eqb_ℤ interval (pos 0))
        (raise (invalid_argument "metricq::Timer doesn't support sub-microseconds intervals."))
    restart

  -- `start(Callback, Duration)`, of a callback and the timer beside it.
  unfoldable pub start_with : {K : Type 0} → K → ℤ → Action (K × Timer) (Unit {0})
  unfolding start
  start_with callback duration (old, t) = let (r, t') = start duration t in (r, (callback, t'))

  -- The rest of `timer_callback` once the callback has asked to be repeated and the loop has found
  -- the deadline.
  abbrev pub rearm : ℤ → Timer → Timer
  rearm deadline t = arm (record t { timer = expires_at deadline t.timer })

  -- `none` is a loop that did not end within the fuel.
  abbrev pub finish : ℕ → ℤ → TimerResult → Timer → Option (Result (Unit {0}) × Timer)
  finish fuel now repeat t =
      elim (catch_up fuel (to_nanoseconds t.interval) now
        (expiry t.timer +ℤ to_nanoseconds t.interval)) [
          | none ↦ none
          | some deadline ↦ some (ok tt, rearm deadline t)
        ]
  finish fuel now cancelled t = some (ok tt, record t { running = false })

  -- `timer_callback`; `now` is what the system clock shows after the callback.
  pub timer_callback :
      (ErrorCode → Action Timer TimerResult)
      → ℕ
      → ℤ
      → ErrorCode
      → Timer
      → Option (Result (Unit {0}) × Timer)
  timer_callback callback fuel now operation_aborted t = some (ok tt, t)
  timer_callback callback fuel now error t =
      let (r, t') = callback error t in
      elim r [ ok res ↦ finish fuel now res t' | err e ↦ some (err e, t') ]
