-- ===== src/Timer/Callback.antt =====
-- What `Timer::start` and `Timer::timer_callback` of src/timer.cpp leave behind.
use metricq_cpp.Prelude.{
  ℕ, suc, ◌/◌, ◌==◌, ◌<◌, ◌≡◌, ◌≢◌, ◌⊎◌, refl, ap, ◌∙◌, true, false, some, inl, inr, arith,
  Bool-cases,
}
use metricq_cpp.Prelude.Int.{ℤ, pos, negsuc, ◌+ℤ◌, ◌≤ℤ◌, ◌<ℤ◌}
use metricq_cpp.Prelude.Outcome.{ok, err, invalid_argument, Action, pure, ◌>>◌, modify}
use metricq_cpp.Timer.{
  ErrorCode, success, operation_aborted, other, TimerResult, repeat, Waitable, Timer, cancel, start,
  timer_callback, finish, rearm, to_nanoseconds, to_microseconds,
}
use metricq_cpp.Timer.Deadline.{IsNext, catch_up-IsNext}

module _ (w : Waitable) where
  open w use {
    T, expiry, waiting, expiry-expires_at, expiry-async_wait, waiting-expires_at,
    waiting-expires_after, waiting-async_wait,
  }

  -- The callback has been run with some error code and has asked to be repeated.
  abbrev pub Repeats :
      (ErrorCode → Action (Timer w) TimerResult) → ErrorCode → Timer w → Timer w → Type 0
  Repeats callback error t t' = (error ≢ operation_aborted) × (callback error t ≡ (ok repeat, t'))

  timer_callback_repeat :
      (callback : ErrorCode → Action (Timer w) TimerResult) (fuel : ℕ) (now : ℤ) (error : ErrorCode)
      (t t' : Timer w)
      → Repeats callback error t t'
      → timer_callback w callback fuel now error t ≡ finish w fuel now repeat t'
  unfolding timer_callback
  timer_callback_repeat callback fuel now success t t' r = ground arith
  timer_callback_repeat callback fuel now operation_aborted t t' r = absurd (r.0 refl)
  timer_callback_repeat callback fuel now (other n) t t' r = ground arith

  rearm_lem :
      (deadline : ℤ) (t : Timer w)
      → (expiry (rearm w deadline t).timer ≡ deadline) × (waiting (rearm w deadline t).timer ≡ 1)
  rearm_lem deadline t = (
    expiry-async_wait _ ∙ expiry-expires_at deadline t.timer,
    waiting-async_wait _ ∙ ap suc (waiting-expires_at deadline t.timer),
  )

  -- After a callback that asks to be repeated and leaves a positive interval, the timer is armed
  -- with exactly one wait, for the first point of the grid of the old expiry that is later than
  -- the clock. Whether it counts as running is as the callback left it. The fuel has to exceed the
  -- number of nanoseconds by which the clock is ahead.
  pub timer_callback-IsNext :
      (callback : ErrorCode → Action (Timer w) TimerResult) (fuel : ℕ) (now : ℤ) (error : ErrorCode)
      (t t' : Timer w) (gap : ℕ)
      → Repeats callback error t t'
      → pos 0 <ℤ to_nanoseconds t'.interval
      → now <ℤ expiry t'.timer +ℤ to_nanoseconds t'.interval +ℤ pos gap
      → gap < fuel
      → (t'' : Timer w) × (timer_callback w callback fuel now error t ≡ some (ok tt, t''))
        × IsNext
            (to_nanoseconds t'.interval)
            now
            (expiry t'.timer +ℤ to_nanoseconds t'.interval)
            (expiry t''.timer)
        × (waiting t''.timer ≡ 1)
        × (t''.running ≡ t'.running)
  timer_callback-IsNext callback fuel now error t t' gap r p h f =
      let step = to_nanoseconds t'.interval in
      let (d, found, next) = catch_up-IsNext fuel step now (expiry t'.timer +ℤ step) gap p h f in
      (
        rearm w d t',
        timer_callback_repeat callback fuel now error t t' r ∙ rw (found, finish),
        rw (rearm_lem d t').0 next,
        (rearm_lem d t').1,
        refl,
      )

  -- The wait that `restart` sets up.
  abbrev started_wait : ℤ → Timer w → T
  started_wait d t = w.async_wait (w.expires_after (to_nanoseconds (to_microseconds d)) t.timer)

  waiting-started_wait : (d : ℤ) (t : Timer w) → waiting (started_wait d t) ≡ 1
  waiting-started_wait d t = waiting-async_wait _ ∙ ap suc (waiting-expires_after _ t.timer)

  -- `start` refuses a duration of less than a microsecond either way and then has neither touched
  -- the waits nor the running flag. With any other duration, a negative one too, it runs and has
  -- exactly one wait.
  pub start_cases :
      (d : ℤ) (t : Timer w)
      → let (r, t') = start w d t in
        ((negsuc 999 <ℤ d)
          × (d <ℤ pos 1000)
          × (r
              ≡ err (invalid_argument "metricq::Timer doesn't support sub-microseconds intervals."))
          × (t'.timer ≡ t.timer)
          × (t'.running ≡ t.running))
        ⊎ (((d ≤ℤ negsuc 999) ⊎ (pos 1000 ≤ℤ d))
            × (r ≡ ok tt)
            × (t'.running ≡ true)
            × (waiting t'.timer ≡ 1))
  unfolding start
  start_cases (pos n) t = elim (Bool-cases (n / 1000 == 0)) [
    | inl e ↦ inl (omega arith, ground arith, ground arith, ground arith, ground arith)
    | inr e ↦ inr (
      inr (ground arith),
      ground arith,
      ground arith,
      ap waiting {x = (start w (pos n) t).1.timer} {y = started_wait (pos n) t} (ground arith)
          ∙ waiting-started_wait (pos n) t,
    )
  ]
  start_cases (negsuc n) t = elim (Bool-cases (suc n / 1000 == 0)) [
    | inl e ↦ inl (ground arith, ground arith, ground arith, ground arith, ground arith)
    | inr e ↦ inr (
      inl (ground arith),
      ground arith,
      ground arith,
      ap waiting {x = (start w (negsuc n) t).1.timer} {y = started_wait (negsuc n) t} (ground arith)
          ∙ waiting-started_wait (negsuc n) t,
    )
  ]

  -- A callback that cancels its timer and then asks to be repeated leaves the timer armed although
  -- it does not count as running.
  pub cancel_then_repeat :
      (fuel : ℕ) (now : ℤ) (t : Timer w) (gap : ℕ)
      → pos 0 <ℤ to_nanoseconds t.interval
      → now <ℤ expiry (cancel w t).timer +ℤ to_nanoseconds t.interval +ℤ pos gap
      → gap < fuel
      → (t' : Timer w) × (timer_callback w
            (λ _. modify (cancel w) >> pure repeat)
            fuel
            now
            success
            t
          ≡ some (ok tt, t'))
        × (t'.running ≡ false)
        × (waiting t'.timer ≡ 1)
  unfolding cancel
  cancel_then_repeat fuel now t gap p h f =
      let (t', done, _, armed, running) =
        timer_callback-IsNext (λ _. modify (cancel w) >> pure repeat) fuel now success t
          (cancel w t) gap ((λ e. cc), refl) p h f in
      (t', done, running, armed)
