-- ===== src/Timer/Deadline.antt =====
-- The loop of `Timer::timer_callback` in src/timer.cpp.
use metricq_cpp.Prelude.{
  ℕ, zero, suc, ◌<◌, ◌≡◌, ◌⊎◌, refl, some, arith, Bool-cases, inl, inr, true, false,
}
use metricq_cpp.Prelude.Int.{ℤ, pos, ◌+ℤ◌, ◌≤ℤ◌, ◌<ℤ◌, leb_ℤ, int_laws}
use metricq_cpp.Timer.{catch_up}

-- Steps of the grid of the timer.
abbrev pub steps : ℤ → ℕ → ℤ → ℤ
steps start zero interval = start
steps start (suc k) interval = steps (start +ℤ interval) k interval

leb_ℤ→le : (a b : ℤ) → leb_ℤ a b ≡ true → a ≤ℤ b
leb_ℤ→le a b h = ground arith

leb_ℤ→lt : (a b : ℤ) → leb_ℤ a b ≡ false → b <ℤ a
leb_ℤ→lt a b h = ground arith

lt→leb_ℤ : (a b : ℤ) → a <ℤ b → leb_ℤ b a ≡ false
lt→leb_ℤ a b h = ground arith

le→leb_ℤ : (a b : ℤ) → a ≤ℤ b → leb_ℤ a b ≡ true
le→leb_ℤ a b h = ground arith

-- What the loop comes to: the first point of the grid, from the first deadline on, that is later
-- than `now`. If that is not the first deadline itself, it lies within one interval of `now`.
abbrev pub IsNext : ℤ → ℤ → ℤ → ℤ → Type 0
IsNext interval now first deadline =
    ((k : ℕ) × (deadline ≡ steps first k interval))
    × (now <ℤ deadline)
    × ((deadline ≡ first) ⊎ (deadline ≤ℤ now +ℤ interval))

IsNext-later :
    (interval now deadline d : ℤ)
    → deadline ≤ℤ now
    → IsNext interval now (deadline +ℤ interval) d
    → IsNext interval now deadline d
IsNext-later interval now deadline d late ((k, on_grid), after, near) =
    ((suc k, on_grid), after, inr (close near))
  where
    close : (d ≡ deadline +ℤ interval) ⊎ (d ≤ℤ now +ℤ interval) → d ≤ℤ now +ℤ interval
    close (inl e) = rw e (omega int_laws)
    close (inr h) = h

-- With a positive interval the loop ends, on the first point of the grid that is later than `now`,
-- if the fuel is more than the number of nanoseconds from the deadline to `now`.
pub catch_up-IsNext :
    (fuel : ℕ) (interval now deadline : ℤ) (gap : ℕ)
    → pos 0 <ℤ interval
    → now <ℤ deadline +ℤ pos gap
    → gap < fuel
    → (d : ℤ) × (catch_up fuel interval now deadline ≡ some d) × IsNext interval now deadline d
unfolding catch_up
catch_up-IsNext zero interval now deadline gap p h f = absurd (omega arith)
catch_up-IsNext (suc fuel) interval now deadline zero p h f = (
  deadline,
  rw (lt→leb_ℤ now deadline (omega int_laws)),
  ((zero, refl), omega int_laws, inl refl),
)
catch_up-IsNext (suc fuel) interval now deadline (suc gap) p h f =
    elim (Bool-cases (leb_ℤ deadline now)) [
      | inl e ↦
          let (d, found, next) =
            catch_up-IsNext fuel interval now (deadline +ℤ interval) gap p (omega int_laws)
              (omega arith) in
          (d, rw e found, IsNext-later interval now deadline d (leb_ℤ→le deadline now e) next)
      | inr e ↦ (deadline, rw e, ((zero, refl), leb_ℤ→lt deadline now e, inl refl))
    ]
