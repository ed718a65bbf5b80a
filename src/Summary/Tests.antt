-- ===== src/Summary/Tests.antt =====
-- Tests and witnesses of the statistics, on numbers that are naturals.
use metricq_cpp.Prelude.{ℕ, ◌≡◌, refl, List, [], ◌∷◌, All, arith}
use metricq_cpp.Prelude.Int.{pos, ◌+ℤ◌, ◌-ℤ◌}
use metricq_cpp.Prelude.Outcome.{ok, add_int64, sub_int64}
use metricq_cpp.Chunk.{TimeValue}
use metricq_cpp.Summary.{Summary, window, middle, summarize}
use metricq_cpp.Summary.Naturals.{naturals, sorting}
use metricq_cpp.Summary.Quartiles.{NotAbove, summarize-ordered}

abbrev point : ℕ → ℕ → TimeValue ℕ
point t v = record { time = pos t; value = v }

abbrev points : List (TimeValue ℕ)
points = point 10 7 ∷ point 20 3 ∷ point 30 9 ∷ point 40 5 ∷ point 50 1 ∷ []

window_points : window (pos 5) (pos 5) points ≡ ok (point 20 3 ∷ point 30 9 ∷ point 40 5 ∷ [])
unfolding window add_int64 sub_int64 ◌+ℤ◌ ◌-ℤ◌
window_points = refl

-- The value that is read for the middle of three is the greatest.
median_points : middle naturals (point 20 3 ∷ point 40 5 ∷ point 30 9 ∷ []) ≡ ok 9
unfolding middle
median_points = refl

summarize-ordered_example :
    (m : Summary ℕ) × (summarize naturals sorting points ≡ ok m)
    × (m.num_timepoints ≡ 5)
    × (m.duration ≡ pos 40)
    × NotAbove naturals m.minimum m.quart25
    × NotAbove naturals m.quart25 m.quart75
    × NotAbove naturals m.quart75 m.maximum
    × All (λ tv. NotAbove naturals m.minimum tv.value × NotAbove naturals tv.value m.maximum) points
unfolding sub_int64 ◌-ℤ◌
summarize-ordered_example =
    summarize-ordered naturals sorting points (omega arith)
      (refl, (refl, (refl, (refl, (refl, tt))))) (pos 40) refl
