-- ===== src/Chunk/Tests.antt =====
-- Chunks of include/metricq/types.hpp at concrete points, and the theorems at these.
use metricq_cpp.Prelude.{ℕ, ◌≡◌, refl, List, [], ◌∷◌, ◌++◌}
use metricq_cpp.Prelude.Int.{pos, negsuc, ◌+ℤ◌, ◌-ℤ◌}
use metricq_cpp.Prelude.Outcome.{ok, err, out_of_bounds, Action, modify, add_int64}
use metricq_cpp.Chunk.{DataChunk, TimeValue, data_chunk_foreach, range_for, time_value, to_chunk}
use metricq_cpp.Chunk.Encode.{chunk_of}
use metricq_cpp.Chunk.Iterate.{range_for-foreach}

abbrev gather : TimeValue ℕ → Action (List (TimeValue ℕ)) (Unit {0})
gather tv = modify (λ got. got ++ tv ∷ [])

-- The second point lies before the first.
abbrev points : List (TimeValue ℕ)
points = time_value (pos 100) 7 ∷ time_value (pos 40) 8 ∷ []

abbrev points_chunk : DataChunk ℕ
points_chunk = record { time_delta = pos 100 ∷ negsuc 59 ∷ []; value = 7 ∷ 8 ∷ [] }

chunk_of-points : chunk_of points ≡ points_chunk
unfolding ◌-ℤ◌
chunk_of-points = refl

foreach-points : data_chunk_foreach gather points_chunk [] ≡ (ok tt, points)
unfolding data_chunk_foreach add_int64 ◌+ℤ◌
foreach-points = refl

-- A chunk with fewer values than times fails at the first that is missing.
foreach-short :
    data_chunk_foreach gather (record { time_delta = pos 1 ∷ pos 1 ∷ []; value = 7 ∷ [] }) []
    ≡ (err out_of_bounds, time_value (pos 1) 7 ∷ [])
unfolding data_chunk_foreach add_int64 ◌+ℤ◌
foreach-short = refl

to_chunk-value : to_chunk {V = ℕ} (time_value (pos 5) 9) ≡ chunk_of (time_value (pos 5) 9 ∷ [])
unfolding to_chunk ◌-ℤ◌
to_chunk-value = refl

range_for-foreach_example :
    range_for time_value gather points_chunk.time_delta points_chunk.value []
    ≡ data_chunk_foreach gather points_chunk []
range_for-foreach_example = range_for-foreach gather points_chunk []
