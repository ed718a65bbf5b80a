-- ===== src/Metric/Tests.antt =====
-- A metric of include/metricq/metric.hpp at concrete calls, and the theorems at these.
use metricq_cpp.Prelude.{ℕ, ◌≡◌, ◌<◌, refl, List, [], ◌∷◌, length, All, arith}
use metricq_cpp.Prelude.Int.{pos, ◌-ℤ◌}
use metricq_cpp.Prelude.Outcome.{ok, sub_int64}
use metricq_cpp.Chunk.{TimeValue, time_value}
use metricq_cpp.Metric.{Metric, new, send, flush, set_chunk_size}
use metricq_cpp.Metric.Batches.{Call, sends, flushes, resizes, apply_all, sent_by}
use metricq_cpp.Metric.Perform.{Written, perform_all, labelled, Refines}
use metricq_cpp.Metric.Refine.{new-Refines, perform_all-Refines}
use metricq_cpp.Metric.Delivery.{receive, receive-perform_all, then_flush, fresh}
use metricq_cpp.Metric.Sizes.{all_sends, perform_all-sizes, perform_all_over}

abbrev point : ℕ → TimeValue ℕ
point n = time_value (pos n) n

abbrev calls : List (Call (TimeValue ℕ))
calls =
    resizes 2
    ∷ sends (point 10)
    ∷ sends (point 20)
    ∷ sends (point 15)
    ∷ flushes
    ∷ sends (point 30)
    ∷ []

abbrev started : Metric ℕ (Unit {0}) (Written ℕ)
started = new "power" tt []

perform_all-calls :
    (perform_all calls started).1.writer
    ≡ labelled "power" ((point 10 ∷ point 20 ∷ []) ∷ (point 15 ∷ []) ∷ [])
unfolding perform_all new send flush set_chunk_size sub_int64 ◌-ℤ◌
perform_all-calls = refl

perform_all-Refines_example :
    ((perform_all calls started).0 ≡ ok tt)
    × Refines (perform_all calls started).1 (apply_all calls fresh)
perform_all-Refines_example =
    perform_all-Refines calls started fresh (omega arith) (new-Refines "power" tt)

receive-perform_all_example :
    let (r, m) = perform_all (then_flush calls) started in
    (r ≡ ok tt) × (m.chunk.time_delta ≡ []) × (receive m.writer [] ≡ (ok tt, sent_by calls))
receive-perform_all_example = receive-perform_all "power" tt calls (omega arith)

perform_all-sizes_example :
    let (r, m) = perform_all (resizes 2 ∷ all_sends (point 1 ∷ point 2 ∷ point 3 ∷ [])) started in
    (r ≡ ok tt) × All (λ e. length e.1.time_delta ≡ 2) m.writer × (length m.chunk.time_delta < 2)
perform_all-sizes_example =
    perform_all-sizes "power" tt 2 (point 1 ∷ point 2 ∷ point 3 ∷ []) (omega arith) (omega arith)
      (omega arith)

-- A metric that got two points at size 5, and then the size 1.
abbrev shrunk : List (Call (TimeValue ℕ))
shrunk = resizes 5 ∷ sends (point 1) ∷ sends (point 2) ∷ resizes 1 ∷ []

shrunk-Refines : Refines (perform_all shrunk started).1 (apply_all shrunk fresh)
shrunk-Refines = (perform_all-Refines shrunk started fresh (omega arith) (new-Refines "power" tt)).1

perform_all_over_example :
    let (r, m) = perform_all (all_sends (point 3 ∷ point 4 ∷ [])) (perform_all shrunk started).1 in
    (r ≡ ok tt) × (m.writer ≡ labelled m.id [])
perform_all_over_example =
    perform_all_over (perform_all shrunk started).1 (apply_all shrunk fresh)
      (point 3 ∷ point 4 ∷ []) shrunk-Refines (omega arith) (omega arith)
