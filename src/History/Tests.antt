-- ===== src/History/Tests.antt =====
-- Iterations over a response of include/metricq/types.hpp, and the theorem at it.
use metricq_cpp.Prelude.{ℕ, ◌/◌, ◌≡◌, refl, List, [], ◌∷◌, ◌++◌}
use metricq_cpp.Prelude.Int.{pos, pos_part, ◌+ℤ◌}
use metricq_cpp.Prelude.Outcome.{ok, err, out_of_bounds, Action, add_int64}
use metricq_cpp.Chunk.{time_value}
use metricq_cpp.History.{
  HistoryResponse, Entry, Division, mean, aggregate_of, for_values, for_aggregates,
}

abbrev entry : Entry ℕ
entry = record {
  minimum = 1;
  maximum = 9;
  sum = 12;
  count = 3;
  integral = 40;
  active_time = pos 10;
}

-- Two times, but one aggregate only.
abbrev response : HistoryResponse ℕ
response = record {
  metric = "power";
  time_delta = pos 100 ∷ pos 10 ∷ [];
  value_min = 1 ∷ 2 ∷ [];
  value_max = 5 ∷ 6 ∷ [];
  value_avg = 3 ∷ 4 ∷ [];
  aggregate = entry ∷ [];
  value = 7 ∷ 8 ∷ [];
  error = "";
}

abbrev collect : {R : Type 0} → R → Action (List R) (Unit {0})
collect r rs = (ok tt, rs ++ r ∷ [])

values-response :
    for_values collect response [] ≡ (ok tt, time_value (pos 100) 7 ∷ time_value (pos 110) 8 ∷ [])
unfolding for_values add_int64 ◌+ℤ◌
values-response = refl

-- The iterators compare times only, so that the second aggregate is read past the end.
aggregates-response :
    for_aggregates collect response [] ≡ (err out_of_bounds, aggregate_of (pos 100) entry ∷ [])
unfolding for_aggregates add_int64 ◌+ℤ◌
aggregates-response = refl

abbrev division : Division ℕ
division = record { divide = λ a b. a / b; of_uint64 = λ n. n; of_int64 = pos_part }

mean-entry : mean division (aggregate_of (pos 100) entry) ≡ 4
unfolding mean
mean-entry = refl
