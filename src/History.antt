-- ===== src/History.antt =====
-- include/metricq/types.hpp: the responses to history requests and the three kinds of iterators over
-- them. `V` is the type of the
-- values, `double` in the source. As in Chunk, a position in a field is what is left of the field.
pub mod Iterate
mod Tests
use metricq_cpp.Prelude.{
  ℕ, ◌==◌, Bool, not, List, [], ◌∷◌, String, str_eq, length, ltb, if◌then◌else◌,
}
use metricq_cpp.Prelude.Int.{ℤ, pos, eqb_ℤ}
use metricq_cpp.Prelude.Outcome.{
  Result, ok, Action, ◌>>=◌, ◌>>◌, out_of_bounds, lift, or_raise, when, modify, gets, add_int64,
}
use metricq_cpp.Chunk.{TimeValue, head?, tail, range_for, time_value}

-- `HistoryResponse::Aggregate`
pub record Entry (V : Type 0) : Type 0 where
  pub minimum : V
  pub maximum : V
  pub sum : V
  pub count : ℕ
  pub integral : V
  pub active_time : ℤ

-- With the fields that the sources read; `error` is not in src/history.proto, but in the definition
-- that the build takes from a submodule.
pub record HistoryResponse (V : Type 0) : Type 0 where
  pub metric : String
  pub time_delta : List ℤ
  pub value_min : List V
  pub value_max : List V
  pub value_avg : List V
  pub aggregate : List (Entry V)
  pub value : List V
  -- Empty where there is none.
  pub error : String

pub record Aggregate (V : Type 0) : Type 0 where
  pub time : ℤ
  pub min : V
  pub max : V
  pub sum : V
  pub count : ℕ
  pub integral : V
  pub active_time : ℤ

pub record TimeValueAggregate (V : Type 0) : Type 0 where
  pub time : ℤ
  pub min : V
  pub max : V
  pub avg : V

-- What `Aggregate` computes with: the division of two `double`, and the conversions to it.
pub record Division (V : Type 0) : Type 0 where
  pub divide : V → V → V
  pub of_uint64 : ℕ → V
  pub of_int64 : ℤ → V

module _ {V : Type 0} (d : Division V) where
  unfoldable pub mean_sum : Aggregate V → V
  mean_sum a = d.divide a.sum (d.of_uint64 a.count)

  unfoldable pub mean_integral : Aggregate V → V
  mean_integral a = d.divide a.integral (d.of_int64 a.active_time)

  unfoldable pub mean : Aggregate V → V
  unfolding mean_sum mean_integral
  mean a = if not (eqb_ℤ a.active_time (pos 0)) then mean_integral a else mean_sum a

module _ {V : Type 0} where
  -- `HistoryResponseAggregateIterator::operator*` of a time and an entry.
  abbrev pub aggregate_of : ℤ → Entry V → Aggregate V
  aggregate_of time e = record {
    time = time;
    min = e.minimum;
    max = e.maximum;
    sum = e.sum;
    count = e.count;
    integral = e.integral;
    active_time = e.active_time;
  }

  -- `for (auto tv : HistoryResponseValueView(response)) body`, whose iterators are as those of a
  -- chunk.
  unfoldable pub for_values :
      {S : Type 0} → (TimeValue V → Action S (Unit {0})) → HistoryResponse V → Action S (Unit {0})
  unfolding range_for
  for_values body response = range_for time_value body response.time_delta response.value

  -- The same with `HistoryResponseAggregateView`.
  unfoldable pub for_aggregates :
      {S : Type 0} → (Aggregate V → Action S (Unit {0})) → HistoryResponse V → Action S (Unit {0})
  unfolding range_for
  for_aggregates body response = range_for aggregate_of body response.time_delta response.aggregate

-- `HistoryRepsonseIter`, over three fields beside the times.
pub record LegacyCursor (V : Type 0) : Type 0 where
  pub iter_time : List ℤ
  pub iter_value_min : List V
  pub iter_value_max : List V
  pub iter_value_avg : List V
  pub timestamp : ℤ

module _ {V S : Type 0} where
  unfoldable pub deref : LegacyCursor V → Action S (TimeValueAggregate V)
  deref it = do
    delta ← or_raise (head? it.iter_time) out_of_bounds
    time ← lift (add_int64 it.timestamp delta)
    min ← or_raise (head? it.iter_value_min) out_of_bounds
    max ← or_raise (head? it.iter_value_max) out_of_bounds
    avg ← or_raise (head? it.iter_value_avg) out_of_bounds
    lift (ok (record { time = time; min = min; max = max; avg = avg }))

  unfoldable pub next : LegacyCursor V → Action S (LegacyCursor V)
  next it = do
    delta ← or_raise (head? it.iter_time) out_of_bounds
    time ← lift (add_int64 it.timestamp delta)
    lift (
        ok (record {
          iter_time = tail it.iter_time;
          iter_value_min = tail it.iter_value_min;
          iter_value_max = tail it.iter_value_max;
          iter_value_avg = tail it.iter_value_avg;
          timestamp = time;
        }))

abbrev pub differs : {V : Type 0} → LegacyCursor V → LegacyCursor V → Bool
differs it other = not (length it.iter_time == length other.iter_time)

module _ {V : Type 0} where
  abbrev pub begin_of : HistoryResponse V → LegacyCursor V
  begin_of hr = record {
    iter_time = hr.time_delta;
    iter_value_min = hr.value_min;
    iter_value_max = hr.value_max;
    iter_value_avg = hr.value_avg;
    timestamp = pos 0;
  }

  abbrev pub end_of : HistoryResponse V → LegacyCursor V
  end_of hr = record {
    iter_time = [];
    iter_value_min = [];
    iter_value_max = [];
    iter_value_avg = [];
    timestamp = pos 0;
  }

module _ {V S : Type 0} (stop : LegacyCursor V)
    (body : TimeValueAggregate V → Action S (Unit {0})) where
  -- `for (auto x : response) body`, from a position whose times are given apart.
  unfoldable pub walk : List ℤ → LegacyCursor V → Action S (Unit {0})
  unfolding deref next
  walk [] it = when (differs it stop) (deref it >>= body)
  walk (delta ∷ deltas) it =
      when (differs it stop) (do x ← deref it; body x; it' ← next it; walk deltas it')

unfoldable pub for_legacy :
    {V S : Type 0}
    → (TimeValueAggregate V → Action S (Unit {0}))
    → HistoryResponse V
    → Action S (Unit {0})
unfolding walk
for_legacy body hr = walk (end_of hr) body hr.time_delta (begin_of hr)
