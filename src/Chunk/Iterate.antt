-- ===== src/Chunk/Iterate.antt =====
-- The two ways to go through a chunk in include/metricq/types.hpp: iterators, and
-- `data_chunk_foreach`.
use metricq_cpp.Prelude.{◌≡◌, refl, inl, inr, List, [], ◌∷◌, arith}
use metricq_cpp.Prelude.Int.{ℤ, pos}
use metricq_cpp.Prelude.Outcome.{Result-cases, Action, add_int64}
use metricq_cpp.Chunk.{
  DataChunk, TimeValue, foreach_from, data_chunk_foreach, walk, range_for, end_of, time_value,
}

module _ {S V : Type 0} (cb : TimeValue V → Action S (Unit {0})) where
  walk-foreach_from :
      (deltas : List ℤ) (values : List V) (t : ℤ) (ds : List ℤ) (vs : List V) (s : S)
      → walk time_value (end_of ds vs) cb deltas values t s ≡ foreach_from cb t deltas values s
  unfolding walk foreach_from
  walk-foreach_from [] values t ds vs s = refl
  walk-foreach_from (d ∷ deltas) [] t ds vs s = ground arith
  walk-foreach_from (d ∷ deltas) (v ∷ values) t ds vs s = elim (Result-cases (add_int64 t d)) [
    | inl (a, e) ↦ ground (arith, walk-foreach_from deltas values a ds vs (cb (time_value a v) s).1)
    | inr (x, e) ↦ ground arith
  ]

  -- A range-based `for` over the iterators of a chunk does what `data_chunk_foreach` does with the
  -- same callback, for every callback and state: the same calls in the same order, the same
  -- failures and the same final state.
  pub range_for-foreach :
      (dc : DataChunk V) (s : S)
      → range_for time_value cb dc.time_delta dc.value s ≡ data_chunk_foreach cb dc s
  unfolding range_for data_chunk_foreach
  range_for-foreach dc s = walk-foreach_from dc.time_delta dc.value (pos 0) dc.time_delta dc.value s
