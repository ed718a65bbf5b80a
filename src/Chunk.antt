-- ===== src/Chunk.antt =====
-- include/metricq/types.hpp: data chunks and their iterators. A chunk holds points in time as
-- differences, the first one against the epoch. An iterator into a protobuf field is modelled by
-- the entries that it has still to visit, so `end()` has none left, and to read past the end is
-- `out_of_bounds`. `V` is the type of the values, `double` in the source.
pub mod Iterate
pub mod Encode
mod Tests
use metricq_cpp.Prelude.{
  ℕ, zero, suc, ◌==◌, Bool, true, false, not, List, [], ◌∷◌, Option, none, some, length,
  if◌then◌else◌,
}
use metricq_cpp.Prelude.Int.{ℤ, pos}
use metricq_cpp.Prelude.Outcome.{
  Result, ok, err, Failure, out_of_bounds, Action, ◌>>=◌, ◌>>◌, skip, lift, or_raise, when,
  add_int64,
}

pub record DataChunk (V : Type 0) : Type 0 where
  pub time_delta : List ℤ
  pub value : List V

pub record TimeValue (V : Type 0) : Type 0 where
  pub time : ℤ
  pub value : V

-- A position in a field of time differences and in the field beside it.
pub record Cursor (X : Type 0) : Type 0 where
  pub iter_time : List ℤ
  pub iter_value : List X
  pub timestamp : ℤ

module _ {X : Type 0} where
  abbrev pub head? : List X → Option X
  head? [] = none
  head? (x ∷ xs) = some x

  abbrev pub tail : List X → List X
  tail [] = []
  tail (x ∷ xs) = xs

module _ {V : Type 0} where
  abbrev pub empty_chunk : DataChunk V
  empty_chunk = record { time_delta = []; value = [] }

  -- `TimeValue::operator DataChunk`
  unfoldable pub to_chunk : TimeValue V → DataChunk V
  to_chunk tv = record { time_delta = tv.time ∷ []; value = tv.value ∷ [] }

module _ {S V : Type 0} (cb : TimeValue V → Action S (Unit {0})) where
  -- The loop of `data_chunk_foreach`, over the differences that are left.
  unfoldable pub foreach_from : ℤ → List ℤ → List V → Action S (Unit {0})
  foreach_from timestamp [] value_iter = skip
  foreach_from timestamp (time_delta ∷ rest) value_iter = do
    timestamp' ← lift (add_int64 timestamp time_delta)
    value ← or_raise (head? value_iter) out_of_bounds
    cb (record { time = timestamp'; value = value })
    foreach_from timestamp' rest (tail value_iter)

  unfoldable pub data_chunk_foreach : DataChunk V → Action S (Unit {0})
  unfolding foreach_from
  data_chunk_foreach dc = foreach_from (pos 0) dc.time_delta dc.value

module _ {X R : Type 0} (make : ℤ → X → R) where
  -- `operator*`; `make` builds the object that is returned from the time and the entry.
  unfoldable pub deref : {S : Type 0} → Cursor X → Action S R
  deref it = do
    delta ← or_raise (head? it.iter_time) out_of_bounds
    time ← lift (add_int64 it.timestamp delta)
    entry ← or_raise (head? it.iter_value) out_of_bounds
    lift (ok (make time entry))

module _ {X : Type 0} where
  -- `operator++`
  unfoldable pub next : {S : Type 0} → Cursor X → Action S (Cursor X)
  next it = do
    delta ← or_raise (head? it.iter_time) out_of_bounds
    time ← lift (add_int64 it.timestamp delta)
    lift (
        ok (record {
          iter_time = tail it.iter_time;
          iter_value = tail it.iter_value;
          timestamp = time;
        }))

  -- `operator!=`, which compares the positions among the differences only.
  unfoldable pub differs : Cursor X → Cursor X → Bool
  differs it other = not (length it.iter_time == length other.iter_time)

module _ {S X R : Type 0} (make : ℤ → X → R) (stop : Cursor X)
    (body : R → Action S (Unit {0})) where
  -- `for (auto x : range) body`, from the cursor with the given parts up to `stop`.
  unfoldable pub walk : List ℤ → List X → ℤ → Action S (Unit {0})
  unfolding deref next differs
  walk [] values timestamp =
      let it : Cursor X = record { iter_time = []; iter_value = values; timestamp = timestamp } in
      when (differs it stop) (deref make it >>= body)
  walk (delta ∷ deltas) values timestamp =
      let it : Cursor X = record {
        iter_time = delta ∷ deltas;
        iter_value = values;
        timestamp = timestamp;
      } in
      when (differs it stop)
        (do x ← deref make it; body x; it' ← next it; walk deltas it'.iter_value it'.timestamp)

-- `begin` and `end` of a pair of fields.
module _ {X : Type 0} where
  abbrev pub begin_of : List ℤ → List X → Cursor X
  begin_of deltas entries = record { iter_time = deltas; iter_value = entries; timestamp = pos 0 }

  abbrev pub end_of : List ℤ → List X → Cursor X
  end_of deltas entries = record { iter_time = []; iter_value = []; timestamp = pos 0 }

  -- A range-based `for` over the two fields.
  unfoldable pub range_for :
      {S R : Type 0}
      → (ℤ → X → R)
      → (R → Action S (Unit {0}))
      → List ℤ
      → List X
      → Action S (Unit {0})
  unfolding walk
  range_for make body deltas entries = walk make (end_of deltas entries) body deltas entries (pos 0)

-- `for (auto tv : data_chunk) body`, by `DataChunkIter`.
abbrev pub time_value : {V : Type 0} → ℤ → V → TimeValue V
time_value t v = record { time = t; value = v }
