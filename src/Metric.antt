-- ===== src/Metric.antt =====
-- include/metricq/metric.hpp: a metric collects points in a chunk and hands full chunks to its
-- writer. `writer_send` is the writer's `send`, a parameter, which changes the writer's state `W`
-- and may throw; `V` is the type of the values and `M` that of the metadata.
pub mod Batches
pub mod Perform
pub mod Refine
pub mod Delivery
pub mod Sizes
mod Tests
use metricq_cpp.Prelude.{
  ℕ, ◌-◌, ◌^◌, ◌==◌, ltb, Bool, not, ◌&&◌, List, [], ◌∷◌, ◌++◌, String, length, if◌then◌else◌,
}
use metricq_cpp.Prelude.Int.{ℤ, pos, negsuc, eqb_ℤ}
use metricq_cpp.Prelude.Outcome.{
  Result, ok, err, Action, ◌>>=◌, ◌>>◌, skip, lift, gets, modify, when, assert, sub_int64,
}
use metricq_cpp.Chunk.{DataChunk, TimeValue, empty_chunk}

pub record Metric (V M W : Type 0) : Type 0 where
  pub id : String
  pub metadata : M
  pub writer : W
  pub chunk_size : ℤ
  pub previous_timestamp : ℤ
  pub chunk : DataChunk V

-- A `size_t` stored in an `int64_t`.
abbrev pub to_int64 : ℕ → ℤ
to_int64 n = if ltb n (2 ^ 63) then pos n else negsuc (2 ^ 64 - n - 1)

module _ {V M W : Type 0} where
  -- The constructor, with the initial values of the members.
  unfoldable pub new : String → M → W → Metric V M W
  new id metadata writer = record {
    id = id;
    metadata = metadata;
    writer = writer;
    chunk_size = pos 1;
    previous_timestamp = pos 0;
    chunk = empty_chunk;
  }

  -- The setter `chunk_size(size_t)`.
  unfoldable pub set_chunk_size : ℕ → Metric V M W → Metric V M W
  set_chunk_size n m = record m { chunk_size = to_int64 n }

  abbrev pub sizes_agree : Metric V M W → Bool
  sizes_agree m = length m.chunk.time_delta == length m.chunk.value

  abbrev pub is_full : Metric V M W → Bool
  is_full m =
      not (eqb_ℤ m.chunk_size (pos 0)) && eqb_ℤ (pos (length m.chunk.time_delta)) m.chunk_size

  abbrev pub clear_chunk : Metric V M W → Metric V M W
  clear_chunk m = record m { chunk = empty_chunk; previous_timestamp = pos 0 }

  abbrev pub add_time_delta : ℤ → Metric V M W → Metric V M W
  add_time_delta d m = record m {
    chunk = record { time_delta = m.chunk.time_delta ++ d ∷ []; value = m.chunk.value };
  }

  abbrev pub add_value : V → Metric V M W → Metric V M W
  add_value v m = record m {
    chunk = record { time_delta = m.chunk.time_delta; value = m.chunk.value ++ v ∷ [] };
  }

module _ {V M W : Type 0} (writer_send : String → DataChunk V → Action W (Unit {0})) where
  -- `writer_.send(id_, chunk_)`
  abbrev pub write_chunk : Action (Metric V M W) (Unit {0})
  write_chunk m = let (r, w) = writer_send m.id m.chunk m.writer in (r, record m { writer = w })

  unfoldable pub flush : Action (Metric V M W) (Unit {0})
  flush m =
      (do
        assert (sizes_agree m)
        when (not (length m.chunk.time_delta == 0)) (write_chunk >> modify clear_chunk))
        m

  unfoldable pub send : TimeValue V → Action (Metric V M W) (Unit {0})
  unfolding flush
  send tv = do
    previous ← gets (λ m. m.previous_timestamp)
    delta ← lift (sub_int64 tv.time previous)
    modify (add_time_delta delta)
    modify (λ m. record m { previous_timestamp = tv.time })
    modify (add_value tv.value)
    agree ← gets sizes_agree
    assert agree
    full ← gets is_full
    when full flush
