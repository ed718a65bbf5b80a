-- ===== src/Buffer.antt =====
-- `QueuedBuffer` of src/connection_handler.hpp and src/connection_handler.cpp: the data that waits
-- to be written, one vector of bytes for each `onData`, and how much of the first one is gone.
pub mod Bytes
mod Tests
use metricq_cpp.Prelude.{
  ℕ, ◌+◌, ◌==◌, leb, Bool, true, false, List, [], ◌∷◌, ◌++◌, length, drop, if◌then◌else◌,
}
use metricq_cpp.Prelude.Outcome.{Result, ok, err, assertion, out_of_bounds}

pub record QueuedBuffer : Type 0 where
  pub buffers : List (List ℕ)
  pub offset : ℕ

abbrev pub no_data : QueuedBuffer
no_data = record { buffers = []; offset = 0 }

unfoldable pub emplace : List ℕ → QueuedBuffer → QueuedBuffer
emplace bytes b = record b { buffers = b.buffers ++ bytes ∷ [] }

abbrev pub is_nil : List (List ℕ) → Bool
is_nil [] = true
is_nil (x ∷ xs) = false

unfoldable pub empty : QueuedBuffer → Bool
empty b = is_nil b.buffers

-- The bytes of the first vector from the offset on. An offset beyond its end would make the size
-- of the `asio::buffer` wrap around.
unfoldable pub front_of : List (List ℕ) → ℕ → Result (List ℕ)
front_of [] offset = err assertion
front_of (first ∷ rest) offset =
    if leb offset (length first) then ok (drop offset first) else err out_of_bounds

unfoldable pub front : QueuedBuffer → Result (List ℕ)
unfolding front_of
front b = front_of b.buffers b.offset

unfoldable pub consume_of : List (List ℕ) → ℕ → ℕ → Result QueuedBuffer
consume_of [] offset consumed_bytes = err assertion
consume_of (first ∷ rest) offset consumed_bytes =
    if length first == offset + consumed_bytes
    then ok (record { buffers = rest; offset = 0 })
    else ok (record { buffers = first ∷ rest; offset = offset + consumed_bytes })

unfoldable pub consume : ℕ → QueuedBuffer → Result QueuedBuffer
unfolding consume_of
consume consumed_bytes b = consume_of b.buffers b.offset consumed_bytes

unfoldable pub clear : QueuedBuffer → QueuedBuffer
clear b = record { buffers = []; offset = 0 }
