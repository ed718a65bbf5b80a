-- ===== src/Buffer/Tests.antt =====
-- The buffers of src/connection_handler.hpp at concrete bytes, and the theorems at these.
use metricq_cpp.Prelude.{◌≡◌, refl, [], ◌∷◌, arith}
use metricq_cpp.Prelude.Outcome.{ok}
use metricq_cpp.Buffer.{QueuedBuffer, no_data, emplace, front, consume, clear}
use metricq_cpp.Buffer.Bytes.{IsValid, contents, Consumed, emplace_lem, consume_lem}

-- Two vectors, of which two bytes are gone.
abbrev halfway : QueuedBuffer
halfway = record { buffers = (1 ∷ 2 ∷ 3 ∷ []) ∷ (4 ∷ 5 ∷ []) ∷ []; offset = 2 }

front-halfway : front halfway ≡ ok (3 ∷ [])
unfolding front
front-halfway = refl

consume-halfway : consume 1 halfway ≡ ok (record { buffers = (4 ∷ 5 ∷ []) ∷ []; offset = 0 })
unfolding consume
consume-halfway = refl

clear-halfway : clear halfway ≡ no_data
unfolding clear
clear-halfway = refl

emplace_lem_example :
    IsValid (emplace (6 ∷ []) halfway) × (contents (emplace (6 ∷ []) halfway) ≡ 3 ∷ 4 ∷ 5 ∷ 6 ∷ [])
emplace_lem_example = emplace_lem (6 ∷ []) halfway (omega arith)

consume_lem_example : (b : QueuedBuffer) × (consume 1 halfway ≡ ok b) × Consumed 1 halfway b
unfolding front
consume_lem_example = consume_lem 1 halfway (3 ∷ []) (omega arith) refl (omega arith)
