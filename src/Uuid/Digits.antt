-- ===== src/Uuid/Digits.antt =====
-- Two calls of `uuid` of src/util.hpp give the same text only where they have drawn the same bytes.
use metricq_cpp.Prelude.{ℕ, ◌+◌, ◌-◌, ◌*◌, ltb, List, [], ◌∷◌, if◌then◌else◌}

abbrev digit_value : ℕ → ℕ
digit_value c = if ltb c 58 then c - 48 else c - 87

-- The bytes that a text spells.
abbrev bytes_of : List ℕ → List ℕ
bytes_of [] = []
bytes_of (c ∷ []) = []
bytes_of (c ∷ e ∷ cs) = (digit_value c * 16 + digit_value e) ∷ bytes_of cs
