-- ===== src/Uuid.antt =====
-- `uuid` of src/util.hpp: sixteen random bytes as a text of hexadecimal digits. `random_char` is a
-- parameter: the list of what it returns.
pub mod Digits
mod Tests
use metricq_cpp.Prelude.{ℕ, ◌+◌, ◌/◌, ◌%◌, ltb, List, [], ◌∷◌, ◌++◌, if◌then◌else◌}

-- A digit as a byte.
abbrev pub hex_digit : ℕ → ℕ
hex_digit n = if ltb n 10 then 48 + n else 87 + n

-- `std::setbase(16) << std::setfill('0') << std::setw(2)`, of a number that has two digits at most.
unfoldable pub two_digits : ℕ → List ℕ
two_digits n = hex_digit (n / 16) ∷ hex_digit (n % 16) ∷ []

-- The loop, over all that is drawn.
unfoldable pub uuid : List ℕ → List ℕ
unfolding two_digits
uuid [] = []
uuid (char ∷ chars) = two_digits char ++ uuid chars
