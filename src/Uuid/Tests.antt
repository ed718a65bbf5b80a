-- ===== src/Uuid/Tests.antt =====
-- Identifiers that `uuid` of src/util.hpp makes from four bytes.
use metricq_cpp.Prelude.{ℕ, ◌≡◌, refl, List, [], ◌∷◌}
use metricq_cpp.Uuid.{uuid}

abbrev drawn : List ℕ
drawn = 0 ∷ 10 ∷ 171 ∷ 255 ∷ []

abbrev others : List ℕ
others = 0 ∷ 10 ∷ 171 ∷ 254 ∷ []

-- "000aabff"
uuid-drawn : uuid drawn ≡ 48 ∷ 48 ∷ 48 ∷ 97 ∷ 97 ∷ 98 ∷ 102 ∷ 102 ∷ []
unfolding uuid
uuid-drawn = refl
