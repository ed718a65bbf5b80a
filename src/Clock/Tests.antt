-- ===== src/Clock/Tests.antt =====
-- `Clock::format` of src/chrono.cpp with a text that does not fit at first, and the theorem at it.
use metricq_cpp.Prelude.{
  ℕ, zero, suc, ltb, ◌≡◌, ◌^◌, ◌%◌, All, refl, List, [], ◌∷◌, ◌++◌, length, Option, none, some,
  if◌then◌else◌, arith,
}
use metricq_cpp.Prelude.Int.{pos, negsuc}
use metricq_cpp.Clock.{write, with_fraction, format_iso, date_format, zone_format}
use metricq_cpp.Clock.Fraction.{value_from, IsDigit, format_iso-fraction}

abbrev dots : ℕ → List ℕ
dots zero = []
dots (suc n) = 46 ∷ dots n

abbrev strftime : ℕ → Option (List ℕ)
strftime size = if ltb (length (dots 330 ++ 7 ∷ [])) size then some (dots 330 ++ 7 ∷ []) else none

-- The first buffer, of 320 bytes, is too small.
write-once : write strftime 1 200 ≡ none
unfolding write
write-once = refl

-- A time 3 s and 5 ns after the epoch, whose text is taken for its format.
abbrev iso : List ℕ
iso = with_fraction (pos 3_000_000_005) (date_format ++ 37 ∷ 102 ∷ zone_format)

abbrev copy : List ℕ → ℕ → Option (List ℕ)
copy fmt size = if ltb (length fmt) size then some fmt else none

format_iso-fraction_example :
    (format_iso copy 31 (pos 3_000_000_005) ≡ some iso)
    × ((nanoseconds : List ℕ) × (iso ≡ date_format ++ (nanoseconds ++ zone_format))
        × (length nanoseconds ≡ 9)
        × All IsDigit nanoseconds
        × (value_from 0 nanoseconds ≡ 3_000_000_005 % 10 ^ 9))
unfolding with_fraction
format_iso-fraction_example =
    format_iso-fraction copy 3_000_000_005 30 iso (λ size. refl) (omega arith)

-- Of a time 5 ns before the epoch, the sign comes after the fill.
before_epoch :
    with_fraction (negsuc 4) (37 ∷ 102 ∷ []) ≡ 48 ∷ 48 ∷ 48 ∷ 48 ∷ 48 ∷ 48 ∷ 48 ∷ 45 ∷ 53 ∷ []
unfolding with_fraction
before_epoch = refl
