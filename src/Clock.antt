-- ===== src/Clock.antt =====
-- `Clock::format` and `Clock::format_iso` of src/chrono.cpp. `strftime` is a
-- parameter: given a size, it is the text that it writes, or `none` for the result 0. Texts are
-- lists of bytes. The size is multiplied by 1.6, which a `double` does without loss below 2^53.
pub mod Format
pub mod Fraction
mod Tests
use metricq_cpp.Prelude.{
  ℕ, zero, suc, ◌+◌, ◌*◌, ◌/◌, ◌%◌, ◌^◌, ◌-◌, ◌==◌, ◌&&◌, ltb, Bool, true, false, List, [], ◌∷◌,
  ◌++◌, length, take, Option, none, some, if◌then◌else◌,
}
use metricq_cpp.Prelude.Int.{ℤ, pos, negsuc}

-- `size_in *= 1.6`
abbrev pub grow : ℕ → ℕ
grow size_in = 8 * size_in / 5

abbrev pub first_size : ℕ → ℕ
first_size format_size = if ltb 200 format_size then format_size else 200

-- `buffer.resize(size - 1)`
abbrev pub without_last : Option (List ℕ) → Option (List ℕ)
without_last none = none
without_last (some text) = some (take (length text - 1) text)

module _ (strftime : ℕ → Option (List ℕ)) where
  -- The loop, with fuel; `none` when that runs out.
  unfoldable pub write : ℕ → ℕ → Option (List ℕ)
  write zero size_in = none
  write (suc fuel) size_in =
      let rest = write fuel (grow size_in) in
      elim (strftime (grow size_in)) [ none ↦ rest | some text ↦ some text ]

  -- `format_size` is the size of the format with the character that is added to it.
  unfoldable pub format : ℕ → ℕ → Option (List ℕ)
  unfolding write
  format fuel format_size = without_last (write fuel (first_size format_size))

-- The digits of a number as bytes, with fuel for each.
unfoldable pub digits : ℕ → ℕ → List ℕ
digits zero n = []
digits (suc fuel) n =
    let rest = digits fuel (n / 10) in
    if ltb n 10 then (48 + n) ∷ [] else rest ++ (48 + n % 10) ∷ []

abbrev pub zeros : ℕ → List ℕ
zeros zero = []
zeros (suc n) = 48 ∷ zeros n

-- `std::setfill('0') << std::setw(9)`
unfoldable pub pad : List ℕ → List ℕ
pad text = zeros (9 - length text) ++ text

-- The nanoseconds after the last full second, in C++ with the sign of the time.
unfoldable pub fraction : ℤ → List ℕ
unfolding digits pad
fraction (pos n) = pad (digits 9 (n % 10 ^ 9))
fraction (negsuc n) =
    let r = suc n % 10 ^ 9 in if r == 0 then pad (digits 9 0) else pad (45 ∷ digits 9 r)

-- `std::regex_replace` for "%f".
unfoldable pub replace_f : List ℕ → List ℕ → List ℕ
replace_f s [] = []
replace_f s (c ∷ []) = c ∷ []
replace_f s (c ∷ e ∷ rest) =
    let after = replace_f s rest in
    let later = replace_f s (e ∷ rest) in if (c == 37) && (e == 102) then s ++ after else c ∷ later

unfoldable pub contains_f : List ℕ → Bool
contains_f [] = false
contains_f (c ∷ []) = false
contains_f (c ∷ e ∷ rest) =
    let later = contains_f (e ∷ rest) in if (c == 37) && (e == 102) then true else later

unfoldable pub with_fraction : ℤ → List ℕ → List ℕ
unfolding contains_f replace_f fraction
with_fraction tp fmt = if contains_f fmt then replace_f (fraction tp) fmt else fmt

-- "%Y-%m-%dT%H:%M:%S.", and "%z".
abbrev pub date_format : List ℕ
date_format =
    37 ∷ 89 ∷ 45 ∷ 37 ∷ 109 ∷ 45 ∷ 37 ∷ 100 ∷ 84 ∷ 37 ∷ 72 ∷ 58 ∷ 37 ∷ 77 ∷ 58 ∷ 37 ∷ 83 ∷ 46 ∷ []

abbrev pub zone_format : List ℕ
zone_format = 37 ∷ 122 ∷ []

-- `strftime` for the local time of `tp`, of a format and a size.
module _ (strftime : List ℕ → ℕ → Option (List ℕ)) where
  -- `Clock::format`
  unfoldable pub format_time : ℕ → ℤ → List ℕ → Option (List ℕ)
  unfolding with_fraction format
  format_time fuel tp fmt =
      let fmt' = with_fraction tp fmt ++ 7 ∷ [] in format (strftime fmt') fuel (length fmt')

  unfoldable pub format_iso : ℕ → ℤ → Option (List ℕ)
  unfolding format_time
  format_iso fuel tp = format_time fuel tp (date_format ++ 37 ∷ 102 ∷ zone_format)
