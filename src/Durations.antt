-- ===== src/Durations.antt =====
-- `duration_parse` of src/chrono.cpp. `matches` is `std::regex_match` with the pattern for a number and a
-- unit, and gives the two groups; `stod` reads the number, and `cast` turns a number of units, each of so
-- many nanoseconds, into a `Duration`.
pub mod Names
mod Tests
use metricq_cpp.Prelude.{
  ℕ, ◌*◌, ◌^◌, ◌||◌, Bool, true, false, List, [], ◌∷◌, Option, none, some, String, str_eq,
  str_append, if◌then◌else◌,
}
use metricq_cpp.Prelude.Int.{ℤ}
use metricq_cpp.Prelude.Outcome.{Result, ok, err, invalid_argument, bind}

abbrev pub one_of : String → List String → Bool
one_of text [] = false
one_of text (name ∷ names) = str_eq text name || one_of text names

-- The nanoseconds of a unit; the names are those of the code, tried in its order.
unfoldable pub nanoseconds_of : String → Option ℕ
nanoseconds_of unit =
    if one_of unit ("" ∷ "s" ∷ "second" ∷ "seconds" ∷ [])
    then some (10 ^ 9)
    else if one_of unit ("ms" ∷ "millisecond" ∷ "milliseconds" ∷ [])
    then some (10 ^ 6)
    else if one_of unit ("us" ∷ "microsecond" ∷ "microseconds" ∷ "μs" ∷ [])
    then some (10 ^ 3)
    else if one_of unit ("ns" ∷ "nanosecond" ∷ "nanoseconds" ∷ [])
    then some 1
    else if one_of unit ("min" ∷ "minute" ∷ "minutes" ∷ [])
    then some (60 * 10 ^ 9)
    else if one_of unit ("h" ∷ "hour" ∷ "hours" ∷ [])
    then some (3600 * 10 ^ 9)
    else if one_of unit ("d" ∷ "day" ∷ "days" ∷ [])
    then some (3600 * 24 * 10 ^ 9)
    else none

abbrev pub quoted : String → String → String
quoted before text = str_append (str_append before text) "\""

module _ {Number : Type 0} (matches : String → Option (String × String))
    (stod : String → Result Number) (cast : Number → ℕ → ℤ) where
  unfoldable pub duration_parse : String → Result ℤ
  unfolding nanoseconds_of
  duration_parse str = elim (matches str) [
    | none ↦ err (
        invalid_argument
          (str_append (quoted "invalid duration string \"" str) ", not of form \"number unit\""))
    | some (number, unit) ↦ bind (stod number) λ value. elim (nanoseconds_of unit) [
      | none ↦ err (invalid_argument (quoted "invalid duration unit \"" unit))
      | some nanoseconds ↦ ok (cast value nanoseconds)
    ]
  ]
