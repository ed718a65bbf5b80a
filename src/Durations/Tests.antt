-- ===== src/Durations/Tests.antt =====
-- Durations that `duration_parse` of src/chrono.cpp reads, with whole numbers.
use metricq_cpp.Prelude.{ℕ, ◌*◌, ◌≡◌, refl, Option, none, some, String, str_eq, if◌then◌else◌}
use metricq_cpp.Prelude.Int.{ℤ, pos}
use metricq_cpp.Prelude.Outcome.{Result, ok, err, invalid_argument}
use metricq_cpp.Durations.{duration_parse}

-- The groups that the pattern finds; the second one takes the blanks at the end with it.
abbrev matches : String → Option (String × String)
matches str =
    if str_eq str "5 min"
    then some ("5", "min")
    else if str_eq str "5 s "
    then some ("5", "s ")
    else none

abbrev stod : String → Result ℕ
stod number = ok 5

abbrev cast : ℕ → ℕ → ℤ
cast value nanoseconds = pos (value * nanoseconds)

five_minutes : duration_parse matches stod cast "5 min" ≡ ok (pos 300000000000)
unfolding duration_parse
five_minutes = refl

-- A blank after the unit is not skipped.
blank_at_end :
    duration_parse matches stod cast "5 s " ≡ err (invalid_argument "invalid duration unit \"s \"")
unfolding duration_parse
blank_at_end = refl
