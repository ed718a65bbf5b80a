-- ===== src/Durations/Names.antt =====
-- The units of `duration_parse` of src/chrono.cpp.
use metricq_cpp.Prelude.{ℕ, ◌*◌, ◌≡◌, refl, arith, Option, some, String}
use metricq_cpp.Prelude.Int.{ℤ}
use metricq_cpp.Prelude.Outcome.{Result, ok}
use metricq_cpp.Durations.{nanoseconds_of, duration_parse}

-- The units, by what they mean.
pub data TimeUnit : Type 0 where
  seconds milliseconds microseconds nanoseconds minutes hours days : TimeUnit

-- How long one is.
abbrev pub length_of : TimeUnit → ℕ
length_of nanoseconds = 1
length_of microseconds = 1000
length_of milliseconds = 1000 * 1000
length_of seconds = 1000 * 1000 * 1000
length_of minutes = 60 * (1000 * 1000 * 1000)
length_of hours = 60 * 60 * (1000 * 1000 * 1000)
length_of days = 24 * 60 * 60 * (1000 * 1000 * 1000)

-- The singular, the plural and the short form.
pub data Form : Type 0 where
  one many short : Form

abbrev pub name_of : TimeUnit → Form → String
name_of seconds one = "second"
name_of seconds many = "seconds"
name_of seconds short = "s"
name_of milliseconds one = "millisecond"
name_of milliseconds many = "milliseconds"
name_of milliseconds short = "ms"
name_of microseconds one = "microsecond"
name_of microseconds many = "microseconds"
name_of microseconds short = "us"
name_of nanoseconds one = "nanosecond"
name_of nanoseconds many = "nanoseconds"
name_of nanoseconds short = "ns"
name_of minutes one = "minute"
name_of minutes many = "minutes"
name_of minutes short = "min"
name_of hours one = "hour"
name_of hours many = "hours"
name_of hours short = "h"
name_of days one = "day"
name_of days many = "days"
name_of days short = "d"

nanoseconds_of-name_of :
    (u : TimeUnit) (f : Form) → nanoseconds_of (name_of u f) ≡ some (length_of u)
unfolding nanoseconds_of
nanoseconds_of-name_of = elim [
  | seconds ↦ elim [ one ↦ refl | many ↦ refl | short ↦ refl ]
  | milliseconds ↦ elim [ one ↦ refl | many ↦ refl | short ↦ refl ]
  | microseconds ↦ elim [ one ↦ refl | many ↦ refl | short ↦ refl ]
  | nanoseconds ↦ elim [ one ↦ refl | many ↦ refl | short ↦ refl ]
  | minutes ↦ elim [ one ↦ refl | many ↦ refl | short ↦ refl ]
  | hours ↦ elim [ one ↦ refl | many ↦ refl | short ↦ refl ]
  | days ↦ elim [ one ↦ refl | many ↦ refl | short ↦ refl ]
]

-- Every unit is understood in its singular, its plural and its short form, and a number of it means so
-- many times its length.
pub duration_parse-name_of :
    {Number : Type 0} (matches : String → Option (String × String)) (stod : String → Result Number)
    (cast : Number → ℕ → ℤ) (str number : String) (value : Number) (u : TimeUnit) (f : Form)
    → matches str ≡ some (number, name_of u f)
    → stod number ≡ ok value
    → duration_parse matches stod cast str ≡ ok (cast value (length_of u))
unfolding duration_parse
duration_parse-name_of matches stod cast str number value u f matched read =
    let known = nanoseconds_of-name_of u f in ground arith
