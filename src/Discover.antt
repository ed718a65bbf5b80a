-- ===== src/Discover.antt =====
-- `Connection::handle_discover_rpc` of src/connection.cpp: the answer to the function "discover", which
-- the constructors of `DataClient` and `HistoryClient` register. `format_iso` is `Clock::format_iso`,
-- `seconds` turns a number of nanoseconds into one of seconds, and the name of the host is `none` where
-- the system does not tell it. Logging is left out.
pub mod Entries
mod Tests
use metricq_cpp.Prelude.{
  Bool, true, not, List, [], ◌∷◌, Option, none, some, String, str_eq, if◌then◌else◌,
}
use metricq_cpp.Prelude.Int.{ℤ, ◌-ℤ◌}
use metricq_cpp.Prelude.Outcome.{Result, ok, bind}
use metricq_cpp.Json.{Json}

module _ (j : Json) where
  open j use {Value, Number}

  -- An object from a list of entries, or `value[key] = entry` for each.
  unfoldable pub put_all : List (String × Value) → Value → Result Value
  put_all [] value = ok value
  put_all ((key, entry) ∷ entries) value = bind (j.put value key entry) (put_all entries)

  abbrev pub of_version : String → List (String × Value)
  of_version version = if not (str_eq version "") then ("version", j.text version) ∷ [] else []

  abbrev pub of_hostname : Option String → List (String × Value)
  of_hostname none = []
  of_hostname (some hostname) = ("hostname", j.text hostname) ∷ []

  module _ (format_iso : ℤ → String) (seconds : ℤ → Number) (metricq_version : String) where
    abbrev pub always : ℤ → ℤ → List (String × Value)
    always current_time starting_time =
        ("alive", j.flag true)
        ∷ ("currentTime", j.text (format_iso current_time))
        ∷ ("startingTime", j.text (format_iso starting_time))
        ∷ ("uptime", j.number (seconds (current_time -ℤ starting_time)))
        ∷ ("metricqVersion", j.text metricq_version)
        ∷ []

    unfoldable pub handle_discover_rpc : ℤ → ℤ → String → Option String → Result Value
    unfolding put_all
    handle_discover_rpc current_time starting_time version hostname =
        bind (put_all (always current_time starting_time) j.object)
          λ response. bind (put_all (of_version version) response) (put_all (of_hostname hostname))
