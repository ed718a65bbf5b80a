-- ===== src/Discover/Tests.antt =====
-- An answer to "discover" of src/connection.cpp over a small JSON library.
use metricq_cpp.Prelude.{◌≡◌, refl, true, some}
use metricq_cpp.Prelude.Int.{pos, pos_part, ◌-ℤ◌}
use metricq_cpp.Prelude.Outcome.{ok}
use metricq_cpp.Json.Tree.{text, flag, number, object, field, end}
use metricq_cpp.Json.Sample.{sample}
use metricq_cpp.Discover.{handle_discover_rpc}

-- A client that has no version of its own, on a host whose name is known.
answer :
    handle_discover_rpc sample
      (λ t. "time")
      (λ d. some (pos_part d))
      "2"
      (pos 9)
      (pos 4)
      ""
      (some "host")
    ≡ ok (
        object (
          field "alive" (flag true) (
            field "currentTime" (text "time") (
              field "startingTime" (text "time") (
                field "uptime"
                  (number (some 5))
                  (field "metricqVersion" (text "2") (field "hostname" (text "host") end)))))))
unfolding handle_discover_rpc ◌-ℤ◌
answer = refl
