-- ===== src/Metadata/Tests.antt =====
-- Metadata of src/metadata.cpp over a small JSON library, and the theorems at it.
use metricq_cpp.Prelude.{◌≡◌, refl, some, none, if◌then◌else◌}
use metricq_cpp.Prelude.Outcome.{ok, err, assertion}
use metricq_cpp.Json.Tree.{text, number, object, field, end}
use metricq_cpp.Json.Sample.{sample}
use metricq_cpp.Metadata.{Metadata, new, unit, rate, chunk_size, scope, set_json}
use metricq_cpp.Metadata.Entries.{
  TextEntry, unit_entry, same_entry, set_text, text_of, IsObject, text_of-set_text,
}

abbrev watts : Metadata sample
watts = record { metadata = object (field "unit" (text "W") (field "rate" (number (some 5)) end)) }

unit-watts : unit sample watts ≡ ok "W"
unfolding unit
unit-watts = refl

rate-new : rate sample (new sample) ≡ ok none
unfolding rate new
rate-new = refl

-- The constructor takes any JSON, the setter objects and `null` only.
set_json-text : set_json sample (text "W") watts ≡ err assertion
unfolding set_json
set_json-text = refl

text_of-set_text_example :
    (d : Metadata sample) × (set_text sample unit_entry "kW" watts ≡ ok d)
    × IsObject sample d
    × ((k : TextEntry)
        → text_of sample k d
          ≡ (if same_entry unit_entry k then ok "kW" else text_of sample k watts))
    × (rate sample d ≡ rate sample watts)
    × (chunk_size sample d ≡ chunk_size sample watts)
    × (scope sample d ≡ scope sample watts)
text_of-set_text_example = text_of-set_text sample unit_entry "kW" watts refl
