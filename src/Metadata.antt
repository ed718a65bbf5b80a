-- ===== src/Metadata.antt =====
-- include/metricq/metadata.hpp and src/metadata.cpp: the metadata of a metric, a JSON object with
-- some standard entries. JSON and `double` are the parameter `Json`.
pub mod Entries
mod Tests
use metricq_cpp.Prelude.{Bool, true, false, String, str_eq, if◌then◌else◌}
use metricq_cpp.Prelude.Outcome.{Result, ok, err, assertion, bind}
use metricq_cpp.Json.{Json}

pub data Scope : Type 0 where
  last next point unknown : Scope

module _ (j : Json) where
  open j use {
    Value, Number, null, object, text, number, nan, zero_number, is_zero, is_null, is_object,
    contains, at, put, get_string, get_number,
  }

  pub record Metadata : Type 0 where
    pub metadata : Value

  -- `Metadata()`
  unfoldable pub new : Metadata
  new = record { metadata = object }

  -- The setter `json(m)`. (The constructor from JSON takes any value.)
  unfoldable pub set_json : Value → Metadata → Result Metadata
  set_json m d =
      if is_null m
      then ok (record { metadata = object })
      else if is_object m
      then ok (record { metadata = m })
      else err assertion

  -- `(*this)[key] = value`
  abbrev pub set_entry : String → Value → Metadata → Result Metadata
  set_entry key value d = bind (put d.metadata key value) (λ m. ok (record { metadata = m }))

  -- The getters of texts: empty where there is no entry.
  abbrev pub get_text : String → Metadata → Result String
  get_text key d = if contains d.metadata key then bind (at d.metadata key) get_string else ok ""

  unfoldable pub set_unit : String → Metadata → Result Metadata
  set_unit u = set_entry "unit" (text u)

  unfoldable pub unit : Metadata → Result String
  unit = get_text "unit"

  unfoldable pub set_quantity : String → Metadata → Result Metadata
  set_quantity q = set_entry "quantity" (text q)

  unfoldable pub quantity : Metadata → Result String
  quantity = get_text "quantity"

  unfoldable pub set_description : String → Metadata → Result Metadata
  set_description d = set_entry "description" (text d)

  unfoldable pub description : Metadata → Result String
  description = get_text "description"

  unfoldable pub set_rate : Number → Metadata → Result Metadata
  set_rate r = set_entry "rate" (number r)

  unfoldable pub rate : Metadata → Result Number
  rate d = if contains d.metadata "rate" then bind (at d.metadata "rate") get_number else ok nan

  -- A size of 0 is stored as `null`.
  unfoldable pub set_chunk_size : Number → Metadata → Result Metadata
  set_chunk_size s d =
      if is_zero s then set_entry "chunkSize" null d else set_entry "chunkSize" (number s) d

  unfoldable pub chunk_size : Metadata → Result Number
  chunk_size d =
      if contains d.metadata "chunkSize"
      then bind (at d.metadata "chunkSize")
          (λ v. if is_null v then ok zero_number else get_number v)
      else ok nan

  unfoldable pub set_scope : Scope → Metadata → Result Metadata
  set_scope last d = set_entry "scope" (text "last") d
  set_scope next d = set_entry "scope" (text "next") d
  set_scope point d = set_entry "scope" (text "point") d
  set_scope unknown d = err assertion

  abbrev pub scope_of : String → Result Scope
  scope_of s =
      if str_eq s "last"
      then ok last
      else if str_eq s "next"
      then ok next
      else if str_eq s "point"
      then ok point
      else err assertion

  unfoldable pub scope : Metadata → Result Scope
  scope d =
      if contains d.metadata "scope"
      then bind (bind (at d.metadata "scope") get_string) scope_of
      else ok unknown
