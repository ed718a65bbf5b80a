-- ===== src/Json.antt =====
-- What the sources use of nlohmann's JSON library (include/metricq/json.hpp) and of `double`, with
-- what its documentation says of it. The library is a parameter of all that computes with JSON.
pub mod Tree
pub mod Sample
use metricq_cpp.Prelude.{
  not, ◌&&◌, ◌≡◌, List, map, Bool, true, false, String, Option, str_eq, if◌then◌else◌,
}
use metricq_cpp.Prelude.Int.{ℤ}
use metricq_cpp.Prelude.Outcome.{Result, ok, err, assertion, bind}

pub record Json : Type 1 where
  pub Value : Type 0
  pub Number : Type 0
  pub null : Value
  pub object : Value
  pub text : String → Value
  pub number : Number → Value
  pub nan : Number
  pub zero_number : Number
  pub of_int64 : ℤ → Number
  pub is_nan : Number → Bool
  pub is_zero : Number → Bool
  pub parse : String → Option Value
  pub dump : Value → String
  pub is_null : Value → Bool
  pub is_object : Value → Bool
  -- `count(key) != 0`
  pub contains : Value → String → Bool
  pub at : Value → String → Result Value
  -- `value[key] = entry`
  pub put : Value → String → Value → Result Value
  pub get_string : Value → Result String
  pub get_number : Value → Result Number
  -- What `for (auto it = value.begin(); …)` visits, as keys and values. Where a value that is no
  -- object has entries, asking the first for its key throws.
  pub items : Value → Result (List (String × Value))
  pub flag : Bool → Value
  -- An array of texts.
  pub texts : List String → Value
  -- What `for (const auto& x : value)` visits.
  pub elements : Value → List Value
  -- `empty()`
  pub is_empty : Value → Bool
  pub elements-texts : (ss : List String) → elements (texts ss) ≡ map text ss
  pub is_empty-null : is_empty null ≡ true
  -- A text is not empty, as documented, whatever its length.
  pub is_empty-text : (s : String) → is_empty (text s) ≡ false
  pub is_object-object : is_object object ≡ true
  pub is_null-null : is_null null ≡ true
  pub is_null-number : (n : Number) → is_null (number n) ≡ false
  pub contains-object : (key : String) → contains object key ≡ false
  pub contains-null : (key : String) → contains null key ≡ false
  -- A write to `null` makes it an object.
  pub put-null : (key : String) (entry : Value) → put null key entry ≡ put object key entry
  pub is_nan-of_int64 : (i : ℤ) → is_nan (of_int64 i) ≡ false
  pub is_nan-zero_number : is_nan zero_number ≡ false
  pub get_string-text : (s : String) → get_string (text s) ≡ ok s
  pub get_number-number : (n : Number) → get_number (number n) ≡ ok n
  pub put-object :
      (v : Value) (key : String) (entry : Value)
      → is_object v ≡ true
      → (v' : Value) × (put v key entry ≡ ok v') × (is_object v' ≡ true)
  pub contains-put :
      (v v' : Value) (key : String) (entry : Value)
      → put v key entry ≡ ok v'
      → (j : String) → contains v' j ≡ (if str_eq key j then true else contains v j)
  pub at-put :
      (v v' : Value) (key : String) (entry : Value)
      → is_object v ≡ true
      → put v key entry ≡ ok v'
      → (j : String) → at v' j ≡ (if str_eq key j then ok entry else at v j)

module _ (j : Json) where
  open j use {Value, is_object, contains, at}

  -- `value[key]` of a constant value: an assertion of the library fails for an object without that
  -- key.
  abbrev pub entry : Value → String → Result Value
  entry v key = if is_object v && not (contains v key) then err assertion else at v key

  abbrev pub entry_text : Value → String → Result String
  entry_text v key = bind (entry v key) j.get_string
