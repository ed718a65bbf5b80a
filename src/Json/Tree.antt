-- ===== src/Json/Tree.antt =====
-- A small JSON library, which shows that the hypotheses about the real one (see
-- include/metricq/json.hpp) can hold, and on which tests run. Numbers are naturals or `nan`.
use metricq_cpp.Prelude.{
  ℕ, List, [], ◌∷◌, map, ◌==◌, ◌≡◌, refl, ap, Bool, true, false, String, Option, none, some, str_eq,
  if◌then◌else◌, eq_iff, arith,
}
use metricq_cpp.Prelude.Outcome.{Result, ok, err, out_of_range, type_error}

mutual
  pub data Tree : Type 0 where
    null : Tree
    number : Option ℕ → Tree
    flag : Bool → Tree
    text : String → Tree
    -- The keys of its elements do not matter.
    array : Fields → Tree
    object : Fields → Tree

  pub data Fields : Type 0 where
    end : Fields
    field : String → Tree → Fields → Fields

abbrev pub has : Fields → String → Bool
has end j = false
has (field k v fs) j = if str_eq k j then true else has fs j

abbrev pub look : Fields → String → Result Tree
look end j = err out_of_range
look (field k v fs) j = if str_eq k j then ok v else look fs j

abbrev pub store : Fields → String → Tree → Fields
store end key entry = field key entry end
store (field k v fs) key entry =
    if str_eq k key then field key entry fs else field k v (store fs key entry)

has-store :
    (fs : Fields) (key : String) (entry : Tree) (j : String)
    → has (store fs key entry) j ≡ (if str_eq key j then true else has fs j)
has-store end key entry j = refl
has-store (field k v fs) key entry j =
    ground (arith, eq_iff k key, eq_iff k j, eq_iff key j, has-store fs key entry j)

look-store :
    (fs : Fields) (key : String) (entry : Tree) (j : String)
    → look (store fs key entry) j ≡ (if str_eq key j then ok entry else look fs j)
look-store end key entry j = refl
look-store (field k v fs) key entry j =
    ground (arith, eq_iff k key, eq_iff k j, eq_iff key j, look-store fs key entry j)

abbrev pub contains : Tree → String → Bool
contains (object fs) key = has fs key
contains _ key = false

abbrev pub at : Tree → String → Result Tree
at (object fs) key = look fs key
at _ key = err type_error

-- `null` becomes an object.
abbrev pub put : Tree → String → Tree → Result Tree
put (object fs) key entry = ok (object (store fs key entry))
put null key entry = ok (object (field key entry end))
put _ key entry = err type_error

abbrev entries : Fields → List (String × Tree)
entries end = []
entries (field k v fs) = (k, v) ∷ entries fs

abbrev pub items : Tree → Result (List (String × Tree))
items (object fs) = ok (entries fs)
items null = ok []
items (array end) = ok []
items _ = err type_error

abbrev values : Fields → List Tree
values end = []
values (field k v fs) = v ∷ values fs

abbrev pub elements : Tree → List Tree
elements (object fs) = values fs
elements (array fs) = values fs
elements null = []
elements v = v ∷ []

abbrev pub is_empty : Tree → Bool
is_empty null = true
is_empty (object end) = true
is_empty (array end) = true
is_empty _ = false

abbrev of_texts : List String → Fields
of_texts [] = end
of_texts (s ∷ ss) = field "" (text s) (of_texts ss)

abbrev pub texts : List String → Tree
texts ss = array (of_texts ss)

pub elements-texts : (ss : List String) → elements (texts ss) ≡ map text ss
elements-texts [] = refl
elements-texts (s ∷ ss) = ap (◌∷◌ (text s)) (elements-texts ss)

abbrev pub is_null : Tree → Bool
is_null null = true
is_null _ = false

abbrev pub is_object : Tree → Bool
is_object (object fs) = true
is_object _ = false

abbrev pub get_string : Tree → Result String
get_string (text s) = ok s
get_string _ = err type_error

abbrev pub get_number : Tree → Result (Option ℕ)
get_number (number n) = ok n
get_number _ = err type_error

abbrev pub is_nan : Option ℕ → Bool
is_nan none = true
is_nan (some n) = false

abbrev pub is_zero : Option ℕ → Bool
is_zero none = false
is_zero (some n) = n == 0

pub put-object :
    (v : Tree) (key : String) (entry : Tree)
    → is_object v ≡ true
    → (v' : Tree) × (put v key entry ≡ ok v') × (is_object v' ≡ true)
put-object (object fs) key entry h = (object (store fs key entry), refl, refl)
put-object null key entry h = absurd (cc)
put-object (number n) key entry h = absurd (cc)
put-object (text s) key entry h = absurd (cc)
put-object (flag b) key entry h = absurd (cc)
put-object (array fs) key entry h = absurd (cc)

pub contains-put :
    (v v' : Tree) (key : String) (entry : Tree)
    → put v key entry ≡ ok v'
    → (j : String) → contains v' j ≡ (if str_eq key j then true else contains v j)
contains-put (object fs) v' key entry h j = ground (arith, has-store fs key entry j)
contains-put null v' key entry h j = ground arith
contains-put (number n) v' key entry h j = absurd (cc)
contains-put (text s) v' key entry h j = absurd (cc)
contains-put (flag b) v' key entry h j = absurd (cc)
contains-put (array fs) v' key entry h j = absurd (cc)

pub at-put :
    (v v' : Tree) (key : String) (entry : Tree)
    → is_object v ≡ true
    → put v key entry ≡ ok v'
    → (j : String) → at v' j ≡ (if str_eq key j then ok entry else at v j)
at-put (object fs) v' key entry o h j = ground (arith, look-store fs key entry j)
at-put null v' key entry o h j = absurd (cc)
at-put (number n) v' key entry o h j = absurd (cc)
at-put (text s) v' key entry o h j = absurd (cc)
at-put (flag b) v' key entry o h j = absurd (cc)
at-put (array fs) v' key entry o h j = absurd (cc)
