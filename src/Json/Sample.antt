-- ===== src/Json/Sample.antt =====
-- The small library as an instance of what the sources use of JSON (include/metricq/json.hpp).
use metricq_cpp.Prelude.{ℕ, refl, Option, some, none, str_eq, if◌then◌else◌}
use metricq_cpp.Prelude.Int.{pos_part}
use metricq_cpp.Json.{Json}
use metricq_cpp.Json.Tree.{Tree, null, number, flag, text, object, end, field}
use metricq_cpp.Json.Tree

-- A text that is not empty is read as an object with itself as its only key and entry.
abbrev pub sample : Json
sample = record {
  Value = Tree;
  Number = Option ℕ;
  null = null;
  object = object end;
  text = text;
  number = number;
  nan = none;
  zero_number = some 0;
  of_int64 = λ i. some (pos_part i);
  is_nan = Tree.is_nan;
  is_zero = Tree.is_zero;
  parse = λ s. if str_eq s "" then none else some (object (field s (text s) end));
  dump = λ v. "{}";
  is_null = Tree.is_null;
  is_object = Tree.is_object;
  contains = Tree.contains;
  at = Tree.at;
  put = Tree.put;
  get_string = Tree.get_string;
  get_number = Tree.get_number;
  items = Tree.items;
  flag = flag;
  texts = Tree.texts;
  elements = Tree.elements;
  is_empty = Tree.is_empty;
  elements-texts = Tree.elements-texts;
  is_empty-null = refl;
  is_empty-text = λ s. refl;
  is_object-object = refl;
  is_null-null = refl;
  is_null-number = λ n. refl;
  contains-object = λ key. refl;
  contains-null = λ key. refl;
  put-null = λ key entry. refl;
  is_nan-of_int64 = λ i. refl;
  is_nan-zero_number = refl;
  get_string-text = λ s. refl;
  get_number-number = λ n. refl;
  put-object = Tree.put-object;
  contains-put = Tree.contains-put;
  at-put = Tree.at-put;
}
