-- ===== src/Table.antt =====
-- `std::unordered_map` with texts for keys, as src/connection.cpp and src/sink.cpp use it: an
-- association list in which no key occurs twice.
use metricq_cpp.Prelude.{
  ◌≡◌, refl, ap, ◌∙◌, Bool, true, false, List, [], ◌∷◌, Option, none, some, String, str_eq,
  if◌then◌else◌, eq_iff, arith, Bool-cases, Option-cases, inl, inr,
}

module _ {V : Type 0} where
  -- `find`
  unfoldable pub lookup : String → List (String × V) → Option V
  lookup key [] = none
  lookup key ((k, v) ∷ m) = if str_eq k key then some v else lookup key m

  unfoldable pub contains : String → List (String × V) → Bool
  contains key [] = false
  contains key ((k, v) ∷ m) = if str_eq k key then true else contains key m

  -- `emplace`: `none` where the key is taken.
  unfoldable pub insert_new : String → V → List (String × V) → Option (List (String × V))
  unfolding contains
  insert_new key v m = if contains key m then none else some ((key, v) ∷ m)

  -- `emplace` where it does not matter whether the key was taken.
  unfoldable pub insert_or_keep : String → V → List (String × V) → List (String × V)
  unfolding contains
  insert_or_keep key v m = if contains key m then m else (key, v) ∷ m

  unfoldable pub erase : String → List (String × V) → List (String × V)
  erase key [] = []
  erase key ((k, v) ∷ m) = let rest = erase key m in if str_eq k key then rest else (k, v) ∷ rest

  -- A write through the iterator of a key.
  unfoldable pub update : String → V → List (String × V) → List (String × V)
  update key v [] = []
  update key v ((k, u) ∷ m) = if str_eq k key then (k, v) ∷ m else (k, u) ∷ update key v m

  pub lookup-erase :
      (key : String) (m : List (String × V)) (k : String)
      → lookup k (erase key m) ≡ (if str_eq key k then none else lookup k m)
  unfolding lookup erase
  lookup-erase key [] k = ground arith
  lookup-erase key ((i, v) ∷ m) k =
      ground (arith, eq_iff i key, eq_iff i k, eq_iff key k, lookup-erase key m k)

  pub lookup-update :
      (key : String) (v : V) (m : List (String × V)) (k : String)
      → contains key m ≡ true
      → lookup k (update key v m) ≡ (if str_eq key k then some v else lookup k m)
  unfolding lookup update contains
  lookup-update key v [] k h = absurd (cc)
  lookup-update key v ((i, u) ∷ m) k h =
      ground (arith, eq_iff i key, eq_iff i k, eq_iff key k, lookup-update key v m k)

  pub contains-lookup :
      (key : String) (m : List (String × V)) (v : V) → lookup key m ≡ some v → contains key m ≡ true
  unfolding lookup contains
  contains-lookup key [] v h = absurd (cc)
  contains-lookup key ((i, u) ∷ m) v h = ground (arith, contains-lookup key m v)

  pub lookup-absent :
      (key : String) (m : List (String × V)) → contains key m ≡ false → lookup key m ≡ none
  unfolding lookup contains
  lookup-absent key [] h = refl
  lookup-absent key ((i, u) ∷ m) h = ground (arith, lookup-absent key m)

  abbrev pub or_else : Option V → Option V → Option V
  or_else none o = o
  or_else (some v) o = some v

  pub or_else-none : (o : Option V) → or_else o none ≡ o
  or_else-none none = refl
  or_else-none (some v) = refl

  pub or_else_assoc : (o p q : Option V) → or_else (or_else o p) q ≡ or_else o (or_else p q)
  or_else_assoc none p q = refl
  or_else_assoc (some v) p q = refl

  pub contains-absent :
      (key : String) (m : List (String × V)) → lookup key m ≡ none → contains key m ≡ false
  unfolding lookup contains
  contains-absent key [] h = refl
  contains-absent key ((i, u) ∷ m) h = ground (arith, contains-absent key m)

  pub lookup-insert_or_keep :
      (key : String) (v : V) (m : List (String × V)) (k : String)
      → lookup k (insert_or_keep key v m)
        ≡ or_else (lookup k m) (if str_eq key k then some v else none)
  unfolding lookup insert_or_keep
  lookup-insert_or_keep key v m k = elim (Bool-cases (contains key m)) [
    | inl e ↦ elim (Option-cases (lookup key m)) [
      | inl l ↦ ground (arith, contains-absent key m l)
      | inr (u, l) ↦ ground (arith, eq_iff key k)
    ]
    | inr e ↦ ground (arith, eq_iff key k, lookup-absent key m)
  ]

  pub update-same :
      (key : String) (v : V) (m : List (String × V)) → lookup key m ≡ some v → update key v m ≡ m
  unfolding lookup update
  update-same key v [] h = refl
  update-same key v ((i, u) ∷ m) h = elim (Bool-cases (str_eq i key)) [
    | inl e ↦ ground arith
    | inr e ↦ ground (arith, update-same key v m)
  ]

  pub update-update :
      (key : String) (u v : V) (m : List (String × V))
      → update key v (update key u m) ≡ update key v m
  unfolding update
  update-update key u v [] = refl
  update-update key u v ((i, w) ∷ m) = elim (Bool-cases (str_eq i key)) [
    | inl e ↦ rw (e, e) refl
    | inr e ↦ rw (e, e) (ap (◌∷◌ (i, w)) (update-update key u v m))
  ]

  pub contains-update :
      (key : String) (v : V) (m : List (String × V)) (k : String)
      → contains k (update key v m) ≡ contains k m
  unfolding contains update
  contains-update key v [] k = refl
  contains-update key v ((i, u) ∷ m) k = elim (Bool-cases (str_eq i key)) [
    | inl e ↦ rw e refl
    | inr e ↦ rw (e, contains-update key v m k) refl
  ]

  pub lookup-contains :
      (key : String) (m : List (String × V))
      → contains key m ≡ true
      → (v : V) × (lookup key m ≡ some v)
  unfolding lookup contains
  lookup-contains key [] h = absurd (cc)
  lookup-contains key ((i, u) ∷ m) h = elim (Bool-cases (str_eq i key)) [
    | inl e ↦ (u, ground arith)
    | inr e ↦ let (v, l) = lookup-contains key m (ground arith) in (v, ground arith)
  ]

  pub lookup-updated :
      (key : String) (u v : V) (m : List (String × V))
      → lookup key m ≡ some u
      → lookup key (update key v m) ≡ some v
  lookup-updated key u v m h =
      lookup-update key v m key (contains-lookup key m u h) ∙ ground (arith, eq_iff key key)
