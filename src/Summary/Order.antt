-- ===== src/Summary/Order.antt =====
-- Sorted points of tools/metricq-summary/src/summary.cpp: what stands where, and that a permutation
-- keeps what holds of all.
use mathlib.Core.List.{Permᴰ}
use mathlib.Core.List.Permᴰ.{nil, cons, swap, trans}
use metricq_cpp.Prelude.{
  ℕ, zero, suc, ◌-◌, ◌≤◌, ◌<◌, ◌≡◌, refl, sym, ap, ◌∙◌, subst, false, List, [], ◌∷◌, none, some,
  length, get_elem?, All, arith,
}
use metricq_cpp.Prelude.Outcome.{ok, err, out_of_bounds}
use metricq_cpp.Chunk.{TimeValue}
use metricq_cpp.Summary.{Double, IsSorted, at, back, back?, found}

module _ {A : Type 0} where
  pub length-permuted : {xs ys : List A} → Permᴰ xs ys → length xs ≡ length ys
  length-permuted nil = refl
  length-permuted (cons e p) = ap suc (length-permuted p)
  length-permuted (swap e f) = refl
  length-permuted (trans p q) = length-permuted p ∙ length-permuted q

  pub All-permuted : (P : A → Type 0) {xs ys : List A} → Permᴰ xs ys → All P ys → All P xs
  All-permuted P nil h = h
  All-permuted P (cons e p) h = (subst P (sym e) h.0, All-permuted P p h.1)
  All-permuted P (swap e f) h = (subst P (sym e) h.1.0, (subst P (sym f) h.0, h.1.1))
  All-permuted P (trans p q) h = All-permuted P p (All-permuted P q h)

  pub All-get_elem? :
      (P : A → Type 0) (xs : List A) (i : ℕ) {x : A} → All P xs → get_elem? xs i ≡ some x → P x
  All-get_elem? P [] i h e = absurd (cc)
  All-get_elem? P (x ∷ xs) zero h e = subst P (cc) h.0
  All-get_elem? P (x ∷ xs) (suc i) h e = All-get_elem? P xs i h.1 e

  pub All-of-get_elem? :
      (P : A → Type 0) (xs : List A) → ((i : ℕ) (x : A) → get_elem? xs i ≡ some x → P x) → All P xs
  All-of-get_elem? P [] h = tt
  All-of-get_elem? P (x ∷ xs) h = (h 0 x refl, All-of-get_elem? P xs λ i. h (suc i))

  pub before-length : (xs : List A) (i : ℕ) {x : A} → get_elem? xs i ≡ some x → i ≤ length xs - 1
  before-length [] i e = absurd (cc)
  before-length (x ∷ xs) zero e = omega arith
  before-length (x ∷ []) (suc i) e = absurd (cc)
  before-length (x ∷ y ∷ xs) (suc i) e = let below = before-length (y ∷ xs) i e in omega arith

  pub get_elem?-lt : (xs : List A) (i : ℕ) → i < length xs → (x : A) × (get_elem? xs i ≡ some x)
  get_elem?-lt [] i h = absurd (omega arith)
  get_elem?-lt (x ∷ xs) zero h = (x, refl)
  get_elem?-lt (x ∷ xs) (suc i) h = get_elem?-lt xs i (omega arith)

  pub get_elem?-ge : (xs : List A) (i : ℕ) → length xs ≤ i → get_elem? xs i ≡ none
  get_elem?-ge [] i h = refl
  get_elem?-ge (x ∷ xs) zero h = absurd (omega arith)
  get_elem?-ge (x ∷ xs) (suc i) h = get_elem?-ge xs i (omega arith)

  pub back?-last : (x : A) (xs : List A) → back? (x ∷ xs) ≡ get_elem? (x ∷ xs) (length xs)
  back?-last x [] = refl
  back?-last x (y ∷ xs) = back?-last y xs

module _ (d : Double) where
  open d use {Value}

  -- No later point is less than an earlier one.
  pub IsSorted-get_elem? :
      (xs : List (TimeValue Value)) (i j : ℕ) {a b : TimeValue Value}
      → IsSorted d xs
      → i ≤ j
      → get_elem? xs i ≡ some a
      → get_elem? xs j ≡ some b
      → d.lt b.value a.value ≡ false
  IsSorted-get_elem? [] i j s h e f = absurd (cc)
  IsSorted-get_elem? (x ∷ xs) zero zero {a} {b} s h e f =
      let same : a ≡ b = cc in rw same (d.lt_irrefl b.value)
  IsSorted-get_elem? (x ∷ xs) zero (suc j) {a} {b} s h e f =
      let same : a ≡ x = cc in
      rw same (All-get_elem? (λ y. d.lt y.value x.value ≡ false) xs j s.0 f)
  IsSorted-get_elem? (x ∷ xs) (suc i) zero s h e f = absurd (omega arith)
  IsSorted-get_elem? (x ∷ xs) (suc i) (suc j) s h e f =
      IsSorted-get_elem? xs i j s.1 (omega arith) e f

module _ {A : Type 0} where
  pub at-lt :
      (xs : List A) (i : ℕ) → i < length xs → (x : A) × (get_elem? xs i ≡ some x) × (at xs i ≡ ok x)
  at-lt xs i h = let (x, e) = get_elem?-lt xs i h in (x, e, ap found e)

  pub at-ge : (xs : List A) (i : ℕ) → length xs ≤ i → at xs i ≡ err out_of_bounds
  at-ge xs i h = ap found (get_elem?-ge xs i h)

  pub back-lt :
      (xs : List A)
      → 0 < length xs
      → (x : A) × (get_elem? xs (length xs - 1) ≡ some x) × (back xs ≡ ok x)
  back-lt [] h = absurd (omega arith)
  back-lt (y ∷ xs) h =
      let (x, e) = get_elem?-lt (y ∷ xs) (length xs) (omega arith) in
      let same : length (y ∷ xs) - 1 ≡ length xs = omega arith in
      (x, rw same e, ap found (back?-last y xs ∙ e))
