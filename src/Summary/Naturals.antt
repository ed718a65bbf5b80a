-- ===== src/Summary/Naturals.antt =====
-- Naturals in place of `double`, with insertion sort, which show that what is asked of `double` and
-- `std::sort` (see tools/metricq-summary/src/summary.cpp) can hold, and on which tests run.
use mathlib.Core.List.{Permᴰ}
use mathlib.Core.List.Permᴰ
use mathlib.Core.List.Permᴰ.{nil, cons, swap, trans}
use metricq_cpp.Prelude.{
  ℕ, ◌+◌, ◌-◌, ◌*◌, ◌/◌, ltb, ◌≡◌, refl, inl, inr, false, List, [], ◌∷◌, All, if◌then◌else◌, arith,
  Bool-cases,
}
use metricq_cpp.Chunk.{TimeValue}
use metricq_cpp.Summary.{Double, Sorting, IsSorted, AreNumbers}
use metricq_cpp.Summary.Order.{All-permuted, All-get_elem?, All-of-get_elem?}

pub ltb_irrefl : (a : ℕ) → ltb a a ≡ false
ltb_irrefl a = ground arith

pub not_below_trans : (a b c : ℕ) → ltb b a ≡ false → ltb c b ≡ false → ltb c a ≡ false
not_below_trans a b c h k = ground arith

abbrev pub naturals : Double
naturals = record {
  Value = ℕ;
  zero = 0;
  half = 1;
  add = λ a b. a + b;
  sub = λ a b. a - b;
  mul = λ a b. a * b;
  div = λ a b. a / b;
  of_size = λ n. n;
  sqrt = λ a. a;
  abs = λ a. a;
  is_nan = λ a. false;
  lt = ltb;
  lt_irrefl = ltb_irrefl;
  le_trans = λ a b c p q r. not_below_trans a b c;
}

abbrev pub insert : TimeValue ℕ → List (TimeValue ℕ) → List (TimeValue ℕ)
insert tv [] = tv ∷ []
insert tv (x ∷ xs) =
    let rest = insert tv xs in if ltb x.value tv.value then x ∷ rest else tv ∷ x ∷ xs

abbrev pub insertion_sort : List (TimeValue ℕ) → List (TimeValue ℕ)
insertion_sort [] = []
insertion_sort (tv ∷ tvs) = insert tv (insertion_sort tvs)

insert-permuted : (tv : TimeValue ℕ) (xs : List (TimeValue ℕ)) → Permᴰ (insert tv xs) (tv ∷ xs)
insert-permuted tv [] = Permᴰ.refl (tv ∷ [])
insert-permuted tv (x ∷ xs) = elim (Bool-cases (ltb x.value tv.value)) [
  | inl below ↦ rw below (trans (cons refl (insert-permuted tv xs)) (swap refl refl))
  | inr above ↦ rw above (Permᴰ.refl (tv ∷ x ∷ xs))
]

pub sort-permuted : (xs : List (TimeValue ℕ)) → Permᴰ (insertion_sort xs) xs
sort-permuted [] = nil
sort-permuted (tv ∷ tvs) =
    trans (insert-permuted tv (insertion_sort tvs)) (cons refl (sort-permuted tvs))

All-insert :
    (P : TimeValue ℕ → Type 0) (tv : TimeValue ℕ) (xs : List (TimeValue ℕ))
    → P tv
    → All P xs
    → All P (insert tv xs)
All-insert P tv xs p h = All-permuted P (insert-permuted tv xs) (p, h)

insert-IsSorted :
    (tv : TimeValue ℕ) (xs : List (TimeValue ℕ))
    → IsSorted naturals xs
    → IsSorted naturals (insert tv xs)
insert-IsSorted tv [] h = (tt, tt)
insert-IsSorted tv (x ∷ xs) h = elim (Bool-cases (ltb x.value tv.value)) [
  | inl below ↦ rw below (
    All-insert (λ y. ltb y.value x.value ≡ false) tv xs (ground arith) h.0,
    insert-IsSorted tv xs h.1,
  )
  | inr above ↦ rw above (
    (
      above,
      All-of-get_elem? (λ y. ltb y.value tv.value ≡ false) xs
          λ i y at_i.
            not_below_trans tv.value x.value y.value above
              (All-get_elem? (λ z. ltb z.value x.value ≡ false) xs i h.0 at_i),
    ),
    h,
  )
]

pub sort-IsSorted :
    (xs : List (TimeValue ℕ)) → AreNumbers naturals xs → IsSorted naturals (insertion_sort xs)
sort-IsSorted [] h = tt
sort-IsSorted (tv ∷ tvs) h = insert-IsSorted tv (insertion_sort tvs) (sort-IsSorted tvs h.1)

abbrev pub sorting : Sorting naturals
sorting = record {
  sort = insertion_sort;
  sort-permuted = sort-permuted;
  sort-IsSorted = sort-IsSorted;
}
