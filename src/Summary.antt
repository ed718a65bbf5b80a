-- ===== src/Summary.antt =====
-- tools/metricq-summary/src/summary.cpp: the statistics of a metric over a window of time. `double` is
-- the record `Double`, with the laws of its order away from NaN, and `std::sort` is the record
-- `Sorting`.
pub mod Order
pub mod Window
pub mod Sizes
pub mod Quartiles
pub mod Naturals
mod Tests
use mathlib.Core.List.{Permᴰ}
use metricq_cpp.Prelude.{
  ℕ, ◌+◌, ◌*◌, ◌/◌, ◌%◌, ◌==◌, ltb, ◌≡◌, Bool, true, false, not, List, [], ◌∷◌, Option, none, some,
  length, get_elem?, All, if◌then◌else◌,
}
use metricq_cpp.Prelude.Int.{ℤ, leb_ℤ}
use metricq_cpp.Prelude.Outcome.{
  Result, ok, err, out_of_bounds, assertion, bind, add_int64, sub_int64,
}
use metricq_cpp.Chunk.{TimeValue}

pub record Double : Type 1 where
  pub Value : Type 0
  pub zero : Value
  pub half : Value
  pub add : Value → Value → Value
  pub sub : Value → Value → Value
  pub mul : Value → Value → Value
  pub div : Value → Value → Value
  pub of_size : ℕ → Value
  pub sqrt : Value → Value
  pub abs : Value → Value
  pub is_nan : Value → Bool
  -- `a < b`
  pub lt : Value → Value → Bool
  pub lt_irrefl : (a : Value) → lt a a ≡ false
  -- Of numbers, if `b` is not less than `a` and `c` not less than `b`, then `c` is not less than `a`.
  pub le_trans :
      (a b c : Value)
      → is_nan a ≡ false
      → is_nan b ≡ false
      → is_nan c ≡ false
      → lt b a ≡ false
      → lt c b ≡ false
      → lt c a ≡ false

module _ (d : Double) where
  open d use {Value}

  -- In ascending order, by the comparison that the sources give to `std::sort`.
  abbrev pub IsSorted : List (TimeValue Value) → Type 0
  IsSorted [] = Unit
  IsSorted (x ∷ xs) = All (λ y. d.lt y.value x.value ≡ false) xs × IsSorted xs

  abbrev pub AreNumbers : List (TimeValue Value) → Type 0
  AreNumbers = All (λ tv. d.is_nan tv.value ≡ false)

  -- `std::sort` permutes, and sorts numbers.
  pub record Sorting : Type 0 where
    pub sort : List (TimeValue Value) → List (TimeValue Value)
    pub sort-permuted : (xs : List (TimeValue Value)) → Permᴰ (sort xs) xs
    pub sort-IsSorted : (xs : List (TimeValue Value)) → AreNumbers xs → IsSorted (sort xs)

pub record Summary (V : Type 0) : Type 0 where
  pub num_timepoints : ℕ
  pub duration : ℤ
  pub average : V
  pub stddev : V
  pub absdev : V
  pub quart25 : V
  pub quart50 : V
  pub quart75 : V
  pub minimum : V
  pub maximum : V
  pub range : V

module _ {A : Type 0} where
  -- A read past the end is undefined.
  abbrev pub found : Option A → Result A
  found none = err out_of_bounds
  found (some x) = ok x

  -- `xs[i]`
  abbrev pub at : List A → ℕ → Result A
  at xs i = found (get_elem? xs i)

  abbrev pub back? : List A → Option A
  back? [] = none
  back? (x ∷ []) = some x
  back? (x ∷ y ∷ xs) = back? (y ∷ xs)

  abbrev pub back : List A → Result A
  back xs = found (back? xs)

module _ {V : Type 0} where
  -- Whether a point stays: the negation of the test that is given to `std::remove_if`, whose second
  -- half is computed only where the first is false.
  unfoldable pub stays : ℤ → ℤ → ℤ → ℤ → TimeValue V → Result Bool
  stays start stop start_delta stop_delta tv = bind (add_int64 start start_delta) λ first.
      if leb_ℤ tv.time first
      then ok false
      else bind (sub_int64 stop stop_delta) λ last. ok (not (leb_ℤ last tv.time))

  -- `erase` after `remove_if`.
  unfoldable pub remove :
      (TimeValue V → Result Bool) → List (TimeValue V) → Result (List (TimeValue V))
  remove keep [] = ok []
  remove keep (tv ∷ tvs) =
      bind (keep tv) λ b. bind (remove keep tvs) λ rest. ok (if b then tv ∷ rest else rest)

  -- The points strictly within the window.
  unfoldable pub window : ℤ → ℤ → List (TimeValue V) → Result (List (TimeValue V))
  unfolding stays remove
  window start_delta stop_delta tvs = bind (at tvs 0) λ first.
      bind (back tvs) λ last. remove (stays first.time last.time start_delta stop_delta) tvs

module _ (d : Double) where
  open d use {Value, add, sub, mul, div}

  unfoldable pub accumulate : (Value → Value) → Value → List (TimeValue Value) → Value
  accumulate fn acc [] = acc
  accumulate fn acc (tv ∷ tvs) = accumulate fn (add acc (fn tv.value)) tvs

  unfoldable pub sum_over_nths : (Value → Value) → List (TimeValue Value) → Value
  unfolding accumulate
  sum_over_nths fn tvs = div (accumulate fn d.zero tvs) (d.of_size (length tvs))

  -- The median, as the sources choose it among the sorted points.
  unfoldable pub middle : List (TimeValue Value) → Result Value
  middle sorted =
      let n = length sorted in
      if not (n % 2 == 0)
      then bind (at sorted (n / 2 + 1)) (λ tv. ok tv.value)
      else bind (at sorted (n / 2))
          (λ low. bind (at sorted (n / 2 + 1)) (λ high. ok (mul d.half (add low.value high.value))))

  -- The fields, from the points, those that are read at an index, and the median.
  abbrev pub statistics :
      List (TimeValue Value) → ℤ → (quart50 quart25 quart75 minimum maximum : Value) → Summary Value
  statistics tvs duration quart50 quart25 quart75 minimum maximum =
      let average = sum_over_nths (λ v. v) tvs in
      record {
        num_timepoints = length tvs;
        duration = duration;
        average = average;
        stddev = d.sqrt (sum_over_nths (λ v. mul (sub v average) (sub v average)) tvs);
        absdev = sum_over_nths (λ v. d.abs (sub v average)) tvs;
        quart25 = quart25;
        quart50 = quart50;
        quart75 = quart75;
        minimum = minimum;
        maximum = maximum;
        range = sub maximum minimum;
      }

  module _ (s : Sorting d) where
    -- What is computed from the points within the window.
    unfoldable pub summarize : List (TimeValue Value) → Result (Summary Value)
    unfolding sum_over_nths middle
    summarize tvs =
        if length tvs == 0
        then err assertion
        else let n = length tvs in
          let sorted = s.sort tvs in
          bind (at tvs 0) λ first. bind (back tvs) λ last.
            bind (sub_int64 last.time first.time) λ duration. bind (middle sorted) λ quart50.
              bind (at sorted (n / 4)) λ quart25. bind (at sorted (n * 3 / 4)) λ quart75.
                bind (at sorted 0) λ minimum. bind (back sorted) λ maximum. ok (
                  statistics tvs duration quart50 quart25.value quart75.value minimum.value
                    maximum.value)

    -- `Summary::calculate`
    unfoldable pub calculate : ℤ → ℤ → List (TimeValue Value) → Result (Summary Value)
    unfolding window summarize
    calculate start_delta stop_delta tv_pairs =
        bind (window start_delta stop_delta tv_pairs) summarize
