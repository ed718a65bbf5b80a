-- ===== src/Summary/Quartiles.antt =====
-- The order statistics of tools/metricq-summary/src/summary.cpp.
use mathlib.Core.List.Permᴰ.{symm}
use metricq_cpp.Prelude.{
  ℕ, ◌+◌, ◌-◌, ◌*◌, ◌/◌, ◌%◌, ◌≤◌, ◌==◌, ◌≡◌, refl, sym, ◌∙◌, inl, inr, false, List, some, length,
  get_elem?, All, arith, Bool-cases,
}
use metricq_cpp.Prelude.Int.{ℤ}
use metricq_cpp.Prelude.Outcome.{Result, ok, bind, sub_int64}
use metricq_cpp.Chunk.{TimeValue}
use metricq_cpp.Summary.{
  Double, Sorting, AreNumbers, Summary, at, back, middle, statistics, summarize,
}
use metricq_cpp.Summary.Order.{
  length-permuted, All-permuted, All-of-get_elem?, before-length, at-lt, back-lt,
  IsSorted-get_elem?,
}

-- The time from the first to the last point.
abbrev pub span : {V : Type 0} → List (TimeValue V) → Result ℤ
span tvs = bind (at tvs 0) λ first. bind (back tvs) λ last. sub_int64 last.time first.time

-- `a` is not greater than `b`.
abbrev pub NotAbove : (d : Double) → d.Value → d.Value → Type 0
NotAbove d a b = d.lt b a ≡ false

module _ (d : Double) (s : Sorting d) where
  open d use {Value}

  middle-ok : (xs : List (TimeValue Value)) → 3 ≤ length xs → (v : Value) × (middle d xs ≡ ok v)
  unfolding middle
  middle-ok xs h =
      let (high, e, ea) = at-lt xs (length xs / 2 + 1) (omega arith) in
      let (low, f, fa) = at-lt xs (length xs / 2) (omega arith) in
      elim (Bool-cases (length xs % 2 == 0)) [
        | inl even ↦ (d.mul d.half (d.add low.value high.value), rw (even, ea, fa) refl)
        | inr odd ↦ (high.value, rw (odd, ea) refl)
      ]

  -- The points of a summary, where there are at least three and their times can be subtracted.
  module _ (tvs : List (TimeValue Value)) (three : 3 ≤ length tvs) (numbers : AreNumbers d tvs)
      (duration : ℤ) where
    abbrev sorted : List (TimeValue Value)
    sorted = s.sort tvs

    length-sorted : length sorted ≡ length tvs
    length-sorted = length-permuted (s.sort-permuted tvs)

    numbers-sorted : AreNumbers d sorted
    numbers-sorted = All-permuted _ (s.sort-permuted tvs) numbers

    ordered :
        (i j : ℕ) (a b : TimeValue Value)
        → i ≤ j
        → get_elem? sorted i ≡ some a
        → get_elem? sorted j ≡ some b
        → NotAbove d a.value b.value
    ordered i j a b h e f = IsSorted-get_elem? d sorted i j (s.sort-IsSorted tvs numbers) h e f

    bounded :
        (low high : TimeValue Value)
        → get_elem? sorted 0 ≡ some low
        → get_elem? sorted (length sorted - 1) ≡ some high
        → All (λ tv. NotAbove d low.value tv.value × NotAbove d tv.value high.value) tvs
    bounded low high e f = All-permuted _ (symm (s.sort-permuted tvs)) (
        All-of-get_elem? _ sorted λ i x at_i. (
          ordered 0 i low x (omega arith) e at_i,
          ordered i (length sorted - 1) x high (before-length sorted i at_i) at_i f,
        ))

    -- The points that the statistics are read from.
    module _ (first last q25 q75 low high : TimeValue Value) (median : Value)
        (first_eq : at tvs 0 ≡ ok first) (last_eq : back tvs ≡ ok last)
        (span_eq : sub_int64 last.time first.time ≡ ok duration)
        (median_eq : middle d sorted ≡ ok median) (q25_eq : at sorted (length tvs / 4) ≡ ok q25)
        (q75_eq : at sorted (length tvs * 3 / 4) ≡ ok q75) (low_eq : at sorted 0 ≡ ok low)
        (high_eq : back sorted ≡ ok high) where
      summarize-reads :
          summarize d s tvs
          ≡ ok (statistics d tvs duration median q25.value q75.value low.value high.value)
      unfolding summarize
      summarize-reads =
          let some_points : (length tvs == 0) ≡ false = ground arith in
          rw (some_points, first_eq, last_eq, span_eq, median_eq, q25_eq, q75_eq, low_eq, high_eq)
            refl

    -- Where there are at least three points, all of them numbers, and the first and the last time can
    -- be subtracted, the statistics are computed; they count the points, the quartiles next to the
    -- ends stand in order between the minimum and the maximum, and these bound every value.
    pub summarize-ordered :
        span tvs ≡ ok duration
        → (m : Summary Value) × (summarize d s tvs ≡ ok m)
          × (m.num_timepoints ≡ length tvs)
          × (m.duration ≡ duration)
          × NotAbove d m.minimum m.quart25
          × NotAbove d m.quart25 m.quart75
          × NotAbove d m.quart75 m.maximum
          × All (λ tv. NotAbove d m.minimum tv.value × NotAbove d tv.value m.maximum) tvs
    summarize-ordered h =
        let n_eq = length-sorted in
        let (first, _, first_eq) = at-lt tvs 0 (omega arith) in
        let (last, _, last_eq) = back-lt tvs (omega arith) in
        let (median, median_eq) = middle-ok sorted (omega arith) in
        let (q25, q25_at, q25_eq) = at-lt sorted (length tvs / 4) (omega arith) in
        let (q75, q75_at, q75_eq) = at-lt sorted (length tvs * 3 / 4) (omega arith) in
        let (low, low_at, low_eq) = at-lt sorted 0 (omega arith) in
        let (high, high_at, high_eq) = back-lt sorted (omega arith) in
        let span_eq : sub_int64 last.time first.time ≡ ok duration =
          sym (rw (first_eq, last_eq) refl) ∙ h in
        (
          _,
          summarize-reads first last q25 q75 low high median first_eq last_eq span_eq median_eq
              q25_eq q75_eq low_eq high_eq,
          refl,
          refl,
          ordered 0 _ low q25 (omega arith) low_at q25_at,
          ordered _ _ q25 q75 (omega arith) q25_at q75_at,
          ordered _ _ q75 high (omega arith) q75_at high_at,
          bounded low high low_at high_at,
        )
