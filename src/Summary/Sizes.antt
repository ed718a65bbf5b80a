-- ===== src/Summary/Sizes.antt =====
-- How many points `Summary::calculate` of tools/metricq-summary/src/summary.cpp needs.
use metricq_cpp.Prelude.{◌≤◌, ◌==◌, ◌≡◌, refl, sym, ◌∙◌, false, List, [], ◌∷◌, length, arith}
use metricq_cpp.Prelude.Int.{ℤ}
use metricq_cpp.Prelude.Outcome.{ok, err, out_of_bounds, sub_int64}
use metricq_cpp.Chunk.{TimeValue}
use metricq_cpp.Summary.{Double, Sorting, middle, summarize}
use metricq_cpp.Summary.Order.{length-permuted, at-lt, back-lt}
use metricq_cpp.Summary.Quartiles.{span}

module _ (d : Double) where
  open d use {Value}

  middle-few : (xs : List (TimeValue Value)) → length xs ≤ 2 → middle d xs ≡ err out_of_bounds
  unfolding middle
  middle-few [] h = refl
  middle-few (x ∷ []) h = refl
  middle-few (x ∷ y ∷ []) h = refl
  middle-few (x ∷ y ∷ z ∷ xs) h = absurd (omega arith)

  -- Of one or two points, whose times can be subtracted, the statistics are not computed: the median
  -- is read past the end of the points.
  pub summarize-few :
      (s : Sorting d) (tvs : List (TimeValue Value)) (duration : ℤ)
      → 1 ≤ length tvs
      → length tvs ≤ 2
      → span tvs ≡ ok duration
      → summarize d s tvs ≡ err out_of_bounds
  unfolding summarize
  summarize-few s tvs duration some_points few h =
      let n_eq = length-permuted (s.sort-permuted tvs) in
      let (first, _, first_eq) = at-lt tvs 0 (omega arith) in
      let (last, _, last_eq) = back-lt tvs (omega arith) in
      let span_eq : sub_int64 last.time first.time ≡ ok duration =
        sym (rw (first_eq, last_eq) refl) ∙ h in
      let few_sorted = middle-few (s.sort tvs) (omega arith) in
      let nonempty : (length tvs == 0) ≡ false = ground arith in
      rw (nonempty, first_eq, last_eq, span_eq, few_sorted) refl
