-- ===== src/SummaryTool/Few.antt =====
-- How many points a metric needs for the defaults of tools/metricq-summary/src/main.cpp, by which
-- nothing is cut off at either end.
use metricq_cpp.Prelude.{
  ◌≤◌, ◌==◌, ◌≡◌, refl, sym, ap, ◌∙◌, subst, inl, inr, Bool, false, List, [], ◌∷◌, length, arith,
  All,
}
use metricq_cpp.Prelude.Int.{ℤ, pos, IsInt64, ◌+ℤ◌, ◌-ℤ◌, negsuc, int_laws}
use metricq_cpp.Prelude.Outcome.{
  ok, err, Failure, out_of_bounds, assertion, Result-cases, sub_int64,
}
use metricq_cpp.Chunk.{TimeValue}
use metricq_cpp.Summary.{Double, Sorting, summarize, window, calculate}
use metricq_cpp.Summary.Order.{back-lt}
use metricq_cpp.Summary.Quartiles.{span}
use metricq_cpp.Summary.Sizes.{summarize-few}
use metricq_cpp.Summary.Window.{between, filter, last_of, window-filter}

module _ {V : Type 0} where
  length-filter :
      (p : TimeValue V → Bool) (tvs : List (TimeValue V)) → length (filter p tvs) ≤ length tvs
  length-filter p [] = omega arith
  length-filter p (tv ∷ tvs) = ground (arith, length-filter p tvs)

  -- Where the last one goes, at least one does.
  length-filter_last :
      (p : TimeValue V → Bool) (tv : TimeValue V) (tvs : List (TimeValue V))
      → p (last_of tv tvs) ≡ false
      → length (filter p (tv ∷ tvs)) ≤ length tvs
  length-filter_last p tv [] h = ground arith
  length-filter_last p tv (x ∷ tvs) h = ground (arith, length-filter_last p x tvs h)

  All-last_of :
      (P : TimeValue V → Type 0) (tv : TimeValue V) (tvs : List (TimeValue V))
      → P tv
      → All P tvs
      → P (last_of tv tvs)
  All-last_of P tv [] h hs = h
  All-last_of P tv (x ∷ tvs) h hs = All-last_of P x tvs hs.0 hs.1

+ℤ-zero : (a : ℤ) → a +ℤ pos 0 ≡ a
unfolding ◌+ℤ◌
+ℤ-zero (pos n) = grind int_laws
+ℤ-zero (negsuc n) = grind int_laws

-ℤ-zero : (a : ℤ) → a -ℤ pos 0 ≡ a
unfolding ◌-ℤ◌
-ℤ-zero (pos n) = grind int_laws
-ℤ-zero (negsuc n) = grind int_laws

module _ {V : Type 0} where
  window-zero :
      (tv : TimeValue V) (tvs : List (TimeValue V))
      → All (λ x. IsInt64 x.time) (tv ∷ tvs)
      → window (pos 0) (pos 0) (tv ∷ tvs)
        ≡ ok (filter (between tv.time (last_of tv tvs).time) (tv ∷ tvs))
  window-zero tv tvs times =
      let last_fits = All-last_of (λ x. IsInt64 x.time) tv tvs times.0 times.1 in
      let last = (last_of tv tvs).time in
      window-filter (pos 0) (pos 0) tv tvs (subst (λ t. IsInt64 t) (sym (+ℤ-zero tv.time)) times.0)
        (subst (λ t. IsInt64 t) (sym (-ℤ-zero last)) last_fits)
      ∙ ap (λ t. ok (filter (between t (last -ℤ pos 0)) (tv ∷ tvs))) (+ℤ-zero tv.time)
      ∙ ap (λ t. ok (filter (between tv.time t) (tv ∷ tvs))) (-ℤ-zero last)

  between-first :
      (first last : ℤ) (tv : TimeValue V) → first ≡ tv.time → between first last tv ≡ false
  between-first first last tv e = ground arith

  between-last :
      (first last : ℤ) (tv : TimeValue V) → last ≡ tv.time → between first last tv ≡ false
  between-last first last tv e = ground arith

  -- The first and the last point are not kept.
  length-between :
      (tv : TimeValue V) (tvs : List (TimeValue V))
      → length (tv ∷ tvs) ≤ 4
      → length (filter (between tv.time (last_of tv tvs).time) (tv ∷ tvs)) ≤ 2
  length-between tv [] h = rw (between-first tv.time tv.time tv refl) (omega arith)
  length-between tv (x ∷ xs) h =
      let first = tv.time in
      let last = (last_of x xs).time in
      let kept =
        length-filter_last (between first last) x xs
          (between-last first last (last_of x xs) refl) in
      rw (between-first first last tv refl) (omega arith)

module _ (d : Double) (s : Sorting d) where
  open d use {Value}

  summarize-two :
      (tvs : List (TimeValue Value)) → length tvs ≤ 2 → (e : Failure) × (summarize d s tvs ≡ err e)
  unfolding summarize
  summarize-two [] h = (assertion, refl)
  summarize-two (tv ∷ tvs) h = elim (Result-cases (span (tv ∷ tvs))) [
    | inl (duration, e) ↦ (out_of_bounds, summarize-few d s (tv ∷ tvs) duration (omega arith) h e)
    | inr (x, e) ↦
        let (last, _, last_eq) = back-lt (tv ∷ tvs) (omega arith) in
        let span_eq : sub_int64 last.time tv.time ≡ err x = sym (rw last_eq refl) ∙ e in
        let nonempty : (length (tv ∷ tvs) == 0) ≡ false = ground arith in
        (x, rw (nonempty, last_eq, span_eq) refl)
  ]

  -- By the defaults, the points of a metric that has fewer than five, of times that fit 64 bits, are not
  -- summarized: the calculation fails.
  pub calculate-few :
      (tvs : List (TimeValue Value))
      → length tvs ≤ 4
      → All (λ tv. IsInt64 tv.time) tvs
      → (e : Failure) × (calculate d s (pos 0) (pos 0) tvs ≡ err e)
  unfolding calculate window
  calculate-few [] h times = (out_of_bounds, refl)
  calculate-few (tv ∷ tvs) h times =
      let (e, eq) =
        summarize-two (filter (between tv.time (last_of tv tvs).time) (tv ∷ tvs))
          (length-between tv tvs h) in
      (e, rw (window-zero tv tvs times) eq)
