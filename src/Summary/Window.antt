-- ===== src/Summary/Window.antt =====
-- Which points `Summary::calculate` of tools/metricq-summary/src/summary.cpp keeps.
use metricq_cpp.Prelude.{
  ◌≡◌, refl, inl, inr, Bool, not, ◌&&◌, List, [], ◌∷◌, if◌then◌else◌, Bool-cases,
}
use metricq_cpp.Prelude.Int.{ℤ, ◌+ℤ◌, ◌-ℤ◌, leb_ℤ, IsInt64, in_int64-true}
use metricq_cpp.Prelude.Outcome.{ok, add_int64, sub_int64}
use metricq_cpp.Chunk.{TimeValue}
use metricq_cpp.Summary.{stays, remove, window, back}

module _ {V : Type 0} where
  -- Later than `first` and earlier than `last`.
  abbrev pub between : ℤ → ℤ → TimeValue V → Bool
  between first last tv = not (leb_ℤ tv.time first) && not (leb_ℤ last tv.time)

  abbrev pub filter : (TimeValue V → Bool) → List (TimeValue V) → List (TimeValue V)
  filter p [] = []
  filter p (tv ∷ tvs) = if p tv then tv ∷ filter p tvs else filter p tvs

  abbrev pub last_of : TimeValue V → List (TimeValue V) → TimeValue V
  last_of tv [] = tv
  last_of tv (x ∷ xs) = last_of x xs

  back-last_of :
      (tv : TimeValue V) (tvs : List (TimeValue V)) → back (tv ∷ tvs) ≡ ok (last_of tv tvs)
  back-last_of tv [] = refl
  back-last_of tv (x ∷ xs) = back-last_of x xs

  module _ (start stop start_delta stop_delta : ℤ) (low : IsInt64 (start +ℤ start_delta))
      (high : IsInt64 (stop -ℤ stop_delta)) where
    abbrev inside : TimeValue V → Bool
    inside = between (start +ℤ start_delta) (stop -ℤ stop_delta)

    stays-between : (tv : TimeValue V) → stays start stop start_delta stop_delta tv ≡ ok (inside tv)
    unfolding stays add_int64 sub_int64
    stays-between tv = elim (Bool-cases (leb_ℤ tv.time (start +ℤ start_delta))) [
      | inl e ↦ rw (in_int64-true _ low, e) refl
      | inr e ↦ rw (in_int64-true _ low, e, in_int64-true _ high) refl
    ]

    remove-filter :
        (tvs : List (TimeValue V))
        → remove (stays start stop start_delta stop_delta) tvs ≡ ok (filter inside tvs)
    unfolding remove
    remove-filter [] = refl
    remove-filter (tv ∷ tvs) = elim (Bool-cases (inside tv)) [
      | inl e ↦ rw (stays-between tv, remove-filter tvs, e) refl
      | inr e ↦ rw (stays-between tv, remove-filter tvs, e) refl
    ]

  -- Where both ends of the window fit 64 bits, the points that are kept are those strictly within:
  -- later than the first point and `start_delta`, and earlier than the last point less `stop_delta`.
  pub window-filter :
      (start_delta stop_delta : ℤ) (tv : TimeValue V) (tvs : List (TimeValue V))
      → IsInt64 (tv.time +ℤ start_delta)
      → IsInt64 ((last_of tv tvs).time -ℤ stop_delta)
      → window start_delta stop_delta (tv ∷ tvs)
        ≡ ok (
            filter
              (between (tv.time +ℤ start_delta) ((last_of tv tvs).time -ℤ stop_delta))
              (tv ∷ tvs))
  unfolding window
  window-filter start_delta stop_delta tv tvs low high =
      rw (back-last_of tv tvs)
        (remove-filter tv.time (last_of tv tvs).time start_delta stop_delta low high (tv ∷ tvs))
