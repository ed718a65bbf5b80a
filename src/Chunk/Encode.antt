-- ===== src/Chunk/Encode.antt =====
-- What a chunk stands for: the differences of a sequence of points in time, beside their values.
use metricq_cpp.Prelude.{suc, ◌≡◌, refl, ap, List, [], ◌∷◌, ◌++◌, length, arith}
use metricq_cpp.Prelude.Int.{ℤ, pos, ◌-ℤ◌, ◌≤ℤ◌, IsInt64, in_int64-true, -ℤ-IsInt64, add_sub_cancel}
use metricq_cpp.Prelude.Outcome.{ok, Action, ◌>>◌, skip, add_int64, sub_int64}
use metricq_cpp.Chunk.{DataChunk, TimeValue, foreach_from, data_chunk_foreach, time_value}

-- A time that is not before the epoch and fits the 64 bits of `Duration`.
abbrev pub IsStamp : ℤ → Type 0
IsStamp t = (pos 0 ≤ℤ t) × IsInt64 t

pub sub_int64-IsStamp : (a b : ℤ) → IsStamp a → IsStamp b → sub_int64 a b ≡ ok (a -ℤ b)
unfolding sub_int64
sub_int64-IsStamp a b ha hb = rw (in_int64-true _ (-ℤ-IsInt64 a b ha.0 hb.0 ha.1 hb.1))

pub add_int64_back : (prev t : ℤ) → IsStamp t → add_int64 prev (t -ℤ prev) ≡ ok t
unfolding add_int64
add_int64_back prev t h = rw (add_sub_cancel t prev, in_int64-true t h.1)

module _ {V : Type 0} where
  -- The differences of the times, the first one against `prev`.
  abbrev pub deltas : ℤ → List (TimeValue V) → List ℤ
  deltas prev [] = []
  deltas prev (tv ∷ tvs) = (tv.time -ℤ prev) ∷ deltas tv.time tvs

  abbrev pub values : List (TimeValue V) → List V
  values [] = []
  values (tv ∷ tvs) = tv.value ∷ values tvs

  -- The time of the last point, or `prev` where there is none.
  abbrev pub last_time : ℤ → List (TimeValue V) → ℤ
  last_time prev [] = prev
  last_time prev (tv ∷ tvs) = last_time tv.time tvs

  -- The chunk that stands for a list of points.
  abbrev pub chunk_of : List (TimeValue V) → DataChunk V
  chunk_of tvs = record { time_delta = deltas (pos 0) tvs; value = values tvs }

  abbrev pub AreStamps : List (TimeValue V) → Type 0
  AreStamps [] = Unit
  AreStamps (tv ∷ tvs) = IsStamp tv.time × AreStamps tvs

  pub deltas-append :
      (prev : ℤ) (tvs : List (TimeValue V)) (tv : TimeValue V)
      → deltas prev (tvs ++ tv ∷ []) ≡ deltas prev tvs ++ (tv.time -ℤ last_time prev tvs) ∷ []
  deltas-append prev [] tv = refl
  deltas-append prev (x ∷ tvs) tv = rw (deltas-append x.time tvs tv)

  pub values-append :
      (tvs : List (TimeValue V)) (tv : TimeValue V)
      → values (tvs ++ tv ∷ []) ≡ values tvs ++ tv.value ∷ []
  values-append [] tv = refl
  values-append (x ∷ tvs) tv = rw (values-append tvs tv)

  pub last_time-append :
      (prev : ℤ) (tvs : List (TimeValue V)) (tv : TimeValue V)
      → last_time prev (tvs ++ tv ∷ []) ≡ tv.time
  last_time-append prev [] tv = refl
  last_time-append prev (x ∷ tvs) tv = last_time-append x.time tvs tv

  pub last_time-IsStamp :
      (prev : ℤ) (tvs : List (TimeValue V))
      → IsStamp prev
      → AreStamps tvs
      → IsStamp (last_time prev tvs)
  last_time-IsStamp prev [] h k = h
  last_time-IsStamp prev (x ∷ tvs) h k = last_time-IsStamp x.time tvs k.0 k.1

  pub AreStamps-append :
      (tvs us : List (TimeValue V)) → AreStamps tvs → AreStamps us → AreStamps (tvs ++ us)
  AreStamps-append [] us h k = k
  AreStamps-append (x ∷ tvs) us h k = (h.0, AreStamps-append tvs us h.1 k)

  pub length-deltas : (prev : ℤ) (tvs : List (TimeValue V)) → length (deltas prev tvs) ≡ length tvs
  length-deltas prev [] = refl
  length-deltas prev (x ∷ tvs) = ap suc (length-deltas x.time tvs)

  pub length-values : (tvs : List (TimeValue V)) → length (values tvs) ≡ length tvs
  length-values [] = refl
  length-values (x ∷ tvs) = ap suc (length-values tvs)

-- The callback on each point of a list, up to the first failure.
abbrev pub for_each : {S A : Type 0} → (A → Action S (Unit {0})) → List A → Action S (Unit {0})
for_each cb [] = skip
for_each cb (a ∷ as') = do cb a; for_each cb as'

module _ {S V : Type 0} (cb : TimeValue V → Action S (Unit {0})) where
  foreach_from-deltas :
      (prev : ℤ) (tvs : List (TimeValue V)) (s : S)
      → AreStamps tvs
      → foreach_from cb prev (deltas prev tvs) (values tvs) s ≡ for_each cb tvs s
  unfolding foreach_from
  foreach_from-deltas prev [] s h = refl
  foreach_from-deltas prev (tv ∷ tvs) s h = ground (
    arith,
    add_int64_back prev tv.time h.0,
    foreach_from-deltas tv.time tvs (cb (time_value tv.time tv.value) s).1 h.1,
  )

  -- Decoding inverts encoding: going through the chunk of a list of points calls back with
  -- exactly these points in their order, if no time is before the epoch or beyond 64 bits.
  pub data_chunk_foreach-chunk_of :
      (tvs : List (TimeValue V)) (s : S)
      → AreStamps tvs
      → data_chunk_foreach cb (chunk_of tvs) s ≡ for_each cb tvs s
  unfolding data_chunk_foreach
  data_chunk_foreach-chunk_of tvs s h = foreach_from-deltas (pos 0) tvs s h
