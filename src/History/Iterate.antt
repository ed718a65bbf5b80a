-- ===== src/History/Iterate.antt =====
-- What the iterators of include/metricq/types.hpp visit: the entries of a response beside the sums of
-- the time differences up to each.
use metricq_cpp.Prelude.{List, [], ◌∷◌, length, leb, if◌then◌else◌}
use metricq_cpp.Prelude.Int.{ℤ, ◌+ℤ◌, IsInt64}
use metricq_cpp.Prelude.Outcome.{out_of_bounds, Action, ◌>>◌, skip, raise}
use metricq_cpp.Chunk.Encode.{for_each}
use metricq_cpp.History
use metricq_cpp.History.{TimeValueAggregate, LegacyCursor}

-- Each sum of the first differences, counted from `t`, fits 64 bits.
abbrev pub SumsFit : ℤ → List ℤ → Type 0
SumsFit t [] = Unit
SumsFit t (d ∷ ds) = IsInt64 (t +ℤ d) × SumsFit (t +ℤ d) ds

-- The objects for the entries that have a time.
abbrev pub points : {X R : Type 0} → (ℤ → X → R) → ℤ → List ℤ → List X → List R
points make t [] xs = []
points make t (d ∷ ds) [] = []
points make t (d ∷ ds) (x ∷ xs) = make (t +ℤ d) x ∷ points make (t +ℤ d) ds xs

-- Where there are more times than entries, the next entry is read past the end.
abbrev pub past_end : {S X : Type 0} → List ℤ → List X → Action S (Unit {0})
past_end ds xs = if leb (length ds) (length xs) then skip else raise out_of_bounds

-- `body` on what `points` are, and then the failure that is due.
abbrev pub visit :
    {S X R : Type 0}
    → (ℤ → X → R)
    → (R → Action S (Unit {0}))
    → ℤ
    → List ℤ
    → List X
    → Action S (Unit {0})
visit make body t ds xs = for_each body (points make t ds xs) >> past_end ds xs

module _ {V : Type 0} where
  abbrev pub legacy_of : ℤ → V × V × V → TimeValueAggregate V
  legacy_of time (min, max, avg) = record { time = time; min = min; max = max; avg = avg }

  -- The entries of three fields, as far as the shortest goes.
  abbrev pub zip : List V → List V → List V → List (V × V × V)
  zip (a ∷ as') (b ∷ bs) (c ∷ cs) = (a, b, c) ∷ zip as' bs cs
  zip _ _ _ = []

  abbrev cursor : List ℤ → List V → List V → List V → ℤ → LegacyCursor V
  cursor ds as' bs cs t = record {
    iter_time = ds;
    iter_value_min = as';
    iter_value_max = bs;
    iter_value_avg = cs;
    timestamp = t;
  }
