-- ===== src/Metric/Sizes.antt =====
-- When a metric of include/metricq/metric.hpp hands a chunk over by itself.
use metricq_cpp.Prelude.{
  ℕ, ◌≤◌, ◌<◌, ◌^◌, ◌==◌, ◌≡◌, ◌≢◌, refl, ap, ◌∙◌, List, [], ◌∷◌, ◌++◌, String, length,
  length-append, All, arith, Bool-cases, inl, inr, ==_iff,
}
use metricq_cpp.Prelude.Int.{pos}
use metricq_cpp.Prelude.Outcome.{ok}
use metricq_cpp.Chunk.{DataChunk, TimeValue}
use metricq_cpp.Chunk.Encode.{AreStamps, length-deltas}
use metricq_cpp.Metric.{Metric, new}
use metricq_cpp.Metric.Batches.{Batcher, Call, sends, resizes, apply_all, push}
use metricq_cpp.Metric.Perform.{Written, perform_all, AreRegular, labelled, Refines}
use metricq_cpp.Metric.Refine.{perform_all-Refines, new-Refines}

All-snoc {κ} :
    {A : Type 0} (P : A → Type κ) (xs : List A) (x : A) → All P xs → P x → All P (xs ++ x ∷ [])
All-snoc P [] x h p = (p, tt)
All-snoc P (y ∷ ys) x h p = (h.0, All-snoc P ys x h.1 p)

module _ {V : Type 0} where
  abbrev pub all_sends : List (TimeValue V) → List (Call (TimeValue V))
  all_sends [] = []
  all_sends (tv ∷ tvs) = sends tv ∷ all_sends tvs

  all_sends-AreRegular : (tvs : List (TimeValue V)) → AreStamps tvs → AreRegular (all_sends tvs)
  all_sends-AreRegular [] h = tt
  all_sends-AreRegular (tv ∷ tvs) h = (h.0, all_sends-AreRegular tvs h.1)

  -- Between two calls all batches are of size `n` and the pending one is shorter.
  abbrev IsCut : ℕ → Batcher (TimeValue V) → Type 0
  IsCut n b = (b.size ≡ n) × (length b.pending < n) × All (λ batch. length batch ≡ n) b.batches

  push-IsCut :
      (n : ℕ) (tv : TimeValue V) (b : Batcher (TimeValue V)) → IsCut n b → IsCut n (push tv b)
  push-IsCut n tv b (size, short, cut) =
      elim (Bool-cases (length (b.pending ++ tv ∷ []) == b.size)) [
        | inl e ↦
            rw e (size, omega arith, All-snoc _ b.batches _ cut ((==_iff _ b.size).0 e ∙ size))
        | inr e ↦ rw e (size, ground (arith, length-append b.pending (tv ∷ [])), cut)
      ]

  apply_all-IsCut :
      (n : ℕ) (tvs : List (TimeValue V)) (b : Batcher (TimeValue V))
      → IsCut n b
      → IsCut n (apply_all (all_sends tvs) b)
  apply_all-IsCut n [] b h = h
  apply_all-IsCut n (tv ∷ tvs) b h = apply_all-IsCut n tvs (push tv b) (push-IsCut n tv b h)

  labelled-All :
      (n : ℕ) (id : String) (batches : List (List (TimeValue V)))
      → All (λ batch. length batch ≡ n) batches
      → All (λ (e : String × DataChunk V). length e.1.time_delta ≡ n) (labelled id batches)
  labelled-All n id [] h = tt
  labelled-All n id (batch ∷ batches) h =
      (length-deltas (pos 0) batch ∙ h.0, labelled-All n id batches h.1)

  push_over :
      (tv : TimeValue V) (b : Batcher (TimeValue V))
      → b.size ≤ length b.pending
      → push tv b ≡ record b { pending = b.pending ++ tv ∷ [] }
  push_over tv b h = ground (arith, length-append b.pending (tv ∷ []))

  apply_all_over :
      (tvs : List (TimeValue V)) (b : Batcher (TimeValue V))
      → b.size ≤ length b.pending
      → (apply_all (all_sends tvs) b).batches ≡ b.batches
  apply_all_over [] b h = refl
  apply_all_over (tv ∷ tvs) b h =
      ap (λ c. (apply_all (all_sends tvs) c).batches) (push_over tv b h)
      ∙ apply_all_over tvs (record b { pending = b.pending ++ tv ∷ [] })
          (omega (arith, length-append b.pending (tv ∷ [])))

  abbrev fresh : Batcher (TimeValue V)
  fresh = record { size = 1; pending = []; batches = [] }

module _ {V M : Type 0} where
  -- A new metric whose chunk size is set to `n`, not 0 and below 2^63, and that only gets points,
  -- with times from the epoch on, has written chunks of exactly `n` points and holds back fewer
  -- than `n`.
  pub perform_all-sizes :
      (id : String) (metadata : M) (n : ℕ) (tvs : List (TimeValue V))
      → n ≢ 0
      → n < 2 ^ 63
      → AreStamps tvs
      → let (r, m) = perform_all (resizes n ∷ all_sends tvs) (new id metadata []) in
        (r ≡ ok tt)
        × All (λ e. length e.1.time_delta ≡ n) m.writer
        × (length m.chunk.time_delta < n)
  perform_all-sizes id metadata n tvs nonzero small h = (
    run.0,
    rw run.1.written (labelled-All n m.id _ is_cut.2),
    rw (run.1.deltas_eq, length-deltas) is_cut.1,
  )
    where
      m : Metric V M (Written V)
      m = (perform_all (resizes n ∷ all_sends tvs) (new id metadata [])).1

      b : Batcher (TimeValue V)
      b = apply_all (resizes n ∷ all_sends tvs) fresh

      run : ((perform_all (resizes n ∷ all_sends tvs) (new id metadata [])).0 ≡ ok tt) × Refines m b
      run =
          perform_all-Refines (resizes n ∷ all_sends tvs) (new id metadata []) fresh
            (small, all_sends-AreRegular tvs h) (new-Refines id metadata)

      is_cut : IsCut n b
      is_cut =
          apply_all-IsCut n tvs (record { size = n; pending = []; batches = [] })
            (refl, omega arith, tt)

  -- A metric that holds at least as many points as its chunk size, as after the size was lowered,
  -- never hands a chunk over by itself again, however many points it gets: `send` tests the number
  -- for equality.
  pub perform_all_over :
      (m : Metric V M (Written V)) (b : Batcher (TimeValue V)) (tvs : List (TimeValue V))
      → Refines m b
      → b.size ≤ length b.pending
      → AreStamps tvs
      → let (r, m') = perform_all (all_sends tvs) m in
        (r ≡ ok tt) × (m'.writer ≡ labelled m'.id b.batches)
  perform_all_over m b tvs held over h =
      let (done, held') =
        perform_all-Refines (all_sends tvs) m b (all_sends-AreRegular tvs h) held in
      (done, held'.written ∙ ap (labelled _) (apply_all_over tvs b over))
