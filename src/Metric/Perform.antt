-- ===== src/Metric/Perform.antt =====
-- Calls on a metric of include/metricq/metric.hpp, with a writer that keeps what it is given, and when
-- it holds a batcher.
use metricq_cpp.Prelude.{
  ◌<◌, ◌^◌, ◌≡◌, refl, ap, ◌∙◌, List, [], ◌∷◌, ◌++◌, map, String, length, arith, true, inl, inr,
  map-append,
}
use metricq_cpp.Prelude.Int.{ℤ, pos}
use metricq_cpp.Prelude.Outcome.{ok, Action, ◌>>◌, skip, modify, >>-ok, >>=-err, Result-cases}
use metricq_cpp.Chunk.{DataChunk, TimeValue}
use metricq_cpp.Chunk.Encode.{
  IsStamp, AreStamps, chunk_of, deltas, values, last_time, length-deltas, length-values,
}
use metricq_cpp.Metric.{Metric, set_chunk_size, flush, send, sizes_agree, clear_chunk}
use metricq_cpp.Metric.Batches.{Batcher, Call, sends, flushes, resizes, cut_pending}

-- What a writer has been given.
abbrev pub Written : Type 0 → Type 0
Written V = List (String × DataChunk V)

module _ {V : Type 0} where
  abbrev pub keep_chunk : String → DataChunk V → Action (Written V) (Unit {0})
  keep_chunk id dc = modify (λ w. w ++ (id, dc) ∷ [])

  -- The arguments that the refinement is for: times from the epoch on, sizes of 63 bits.
  abbrev pub IsRegular : Call (TimeValue V) → Type 0
  IsRegular (sends tv) = IsStamp tv.time
  IsRegular flushes = Unit
  IsRegular (resizes n) = n < 2 ^ 63

  abbrev pub AreRegular : List (Call (TimeValue V)) → Type 0
  AreRegular [] = Unit
  AreRegular (c ∷ cs) = IsRegular c × AreRegular cs

  abbrev pub labelled : String → List (List (TimeValue V)) → Written V
  labelled id = map (λ batch. (id, chunk_of batch))

module _ {V M : Type 0} where
  -- One call on a metric.
  unfoldable pub perform : Call (TimeValue V) → Action (Metric V M (Written V)) (Unit {0})
  perform (sends tv) = send keep_chunk tv
  perform flushes = flush keep_chunk
  perform (resizes n) = modify (set_chunk_size n)

  unfoldable pub perform_all :
      List (Call (TimeValue V)) → Action (Metric V M (Written V)) (Unit {0})
  unfolding perform
  perform_all [] = skip
  perform_all (c ∷ cs) = do perform c; perform_all cs

  -- The metric `m` holds the batcher `b` in encoded form.
  pub record Refines (m : Metric V M (Written V)) (b : Batcher (TimeValue V)) : Type 0 where
    pub size_eq : m.chunk_size ≡ pos b.size
    pub deltas_eq : m.chunk.time_delta ≡ deltas (pos 0) b.pending
    pub values_eq : m.chunk.value ≡ values b.pending
    pub previous_eq : m.previous_timestamp ≡ last_time (pos 0) b.pending
    pub stamps : AreStamps b.pending
    pub written : m.writer ≡ labelled m.id b.batches

  -- The two branches of `flush`.
  pub flush_none :
      (m : Metric V M (Written V))
      → m.chunk.time_delta ≡ []
      → m.chunk.value ≡ []
      → flush keep_chunk m ≡ (ok tt, m)
  unfolding flush
  flush_none m e f = ground arith

  pub flush_some :
      (m : Metric V M (Written V)) (d : ℤ) (ds : List ℤ)
      → m.chunk.time_delta ≡ d ∷ ds
      → sizes_agree m ≡ true
      → flush keep_chunk m
        ≡ (ok tt, clear_chunk (record m { writer = m.writer ++ (m.id, m.chunk) ∷ [] }))
  unfolding flush
  flush_some m d ds e f = ground arith

  pub flush_nonempty :
      (m : Metric V M (Written V)) (tvs : List (TimeValue V)) (tv : TimeValue V)
      → m.chunk.time_delta ≡ deltas (pos 0) (tvs ++ tv ∷ [])
      → sizes_agree m ≡ true
      → flush keep_chunk m
        ≡ (ok tt, clear_chunk (record m { writer = m.writer ++ (m.id, m.chunk) ∷ [] }))
  flush_nonempty m [] tv e f = flush_some m _ _ e f
  flush_nonempty m (x ∷ xs) tv e f = flush_some m _ _ e f

  pub sizes_agree_of :
      (m : Metric V M (Written V)) (tvs : List (TimeValue V))
      → m.chunk.time_delta ≡ deltas (pos 0) tvs
      → m.chunk.value ≡ values tvs
      → sizes_agree m ≡ true
  sizes_agree_of m tvs e f =
      ground (arith, ap length e, ap length f, length-deltas (pos 0) tvs, length-values tvs)

  -- To empty a chunk into the writer is to close the batch.
  pub cleared-Refines :
      (m : Metric V M (Written V)) (b : Batcher (TimeValue V)) (tvs : List (TimeValue V))
      → m.chunk_size ≡ pos b.size
      → m.chunk.time_delta ≡ deltas (pos 0) tvs
      → m.chunk.value ≡ values tvs
      → m.writer ≡ labelled m.id b.batches
      → Refines
          (clear_chunk (record m { writer = m.writer ++ (m.id, m.chunk) ∷ [] }))
          (record b { pending = []; batches = b.batches ++ tvs ∷ [] })
  cleared-Refines m b tvs es ed ev ew = record {
    size_eq = es;
    deltas_eq = refl;
    values_eq = refl;
    previous_eq = refl;
    stamps = tt;
    written = ground (
      arith,
      map-append {B = String × DataChunk V} (λ batch. (m.id, chunk_of batch)) b.batches (tvs ∷ []),
    );
  }

  pub flush-cut :
      (m : Metric V M (Written V)) (b : Batcher (TimeValue V)) (xs : List (TimeValue V))
      → b.pending ≡ xs
      → Refines m b
      → ((flush keep_chunk m).0 ≡ ok tt) × Refines (flush keep_chunk m).1 (cut_pending b xs)
  flush-cut m b [] e r =
      rw (flush_none m (r.deltas_eq ∙ ap (deltas (pos 0)) e) (r.values_eq ∙ ap values e)) (refl, r)
  flush-cut m b (x ∷ xs) e r =
      let ed : m.chunk.time_delta ≡ deltas (pos 0) (x ∷ xs) = r.deltas_eq ∙ ap (deltas (pos 0)) e in
      let ev : m.chunk.value ≡ values (x ∷ xs) = r.values_eq ∙ ap values e in
      rw (flush_some m _ _ ed (sizes_agree_of m (x ∷ xs) ed ev))
        (refl, cleared-Refines m b (x ∷ xs) r.size_eq ed ev r.written)

  -- What `send` has stored when it comes to its test.
  -- A metric keeps its id.
  flush-id : (m : Metric V M (Written V)) → (flush keep_chunk m).1.id ≡ m.id
  unfolding flush
  flush-id m = ground arith

  perform-id : (c : Call (TimeValue V)) (m : Metric V M (Written V)) → (perform c m).1.id ≡ m.id
  unfolding perform send set_chunk_size flush
  perform-id (sends tv) m = ground arith
  perform-id flushes m = flush-id m
  perform-id (resizes n) m = refl

  pub perform_all-id :
      (cs : List (Call (TimeValue V))) (m : Metric V M (Written V)) → (perform_all cs m).1.id ≡ m.id
  unfolding perform_all
  perform_all-id [] m = refl
  perform_all-id (c ∷ cs) m = elim (Result-cases (perform c m).0) [
    | inl (a, e) ↦
        rw (>>-ok (perform c) (perform_all cs) m a e)
          (perform_all-id cs (perform c m).1 ∙ perform-id c m)
    | inr (x, e) ↦ rw (>>=-err (perform c) (λ _. perform_all cs) m x e) (perform-id c m)
  ]
