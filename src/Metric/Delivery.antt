-- ===== src/Metric/Delivery.antt =====
-- End to end, from include/metricq/metric.hpp to include/metricq/types.hpp: what a reader of the
-- written chunks gets.
use metricq_cpp.Prelude.{
  ◌≡◌, refl, ap, sym, ◌∙◌, List, [], ◌∷◌, ◌++◌, String, concat, append-nil, append_assoc, All,
  arith,
}
use metricq_cpp.Prelude.Int.{pos}
use metricq_cpp.Prelude.Outcome.{ok, Action, ◌>>◌, skip, modify}
use metricq_cpp.Chunk.{TimeValue, data_chunk_foreach}
use metricq_cpp.Chunk.Encode.{AreStamps, deltas, for_each, data_chunk_foreach-chunk_of}
use metricq_cpp.Metric.{Metric, new}
use metricq_cpp.Metric.Batches.{
  Batcher, Call, sends, flushes, resizes, apply, apply_all, cut_pending, sent_by, content-apply_all,
}
use metricq_cpp.Metric.Perform.{Written, perform_all, AreRegular, labelled, Refines}
use metricq_cpp.Metric.Refine.{perform_all-Refines, new-Refines}

module _ {V : Type 0} where
  -- The callback of a reader that keeps every point.
  abbrev pub collect : TimeValue V → Action (List (TimeValue V)) (Unit {0})
  collect tv = modify (λ got. got ++ tv ∷ [])

  -- Decode the written chunks one after the other.
  abbrev pub receive : Written V → Action (List (TimeValue V)) (Unit {0})
  receive [] = skip
  receive ((id, dc) ∷ rest) = do data_chunk_foreach collect dc; receive rest

  for_each-collect : (tvs got : List (TimeValue V)) → for_each collect tvs got ≡ (ok tt, got ++ tvs)
  for_each-collect [] got = rw append-nil
  for_each-collect (tv ∷ tvs) got =
      for_each-collect tvs (got ++ tv ∷ []) ∙ rw (append_assoc got (tv ∷ []) tvs)

  receive-labelled :
      (id : String) (batches : List (List (TimeValue V))) (got : List (TimeValue V))
      → All AreStamps batches
      → receive (labelled id batches) got ≡ (ok tt, got ++ concat batches)
  receive-labelled id [] got h = rw append-nil
  receive-labelled id (batch ∷ batches) got h = ground (
    arith,
    data_chunk_foreach-chunk_of collect batch got h.0,
    for_each-collect batch got,
    receive-labelled id batches (got ++ batch) h.1,
    append_assoc got batch (concat batches),
  )

  -- The points of a batcher are the points of its calls, so they are stamps.
  pub AreRegular-sent_by : (cs : List (Call (TimeValue V))) → AreRegular cs → AreStamps (sent_by cs)
  AreRegular-sent_by [] h = tt
  AreRegular-sent_by (sends a ∷ cs) h = (h.0, AreRegular-sent_by cs h.1)
  AreRegular-sent_by (flushes ∷ cs) h = AreRegular-sent_by cs h.1
  AreRegular-sent_by (resizes n ∷ cs) h = AreRegular-sent_by cs h.1

  AreStamps-split :
      (xs ys : List (TimeValue V)) → AreStamps (xs ++ ys) → AreStamps xs × AreStamps ys
  AreStamps-split [] ys h = (tt, h)
  AreStamps-split (x ∷ xs) ys h = let (a, b) = AreStamps-split xs ys h.1 in ((h.0, a), b)

  pub AreStamps-concat :
      (xss : List (List (TimeValue V))) → AreStamps (concat xss) → All AreStamps xss
  AreStamps-concat [] h = tt
  AreStamps-concat (xs ∷ xss) h =
      let (a, b) = AreStamps-split xs (concat xss) h in (a, AreStamps-concat xss b)

  abbrev pub fresh : Batcher (TimeValue V)
  fresh = record { size = 1; pending = []; batches = [] }

  -- The calls, and a last `flush`.
  abbrev pub then_flush : List (Call (TimeValue V)) → List (Call (TimeValue V))
  then_flush cs = cs ++ flushes ∷ []

  pub then_flush-AreRegular :
      (cs : List (Call (TimeValue V))) → AreRegular cs → AreRegular (then_flush cs)
  then_flush-AreRegular [] h = (tt, tt)
  then_flush-AreRegular (c ∷ cs) h = (h.0, then_flush-AreRegular cs h.1)

  sent_by-then_flush : (cs : List (Call (TimeValue V))) → sent_by (then_flush cs) ≡ sent_by cs
  sent_by-then_flush [] = refl
  sent_by-then_flush (sends a ∷ cs) = ap (◌∷◌ a) (sent_by-then_flush cs)
  sent_by-then_flush (flushes ∷ cs) = sent_by-then_flush cs
  sent_by-then_flush (resizes n ∷ cs) = sent_by-then_flush cs

  pending-then_flush :
      (cs : List (Call (TimeValue V))) (b : Batcher (TimeValue V))
      → (apply_all (then_flush cs) b).pending ≡ []
  pending-then_flush [] b = go b.pending refl
    where
      go : (xs : List (TimeValue V)) → b.pending ≡ xs → (cut_pending b xs).pending ≡ []
      go [] e = e
      go (x ∷ xs) e = refl
  pending-then_flush (c ∷ cs) b = pending-then_flush cs (apply c b)

  -- All that a batcher was given is in its batches after a last `flush`.
  pub concat-then_flush :
      (cs : List (Call (TimeValue V)))
      → concat (apply_all (then_flush cs) fresh).batches ≡ sent_by cs
  concat-then_flush cs =
      sym (append-nil (concat b.batches))
      ∙ (ap (◌++◌ (concat b.batches)) (sym (pending-then_flush cs fresh))
          ∙ (content-apply_all (then_flush cs) fresh ∙ sent_by-then_flush cs))
    where
      b : Batcher (TimeValue V)
      b = apply_all (then_flush cs) fresh

module _ {V M : Type 0} where
  -- Whatever calls were made on a new metric, with times from the epoch on and sizes below 2^63:
  -- after a last `flush` all calls have succeeded, no point is left in the chunk, and a reader of
  -- the written chunks gets exactly the points that were sent, in the order of the sending.
  pub receive-perform_all :
      (id : String) (metadata : M) (cs : List (Call (TimeValue V)))
      → AreRegular cs
      → let (r, m) = perform_all (then_flush cs) (new id metadata []) in
        (r ≡ ok tt) × (m.chunk.time_delta ≡ []) × (receive m.writer [] ≡ (ok tt, sent_by cs))
  receive-perform_all id metadata cs h = (run.0, emptied, received)
    where
      m : Metric V M (Written V)
      m = (perform_all (then_flush cs) (new id metadata [])).1

      b : Batcher (TimeValue V)
      b = apply_all (then_flush cs) fresh

      run : ((perform_all (then_flush cs) (new id metadata [])).0 ≡ ok tt) × Refines m b
      run =
          perform_all-Refines (then_flush cs) (new id metadata []) fresh
            (then_flush-AreRegular cs h) (new-Refines id metadata)

      emptied : m.chunk.time_delta ≡ []
      emptied = run.1.deltas_eq ∙ ap (deltas (pos 0)) (pending-then_flush cs fresh)

      stamps : All AreStamps b.batches
      stamps = AreStamps-concat b.batches (rw (concat-then_flush cs) (AreRegular-sent_by cs h))

      received : receive m.writer [] ≡ (ok tt, sent_by cs)
      received =
          rw run.1.written (receive-labelled m.id b.batches [] stamps ∙ rw (concat-then_flush cs))
