-- ===== src/Source/Publish.antt =====
-- What a source of src/source.cpp publishes for a metric.
use metricq_cpp.Prelude.{
  ◌≡◌, refl, ap, sym, ◌∙◌, true, false, List, [], ◌∷◌, ◌++◌, map, append-nil, some, String, str_eq,
  arith, concat, eq_iff,
}
use metricq_cpp.Prelude.Outcome.{Result, ok, err, Action, ◌>>◌, modify, skip}
use metricq_cpp.Chunk.{DataChunk, TimeValue}
use metricq_cpp.Chunk.Encode.{chunk_of}
use metricq_cpp.Json.{Json}
use metricq_cpp.Metadata
use metricq_cpp.Metric
use metricq_cpp.Metric.Batches.{Call, sends, flushes, resizes, apply_all, sent_by}
use metricq_cpp.Metric.Delivery.{fresh, then_flush, then_flush-AreRegular, concat-then_flush}
use metricq_cpp.Metric.Perform.{perform_all, perform_all-id, AreRegular, labelled}
use metricq_cpp.Metric.Refine.{perform_all-Refines, new-Refines}
use metricq_cpp.Table.{lookup, contains, insert_or_keep}
use metricq_cpp.Source.{
  Source, with_writer, publishes, index, on_metric, send_by, flush_by, send_chunk,
}
use metricq_cpp.Source
use metricq_cpp.Source.Mirror.{
  HasChannel, Stored, Kept, perform_by, perform_all_by, publishing, with_metrics,
  perform_all_by-mirrored,
}

-- The batches in which the points of the calls leave a metric that is new.
abbrev pub batches_of : {V : Type 0} → List (Call (TimeValue V)) → List (List (TimeValue V))
batches_of cs = (apply_all (then_flush cs) fresh).batches

-- The messages that carry the batches of a metric.
abbrev pub published :
    {Value V : Type 0}
    → (DataChunk V → String)
    → String
    → String
    → List (List (TimeValue V))
    → List (Source.Call Value)
published serialize exchange id [] = []
published serialize exchange id (batch ∷ batches) =
    publishes exchange id (serialize (chunk_of batch)) ∷ published serialize exchange id batches

module _ {j : Json} {A V : Type 0} (serialize : DataChunk V → String) where
  module _ (id : String) (s : Source j A V) (new_metric : contains id s.metrics ≡ false) where
    abbrev made : Kept j V
    made = Metric.new id (Metadata.new j) []

    abbrev stored : Stored j V
    stored = (id, with_writer tt made) ∷ s.metrics

    map-published :
        (batches : List (List (TimeValue V)))
        → map (publishing serialize s) (labelled id batches)
          ≡ published serialize s.data_exchange id batches
    map-published [] = refl
    map-published (batch ∷ batches) =
        ap (◌∷◌ (publishing serialize s (id, chunk_of batch))) (map-published batches)

    same_id : str_eq id id ≡ true
    same_id = ground (arith, eq_iff id id)

    index-made : index id s ≡ with_metrics serialize s stored []
    unfolding index insert_or_keep Metric.new
    index-made = rw (new_metric, append-nil s.calls) refl

    index-again : index id (with_metrics serialize s stored []) ≡ with_metrics serialize s stored []
    unfolding index insert_or_keep contains
    index-again = rw same_id refl

    -- The first call makes the metric.
    perform_by-made :
        (c : Call (TimeValue V))
        → perform_by serialize id c s
          ≡ perform_by serialize id c (with_metrics serialize s stored [])
    unfolding perform_by
    perform_by-made (sends tv) =
        ap (on_metric (Metric.send (send_chunk serialize) tv) id) (index-made ∙ sym index-again)
    perform_by-made flushes =
        ap (on_metric (Metric.flush (send_chunk serialize)) id) (index-made ∙ sym index-again)
    perform_by-made (resizes n) =
        ap (on_metric (modify (Metric.set_chunk_size n)) id) (index-made ∙ sym index-again)

    first-made :
        (c : Call (TimeValue V)) (k : Action (Source j A V) (Unit {0}))
        → (perform_by serialize id c >> k) s
          ≡ (perform_by serialize id c >> k) (with_metrics serialize s stored [])
    first-made c k =
        ap
          (λ (r : Result (Unit {0}) × Source j A V). elim r.0 [
            | ok a ↦ k r.1
            | err e ↦ (err e, r.1)
          ])
          (perform_by-made c)

    perform_all_by-made :
        (cs : List (Call (TimeValue V)))
        → perform_all_by serialize id (then_flush cs) s
          ≡ perform_all_by serialize id (then_flush cs) (with_metrics serialize s stored [])
    unfolding perform_all_by
    perform_all_by-made [] = first-made flushes skip
    perform_all_by-made (c ∷ cs) = first-made c (perform_all_by serialize id (then_flush cs))

    lookup-stored : lookup id stored ≡ some (with_writer tt made)
    unfolding lookup
    lookup-stored = rw same_id refl

    -- For a source with a data channel, and whatever calls are made on a metric that it does not have yet,
    -- with times from the epoch on and sizes below 2^63, and a last `flush`: all succeed, and the source has published, one
    -- message for each, batches of points that are together the points that were sent, in the order of
    -- the sending.
    pub perform_all_by-published :
        (cs : List (Call (TimeValue V)))
        → HasChannel serialize s
        → AreRegular cs
        → let (r, s') = perform_all_by serialize id (then_flush cs) s in
          (r ≡ ok tt)
          × (s'.calls ≡ s.calls ++ published serialize s.data_exchange id (batches_of cs))
          × (concat (batches_of cs) ≡ sent_by cs)
    unfolding Metric.new
    perform_all_by-published cs opened h =
        let calls = then_flush cs in
        let (done, refines) =
          perform_all-Refines calls made fresh (then_flush-AreRegular cs h)
            (new-Refines id (Metadata.new j)) in
        let kept = (perform_all calls made).1 in
        let (ms, mirrored) =
          perform_all_by-mirrored serialize s id calls stored made opened lookup-stored done in
        let run = perform_all_by-made cs ∙ mirrored in
        (
          ap (λ p. p.0) run,
          ap (λ p. p.1.calls) run
              ∙ ap (λ w. s.calls ++ map (publishing serialize s) w) refines.written
              ∙ ap (λ i. s.calls ++ map (publishing serialize s) (labelled i (batches_of cs)))
                  (perform_all-id calls made)
              ∙ ap (◌++◌ s.calls) (map-published (batches_of cs)),
          concat-then_flush cs,
        )
