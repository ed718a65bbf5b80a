-- ===== src/Source/Mirror.antt =====
-- A metric that a source of src/source.cpp writes for, beside the same metric with a writer that keeps
-- its chunks.
use metricq_cpp.Prelude.{
  ◌==◌, ◌≡◌, refl, ap, sym, ◌∙◌, inl, inr, true, List, [], ◌∷◌, ◌++◌, map, map-append, append_assoc,
  some, String, length, Bool-cases, arith,
}
use metricq_cpp.Prelude.Int.{ℤ}
use metricq_cpp.Prelude.Outcome.{
  Result, ok, Action, ◌>>◌, skip, modify, sub_int64, Result-cases, >>-step, >>-inv,
}
use metricq_cpp.Chunk.{DataChunk, TimeValue}
use metricq_cpp.Json.{Json}
use metricq_cpp.Metadata.{Metadata}
use metricq_cpp.Metric.{
  Metric, write_chunk, flush, send, set_chunk_size, sizes_agree, is_full, clear_chunk,
  add_time_delta, add_value,
}
use metricq_cpp.Metric.Batches.{Call, sends, flushes, resizes}
use metricq_cpp.Metric.Perform.{Written, keep_chunk, perform, perform_all}
use metricq_cpp.Table.{lookup, contains, update, insert_or_keep, contains-lookup, lookup-updated}
use metricq_cpp.Source.{
  Source, with_writer, publishes, call, send_chunk, index, on_metric, send_by, flush_by,
}
use metricq_cpp.Source

-- The metrics of a source, and a metric whose writer keeps its chunks.
abbrev pub Stored : Json → Type 0 → Type 0
Stored j V = List (String × Metric V (Metadata j) (Unit {0}))

abbrev pub Kept : Json → Type 0 → Type 0
Kept j V = Metric V (Metadata j) (Written V)

module _ {j : Json} {A V : Type 0} (serialize : DataChunk V → String) where
  -- One call on the metric `id` of a source.
  unfoldable pub perform_by : String → Call (TimeValue V) → Action (Source j A V) (Unit {0})
  unfolding send_by flush_by index on_metric
  perform_by id (sends tv) = send_by serialize id tv
  perform_by id flushes = flush_by serialize id
  perform_by id (resizes n) = modify (index id) >> on_metric (modify (set_chunk_size n)) id

  unfoldable pub perform_all_by :
      String → List (Call (TimeValue V)) → Action (Source j A V) (Unit {0})
  unfolding perform_by
  perform_all_by id [] = skip
  perform_all_by id (c ∷ cs) = perform_by id c >> perform_all_by id cs

  module _ (s₀ : Source j A V) where
    abbrev pub publishing : (String × DataChunk V) → Source.Call j.Value
    publishing (id, dc) = publishes s₀.data_exchange id (serialize dc)

    -- The source once it has published what the other writer keeps.
    abbrev pub after_sending : Written V → Source j A V
    after_sending w = record s₀ { calls = s₀.calls ++ map publishing w }

    abbrev in_source : Kept j V → Metric V (Metadata j) (Source j A V)
    in_source m = with_writer (after_sending m.writer) m

    -- With a data channel every chunk is published.
    abbrev pub HasChannel : Type 0
    HasChannel = (address : A) × (s₀.data_server_address ≡ some address)

    send_chunk-publishes :
        (id : String) (dc : DataChunk V) (cs : List (Source.Call j.Value))
        → HasChannel
        → send_chunk serialize id dc (record s₀ { calls = cs })
          ≡ (ok tt, record s₀ { calls = cs ++ publishing (id, dc) ∷ [] })
    unfolding send_chunk
    send_chunk-publishes id dc cs (address, e) = ground (arith, e)

    flush-in_source :
        (m : Kept j V)
        → HasChannel
        → flush (send_chunk serialize) (in_source m)
          ≡ let (r, m') = flush keep_chunk m in (r, in_source m')
    unfolding flush
    flush-in_source m opened = elim (Bool-cases (sizes_agree m)) [
      | inr e ↦ rw e refl
      | inl e ↦ elim (Bool-cases (length m.chunk.time_delta == 0)) [
        | inl f ↦ rw (e, f) refl
        | inr f ↦
            rw (e, f)
              (>>-step (write_chunk (send_chunk serialize)) (modify clear_chunk) (in_source m) tt
                  (with_writer (sent_by m) m)
                  (ap (λ p. (p.0, with_writer p.1 m))
                    (send_chunk-publishes m.id m.chunk (s₀.calls ++ map publishing m.writer)
                      opened))
                ∙ ap (λ cs. (ok tt, in_source_with cs)) calls_of)
      ]
    ]
      where
        sent_by : Kept j V → Source j A V
        sent_by m' = record s₀ {
          calls = (s₀.calls ++ map publishing m'.writer) ++ publishing (m'.id, m'.chunk) ∷ [];
        }

        in_source_with : List (Source.Call j.Value) → Metric V (Metadata j) (Source j A V)
        in_source_with cs = with_writer (record s₀ { calls = cs }) (clear_chunk m)

        calls_of :
            (s₀.calls ++ map publishing m.writer) ++ publishing (m.id, m.chunk) ∷ []
            ≡ s₀.calls ++ map publishing (m.writer ++ (m.id, m.chunk) ∷ [])
        calls_of =
            append_assoc s₀.calls (map publishing m.writer) (publishing (m.id, m.chunk) ∷ [])
            ∙ ap (◌++◌ s₀.calls) (sym (map-append publishing m.writer ((m.id, m.chunk) ∷ [])))

    -- The metric when a point has been added.
    abbrev added : TimeValue V → ℤ → Kept j V → Kept j V
    added tv delta m =
        add_value tv.value (record (add_time_delta delta m) { previous_timestamp = tv.time })

    send-in_source :
        (tv : TimeValue V) (m : Kept j V)
        → HasChannel
        → send (send_chunk serialize) tv (in_source m)
          ≡ let (r, m') = send keep_chunk tv m in (r, in_source m')
    unfolding send
    send-in_source tv m opened = elim (Result-cases (sub_int64 tv.time m.previous_timestamp)) [
      | inr (x, e) ↦ rw e refl
      | inl (delta, e) ↦ elim (Bool-cases (sizes_agree (added tv delta m))) [
        | inr f ↦ rw (e, f) refl
        | inl f ↦ elim (Bool-cases (is_full (added tv delta m))) [
          | inr g ↦ rw (e, f, g) refl
          | inl g ↦ rw (e, f, g) (flush-in_source (added tv delta m) opened)
        ]
      ]
    ]

  module _ (s₀ : Source j A V) where
    -- The source with other metrics, once it has published what the other writer keeps.
    abbrev pub with_metrics : Stored j V → Written V → Source j A V
    with_metrics ms w = after_sending (record s₀ { metrics = ms }) w

    -- The source with the metric that a call leaves, beside the result of the call.
    abbrev mirrored :
        String → Stored j V → Result (Unit {0}) × Kept j V → Result (Unit {0}) × Source j A V
    mirrored id ms (r, m') = (r, with_metrics (update id (with_writer tt m') ms) m'.writer)

    index-known :
        (id : String) (ms : Stored j V) (w : Written V)
        → contains id ms ≡ true
        → index id (with_metrics ms w) ≡ with_metrics ms w
    unfolding index insert_or_keep
    index-known id ms w h = rw h refl

    module _ (id : String) (ms : Stored j V) (m : Kept j V)
        (found : lookup id ms ≡ some (with_writer tt m)) where
      on_metric-mirrored :
          (method : Action (Metric V (Metadata j) (Source j A V)) (Unit {0}))
          (kept : Action (Kept j V) (Unit {0}))
          → method (with_writer (with_metrics ms m.writer) m)
            ≡ (let (r, m') = kept m in (r, with_writer (with_metrics ms m'.writer) m'))
          → on_metric method id (with_metrics ms m.writer) ≡ mirrored id ms (kept m)
      unfolding on_metric lookup update
      on_metric-mirrored method kept h = rw (found, h) refl

      indexed-mirrored :
          (method : Action (Metric V (Metadata j) (Source j A V)) (Unit {0}))
          (kept : Action (Kept j V) (Unit {0}))
          → method (with_writer (with_metrics ms m.writer) m)
            ≡ (let (r, m') = kept m in (r, with_writer (with_metrics ms m'.writer) m'))
          → (modify (index id) >> on_metric method id) (with_metrics ms m.writer)
            ≡ mirrored id ms (kept m)
      indexed-mirrored method kept h =
          let known = contains-lookup id ms (with_writer tt m) found in
          ap (on_metric method id) (index-known id ms m.writer known)
          ∙ on_metric-mirrored method kept h

      perform_by-mirrored :
          (c : Call (TimeValue V))
          → HasChannel s₀
          → perform_by id c (with_metrics ms m.writer) ≡ mirrored id ms (perform c m)
      unfolding perform_by perform set_chunk_size
      perform_by-mirrored (sends tv) opened =
          indexed-mirrored (send (send_chunk serialize) tv) (send keep_chunk tv)
            (send-in_source (record s₀ { metrics = ms }) tv m opened)
      perform_by-mirrored flushes opened =
          indexed-mirrored (flush (send_chunk serialize)) (flush keep_chunk)
            (flush-in_source (record s₀ { metrics = ms }) m opened)
      perform_by-mirrored (resizes n) opened =
          indexed-mirrored (modify (set_chunk_size n)) (modify (set_chunk_size n)) refl

    -- Calls that succeed with the other writer succeed on the source, which publishes what that one
    -- has kept.
    pub perform_all_by-mirrored :
        (id : String) (cs : List (Call (TimeValue V))) (ms : Stored j V) (m : Kept j V)
        → HasChannel s₀
        → lookup id ms ≡ some (with_writer tt m)
        → (perform_all cs m).0 ≡ ok tt
        → (ms' : Stored j V) × (perform_all_by id cs (with_metrics ms m.writer)
            ≡ (ok tt, with_metrics ms' (perform_all cs m).1.writer))
    unfolding perform_all_by perform_all
    perform_all_by-mirrored id [] ms m opened found h = (ms, refl)
    perform_all_by-mirrored id (c ∷ cs) ms m opened found h =
        let (_, done, rest) = >>-inv (perform c) (perform_all cs) m tt h in
        let ms' = update id (with_writer tt (perform c m).1) ms in
        let (ms'', later) =
          perform_all_by-mirrored id cs ms' (perform c m).1 opened (lookup-updated id _ _ ms found)
            (sym (ap (λ p. p.0) rest) ∙ h) in
        (
          ms'',
          >>-step (perform_by id c) (perform_all_by id cs) (with_metrics ms m.writer) tt
                (with_metrics ms' (perform c m).1.writer)
                (perform_by-mirrored id ms m found c opened
                  ∙ ap (λ r. (r, with_metrics ms' (perform c m).1.writer)) done)
              ∙ later
              ∙ ap (λ p. (ok tt, with_metrics ms'' p.1.writer)) (sym rest),
        )
