-- ===== src/Metric/Refine.antt =====
-- The metric of include/metricq/metric.hpp, with a writer that keeps what it is given, implements
-- the batcher.
use metricq_cpp.Prelude.{
  ℕ, ◌==◌, ◌≡◌, refl, ap, sym, ◌∙◌, List, [], ◌∷◌, ◌++◌, String, length, length-append, arith, true,
  Bool-cases, inl, inr,
}
use metricq_cpp.Prelude.Int.{pos, ◌-ℤ◌}
use metricq_cpp.Prelude.Outcome.{ok, when, >>-ok, sub_int64}
use metricq_cpp.Chunk.{TimeValue}
use metricq_cpp.Chunk.Encode.{
  IsStamp, deltas, values, sub_int64-IsStamp, deltas-append, values-append, last_time-append,
  last_time-IsStamp, AreStamps-append, length-deltas,
}
use metricq_cpp.Metric.{
  Metric, new, set_chunk_size, flush, send, sizes_agree, is_full, clear_chunk, add_time_delta,
  add_value,
}
use metricq_cpp.Metric.Batches.{Batcher, Call, sends, flushes, resizes, apply, apply_all, push}
use metricq_cpp.Metric.Perform.{
  Written, keep_chunk, IsRegular, AreRegular, perform, perform_all, Refines, flush_nonempty,
  sizes_agree_of, cleared-Refines, flush-cut,
}

module _ {V M : Type 0} where
  stored : TimeValue V → Metric V M (Written V) → Metric V M (Written V)
  stored tv m =
      add_value tv.value (record (add_time_delta (tv.time -ℤ m.previous_timestamp) m) {
        previous_timestamp = tv.time;
      })

  send-stored :
      (m : Metric V M (Written V)) (tv : TimeValue V)
      → sub_int64 tv.time m.previous_timestamp ≡ ok (tv.time -ℤ m.previous_timestamp)
      → sizes_agree (stored tv m) ≡ true
      → send keep_chunk tv m ≡ when (is_full (stored tv m)) (flush keep_chunk) (stored tv m)
  unfolding send stored
  send-stored m tv e f = ground arith

  stored-size :
      (m : Metric V M (Written V)) (b : Batcher (TimeValue V)) (tv : TimeValue V)
      → Refines m b
      → (stored tv m).chunk.time_delta ≡ deltas (pos 0) (b.pending ++ tv ∷ [])
  unfolding stored
  stored-size m b tv r = rw (deltas-append, r.deltas_eq, r.previous_eq)

  stored-values :
      (m : Metric V M (Written V)) (b : Batcher (TimeValue V)) (tv : TimeValue V)
      → Refines m b
      → (stored tv m).chunk.value ≡ values (b.pending ++ tv ∷ [])
  unfolding stored
  stored-values m b tv r = rw (values-append, r.values_eq)

  stored-Refines :
      (m : Metric V M (Written V)) (b : Batcher (TimeValue V)) (tv : TimeValue V)
      → IsStamp tv.time
      → Refines m b
      → Refines (stored tv m) (record b { pending = b.pending ++ tv ∷ [] })
  unfolding stored
  stored-Refines m b tv h r = record {
    size_eq = r.size_eq;
    deltas_eq = stored-size m b tv r;
    values_eq = stored-values m b tv r;
    previous_eq = sym (last_time-append (pos 0) b.pending tv);
    stamps = AreStamps-append b.pending (tv ∷ []) r.stamps (h, tt);
    written = r.written;
  }

  -- The test of `send` is the test of the batcher.
  is_full-length :
      (m : Metric V M (Written V)) (n : ℕ) (tvs : List (TimeValue V)) (tv : TimeValue V)
      → m.chunk_size ≡ pos n
      → m.chunk.time_delta ≡ deltas (pos 0) (tvs ++ tv ∷ [])
      → is_full m ≡ (length (tvs ++ tv ∷ []) == n)
  is_full-length m n tvs tv e f =
      ground
        (arith, ap length f, length-deltas (pos 0) (tvs ++ tv ∷ []), length-append tvs (tv ∷ []))

  send-push :
      (m : Metric V M (Written V)) (b : Batcher (TimeValue V)) (tv : TimeValue V)
      → IsStamp tv.time
      → Refines m b
      → ((send keep_chunk tv m).0 ≡ ok tt) × Refines (send keep_chunk tv m).1 (push tv b)
  send-push m b tv h r =
      rw (send-stored m tv delta_ok agree)
        (elim (Bool-cases (length (b.pending ++ tv ∷ []) == b.size)) [
          | inl e ↦
              rw (full ∙ e, e, flush_some_stored)
                (
                  refl,
                  cleared-Refines (stored tv m) b (b.pending ++ tv ∷ []) held.size_eq held.deltas_eq
                      held.values_eq held.written,
                )
          | inr e ↦ rw (full ∙ e, e) (refl, held)
        ])
    where
      held : Refines (stored tv m) (record b { pending = b.pending ++ tv ∷ [] })
      held = stored-Refines m b tv h r

      agree : sizes_agree (stored tv m) ≡ true
      agree = sizes_agree_of (stored tv m) (b.pending ++ tv ∷ []) held.deltas_eq held.values_eq

      full : is_full (stored tv m) ≡ (length (b.pending ++ tv ∷ []) == b.size)
      full = is_full-length (stored tv m) b.size b.pending tv held.size_eq held.deltas_eq

      delta_ok : sub_int64 tv.time m.previous_timestamp ≡ ok (tv.time -ℤ m.previous_timestamp)
      delta_ok = sub_int64-IsStamp tv.time m.previous_timestamp h (
          rw r.previous_eq (
            last_time-IsStamp (pos 0) b.pending (omega arith, (omega arith, omega arith)) r.stamps))

      flush_some_stored : flush keep_chunk (stored tv m) ≡ (
        ok tt,
        clear_chunk (record (stored tv m) {
          writer = (stored tv m).writer ++ ((stored tv m).id, (stored tv m).chunk) ∷ [];
        }),
      )
      flush_some_stored = flush_nonempty (stored tv m) b.pending tv held.deltas_eq agree

  perform-Refines :
      (c : Call (TimeValue V)) (m : Metric V M (Written V)) (b : Batcher (TimeValue V))
      → IsRegular c
      → Refines m b
      → ((perform c m).0 ≡ ok tt) × Refines (perform c m).1 (apply c b)
  unfolding perform set_chunk_size
  perform-Refines (sends tv) m b h r = send-push m b tv h r
  perform-Refines flushes m b h r = flush-cut m b b.pending refl r
  perform-Refines (resizes n) m b h r = (
    refl,
    record {
      size_eq = ground arith;
      deltas_eq = r.deltas_eq;
      values_eq = r.values_eq;
      previous_eq = r.previous_eq;
      stamps = r.stamps;
      written = r.written;
    },
  )

  -- Any sequence of sends, flushes and size changes with times from the epoch on and sizes below
  -- 2^63 succeeds, and leaves the metric in the encoded form of the batcher that made the same
  -- calls.
  pub perform_all-Refines :
      (cs : List (Call (TimeValue V))) (m : Metric V M (Written V)) (b : Batcher (TimeValue V))
      → AreRegular cs
      → Refines m b
      → ((perform_all cs m).0 ≡ ok tt) × Refines (perform_all cs m).1 (apply_all cs b)
  unfolding perform_all
  perform_all-Refines [] m b h r = (refl, r)
  perform_all-Refines (c ∷ cs) m b h r =
      let (done, held) = perform-Refines c m b h.0 r in
      let (done', held') = perform_all-Refines cs (perform c m).1 (apply c b) h.1 held in
      rw (>>-ok (perform c) (perform_all cs) m tt done) (done', held')

  -- A new metric is the empty batcher of size 1.
  pub new-Refines :
      (id : String) (metadata : M)
      → Refines {V = V} (new id metadata []) (record { size = 1; pending = []; batches = [] })
  unfolding new
  new-Refines id metadata = record {
    size_eq = refl;
    deltas_eq = refl;
    values_eq = refl;
    previous_eq = refl;
    stamps = tt;
    written = refl;
  }
