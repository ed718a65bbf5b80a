-- ===== src/Source/Declare.antt =====
-- What `Source::declare_metrics` of src/source.cpp tells the manager.
use metricq_cpp.Prelude.{
  ◌≡◌, refl, ◌∙◌, subst, inl, inr, Bool, true, false, List, [], ◌∷◌, Option, none, some, String,
  str_eq, if◌then◌else◌, arith, eq_iff, All, Bool-cases,
}
use metricq_cpp.Prelude.Int.{ℤ}
use metricq_cpp.Prelude.Outcome.{Result, ok}
use metricq_cpp.Json.{Json}
use metricq_cpp.Metadata
use metricq_cpp.Metadata.{Metadata}
use metricq_cpp.Metadata.Entries.{IsObject, chunk_size-set_chunk_size}
use metricq_cpp.Metric.{Metric}
use metricq_cpp.Table.{lookup, contains}
use metricq_cpp.Source.{
  Source, call, requests, declared_metadata, put_metric, declare_each, declare_metrics,
}
use metricq_cpp.Source.Payload.{Payload, Put, put_metric-null, put_metric-Payload}

module _ (j : Json) where
  open j use {Value, is_object, at, put}

  module _ {V W : Type 0} where
    -- The metadata are an object with a chunk size that can be read, if any.
    abbrev pub IsReadable : Metric V (Metadata j) W → Type 0
    IsReadable m =
        IsObject j m.metadata × ((x : j.Number) × (Metadata.chunk_size j m.metadata ≡ ok x))

    -- The metadata have a chunk size.
    abbrev pub IsSized : Metric V (Metadata j) W → Type 0
    IsSized m = (x : j.Number) × (Metadata.chunk_size j m.metadata ≡ ok x) × (j.is_nan x ≡ false)

    -- Every metric stands under its own id, and once only.
    abbrev pub AreNamed : List (String × Metric V (Metadata j) W) → Type 0
    AreNamed [] = Unit
    AreNamed ((key, m) ∷ ms) = (m.id ≡ key) × (contains key ms ≡ false) × AreNamed ms

    -- What is told of a metric, if there is one, is its metadata.
    abbrev pub Tells : Option (Metric V (Metadata j) W) → Result Value → Type 0
    Tells none r = Unit
    Tells (some m) r = r ≡ ok m.metadata.metadata

    -- What becomes of a metric: it stays as it is where its metadata have a chunk size, and otherwise only
    -- its metadata change, which get its own chunk size (a size of 0 reads as 0).
    abbrev pub Completed : Metric V (Metadata j) W → Metric V (Metadata j) W → Type 0
    Completed m m' =
        (x : j.Number) × (Metadata.chunk_size j m.metadata ≡ ok x)
        × (j.is_nan x ≡ false → m' ≡ m)
        × (j.is_nan x ≡ true
            → (m' ≡ record m { metadata = m'.metadata })
              × (Metadata.set_chunk_size j (j.of_int64 m.chunk_size) m.metadata ≡ ok m'.metadata)
              × (Metadata.chunk_size j m'.metadata
                  ≡ ok (
                      if j.is_zero (j.of_int64 m.chunk_size)
                      then j.zero_number
                      else j.of_int64 m.chunk_size)))

    -- All metrics of one list are completed in the other, in the same places.
    pub data AreCompleted
        : List (String × Metric V (Metadata j) W)
          → List (String × Metric V (Metadata j) W)
          → Type 0 where
      no_metrics : AreCompleted [] []
      one_more :
          {key : String} {m m' : Metric V (Metadata j) W}
          {ms ms' : List (String × Metric V (Metadata j) W)}
          → Completed m m'
          → AreCompleted ms ms'
          → AreCompleted ((key, m) ∷ ms) ((key, m') ∷ ms')

    declared_metadata_lem :
        (m : Metric V (Metadata j) W)
        → IsReadable m
        → (m' : Metric V (Metadata j) W) × (declared_metadata j m ≡ (ok m'.metadata.metadata, m'))
          × IsSized m'
          × Completed m m'
    unfolding declared_metadata
    declared_metadata_lem m (object, (x, e)) = elim (Bool-cases (j.is_nan x)) [
      | inr set ↦ (m, ground arith, (x, e, set), (x, e, (λ _. refl), λ unset. absurd (cc)))
      | inl unset ↦
          let (d', f, _, g, _, _) =
            chunk_size-set_chunk_size j (j.of_int64 m.chunk_size) m.metadata object in
          (
            record m { metadata = d' },
            ground arith,
            (_, g, is_nan-size (j.is_zero (j.of_int64 m.chunk_size)) m.chunk_size),
            (x, e, (λ set. absurd (cc)), λ _. (refl, f, g)),
          )
    ]
      where
        is_nan-size :
            (zero : Bool) (i : ℤ) → j.is_nan (if zero then j.zero_number else j.of_int64 i) ≡ false
        is_nan-size true i = j.is_nan-zero_number
        is_nan-size false i = j.is_nan-of_int64 i

    -- What the loop has done with the metrics `ms`, from the metrics `told` of a payload on.
    abbrev Declared :
        List (String × Metric V (Metadata j) W)
        → Value
        → Result Value × List (String × Metric V (Metadata j) W)
        → Type 0
    Declared ms told r =
        (p' m' : Value) × (ms' : List (String × Metric V (Metadata j) W)) × (r ≡ (ok p', ms'))
        × Payload j p' m'
        × ((k : String) → contains k ms ≡ false → at m' k ≡ at told k)
        × ((k : String) → Tells (lookup k ms') (at m' k))
        × All (λ (e : String × Metric V (Metadata j) W). IsSized e.1) ms'
        × AreCompleted ms ms'

    -- One more metric before those of the rest of the loop.
    Tells-first :
        (key : String) (m : Metric V (Metadata j) W) (ms : List (String × Metric V (Metadata j) W))
        (metrics : Value)
        → at metrics key ≡ ok m.metadata.metadata
        → ((k : String) → Tells (lookup k ms) (at metrics k))
        → (k : String) → Tells (lookup k ((key, m) ∷ ms)) (at metrics k)
    unfolding lookup
    Tells-first key m ms metrics first rest k = elim (Bool-cases (str_eq key k)) [
      | inl e ↦
          let same : key ≡ k = (eq_iff key k).0 e in
          rw e (subst (λ i. at metrics i ≡ ok m.metadata.metadata) same first)
      | inr e ↦ rw e (rest k)
    ]

    -- The loop on one more metric, whatever the payload, where the rest is known for every payload.
    declare_first :
        (key : String) (m : Metric V (Metadata j) W) (ms : List (String × Metric V (Metadata j) W))
        (p told : Value)
        → m.id ≡ key
        → contains key ms ≡ false
        → IsReadable m
        → ((entry : Value) → Put j m.id entry told (put_metric j m.id entry p))
        → ((p' told' : Value) → Payload j p' told' → Declared ms told' (declare_each j p' ms))
        → Declared ((key, m) ∷ ms) told (declare_each j p ((key, m) ∷ ms))
    unfolding declare_each contains
    declare_first key m ms p told named once readable puts later =
        let (m', e, sized, completed) = declared_metadata_lem m readable in
        let (p₁, told₁, f, payload, at₁) = puts m'.metadata.metadata in
        let (p₂, told₂, ms', g, payload', others, tells, all_sized, all_completed) =
          later p₁ told₁ payload in
        let own : at told₂ key ≡ ok m'.metadata.metadata =
          others key once ∙ ground (arith, at₁ key, eq_iff m.id key) in
        (
          p₂,
          told₂,
          (key, m') ∷ ms',
          ground arith,
          payload',
          (λ k h. others k (ground arith) ∙ ground (arith, at₁ k, eq_iff m.id k, eq_iff key k)),
          Tells-first key m' ms' told₂ own tells,
          (sized, all_sized),
          one_more completed all_completed,
        )

    declare_each_lem :
        (ms : List (String × Metric V (Metadata j) W)) (p told : Value)
        → Payload j p told
        → AreNamed ms
        → All (λ (e : String × Metric V (Metadata j) W). IsReadable e.1) ms
        → Declared ms told (declare_each j p ms)
    unfolding declare_each lookup
    declare_each_lem [] p told payload named readable =
        (p, told, [], refl, payload, (λ k h. refl), (λ k. tt), tt, no_metrics)
    declare_each_lem ((key, m) ∷ ms) p told payload named readable =
        declare_first key m ms p told named.0 named.1 readable.0
          (λ entry. put_metric-Payload j m.id entry p told payload)
          (λ p' told' payload'. declare_each_lem ms p' told' payload' named.2 readable.1)

    declare_each-null :
        (key : String) (m : Metric V (Metadata j) W) (ms : List (String × Metric V (Metadata j) W))
        → AreNamed ((key, m) ∷ ms)
        → All (λ (e : String × Metric V (Metadata j) W). IsReadable e.1) ((key, m) ∷ ms)
        → Declared ((key, m) ∷ ms) j.object (declare_each j j.null ((key, m) ∷ ms))
    declare_each-null key m ms named readable =
        declare_first key m ms j.null j.object named.0 named.1 readable.0 (put_metric-null j m.id)
          (λ p' told' payload'. declare_each_lem ms p' told' payload' named.2 readable.1)

module _ {j : Json} {A V : Type 0} where
  open j use {Value, at}

  -- Where every metric stands under its own id, once only, and has metadata that are an object with a
  -- chunk size that can be read, if any: with at least one metric, `declare_metrics` succeeds and sends
  -- one call, whose payload has under "metrics" for every metric, by its id, the metadata that it has
  -- afterwards; all these have a chunk size. The metrics are those of before, in the same places: one whose
  -- metadata had a chunk size is unchanged, and of any other only the metadata have changed, which have got
  -- its own chunk size.
  pub declare_metrics-Tells :
      (key : String) (m : Metric V (Metadata j) (Unit {0}))
      (ms : List (String × Metric V (Metadata j) (Unit {0}))) (s : Source j A V)
      → s.metrics ≡ (key, m) ∷ ms
      → AreNamed j ((key, m) ∷ ms)
      → All (λ (e : String × Metric V (Metadata j) (Unit {0})). IsReadable j e.1) ((key, m) ∷ ms)
      → (payload told : Value) × (ms' : List (String × Metric V (Metadata j) (Unit {0})))
        × (declare_metrics s ≡ (
          ok tt,
          call (requests "source.declare_metrics" payload) (record s { metrics = ms' }),
        ))
        × (at payload "metrics" ≡ ok told)
        × ((k : String) → Tells j (lookup k ms') (at told k))
        × All (λ (e : String × Metric V (Metadata j) (Unit {0})). IsSized j e.1) ms'
        × AreCompleted j ((key, m) ∷ ms) ms'
  unfolding declare_metrics
  declare_metrics-Tells key m ms s these named readable =
      let (payload, told, ms', e, held, _, tells, sized, completed) =
        declare_each-null j key m ms named readable in
      (payload, told, ms', ground arith, held.metrics_at, tells, sized, completed)
