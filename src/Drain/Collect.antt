-- ===== src/Drain/Collect.antt =====
-- What a `SimpleDrain` of include/metricq/simple_drain.hpp holds once its messages have come.
use metricq_cpp.Prelude.{
  ℕ, ◌≡◌, refl, ap, sym, ◌∙◌, inl, inr, Bool, true, List, [], ◌∷◌, ◌++◌, append_assoc, append-nil,
  Option, none, some, String, str_eq, if◌then◌else◌, arith, eq_iff, All, Bool-cases,
}
use mathlib.Core.Option
use metricq_cpp.Prelude.Outcome.{ok, Action, ◌>>◌, skip, >>-step, modify}
use metricq_cpp.Chunk.{DataChunk, TimeValue, range_for, time_value}
use metricq_cpp.Chunk.Encode.{AreStamps, chunk_of, for_each, data_chunk_foreach-chunk_of}
use metricq_cpp.Chunk.Iterate.{range_for-foreach}
use metricq_cpp.Json.{Json}
use metricq_cpp.Table.{
  lookup, contains, update, update-same, update-update, lookup-update, contains-lookup,
  contains-update, lookup-contains, lookup-updated,
}
use metricq_cpp.Sink.{Call, call, acks}
use metricq_cpp.Drain.{Drain, Message, at, emplace_back, keep_chunk, on_data, on_sink}

-- The points of one message.
pub record Batch (V : Type 0) : Type 0 where
  pub id : String
  pub points : List (TimeValue V)
  pub tag : ℕ

-- The parser reads a chunk as it was written.
abbrev pub IsRead :
    {V : Type 0} → (String → DataChunk V) → (DataChunk V → String) → DataChunk V → Type 0
IsRead parse serialize c = parse (serialize c) ≡ c

-- The message that carries the points of a batch.
abbrev pub carrier : {V : Type 0} → (DataChunk V → String) → Batch V → Message
carrier serialize b = record {
  type_name = "";
  delivery = record {
    routingkey = b.id;
    body = serialize (chunk_of b.points);
    delivery_tag = b.tag;
  };
}

-- The points of a metric, in the order of the messages.
abbrev pub points_of : {V : Type 0} → String → List (Batch V) → List (TimeValue V)
points_of id [] = []
points_of id (b ∷ bs) =
    let rest = points_of id bs in if str_eq b.id id then b.points ++ rest else rest

-- What the drain acknowledges.
abbrev pub acks_of : {V : Type 0} → List (Batch V) → List Call
acks_of [] = []
acks_of (b ∷ bs) = acks b.tag ∷ acks_of bs

map-append-nil : {A : Type 0} (o : Option (List A)) → o ≡ Option.map (λ xs. xs ++ []) o
map-append-nil none = refl
map-append-nil (some xs) = rw (append-nil xs) refl

module _ {j : Json} {A V : Type 0} where
  abbrev with_points : String → List (TimeValue V) → Drain j A V → Drain j A V
  with_points id tvs s = record s { points = update id tvs s.points }

  at_lem :
      (id : String) (s : Drain j A V) (old : List (TimeValue V))
      → lookup id s.points ≡ some old
      → at id s ≡ (ok old, s)
  unfolding at
  at_lem id s old h = ground arith

  emplace_back_lem :
      (id : String) (tv : TimeValue V) (s : Drain j A V) (old : List (TimeValue V))
      → lookup id s.points ≡ some old
      → emplace_back id tv s ≡ (ok tt, with_points id (old ++ tv ∷ []) s)
  unfolding emplace_back
  emplace_back_lem id tv s old h = ground (arith, at_lem id s old h)

  for_each-emplace_back :
      (id : String) (tvs : List (TimeValue V)) (s : Drain j A V) (old : List (TimeValue V))
      → lookup id s.points ≡ some old
      → for_each (emplace_back id) tvs s ≡ (ok tt, with_points id (old ++ tvs) s)
  for_each-emplace_back id [] s old h = rw (append-nil old, update-same id old s.points h) refl
  for_each-emplace_back id (tv ∷ tvs) s old h =
      let added = with_points id (old ++ tv ∷ []) s in
      let step = emplace_back_lem id tv s old h in
      >>-step (emplace_back id tv) (for_each (emplace_back id) tvs) s tt added step
      ∙ for_each-emplace_back id tvs added (old ++ tv ∷ []) (lookup-updated id old _ s.points h)
      ∙ ap (λ ps. (ok tt, record s { points = ps }))
          (update-update id (old ++ tv ∷ []) ((old ++ tv ∷ []) ++ tvs) s.points
            ∙ rw (append_assoc old (tv ∷ []) tvs) refl)

  keep_chunk_lem :
      (id : String) (tvs : List (TimeValue V)) (s : Drain j A V) (old : List (TimeValue V))
      → AreStamps tvs
      → lookup id s.points ≡ some old
      → keep_chunk id (chunk_of tvs) s ≡ (ok tt, with_points id (old ++ tvs) s)
  unfolding keep_chunk
  keep_chunk_lem id tvs s old stamps h =
      >>-step (at id)
        (range_for time_value (emplace_back id) (chunk_of tvs).time_delta (chunk_of tvs).value) s
        old s (at_lem id s old h)
      ∙ range_for-foreach (emplace_back id) (chunk_of tvs) s
      ∙ data_chunk_foreach-chunk_of (emplace_back id) tvs s stamps
      ∙ for_each-emplace_back id tvs s old h

  module _ (parse : String → DataChunk V) (serialize : DataChunk V → String) where
    abbrev stored : Batch V → List (TimeValue V) → Drain j A V → Drain j A V
    stored b old s = record s {
      sink = call (acks b.tag) (record s.sink { data_chunk = chunk_of b.points });
      points = update b.id (old ++ b.points) s.points;
    }

    on_data-carrier :
        (b : Batch V) (s : Drain j A V) (old : List (TimeValue V))
        → AreStamps b.points
        → IsRead parse serialize (chunk_of b.points)
        → lookup b.id s.points ≡ some old
        → on_data parse keep_chunk (carrier serialize b) s ≡ (ok tt, stored b old s)
    unfolding on_data
    on_data-carrier b s old stamps read h =
        let body = serialize (chunk_of b.points) in
        let parsed = record s { sink = record s.sink { data_chunk = parse body } } in
        let stored_chunk : keep_chunk b.id (parse body) parsed
            ≡ (ok tt, with_points b.id (old ++ b.points) parsed) =
          rw read (keep_chunk_lem b.id b.points _ old stamps h) in
        >>-step (keep_chunk b.id (parse body)) (on_sink (modify (call (acks b.tag)))) parsed tt
          (with_points b.id (old ++ b.points) parsed) stored_chunk
        ∙ rw read refl

    abbrev pub deliver : List (Batch V) → Action (Drain j A V) (Unit {0})
    deliver [] = skip
    deliver (b ∷ bs) = on_data parse keep_chunk (carrier serialize b) >> deliver bs

    -- What is kept of one more batch.
    lookup-stored :
        (b : Batch V) (s : Drain j A V) (old : List (TimeValue V)) (bs : List (Batch V))
        (id : String)
        → lookup b.id s.points ≡ some old
        → Option.map (λ tvs. tvs ++ points_of id bs) (lookup id (stored b old s).points)
          ≡ Option.map (λ tvs. tvs ++ points_of id (b ∷ bs)) (lookup id s.points)
    lookup-stored b s old bs id h =
        let known = contains-lookup b.id s.points old h in
        let written = lookup-update b.id (old ++ b.points) s.points id known in
        elim (Bool-cases (str_eq b.id id)) [
          | inl e ↦ ground (arith, eq_iff b.id id, append_assoc old b.points (points_of id bs))
          | inr e ↦ ground arith
        ]

    deliver-known :
        (bs : List (Batch V)) (s : Drain j A V) (known : String → Bool)
        → ((k : String) → contains k s.points ≡ known k)
        → All
            (λ b.
              AreStamps b.points × IsRead parse serialize (chunk_of b.points) × (known b.id ≡ true))
            bs
        → let (r, s') = deliver bs s in
          (r ≡ ok tt)
          × (s'.sink.calls ≡ s.sink.calls ++ acks_of bs)
          × ((id : String)
              → lookup id s'.points
                ≡ Option.map (λ tvs. tvs ++ points_of id bs) (lookup id s.points))
    deliver-known [] s known keys h =
        (refl, sym (append-nil s.sink.calls), λ id. map-append-nil (lookup id s.points))
    deliver-known (b ∷ bs) s known keys h =
        let (old, found) = lookup-contains b.id s.points (keys b.id ∙ h.0.2) in
        let s' = stored b old s in
        let step =
          >>-step (on_data parse keep_chunk (carrier serialize b)) (deliver bs) s tt s'
            (on_data-carrier b s old h.0.0 h.0.1 found) in
        let same_keys : (k : String) → contains k s'.points ≡ known k =
          λ k. contains-update b.id (old ++ b.points) s.points k ∙ keys k in
        let rest = deliver-known bs s' known same_keys h.1 in
        rw step (
          rest.0,
          rest.1 ∙ append_assoc s.sink.calls (acks b.tag ∷ []) (acks_of bs),
          λ id. rest.2 id ∙ lookup-stored b s old bs id found,
        )

    -- Batches of points, of times from the epoch on, whose chunks the parser reads as they were written,
    -- for metrics that the drain has a vector for, are all handled with success;
    -- each vector then holds in addition the points of its own metric, in the order of the messages,
    -- and each message has been acknowledged once, in this order.
    pub deliver-collects :
        (bs : List (Batch V)) (s : Drain j A V)
        → All
            (λ b.
              AreStamps b.points
              × IsRead parse serialize (chunk_of b.points)
              × (contains b.id s.points ≡ true))
            bs
        → let (r, s') = deliver bs s in
          (r ≡ ok tt)
          × (s'.sink.calls ≡ s.sink.calls ++ acks_of bs)
          × ((id : String)
              → lookup id s'.points
                ≡ Option.map (λ tvs. tvs ++ points_of id bs) (lookup id s.points))
    deliver-collects bs s h = deliver-known bs s (λ k. contains k s.points) (λ k. refl) h
