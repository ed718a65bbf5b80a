-- ===== src/EndToEnd.antt =====
-- From a source (src/source.cpp) to a drain (include/metricq/simple_drain.hpp): the drain gets the
-- messages that the source publishes. The broker between them is no part of the repository; here it
-- delivers what was published, in this order, with ascending tags, as it does for the messages of one
-- channel in one queue.
mod Tests
use metricq_cpp.Prelude.{
  ℕ, suc, ◌≡◌, refl, ap, sym, ◌∙◌, Bool, true, false, List, [], ◌∷◌, ◌++◌, Option, none, some,
  String, str_eq, if◌then◌else◌, arith, All, concat, eq_iff,
}
use mathlib.Core.Option
use metricq_cpp.Prelude.Outcome.{Result, ok, Action, ◌>>◌, skip}
use metricq_cpp.Chunk.{DataChunk, TimeValue}
use metricq_cpp.Chunk.Encode.{AreStamps, chunk_of}
use metricq_cpp.Json.{Json}
use metricq_cpp.Metric.Batches.{Call, sent_by}
use metricq_cpp.Metric.Delivery.{then_flush, AreStamps-concat, AreRegular-sent_by}
use metricq_cpp.Metric.Perform.{AreRegular}
use metricq_cpp.Table.{lookup, contains}
use metricq_cpp.Source.{Source, opens_connection, publishes, requests}
use metricq_cpp.Source
use metricq_cpp.Source.Mirror.{perform_all_by}
use metricq_cpp.Source.Publish.{batches_of, published, perform_all_by-published}
use metricq_cpp.Drain.{Drain, Message, keep_chunk, on_data}
use metricq_cpp.Drain.Collect.{Batch, IsRead, carrier, deliver, points_of, deliver-collects}

-- The messages for what is published.
abbrev pub route : {Value : Type 0} → ℕ → List (Source.Call Value) → List Message
route n [] = []
route n (publishes exchange id body ∷ cs) =
    record { type_name = ""; delivery = record { routingkey = id; body = body; delivery_tag = n } }
    ∷ route (suc n) cs
route n (opens_connection ∷ cs) = route n cs
route n (requests function payload ∷ cs) = route n cs

abbrev numbered : {V : Type 0} → ℕ → String → List (List (TimeValue V)) → List (Batch V)
numbered n id [] = []
numbered n id (batch ∷ batches) =
    record { id = id; points = batch; tag = n } ∷ numbered (suc n) id batches

route-after :
    {Value : Type 0} (n : ℕ) (xs ys : List (Source.Call Value))
    → route n xs ≡ []
    → route n (xs ++ ys) ≡ route n ys
route-after n [] ys h = refl
route-after n (publishes exchange id body ∷ xs) ys h = absurd (cc)
route-after n (opens_connection ∷ xs) ys h = route-after n xs ys h
route-after n (requests function payload ∷ xs) ys h = route-after n xs ys h

points_of-numbered :
    {V : Type 0} (n : ℕ) (id : String) (batches : List (List (TimeValue V)))
    → points_of id (numbered n id batches) ≡ concat batches
points_of-numbered n id [] = refl
points_of-numbered n id (batch ∷ batches) =
    let same : str_eq id id ≡ true = ground (arith, eq_iff id id) in
    rw (same, points_of-numbered (suc n) id batches) refl

numbered-All :
    {V : Type 0} (P : List (TimeValue V) → Type 0) (K : String → Type 0) (n : ℕ) (id : String)
    (batches : List (List (TimeValue V)))
    → All AreStamps batches
    → All P batches
    → K id
    → All (λ b. AreStamps b.points × P b.points × K b.id) (numbered n id batches)
numbered-All P K n id [] stamps read k = tt
numbered-All P K n id (batch ∷ batches) stamps read k =
    ((stamps.0, read.0, k), numbered-All P K (suc n) id batches stamps.1 read.1 k)

module _ {j : Json} {A V : Type 0} (parse : String → DataChunk V)
    (serialize : DataChunk V → String) where
  abbrev pub handle_all : List Message → Action (Drain j A V) (Unit {0})
  handle_all [] = skip
  handle_all (m ∷ ms) = on_data parse keep_chunk m >> handle_all ms

  deliver-route :
      (Value : Type 0) (n : ℕ) (exchange id : String) (batches : List (List (TimeValue V)))
      → handle_all (route n (published {Value = Value} serialize exchange id batches))
        ≡ deliver parse serialize (numbered n id batches)
  deliver-route Value n exchange id [] = refl
  deliver-route Value n exchange id (batch ∷ batches) =
      ap
        (◌>>◌ (
          on_data parse keep_chunk
            (carrier serialize (record { id = id; points = batch; tag = n }))))
        (deliver-route Value (suc n) exchange id batches)

  -- A source with a data connection that has published nothing, and a drain that has a vector for the metric: whatever calls
  -- are made on a metric that the source does not have yet, with times from the epoch on and sizes below
  -- 2^63, and a last `flush`, all succeed; where the parser reads their chunks as they were written, the
  -- drain handles all messages with success and has in its vector in addition exactly the points
  -- that were sent, in the order of the sending.
  pub drained-sent :
      (n : ℕ) (id : String) (address : A) (s : Source j A V) (d : Drain j A V)
      (cs : List (Call (TimeValue V)))
      → s.data_server_address ≡ some address
      → contains id s.metrics ≡ false
      → route n s.calls ≡ []
      → contains id d.points ≡ true
      → AreRegular cs
      → All (λ batch. IsRead parse serialize (chunk_of batch)) (batches_of cs)
      → let (r, s') = perform_all_by serialize id (then_flush cs) s in
        let (r', d') = handle_all (route n s'.calls) d in
        (r ≡ ok tt)
        × (r' ≡ ok tt)
        × (lookup id d'.points ≡ Option.map (λ tvs. tvs ++ sent_by cs) (lookup id d.points))
  drained-sent n id address s d cs opened new_metric silent known regular read =
      let (done, sent, whole) =
        perform_all_by-published serialize id s new_metric cs (address, opened) regular in
      let batches = batches_of cs in
      let stamps = AreStamps-concat batches (rw whole (AreRegular-sent_by cs regular)) in
      let routed =
        ap (λ calls. handle_all (route n calls)) sent
        ∙ ap handle_all
            (route-after n s.calls (published serialize s.data_exchange id batches) silent)
        ∙ deliver-route j.Value n s.data_exchange id batches in
      let (handled, _, vectors) = deliver-collects parse serialize (numbered n id batches) d (
        numbered-All (λ batch. IsRead parse serialize (chunk_of batch))
          (λ i. contains i d.points ≡ true) n id batches stamps read known) in
      (
        done,
        ap (λ m. (m d).0) routed ∙ handled,
        ap (λ m. lookup id (m d).1.points) routed
            ∙ vectors id
            ∙ ap (λ tvs. Option.map (λ old. old ++ tvs) (lookup id d.points))
                (points_of-numbered n id batches ∙ whole),
      )
