-- ===== src/Simple/Drained.antt =====
-- What `drain` of src/simple.cpp returns.
pub mod Steps
use mathlib.Core.Option
use metricq_cpp.Prelude.{
  suc, ◌≡◌, refl, ap, sym, ◌∙◌, inl, inr, Bool, true, false, not, List, [], ◌∷◌, ◌++◌, append_assoc,
  append-nil, map, none, some, String, str_eq, if◌then◌else◌, arith, eq_iff, All, Bool-cases,
  Option-cases,
}
use metricq_cpp.Prelude.Outcome.{
  Result, ok, Action, ◌>>=◌, ◌>>◌, skip, lift, gets, modify, >>-step, >>-ok, >>-inv, assert,
}
use metricq_cpp.Chunk.{DataChunk, TimeValue}
use metricq_cpp.Chunk.Encode.{AreStamps, chunk_of}
use metricq_cpp.Connect.{Address}
use metricq_cpp.Drain.{
  Drain, Message, blank, construct, is_empty, add_all, add_vectors, simple_on_connected,
  unsubscribe_complete, keep_chunk, on_data, released,
}
use metricq_cpp.Drain.Collect.{Batch, IsRead, carrier, points_of, deliver, deliver-collects}
use metricq_cpp.Json.{Json}
use metricq_cpp.Sink.{Sink, Call, call, close, requests, of_string, of_strings, sink_config}
use metricq_cpp.Simple.{
  DrainEvent, drain_connected, unsubscribed, delivered, queue_released, connecting, derive,
  main_loop, on_drain_event, drain,
}
use metricq_cpp.Table.{
  lookup, contains, contains-lookup, or_else, or_else_assoc, or_else-none, insert_or_keep,
  lookup-insert_or_keep,
}
use Steps.{
  is_among, main_loop-append, add_all_lem, construct_lem, asking, with_sink,
  simple_on_connected-asking, lookup-with_sink, unsubscribe_complete-config,
}

module _ {Value V : Type 0} (serialize : DataChunk V → String) where
  abbrev deliveries : List (Batch V) → List (DrainEvent Value)
  deliveries [] = []
  deliveries (b ∷ bs) = delivered (carrier serialize b) ∷ deliveries bs

  -- The events of a drain that ends: the queue is unsubscribed, delivers batches, ends, and is released.
  abbrev pub session : Value → List (Batch V) → Message → List (DrainEvent Value)
  session response bs last =
      drain_connected
      ∷ unsubscribed response
      ∷ (deliveries bs ++ delivered last ∷ queue_released ∷ [])

module _ {Login V : Type 0} {j : Json} (parse : String → Result (Address Login))
    (url token uuid : String) (same : Address Login → Address Login → Bool)
    (read_chunk : String → DataChunk V) (serialize : DataChunk V → String) where
  open j use {Value}

  abbrev handle : DrainEvent Value → Action (Drain j (Address Login) V) (Unit {0})
  handle = on_drain_event parse url token uuid same read_chunk

  main_loop-deliveries :
      (bs : List (Batch V))
      → main_loop handle (deliveries serialize bs) ≡ deliver read_chunk serialize bs
  unfolding main_loop
  main_loop-deliveries [] = refl
  main_loop-deliveries (b ∷ bs) =
      ap (λ m. on_data read_chunk keep_chunk (carrier serialize b) >> m) (main_loop-deliveries bs)

  main_loop-end :
      (last : Message) (s : Drain j (Address Login) V)
      → str_eq last.type_name "end" ≡ true
      → (s' : Drain j (Address Login) V) × (main_loop handle
            (delivered last ∷ queue_released ∷ [])
            s
          ≡ (ok tt, s'))
        × (s'.points ≡ s.points)
  unfolding main_loop on_data released close
  main_loop-end last s h =
      let s' = (main_loop handle (delivered last ∷ queue_released ∷ []) s).1 in
      elim (Option-cases s.sink.data_server_address) [
        | inl e ↦ (s', rw (h, e) refl, rw (h, e) refl)
        | inr (a, e) ↦ (s', rw (h, e) refl, rw (h, e) refl)
      ]

  known :
      (metrics : List String) (sink : Sink j (Address Login) V) (bs : List (Batch V))
      → All
          (λ b.
            AreStamps b.points
            × IsRead read_chunk serialize (chunk_of b.points)
            × (is_among b.id metrics ≡ true))
          bs
      → All
          (λ b.
            AreStamps b.points
            × IsRead read_chunk serialize (chunk_of b.points)
            × (contains b.id (with_sink metrics sink).points ≡ true))
          bs
  known metrics sink [] h = tt
  known metrics sink (b ∷ bs) h =
      let found : lookup b.id (with_sink metrics sink).points ≡ some [] =
        lookup-with_sink metrics sink b.id ∙ rw h.0.2 refl in
      (
        (h.0.0, h.0.1, contains-lookup b.id (with_sink metrics sink).points [] found),
        known metrics sink bs h.1,
      )

  main_loop-begin :
      (metrics : List String) (queue : String) (response : Value) (sink : Sink j (Address Login) V)
      → str_eq queue "" ≡ false
      → is_empty metrics ≡ false
      → sink_config (derive parse url token uuid) same response (asking queue metrics)
        ≡ (ok tt, sink)
      → main_loop handle
          (drain_connected ∷ unsubscribed response ∷ [])
          (record blank { sink = record blank.sink { data_queue = queue }; metrics = metrics })
        ≡ (ok tt, with_sink metrics sink)
  unfolding main_loop
  main_loop-begin metrics queue response sink named some_metrics config =
      let s0 : Drain j (Address Login) V = record blank {
        sink = record blank.sink { data_queue = queue };
        metrics = metrics;
      } in
      let s1 = with_sink metrics (asking queue metrics) in
      >>-step simple_on_connected (handle (unsubscribed response) >> skip) s0 tt s1
        (simple_on_connected-asking queue metrics some_metrics)
      ∙ >>-step (handle (unsubscribed response)) skip s1 tt (with_sink metrics sink) (
          unsubscribe_complete-config (derive parse url token uuid) same response queue metrics sink
            named config)

  main_loop-session :
      (metrics : List String) (queue : String) (response : Value) (sink : Sink j (Address Login) V)
      (bs : List (Batch V)) (last : Message) (s2 s3 : Drain j (Address Login) V)
      → str_eq queue "" ≡ false
      → is_empty metrics ≡ false
      → sink_config (derive parse url token uuid) same response (asking queue metrics)
        ≡ (ok tt, sink)
      → deliver read_chunk serialize bs (with_sink metrics sink) ≡ (ok tt, s2)
      → main_loop handle (delivered last ∷ queue_released ∷ []) s2 ≡ (ok tt, s3)
      → main_loop handle
          (session serialize response bs last)
          (record blank { sink = record blank.sink { data_queue = queue }; metrics = metrics })
        ≡ (ok tt, s3)
  main_loop-session metrics queue response sink bs last s2 s3 named some_metrics config delivers
        ends =
      let s0 : Drain j (Address Login) V = record blank {
        sink = record blank.sink { data_queue = queue };
        metrics = metrics;
      } in
      main_loop-append handle (drain_connected ∷ unsubscribed response ∷ [])
        (deliveries serialize bs ++ delivered last ∷ queue_released ∷ []) s0
        (with_sink metrics sink)
        (main_loop-begin metrics queue response sink named some_metrics config)
      ∙ main_loop-append handle (deliveries serialize bs) (delivered last ∷ queue_released ∷ [])
          (with_sink metrics sink) s2
          (ap (λ m. m (with_sink metrics sink)) (main_loop-deliveries bs) ∙ delivers)
      ∙ ends

  drained :
      (metrics : List String) (queue : String) (events : List (DrainEvent Value))
      (s : Drain j (Address Login) V)
      → str_eq queue "" ≡ false
      → (connecting parse url token uuid).0 ≡ ok tt
      → main_loop handle events
          (record blank { sink = record blank.sink { data_queue = queue }; metrics = metrics })
        ≡ (ok tt, s)
      → (drain parse url token uuid {j = j} same read_chunk metrics queue events).0 ≡ ok s.points
  unfolding drain
  drained metrics queue events s named connects runs =
      let s0 : Drain j (Address Login) V = record blank {
        sink = record blank.sink { data_queue = queue };
      } in
      let s1 = record s0 { metrics = metrics } in
      let finish = main_loop handle events >> gets (λ x. x.points) in
      let connect = lift (connecting parse url token uuid).0 >> finish in
      ap (λ p. p.0)
        (>>-step (construct queue) (add_all metrics >> connect) blank tt s0
            (construct_lem queue named)
          ∙ >>-step (add_all metrics) connect s0 tt s1 (add_all_lem metrics s0)
          ∙ >>-step (lift (connecting parse url token uuid).0) finish s1 tt s1
              (ap (λ r. (r, s1)) connects)
          ∙ >>-step (main_loop handle events) (gets (λ x. x.points)) s1 tt s runs)

  -- Where the connection can be set up, the queue has a name, there is a metric, and the answer to the
  -- call that unsubscribes configures the sink: whatever batches of points are delivered for the metrics,
  -- of times from the epoch on and with chunks that the parser reads as they were written, until the queue
  -- ends and is released, the call returns, for each metric and no other name, the points of its
  -- batches in their order.
  pub drain-collects :
      (metrics : List String) (queue : String) (response : Value) (sink : Sink j (Address Login) V)
      (bs : List (Batch V)) (last : Message)
      → (connecting parse url token uuid).0 ≡ ok tt
      → str_eq queue "" ≡ false
      → is_empty metrics ≡ false
      → sink_config (derive parse url token uuid) same response (asking queue metrics)
        ≡ (ok tt, sink)
      → All
          (λ b.
            AreStamps b.points
            × IsRead read_chunk serialize (chunk_of b.points)
            × (is_among b.id metrics ≡ true))
          bs
      → str_eq last.type_name "end" ≡ true
      → (points : List (String × List (TimeValue V))) × ((drain parse url token uuid {j = j} same
            read_chunk metrics queue
            (session serialize response bs last)).0
          ≡ ok points)
        × ((id : String)
            → lookup id points ≡ (if is_among id metrics then some (points_of id bs) else none))
  unfolding drain
  drain-collects metrics queue response sink bs last connects named some_metrics config good ends =
      let s1 : Drain j (Address Login) V = with_sink metrics sink in
      let (delivers, _, collected) =
        deliver-collects read_chunk serialize bs s1 (known metrics sink bs good) in
      let s2 = (deliver read_chunk serialize bs s1).1 in
      let (s3, loop_end, points_end) = main_loop-end last s2 ends in
      (
        s3.points,
        drained metrics queue (session serialize response bs last) s3 named connects (
            main_loop-session metrics queue response sink bs last s2 s3 named some_metrics config
              (ap (λ r. (r, s2)) delivers) loop_end),
        λ id.
            ap (λ ps. lookup id ps) points_end
            ∙ collected id
            ∙ ap (Option.map (λ tvs. tvs ++ points_of id bs)) (lookup-with_sink metrics sink id)
            ∙ elim (Bool-cases (is_among id metrics)) [ inl e ↦ rw e refl | inr e ↦ rw e refl ],
      )
