-- ===== src/Simple/Drained/Steps.antt =====
-- The steps of a drain (include/metricq/simple_drain.hpp) up to the answer to its first call.
use metricq_cpp.Prelude.{
  ◌≡◌, refl, ap, sym, ◌∙◌, inl, inr, Bool, true, false, List, [], ◌∷◌, ◌++◌, append_assoc,
  append-nil, none, some, String, str_eq, if◌then◌else◌, Bool-cases,
}
use metricq_cpp.Prelude.Outcome.{Result, ok, Action, >>-ok, >>-inv}
use metricq_cpp.Drain.{
  Drain, blank, construct, is_empty, add_all, add_vectors, simple_on_connected,
  unsubscribe_complete,
}
use metricq_cpp.Json.{Json}
use metricq_cpp.Sink.{Sink, call, requests, of_string, of_strings, sink_config}
use metricq_cpp.Simple.{derive, main_loop}
use metricq_cpp.Table.{
  lookup, or_else, or_else_assoc, or_else-none, insert_or_keep, lookup-insert_or_keep,
}

abbrev pub is_among : String → List String → Bool
is_among id [] = false
is_among id (metric ∷ metrics) = if str_eq metric id then true else is_among id metrics

pub main_loop-append :
    {S E : Type 0} (handle : E → Action S (Unit {0})) (xs ys : List E) (s s' : S)
    → main_loop handle xs s ≡ (ok tt, s')
    → main_loop handle (xs ++ ys) s ≡ main_loop handle ys s'
unfolding main_loop
main_loop-append handle [] ys s s' h = ap (λ p. main_loop handle ys p.1) h
main_loop-append handle (x ∷ xs) ys s s' h =
    let (a, first, rest) = >>-inv (handle x) (main_loop handle xs) s tt (ap (λ p. p.0) h) in
    >>-ok (handle x) (main_loop handle (xs ++ ys)) s a first
    ∙ main_loop-append handle xs ys (handle x s).1 s' (sym rest ∙ h)

module _ {j : Json} {A V : Type 0} where
  pub add_all_lem :
      (metrics : List String) (s : Drain j A V)
      → add_all metrics s ≡ (ok tt, record s { metrics = s.metrics ++ metrics })
  unfolding add_all
  add_all_lem [] s = ap (λ ms. (ok tt, record s { metrics = ms })) (sym (append-nil s.metrics))
  add_all_lem (metric ∷ metrics) s =
      add_all_lem metrics (record s { metrics = s.metrics ++ metric ∷ [] })
      ∙ ap (λ ms. (ok tt, record s { metrics = ms })) (append_assoc s.metrics (metric ∷ []) metrics)

  lookup-add_vectors :
      (metrics : List String) (s : Drain j A V) (id : String)
      → lookup id (add_vectors metrics s).points
        ≡ or_else (lookup id s.points) (if is_among id metrics then some [] else none)
  unfolding add_vectors
  lookup-add_vectors [] s id = sym (or_else-none (lookup id s.points))
  lookup-add_vectors (metric ∷ metrics) s id =
      lookup-add_vectors metrics (record s { points = insert_or_keep metric [] s.points }) id
      ∙ ap (λ o. or_else o (if is_among id metrics then some [] else none))
          (lookup-insert_or_keep metric [] s.points id)
      ∙ or_else_assoc (lookup id s.points) (if str_eq metric id then some [] else none)
          (if is_among id metrics then some [] else none)
      ∙ elim (Bool-cases (str_eq metric id)) [ inl e ↦ rw e refl | inr e ↦ rw e refl ]

  -- Only the points change.
  add_vectors-points :
      (metrics : List String) (s : Drain j A V)
      → add_vectors metrics s ≡ record s { points = (add_vectors metrics s).points }
  unfolding add_vectors
  add_vectors-points [] s = refl
  add_vectors-points (metric ∷ metrics) s =
      add_vectors-points metrics (record s { points = insert_or_keep metric [] s.points })

  pub construct_lem :
      (queue : String)
      → str_eq queue "" ≡ false
      → construct queue blank ≡ (
        ok tt,
        record (blank {j = j} {A = A} {V = V}) { sink = record blank.sink { data_queue = queue } },
      )
  unfolding construct
  construct_lem queue h = rw h refl

  -- The sink once it has asked to unsubscribe.
  abbrev pub asking : String → List String → Sink j A V
  asking queue metrics =
      call
        (requests "sink.unsubscribe"
          (("dataQueue", of_string queue) ∷ ("metrics", of_strings metrics) ∷ []))
        (record (blank {j = j} {A = A} {V = V}).sink { data_queue = queue })

  -- The client with this sink or a later one.
  abbrev pub with_sink : List String → Sink j A V → Drain j A V
  with_sink metrics sink = record {
    sink = sink;
    metrics = metrics;
    points = (add_vectors metrics (record blank { sink = sink; metrics = metrics })).points;
  }

  pub simple_on_connected-asking :
      (queue : String) (metrics : List String)
      → is_empty metrics ≡ false
      → simple_on_connected (record (blank {j = j} {A = A} {V = V}) {
        sink = record blank.sink { data_queue = queue };
        metrics = metrics;
      })
        ≡ (ok tt, with_sink metrics (asking queue metrics))
  unfolding simple_on_connected
  simple_on_connected-asking queue [] h = absurd (cc)
  simple_on_connected-asking queue (metric ∷ metrics) h =
      let asked = record blank {
        sink = asking queue (metric ∷ metrics);
        metrics = metric ∷ metrics;
      } in
      ap (λ s. (ok tt, s)) (add_vectors-points (metric ∷ metrics) asked)

  pub lookup-with_sink :
      (metrics : List String) (sink : Sink j A V) (id : String)
      → lookup id (with_sink metrics sink).points ≡ (if is_among id metrics then some [] else none)
  unfolding lookup
  lookup-with_sink metrics sink id =
      lookup-add_vectors metrics (record blank { sink = sink; metrics = metrics }) id

  points-with_sink :
      (metrics : List String) (s t : Drain j A V)
      → s.points ≡ t.points
      → (add_vectors metrics s).points ≡ (add_vectors metrics t).points
  unfolding add_vectors
  points-with_sink [] s t h = h
  points-with_sink (metric ∷ metrics) s t h =
      points-with_sink metrics _ _ (ap (insert_or_keep metric []) h)

  pub unsubscribe_complete-config :
      (derive : String → Result A) (same : A → A → Bool) (response : j.Value) (queue : String)
      (metrics : List String) (sink : Sink j A V)
      → str_eq queue "" ≡ false
      → sink_config derive same response (asking queue metrics) ≡ (ok tt, sink)
      → unsubscribe_complete derive same response (with_sink metrics (asking queue metrics))
        ≡ (ok tt, with_sink metrics sink)
  unfolding unsubscribe_complete
  unsubscribe_complete-config derive same response queue metrics sink h config =
      rw (h, config)
        (ap (λ ps. (ok tt, record { sink = sink; metrics = metrics; points = ps }))
          (points-with_sink metrics
            (record blank { sink = asking queue metrics; metrics = metrics })
            (record blank { sink = sink; metrics = metrics }) refl))
