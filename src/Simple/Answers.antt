-- ===== src/Simple/Answers.antt =====
-- What the functions of src/simple.cpp that make one call return once it is answered.
use metricq_cpp.Prelude.{
  ◌≡◌, refl, ap, sym, ◌∙◌, inl, inr, Bool, true, false, not, List, [], ◌∷◌, ◌++◌, append_assoc,
  append-nil, map, none, some, String, str_eq, if◌then◌else◌, Bool-cases,
}
use metricq_cpp.Prelude.Int.{ℤ}
use metricq_cpp.Prelude.Outcome.{Result, ok, ◌>>◌, lift, gets, >>-step}
use metricq_cpp.Connect.{Address}
use metricq_cpp.Json.{Json, entry_text}
use mathlib.Core.Option
use metricq_cpp.Metadata.{Metadata}
use metricq_cpp.RpcRequest.{RpcRequest}
use metricq_cpp.RpcRequest
use metricq_cpp.Sink.{of_strings, of_duration}
use metricq_cpp.Simple.{
  connected, answered, connecting, on_event, on_request, main_loop, subscribe, ask, payload_of,
  read_texts, get_metrics, get_metadata_by, emplace_all,
}
use metricq_cpp.Subscriber.{Subscriber, requests, stops, add_all, subscribed}
use metricq_cpp.Subscriber
use metricq_cpp.Table.{
  lookup, insert_or_keep, or_else, or_else-none, or_else_assoc, lookup-insert_or_keep,
}

-- The client that has subscribed.
abbrev pub subscriber : List String → ℤ → String → Subscriber
subscriber metrics expires queue = record {
  metrics = metrics;
  expires = expires;
  queue = queue;
  calls =
      requests "sink.subscribe"
        (("metrics", of_strings metrics) ∷ ("expires", of_duration expires) ∷ [])
      ∷ stops
      ∷ [];
}

-- The client that has made its call.
abbrev pub asked : {Value : Type 0} → String → Value → Value → RpcRequest Value
asked function payload response = record {
  function = function;
  payload = payload;
  response = response;
  calls = RpcRequest.requests function payload ∷ RpcRequest.stops ∷ [];
}

add_all_lem :
    (metrics : List String) (s : Subscriber)
    → add_all metrics s ≡ (ok tt, record s { metrics = s.metrics ++ metrics })
unfolding add_all
add_all_lem [] s = ap (λ ms. (ok tt, record s { metrics = ms })) (sym (append-nil s.metrics))
add_all_lem (metric ∷ metrics) s =
    add_all_lem metrics (record s { metrics = s.metrics ++ metric ∷ [] })
    ∙ ap (λ ms. (ok tt, record s { metrics = ms })) (append_assoc s.metrics (metric ∷ []) metrics)

module _ (j : Json) where
  open j use {Value}

  read_texts-map : (names : List String) → read_texts j (map j.text names) ≡ ok names
  unfolding read_texts
  read_texts-map [] = refl
  read_texts-map (name ∷ names) = rw (j.get_string-text name, read_texts-map names) refl

  -- The payload with a format, and with the selector if there is one.
  payload_of-entries :
      (format : String) (has_selector : Bool) (selector : Value)
      → (payload : Value) × (payload_of j format has_selector selector ≡ ok payload)
        × (j.at payload "format" ≡ ok (j.text format))
        × (j.contains payload "selector" ≡ has_selector)
        × (has_selector ≡ true → j.at payload "selector" ≡ ok selector)
  unfolding payload_of
  payload_of-entries format false selector =
      let (p, put_eq, _) = j.put-object j.object "format" (j.text format) j.is_object-object in
      (
        p,
        rw put_eq refl,
        j.at-put j.object p "format" (j.text format) j.is_object-object put_eq "format",
        j.contains-put j.object p "format" (j.text format) put_eq "selector"
            ∙ j.contains-object "selector",
        λ h. absurd (cc),
      )
  payload_of-entries format true selector =
      let (p, put_eq, p_object) =
        j.put-object j.object "format" (j.text format) j.is_object-object in
      let (q, put_selector, _) = j.put-object p "selector" selector p_object in
      (
        q,
        rw (put_eq, put_selector) refl,
        j.at-put p q "selector" selector p_object put_selector "format"
            ∙ j.at-put j.object p "format" (j.text format) j.is_object-object put_eq "format",
        j.contains-put p q "selector" selector put_selector "selector",
        λ h. j.at-put p q "selector" selector p_object put_selector "selector",
      )

module _ {Login : Type 0} (parse : String → Result (Address Login)) (url token uuid : String)
    (j : Json) (connects : (connecting parse url token uuid).0 ≡ ok tt) where
  open j use {Value}

  pub subscribe-answered :
      (metrics : List String) (expires : ℤ) (response : Value) (queue : String)
      → entry_text j response "dataQueue" ≡ ok queue
      → subscribe parse url token uuid j metrics expires (connected ∷ answered response ∷ [])
        ≡ (ok queue, subscriber metrics expires queue)
  unfolding subscribe main_loop Subscriber.on_connected subscribed Subscriber.new
  subscribe-answered metrics expires response queue names =
      let s0 = Subscriber.new expires in
      let s1 = record s0 { metrics = metrics } in
      let finish =
        main_loop (on_event j) (connected ∷ answered response ∷ []) >> gets (λ s. s.queue) in
      >>-step (add_all metrics) (lift (connecting parse url token uuid).0 >> finish) s0 tt s1
        (add_all_lem metrics s0)
      ∙ >>-step (lift (connecting parse url token uuid).0) finish s1 tt s1
          (ap (λ r. (r, s1)) connects)
      ∙ rw names refl

  ask-answered :
      (function : String) (payload response : Value)
      → ask parse url token uuid j function payload (connected ∷ answered response ∷ [])
        ≡ (ok response, asked function payload response)
  unfolding ask main_loop RpcRequest.on_connected RpcRequest.answered RpcRequest.new
  ask-answered function payload response =
      let s0 = RpcRequest.new j function payload in
      >>-step (lift (connecting parse url token uuid).0)
        (main_loop on_request (connected ∷ answered response ∷ []) >> gets (λ s. s.response)) s0 tt
        s0 (ap (λ r. (r, s0)) connects)

  -- Where the connection can be set up and the manager answers with an array of names: `get_metrics`
  -- returns these names in their order, and its client has called the function "history.get_metrics"
  -- once, with a payload that asks for an array and holds the selector exactly if that is not empty, and
  -- has then stopped.
  pub get_metrics-answered :
      (selector : String) (response : Value) (names : List String)
      → j.at response "metrics" ≡ ok (j.texts names)
      → (payload : Value) × (get_metrics parse url token uuid j selector
            (connected ∷ answered response ∷ [])
          ≡ (ok names, some (asked "history.get_metrics" payload response)))
        × (j.at payload "format" ≡ ok (j.text "array"))
        × (j.contains payload "selector" ≡ not (str_eq selector ""))
        × (not (str_eq selector "") ≡ true → j.at payload "selector" ≡ ok (j.text selector))
  unfolding get_metrics
  get_metrics-answered selector response names h =
      let (payload, eq, format, has, is) =
        payload_of-entries j "array" (not (str_eq selector "")) (j.text selector) in
      let asks = ask-answered "history.get_metrics" payload response in
      (
        payload,
        rw (eq, get_metrics, asks, h, j.elements-texts names, read_texts-map j names) refl,
        format,
        has,
        is,
      )

  lookup-emplace_all :
      (items : List (String × Value)) (response : List (String × Metadata j)) (key : String)
      → lookup key (emplace_all j items response)
        ≡ or_else
            (lookup key response)
            (Option.map (λ v. record { metadata = v }) (lookup key items))
  unfolding lookup
  lookup-emplace_all [] response key = sym (or_else-none (lookup key response))
  lookup-emplace_all ((k, v) ∷ items) response key =
      lookup-emplace_all items (insert_or_keep k (record { metadata = v }) response) key
      ∙ ap (λ o. or_else o (Option.map (λ x. record { metadata = x }) (lookup key items)))
          (lookup-insert_or_keep k (record { metadata = v }) response key)
      ∙ or_else_assoc (lookup key response)
          (if str_eq k key then some (record { metadata = v }) else none)
          (Option.map (λ x. record { metadata = x }) (lookup key items))
      ∙ elim (Bool-cases (str_eq k key)) [ inl e ↦ rw e refl | inr e ↦ rw e refl ]

  -- Where the connection can be set up and the manager answers with entries: `get_metadata_` returns, for
  -- each key, its first entry; it has called the function "get_metrics" once, with a payload that asks for
  -- an object and holds the selector exactly if that is not empty as JSON, and then stopped.
  pub get_metadata_by-answered :
      (selector response metrics : Value) (items : List (String × Value))
      → j.at response "metrics" ≡ ok metrics
      → j.items metrics ≡ ok items
      → (found : List (String × Metadata j)) × (payload : Value) × (get_metadata_by parse url token
            uuid j selector
            (connected ∷ answered response ∷ [])
          ≡ (ok found, some (asked "get_metrics" payload response)))
        × ((key : String)
            → lookup key found ≡ Option.map (λ v. record { metadata = v }) (lookup key items))
        × (j.at payload "format" ≡ ok (j.text "object"))
        × (j.contains payload "selector" ≡ not (j.is_empty selector))
        × (not (j.is_empty selector) ≡ true → j.at payload "selector" ≡ ok selector)
  unfolding get_metadata_by lookup
  get_metadata_by-answered selector response metrics items h entries =
      let (payload, eq, format, has, is) =
        payload_of-entries j "object" (not (j.is_empty selector)) selector in
      let asks = ask-answered "get_metrics" payload response in
      (
        emplace_all j items [],
        payload,
        rw (eq, get_metadata_by, asks, h, entries) refl,
        lookup-emplace_all items [],
        format,
        has,
        is,
      )
