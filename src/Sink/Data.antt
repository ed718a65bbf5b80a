-- ===== src/Sink/Data.antt =====
-- What `Sink::on_data` and `Sink::update_metadata` of src/sink.cpp do with data and metadata.
use metricq_cpp.Prelude.{
  ℕ, ◌≡◌, refl, ap, sym, ◌∙◌, Bool, true, false, List, [], ◌∷◌, ◌++◌, ◌⊎◌, inl, inr, append_assoc,
  Option, none, some, String, str_eq, if◌then◌else◌,
}
use metricq_cpp.Prelude.Outcome.{Result, ok, err, Failure, Action, Result-cases}
use metricq_cpp.Prelude.Kept.{Kept, >>-Kept}
use metricq_cpp.Chunk.Encode.{AreStamps, chunk_of, for_each, data_chunk_foreach-chunk_of}
use metricq_cpp.Chunk.{DataChunk, TimeValue, data_chunk_foreach}
use metricq_cpp.Chunk.Iterate.{range_for-foreach}
use metricq_cpp.Json.{Json}
use metricq_cpp.Metadata.{Metadata}
use metricq_cpp.Table.{lookup, or_else, or_else-none, or_else_assoc, lookup-insert_or_keep}
use metricq_cpp.Sink.{Sink, Call, Delivery, acks, call, emplace_metadata, add_metadata, on_data}

-- The tags that have been acknowledged, in order.
abbrev ack_of : Call → List ℕ
ack_of (acks tag) = tag ∷ []
ack_of _ = []

abbrev pub acked : List Call → List ℕ
acked [] = []
acked (c ∷ cs) = ack_of c ++ acked cs

pub acked-append : (xs ys : List Call) → acked (xs ++ ys) ≡ acked xs ++ acked ys
acked-append [] ys = refl
acked-append (c ∷ xs) ys =
    ap (◌++◌ (ack_of c)) (acked-append xs ys) ∙ sym (append_assoc (ack_of c) (acked xs) (acked ys))

module _ {j : Json} where
  open j use {Value}

  -- The metadata that an entry has for `key`; `object` tells whether it is an object.
  abbrev pub entry_for : String → Bool → String → Value → Option (Metadata j)
  entry_for key true k value = if str_eq k key then some (record { metadata = value }) else none
  entry_for key false k value = none

  -- The first of the entries of a key that is an object.
  abbrev pub first_object : String → List (String × Value) → Option (Metadata j)
  first_object key [] = none
  first_object key ((k, value) ∷ rest) =
      or_else (entry_for key (j.is_object value) k value) (first_object key rest)

module _ {j : Json} {A V : Type 0} where
  open j use {Value}

  abbrev then_ack : ℕ → Result (Unit {0}) × Sink j A V → Result (Unit {0}) × Sink j A V
  then_ack tag (r, s) = elim r [ ok _ ↦ (ok tt, call (acks tag) s) | err e ↦ (err e, s) ]

  -- A callback that acknowledges nothing itself.
  abbrev pub IsQuiet : (TimeValue V → Action (Sink j A V) (Unit {0})) → Type 0
  IsQuiet cb = (tv : TimeValue V) (s : Sink j A V) → acked (cb tv s).1.calls ≡ acked s.calls

  for_each-Kept :
      (cb : TimeValue V → Action (Sink j A V) (Unit {0})) (before : List ℕ)
      → IsQuiet cb
      → (tvs : List (TimeValue V)) → Kept (λ s. acked s.calls ≡ before) (for_each cb tvs)
  for_each-Kept cb before quiet [] = record { keeps = λ s h. h }
  for_each-Kept cb before quiet (tv ∷ tvs) =
      >>-Kept (record { keeps = λ s h. quiet tv s ∙ h }) (for_each-Kept cb before quiet tvs)

  -- A message whose body the parser reads as the chunk of some points, with times from the epoch on, and
  -- a callback that acknowledges nothing itself. Where the callback succeeds on all points, one after the
  -- other, `on_data` succeeds, and has acknowledged the message once, after all else. Where it fails on
  -- one, the points after it are left out, the failure goes on, and nothing has been acknowledged.
  pub on_data-acks :
      (parse : String → DataChunk V)
      (on_value : String → TimeValue V → Action (Sink j A V) (Unit {0})) (message : Delivery)
      (tvs : List (TimeValue V)) (s : Sink j A V)
      → parse message.body ≡ chunk_of tvs
      → AreStamps tvs
      → IsQuiet (on_value message.routingkey)
      → let (r, s') = on_data parse on_value message s in
        let (v, visited) =
          for_each (on_value message.routingkey) tvs (record s { data_chunk = chunk_of tvs }) in
        ((v ≡ ok tt)
          × (r ≡ ok tt)
          × (s' ≡ call (acks message.delivery_tag) visited)
          × (acked s'.calls ≡ acked s.calls ++ message.delivery_tag ∷ []))
        ⊎ ((e : Failure) × (v ≡ err e)
            × (r ≡ err e)
            × (s' ≡ visited)
            × (acked s'.calls ≡ acked s.calls))
  unfolding on_data
  on_data-acks parse on_value message tvs s read stamps quiet =
      let cb = on_value message.routingkey in
      let held : Sink j A V = record s { data_chunk = chunk_of tvs } in
      let tag = message.delivery_tag in
      let (v, visited) = for_each cb tvs held in
      let visits =
        range_for-foreach cb (parse message.body) (record s { data_chunk = parse message.body })
        ∙ ap (λ dc. data_chunk_foreach cb dc (record s { data_chunk = dc })) read
        ∙ data_chunk_foreach-chunk_of cb tvs held stamps in
      let runs : on_data parse on_value message s ≡ then_ack tag (v, visited) =
        ap (then_ack tag) visits in
      let same : acked visited.calls ≡ acked s.calls =
        (for_each-Kept cb (acked s.calls) quiet tvs).keeps held refl in
      elim (Result-cases v) [
        | inl (x, e) ↦
            let done : on_data parse on_value message s ≡ (ok tt, call (acks tag) visited) =
              runs ∙ ap (λ r. then_ack tag (r, visited)) e in
            inl (
              e,
              ap (λ p. p.0) done,
              ap (λ p. p.1) done,
              ap (λ p. acked p.1.calls) done
                  ∙ acked-append visited.calls (acks tag ∷ [])
                  ∙ ap (λ ts. ts ++ tag ∷ []) same,
            )
        | inr (x, e) ↦
            let failed : on_data parse on_value message s ≡ (err x, visited) =
              runs ∙ ap (λ r. then_ack tag (r, visited)) e in
            inr (
              x,
              e,
              ap (λ p. p.0) failed,
              ap (λ p. p.1) failed,
              ap (λ p. acked p.1.calls) failed ∙ same,
            )
      ]

  entry-lookup :
      (object : Bool) (k : String) (value : Value) (s : Sink j A V) (key : String)
      → lookup key (if object then emplace_metadata k value s else s).metadata
        ≡ or_else (lookup key s.metadata) (entry_for key object k value)
  entry-lookup true k value s key =
      lookup-insert_or_keep k (record { metadata = value }) s.metadata key
  entry-lookup false k value s key = sym (or_else-none (lookup key s.metadata))

  -- A metric that has metadata keeps it, and one without gets the first object that is sent for it.
  pub add_metadata-lookup :
      (items : List (String × Value)) (s : Sink j A V) (key : String)
      → lookup key (add_metadata items s).metadata
        ≡ or_else (lookup key s.metadata) (first_object key items)
  unfolding add_metadata
  add_metadata-lookup [] s key = sym (or_else-none (lookup key s.metadata))
  add_metadata-lookup ((k, value) ∷ rest) s key =
      add_metadata-lookup rest (if j.is_object value then emplace_metadata k value s else s) key
      ∙ ap (λ o. or_else o (first_object key rest)) (entry-lookup (j.is_object value) k value s key)
      ∙ or_else_assoc (lookup key s.metadata) (entry_for key (j.is_object value) k value)
          (first_object key rest)
