-- ===== src/Sink/Settles.antt =====
-- How each step of src/sink.cpp on its data queue leaves the queue that is consumed.
use metricq_cpp.Prelude.{
  ◌≡◌, refl, ap, ◌∙◌, inl, inr, Bool, true, false, ◌||◌, List, [], ◌∷◌, ◌++◌, String, str_eq,
  if◌then◌else◌, arith, eq_iff, Bool-cases, Option-cases,
}
use metricq_cpp.Prelude.Outcome.{
  Result, Action, ◌>>=◌, lift, when, assert, Result-cases, >>=-ok, >>=-err,
}
use metricq_cpp.Json.{Json}
use metricq_cpp.Sink.{
  Sink, Call, declares, consumes, sets_qos, opens_connection, emplace_metadata, use_address,
  set_data_queue, setup_data_queue, add_metadata, update_metadata, data_config, queue_config,
  named_queue, sink_config,
}

abbrev pub asks_queue : Call → Bool
asks_queue (declares name) = true
asks_queue (consumes name) = true
asks_queue _ = false

-- Whether a queue has been declared or consumed.
abbrev pub asked : List Call → Bool
asked [] = false
asked (c ∷ cs) = asks_queue c || asked cs

asked-append : (cs ds : List Call) → asked (cs ++ ds) ≡ (asked cs || asked ds)
asked-append [] ds = refl
asked-append (c ∷ cs) ds = ground (arith, asked-append cs ds)

pub asked-middle :
    (calls before after : List Call) (c : Call)
    → calls ≡ before ++ c ∷ after
    → asks_queue c ≡ true
    → asked calls ≡ true
asked-middle calls before after c e h = ap asked e ∙ asked-append before (c ∷ after) ∙ ground arith

module _ {j : Json} {A V : Type 0} where
  open j use {Value}

  -- The data queue has a name once a queue was declared or consumed or delivers.
  abbrev pub Inv : Sink j A V → Type 0
  Inv s = (s.is_data_queue_set_up || asked s.calls) ≡ true → str_eq s.data_queue "" ≡ false

  -- What `s` consumes, `s'` consumes as well.
  abbrev pub Fixed : Sink j A V → Sink j A V → Type 0
  Fixed s s' =
      s.is_data_queue_set_up ≡ true
      → (s'.is_data_queue_set_up ≡ true) × (s'.data_queue ≡ s.data_queue)

  pub record Settles {B : Type 0} (m : Action (Sink j A V) B) : Type 0 where
    pub settles : (s : Sink j A V) → Inv s → Inv (m s).1 × Fixed s (m s).1

  >>=-Settles :
      {B C : Type 0} {m : Action (Sink j A V) B} {k : B → Action (Sink j A V) C}
      → Settles m
      → ((x : B) → Settles (k x))
      → Settles (m >>= k)
  >>=-Settles {m = m} {k = k} sm sk = record {
    settles = λ s i.
        let (i', f) = sm.settles s i in
        elim (Result-cases (m s).0) [
          | inl (x, e) ↦
              let (i'', g) = (sk x).settles (m s).1 i' in
              rw (>>=-ok m k s x e)
                (i'', λ up. let (up', q) = f up in let (up'', q') = g up' in (up'', q' ∙ q))
          | inr (x, e) ↦ rw (>>=-err m k s x e) (i', f)
        ];
  }

  -- A call that leaves the queue and what is asked as they are.
  same-Settles :
      {B : Type 0} {m : Action (Sink j A V) B}
      → ((s : Sink j A V)
          → ((m s).1.is_data_queue_set_up ≡ s.is_data_queue_set_up)
            × ((m s).1.data_queue ≡ s.data_queue)
            × (asked (m s).1.calls ≡ asked s.calls))
      → Settles m
  same-Settles same = record {
    settles =
        λ s i. let (up, queue, calls) = same s in (rw (up, queue, calls) i, λ h. (up ∙ h, queue));
  }

  set_data_queue-Settles : (name : String) → Settles {B = Unit {0}} (set_data_queue name)
  unfolding set_data_queue
  set_data_queue-Settles name = record {
    settles = λ s i. (
      ground (arith, eq_iff name "", eq_iff s.data_queue "", eq_iff s.data_queue name),
      λ up. (
        ground (arith, eq_iff name "", eq_iff s.data_queue "", eq_iff s.data_queue name),
        ground (arith, eq_iff name "", eq_iff s.data_queue "", eq_iff s.data_queue name),
      ),
    );
  }

  setup_data_queue-Settles : Settles {B = Unit {0}} setup_data_queue
  unfolding setup_data_queue
  setup_data_queue-Settles = record {
    settles = λ s i. (
      ground (
        arith,
        asked-append s.calls (sets_qos 400 ∷ []),
        asked-append (s.calls ++ sets_qos 400 ∷ []) (declares s.data_queue ∷ []),
      ),
      λ up. (ground arith, ground arith),
    );
  }

  when-Settles : (b : Bool) {m : Action (Sink j A V) (Unit {0})} → Settles m → Settles (when b m)
  when-Settles true sm = sm
  when-Settles false sm = same-Settles (λ s. (refl, refl, refl))

  assert-Settles : (b : Bool) → Settles (assert b)
  assert-Settles true = same-Settles (λ s. (refl, refl, refl))
  assert-Settles false = same-Settles (λ s. (refl, refl, refl))

  lift-Settles : {B : Type 0} (r : Result B) → Settles (lift r)
  lift-Settles r = same-Settles (λ s. (refl, refl, refl))

  entry-same :
      (object : Bool) (key : String) (value : Value) (s : Sink j A V)
      → let s' : Sink j A V = if object then emplace_metadata key value s else s in
        (s'.is_data_queue_set_up ≡ s.is_data_queue_set_up)
        × (s'.data_queue ≡ s.data_queue)
        × (asked s'.calls ≡ asked s.calls)
  entry-same true key value s = (refl, refl, refl)
  entry-same false key value s = (refl, refl, refl)

  add_metadata-same :
      (items : List (String × Value)) (s : Sink j A V)
      → ((add_metadata items s).is_data_queue_set_up ≡ s.is_data_queue_set_up)
        × ((add_metadata items s).data_queue ≡ s.data_queue)
        × (asked (add_metadata items s).calls ≡ asked s.calls)
  unfolding add_metadata
  add_metadata-same [] s = (refl, refl, refl)
  add_metadata-same ((key, value) ∷ rest) s =
      let (up, queue, calls) =
        add_metadata-same rest (if j.is_object value then emplace_metadata key value s else s) in
      let (up', queue', calls') = entry-same (j.is_object value) key value s in
      (up ∙ up', queue ∙ queue', calls ∙ calls')

  update_metadata-Settles : (config : Value) → Settles (update_metadata config)
  unfolding update_metadata
  update_metadata-Settles config = when-Settles (j.contains config "metrics") (
      >>=-Settles (lift-Settles (j.at config "metrics")) (λ metrics.
        >>=-Settles (lift-Settles (j.items metrics))
          (λ items. same-Settles (add_metadata-same items))))

  module _ (derive : String → Result A) (same : A → A → Bool) where
    use_address-Settles : (address : A) → Settles (use_address derive same address)
    unfolding use_address
    use_address-Settles address = same-Settles (λ s. elim (Option-cases s.data_server_address) [
      | inl e ↦
          rw (e, use_address)
            (refl, refl, asked-append s.calls (opens_connection ∷ []) ∙ ground arith)
      | inr (old, e) ↦ elim (Bool-cases (same address old)) [
        | inl b ↦ rw (e, use_address, b) (refl, refl, refl)
        | inr b ↦ rw (e, use_address, b) (refl, refl, refl)
      ]
    ])

    data_config-Settles : (config : Value) → Settles (data_config derive same config)
    unfolding data_config
    data_config-Settles config =
        >>=-Settles
          (when-Settles (j.is_object config)
            (assert-Settles (j.contains config "dataServerAddress")))
          (λ _. >>=-Settles (lift-Settles (j.at config "dataServerAddress")) (λ entry.
            >>=-Settles (lift-Settles (j.get_string entry))
              (λ text. >>=-Settles (lift-Settles (derive text)) use_address-Settles)))

    queue_config-Settles : (config : Value) (name : String) → Settles (queue_config config name)
    unfolding queue_config
    queue_config-Settles config name =
        >>=-Settles (set_data_queue-Settles name)
          (λ _. >>=-Settles (update_metadata-Settles config) (λ _. setup_data_queue-Settles))

    pub sink_config-Settles : (config : Value) → Settles (sink_config derive same config)
    unfolding sink_config
    sink_config-Settles config = >>=-Settles (data_config-Settles config) (λ _.
        >>=-Settles {k = queue_config config} (lift-Settles (named_queue j config))
          (queue_config-Settles config))
