-- ===== src/Sink/Subscribed.antt =====
-- The answer to `Sink::subscribe` of src/sink.cpp.
use metricq_cpp.Prelude.{
  ◌≡◌, ◌≢◌, refl, ap, sym, ◌∙◌, inl, inr, Bool, true, false, List, [], ◌∷◌, String, str_eq,
  if◌then◌else◌, arith, eq_iff,
}
use metricq_cpp.Prelude.Outcome.{
  Result, ok, err, Failure, bind, Action, ◌>>=◌, ◌>>◌, lift, when, Result-cases, >>=-ok, >>=-err,
  >>=-inv,
}
use metricq_cpp.Json.{Json}
use metricq_cpp.Sink.{
  Sink, set_data_queue, setup_data_queue, emplace_metadata, add_metadata, update_metadata,
  data_config, sink_config, subscribed, check_queue, queue_config, named_queue,
}

pub same_text : (queue : String) → str_eq queue queue ≡ true
same_text queue = ground (arith, eq_iff queue queue)

pub no-name : {x : Failure} {name : String} → err x ≢ ok name
no-name h = absurd (cc)

module _ {j : Json} {A V : Type 0} where
  open j use {Value}

  set_data_queue-ok :
      (name : String) (s : Sink j A V)
      → (set_data_queue name s).0 ≡ ok tt
      → (set_data_queue name s).1.data_queue ≡ name
  unfolding set_data_queue
  set_data_queue-ok name s h =
      ground (arith, eq_iff name "", eq_iff s.data_queue "", eq_iff s.data_queue name)

  setup_data_queue-queue : (s : Sink j A V) → (setup_data_queue s).1.data_queue ≡ s.data_queue
  unfolding setup_data_queue
  setup_data_queue-queue s = ground arith

  entry-queue :
      (object : Bool) (key : String) (value : Value) (s : Sink j A V)
      → (if object then emplace_metadata key value s else s).data_queue ≡ s.data_queue
  entry-queue true key value s = refl
  entry-queue false key value s = refl

  add_metadata-queue :
      (items : List (String × Value)) (s : Sink j A V)
      → (add_metadata items s).data_queue ≡ s.data_queue
  unfolding add_metadata
  add_metadata-queue [] s = refl
  add_metadata-queue ((key, value) ∷ rest) s =
      add_metadata-queue rest (if j.is_object value then emplace_metadata key value s else s)
      ∙ entry-queue (j.is_object value) key value s

  -- A call that leaves the data queue as it is, and one that succeeds only with `Q`.
  record Stays {B : Type 0} (m : Action (Sink j A V) B) : Type 0 where
    stays : (s : Sink j A V) → (m s).1.data_queue ≡ s.data_queue

  record Ends (Q : String → Type 0) {B : Type 0} (m : Action (Sink j A V) B) : Type 0 where
    ends : (s : Sink j A V) (x : B) → (m s).0 ≡ ok x → Q (m s).1.data_queue

  module _ {B C : Type 0} {k : B → Action (Sink j A V) C} where
    >>=-Stays : {m : Action (Sink j A V) B} → Stays m → ((x : B) → Stays (k x)) → Stays (m >>= k)
    >>=-Stays {m = m} sm sk = record {
      stays = λ s. elim (Result-cases (m s).0) [
        | inl (x, e) ↦ rw (>>=-ok m k s x e) ((sk x).stays (m s).1 ∙ sm.stays s)
        | inr (x, e) ↦ rw (>>=-err m k s x e) (sm.stays s)
      ];
    }

    module _ {Q : String → Type 0} where
      >>=-Ends :
          (m : Action (Sink j A V) B)
          → ((s : Sink j A V) (x : B) → (m s).0 ≡ ok x → Ends Q (k x))
          → Ends Q (m >>= k)
      >>=-Ends m ek = record {
        ends = λ s y h.
            let (x, e, step) = >>=-inv m k s y h in
            rw step ((ek s x e).ends (m s).1 y (ap (λ p. p.0) (sym step) ∙ h));
      }

      >>=-Ends-first :
          {m : Action (Sink j A V) B} → Ends Q m → ((x : B) → Stays (k x)) → Ends Q (m >>= k)
      >>=-Ends-first {m = m} em sk = record {
        ends = λ s y h.
            let (x, e, step) = >>=-inv m k s y h in rw (step, (sk x).stays (m s).1) (em.ends s x e);
      }

  lift-Stays : {B : Type 0} (r : Result B) → Stays (lift r)
  lift-Stays r = record { stays = λ s. refl }

  when-Stays : (b : Bool) {m : Action (Sink j A V) (Unit {0})} → Stays m → Stays (when b m)
  when-Stays true sm = sm
  when-Stays false sm = record { stays = λ s. refl }

  update_metadata-Stays : (config : Value) → Stays (update_metadata config)
  unfolding update_metadata
  update_metadata-Stays config = when-Stays (j.contains config "metrics") (
      >>=-Stays (lift-Stays (j.at config "metrics")) (λ metrics.
        >>=-Stays (lift-Stays (j.items metrics))
          (λ items. record { stays = add_metadata-queue items })))

  queue_config-Ends :
      (config : Value) (name : String)
      → named_queue j config ≡ ok name
      → Ends (λ queue. named_queue j config ≡ ok queue) (queue_config config name)
  unfolding queue_config
  queue_config-Ends config name named =
      >>=-Ends-first {k = λ _. update_metadata config >> setup_data_queue} {m = set_data_queue name}
        (record { ends = λ s x h. named ∙ ap ok (sym (set_data_queue-ok name s h)) })
        (λ _.
          >>=-Stays {k = λ _. setup_data_queue} (update_metadata-Stays config)
            (λ _. record { stays = setup_data_queue-queue }))

  check_queue_lem :
      (response : Value) (s : Sink j A V)
      → named_queue j response ≡ ok s.data_queue
      → check_queue response s ≡ (ok tt, s)
  unfolding check_queue
  check_queue_lem response s named = elim (Result-cases (j.at response "dataQueue")) [
    | inl (entry, at) ↦
        rw (check_queue, at, sym (ap (λ r. bind r j.get_string) at) ∙ named, same_text s.data_queue)
          refl
    | inr (x, at) ↦ absurd (no-name (sym (ap (λ r. bind r j.get_string) at) ∙ named))
  ]

  module _ (derive : String → Result A) (same : A → A → Bool) where
    sink_config-Ends :
        (config : Value)
        → Ends (λ queue. named_queue j config ≡ ok queue) (sink_config derive same config)
    unfolding sink_config
    sink_config-Ends config =
        >>=-Ends {k = λ _. lift (named_queue j config) >>= queue_config config}
          (data_config derive same config)
          (λ _ _ _.
            >>=-Ends {k = queue_config config} (lift (named_queue j config))
              (λ _ name e. queue_config-Ends config name e))

    -- A configuration that succeeds leaves the data queue that it names.
    pub sink_config-queue :
        (config : Value) (s : Sink j A V)
        → (sink_config derive same config s).0 ≡ ok tt
        → named_queue j config ≡ ok (sink_config derive same config s).1.data_queue
    sink_config-queue config s h = (sink_config-Ends config).ends s tt h

    -- The answer to a subscription does what the same configuration does: when it succeeds, the
    -- data queue is the one that the answer names, so that the test afterwards never fails.
    pub subscribed-sink_config :
        (response : Value) (s : Sink j A V)
        → subscribed derive same response s ≡ sink_config derive same response s
    unfolding subscribed
    subscribed-sink_config response s = elim (Result-cases m.0) [
      | inr (x, e) ↦
          >>=-err (sink_config derive same response) (λ _. check_queue response) s x e
          ∙ ap (λ r. (r, m.1)) (sym e)
      | inl (x, e) ↦
          >>=-ok (sink_config derive same response) (λ _. check_queue response) s x e
          ∙ check_queue_lem response m.1 ((sink_config-Ends response).ends s x e)
          ∙ ap (λ r. (r, m.1)) (sym e)
    ]
      where
        m : Result (Unit {0}) × Sink j A V
        m = sink_config derive same response s
