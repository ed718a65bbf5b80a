-- ===== src/Transformer/Subscribed.antt =====
-- The answer to `Transformer::subscribe_metrics` of src/transformer.cpp.
use metricq_cpp.Prelude.{◌≡◌, refl, ap, sym, ◌∙◌, inl, inr, Bool, String}
use metricq_cpp.Prelude.Outcome.{
  Result, ok, Action, ◌>>◌, bind, Result-cases, >>-ok, >>-step, >>=-err,
}
use metricq_cpp.Json.{Json}
use metricq_cpp.Sink.{sink_config, named_queue}
use metricq_cpp.Sink.Subscribed.{sink_config-queue, same_text, no-name}
use metricq_cpp.Transformer.{Transformer, Hooks, on_sink, subscribed, assert_queue, declare_metrics}

module _ {j : Json} {A V : Type 0} where
  open j use {Value}

  assert_queue_lem :
      (response : Value) (s : Transformer j A V)
      → named_queue j response ≡ ok s.sink.data_queue
      → assert_queue response s ≡ (ok tt, s)
  unfolding assert_queue
  assert_queue_lem response s named = elim (Result-cases (j.at response "dataQueue")) [
    | inl (entry, at) ↦
        rw
          (
            assert_queue,
            at,
            sym (ap (λ r. bind r j.get_string) at) ∙ named,
            same_text s.sink.data_queue,
          )
          refl
    | inr (x, at) ↦ absurd (no-name (sym (ap (λ r. bind r j.get_string) at) ∙ named))
  ]

  module _ (hooks : Hooks j A V) (derive : String → Result A) (same : A → A → Bool) where
    -- The answer to a subscription does what the configuration of the sink does, and if that succeeds
    -- `on_transformer_ready` and `declare_metrics`, in this order: the assertion in between, that the
    -- answer names the data queue, never fails.
    pub subscribed-on_sink :
        (response : Value) (s : Transformer j A V)
        → subscribed hooks derive same response s
          ≡ (on_sink (sink_config derive same response)
                >> (hooks.on_transformer_ready >> declare_metrics))
              s
    unfolding subscribed
    subscribed-on_sink response s = elim (Result-cases configured.0) [
      | inr (x, e) ↦
          >>=-err configure (λ _. assert_queue response >> rest) s x e
          ∙ sym (>>=-err configure (λ _. rest) s x e)
      | inl (a, e) ↦
          >>-ok configure (assert_queue response >> rest) s a e
          ∙ >>-step (assert_queue response) rest configured.1 tt configured.1 (
              assert_queue_lem response configured.1
                (sink_config-queue derive same response s.sink e))
          ∙ sym (>>-ok configure rest s a e)
    ]
      where
        configure : Action (Transformer j A V) (Unit {0})
        configure = on_sink (sink_config derive same response)

        rest : Action (Transformer j A V) (Unit {0})
        rest = hooks.on_transformer_ready >> declare_metrics

        configured : Result (Unit {0}) × Transformer j A V
        configured = configure s
