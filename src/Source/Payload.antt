-- ===== src/Source/Payload.antt =====
-- The payload that `Source::declare_metrics` of src/source.cpp makes, entry by entry.
use metricq_cpp.Prelude.{◌≡◌, true, String, str_eq, if◌then◌else◌}
use metricq_cpp.Prelude.Outcome.{Result, ok}
use metricq_cpp.Json.{Json}
use metricq_cpp.Source.{put_metric}

module _ (j : Json) where
  open j use {Value, is_object, at, put}

  -- The payload `p` is an object whose entry "metrics" is the object `m`.
  pub record Payload (p m : Value) : Type 0 where
    pub payload_object : is_object p ≡ true
    pub has_metrics : j.contains p "metrics" ≡ true
    pub metrics_at : at p "metrics" ≡ ok m
    pub metrics_object : is_object m ≡ true

  -- What holds of a payload once `id` has got the entry `entry`.
  abbrev pub Put : String → Value → Value → Result Value → Type 0
  Put id entry m r =
      (p' m' : Value) × (r ≡ ok p')
      × Payload p' m'
      × ((k : String) → at m' k ≡ (if str_eq id k then ok entry else at m k))

  -- To store the object `m` as the metrics.
  pub put-Payload :
      (p m : Value)
      → is_object p ≡ true
      → is_object m ≡ true
      → (p' : Value) × (put p "metrics" m ≡ ok p') × Payload p' m
  put-Payload p m hp hm =
      let (p', e, o) = j.put-object p "metrics" m hp in
      (
        p',
        e,
        record {
          payload_object = o;
          has_metrics = j.contains-put p p' "metrics" m e "metrics";
          metrics_at = j.at-put p p' "metrics" m hp e "metrics";
          metrics_object = hm;
        },
      )

  pub put_metric-null :
      (id : String) (entry : Value) → Put id entry j.object (put_metric j id entry j.null)
  unfolding put_metric
  put_metric-null id entry =
      let (m', e, o) = j.put-object j.object id entry j.is_object-object in
      let (p', f, payload) = put-Payload j.object m' j.is_object-object o in
      (
        p',
        m',
        rw (j.contains-null "metrics", j.put-null id entry, e, j.put-null "metrics" m') f,
        payload,
        j.at-put j.object m' id entry j.is_object-object e,
      )

  pub put_metric-Payload :
      (id : String) (entry p m : Value) → Payload p m → Put id entry m (put_metric j id entry p)
  unfolding put_metric
  put_metric-Payload id entry p m h =
      let (m', e, o) = j.put-object m id entry h.metrics_object in
      let (p', f, payload) = put-Payload p m' h.payload_object o in
      (
        p',
        m',
        rw (h.has_metrics, h.metrics_at, e) f,
        payload,
        j.at-put m m' id entry h.metrics_object e,
      )
