-- ===== src/Handler/Preserves.antt =====
-- Calls of src/connection_handler.cpp that keep the stream of bytes, and chains of them.
use metricq_cpp.Prelude.{
  ℕ, ◌≡◌, refl, ◌∙◌, Bool, true, false, inl, inr, List, [], ◌∷◌, ◌++◌, Option, none, some,
  append_assoc, append-nil, String,
}
use metricq_cpp.Prelude.Outcome.{
  Action, ◌>>=◌, ◌>>◌, gets, when, pure, or_raise, assert, Failure, Result-cases, >>=-ok, >>=-err,
}
use metricq_cpp.Handler.{Handler, Op, flush, on_data, on_error, schedule_beat, submit}
use metricq_cpp.Handler.Write.{
  Inv, Inv-same, write_of, writes, writes-append, flush-Inv, on_data-Inv,
}
use metricq_cpp.Handler.Library.{on_error-Inv, schedule_beat-Inv}

module _ {C : Type 0} where
  -- The stream is as the invariant says, with some more bytes accepted.
  abbrev pub Keeps : List ℕ → List ℕ → Handler C → Type 0
  Keeps wire accepted h = (given : List ℕ) × Inv wire (accepted ++ given) h

  pub record Preserves {A : Type 0} (m : Action (Handler C) A) : Type 0 where
    pub keeps :
        (wire accepted : List ℕ) (h : Handler C)
        → Keeps wire accepted h
        → Keeps wire accepted (m h).1

  pub >>=-Preserves :
      {A B : Type 0} {m : Action (Handler C) A} {k : A → Action (Handler C) B}
      → Preserves m
      → ((x : A) → Preserves (k x))
      → Preserves (m >>= k)
  >>=-Preserves {m = m} {k = k} pm pk = record {
    keeps = λ wire accepted h v. elim (Result-cases (m h).0) [
      | inl (x, e) ↦
          rw (>>=-ok m k h x e) ((pk x).keeps wire accepted (m h).1 (pm.keeps wire accepted h v))
      | inr (x, e) ↦ rw (>>=-err m k h x e) (pm.keeps wire accepted h v)
    ];
  }

  pub >>-Preserves :
      {A B : Type 0} {m : Action (Handler C) A} {k : Action (Handler C) B}
      → Preserves m
      → Preserves k
      → Preserves (m >> k)
  >>-Preserves {m = m} {k = k} pm pk = record {
    keeps = (>>=-Preserves {m = m} {k = λ _. k} pm (λ _. pk)).keeps;
  }

  pub when-Preserves :
      (b : Bool) {m : Action (Handler C) (Unit {0})} → Preserves m → Preserves (when b m)
  when-Preserves true pm = pm
  when-Preserves false pm = record { keeps = λ wire accepted h v. v }

  -- A step that keeps the invariant for all bytes.
  pub of_Inv :
      {A : Type 0} (m : Action (Handler C) A)
      → ((wire accepted : List ℕ) (h : Handler C) → Inv wire accepted h → Inv wire accepted (m h).1)
      → Preserves m
  of_Inv m p = record { keeps = λ wire accepted h v. (v.0, p wire (accepted ++ v.0) h v.1) }

  -- A step that leaves the buffers, the flag and the writes alone.
  pub of_same :
      {A : Type 0} (m : Action (Handler C) A)
      → ((h : Handler C)
          → ((m h).1.send_buffers ≡ h.send_buffers)
            × ((m h).1.flush_in_progress ≡ h.flush_in_progress)
            × (writes (m h).1.pending ≡ writes h.pending)
            × ((m h).1.handed ≡ h.handed))
      → Preserves m
  of_same m same =
      of_Inv m (λ wire accepted h v.
        let (b, f, w, g) = same h in Inv-same wire accepted h (m h).1 b f w g v)

  -- The values that a method reads.
  pub gets-Preserves : {A : Type 0} (f : Handler C → A) → Preserves (gets f)
  gets-Preserves f = record { keeps = λ wire accepted h v. v }

  pub submit-Preserves : (op : Op) → write_of op ≡ [] → Preserves (submit op)
  submit-Preserves op e = of_same (submit op) (λ h.
      (refl, refl, writes-append h.pending (op ∷ []) ∙ rw e (append-nil (writes h.pending)), refl))

  pub on_data-Preserves : (bytes : List ℕ) → Preserves (on_data bytes)
  on_data-Preserves bytes = record {
    keeps = λ wire accepted h v. (
      v.0 ++ bytes,
      rw (← append_assoc accepted) (on_data-Inv wire (accepted ++ v.0) bytes h v.1),
    );
  }

  pub flush-Preserves : Preserves flush
  flush-Preserves = of_Inv flush flush-Inv

  pub on_error-Preserves : (message : String) → Preserves (on_error message)
  on_error-Preserves message =
      of_Inv (on_error message) (λ wire accepted h v. on_error-Inv wire accepted message h v)

  pub schedule_beat-Preserves : (ms : ℕ) → Preserves (schedule_beat ms)
  schedule_beat-Preserves ms =
      of_Inv (schedule_beat ms) (λ wire accepted h v. schedule_beat-Inv wire accepted ms h v)

  pub or_raise-Preserves : {A : Type 0} (o : Option A) (e : Failure) → Preserves (or_raise o e)
  or_raise-Preserves none e = record { keeps = λ wire accepted h v. v }
  or_raise-Preserves (some x) e = record { keeps = λ wire accepted h v. v }

  pub assert-Preserves : (b : Bool) → Preserves (assert b)
  assert-Preserves true = record { keeps = λ wire accepted h v. v }
  assert-Preserves false = record { keeps = λ wire accepted h v. v }

  pub pure-Preserves : {A : Type 0} (x : A) → Preserves (pure x)
  pure-Preserves x = record { keeps = λ wire accepted h v. v }

pub ruleset chains = (
  >>=-Preserves, >>-Preserves, when-Preserves, gets-Preserves, or_raise-Preserves, assert-Preserves,
  pure-Preserves, flush-Preserves, on_error-Preserves, schedule_beat-Preserves,
)
