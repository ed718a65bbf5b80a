-- ===== src/Handler/Write.antt =====
-- What the handler of src/connection_handler.cpp has under way on its socket.
use metricq_cpp.Prelude.{
  ℕ, ◌≡◌, ◌⊎◌, refl, ap, sym, ◌∙◌, Bool, true, false, Bool-cases, inl, inr, List, [], ◌∷◌, ◌++◌,
  map, append_assoc, arith,
}
use metricq_cpp.Prelude.Outcome.{ok, Result-cases}
use metricq_cpp.Buffer.{QueuedBuffer, emplace, empty, front}
use metricq_cpp.Buffer.Bytes.{IsValid, contents, emplace_lem, front_lem, front-emplace}
use metricq_cpp.Handler.{
  Handler, Op, write_some, abort_wait, flush, on_data, cannot_flush, record_given,
}

-- The data of the writes that are under way.
abbrev pub write_of : Op → List (List ℕ)
write_of (write_some bytes) = bytes ∷ []
write_of _ = []

abbrev pub writes : List Op → List (List ℕ)
writes [] = []
writes (op ∷ ops) = write_of op ++ writes ops

pub writes-append : (xs ys : List Op) → writes (xs ++ ys) ≡ writes xs ++ writes ys
writes-append [] ys = refl
writes-append (op ∷ xs) ys =
    ap (◌++◌ (write_of op)) (writes-append xs ys)
    ∙ sym (append_assoc (write_of op) (writes xs) (writes ys))

write_of-abort_wait : (op : Op) → write_of (abort_wait op) ≡ write_of op
write_of-abort_wait (write_some bytes) = refl
write_of-abort_wait _ = refl

pub writes-abort_wait : (ops : List Op) → writes (map abort_wait ops) ≡ writes ops
writes-abort_wait [] = refl
writes-abort_wait (op ∷ ops) = rw (write_of-abort_wait op, writes-abort_wait ops)

-- No write is under way, or one is, of the front of the buffers, and then the flag is set. (After
-- a write has failed the flag stays set with none under way.)
abbrev pub WriteState : Bool → QueuedBuffer → List (List ℕ) → Type 0
WriteState flag b ws =
    (ws ≡ []) ⊎ ((flag ≡ true) × ((bytes : List ℕ) × (ws ≡ bytes ∷ []) × (front b ≡ ok bytes)))

-- `wire` is what the socket has taken so far, `accepted` what was there at first and what `onData` has been
-- given since.
pub record Inv {C : Type 0} (wire accepted : List ℕ) (h : Handler C) : Type 0 where
  pub valid : IsValid h.send_buffers
  pub account : wire ++ contents h.send_buffers ≡ accepted
  pub counted : h.handed ≡ accepted
  pub state : WriteState h.flush_in_progress h.send_buffers (writes h.pending)

emplace-WriteState :
    (flag : Bool) (b : QueuedBuffer) (ws : List (List ℕ)) (more : List ℕ)
    → WriteState flag b ws
    → WriteState flag (emplace more b) ws
emplace-WriteState flag b ws more (inl e) = inl e
emplace-WriteState flag b ws more (inr (g, (bytes, e, f))) =
    inr (g, (bytes, e, front-emplace more b bytes f))

module _ {C : Type 0} where
  -- `flush` where it may not write, and where it does.
  pub flush_idle : (h : Handler C) → cannot_flush h ≡ true → flush h ≡ (ok tt, h)
  unfolding flush
  flush_idle h e = ground arith

  pub flush_writes :
      (h : Handler C) (bytes : List ℕ)
      → cannot_flush h ≡ false
      → front h.send_buffers ≡ ok bytes
      → flush h ≡ (
        ok tt,
        record h { flush_in_progress = true; pending = h.pending ++ write_some bytes ∷ [] },
      )
  unfolding flush
  flush_writes h bytes e f = ground arith

  not_flushing : (h : Handler C) → cannot_flush h ≡ false → h.flush_in_progress ≡ false
  not_flushing h e = ground arith

  not_empty : (h : Handler C) → cannot_flush h ≡ false → empty h.send_buffers ≡ false
  not_empty h e = ground arith

  state_idle :
      (h : Handler C)
      → WriteState h.flush_in_progress h.send_buffers (writes h.pending)
      → h.flush_in_progress ≡ false
      → writes h.pending ≡ []
  state_idle h (inl e) f = e
  state_idle h (inr (g, _)) f = absurd (cc)

  -- After `flush` the socket is closed, or there is nothing to write, or a write is under way as
  -- far as the flag tells.
  pub flush-busy :
      (h : Handler C)
      → IsValid h.send_buffers
      → ((flush h).0 ≡ ok tt) × (cannot_flush (flush h).1 ≡ true)
  flush-busy h v = elim (Bool-cases (cannot_flush h)) [
    | inl e ↦ rw (flush_idle h e) (refl, e)
    | inr e ↦
        let (bytes, f) = front_lem h.send_buffers v (not_empty h e) in
        rw (flush_writes h bytes e f.0) (refl, ground arith)
  ]

  pub flush-Inv :
      (wire accepted : List ℕ) (h : Handler C) → Inv wire accepted h → Inv wire accepted (flush h).1
  flush-Inv wire accepted h v = elim (Bool-cases (cannot_flush h)) [
    | inl e ↦ rw (flush_idle h e) v
    | inr e ↦
        let (bytes, f) = front_lem h.send_buffers v.valid (not_empty h e) in
        rw (flush_writes h bytes e f.0) (record {
          valid = v.valid;
          account = v.account;
          counted = v.counted;
          state = inr (
            refl,
            (
              bytes,
              writes-append h.pending (write_some bytes ∷ [])
                  ∙ ap (λ ws. ws ++ bytes ∷ []) (state_idle h v.state (not_flushing h e)),
              f.0,
            ),
          );
        })
  ]

  -- What the invariant says of a handler depends on these parts of it only.
  pub Inv-same :
      (wire accepted : List ℕ) (h h' : Handler C)
      → h'.send_buffers ≡ h.send_buffers
      → h'.flush_in_progress ≡ h.flush_in_progress
      → writes h'.pending ≡ writes h.pending
      → h'.handed ≡ h.handed
      → Inv wire accepted h
      → Inv wire accepted h'
  Inv-same wire accepted h h' eb ef ew eh v = record {
    valid = rw eb v.valid;
    account = rw eb v.account;
    counted = eh ∙ v.counted;
    state = rw (eb, ef, ew) v.state;
  }

  pub on_data-Inv :
      (wire accepted bytes : List ℕ) (h : Handler C)
      → Inv wire accepted h
      → Inv wire (accepted ++ bytes) (on_data bytes h).1
  unfolding on_data
  on_data-Inv wire accepted bytes h v =
      flush-Inv wire (accepted ++ bytes)
        (record (record_given bytes h) { send_buffers = emplace bytes h.send_buffers })
        (record {
          valid = (emplace_lem bytes h.send_buffers v.valid).0;
          account =
              rw ((emplace_lem bytes h.send_buffers v.valid).1, ← append_assoc wire)
                (ap (λ xs. xs ++ bytes) v.account);
          counted = ap (λ xs. xs ++ bytes) v.counted;
          state =
              emplace-WriteState h.flush_in_progress h.send_buffers (writes h.pending) bytes
                v.state;
        })

  -- `flush` does not touch the buffers, and adds at most one operation, a write.
  pub flush-kept : (h : Handler C) → (flush h).1.send_buffers ≡ h.send_buffers
  unfolding flush
  flush-kept h = ground arith

  pub flush_cases :
      (h : Handler C)
      → ((flush h).1.pending ≡ h.pending)
        ⊎ ((bytes : List ℕ) × ((flush h).1.pending ≡ h.pending ++ write_some bytes ∷ []))
  unfolding flush
  flush_cases h = elim (Bool-cases (cannot_flush h)) [
    | inl e ↦ inl (ground arith)
    | inr e ↦ elim (Result-cases (front h.send_buffers)) [
      | inl (bytes, f) ↦ inr (bytes, ground arith)
      | inr (x, f) ↦ inl (ground arith)
    ]
  ]
