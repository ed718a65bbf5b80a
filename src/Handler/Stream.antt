-- ===== src/Handler/Stream.antt =====
-- The stream of bytes from `onData` to the socket, over every course of events on the handler of
-- src/connection_handler.cpp.
use metricq_cpp.Prelude.{
  ℕ, zero, suc, ◌==◌, ◌≤◌, ◌≡◌, refl, ap, sym, ◌∙◌, true, false, Bool-cases, not, ◌&&◌, inl, inr,
  List, [], ◌∷◌, ◌++◌, length, take, drop, append_assoc, arith, if◌then◌else◌, ◌≢◌,
}
use metricq_cpp.Prelude.Outcome.{ok}
use metricq_cpp.Buffer.{QueuedBuffer, front, consume}
use metricq_cpp.Buffer.Bytes.{IsValid, contents, consume_lem, front_some_nonempty, front_lem}
use metricq_cpp.Handler.{Handler, Amqp, Op, write_some, success, flush, on_written, schedule_beat}
use metricq_cpp.Handler.Write.{Inv, WriteState, writes, writes-append, flush-Inv}
use metricq_cpp.Handler.Library.{schedule_beat-Inv, schedule_beat-writes}

take-drop-prefix :
    (n : ℕ) (xs ys : List ℕ) → n ≤ length xs → take n xs ++ drop n (xs ++ ys) ≡ xs ++ ys
take-drop-prefix zero xs ys h = refl
take-drop-prefix (suc n) [] ys h = absurd (omega arith)
take-drop-prefix (suc n) (x ∷ xs) ys h = ap (◌∷◌ x) (take-drop-prefix n xs ys (omega arith))

-- A write of `bytes` is among the operations under way, and `rest` are the others.
pub record Picks (bytes : List ℕ) (ops rest : List Op) : Type 0 where
  pub before : List Op
  pub after : List Op
  pub ops_eq : ops ≡ before ++ write_some bytes ∷ after
  pub rest_eq : rest ≡ before ++ after

one_write :
    (xs : List (List ℕ)) (b c : List ℕ) (ys : List (List ℕ))
    → xs ++ b ∷ ys ≡ c ∷ []
    → (b ≡ c) × (xs ++ ys ≡ [])
one_write [] b c ys e = (ground arith, ground arith)
one_write (x ∷ []) b c ys e = absurd (cc)
one_write (x ∷ y ∷ xs) b c ys e = absurd (cc)

no_write : (xs : List (List ℕ)) (b : List ℕ) (ys : List (List ℕ)) → xs ++ b ∷ ys ≢ []
no_write [] b ys e = cc
no_write (x ∷ xs) b ys e = cc

module _ {C : Type 0} where
  -- The one write that is under way is of the front, and without it there is none.
  picked :
      (wire accepted bytes : List ℕ) (h : Handler C) (rest : List Op)
      → Inv wire accepted h
      → Picks bytes h.pending rest
      → (front h.send_buffers ≡ ok bytes) × (writes rest ≡ []) × (h.flush_in_progress ≡ true)
  picked wire accepted bytes h rest v p = go v.state
    where
      split : writes h.pending ≡ writes p.before ++ bytes ∷ writes p.after
      split = ap writes p.ops_eq ∙ writes-append p.before (write_some bytes ∷ p.after)

      without : writes rest ≡ writes p.before ++ writes p.after
      without = ap writes p.rest_eq ∙ writes-append p.before p.after

      go :
          WriteState h.flush_in_progress h.send_buffers (writes h.pending)
          → (front h.send_buffers ≡ ok bytes) × (writes rest ≡ []) × (h.flush_in_progress ≡ true)
      go (inl e) = absurd (no_write (writes p.before) bytes (writes p.after) (sym split ∙ e))
      go (inr (flag, (b, e, f))) =
          let (same, nothing) =
            one_write (writes p.before) bytes b (writes p.after) (sym split ∙ e) in
          (rw same f, without ∙ nothing, flag)

  -- A write that fails leaves the operations under way.
  pub picked-Inv :
      (wire accepted bytes : List ℕ) (h : Handler C) (rest : List Op)
      → Inv wire accepted h
      → Picks bytes h.pending rest
      → Inv wire accepted (record h { pending = rest })
  picked-Inv wire accepted bytes h rest v p = record {
    valid = v.valid;
    account = v.account;
    counted = v.counted;
    state = inl (picked wire accepted bytes h rest v p).1;
  }

module _ (a : Amqp) where
  open a use {C}

  abbrev completed : List Op → Handler C → Handler C
  completed rest h = record h { pending = rest }

  -- What `on_written` comes to once the bytes are consumed.
  unfoldable pub after_consume : QueuedBuffer → Handler C → Handler C
  after_consume b h =
      let h' : Handler C = record h { send_buffers = b } in
      record ((if not (h.heartbeat_interval == 0) && h.socket_open
        then (schedule_beat h.heartbeat_interval h').1
        else h')) { flush_in_progress = false }

  pub on_written_lem :
      (n : ℕ) (b : QueuedBuffer) (h : Handler C)
      → consume n h.send_buffers ≡ ok b
      → on_written a (success n) h ≡ flush (after_consume b h)
  unfolding on_written after_consume
  on_written_lem n b h e = elim (Bool-cases (not (h.heartbeat_interval == 0) && h.socket_open)) [
    | inl t ↦ ground arith
    | inr t ↦ ground arith
  ]

  -- When a write completes, the socket has taken `n` of its bytes, and these leave the buffers.
  pub on_written-Inv :
      (wire accepted bytes : List ℕ) (n : ℕ) (h : Handler C) (rest : List Op)
      → Inv wire accepted h
      → Picks bytes h.pending rest
      → n ≤ length bytes
      → Inv (wire ++ take n bytes) accepted (on_written a (success n) (completed rest h)).1
  unfolding after_consume
  on_written-Inv wire accepted bytes n h rest v p k =
      rw (on_written_lem n b (completed rest h) consumed.0)
        (flush-Inv (wire ++ take n bytes) accepted _ stored)
    where
      found : (front h.send_buffers ≡ ok bytes) × (writes rest ≡ []) × (h.flush_in_progress ≡ true)
      found = picked wire accepted bytes h rest v p

      taken :
          (b' : QueuedBuffer) × (consume n h.send_buffers ≡ ok b')
          × IsValid b'
          × (contents b' ≡ drop n (contents h.send_buffers))
      taken =
          let (b', e, w) = consume_lem n h.send_buffers bytes v.valid found.0 k in (b', e, w.0, w.1)

      b : QueuedBuffer
      b = taken.0

      consumed : (consume n h.send_buffers ≡ ok b) × IsValid b
      consumed = (taken.1, taken.2)

      parts : (more : List ℕ) × (contents h.send_buffers ≡ bytes ++ more)
      parts =
          let (bytes', f) =
            front_lem h.send_buffers v.valid (front_some_nonempty h.send_buffers bytes found.0) in
          (f.1.0, f.1.1 ∙ ap (λ xs. xs ++ f.1.0) (ground (arith, f.0, found.0)))

      account : (wire ++ take n bytes) ++ contents b ≡ accepted
      account =
          append_assoc wire (take n bytes) (contents b)
          ∙ (ap (◌++◌ wire) (
                ap (◌++◌ (take n bytes)) (taken.3 ∙ ap (drop n) parts.1)
                ∙ (take-drop-prefix n bytes parts.0 k ∙ sym parts.1))
              ∙ v.account)

      plain_Inv :
          Inv (wire ++ take n bytes) accepted (record (completed rest h) { send_buffers = b })
      plain_Inv = record {
        valid = consumed.1;
        account = account;
        counted = v.counted;
        state = inl found.1;
      }

      unflagged :
          (h' : Handler C)
          → Inv (wire ++ take n bytes) accepted h'
          → writes h'.pending ≡ []
          → Inv (wire ++ take n bytes) accepted (record h' { flush_in_progress = false })
      unflagged h' v' e = record {
        valid = v'.valid;
        account = v'.account;
        counted = v'.counted;
        state = inl e;
      }

      stored : Inv (wire ++ take n bytes) accepted (after_consume b (completed rest h))
      stored = elim (Bool-cases (not (h.heartbeat_interval == 0) && h.socket_open)) [
        | inl t ↦ rw t (
            unflagged _
              (schedule_beat-Inv (wire ++ take n bytes) accepted h.heartbeat_interval _ plain_Inv)
              (schedule_beat-writes h.heartbeat_interval
                (record (completed rest h) { send_buffers = b }) found.1))
        | inr t ↦ rw t (unflagged _ plain_Inv found.1)
      ]
