-- ===== src/Handler/Lifecycle.antt =====
-- Liveness of writing, and the heartbeat, in src/connection_handler.cpp.
use metricq_cpp.Prelude.{
  ℕ, ◌*◌, ◌/◌, ◌==◌, ◌<◌, ◌≡◌, ◌⊎◌, refl, ap, sym, ◌∙◌, true, false, Bool-cases, not, ◌&&◌, inl,
  inr, List, [], ◌∷◌, ◌++◌, map, append-nil, arith, if◌then◌else◌, append_assoc,
}
use metricq_cpp.Prelude.Outcome.{ok}
use metricq_cpp.Buffer.{QueuedBuffer, front, emplace, consume}
use metricq_cpp.Buffer.Bytes.{IsValid, contents, front_lem, emplace_lem, empty-emplace}
use metricq_cpp.Handler.{
  Handler, Amqp, Op, write_some, wait_heartbeat, abort_wait, success, flush, on_data, on_negotiate,
  on_written, cannot_flush, record_given, schedule_beat,
}
use metricq_cpp.Handler.Write.{flush_idle, flush_writes, flush-busy, flush-kept, flush_cases}
use metricq_cpp.Handler.Stream.{after_consume, on_written_lem}

-- The intervals of the waits of the heartbeat timer that are not aborted.
abbrev pub wait_of : Op → List ℕ
wait_of (wait_heartbeat ms) = ms ∷ []
wait_of _ = []

abbrev pub waits : List Op → List ℕ
waits [] = []
waits (op ∷ ops) = wait_of op ++ waits ops

waits-append : (xs ys : List Op) → waits (xs ++ ys) ≡ waits xs ++ waits ys
waits-append [] ys = refl
waits-append (op ∷ xs) ys =
    ap (◌++◌ (wait_of op)) (waits-append xs ys)
    ∙ sym (append_assoc (wait_of op) (waits xs) (waits ys))

wait_of-abort_wait : (op : Op) → wait_of (abort_wait op) ≡ []
wait_of-abort_wait (wait_heartbeat ms) = refl
wait_of-abort_wait _ = refl

waits-abort_wait : (ops : List Op) → waits (map abort_wait ops) ≡ []
waits-abort_wait [] = refl
waits-abort_wait (op ∷ ops) = rw (wait_of-abort_wait op, waits-abort_wait ops)

module _ {C : Type 0} where
  -- `onData` on valid buffers never fails, and adds its bytes to those that wait. On an open socket with
  -- no write marked as in progress it starts one write, of the front of the buffers, and marks it; with
  -- one marked, or on a closed socket, it starts none.
  pub on_data-busy :
      (bytes : List ℕ) (h : Handler C)
      → IsValid h.send_buffers
      → let (r, h') = on_data bytes h in
        (r ≡ ok tt)
        × (contents h'.send_buffers ≡ contents h.send_buffers ++ bytes)
        × (h.socket_open ≡ true
            → h.flush_in_progress ≡ false
            → (next : List ℕ) × (front h'.send_buffers ≡ ok next)
              × (h'.flush_in_progress ≡ true)
              × (h'.pending ≡ h.pending ++ write_some next ∷ []))
        × ((h.socket_open ≡ false) ⊎ (h.flush_in_progress ≡ true)
            → (h'.flush_in_progress ≡ h.flush_in_progress) × (h'.pending ≡ h.pending))
  unfolding on_data
  on_data-busy bytes h v =
      let stored : Handler C = record (record_given bytes h) {
        send_buffers = emplace bytes h.send_buffers;
      } in
      let (valid, whole) = emplace_lem bytes h.send_buffers v in
      let nonempty = empty-emplace bytes h.send_buffers in
      (
        (flush-busy stored valid).0,
        ap contents (flush-kept stored) ∙ whole,
        (λ opened idle.
            let (next, fronts) = front_lem (emplace bytes h.send_buffers) valid nonempty in
            let writes_it =
              flush_writes stored next (ground (arith, opened, idle, nonempty)) fronts.0 in
            (
              next,
              ap front (flush-kept stored) ∙ fronts.0,
              ap (λ p. p.1.flush_in_progress) writes_it,
              ap (λ p. p.1.pending) writes_it,
            )),
        λ busy.
            let idle = flush_idle stored (may_not busy) in
            (ap (λ p. p.1.flush_in_progress) idle, ap (λ p. p.1.pending) idle),
      )
    where
      may_not :
          (h.socket_open ≡ false) ⊎ (h.flush_in_progress ≡ true)
          → cannot_flush
              (record (record_given bytes h) { send_buffers = emplace bytes h.send_buffers })
            ≡ true
      may_not (inl closed) = ground (arith, closed)
      may_not (inr flushing) = ground (arith, flushing)

  flush-waits : (h : Handler C) → waits (flush h).1.pending ≡ waits h.pending
  flush-waits h = elim (flush_cases h) [
    | inl e ↦ ap waits e
    | inr (bytes, e) ↦
        ap waits e ∙ (waits-append h.pending (write_some bytes ∷ []) ∙ append-nil (waits h.pending))
  ]

  schedule_beat-waits : (ms : ℕ) (h : Handler C) → waits (schedule_beat ms h).1.pending ≡ ms ∷ []
  schedule_beat-waits ms h =
      waits-append (map abort_wait h.pending) (wait_heartbeat ms ∷ [])
      ∙ ap (λ ws. ws ++ ms ∷ []) (waits-abort_wait h.pending)

module _ (a : Amqp) where
  open a use {C}

  -- A write that completes on an open connection with heartbeats leaves exactly one wait for the
  -- next beat, of the interval; with an interval of 0 or a closed socket it sets up none.
  pub on_written-waits :
      (n : ℕ) (b : QueuedBuffer) (h : Handler C)
      → consume n h.send_buffers ≡ ok b
      → waits (on_written a (success n) h).1.pending ≡ (
          if not (h.heartbeat_interval == 0) && h.socket_open
          then h.heartbeat_interval ∷ []
          else waits h.pending)
  unfolding after_consume
  on_written-waits n b h e =
      rw (on_written_lem a n b h e) (flush-waits (after_consume a b h) ∙ scheduled)
    where
      scheduled : waits (after_consume a b h).pending ≡ (
          if not (h.heartbeat_interval == 0) && h.socket_open
          then h.heartbeat_interval ∷ []
          else waits h.pending)
      scheduled = elim (Bool-cases (not (h.heartbeat_interval == 0) && h.socket_open)) [
        | inl t ↦ rw t (schedule_beat-waits h.heartbeat_interval (record h { send_buffers = b }))
        | inr t ↦ rw t
      ]

  -- The handler accepts a heartbeat timeout of one second as it accepts every other, but then
  -- halves it to an interval of 0, so no write that completes ever sets up a beat.
  pub on_negotiate-one :
      (timeout n : ℕ) (b : QueuedBuffer) (h : Handler C)
      → timeout < 2
      → consume n h.send_buffers ≡ ok b
      → let (r, h') = on_negotiate timeout h in
        (r ≡ ok timeout) × (waits (on_written a (success n) h').1.pending ≡ waits h.pending)
  unfolding on_negotiate
  on_negotiate-one timeout n b h short e = (
    refl,
    on_written-waits n b (record h { heartbeat_interval = timeout / 2 * 1000 }) e ∙ ground arith,
  )
