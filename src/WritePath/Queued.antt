-- ===== src/WritePath/Queued.antt =====
-- A write that goes to the queue.
use rsloop.Common.{
  ℕ, ◌≡◌, refl, sym, ap, ◌∙◌, subst, Bool, true, false, List, [], ◌++◌, none, Bool-cases, inl, inr,
  if◌then◌else◌, Result,
}
use rsloop.Staging.{OwnedWriteBuffer, remaining}
use rsloop.Staging.Remaining.{IsWritable}
use rsloop.WriterQueue.{WriterCommand, QueueState, payload, push_back}
use rsloop.WritePath.{Host, StreamTransport, clear_write_buffer, notify_pause_writing}
use rsloop.WritePath.Direct.{send, fail_write, ensure_writer_worker, after_send, queue_recorded}
use rsloop.WritePath.Wire.{
  if_true, if_false, Wire, wire, wire-notify_pause, wire-cleared, payload_bytes-map, queued,
  staged_bytes, Sent, enqueue-Sent,
}
use rsloop.WritePath.Ordered.{
  Ordered, Prefix, Closed, Closed-Ordered, Closed-more, enqueue_alive, enqueue_dead,
  fail_write-Closed,
}
use rsloop.WritePath.Started.{Queueable, behind_queued, worker-cases}

module _ (h : Host) where
  -- A send that the worker is not there for.
  refused-Closed :
      (held acc : List ℕ) (t : StreamTransport)
      → Prefix held acc (wire t)
      → t.pending_direct_write ≡ none
      → Closed held acc (wire (fail_write h true none (clear_write_buffer true false t)))
  refused-Closed held acc t p n =
      let same = wire-cleared true false t in
      fail_write-Closed h true none held acc (clear_write_buffer true false t)
        (subst (Prefix held acc) (sym same) p) (λ c. ap Wire.pending same ∙ n)

  pub refused-Ordered :
      (bytes held acc : List ℕ) (t : StreamTransport)
      → Prefix held acc (wire t)
      → t.pending_direct_write ≡ none
      → Ordered held
          (acc ++ bytes)
          (wire (fail_write h true none (clear_write_buffer true false t)))
  refused-Ordered bytes held acc t p n =
      Closed-Ordered held (acc ++ bytes) _
        (Closed-more held acc bytes _ (refused-Closed held acc t p n))

  -- A send that it is there for.
  pub taken-Ordered :
      (should_pause : Bool) (bytes held acc : List ℕ) (t : StreamTransport) (q' : QueueState)
      → Queueable held acc (wire t)
      → t.queue.receiver_alive ≡ true
      → Sent bytes t.queue q'
      → Ordered held (acc ++ bytes) (
          wire (
            if should_pause
            then notify_pause_writing true (record t { queue = q' })
            else record t { queue = q' }))
  taken-Ordered should_pause bytes held acc t q' q l s =
      let u : StreamTransport = record t { queue = q' } in
      let x = wire u in
      let o : Ordered held (acc ++ bytes) x = record {
        rest = [];
        bytes =
            behind_queued t.out held (queued t.queue) q.front.rest acc bytes (queued q') _
              q.front.bytes (q.whole l) s.behind (ap staged_bytes q.empty);
        sendable = s.good;
        idle = λ p r c. absurd (cc (q.flagged p, r));
        stage = λ w e. absurd (cc (e, q.empty));
        whole = λ c. inl refl;
      } in
      elim (Bool-cases should_pause) [
        | inl e ↦
            subst (λ v. Ordered held (acc ++ bytes) (wire v)) (sym (if_true should_pause _ u e))
              (subst (Ordered held (acc ++ bytes)) (sym (wire-notify_pause true u)) o)
        | inr e ↦
            subst (λ v. Ordered held (acc ++ bytes) (wire v)) (sym (if_false should_pause _ u e)) o
      ]

  sent-Ordered :
      (should_pause : Bool) (w : OwnedWriteBuffer) (held acc : List ℕ) (t : StreamTransport)
      → Queueable held acc (wire t)
      → IsWritable w
      → Ordered held (acc ++ remaining w) (wire (after_send h should_pause (send h (payload w) t)))
  unfolding send
  sent-Ordered should_pause w held acc t q v =
      let q' : QueueState = record t.queue {
        commands = push_back h.alloc t.queue.commands (payload w);
      } in
      let goal : Result (Unit {0}) WriterCommand × QueueState → Type 0 = λ r.
        Ordered held (acc ++ remaining w)
          (wire (after_send h should_pause (r.0, record t { queue = r.1 }))) in
      elim (Bool-cases t.queue.receiver_alive) [
        | inl l ↦ subst goal (sym (enqueue_alive h.alloc t.queue (payload w) l)) (
            taken-Ordered should_pause (remaining w) held acc t _ q l (
              subst (λ xs. Sent xs t.queue q') (payload_bytes-map (remaining w))
                (enqueue-Sent h.alloc t.queue (payload w) l q.front.sendable v)))
        | inr l ↦
            subst goal (sym (enqueue_dead h.alloc t.queue (payload w) l))
              (refused-Ordered (remaining w) held acc t q.front q.empty)
      ]

  -- A write that is queued is put behind all bytes before it.
  pub queue_recorded-Ordered :
      (should_pause : Bool) (w : OwnedWriteBuffer) (held acc : List ℕ) (t : StreamTransport)
      → Queueable held acc (wire t)
      → IsWritable w
      → Ordered held (acc ++ remaining w) (wire (queue_recorded h should_pause w t))
  unfolding queue_recorded send
  queue_recorded-Ordered should_pause w held acc t q v =
      let t' = ensure_writer_worker h t in
      let goal : Result (Unit {0}) WriterCommand × QueueState → Type 0 = λ r.
        Ordered held (acc ++ remaining w)
          (wire (after_send h should_pause (r.0, record t' { queue = r.1 }))) in
      elim (worker-cases h held acc t q) [
        | inl q' ↦ sent-Ordered should_pause w held acc t' q' v
        | inr d ↦
            subst goal (sym (enqueue_dead h.alloc t'.queue (payload w) d.receiver_gone))
              (refused-Ordered (remaining w) held acc t' d.front d.empty)
      ]
