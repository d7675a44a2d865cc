-- ===== src/WritePath/Working.antt =====
-- Every step of the worker leaves the bytes in order.
use rsloop.Common.{
  ℕ, ◌≡◌, refl, sym, ap, ◌∙◌, subst, true, false, List, [], Option, none, some, List-cases, inl,
  inr, if◌then◌else◌, ok, err, Result, ◌==◌,
}
use rsloop.Staging.{OwnedWriteBuffer, remaining, is_sent, advance}
use rsloop.Staging.Remaining.{IsWritable}
use rsloop.WriterQueue.{
  QueueState, WriterCommand, payload, write_eof, close, abort, stop, TryRecvError, try_dequeue,
}
use rsloop.WriterQueue.Fifo.{dequeue_nothing, dequeue_first}
use rsloop.WriterQueue.Order.{Sendable, all_items}
use rsloop.WritePath.{
  IoError, write_zero, is_transient_write_backpressure, Host, StreamTransport,
  set_write_backpressure_active,
}
use rsloop.WritePath.Direct.{socket_write, wrote}
use rsloop.WritePath.Worker.{
  Worker, waiting, holding, writing, draining, looking, clearing, clearing_again, leaving, ended,
  is_interrupted, eof_sent, shut_down, handle_command, polled, write_answered, write_round,
  received_command, looked, work,
}
use rsloop.WritePath.Wire.{
  staged_bytes, if_elim, is_nil-nil, wire, wire-drained, bytes_of, queued, payload_bytes,
  payload_bytes-map,
}
use rsloop.WritePath.Ordered.{Ordered}
use rsloop.WritePath.Ending.{
  IsStage, end-IsStage, lose-IsStage, taken-Ordered, cleared-Ordered, part-Ordered,
}

module _ (h : Host) where
  eof-IsStage :
      (acc : List ℕ) (e : Option IoError) (t : StreamTransport)
      → Ordered [] acc (wire t)
      → IsStage acc (eof_sent h (e, t))
  eof-IsStage acc (some e) t o = lose-IsStage h none (some e) acc t o
  eof-IsStage acc none t o =
      if_elim (IsStage acc) t.close_on_write_eof _ _ (λ e. lose-IsStage h none none acc t o)
        (λ e. record { ordered = o; grips = tt })

  handle-IsStage :
      (acc : List ℕ) (c : WriterCommand) (t : StreamTransport)
      → Ordered (bytes_of c) acc (wire t)
      → Sendable c
      → IsStage acc (handle_command h c t)
  unfolding handle_command shut_down
  handle-IsStage acc (payload w) t o v = record {
    ordered = subst (λ xs. Ordered xs acc (wire t)) (payload_bytes-map (remaining w)) o;
    grips = v;
  }
  handle-IsStage acc write_eof t o v = eof-IsStage acc (h.shutdown t.socket_calls) _ o
  handle-IsStage acc close t o v = lose-IsStage h none (h.shutdown t.socket_calls) acc _ o
  handle-IsStage acc abort t o v = lose-IsStage h none (h.shutdown t.socket_calls) acc _ o
  handle-IsStage acc stop t o v = record { ordered = o; grips = tt }

  polled-IsStage :
      (acc : List ℕ) (n : ℕ) (w : OwnedWriteBuffer) (e : Option IoError) (t : StreamTransport)
      → Ordered (remaining w) acc (wire t)
      → IsWritable w
      → IsStage acc (polled h n w e t)
  polled-IsStage acc n w none t o v = record { ordered = o; grips = v }
  polled-IsStage acc n w (some e) t o v = lose-IsStage h (some w) (some e) acc t o

  answered-IsStage :
      (acc : List ℕ) (n : ℕ) (w : OwnedWriteBuffer) (t : StreamTransport) (r : Result ℕ IoError)
      → h.write t.socket_calls (remaining w) ≡ r
      → Ordered (remaining w) acc (wire t)
      → IsWritable w
      → IsStage acc (write_answered h n w (r, wrote (remaining w) r t))
  answered-IsStage acc n w t (ok k) e o v =
      let p = part-Ordered acc (wire t) w k o v (h.write_fits t.socket_calls k (remaining w) e) in
      if_elim (IsStage acc) (k == 0) _ _
        (λ z. lose-IsStage h (some (advance w k)) (some write_zero) acc _ p.0)
        (λ z. record { ordered = p.0; grips = p.1 })
  answered-IsStage acc n w t (err x) e o v =
      if_elim (IsStage acc) (is_transient_write_backpressure x) _ _
        (λ z. polled-IsStage acc n w _ _ o v)
        (λ z.
          if_elim (IsStage acc) (is_interrupted x) _ _ (λ y. record { ordered = o; grips = v })
            (λ y. lose-IsStage h (some w) (some x) acc _ o))

  round-IsStage :
      (acc : List ℕ) (n : ℕ) (w : OwnedWriteBuffer) (t : StreamTransport)
      → Ordered (remaining w) acc (wire t)
      → IsWritable w
      → IsStage acc (write_round h n w t)
  unfolding write_round is_sent socket_write
  round-IsStage acc n w t o v =
      if_elim (IsStage acc) (is_sent w) _ _
        (λ e. record {
          ordered = subst (λ xs. Ordered xs acc (wire t)) (is_nil-nil (remaining w) e) o;
          grips = tt;
        })
        (λ e. answered-IsStage acc n w t (h.write t.socket_calls (remaining w)) refl o v)

  pub empty_queue : (q : QueueState) → q.commands ≡ [] → queued q ≡ []
  empty_queue q e =
      ap (λ cs. if q.receiver_alive then payload_bytes (all_items cs) else []) e
      ∙ if_elim (λ (xs : List ℕ). xs ≡ []) q.receiver_alive [] [] (λ l. refl) (λ l. refl)

  received-IsStage :
      (acc : List ℕ) (t : StreamTransport)
      → Ordered [] acc (wire t)
      → t.queue.receiver_alive ≡ true
      → IsStage acc (received_command h (try_dequeue t.queue) t)
  received-IsStage acc t o l =
      let goal : Result WriterCommand TryRecvError × QueueState → Type 0 =
        λ r. IsStage acc (received_command h r t) in
      elim (List-cases t.queue.commands) [
        | inl e ↦ subst goal (sym (dequeue_nothing t.queue e)) (
            if_elim (λ (x : TryRecvError). goal (err x, t.queue)) t.queue.sender_alive _ _
              (λ z. record { ordered = o; grips = tt }) (λ z. lose-IsStage h none none acc t o))
        | inr (c, cs, e) ↦
            let p = taken-Ordered acc (wire t) c cs o l e in
            subst goal (sym (dequeue_first t.queue c cs e)) (record { ordered = p.0; grips = p.1 })
      ]

  cleared-wire :
      (acc : List ℕ) (t : StreamTransport)
      → Ordered [] acc (wire t)
      → queued t.queue ≡ []
      → t.queue.receiver_alive ≡ true
      → Ordered [] acc (wire (set_write_backpressure_active false t))
        × (queued (set_write_backpressure_active false t).queue ≡ [])
  unfolding set_write_backpressure_active
  cleared-wire acc t o n l = (cleared-Ordered acc (wire t) o n l, n)

  looked-IsStage :
      (acc : List ℕ) (t : StreamTransport)
      → Ordered [] acc (wire t)
      → t.queue.receiver_alive ≡ true
      → IsStage acc (looked h (try_dequeue t.queue) t)
  looked-IsStage acc t o l =
      let goal : Result WriterCommand TryRecvError × QueueState → Type 0 =
        λ r. IsStage acc (looked h r t) in
      elim (List-cases t.queue.commands) [
        | inl e ↦
            let n = empty_queue t.queue e in
            subst goal (sym (dequeue_nothing t.queue e)) (
              if_elim (λ (x : TryRecvError). goal (err x, t.queue)) t.queue.sender_alive _ _
                (λ z. record { ordered = o; grips = n })
                (λ z. lose-IsStage h none none acc _ (cleared-wire acc t o n l).0))
        | inr (c, cs, e) ↦
            let p = taken-Ordered acc (wire t) c cs o l e in
            subst goal (sym (dequeue_first t.queue c cs e)) (record { ordered = p.0; grips = p.1 })
      ]

  pub work-IsStage :
      (acc : List ℕ) (k : Worker) (t : StreamTransport)
      → IsStage acc (k, t)
      → t.queue.receiver_alive ≡ true
      → IsStage acc (work h k t)
  unfolding work
  work-IsStage acc waiting t s l = received-IsStage acc t s.ordered l
  work-IsStage acc (holding c) t s l = handle-IsStage acc c t s.ordered s.grips
  work-IsStage acc (writing n w) t s l = round-IsStage acc n w t s.ordered s.grips
  work-IsStage acc (draining n) t s l = record {
    ordered = subst (Ordered [] acc) (sym (wire-drained false n t)) s.ordered;
    grips = tt;
  }
  work-IsStage acc looking t s l = looked-IsStage acc t s.ordered l
  work-IsStage acc clearing t s l =
      let c = cleared-wire acc t s.ordered s.grips l in record { ordered = c.0; grips = c.1 }
  work-IsStage acc clearing_again t s l =
      let c = cleared-wire acc t s.ordered s.grips l in record { ordered = c.0; grips = tt }
  work-IsStage acc (leaving p) t s l = end-IsStage (staged_bytes p) acc t s.ordered
  work-IsStage acc ended t s l = s
