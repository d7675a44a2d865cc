-- ===== src/WritePath/Advancing.antt =====
-- Every step of a worker that has something to write gets it nearer to its end.
use rsloop.Common.{
  ℕ, suc, refl, sym, ap, subst, false, List-cases, inl, inr, if◌then◌else◌, Result, ok, err, ◌==◌,
  arith,
}
use rsloop.Staging.{OwnedWriteBuffer, remaining, remaining_len, is_sent, advance}
use rsloop.WriterQueue.{
  QueueState, WriterCommand, payload, write_eof, close, abort, stop, TryRecvError, empty,
  disconnected, try_dequeue,
}
use rsloop.WriterQueue.Fifo.{dequeue_nothing, dequeue_first}
use rsloop.WritePath.{Host, StreamTransport}
use rsloop.WritePath.Direct.{socket_write, wrote}
use rsloop.WritePath.Worker.{
  Worker, waiting, holding, writing, draining, looking, clearing, clearing_again, leaving, ended,
  handle_command, write_answered, write_round, received_command, looked, work,
}
use rsloop.WritePath.Wire.{if_elim, wire, wire-drained}
use rsloop.WritePath.Progress.{
  TakesSome, queue_cost, IsPlain, Advances, remaining_len-advance, nonempty_len, lazy-drained,
  taken-Advances, on-Advances, clears-Advances,
}

module _ (h : Host) (some_taken : TakesSome h) where
  received-Advances :
      (t : StreamTransport)
      → IsPlain waiting (wire t)
      → Advances waiting t (received_command h (try_dequeue t.queue) t)
  received-Advances t p =
      let goal : Result WriterCommand TryRecvError × QueueState → Type 0 =
        λ r. Advances waiting t (received_command h r t) in
      elim (List-cases t.queue.commands) [
        | inl e ↦
            let none_left = ap queue_cost e in
            subst goal (sym (dequeue_nothing t.queue e)) (
              subst (λ b. goal (err (if b then empty else disconnected), t.queue)) (sym p.sender)
                (record { plain = p; awake = refl; nearer = inr (none_left, none_left) }))
        | inr (c, cs, e) ↦
            subst goal (sym (dequeue_first t.queue c cs e))
              (taken-Advances waiting t c cs p e (omega arith))
      ]

  looked-Advances :
      (t : StreamTransport)
      → IsPlain looking (wire t)
      → Advances looking t (looked h (try_dequeue t.queue) t)
  looked-Advances t p =
      let goal : Result WriterCommand TryRecvError × QueueState → Type 0 =
        λ r. Advances looking t (looked h r t) in
      elim (List-cases t.queue.commands) [
        | inl e ↦ subst goal (sym (dequeue_nothing t.queue e)) (
            subst (λ b. goal (err (if b then empty else disconnected), t.queue)) (sym p.sender)
              (on-Advances looking clearing t t t.out p refl refl refl (omega arith) (omega arith)))
        | inr (c, cs, e) ↦
            subst goal (sym (dequeue_first t.queue c cs e))
              (taken-Advances looking t c cs p e (omega arith))
      ]

  round-Advances :
      (n : ℕ) (w : OwnedWriteBuffer) (t : StreamTransport)
      → IsPlain (writing n w) (wire t)
      → Advances (writing n w) t (write_round h n w t)
  unfolding write_round is_sent socket_write remaining_len
  round-Advances n w t p =
      if_elim (Advances (writing n w) t) (is_sent w) _ _
        (λ e.
          on-Advances (writing n w) (draining n) t t t.out p refl refl refl (omega arith)
            (omega arith))
        (λ e.
          let one = nonempty_len (remaining w) e in
          let (k, taken) = some_taken t.socket_calls (remaining w) one in
          subst (λ r. Advances (writing n w) t (write_answered h n w (r, wrote (remaining w) r t)))
            (sym taken)
            (if_elim (Advances (writing n w) t) (suc k == 0) _ _ (λ z. absurd (ground (arith, z)))
              (λ z.
                on-Advances (writing n w) (writing n (advance w (suc k))) t
                  (wrote (remaining w) (ok (suc k)) t) _ p refl refl refl (omega arith)
                  (omega (arith, one, remaining_len-advance w (suc k))))))

  pub work-Advances :
      (k : Worker) (t : StreamTransport) → IsPlain k (wire t) → Advances k t (work h k t)
  unfolding work handle_command
  work-Advances waiting t p = received-Advances t p
  work-Advances (holding (payload w)) t p =
      on-Advances (holding (payload w)) (writing (remaining_len w) w) t t t.out p refl refl refl
        (omega arith) (omega arith)
  work-Advances (holding write_eof) t p = absurd (cc p.hand)
  work-Advances (holding close) t p = absurd (cc p.hand)
  work-Advances (holding abort) t p = absurd (cc p.hand)
  work-Advances (holding stop) t p = absurd (cc p.hand)
  work-Advances (writing n w) t p = round-Advances n w t p
  work-Advances (draining n) t p =
      on-Advances (draining n) looking t _ t.out p (wire-drained false n t) (lazy-drained n t) refl
        (omega arith) (omega arith)
  work-Advances looking t p = looked-Advances t p
  work-Advances clearing t p = clears-Advances clearing clearing_again t p refl (omega arith)
  work-Advances clearing_again t p = clears-Advances clearing_again waiting t p refl (omega arith)
  work-Advances (leaving b) t p = absurd (cc p.hand)
  work-Advances ended t p = absurd (cc p.hand)
