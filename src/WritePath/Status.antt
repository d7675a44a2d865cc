-- ===== src/WritePath/Status.antt =====
-- What a step of the worker leaves of the flags that a write has read.
use rsloop.Common.{
  ℕ, ◌≡◌, refl, sym, ap, subst, false, Option, none, some, List-cases, inl, inr, if_elim, ok, err,
  Result, ◌==◌, is_nil,
}
use rsloop.Staging.{OwnedWriteBuffer, remaining, is_sent}
use rsloop.WriterQueue.{
  QueueState, WriterCommand, payload, write_eof, close, abort, stop, TryRecvError, try_dequeue,
}
use rsloop.WriterQueue.Fifo.{dequeue_nothing, dequeue_first}
use rsloop.WritePath.{
  IoError, is_transient_write_backpressure, Host, StreamTransport, record_write_buffer_drained,
  notify_resume_writing, enqueue_event,
}
use rsloop.WritePath.Direct.{socket_write, wrote}
use rsloop.WritePath.Writes.{write_status}
use rsloop.WritePath.Worker.{
  Worker, waiting, holding, writing, draining, looking, clearing, clearing_again, leaving, ended,
  Stage, is_interrupted, lose, end_worker, eof_sent, shut_down, handle_command, polled,
  write_answered, write_round, received_command, looked, work,
}
use rsloop.WritePath.Run.{is_disturbing}

-- The flags are those of `t`.
Shows : StreamTransport → Stage → Type 0
Shows t s = write_status s.1 ≡ write_status t

module _ (h : Host) where
  lose-Shows :
      (p : Option OwnedWriteBuffer) (e : Option IoError) (t : StreamTransport)
      → Shows t (lose h p e t)
  unfolding Shows lose enqueue_event write_status
  lose-Shows p e t = refl

  handle-Shows : (c : WriterCommand) (t : StreamTransport) → Shows t (handle_command h c t)
  unfolding Shows handle_command shut_down lose enqueue_event write_status
  handle-Shows (payload w) t = refl
  handle-Shows write_eof t = sent (h.shutdown t.socket_calls)
    where
      sent : (e : Option IoError) → Shows t (eof_sent h (e, (shut_down h t).1))
      sent (some e) = refl
      sent none = if_elim (Shows t) t.close_on_write_eof _ _ (λ z. refl) (λ z. refl)
  handle-Shows close t = refl
  handle-Shows abort t = refl
  handle-Shows stop t = refl

  answered-Shows :
      (n : ℕ) (w : OwnedWriteBuffer) (t : StreamTransport) (r : Result ℕ IoError)
      → Shows t (write_answered h n w (r, wrote (remaining w) r t))
  unfolding Shows lose enqueue_event write_status
  answered-Shows n w t (ok k) = if_elim (Shows t) (k == 0) _ _ (λ z. refl) (λ z. refl)
  answered-Shows n w t (err x) =
      if_elim (Shows t) (is_transient_write_backpressure x) _ _ (λ z. polls (h.poll _))
        (λ z. if_elim (Shows t) (is_interrupted x) _ _ (λ y. refl) (λ y. refl))
    where
      polls : (e : Option IoError) → Shows t (polled h n w e (wrote (remaining w) (err x) t))
      polls none = refl
      polls (some e) = refl

  round-Shows : (n : ℕ) (w : OwnedWriteBuffer) (t : StreamTransport) → Shows t (write_round h n w t)
  unfolding Shows write_round socket_write
  round-Shows n w t =
      if_elim (Shows t) (is_sent w) _ _ (λ e. refl)
        (λ e. answered-Shows n w t (h.write t.socket_calls (remaining w)))

  drained-Shows :
      (n : ℕ) (t : StreamTransport) → Shows t (looking, record_write_buffer_drained false n t)
  unfolding Shows record_write_buffer_drained notify_resume_writing enqueue_event write_status
  drained-Shows n t =
      let goal : StreamTransport → Type 0 = λ u. write_status u ≡ write_status t in
      if_elim goal (n == 0) _ _ (λ e. refl) (λ e. if_elim goal _ _ _ (λ z. refl) (λ z. refl))

  received-Shows : (t : StreamTransport) → Shows t (received_command h (try_dequeue t.queue) t)
  unfolding Shows lose enqueue_event write_status
  received-Shows t =
      let goal : Result WriterCommand TryRecvError × QueueState → Type 0 =
        λ r. Shows t (received_command h r t) in
      elim (List-cases t.queue.commands) [
        | inl e ↦ subst goal (sym (dequeue_nothing t.queue e)) (
            if_elim (λ (x : TryRecvError). goal (err x, t.queue)) t.queue.sender_alive _ _
              (λ z. refl) (λ z. refl))
        | inr (c, cs, e) ↦ subst goal (sym (dequeue_first t.queue c cs e)) refl
      ]

  looked-Shows :
      (t : StreamTransport)
      → is_nil t.queue.commands ≡ false
      → Shows t (looked h (try_dequeue t.queue) t)
  unfolding Shows write_status
  looked-Shows t n = elim (List-cases t.queue.commands) [
    | inl e ↦ absurd (cc (n, ap is_nil e))
    | inr (c, cs, e) ↦ subst (λ r. Shows t (looked h r t)) (sym (dequeue_first t.queue c cs e)) refl
  ]

  -- A step that neither finds the queue empty nor clears the flag leaves what a write has read.
  pub write_status-work :
      (k : Worker) (t : StreamTransport)
      → is_disturbing k t.queue.commands ≡ false
      → write_status (work h k t).1 ≡ write_status t
  unfolding Shows work end_worker write_status
  write_status-work waiting t e = received-Shows t
  write_status-work (holding c) t e = handle-Shows c t
  write_status-work (writing n w) t e = round-Shows n w t
  write_status-work (draining n) t e = drained-Shows n t
  write_status-work looking t e = looked-Shows t e
  write_status-work clearing t e = absurd (cc e)
  write_status-work clearing_again t e = absurd (cc e)
  write_status-work (leaving p) t e = refl
  write_status-work ended t e = refl
