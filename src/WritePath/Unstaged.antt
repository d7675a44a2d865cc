-- ===== src/WritePath/Unstaged.antt =====
-- A flush leaves nothing staged.
use rsloop.Common.{
  ℕ, ◌≡◌, refl, ap, ◌∙◌, Bool, true, false, List, Option, none, some, Result, ok, err, ◌==◌, ℕ,
}
use rsloop.Staging.{OwnedWriteBuffer, remaining, remaining_len, advance}
use rsloop.WritePath.{
  DirectWriter, absent, released, open_writer, IoError, is_retried, Host, StreamTransport,
  WorkerStart, worker_started, not_materialized, not_spawned, set_write_backpressure_active,
}
use rsloop.WritePath.Direct.{
  send, fail_write, failed_write, start_lazy, ensure_writer_worker, after_send, queue_recorded,
  flushed, flush_taken, take_pending, flush_pending_direct_write, try_direct_tasked_write,
  socket_write, wrote,
}
use rsloop.WritePath.Wire.{if_elim, Wire, wire-drained, wire-cleared, wire-notify_pause}

module _ (h : Host) where
  fail_write-unstaged :
      (here : Bool) (e : Option IoError) (t : StreamTransport)
      → t.pending_direct_write ≡ none
      → (fail_write h here e t).pending_direct_write ≡ none
  unfolding fail_write failed_write send
  fail_write-unstaged here e t n =
      if_elim (λ (u : StreamTransport). u.pending_direct_write ≡ none) t.closing _ _ (λ c. n)
        (λ c. ap Wire.pending (wire-cleared here false _))

  start_lazy-unstaged :
      (s : WorkerStart) (t : StreamTransport)
      → t.pending_direct_write ≡ none
      → (start_lazy h s t).pending_direct_write ≡ none
  start_lazy-unstaged worker_started t n = n
  start_lazy-unstaged (not_materialized e) t n = fail_write-unstaged true (some e) t n
  start_lazy-unstaged (not_spawned e) t n = fail_write-unstaged true (some e) _ n

  sent-unstaged :
      {E : Type 0} (b : Bool) (r : Result (Unit {0}) E) (t : StreamTransport)
      → t.pending_direct_write ≡ none
      → (after_send h b (r, t)).pending_direct_write ≡ none
  sent-unstaged b (ok u) t n =
      if_elim (λ (v : StreamTransport). v.pending_direct_write ≡ none) b _ _
        (λ e. ap Wire.pending (wire-notify_pause true t) ∙ n) (λ e. n)
  sent-unstaged b (err e) t n =
      fail_write-unstaged true none _ (ap Wire.pending (wire-cleared true false t) ∙ n)

  queued-unstaged :
      (b : Bool) (w : OwnedWriteBuffer) (t : StreamTransport)
      → t.pending_direct_write ≡ none
      → (queue_recorded h b w t).pending_direct_write ≡ none
  unfolding queue_recorded ensure_writer_worker send
  queued-unstaged b w t n = sent-unstaged b _ _ (
      if_elim (λ (u : StreamTransport). u.pending_direct_write ≡ none) t.lazy_writer _ _
        (λ e. start_lazy-unstaged h.start_worker (record t { lazy_writer = false }) n) (λ e. n))

  flushed-unstaged :
      (w : OwnedWriteBuffer) (r : Result ℕ IoError × StreamTransport)
      → r.1.pending_direct_write ≡ none
      → (flushed h w r).pending_direct_write ≡ none
  unfolding set_write_backpressure_active
  flushed-unstaged w (ok k, t) n =
      if_elim (λ (u : StreamTransport). u.pending_direct_write ≡ none) (k == remaining_len w) _ _
        (λ e. ap Wire.pending (wire-drained true k t) ∙ n)
        (λ e.
          ap Wire.pending (wire-drained true k _)
          ∙ queued-unstaged false (advance w k) (set_write_backpressure_active true t) n)
  flushed-unstaged w (err e, t) n =
      if_elim (λ (u : StreamTransport). u.pending_direct_write ≡ none) (is_retried e) _ _
        (λ z. queued-unstaged false w (set_write_backpressure_active true t) n)
        (λ z. fail_write-unstaged true (some e) t n)

  direct-unstaged :
      (bytes : List ℕ) (t : StreamTransport)
      → (try_direct_tasked_write h bytes t).1.pending_direct_write ≡ t.pending_direct_write
  unfolding try_direct_tasked_write socket_write
  direct-unstaged bytes t = by_writer t.direct_writer
    where
      answered :
          (r : Result ℕ IoError) → (wrote bytes r t).pending_direct_write ≡ t.pending_direct_write
      answered (ok n) = refl
      answered (err e) = refl

      by_writer :
          (d : DirectWriter)
          → (elim d as (λ z. Result ℕ IoError × StreamTransport) [
            | absent ↦ (err IoError.not_direct_tasked, t)
            | released ↦ (err IoError.not_connected, t)
            | open_writer ↦ socket_write h bytes t
          ]).1.pending_direct_write
            ≡ t.pending_direct_write
      by_writer absent = refl
      by_writer released = refl
      by_writer open_writer = answered (h.write t.socket_calls bytes)

  pub flush-unstaged :
      (t : StreamTransport) → (flush_pending_direct_write h t).pending_direct_write ≡ none
  unfolding flush_pending_direct_write
  flush-unstaged t = by_staged t.pending_direct_write
    where
      by_staged :
          (p : Option OwnedWriteBuffer)
          → (flush_taken h p (take_pending t)).pending_direct_write ≡ none
      by_staged none = refl
      by_staged (some w) =
          if_elim (λ (u : StreamTransport). u.pending_direct_write ≡ none) t.closing _ _
            (λ e. ap Wire.pending (wire-drained true (remaining_len w) (take_pending t)))
            (λ e. flushed-unstaged w _ (direct-unstaged (remaining w) (take_pending t)))
