-- ===== src/WritePath/Direct.antt =====
-- src/transport/stream/core_write.rs: failing, queueing and staging a write, and the flush of what is
-- staged, with `ensure_writer_worker` of src/transport/stream/core_events.rs.
use rsloop.Common.{
  ℕ, suc, take, Bool, true, false, List, ◌++◌, Option, none, some, ◌==◌, if◌then◌else◌, Result, ok,
  err,
}
use rsloop.Pool.{PoolState}
use rsloop.Staging.{
  OwnedWriteBuffer, remaining, remaining_len, is_sent, advance, stage_owned_buffer,
}
use rsloop.WriteBuffer.{enqueue_write_buffer}
use rsloop.WriterQueue.{WriterCommand, payload, stop, enqueue, drop_receiver}
use rsloop.Events.{connection_lost}
use rsloop.WritePath.{
  IoError, not_connected, not_direct_tasked, is_retried, WorkerStart, worker_started,
  not_materialized, not_spawned, Host, absent, released, open_writer, StreamTransport, Reply,
  set_write_backpressure_active, enqueue_event, notify_pause_writing, recorded,
  record_write_buffer_drained, clear_write_buffer,
}

abbrev pub start_closing : StreamTransport → StreamTransport
start_closing t = record t { closing = true }

-- the socket has taken `n` bytes of `bytes`, or none
abbrev pub wrote : List ℕ → Result ℕ IoError → StreamTransport → StreamTransport
wrote bytes (ok n) t = record t { out = t.out ++ take n bytes; socket_calls = suc t.socket_calls }
wrote bytes (err e) t = record t { socket_calls = suc t.socket_calls }

-- `err.map(|err| err.to_string())`
abbrev pub error_text : Host → Option IoError → Option (List ℕ)
error_text h none = none
error_text h (some e) = some (h.message e)

-- the length of what is staged
abbrev pub staged_len : Option OwnedWriteBuffer → ℕ
staged_len none = 0
staged_len (some w) = remaining_len w

abbrev pub take_pending : StreamTransport → StreamTransport
take_pending t = record t { direct_write_scheduled = false; pending_direct_write = none }

module _ (h : Host) where
  -- `writer_tx.send`, with the error of a worker that is gone
  unfoldable pub send :
      WriterCommand → StreamTransport → Result (Unit {0}) WriterCommand × StreamTransport
  send c t = let (r, q) = enqueue h.alloc t.queue c in (r, record t { queue = q })

  -- a write of the socket
  unfoldable pub socket_write : List ℕ → StreamTransport → Result ℕ IoError × StreamTransport
  socket_write bytes t = let r = h.write t.socket_calls bytes in (r, wrote bytes r t)

  -- `try_direct_tasked_write`; the counters of statistics are left out
  unfoldable pub try_direct_tasked_write :
      List ℕ → StreamTransport → Result ℕ IoError × StreamTransport
  unfolding socket_write
  try_direct_tasked_write bytes t = elim t.direct_writer [
    | absent ↦ (err not_direct_tasked, t)
    | released ↦ (err not_connected, t)
    | open_writer ↦ socket_write bytes t
  ]

  -- `record_write_buffer_enqueued`
  unfoldable pub record_write_buffer_enqueued :
      ℕ → StreamTransport → Result Bool IoError × StreamTransport
  record_write_buffer_enqueued len t =
      if len == 0 then (ok false, t) else recorded t (enqueue_write_buffer t.write_buffer len h.cap)

  -- `fail_write` behind its guard
  unfoldable pub failed_write : Bool → Option IoError → StreamTransport → StreamTransport
  unfolding send
  failed_write here e t =
      let t1 = enqueue_event (connection_lost (error_text h e)) t in
      let t2 = set_write_backpressure_active false (start_closing t1) in
      let t3 : StreamTransport = record t2 {
        pending_direct_write = none;
        direct_write_scheduled = false;
      } in
      (send stop (clear_write_buffer here false t3)).1

  -- `fail_write`
  unfoldable pub fail_write : Bool → Option IoError → StreamTransport → StreamTransport
  unfolding failed_write
  fail_write here e t = if t.closing then t else failed_write here e t

  -- A thread that cannot be spawned has dropped the receiver before the error is seen, a target
  -- that cannot be made drops it behind.
  abbrev pub start_lazy : WorkerStart → StreamTransport → StreamTransport
  start_lazy worker_started t = t
  start_lazy (not_materialized e) t =
      let t' = fail_write true (some e) t in record t' { queue = drop_receiver t'.queue }
  start_lazy (not_spawned e) t =
      fail_write true (some e) (record t { queue = drop_receiver t.queue })

  -- `ensure_writer_worker`
  unfoldable pub ensure_writer_worker : StreamTransport → StreamTransport
  ensure_writer_worker t =
      if t.lazy_writer then start_lazy h.start_worker (record t { lazy_writer = false }) else t

  -- the end of `queue_write`, of `queue_recorded_write` and of `queue_write_batch`
  abbrev pub after_send {ℓ} :
      {E : Type ℓ} → Bool → Result (Unit {0}) E × StreamTransport → StreamTransport
  after_send should_pause (ok u, t) = if should_pause then notify_pause_writing true t else t
  after_send should_pause (err e, t) = fail_write true none (clear_write_buffer true false t)

  -- `queue_recorded_write`, and with a signal the rest of `queue_write`
  unfoldable pub queue_recorded : Bool → OwnedWriteBuffer → StreamTransport → StreamTransport
  queue_recorded should_pause w t =
      after_send should_pause (send (payload w) (ensure_writer_worker t))

  abbrev pub queue_behind : OwnedWriteBuffer → Result Bool IoError × StreamTransport → Reply
  queue_behind w (ok should_pause, t) = (ok tt, queue_recorded should_pause w t)
  queue_behind w (err e, t) = (err e, t)

  -- `queue_write`
  unfoldable pub queue_write : OwnedWriteBuffer → StreamTransport → Reply
  queue_write w t = queue_behind w (record_write_buffer_enqueued (remaining_len w) t)

  -- the command `StreamWrite`, which a closed loop refuses
  unfoldable pub send_write_command : StreamTransport → StreamTransport
  send_write_command t =
      if t.loop_open
      then record t { write_commands = suc t.write_commands }
      else fail_write true none (record t { direct_write_scheduled = false })

  -- `finish_staged_write`
  unfoldable pub finish_staged_write : Bool → StreamTransport → StreamTransport
  finish_staged_write should_pause t =
      let t' = if should_pause then notify_pause_writing true t else t in
      if t'.direct_write_scheduled
      then t'
      else send_write_command (record t' { direct_write_scheduled = true })

  -- the buffer that `stage_owned_buffer` leaves
  abbrev pub staged : StreamTransport → OwnedWriteBuffer × PoolState → StreamTransport
  staged t (w, p) = record t { pending_direct_write = some w; pool = p }

  abbrev pub stage_behind : OwnedWriteBuffer → Result Bool IoError × StreamTransport → Reply
  stage_behind w (ok should_pause, t) = (
    ok tt,
    finish_staged_write should_pause
        (staged t (stage_owned_buffer h.alloc t.pending_direct_write w t.pool)),
  )
  stage_behind w (err e, t) = (err e, t)

  -- `stage_direct_write_buffer`
  unfoldable pub stage_direct_write_buffer : OwnedWriteBuffer → StreamTransport → Reply
  stage_direct_write_buffer w t =
      if is_sent w
      then (ok tt, t)
      else stage_behind w (record_write_buffer_enqueued (remaining_len w) t)

  -- the match of `flush_pending_direct_write` on its direct write
  abbrev pub flushed : OwnedWriteBuffer → Result ℕ IoError × StreamTransport → StreamTransport
  flushed w (ok written, t) =
      if written == remaining_len w
      then record_write_buffer_drained true written t
      else record_write_buffer_drained true written
          (queue_recorded false (advance w written) (set_write_backpressure_active true t))
  flushed w (err e, t) =
      if is_retried e
      then queue_recorded false w (set_write_backpressure_active true t)
      else fail_write true (some e) t

  -- `flush_pending_direct_write` of the bytes that it takes
  abbrev pub flush_taken : Option OwnedWriteBuffer → StreamTransport → StreamTransport
  flush_taken none t = t
  flush_taken (some w) t =
      if t.closing
      then record_write_buffer_drained true (remaining_len w) t
      else flushed w (try_direct_tasked_write (remaining w) t)

  -- `flush_pending_direct_write`
  unfoldable pub flush_pending_direct_write : StreamTransport → StreamTransport
  flush_pending_direct_write t = flush_taken t.pending_direct_write (take_pending t)

  -- `discard_pending_direct_write`
  unfoldable pub discard_pending_direct_write : StreamTransport → StreamTransport
  discard_pending_direct_write t =
      record_write_buffer_drained true (staged_len t.pending_direct_write) (take_pending t)
