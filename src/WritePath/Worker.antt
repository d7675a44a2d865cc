-- ===== src/WritePath/Worker.antt =====
-- src/transport/stream/writer.rs: the worker of a transport without TLS, in the steps between which
-- the loop can run. A poll that finds the socket not writable yet is a step that changes nothing. The
-- stop flag and the release of a target that is a file are left out.
use rsloop.Common.{
  ℕ, suc, Bool, true, false, Option, none, some, ◌==◌, if◌then◌else◌, Result, ok, err,
}
use rsloop.Staging.{OwnedWriteBuffer, remaining, remaining_len, is_sent, advance}
use rsloop.WriterQueue.{
  WriterCommand, QueueState, payload, write_eof, close, abort, stop, TryRecvError, empty,
  disconnected, try_dequeue, drop_receiver,
}
use rsloop.Events.{connection_lost}
use rsloop.WritePath.{
  IoError, write_zero, interrupted, is_transient_write_backpressure, Host, StreamTransport,
  enqueue_event, set_write_backpressure_active, record_write_buffer_drained,
}
use rsloop.WritePath.Direct.{error_text, socket_write}

-- What the worker is about to do: ask the queue for a command; carry one out; write what is left of a
-- buffer that held `n` bytes; report them drained; look for more without waiting; clear the flag of
-- backpressure, which it does once behind the look and once behind its loop;
-- return, with the buffer that it gave up, if any; or nothing any more.
pub data Worker : Type 0 where
  waiting : Worker
  holding : WriterCommand → Worker
  writing : ℕ → OwnedWriteBuffer → Worker
  draining : ℕ → Worker
  looking clearing clearing_again : Worker
  leaving : Option OwnedWriteBuffer → Worker
  ended : Worker

abbrev pub Stage : Type 0
Stage = Worker × StreamTransport

-- Every return of the worker drops the receiver.
unfoldable pub end_worker : StreamTransport → Stage
end_worker t = (ended, record t { queue = drop_receiver t.queue })

abbrev pub is_interrupted : IoError → Bool
is_interrupted interrupted = true
is_interrupted IoError.would_block = false
is_interrupted IoError.no_buffer_space = false
is_interrupted IoError.out_of_memory = false
is_interrupted IoError.write_zero = false
is_interrupted IoError.not_connected = false
is_interrupted IoError.not_direct_tasked = false
is_interrupted IoError.not_writable = false
is_interrupted IoError.no_write_eof = false
is_interrupted (IoError.other code) = false

module _ (h : Host) where
  -- `report_writer_io_error`, `report_writer_close_result`, or a loss without error; the worker that
  -- has still to return holds what it could not write.
  unfoldable pub lose : Option OwnedWriteBuffer → Option IoError → StreamTransport → Stage
  lose p e t = (leaving p, enqueue_event (connection_lost (error_text h e)) t)

  -- `shutdown_write` and `shutdown_close` of the target
  unfoldable pub shut_down : StreamTransport → Option IoError × StreamTransport
  shut_down t = (h.shutdown t.socket_calls, record t { socket_calls = suc t.socket_calls })

  -- `handle_stream_write_eof`
  abbrev pub eof_sent : Option IoError × StreamTransport → Stage
  eof_sent (some e, t) = lose none (some e) t
  eof_sent (none, t) = if t.close_on_write_eof then lose none none t else (waiting, t)

  abbrev pub report_close : Option IoError × StreamTransport → Stage
  report_close (e, t) = lose none e t

  -- `handle_stream_writer_command`
  unfoldable pub handle_command : WriterCommand → StreamTransport → Stage
  unfolding shut_down
  handle_command (payload w) t = (writing (remaining_len w) w, t)
  handle_command write_eof t = eof_sent (shut_down t)
  handle_command close t = report_close (shut_down t)
  handle_command abort t = report_close (shut_down t)
  handle_command stop t = (leaving none, t)

  -- the poll behind a write that would block
  abbrev pub polled : ℕ → OwnedWriteBuffer → Option IoError → StreamTransport → Stage
  polled n w none t = (writing n w, t)
  polled n w (some e) t = lose (some w) (some e) t

  -- the match of `write_all_owned` on a write
  abbrev pub write_answered : ℕ → OwnedWriteBuffer → Result ℕ IoError × StreamTransport → Stage
  write_answered n w (ok written, t) =
      if written == 0
      then lose (some (advance w written)) (some write_zero) t
      else (writing n (advance w written), t)
  write_answered n w (err e, t) =
      if is_transient_write_backpressure e
      then polled n w (h.poll t.socket_calls) t
      else if is_interrupted e
      then (writing n w, t)
      else lose (some w) (some e) t

  -- a round of the loop of `write_all_owned`
  unfoldable pub write_round : ℕ → OwnedWriteBuffer → StreamTransport → Stage
  unfolding socket_write
  write_round n w t =
      if is_sent w then (draining n, t) else write_answered n w (socket_write h (remaining w) t)

  -- `recv` of `run_stream_writer`, which waits while nothing is there
  abbrev pub received_command :
      Result WriterCommand TryRecvError × QueueState → StreamTransport → Stage
  received_command (ok c, q) t = (holding c, record t { queue = q })
  received_command (err empty, q) t = (waiting, t)
  received_command (err disconnected, q) t = lose none none t

  -- the match of `write_stream_data_batch` on `try_recv`
  abbrev pub looked : Result WriterCommand TryRecvError × QueueState → StreamTransport → Stage
  looked (ok c, q) t = (holding c, record t { queue = q })
  looked (err empty, q) t = (clearing, t)
  looked (err disconnected, q) t = lose none none (set_write_backpressure_active false t)

  -- a step of the worker
  unfoldable pub work : Worker → StreamTransport → Stage
  unfolding end_worker
  work waiting t = received_command (try_dequeue t.queue) t
  work (holding c) t = handle_command c t
  work (writing n w) t = write_round n w t
  work (draining n) t = (looking, record_write_buffer_drained false n t)
  work looking t = looked (try_dequeue t.queue) t
  work clearing t = (clearing_again, set_write_backpressure_active false t)
  work clearing_again t = (waiting, set_write_backpressure_active false t)
  work (leaving p) t = end_worker t
  work ended t = (ended, t)
