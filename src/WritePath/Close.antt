-- ===== src/WritePath/Close.antt =====
-- `close`, `abort` and `write_eof` of src/transport/stream/py_transport.rs on Unix, as far as they
-- write: the reader that they stop and the error of a shutdown, which they drop, are left out. With
-- them the delivery of a loss, of src/transport/stream/core_protocol.rs.
use rsloop.Common.{false, suc, true, not, ◌&&◌, none, if◌then◌else◌, ok, err}
use rsloop.WriterQueue.{WriterCommand, write_eof, close, abort, stop}
use rsloop.Events.{connection_lost}
use rsloop.WritePath.{
  no_write_eof, DirectWriter, absent, released, open_writer, Host, StreamTransport, Reply,
  is_present, enqueue_event,
}
use rsloop.WritePath.Direct.{
  start_closing, send, flush_pending_direct_write, discard_pending_direct_write,
}

-- `connection_lost(None)`
abbrev pub lost : StreamTransport → StreamTransport
lost t = enqueue_event (connection_lost none) t

-- a shutdown of the socket through the direct writer, if that has not been released
abbrev pub shut : StreamTransport → StreamTransport
shut t = record t {
  socket_calls = elim t.direct_writer [
    | absent ↦ t.socket_calls
    | released ↦ t.socket_calls
    | open_writer ↦ suc t.socket_calls
  ];
}

-- `release_direct_writer`
abbrev pub release_direct_writer : DirectWriter → DirectWriter
release_direct_writer absent = absent
release_direct_writer released = released
release_direct_writer open_writer = released

-- `connection_lost_with_py` of a transport that is not detached, as far as writing meets it
unfoldable pub deliver_loss : StreamTransport → StreamTransport
deliver_loss t = if t.lost_called then t else record t {
  lost_called = true;
  closing = true;
  write_buffer = record t.write_buffer { size = 0; protocol_paused = false };
  direct_writer = release_direct_writer t.direct_writer;
}

module _ (h : Host) where
  abbrev pub send_control : WriterCommand → StreamTransport → StreamTransport
  send_control c t = (send h c t).1

  -- `close` behind the flush
  unfoldable pub close_flushed : StreamTransport → StreamTransport
  unfolding send enqueue_event
  close_flushed t =
      if not (is_present t.direct_writer)
      then send_control close t
      else if t.lazy_writer
      then lost (send_control stop (shut t))
      else send_control close t

  -- `close`
  unfoldable pub close_transport : StreamTransport → StreamTransport
  unfolding close_flushed
  close_transport t = close_flushed (start_closing (flush_pending_direct_write h t))

  -- `abort`
  unfoldable pub abort_discarded : StreamTransport → StreamTransport
  unfolding send enqueue_event
  abort_discarded t =
      if not (is_present t.direct_writer)
      then send_control abort t
      else lost (send_control abort (shut t))

  unfoldable pub abort_transport : StreamTransport → StreamTransport
  unfolding abort_discarded
  abort_transport t = abort_discarded (start_closing (discard_pending_direct_write h t))

  -- `write_eof` behind the flush
  unfoldable pub eof_flushed : StreamTransport → StreamTransport
  unfolding send enqueue_event
  eof_flushed t =
      if is_present t.direct_writer && t.lazy_writer
      then if t.close_on_write_eof then lost (shut t) else shut t
      else send_control write_eof t

  -- `write_eof`
  unfoldable pub end_writing : StreamTransport → Reply
  unfolding eof_flushed
  end_writing t = if not t.can_write_eof then (err no_write_eof, t) else (
    ok tt,
    eof_flushed (record (flush_pending_direct_write h t) { write_eof_requested = true }),
  )
