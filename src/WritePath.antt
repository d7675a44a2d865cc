-- ===== src/WritePath.antt =====
-- The write side of a transport on Unix: src/transport/stream/core_write.rs, with the write, close
-- and abort of src/transport/stream/py_transport.rs, the lazy start of the worker of core_events.rs
-- and the worker of src/transport/stream/writer.rs. The worker takes its own steps between those of the
-- program, and between the reading of the flags of a write and the rest of it. That rest is one step:
-- the worker meets it in the queue, where it takes the bytes up at one moment, and in the accounting,
-- which is not about their order. The protocol is called last in a write that is queued and in a flush,
-- so what it calls back is the next step; a staged write and an abort call it before they are done, and
-- runs in which they do are marked.

pub mod Direct
pub mod Writes
pub mod Worker
pub mod Wire
pub mod Ordered
pub mod Started
pub mod Queued
pub mod Staged
pub mod StagedWrite
pub mod Answered
pub mod Written
pub mod Flush
pub mod Segments
pub mod Program
pub mod Lines
pub mod Given
pub mod Ending
pub mod Working
pub mod Close
pub mod Unstaged
pub mod Closing
pub mod Run
pub mod Status
pub mod Undisturbed
pub mod Runs
pub mod Progress
pub mod Advancing
pub mod Drained
use rsloop.Common.{
  ℕ, suc, ◌+◌, ◌≤◌, ◌≡◌, Bool, true, false, not, ◌&&◌, ◌||◌, List, [], ◌∷◌, ◌++◌, Option, none,
  some, length, take, leb, ltb, ◌==◌, if◌then◌else◌, Result, ok, err,
}
use rsloop.Bytes.{Alloc}
use rsloop.Pool.{PoolState}
use rsloop.Staging.{OwnedWriteBuffer, remaining, remaining_len, is_sent, stage_owned_buffer}
use rsloop.WriteBuffer.{
  WriteBufferState, WriteBufferSignal, enqueue_write_buffer, drain_write_buffer,
  clear_write_buffer_state,
}
use rsloop.WriteBuffer
use rsloop.WriterQueue.{WriterCommand, QueueState, payload, stop, enqueue, drop_receiver}
use rsloop.Events.{PendingReadEvent, connection_lost, pause_writing, resume_writing}

-- The errors that the code tells apart, or makes itself, the `RuntimeError`s of a transport that is not
-- writable or has no end of its own among them; `other` has the code of any other one.
pub data IoError : Type 0 where
  interrupted would_block no_buffer_space out_of_memory write_zero not_connected : IoError
  not_direct_tasked not_writable no_write_eof : IoError
  other : ℕ → IoError

-- `is_transient_write_backpressure`
unfoldable pub is_transient_write_backpressure : IoError → Bool
is_transient_write_backpressure would_block = true
is_transient_write_backpressure no_buffer_space = true
is_transient_write_backpressure interrupted = false
is_transient_write_backpressure out_of_memory = false
is_transient_write_backpressure write_zero = false
is_transient_write_backpressure not_connected = false
is_transient_write_backpressure not_direct_tasked = false
is_transient_write_backpressure not_writable = false
is_transient_write_backpressure no_write_eof = false
is_transient_write_backpressure (other code) = false

-- the guard of every match on a direct write
unfoldable pub is_retried : IoError → Bool
unfolding is_transient_write_backpressure
is_retried interrupted = true
is_retried would_block = true
is_retried no_buffer_space = true
is_retried out_of_memory = false
is_retried write_zero = false
is_retried not_connected = false
is_retried not_direct_tasked = false
is_retried not_writable = false
is_retried no_write_eof = false
is_retried (other code) = false

-- How the start of a worker ends.
pub data WorkerStart : Type 0 where
  worker_started : WorkerStart
  not_materialized not_spawned : IoError → WorkerStart

-- What is not the program's own: the answers of the socket to its writes, counted, each of which
-- takes at most the bytes it is given; how its polls and its shutdowns end; whether a thread can be
-- started; the text of an error; the allocator; and `max_write_buffer_size()`.
pub record Host : Type 0 where
  pub write : ℕ → List ℕ → Result ℕ IoError
  pub write_fits : (k n : ℕ) (xs : List ℕ) → write k xs ≡ ok n → n ≤ length xs
  pub poll : ℕ → Option IoError
  pub shutdown : ℕ → Option IoError
  pub start_worker : WorkerStart
  pub message : IoError → List ℕ
  pub alloc : Alloc
  pub cap : ℕ

-- the field `direct_writer`, and whether its socket is still there
pub data DirectWriter : Type 0 where
  absent released open_writer : DirectWriter

abbrev pub is_present : DirectWriter → Bool
is_present absent = false
is_present released = true
is_present open_writer = true

-- The fields of `StreamTransportCore` and of its state that writing meets. `out` is what the socket
-- has taken, `socket_calls` counts its answers, `write_commands` the commands `StreamWrite` in the
-- loop, `events` is what was put into the queue of read events and `calls` what the protocol was told
-- on the thread of the loop.
pub record StreamTransport : Type 0 where
  pub closing : Bool
  pub lost_called : Bool
  pub writable : Bool
  pub writer_registered : Bool
  pub close_on_write_eof : Bool
  pub can_write_eof : Bool
  pub write_eof_requested : Bool
  pub direct_writer : DirectWriter
  pub coalesce_small_writes : Bool
  pub lazy_writer : Bool
  pub pending_direct_write : Option OwnedWriteBuffer
  pub direct_write_scheduled : Bool
  pub write_buffer : WriteBufferState
  pub queue : QueueState
  pub pool : PoolState
  pub current_turn : ℕ
  pub small_write_turn : ℕ
  pub small_writes_this_turn : ℕ
  pub out : List ℕ
  pub socket_calls : ℕ
  pub loop_open : Bool
  pub write_commands : ℕ
  pub events : List PendingReadEvent
  pub calls : List WriteBufferSignal

abbrev pub Reply : Type 0
Reply = Result (Unit {0}) IoError × StreamTransport

-- `set_write_backpressure_active`
unfoldable pub set_write_backpressure_active : Bool → StreamTransport → StreamTransport
set_write_backpressure_active active t = record t { writer_registered = active }

-- `enqueue_pending_read_event`
unfoldable pub enqueue_event : PendingReadEvent → StreamTransport → StreamTransport
enqueue_event e t = record t { events = t.events ++ (e ∷ []) }

-- `notify_pause_writing` and `notify_resume_writing`, on the thread of the loop or not: the call is
-- recorded, what the protocol calls back is a step of its own
unfoldable pub notify_pause_writing : Bool → StreamTransport → StreamTransport
unfolding enqueue_event
notify_pause_writing here t =
    if here
    then record t { calls = t.calls ++ (WriteBuffer.pause ∷ []) }
    else enqueue_event pause_writing t

unfoldable pub notify_resume_writing : Bool → StreamTransport → StreamTransport
unfolding enqueue_event
notify_resume_writing here t =
    if here
    then record t { calls = t.calls ++ (WriteBuffer.resume ∷ []) }
    else enqueue_event resume_writing t

abbrev pub is_pause : WriteBufferSignal → Bool
is_pause WriteBuffer.none = false
is_pause WriteBuffer.pause = true
is_pause WriteBuffer.resume = false

abbrev pub is_resume : WriteBufferSignal → Bool
is_resume WriteBuffer.none = false
is_resume WriteBuffer.pause = false
is_resume WriteBuffer.resume = true

-- the answer of `record_write_buffer_enqueued`
abbrev pub recorded :
    StreamTransport
    → Result WriteBufferSignal (Unit {0}) × WriteBufferState
    → Result Bool IoError × StreamTransport
recorded t (ok signal, s) = (ok (is_pause signal), record t { write_buffer = s })
recorded t (err e, s) = (err out_of_memory, record t { write_buffer = s })

-- `record_write_buffer_drained`
unfoldable pub record_write_buffer_drained : Bool → ℕ → StreamTransport → StreamTransport
record_write_buffer_drained here len t =
    let (signal, s) = drain_write_buffer t.write_buffer len in
    let t' : StreamTransport = record t { write_buffer = s } in
    if len == 0 then t else if is_resume signal then notify_resume_writing here t' else t'

-- `clear_write_buffer`
unfoldable pub clear_write_buffer : Bool → Bool → StreamTransport → StreamTransport
clear_write_buffer here resume_protocol t =
    let (signal, s) = clear_write_buffer_state t.write_buffer resume_protocol in
    let t' : StreamTransport = record t { write_buffer = s } in
    if is_resume signal then notify_resume_writing here t' else t'
