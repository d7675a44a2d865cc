-- ===== src/Lib.antt =====
-- rsloop: the event loop's stream transports.
--
-- The repository is an asyncio event loop in Rust. A stream transport reads from a socket, hands
-- the bytes to its reader (src/transport/stream/fast.rs) or protocol, and accounts for what the
-- program writes against the water marks (src/transport/stream/core_write.rs). Workers put what they
-- read into a queue of events that the loop drains (src/transport/stream/core_events.rs), and the
-- loop keeps the timers (src/engine/timer_entry.rs, src/engine/loop_core.rs). This library models
-- the code on which the order and the number of bytes, events and timers depends.
--
-- - Common: Boolean tests, lists over the native numbers, results.
-- - Bytes: `Vec<u8>`. How much an allocation really gets is the parameter `Alloc`.
-- - ReadBuffer: `ReadBuffer` of src/transport/stream/fast.rs, a vector with a start index that is
--   compacted late. ReadBuffer/Unread has what each operation does to the unread bytes,
--   ReadBuffer/Model any sequence of operations, ReadBuffer/Capacity what stays allocated.
-- - Separator: `Separators`, `UntilReadState` and `find_from` of the same file, behind `readuntil`
--   and `readline`. The `memchr` crate is the parameter `Memchr`: a search returns the first
--   occurrence. Separator/Find, Separator/Best, Separator/Order and Separator/Scan go from one
--   search to a pass over the buffer and to passes over a buffer that grows.
-- - Reader: `PyFastStreamReader` of the same file. Reader/State is its state, Reader/Flow pausing,
--   resuming and cancellation, Reader/Complete how a waiter is completed, Reader/Start how one
--   starts, Reader/Calls what the transport (`feed_…`, `set_…`) and the program (`read`, …) call.
--   Reader/Yield, Reader/Conserve, Reader/Accumulate, Reader/Completion, Reader/Clear,
--   Reader/Fill, Reader/Feed, Reader/Read and Reader/Front prove where each byte goes,
--   Reader/Settled and Reader/Wake which waits end, and Reader/Exact how many bytes `readexactly` answers with.
-- - WriteBuffer: the accounting of buffered bytes, `enqueue_write_buffer` and the functions beside
--   it, and the limits that src/transport/stream/core_state.rs derives.
-- - Pool: the pools of vectors of src/transport/stream/buffers.rs. Pool/Accounting counts the slots
--   over a history of a pool, Pool/Wake has the read pool, whose users wait for a slot.
-- - Staging: `OwnedWriteBuffer` and `PendingReadBuffer` of the same file, bytes on their way to the
--   socket and to the protocol, with Staging/Remaining, Staging/Append, Staging/Stage and
--   Staging/Pending on what is still to be sent or delivered.
-- - WriterQueue: src/transport/stream/write_queue.rs, the commands between a transport and its
--   writer. WriterQueue/Order has what one command adds, WriterQueue/Fifo any interleaving.
-- - WritePath: the write side of a transport without TLS on Unix, src/transport/stream/core_write.rs.
--   WritePath/Direct has the failing, queueing and staging of a write and the flush, WritePath/Writes
--   `try_write_bytes_with_status`, `try_write_buffer`, `try_write_segments` and in front of them
--   `write_data` and `writelines` of src/transport/stream/py_transport.rs, WritePath/Close `close`,
--   `abort` and `write_eof` of that file and the delivery of a loss, `connection_lost_with_py` of
--   src/transport/stream/core_protocol.rs, WritePath/Worker `run_stream_writer` of
--   src/transport/stream/writer.rs in steps. WritePath/Run puts the program and the worker together,
--   WritePath/Status has the flags that a write reads first.
--   WritePath/Wire and WritePath/Ordered state what is kept; WritePath/Started, WritePath/Queued,
--   WritePath/Staged, WritePath/StagedWrite, WritePath/Answered, WritePath/Written, WritePath/Flush,
--   WritePath/Segments, WritePath/Program, WritePath/Lines, WritePath/Given, WritePath/Unstaged,
--   WritePath/Closing, WritePath/Ending and WritePath/Working prove it of each operation,
--   WritePath/Undisturbed and WritePath/Runs of runs; WritePath/Progress counts the steps that the worker has left,
--   WritePath/Advancing takes them, WritePath/Drained gives it as many turns.
-- - Events: the read events of a transport, src/transport/stream/core_events.rs with the flow control
--   of src/transport/stream/core_protocol.rs and core_state.rs. Events/Drain is
--   `drain_pending_read_events_with_py` in the steps between which workers can run; Events/Items,
--   Events/Budget, Events/Order, Events/Control and Events/Deliver are about what a step delivers, Events/Machine has
--   the workers and the loop together, Events/Stream what the protocol sees of them, Events/Wakeups,
--   Events/Turn, Events/Insert and Events/Awake the wake-ups, Events/Gate which events are let in, Events/Flow pausing and resuming.
-- - Timers: `TimerQueue` and `TimerCallback` of src/engine/timer_entry.rs and
--   src/engine/callbacks.rs; the heap of the standard library is a list that gives up a greatest
--   entry. Timers/Local is `LocalTimers` and the pending timers of src/engine/loop_core.rs.
--   Timers/Order, Timers/Heap and Timers/Earliest are about one queue, Timers/Tombstones about the
--   cancelled timers and their counter, Timers/Collect, Timers/Kept and Timers/Fire about
--   `collect`, Timers/Cancel, Timers/History, Timers/Balance and Timers/Runs about the life of a
--   loop, with Timers/Permutations for lists in any order.
-- - Snapshot: src/state_snapshot.rs, a state whose flags are read without its mutex, and the flags of
--   a transport and of a loop; Snapshot/Published compares the two.
-- - AsyncEvent: src/async_event.rs, a notification that reaches every listener. AsyncEvent/Run is any
--   interleaving of its calls and of the sends of `notify_all`, AsyncEvent/Once follows one channel,
--   AsyncEvent/Notified a call of `notify_all`.
-- - Tests: the theorems at concrete inputs.
--
-- A byte is a natural number. A future is its number in the order of creation, and the futures that
-- the reader has settled are listed in its state, so that "no byte is lost" is an equation: the
-- bytes of the settled futures, those in the accumulator of an exact read and those in the buffer
-- are together what was fed. Calls on the transport are listed too. A call that raises returns the
-- error beside the reader as it leaves it.
--
-- The loop of `LocalTimers::collect` has fuel, one more than the timers of the queue, which is enough
-- since each round takes one out; `settled` of AsyncEvent/Notified runs the calls in flight for as many
-- steps as they have left. Every other loop is over a list or over the operations of a history. Atomic
-- counters wrap at `2 ^ 64`. The protocol that a drain calls is the argument `Answers`: whether its
-- calls return, and what `eof_received` answers. The socket, the polls, the threads and the allocator
-- of the write path are the argument `Host`, of which is assumed that a write takes no more bytes than
-- it is given. Lengths of vectors are at most `isize::MAX`, so
-- `buflen + 1` and the sums of two lengths do not wrap; where a vector would have to outgrow a `usize`
-- the theorems say so.
--
-- Not modelled: the error of a failed allocation, a transport whose `resume_reading` raises or whose
-- `pause_reading` raises anything but `NotImplementedError`, and the glue that turns
-- values into Python objects; the return of a stream reader's dropped buffer to the read pool; the
-- blocking of a receiver on an empty queue; the call of a timer's callback, the clock and the wake-up
-- of the loop; the buffers that a drain returns to the read pool, and `WriterCommand::Close` at the
-- end of a stream; what the protocol calls back while a staged write tells it to pause or an
-- abort tells it to resume, the return of sent buffers to the write pool, text encodings,
-- `upgrade_stream`, the branches for Windows, the stop flag of a writer and its file targets;
-- TLS, the dispatcher, and src/vibeio, a copy of another project.
pub mod Common
pub mod Bytes
pub mod ReadBuffer
pub mod WriteBuffer
pub mod Separator
pub mod Reader
pub mod Pool
pub mod Staging
pub mod WriterQueue
pub mod Timers
pub mod Events
pub mod Snapshot
pub mod AsyncEvent
pub mod WritePath
pub mod Tests
