-- ===== src/Tests/Socket.antt =====
-- Examples for the write path.
use rsloop.Common.{
  ◌&&◌, ◌==◌, ℕ, zero, suc, ◌≤◌, ◌≡◌, refl, ap, arith, true, false, List, [], ◌∷◌, ◌++◌, none,
  length, min, ◌==◌, if◌then◌else◌, Result, ok,
}
use rsloop.Bytes.{exact_alloc}
use rsloop.Pool.{empty_pool}
use rsloop.WriteBuffer.{WriteBufferState}
use rsloop.WriterQueue.{new_queue}
use rsloop.WritePath.{Host, worker_started, StreamTransport, open_writer, IoError}
use rsloop.WritePath.Direct.{flush_pending_direct_write}
use rsloop.WritePath.Close.{close_transport}
use rsloop.WritePath.Wire.{queued}
use rsloop.WritePath.Ending.{hand}
use rsloop.WritePath.Run.{begins, Act, writes, flushes, works, closes, Run, run, start}
use rsloop.WritePath.Worker.{waiting}
use rsloop.WritePath.Progress.{TakesSome, cost}
use rsloop.WritePath.Drained.{works_only, IsWorking, works-Deliver}
use rsloop.WritePath.Runs.{Delivers, run-Delivers, close-Keeps}

-- A socket that takes two bytes at first, and everything afterwards.
takes : ℕ → List ℕ → Result ℕ IoError
takes k xs = ok (if k == 0 then min 2 (length xs) else length xs)

takes_fits : (k n : ℕ) (xs : List ℕ) → takes k xs ≡ ok n → n ≤ length xs
unfolding takes
takes_fits k n xs e = ground (arith, e)

abbrev sample_host : Host
sample_host = record {
  write = takes;
  write_fits = takes_fits;
  poll = λ k. none;
  shutdown = λ k. none;
  start_worker = worker_started;
  message = λ e. [];
  alloc = exact_alloc;
  cap = 1000;
}

abbrev sample_transport : StreamTransport
sample_transport = record {
  closing = false;
  lost_called = false;
  writable = true;
  writer_registered = false;
  close_on_write_eof = false;
  can_write_eof = true;
  write_eof_requested = false;
  direct_writer = open_writer;
  coalesce_small_writes = false;
  lazy_writer = true;
  pending_direct_write = none;
  direct_write_scheduled = false;
  write_buffer = record {
    size = 0;
    high_water = 65536;
    low_water = 16384;
    protocol_paused = false;
  };
  queue = new_queue;
  pool = empty_pool;
  current_turn = 0;
  small_write_turn = 0;
  small_writes_this_turn = 0;
  out = [];
  socket_calls = 0;
  loop_open = true;
  write_commands = 0;
  events = [];
  calls = [];
}

abbrev five_works : List Act
five_works = works ∷ works ∷ works ∷ works ∷ works ∷ []

abbrev split_write : List Act
split_write =
    begins
    ∷ writes (1 ∷ 2 ∷ 3 ∷ 4 ∷ [])
    ∷ begins
    ∷ writes (5 ∷ [])
    ∷ (five_works ++ (writes (6 ∷ []) ∷ []))

abbrev two_writes : List Act
two_writes = begins ∷ writes (1 ∷ 2 ∷ 3 ∷ 4 ∷ []) ∷ begins ∷ works ∷ writes (5 ∷ []) ∷ []

-- A write between the worker's look and the clearing of the flag is queued, and the next one, which
-- is direct, overtakes it.
abbrev overtaking : List Act
overtaking =
    writes (1 ∷ 2 ∷ 3 ∷ 4 ∷ [])
    ∷ (five_works ++ (works ∷ writes (5 ∷ []) ∷ works ∷ writes (6 ∷ []) ∷ []))

-- What the samples come to.
record Sampled : Type 0 where
  split_clean : (run sample_host (start sample_transport) split_write).spoilt ≡ false
  split_open :
      let t =
        flush_pending_direct_write sample_host
          (run sample_host (start sample_transport) split_write).transport in
      (t.closing ≡ false) × (t.queue.receiver_alive ≡ true)
  two_clean : (run sample_host (start sample_transport) two_writes).spoilt ≡ false
  two_working : IsWorking (run sample_host (start sample_transport) two_writes)
  two_cost :
      let r = run sample_host (start sample_transport) two_writes in
      cost r.worker r.transport.queue.commands ≡ 16
  overtaken :
      (run sample_host (start sample_transport) overtaking).transport.out ≡ 1 ∷ 2 ∷ 3 ∷ 4 ∷ 6 ∷ []
  all_given :
      (run sample_host (start sample_transport) overtaking).given_bytes ≡ 1 ∷ 2 ∷ 3 ∷ 4 ∷ 5 ∷ 6 ∷ []

sample_runs : Sampled
unfolding run takes rsloop.WritePath.Run.act rsloop.WritePath.Run.free_act
    rsloop.WritePath.Writes.write_data rsloop.WritePath.Writes.write_status
    rsloop.WritePath.Writes.try_write_bytes_with_status
    rsloop.WritePath.Writes.should_coalesce_small_write
    rsloop.WritePath.Direct.try_direct_tasked_write rsloop.WritePath.Direct.socket_write
    rsloop.WritePath.Direct.queue_write rsloop.WritePath.Direct.record_write_buffer_enqueued
    rsloop.WritePath.Direct.queue_recorded rsloop.WritePath.Direct.send
    rsloop.WritePath.Direct.ensure_writer_worker rsloop.Staging.remaining rsloop.Staging.from_python
    rsloop.Staging.remaining_len rsloop.Staging.advance rsloop.Staging.is_sent
    rsloop.Staging.try_append rsloop.Staging.can_append rsloop.Staging.extend_write
    rsloop.WriteBuffer.enqueue_write_buffer rsloop.WriteBuffer.drain_write_buffer
    rsloop.WriteBuffer.is_write_batch_candidate rsloop.WritePath.set_write_backpressure_active
    rsloop.WritePath.record_write_buffer_drained rsloop.WriterQueue.enqueue
    rsloop.WriterQueue.try_dequeue rsloop.WritePath.Worker.work
    rsloop.WritePath.Worker.handle_command rsloop.WritePath.Worker.write_round
    rsloop.WritePath.Direct.flush_pending_direct_write
sample_runs = record {
  split_clean = refl;
  split_open = (refl, refl);
  two_clean = refl;
  two_working = record {
    between = refl;
    awake = refl;
    open_still = refl;
    unstaged = refl;
    sender = refl;
    receiver = refl;
    at_work = refl;
    payloads = (refl, tt);
  };
  two_cost = refl;
  overtaken = refl;
  all_given = refl;
}

run-Delivers_example : Delivers (run sample_host (start sample_transport) split_write)
run-Delivers_example =
    run-Delivers sample_host sample_transport split_write
      (record { silent = refl; unstaged = refl; unqueued = refl }) sample_runs.split_clean

close-Keeps_example :
    let r = run sample_host (start sample_transport) split_write in
    let c = close_transport sample_host r.transport in
    (c.out ++ (hand r.worker ++ queued c.queue) ≡ r.given_bytes) × (c.pending_direct_write ≡ none)
close-Keeps_example =
    close-Keeps sample_host sample_transport split_write
      (record { silent = refl; unstaged = refl; unqueued = refl }) sample_runs.split_clean
      sample_runs.split_open.0 sample_runs.split_open.1

takes_some : TakesSome sample_host
unfolding takes
takes_some k [] e = absurd (omega (arith, e))
takes_some zero (x ∷ []) e = (0, refl)
takes_some zero (x ∷ y ∷ xs) e = (1, ap ok (omega arith))
takes_some (suc k) (x ∷ xs) e = (length xs, ap ok (ground arith))

works-Deliver_example :
    let r = run sample_host (start sample_transport) two_writes in
    let u = run sample_host r (works_only 16) in
    (u.worker ≡ waiting)
    × (u.transport.queue.commands ≡ [])
    × (u.transport.writer_registered
        ≡ (r.transport.writer_registered && cost r.worker r.transport.queue.commands == 0))
    × (u.transport.out ≡ r.given_bytes)
works-Deliver_example =
    works-Deliver sample_host sample_transport two_writes 16 takes_some
      (record { silent = refl; unstaged = refl; unqueued = refl }) sample_runs.two_clean
      sample_runs.two_working (omega (arith, sample_runs.two_cost))
