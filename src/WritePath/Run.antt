-- ===== src/WritePath/Run.antt =====
-- Runs of a transport: what the program and the loop do with it, and the steps of its worker, in any
-- order.
use rsloop.Common.{
  length, ◌==◌, Option, none, some, is_nil, ℕ, Bool, true, false, not, ◌&&◌, ◌||◌, List, [], ◌∷◌,
  ◌++◌, if◌then◌else◌, Result, ok, err,
}
use rsloop.WriterQueue.{WriterCommand}
use rsloop.WritePath.{IoError, Host, StreamTransport, Reply}
use rsloop.WritePath.Direct.{start_closing, flush_pending_direct_write}
use rsloop.WritePath.Writes.{WriteStatus, write_status, joined_bytes, write_data, writelines}
use rsloop.WritePath.Worker.{
  Worker, waiting, holding, writing, draining, looking, clearing, clearing_again, leaving, ended,
  Stage, work,
}
use rsloop.WritePath.Close.{
  close_flushed, eof_flushed, close_transport, abort_transport, end_writing, deliver_loss,
}
use rsloop.WritePath.Given.{given}

-- `begins` reads the flags of a write, which a later `writes` or `writes_lines` goes on with: between
-- them the worker can run. One of these alone reads the flags itself. `shuts` and `ends` are `close` and
-- `write_eof` behind their flush. What the protocol calls back when it is told to pause or to resume is
-- the next act, if the telling is the last that an act does.
pub data Act : Type 0 where
  begins : Act
  writes : List ℕ → Act
  writes_lines : List (List ℕ) → Act
  flushes closes shuts aborts ends_writing ends loses : Act
  turns : ℕ → Act
  works : Act

-- The worker has seen that the queue is empty and is about to say so.
abbrev pub is_clearing : Worker → Bool
is_clearing waiting = false
is_clearing (holding c) = false
is_clearing (writing n w) = false
is_clearing (draining n) = false
is_clearing looking = false
is_clearing clearing = true
is_clearing clearing_again = true
is_clearing (leaving p) = false
is_clearing ended = false

abbrev pub is_err : Result (Unit {0}) IoError → Bool
is_err (ok u) = false
is_err (err e) = true

-- `given_bytes` is what was written while the transport was open; `spoilt` says that a write has
-- raised, that the worker's look at an empty queue, its clearing of the flag or what lies between them
-- overlaps with something that the program does, or that the protocol was told to pause or to resume
-- before an act was done. `status` is what the write that has begun has read.
pub record Run : Type 0 where
  pub worker : Worker
  pub transport : StreamTransport
  pub given_bytes : List ℕ
  pub spoilt : Bool
  pub status : Option WriteStatus

abbrev pub start : StreamTransport → Run
start t = record {
  worker = waiting;
  transport = t;
  given_bytes = [];
  spoilt = false;
  status = none;
}

-- The worker finds the queue empty, or clears the flag.
abbrev pub is_disturbing : Worker → List WriterCommand → Bool
is_disturbing waiting cs = false
is_disturbing (holding c) cs = false
is_disturbing (writing n w) cs = false
is_disturbing (draining n) cs = false
is_disturbing looking cs = is_nil cs
is_disturbing clearing cs = true
is_disturbing clearing_again cs = true
is_disturbing (leaving p) cs = false
is_disturbing ended cs = false

abbrev pub is_some {ℓ} : {A : Type ℓ} → Option A → Bool
is_some none = false
is_some (some a) = true

abbrev pub is_begun : Option WriteStatus → Bool
is_begun none = false
is_begun (some s) = true

abbrev pub status_of : Option WriteStatus → StreamTransport → WriteStatus
status_of none t = write_status t
status_of (some s) t = s

-- The protocol was told to pause or to resume.
abbrev pub is_told : StreamTransport → StreamTransport → Bool
is_told t u = not (length t.calls == length u.calls)

-- A write whose bytes are staged calls the protocol before it is done.
abbrev pub wrote_run : Run → List ℕ → Reply → Run
wrote_run r bytes (answer, t) = record r {
  transport = t;
  given_bytes = r.given_bytes ++ given r.transport bytes;
  spoilt =
      r.spoilt
      || (is_err answer
          || (is_clearing r.worker || (is_some t.pending_direct_write && is_told r.transport t)));
  status = none;
}

-- `within` says that the protocol was called before the operation was done.
abbrev pub moved_run : Run → Bool → StreamTransport → Run
moved_run r within t = record r {
  transport = t;
  spoilt = r.spoilt || (is_clearing r.worker || within);
}

abbrev pub told_run : Run → StreamTransport → Run
told_run r t = moved_run r (is_told r.transport t) t

abbrev pub worked_run : Run → Stage → Run
worked_run r (k, t) = record r {
  worker = k;
  transport = t;
  spoilt = r.spoilt || (is_begun r.status && is_disturbing r.worker r.transport.queue.commands);
}

module _ (h : Host) where
  -- What the program does when no write has begun.
  unfoldable pub free_act : Run → Act → Run
  free_act r flushes = moved_run r false (flush_pending_direct_write h r.transport)
  free_act r closes = told_run r (close_transport h r.transport)
  free_act r shuts = moved_run r false (close_flushed h (start_closing r.transport))
  free_act r aborts = told_run r (abort_transport h r.transport)
  free_act r ends_writing = told_run r (end_writing h r.transport).1
  free_act r ends =
      moved_run r false (eof_flushed h (record r.transport { write_eof_requested = true }))
  free_act r loses = moved_run r false (deliver_loss r.transport)
  free_act r (turns n) = record r { transport = record r.transport { current_turn = n } }
  free_act r begins = record r { status = some (write_status r.transport) }
  free_act r a = r

  -- A worker that has not been started, or has ended, does nothing; nor does the program anything else
  -- while it writes.
  unfoldable pub act : Run → Act → Run
  unfolding free_act
  act r (writes bytes) =
      wrote_run r bytes (write_data h bytes (status_of r.status r.transport) r.transport)
  act r (writes_lines segments) =
      wrote_run r (joined_bytes segments)
        (writelines h segments (status_of r.status r.transport) r.transport)
  act r works =
      if r.transport.queue.receiver_alive && not r.transport.lazy_writer
      then worked_run r (work h r.worker r.transport)
      else r
  act r a = if is_begun r.status then r else free_act r a

  unfoldable pub run : Run → List Act → Run
  run r [] = r
  run r (a ∷ acts) = run (act r a) acts
