-- ===== src/WritePath/Runs.antt =====
-- The socket sees what was written, in order.
use rsloop.Common.{ℕ, ◌≡◌, true, false, List, [], ◌++◌, none, inl, inr}
use rsloop.WritePath.{Host, StreamTransport}
use rsloop.WritePath.Direct.{flush_pending_direct_write}
use rsloop.WritePath.Close.{close_transport}
use rsloop.WritePath.Wire.{queued, staged_bytes}
use rsloop.WritePath.Ending.{hand}
use rsloop.WritePath.Closing.{close-whole, close-unstaged}
use rsloop.WritePath.Run.{Act, Run, start, run}
use rsloop.WritePath.Undisturbed.{IsFresh, start-InOrder, run-InOrder}

-- What a run comes to, from a transport that has not been written to.
pub record Delivers (r : Run) : Type 0 where
  pub lost_behind : List ℕ
  pub front :
      r.transport.out
        ++ (hand r.worker
            ++ (queued r.transport.queue
                ++ (staged_bytes r.transport.pending_direct_write ++ lost_behind)))
      ≡ r.given_bytes
  pub nothing_lost :
      r.transport.closing ≡ false → r.transport.queue.receiver_alive ≡ true → lost_behind ≡ []

-- Whatever the program writes, in one piece or in segments, and the loop flushes, and whether it
-- closes, aborts or ends writing, or is told of a loss; whatever the socket answers, and however these
-- are interleaved with the steps of the worker, which can also run between the reading of the flags of
-- a write and the rest of that write. Provided that no write raises; that nothing the program does,
-- and no time between a write's reading of the flags and its end, overlaps with the worker's finding
-- the queue empty and its clearing of the flag of backpressure; and that the protocol is told to pause
-- or to resume only as the last that an operation does (a staged write does not pause it, an abort
-- does not resume it, and a close or an end of writing whose flush does is a flush and what is left):
-- what the socket has taken, what the worker holds, what is queued and what is staged are, in this
-- order, a front of the bytes given to the open transport. They are all of them while it is not
-- closing and its worker has not ended.
pub run-Delivers :
    (h : Host) (t : StreamTransport) (acts : List Act)
    → IsFresh t
    → (run h (start t) acts).spoilt ≡ false
    → Delivers (run h (start t) acts)
run-Delivers h t acts f e =
    let i = start-InOrder t f in
    let o = (run-InOrder h (start t) acts i e).stage.ordered in
    record {
      lost_behind = o.rest;
      front = o.bytes;
      nothing_lost = λ c l. elim (o.whole c) [ inl z ↦ z | inr (d, k) ↦ absurd (cc (d, l)) ];
    }

-- After a run from a transport that has not been written to, in which no write raises, nothing the
-- program does, nor the time between a write's reading of the flags and its end, overlaps with the
-- worker's finding the queue empty and its clearing of the flag, and the protocol is told to pause or
-- to resume only as the last that an operation does: `close` gives up no byte, if its flush fails no
-- write and finds a worker that can still be reached, and the protocol makes no call from within it:
-- what the socket has taken, what the worker holds and what is queued are all bytes given to the open
-- transport, in order, and nothing is staged any more.
pub close-Keeps :
    (h : Host) (t : StreamTransport) (acts : List Act)
    → IsFresh t
    → (run h (start t) acts).spoilt ≡ false
    → (flush_pending_direct_write h (run h (start t) acts).transport).closing ≡ false
    → (flush_pending_direct_write h (run h (start t) acts).transport).queue.receiver_alive ≡ true
    → let r = run h (start t) acts in
      let c = close_transport h r.transport in
      (c.out ++ (hand r.worker ++ queued c.queue) ≡ r.given_bytes) × (c.pending_direct_write ≡ none)
close-Keeps h t acts f e c l =
    let i = start-InOrder t f in
    let r = run h (start t) acts in
    let o = (run-InOrder h (start t) acts i e).stage.ordered in
    (close-whole h (hand r.worker) r.given_bytes r.transport o c l, close-unstaged h r.transport)
