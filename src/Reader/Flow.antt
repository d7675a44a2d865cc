-- ===== src/Reader/Flow.antt =====
-- Flow control and cancellation.
use rsloop.Common.{
  ℕ, ◌-◌, ◌*◌, ◌%◌, ◌^◌, true, false, not, ◌&&◌, List, [], ◌∷◌, ◌++◌, none, some, length, take, leb,
  ltb, if◌then◌else◌, min,
}
use rsloop.Bytes.{Alloc}
use rsloop.ReadBuffer.{len, unread, consume, prepend, consume_all}
use rsloop.Reader.State.{
  Reader, ReadWaiter, ExactReadAccumulator, filled, Transport, pausable, unpausable, pause_reading,
  resume_reading, is_some, partial,
}

-- `maybe_resume_transport`
unfoldable pub maybe_resume_transport : Reader → Reader
maybe_resume_transport r =
    if r.paused && leb (len r.buffer) r.limit && is_some r.transport
    then record r { paused = false; calls = r.calls ++ (resume_reading ∷ []) }
    else r

-- a call of `pause_reading` and what its answer changes
ask_to_pause : Reader → Transport → Reader
ask_to_pause r pausable = record r { paused = true; calls = r.calls ++ (pause_reading ∷ []) }
ask_to_pause r unpausable = record r { transport = none; calls = r.calls ++ (pause_reading ∷ []) }

-- `maybe_pause_transport`; the product wraps in a release build
unfoldable pub maybe_pause_transport : Reader → Reader
unfolding ask_to_pause
maybe_pause_transport r =
    if not (is_some r.waiter) && not r.paused && ltb (2 * r.limit % 2 ^ 64) (len r.buffer)
    then elim r.transport [ none ↦ r | some t ↦ ask_to_pause r t ]
    else r

-- `exact_fill_amount`
unfoldable pub exact_fill_amount : ℕ → ℕ → ℕ → ℕ
exact_fill_amount buffer_len filled expected = min buffer_len (expected - filled)

-- `ExactReadAccumulator::fill_from_slice`: how many bytes were taken, and the accumulator.
unfoldable pub fill_from_slice : ExactReadAccumulator → List ℕ → ℕ × ExactReadAccumulator
unfolding exact_fill_amount
fill_from_slice e xs =
    let amount = exact_fill_amount (length xs) (filled e) e.expected in
    (amount, record e { initialized = e.initialized ++ take amount xs })

-- the waiter once its accumulator has taken what it can from the buffer
abbrev pub filled_waiter : Reader → ReadWaiter → ExactReadAccumulator → ReadWaiter
filled_waiter r w e = record w { exact_read = some (fill_from_slice e (unread r.buffer)).1 }

module _ (a : Alloc) where
  -- the cancelled waiter `w` is dropped, and what it had taken goes back to the front
  unfoldable pub drop_waiter : Reader → ReadWaiter → Reader
  drop_waiter r w =
      maybe_pause_transport
        (record r { waiter = none; buffer = prepend a r.buffer (partial (some w)) })

  -- `clear_cancelled_waiter`
  unfoldable pub clear_cancelled_waiter : Reader → Reader
  unfolding drop_waiter
  clear_cancelled_waiter r = elim r.waiter [
    | none ↦ r
    | some w ↦ if r.cancelled w.future then drop_waiter r w else r
  ]

  -- `ExactReadAccumulator::fill_from`, on the waiter of a reader
  unfoldable pub fill_from : Reader → ReadWaiter → ExactReadAccumulator → Reader
  fill_from r w e = record r {
    buffer = consume a r.buffer (fill_from_slice e (unread r.buffer)).0;
    waiter = some (filled_waiter r w e);
  }

  -- `unread_bytes_object`
  unfoldable pub unread_bytes_object : Reader → ℕ → List ℕ × Reader
  unread_bytes_object r n =
      let k = min (len r.buffer) n in
      (take k (unread r.buffer), record r { buffer = consume a r.buffer k })

  -- `unread_all_bytes_object`
  unfoldable pub unread_all_bytes_object : Reader → List ℕ × Reader
  unread_all_bytes_object r = (unread r.buffer, record r { buffer = consume_all a r.buffer })
