-- ===== src/Reader/Start.antt =====
-- How a read that must wait starts its waiter, and how incoming bytes reach an exact read. A call
-- that raises returns the error beside the reader as the call leaves it.
use rsloop.Common.{
  ℕ, suc, Bool, false, not, ◌&&◌, List, [], ◌∷◌, ◌++◌, Option, none, some, ltb, if◌then◌else◌,
  Result, ok, err,
}
use rsloop.Bytes.{Alloc}
use rsloop.ReadBuffer.{is_empty}
use rsloop.Separator.{UntilReadState}
use rsloop.Reader.State.{
  Reader, ReadWaiter, ReadWaitKind, exact, ExactReadAccumulator, Awaitable, waiting, CallError,
  already_waiting, read_size_too_large, resume_reading, isize_max, is_some,
}
use rsloop.Reader.Flow.{clear_cancelled_waiter, fill_from_slice, fill_from}

module _ (a : Alloc) where
  -- the resumption in `start_waiter`, whatever the buffer holds
  unfoldable pub resume_for_waiter : Reader → Reader
  resume_for_waiter r =
      if r.paused && is_some r.transport
      then record r { paused = false; calls = r.calls ++ (resume_reading ∷ []) }
      else r

  unfoldable pub new_waiter : Reader → ReadWaitKind → Option UntilReadState → ReadWaiter
  new_waiter r (exact n) st = record {
    future = r.next_future;
    kind = exact n;
    exact_read = some (record { initialized = []; expected = n });
    until_read = st;
  }
  new_waiter r kind st = record {
    future = r.next_future;
    kind = kind;
    exact_read = none;
    until_read = st;
  }

  -- `ExactReadAccumulator::new` takes a `Py_ssize_t`.
  unfoldable pub is_too_large : ReadWaitKind → Bool
  is_too_large (exact n) = ltb isize_max n
  is_too_large kind = false

  -- the fill at the end of `start_waiter`
  unfoldable pub fill_new : Reader → ReadWaiter → Reader
  fill_new r w = elim w.exact_read [
    | none ↦ record r { waiter = some w }
    | some e ↦ fill_from a r w e
  ]

  -- `start_waiter`
  unfoldable pub start_waiter :
      Reader → ReadWaitKind → Option UntilReadState → Result Awaitable CallError × Reader
  unfolding resume_for_waiter new_waiter is_too_large fill_new
  start_waiter r kind st =
      if is_some r.waiter
      then (err already_waiting, r)
      else let r' = resume_for_waiter r in
        let r'' : Reader = record r' { next_future = suc r'.next_future } in
        if is_too_large kind
        then (err read_size_too_large, r'')
        else (ok (waiting r'.next_future), fill_new r'' (new_waiter r' kind st))

  unfoldable pub take_incoming : Reader → ReadWaiter → ExactReadAccumulator → List ℕ → ℕ × Reader
  take_incoming r w e xs =
      let (amount, e') = fill_from_slice e xs in
      (amount, record r { waiter = some (record w { exact_read = some e' }) })

  unfoldable pub fill_waiting : Reader → List ℕ → ℕ × Reader
  unfolding take_incoming
  fill_waiting r xs =
      if not (is_some r.failure) && is_empty r.buffer
      then elim r.waiter [
        | none ↦ (0, r)
        | some w ↦ elim w.exact_read [ none ↦ (0, r) | some e ↦ take_incoming r w e xs ]
      ]
      else (0, r)

  -- `fill_exact_from_incoming`
  unfoldable pub fill_exact_from_incoming : Reader → List ℕ → ℕ × Reader
  unfolding fill_waiting
  fill_exact_from_incoming r xs = fill_waiting (clear_cancelled_waiter a r) xs
