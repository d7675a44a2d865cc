-- ===== src/Reader/Calls.antt =====
-- What the transport and the program call.
use rsloop.Common.{
  ℕ, Bool, true, false, not, ◌&&◌, ◌||◌, List, [], ◌∷◌, Option, none, some, drop, leb, ◌==◌,
  if◌then◌else◌, Result, ok, err,
}
use rsloop.Bytes.{Alloc}
use rsloop.ReadBuffer.{
  OwnedReadBuffer, len, unread, is_empty, extend, extend_owned, consume_all, replace,
}
use rsloop.Separator.{
  Memchr, UntilReadState, Separators, scan, is_pending, single, from_list, SeparatorError,
  no_separator,
}
use rsloop.Separator
use rsloop.Reader.State.{
  Reader, ReadWaiter, any, exact, all, until, Exception, raised, incomplete_read, no_separators,
  empty_separator, value, exception, Awaitable, ready, CallError, fed_after_eof, Transport,
}
use rsloop.Reader.Flow.{
  maybe_resume_transport, maybe_pause_transport, clear_cancelled_waiter, unread_bytes_object,
  unread_all_bytes_object,
}
use rsloop.Reader.Start.{start_waiter, fill_exact_from_incoming}
use rsloop.Reader.Complete.{resolve_until_scan, maybe_complete_waiter, newline}

-- What `read` is asked for: a negative size reads up to the end.
pub data ReadSize : Type 0 where
  everything : ReadSize
  at_most : ℕ → ReadSize

-- What a call returns, beside the reader that it leaves.
abbrev pub Reply : Type 0
Reply = Result Awaitable CallError × Reader

-- A read with a failure set raises it.
abbrev pub or_failure : Reader → Reply → Reply
or_failure r reply = elim r.failure [
  | some e ↦ (ok (ready (exception (raised e))), r)
  | none ↦ reply
]

module _ (a : Alloc) where
  unfoldable pub read_everything : Reader → Reply
  read_everything r =
      let (bytes, r') = unread_all_bytes_object a r in
      if r.eof then (ok (ready (value bytes)), r') else start_waiter a r all none

  unfoldable pub read_at_most : Reader → ℕ → Reply
  read_at_most r n =
      let (bytes, r') = unread_bytes_object a r n in
      if n == 0
      then (ok (ready (value [])), r)
      else if not (is_empty r.buffer) || r.eof
      then (ok (ready (value bytes)), maybe_resume_transport r')
      else start_waiter a r (any n) none

  unfoldable pub read_sized : Reader → ReadSize → Reply
  unfolding read_everything read_at_most
  read_sized r everything = read_everything r
  read_sized r (at_most n) = read_at_most r n

  -- `build_read_future`, behind `read`
  unfoldable pub build_read_future : Reader → ReadSize → Reply
  unfolding read_sized
  build_read_future r size =
      let r' = clear_cancelled_waiter a r in or_failure r' (read_sized r' size)

  unfoldable pub read_exactly : Reader → ℕ → Reply
  read_exactly r n =
      if n == 0
      then (ok (ready (value [])), r)
      else if leb n (len r.buffer)
      then (
        ok (ready (value (unread_bytes_object a r n).0)),
        maybe_resume_transport (unread_bytes_object a r n).1,
      )
      else if r.eof
      then (
        ok (ready (exception (incomplete_read (unread r.buffer) (some n)))),
        record r { buffer = consume_all a r.buffer },
      )
      else start_waiter a r (exact n) none

  -- `build_readexactly_future`, behind `readexactly` of a size that is not negative
  unfoldable pub build_readexactly_future : Reader → ℕ → Reply
  unfolding read_exactly
  build_readexactly_future r n =
      let r' = clear_cancelled_waiter a r in or_failure r' (read_exactly r' n)

  module _ (m : Memchr) where
    unfoldable pub read_until : Reader → UntilReadState → Reply
    read_until r st =
        let (result, st') = scan m st (unread r.buffer) r.limit in
        if is_pending result r.eof
        then start_waiter a r until (some st')
        else let (outcome, r') = resolve_until_scan a r result st.line_mode in
          (ok (ready outcome), r')

    -- `build_until_future`: the failure is looked at before a cancelled waiter is cleared.
    unfoldable pub build_until_future : Reader → UntilReadState → Reply
    unfolding read_until
    build_until_future r st = or_failure r (read_until (clear_cancelled_waiter a r) st)

    separator_exception : SeparatorError → Exception
    separator_exception no_separator = no_separators
    separator_exception Separator.empty_separator = empty_separator

    unfoldable pub until_state : Reader → Result UntilReadState SeparatorError → Reply
    unfolding separator_exception
    until_state r (ok st) = build_until_future r st
    until_state r (err e) = (ok (ready (exception (separator_exception e))), r)

    -- `readuntil` of a tuple of separators (one separator is a tuple of one)
    unfoldable pub readuntil : Reader → List (List ℕ) → Reply
    unfolding until_state
    readuntil r separators = until_state r (Separator.new (from_list separators) false)

    -- `readline`
    unfoldable pub readline : Reader → Reply
    unfolding until_state
    readline r = until_state r (Separator.new (single (newline ∷ [])) true)

    unfoldable pub feed_rest : Reader → Reader
    feed_rest r = maybe_pause_transport (maybe_complete_waiter a m r)

    -- `feed_data_internal`
    unfoldable pub feed_data_internal : Reader → List ℕ → Result (Unit {0}) CallError × Reader
    unfolding feed_rest
    feed_data_internal r xs =
        if r.eof
        then (err fed_after_eof, r)
        else let (consumed, r') = fill_exact_from_incoming a r xs in
          (ok tt, feed_rest (record r' { buffer = extend a r'.buffer (drop consumed xs) }))

    -- `feed_owned_data_internal`: bytes that no exact read took may be handed over whole.
    unfoldable pub feed_owned_data_internal :
        Reader → OwnedReadBuffer → Result (Unit {0}) CallError × Reader
    unfolding feed_rest
    feed_owned_data_internal r d =
        if r.eof
        then (err fed_after_eof, r)
        else let (consumed, r') = fill_exact_from_incoming a r d.vec.items in
          (
            ok tt,
            feed_rest (record r' {
              buffer =
                  if consumed == 0
                  then (extend_owned a r'.buffer d).1
                  else extend a r'.buffer (drop consumed d.vec.items);
            }),
          )

    -- `feed_eof_internal`
    unfoldable pub feed_eof_internal : Reader → Reader
    feed_eof_internal r = maybe_complete_waiter a m (record r { eof = true })

    -- `set_exception_internal`
    unfoldable pub set_exception_internal : Reader → ℕ → Reader
    set_exception_internal r e = maybe_complete_waiter a m (record r { failure = some e })

abbrev pub future_is : Option ReadWaiter → ℕ → Bool
future_is none f = false
future_is (some w) f = w.future == f

-- `PyReadWaiterDone`, the callback of a future that is done or cancelled
unfoldable pub waiter_done : Alloc → Reader → ℕ → Reader
waiter_done a r f = if future_is r.waiter f then clear_cancelled_waiter a r else r

-- The setter of `_buffer`, given the bytes of the value; without them it raises and leaves the reader.
unfoldable pub set_buffer : Alloc → Reader → Option (List ℕ) → Option Reader
set_buffer a r none = none
set_buffer a r (some bytes) = some (record r { buffer = replace a r.buffer bytes })

-- `set_transport_obj`
unfoldable pub set_transport_obj : Reader → Option Transport → Reader
set_transport_obj r t = maybe_resume_transport (record r { transport = t })

-- `at_eof`
unfoldable pub at_eof : Reader → Bool
at_eof r = r.eof && is_empty r.buffer

-- Python's `Future.cancel` by the awaiter, which the reader meets later.
unfoldable pub cancel_future : Reader → ℕ → Reader
cancel_future r f = record r { cancelled = λ g. g == f || r.cancelled g }
