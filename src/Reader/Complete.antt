-- ===== src/Reader/Complete.antt =====
-- How a read is resolved, at once or when its waiter can be completed.
use rsloop.Common.{
  ℕ, zero, suc, ◌+◌, Bool, true, false, not, ◌&&◌, List, [], ◌∷◌, none, some, length, take, leb,
  ltb, ◌==◌, if◌then◌else◌,
}
use rsloop.Bytes.{Alloc}
use rsloop.ReadBuffer.{unread, is_empty, consume, consume_all}
use rsloop.Separator.{
  Memchr, UntilScan, found, need_more, over_limit, UntilReadState, scan, is_pending,
}
use rsloop.Reader.State.{
  Reader, ReadWaiter, ReadWaitKind, any, exact, all, until, ExactReadAccumulator, filled, Overrun,
  separator_found, separator_not_found, raised, incomplete_read, limit_overrun, line_overrun,
  Outcome, value, exception, settle,
}
use rsloop.Reader.Flow.{
  maybe_resume_transport, clear_cancelled_waiter, fill_from, filled_waiter, unread_bytes_object,
  unread_all_bytes_object,
}

-- The byte at an index, or one that is no byte.
abbrev pub byte_at : List ℕ → ℕ → ℕ
byte_at [] i = 256
byte_at (x ∷ xs) zero = x
byte_at (x ∷ xs) (suc i) = byte_at xs i

abbrev pub newline : ℕ
newline = 10

module _ (a : Alloc) where
  -- `until_limit_overrun`
  unfoldable pub until_limit_overrun : Reader → Overrun → ℕ → Bool → Outcome × Reader
  until_limit_overrun r message consumed false = (exception (limit_overrun message consumed), r)
  until_limit_overrun r message consumed true =
      let bytes = unread r.buffer in
      if ltb consumed (length bytes) && byte_at bytes consumed == newline
      then (
        exception (line_overrun message (take (consumed + 1) bytes)),
        maybe_resume_transport (record r { buffer = consume a r.buffer (consumed + 1) }),
      )
      else (
        exception (line_overrun message bytes),
        maybe_resume_transport (record r { buffer = consume_all a r.buffer }),
      )

  until_end : Bool → List ℕ → Outcome
  until_end true rest = value rest
  until_end false rest = exception (incomplete_read rest none)

  -- `resolve_until_scan`
  unfoldable pub resolve_until_scan : Reader → UntilScan → Bool → Outcome × Reader
  unfolding until_end
  resolve_until_scan r (found match_start match_end) line_mode =
      if ltb r.limit match_start
      then until_limit_overrun r separator_found match_start line_mode
      else (
        value (take match_end (unread r.buffer)),
        maybe_resume_transport (record r { buffer = consume a r.buffer match_end }),
      )
  resolve_until_scan r (over_limit consumed) line_mode =
      until_limit_overrun r separator_not_found consumed line_mode
  resolve_until_scan r need_more line_mode =
      let (rest, r') = unread_all_bytes_object a r in (until_end line_mode rest, r')

  -- `maybe_complete_waiter` at `ReadWaitKind::Any`
  unfoldable pub complete_any : Reader → ReadWaiter → ℕ → Reader
  complete_any r w n =
      if is_empty r.buffer && not r.eof
      then r
      else let (bytes, r') = unread_bytes_object a (record r { waiter = none }) n in
        settle (maybe_resume_transport r') w.future (value bytes)

  -- at `ReadWaitKind::Exact`, once the accumulator has been filled
  unfoldable pub complete_exact : Reader → ReadWaiter → ExactReadAccumulator → ℕ → Reader
  complete_exact r w e n =
      if leb n (filled e)
      then settle (maybe_resume_transport (record r { waiter = none })) w.future
          (value e.initialized)
      else if not r.eof
      then r
      else settle (record r { waiter = none }) w.future
          (exception (incomplete_read e.initialized (some n)))

  -- at `ReadWaitKind::All`
  unfoldable pub complete_all : Reader → ReadWaiter → Reader
  complete_all r w =
      if not r.eof
      then r
      else let (bytes, r') = unread_all_bytes_object a (record r { waiter = none }) in
        settle r' w.future (value bytes)

  module _ (m : Memchr) where
    -- at `ReadWaitKind::Until`
    unfoldable pub complete_until : Reader → ReadWaiter → UntilReadState → Reader
    complete_until r w st =
        let (result, st') = scan m st (unread r.buffer) r.limit in
        if is_pending result r.eof
        then record r { waiter = some (record w { until_read = some st' }) }
        else let (outcome, r') =
            resolve_until_scan (record r { waiter = none }) result st.line_mode in
          settle r' w.future outcome

    -- the `match kind` of `maybe_complete_waiter`; an exact waiter without an accumulator would
    -- panic, and `Valid` rules it out
    unfoldable pub complete : Reader → ReadWaiter → ReadWaitKind → Reader
    unfolding complete_any complete_exact complete_all complete_until
    complete r w (any n) = complete_any r w n
    complete r w (exact n) = elim w.exact_read [ none ↦ r | some e ↦ complete_exact r w e n ]
    complete r w all = complete_all r w
    complete r w until = elim w.until_read [ none ↦ r | some st ↦ complete_until r w st ]

    -- behind the check for a failure: the accumulator is filled first
    unfoldable pub fill_and_complete : Reader → ReadWaiter → Reader
    unfolding complete
    fill_and_complete r w = elim w.exact_read [
      | none ↦ complete r w w.kind
      | some e ↦ complete (fill_from a r w e) (filled_waiter r w e) w.kind
    ]

    unfoldable pub complete_waiter : Reader → Reader
    complete_waiter r = elim r.waiter [
      | none ↦ r
      | some w ↦ elim r.failure [
        | some e ↦ settle (record r { waiter = none }) w.future (exception (raised e))
        | none ↦ fill_and_complete r w
      ]
    ]

    -- `maybe_complete_waiter`
    unfoldable pub maybe_complete_waiter : Reader → Reader
    unfolding complete_waiter
    maybe_complete_waiter r = complete_waiter (clear_cancelled_waiter a r)
