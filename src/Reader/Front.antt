-- ===== src/Reader/Front.antt =====
-- What the reads hand over is the front of what the reader holds, on every branch.
use rsloop.Common.{
  ℕ, ◌≤◌, ◌≡◌, refl, sym, subst, true, false, not, List, [], none, some, leb, arith, Bool-cases,
  inl, inr, ◌||◌, ◌==◌, Result, ok, err,
}
use rsloop.Bytes.{Alloc, usize_max}
use rsloop.ReadBuffer.{unread, len, is_empty, consume_all}
use rsloop.Separator.{Memchr, UntilReadState, scan, is_pending, SeparatorError, single, from_list}
use rsloop.Separator
use rsloop.Reader.State.{
  Reader, bytes_of, any, exact, all, until, Outcome, value, exception, incomplete_read, ready,
}
use rsloop.Reader.Flow.{clear_cancelled_waiter, unread_all_bytes_object}
use rsloop.Reader.Calls.{
  ReadSize, everything, at_most, read_everything, read_at_most, read_sized, build_read_future,
  read_exactly, build_readexactly_future, read_until, build_until_future, until_state, readuntil,
  readline,
}
use rsloop.Reader.Yield.{
  Unmixed, resume-Yields, consume_all-Yields, unread_bytes_object-Yields,
  unread_all_bytes_object-Yields, resolve_until_scan-Yields,
}
use rsloop.Reader.Conserve.{Valid}
use rsloop.Reader.Clear.{load, clear_cancelled_waiter-Clears}
use rsloop.Reader.Read.{
  Reads, Yields-Reads, cleared-Reads, kept-Reads, or_failure-Reads, start_waiter-Reads,
}

module _ (a : Alloc) where
  nothing-Reads : (r : Reader) (o : Outcome) → Valid r → bytes_of o ≡ [] → Reads r (ok (ready o), r)
  nothing-Reads r o v e = kept-Reads r r (ok (ready o)) v (ground arith) refl e

  read_everything-Reads : (r : Reader) → Valid r → Unmixed r → Reads r (read_everything a r)
  unfolding read_everything unread_all_bytes_object
  read_everything-Reads r v u = elim (Bool-cases r.eof) [
    | inl e ↦ subst (Reads r) (sym (at_end r e)) (
        Yields-Reads r _ _ v
          (unread_all_bytes_object-Yields a r (value (unread r.buffer)) v.buffer_valid u refl))
    | inr e ↦ simp e (start_waiter-Reads a r all none v)
  ]
    where
      at_end :
          (r : Reader)
          → r.eof ≡ true
          → read_everything a r
            ≡ (ok (ready (value (unread r.buffer))), (unread_all_bytes_object a r).1)
      at_end r e = simp e refl

  read_at_most-Reads : (r : Reader) (n : ℕ) → Valid r → Unmixed r → Reads r (read_at_most a r n)
  unfolding read_at_most
  read_at_most-Reads r n v u = elim (Bool-cases (n == 0)) [
    | inl e ↦ simp e (nothing-Reads r (value []) v refl)
    | inr e ↦ elim (Bool-cases (not (is_empty r.buffer) || r.eof)) [
      | inl d ↦
          simp (e, d)
            (Yields-Reads r _ _ v
              (resume-Yields a r _ _ (unread_bytes_object-Yields a r n v.buffer_valid u)))
      | inr d ↦ simp (e, d) (start_waiter-Reads a r (any n) none v)
    ]
  ]

  read_sized-Reads :
      (r : Reader) (size : ReadSize) → Valid r → Unmixed r → Reads r (read_sized a r size)
  unfolding read_sized
  read_sized-Reads r everything v u = read_everything-Reads r v u
  read_sized-Reads r (at_most n) v u = read_at_most-Reads r n v u

  read_exactly-Reads : (r : Reader) (n : ℕ) → Valid r → Unmixed r → Reads r (read_exactly a r n)
  unfolding read_exactly
  read_exactly-Reads r n v u = elim (Bool-cases (n == 0)) [
    | inl e ↦ simp e (nothing-Reads r (value []) v refl)
    | inr e ↦ elim (Bool-cases (leb n (len r.buffer))) [
      | inl d ↦
          simp (e, d)
            (Yields-Reads r _ _ v
              (resume-Yields a r _ _ (unread_bytes_object-Yields a r n v.buffer_valid u)))
      | inr d ↦ elim (Bool-cases r.eof) [
        | inl f ↦ subst (Reads r) (sym (at_end r n e d f)) (
            Yields-Reads r _ _ v (
              consume_all-Yields a r (exception (incomplete_read (unread r.buffer) (some n)))
                v.buffer_valid u refl))
        | inr f ↦ simp (e, d, f) (start_waiter-Reads a r (exact n) none v)
      ]
    ]
  ]
    where
      at_end :
          (r : Reader) (n : ℕ)
          → (n == 0) ≡ false
          → leb n (len r.buffer) ≡ false
          → r.eof ≡ true
          → read_exactly a r n ≡ (
            ok (ready (exception (incomplete_read (unread r.buffer) (some n)))),
            record r { buffer = consume_all a r.buffer },
          )
      at_end r n e d f = simp (e, d, f) refl

  module _ (m : Memchr) where
    read_until-Reads :
        (r : Reader) (st : UntilReadState) → Valid r → Unmixed r → Reads r (read_until a m r st)
    unfolding read_until
    read_until-Reads r st v u =
        let (result, st') = scan m st (unread r.buffer) r.limit in
        elim (Bool-cases (is_pending result r.eof)) [
          | inl e ↦ simp e (start_waiter-Reads a r until (some st') v)
          | inr e ↦ simp e (
              Yields-Reads r _ _ v
                (resolve_until_scan-Yields a r result st.line_mode v.buffer_valid u))
        ]

  -- Whatever the size, `read` hands over the front of what the reader holds: the bytes of its
  -- answer, followed by those still held, are those that were held; it settles no future, and the
  -- reader stays valid. The reader is valid, its vector fits a `usize`, and what an exact read has
  -- taken and buffered bytes are not there together.
  pub build_read_future-Reads :
      (r : Reader) (size : ReadSize)
      → Valid r
      → Unmixed r
      → load r ≤ usize_max
      → Reads r (build_read_future a r size)
  unfolding build_read_future
  build_read_future-Reads r size v u room =
      let c = clear_cancelled_waiter-Clears a r v room in
      let r' = clear_cancelled_waiter a r in
      cleared-Reads r r' _ c (
        or_failure-Reads r' _ c.conserves.valid
          (read_sized-Reads r' size c.conserves.valid (c.unmixed u)))

  -- `readexactly` hands over the front of what the reader holds, in its value or, where the stream
  -- has ended short, in its exception: the bytes of its answer, followed by those still held
  -- (those that a new waiter has taken among them), are those that were held; it settles no
  -- future, and the reader stays valid. The reader is valid, its vector fits a `usize`, and what
  -- an exact read has taken and buffered bytes are not there together.
  pub build_readexactly_future-Reads :
      (r : Reader) (n : ℕ)
      → Valid r
      → Unmixed r
      → load r ≤ usize_max
      → Reads r (build_readexactly_future a r n)
  unfolding build_readexactly_future
  build_readexactly_future-Reads r n v u room =
      let c = clear_cancelled_waiter-Clears a r v room in
      let r' = clear_cancelled_waiter a r in
      cleared-Reads r r' _ c (
        or_failure-Reads r' _ c.conserves.valid
          (read_exactly-Reads r' n c.conserves.valid (c.unmixed u)))

  module _ (m : Memchr) where
    build_until_future-Reads :
        (r : Reader) (st : UntilReadState)
        → Valid r
        → Unmixed r
        → load r ≤ usize_max
        → Reads r (build_until_future a m r st)
    unfolding build_until_future
    build_until_future-Reads r st v u room =
        let c = clear_cancelled_waiter-Clears a r v room in
        or_failure-Reads r _ v (
          cleared-Reads r (clear_cancelled_waiter a r) _ c
            (read_until-Reads m (clear_cancelled_waiter a r) st c.conserves.valid (c.unmixed u)))

    until_state-Reads :
        (r : Reader) (made : Result UntilReadState SeparatorError)
        → Valid r
        → Unmixed r
        → load r ≤ usize_max
        → Reads r (until_state a m r made)
    unfolding until_state
    until_state-Reads r (ok st) v u room = build_until_future-Reads r st v u room
    until_state-Reads r (err Separator.no_separator) v u room = nothing-Reads r _ v refl
    until_state-Reads r (err Separator.empty_separator) v u room = nothing-Reads r _ v refl

    -- For any separators, those it refuses included, `readuntil` hands over the front of what the
    -- reader holds: the bytes of its answer, followed by those still held, are those that were
    -- held; it settles no future, and the reader stays valid. The reader is valid, its vector fits
    -- a `usize`, and what an exact read has taken and buffered bytes are not there together.
    pub readuntil-Reads :
        (r : Reader) (separators : List (List ℕ))
        → Valid r
        → Unmixed r
        → load r ≤ usize_max
        → Reads r (readuntil a m r separators)
    unfolding readuntil
    readuntil-Reads r separators v u room = until_state-Reads r _ v u room

    -- `readline` hands over, or drops as an oversized line, the front of what the reader holds:
    -- these bytes, followed by those still held, are those that were held; it settles no future,
    -- and the reader stays valid. The reader is valid, its vector fits a `usize`, and what an
    -- exact read has taken and buffered bytes are not there together.
    pub readline-Reads :
        (r : Reader) → Valid r → Unmixed r → load r ≤ usize_max → Reads r (readline a m r)
    unfolding readline
    readline-Reads r v u room = until_state-Reads r _ v u room
