-- ===== src/Reader/Exact.antt =====
-- How many bytes `readexactly` answers with.
use rsloop.Common.{
  ℕ, ◌<◌, ◌≡◌, refl, inl, inr, none, some, length, length-take, Bool-cases, arith, leb, min, ◌==◌,
  Result, ok, err,
}
use rsloop.Bytes.{Alloc}
use rsloop.ReadBuffer.{unread, len}
use rsloop.ReadBuffer.Unread.{length-unread}
use rsloop.Reader.State.{
  Reader, exact, Outcome, value, exception, raised, incomplete_read, limit_overrun, line_overrun,
  no_separators, empty_separator, Awaitable, ready, waiting, CallError,
}
use rsloop.Reader.Flow.{clear_cancelled_waiter, unread_bytes_object}
use rsloop.Reader.Start.{start_waiter}
use rsloop.Reader.Calls.{Reply, or_failure, read_exactly, build_readexactly_future}

-- An outcome of `readexactly` of `n` bytes: all of them, fewer with the number that was asked for,
-- or the failure of the transport.
abbrev pub IsExact : ℕ → Outcome → Type 0
IsExact n (value bs) = length bs ≡ n
IsExact n (exception (raised e)) = Unit {0}
IsExact n (exception (incomplete_read bs expected)) = (length bs < n) × (expected ≡ some n)
IsExact n (exception (limit_overrun o consumed)) = ⊥
IsExact n (exception (line_overrun o dropped)) = ⊥
IsExact n (exception no_separators) = ⊥
IsExact n (exception empty_separator) = ⊥

abbrev pub AnswersExactly : ℕ → Result Awaitable CallError → Type 0
AnswersExactly n (ok (ready o)) = IsExact n o
AnswersExactly n (ok (waiting f)) = Unit {0}
AnswersExactly n (err e) = Unit {0}

module _ (a : Alloc) where
  start_waiter-waits : (r : Reader) (n k : ℕ) → AnswersExactly n (start_waiter a r (exact k) none).0
  unfolding start_waiter
  start_waiter-waits r n k = ground arith

  read_exactly-AnswersExactly : (r : Reader) (n : ℕ) → AnswersExactly n (read_exactly a r n).0
  unfolding read_exactly unread_bytes_object
  read_exactly-AnswersExactly r n = elim (Bool-cases (n == 0)) [
    | inl e ↦ simp e (ground arith)
    | inr e ↦ elim (Bool-cases (leb n (len r.buffer))) [
      | inl d ↦
          simp (e, d)
            (ground
              (arith, length-take (min (len r.buffer) n) (unread r.buffer), length-unread r.buffer))
      | inr d ↦ elim (Bool-cases r.eof) [
        | inl f ↦ simp (e, d, f) (ground (arith, length-unread r.buffer), refl)
        | inr f ↦ simp (e, d, f) (start_waiter-waits r n n)
      ]
    ]
  ]

  or_failure-AnswersExactly :
      (n : ℕ) (r : Reader) (reply : Reply)
      → AnswersExactly n reply.0
      → AnswersExactly n (or_failure r reply).0
  or_failure-AnswersExactly n r reply h = ground arith

  -- Whatever state the reader is in, what `readexactly(n)` returns at once is `n` bytes, or the
  -- exception that the stream ended with fewer than `n` (and names `n`), or the failure of the
  -- transport; it never answers with another number of bytes.
  pub build_readexactly_future-AnswersExactly :
      (r : Reader) (n : ℕ) → AnswersExactly n (build_readexactly_future a r n).0
  unfolding build_readexactly_future
  build_readexactly_future-AnswersExactly r n =
      let r' = clear_cancelled_waiter a r in
      or_failure-AnswersExactly n r' (read_exactly a r' n) (read_exactly-AnswersExactly r' n)
