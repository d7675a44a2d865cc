-- ===== src/Reader/Wake.antt =====
-- No read waits for what cannot come: the end of the stream and a failure end every wait.
use rsloop.Common.{
  ℕ, ◌≡◌, refl, sym, ◌∙◌, subst, inl, inr, true, false, none, some, ok, Bool-cases, Option-cases,
  arith,
}
use rsloop.Bytes.{Alloc}
use rsloop.Separator.{Memchr, UntilReadState}
use rsloop.Reader.State.{ready, Reader, ReadWaiter, Outcome, exception, raised}
use rsloop.Reader.Flow.{clear_cancelled_waiter, drop_waiter, maybe_pause_transport}
use rsloop.Reader.Complete.{fill_and_complete, complete_waiter, maybe_complete_waiter}
use rsloop.Reader.Calls.{
  ReadSize, build_read_future, build_readexactly_future, build_until_future, feed_eof_internal,
}
use rsloop.Reader.Conserve.{Shaped, Valid}
use rsloop.Reader.Settled.{
  Wakes, Anything, Searches, fill_and_complete-wakes, complete_failed, same_waiter,
}

-- What the end of the waits does to a reader: the waiter is gone; the future of one that nobody
-- cancelled is settled with an outcome, and without such a waiter nothing is settled.
pub record Ends (P : Outcome → Type 0) (r r' : Reader) : Type 0 where
  pub gone : r'.waiter ≡ none
  pub answered :
      (w : ReadWaiter)
      → r.waiter ≡ some w
      → r.cancelled w.future ≡ false
      → Wakes P r.settled w.future r'
  pub silent :
      ((w : ReadWaiter) → r.waiter ≡ some w → r.cancelled w.future ≡ true) → r'.settled ≡ r.settled

-- The waiter goes without an answer.
record Drops (r r' : Reader) : Type 0 where
  gone : r'.waiter ≡ none
  settled : r'.settled ≡ r.settled
  failure : r'.failure ≡ r.failure

-- Every read of a reader raises its failure.
pub record Raises (a : Alloc) (m : Memchr) (e : ℕ) (r : Reader) : Type 0 where
  pub read : (size : ReadSize) → (build_read_future a r size).0 ≡ ok (ready (exception (raised e)))
  pub readexactly : (n : ℕ) → (build_readexactly_future a r n).0 ≡ ok (ready (exception (raised e)))
  pub readuntil :
      (st : UntilReadState) → (build_until_future a m r st).0 ≡ ok (ready (exception (raised e)))

module _ (a : Alloc) (m : Memchr) where
  live_waiter :
      (r : Reader) (w : ReadWaiter)
      → r.waiter ≡ some w
      → r.cancelled w.future ≡ false
      → maybe_complete_waiter a m r ≡ complete_waiter a m r
  unfolding maybe_complete_waiter clear_cancelled_waiter
  live_waiter r w q live = ground arith

  complete_none : (r : Reader) → r.waiter ≡ none → complete_waiter a m r ≡ r
  unfolding complete_waiter
  complete_none r q = ground arith

  paused-Drops : (r s : Reader) → Drops r s → Drops r (maybe_pause_transport s)
  unfolding maybe_pause_transport
  paused-Drops r s d = record {
    gone = ground (arith, d.gone);
    settled = ground (arith, d.settled);
    failure = ground (arith, d.failure);
  }

  dropped-Drops : (r : Reader) (w : ReadWaiter) → Drops r (drop_waiter a r w)
  unfolding drop_waiter
  dropped-Drops r w = paused-Drops r _ (record { gone = refl; settled = refl; failure = refl })

  clear_cancelled :
      (r : Reader) (w : ReadWaiter)
      → r.waiter ≡ some w
      → r.cancelled w.future ≡ true
      → clear_cancelled_waiter a r ≡ drop_waiter a r w
  unfolding clear_cancelled_waiter
  clear_cancelled r w q c = ground arith

  clear_none : (r : Reader) → r.waiter ≡ none → clear_cancelled_waiter a r ≡ r
  unfolding clear_cancelled_waiter
  clear_none r q = ground arith

  completed-Drops : (r s : Reader) → Drops r s → Drops r (complete_waiter a m s)
  completed-Drops r s d = subst (Drops r) (sym (complete_none s d.gone)) d

  -- A waiter whose future was cancelled goes without an answer.
  cancelled_waiter :
      (r : Reader) (w : ReadWaiter)
      → r.waiter ≡ some w
      → r.cancelled w.future ≡ true
      → Drops r (maybe_complete_waiter a m r)
  unfolding maybe_complete_waiter
  cancelled_waiter r w q c =
      completed-Drops r _ (subst (Drops r) (sym (clear_cancelled r w q c)) (dropped-Drops r w))

  no_waiter : (r : Reader) → r.waiter ≡ none → Drops r (maybe_complete_waiter a m r)
  unfolding maybe_complete_waiter
  no_waiter r q =
      completed-Drops r _ (
        subst (Drops r) (sym (clear_none r q))
          (record { gone = q; settled = refl; failure = refl }))

  ended_waiter :
      (P : Outcome → Type 0) (r : Reader)
      → ((w : ReadWaiter)
          → r.waiter ≡ some w
          → r.cancelled w.future ≡ false
          → Wakes P r.settled w.future (complete_waiter a m r))
      → Ends P r (maybe_complete_waiter a m r)
  ended_waiter P r f = elim (Option-cases r.waiter) [
    | inl q ↦
        let d = no_waiter r q in
        record { gone = d.gone; answered = λ w e live. absurd (cc (e, q)); silent = λ n. d.settled }
    | inr (w, q) ↦ elim (Bool-cases (r.cancelled w.future)) [
      | inl c ↦
          let d = cancelled_waiter r w q c in
          record {
            gone = d.gone;
            answered = λ v e live. absurd (cc (e, q, live, c));
            silent = λ n. d.settled;
          }
      | inr live ↦
          let d = subst (Wakes P r.settled w.future) (sym (live_waiter r w q live)) (f w q live) in
          record {
            gone = d.gone;
            answered = λ v e z.
                subst (λ (x : ReadWaiter). Wakes P r.settled x.future (maybe_complete_waiter a m r))
                  (same_waiter (sym q ∙ e)) d;
            silent = λ n. absurd (cc (n w q, live));
          }
    ]
  ]

  complete_waiter-wakes :
      (r : Reader) (w : ReadWaiter)
      → r.waiter ≡ some w
      → Shaped w.kind w.exact_read
      → Searches (some w)
      → r.eof ≡ true
      → r.cancelled w.future ≡ false
      → Wakes Anything r.settled w.future (complete_waiter a m r)
  unfolding complete_waiter
  complete_waiter-wakes r w q x s e live = elim (Option-cases r.failure) [
    | inl f ↦
        subst (Wakes Anything r.settled w.future) (sym (no_failure r w q f))
          (fill_and_complete-wakes a m r w x s e live)
    | inr (i, f) ↦
        let d = complete_failed a m r w i q f live in
        record { gone = d.gone; outcome = d.outcome; fitting = tt; settled = d.settled }
  ]
    where
      no_failure :
          (r : Reader) (w : ReadWaiter)
          → r.waiter ≡ some w
          → r.failure ≡ none
          → complete_waiter a m r ≡ fill_and_complete a m r w
      no_failure r w q f = ground arith

  -- The end of the stream ends every wait of a valid reader, whatever the read was waiting for (a
  -- `readuntil` has its search): afterwards the reader has no waiter, the future of a read that was
  -- not cancelled has been settled with an outcome, and otherwise no future has been settled.
  pub feed_eof_internal-wakes :
      (r : Reader) → Valid r → Searches r.waiter → Ends Anything r (feed_eof_internal a m r)
  unfolding feed_eof_internal
  feed_eof_internal-wakes r v s =
      let d =
        ended_waiter Anything (record r { eof = true })
          (λ w q live.
            complete_waiter-wakes (record r { eof = true }) w q (rw q at v.shaped) (rw q at s) refl
              live) in
      record { gone = d.gone; answered = d.answered; silent = d.silent }
