-- ===== src/Reader/Settled.antt =====
-- How the waiter of a reader whose stream has ended or failed is answered.
use rsloop.Common.{
  ℕ, ◌≡◌, refl, ap, ◌∙◌, inl, inr, ◌++◌, List, ◌∷◌, [], Bool, true, false, Option, none, some,
  if_elim, length, not, ◌&&◌, leb, ◌==◌, ◌+◌, Bool-cases, ltb, Option-cases, arith,
}
use rsloop.Bytes.{Alloc}
use rsloop.ReadBuffer.{unread, is_empty, len, ReadBuffer, consume, consume_all}
use rsloop.Separator.{
  Memchr, scan, is_pending, UntilReadState, UntilScan, found, need_more, over_limit,
}
use rsloop.Reader.State.{
  is_some, filled, Reader, ReadWaiter, ReadWaitKind, any, exact, all, until, ExactReadAccumulator,
  settle, Outcome, exception, raised, Overrun, separator_found, separator_not_found,
}
use rsloop.Reader.Flow.{
  fill_from, filled_waiter, maybe_resume_transport, unread_bytes_object, unread_all_bytes_object,
}
use rsloop.Reader.Complete.{
  byte_at, newline, complete_any, complete_exact, complete_all, complete_until, complete,
  fill_and_complete, complete_waiter, resolve_until_scan, until_limit_overrun,
}
use rsloop.Reader.Accumulate.{refill-Shaped, filled-expected}
use rsloop.Reader.Conserve.{Shaped}

-- A waiter of `readuntil` has its search.
abbrev pub Searches : Option ReadWaiter → Type 0
Searches none = Unit {0}
Searches (some w) = w.kind ≡ until → (st : UntilReadState) × (w.until_read ≡ some st)

-- A wait that ends: the reader has no waiter, and its future, which nobody cancelled, has been settled
-- with an outcome, last.
pub record Wakes (P : Outcome → Type 0) (before : List (ℕ × Outcome)) (future : ℕ) (r' : Reader)
    : Type 0 where
  pub gone : r'.waiter ≡ none
  pub outcome : Outcome
  pub fitting : P outcome
  pub settled : r'.settled ≡ before ++ ((future, outcome) ∷ [])

abbrev pub Anything : Outcome → Type 0
Anything o = Unit {0}

-- What settling depends on.
record Same (r r' : Reader) : Type 0 where
  waiter : r'.waiter ≡ none
  cancelled : (f : ℕ) → r'.cancelled f ≡ r.cancelled f
  settled : r'.settled ≡ r.settled

settled-Wakes :
    (P : Outcome → Type 0) (r r' : Reader) (w : ReadWaiter) (o : Outcome)
    → r.cancelled w.future ≡ false
    → Same r r'
    → P o
    → Wakes P r.settled w.future (settle r' w.future o)
settled-Wakes P r r' w o live s p =
    let c : r'.cancelled w.future ≡ false = s.cancelled w.future ∙ live in
    rw c (record {
      gone = s.waiter;
      outcome = o;
      fitting = p;
      settled = ap (λ xs. xs ++ ((w.future, o) ∷ [])) s.settled;
    })

is_pending-eof : (s : UntilScan) → is_pending s true ≡ false
unfolding is_pending
is_pending-eof need_more = refl
is_pending-eof (found s e) = refl
is_pending-eof (over_limit c) = refl

resumed-Same : (r r' : Reader) → Same r r' → Same r (maybe_resume_transport r')
unfolding maybe_resume_transport
resumed-Same r r' s =
    elim (Bool-cases (r'.paused && leb (len r'.buffer) r'.limit && is_some r'.transport)) [
      | inl e ↦ rw e (record { waiter = s.waiter; cancelled = s.cancelled; settled = s.settled })
      | inr e ↦ rw e s
    ]

rebuffered-Same : (r r' : Reader) (b : ReadBuffer) → Same r r' → Same r (record r' { buffer = b })
rebuffered-Same r r' b s = record {
  waiter = s.waiter;
  cancelled = s.cancelled;
  settled = s.settled;
}

pub same_waiter : {w v : ReadWaiter} → some w ≡ some v → w ≡ v
same_waiter e = cc e

module _ (a : Alloc) where
  any-wakes :
      (r : Reader) (w : ReadWaiter) (n : ℕ)
      → r.eof ≡ true
      → r.cancelled w.future ≡ false
      → Wakes Anything r.settled w.future (complete_any a r w n)
  unfolding complete_any unread_bytes_object
  any-wakes r w n e live =
      if_elim (Wakes Anything r.settled w.future) (is_empty r.buffer && not r.eof) _ _
        (λ z. absurd (ground (arith, z, e)))
        (λ z.
          settled-Wakes Anything r _ w _ live
            (resumed-Same r _ (record { waiter = refl; cancelled = λ f. refl; settled = refl })) tt)

  all-wakes :
      (r : Reader) (w : ReadWaiter)
      → r.eof ≡ true
      → r.cancelled w.future ≡ false
      → Wakes Anything r.settled w.future (complete_all a r w)
  unfolding complete_all unread_all_bytes_object
  all-wakes r w e live =
      if_elim (Wakes Anything r.settled w.future) (not r.eof) _ _
        (λ z. absurd (ground (arith, z, e)))
        (λ z.
          settled-Wakes Anything r _ w _ live
            (record { waiter = refl; cancelled = λ f. refl; settled = refl }) tt)

  exact-wakes :
      (r : Reader) (w : ReadWaiter) (x : ExactReadAccumulator) (n : ℕ)
      → r.eof ≡ true
      → r.cancelled w.future ≡ false
      → Wakes Anything r.settled w.future (complete_exact a r w x n)
  unfolding complete_exact
  exact-wakes r w x n e live =
      let still : Same r (record r { waiter = none }) = record {
        waiter = refl;
        cancelled = λ f. refl;
        settled = refl;
      } in
      if_elim (Wakes Anything r.settled w.future) (leb n (filled x)) _ _
        (λ z. settled-Wakes Anything r _ w _ live (resumed-Same r _ still) tt)
        (λ z.
          if_elim (Wakes Anything r.settled w.future) (not r.eof) _ _
            (λ y. absurd (ground (arith, y, e)))
            (λ y. settled-Wakes Anything r _ w _ live still tt))

  overrun-Same :
      (r r' : Reader) (message : Overrun) (consumed : ℕ) (line_mode : Bool)
      → Same r r'
      → Same r (until_limit_overrun a r' message consumed line_mode).1
  unfolding until_limit_overrun
  overrun-Same r r' message consumed true s =
      let bytes = unread r'.buffer in
      let c = consume a r'.buffer (consumed + 1) in
      let d = consume_all a r'.buffer in
      if_elim (λ (p : Outcome × Reader). Same r p.1)
        (ltb consumed (length bytes) && byte_at bytes consumed == newline) _ _
        (λ z. resumed-Same r (record r' { buffer = c }) (rebuffered-Same r r' c s))
        (λ z. resumed-Same r (record r' { buffer = d }) (rebuffered-Same r r' d s))
  overrun-Same r r' message consumed false s = s

  resolve-Same :
      (r r' : Reader) (t : UntilScan) (line_mode : Bool)
      → Same r r'
      → Same r (resolve_until_scan a r' t line_mode).1
  unfolding resolve_until_scan unread_all_bytes_object
  resolve-Same r r' (found i e) line_mode s =
      if_elim (λ (p : Outcome × Reader). Same r p.1) (ltb r'.limit i) _ _
        (λ z. overrun-Same r r' separator_found i line_mode s)
        (λ z. resumed-Same r _ (rebuffered-Same r r' (consume a r'.buffer e) s))
  resolve-Same r r' (over_limit consumed) line_mode s =
      overrun-Same r r' separator_not_found consumed line_mode s
  resolve-Same r r' need_more line_mode s = record {
    waiter = s.waiter;
    cancelled = s.cancelled;
    settled = s.settled;
  }

  module _ (m : Memchr) where
    until-wakes :
        (r : Reader) (w : ReadWaiter) (st : UntilReadState)
        → r.eof ≡ true
        → r.cancelled w.future ≡ false
        → Wakes Anything r.settled w.future (complete_until a m r w st)
    unfolding complete_until
    until-wakes r w st e live =
        let (s, st') = scan m st (unread r.buffer) r.limit in
        if_elim (Wakes Anything r.settled w.future) (is_pending s r.eof) _ _
          (λ z. absurd (cc (z, ap (is_pending s) e, is_pending-eof s)))
          (λ z.
            settled-Wakes Anything r _ w _ live
              (resolve-Same r (record r { waiter = none }) s st.line_mode
                (record { waiter = refl; cancelled = λ f. refl; settled = refl }))
              tt)

    complete-wakes :
        (r : Reader) (w : ReadWaiter) (k : ReadWaitKind)
        → w.kind ≡ k
        → Shaped k w.exact_read
        → Searches (some w)
        → r.eof ≡ true
        → r.cancelled w.future ≡ false
        → Wakes Anything r.settled w.future (complete a m r w k)
    unfolding complete
    complete-wakes r w (any n) k x s e live = any-wakes r w n e live
    complete-wakes r w (exact n) k (y, ex, _) s e live =
        rw (ex, complete) (exact-wakes r w y n e live)
    complete-wakes r w all k x s e live = all-wakes r w e live
    complete-wakes r w until k x s e live = rw ((s k).1, complete) (until-wakes r w (s k).0 e live)

    -- The accumulator is filled first, which settles nothing.
    pub fill_and_complete-wakes :
        (r : Reader) (w : ReadWaiter)
        → Shaped w.kind w.exact_read
        → Searches (some w)
        → r.eof ≡ true
        → r.cancelled w.future ≡ false
        → Wakes Anything r.settled w.future (fill_and_complete a m r w)
    unfolding fill_and_complete fill_from
    fill_and_complete-wakes r w x s e live = elim (Option-cases w.exact_read) [
      | inl no_acc ↦ rw (no_acc, fill_and_complete) (complete-wakes r w w.kind refl x s e live)
      | inr (y, ex) ↦
          let d =
            complete-wakes (fill_from a r w y) (filled_waiter r w y) w.kind refl
              (refill-Shaped w.kind y _ (rw ex at x) (filled-expected y _)) s e live in
          rw (ex, fill_and_complete) d
    ]

    pub complete_failed :
        (r : Reader) (w : ReadWaiter) (i : ℕ)
        → r.waiter ≡ some w
        → r.failure ≡ some i
        → r.cancelled w.future ≡ false
        → Wakes (λ o. o ≡ exception (raised i)) r.settled w.future (complete_waiter a m r)
    unfolding complete_waiter
    complete_failed r w i q f live =
        rw (q, f, complete_waiter)
          (settled-Wakes (λ o. o ≡ exception (raised i)) r (record r { waiter = none }) w
            (exception (raised i)) live
            (record { waiter = refl; cancelled = λ f. refl; settled = refl }) refl)
