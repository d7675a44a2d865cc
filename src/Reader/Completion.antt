-- ===== src/Reader/Completion.antt =====
-- Completing a waiter conserves bytes, whatever its kind.
use rsloop.Common.{
  ℕ, ◌≡◌, refl, ap, ◌∙◌, false, not, Option, none, some, leb, arith, Bool-cases, Option-cases, inl,
  inr, ◌&&◌,
}
use rsloop.Bytes.{Alloc}
use rsloop.ReadBuffer.{unread, is_empty}
use rsloop.Separator.{Memchr, UntilReadState, scan, is_pending}
use rsloop.Reader.State.{
  Reader, ReadWaiter, ReadWaitKind, any, exact, all, until, ExactReadAccumulator, filled, Outcome,
  value, held, settle,
}
use rsloop.Reader.Flow.{maybe_resume_transport, fill_from, filled_waiter, unread_all_bytes_object}
use rsloop.Reader.Complete.{
  complete_any, complete_exact, complete_all, complete_until, complete, fill_and_complete,
}
use rsloop.Reader.Yield.{
  Yields, resume-Yields, resume-SameRest, resume-kept, unread_bytes_object-Yields,
  unread_all_bytes_object-Yields, resolve_until_scan-Yields,
}
use rsloop.Reader.Conserve.{
  Shaped, Valid, Conserves, Conserves-refl, Conserves-trans, settle-Conserves,
}
use rsloop.Reader.Accumulate.{fill_from-waiter, fill_from-Conserves}

-- A waiter that had taken nothing is settled by an outcome off the front of the buffer.
Yields-Conserves :
    (r r' : Reader) (w : ReadWaiter) (o : Outcome)
    → r.waiter ≡ some w
    → w.exact_read ≡ none
    → r.cancelled w.future ≡ false
    → Yields (record r { waiter = none }) o r'
    → Conserves r (settle r' w.future o)
unfolding held
Yields-Conserves r r' w o e x live y =
    settle-Conserves r r' w.future o live y.valid y.waiter_eq (ground arith) (y.front ∙ rw (e, x))

-- A search goes on: its new state changes nothing that is held.
waiting-Conserves :
    (r : Reader) (w : ReadWaiter) (st : Option UntilReadState)
    → Valid r
    → r.waiter ≡ some w
    → w.exact_read ≡ none
    → w.kind ≡ until
    → Conserves r (record r { waiter = some (record w { until_read = st }) })
unfolding held
waiting-Conserves r w st v e x k = record {
  valid = record { buffer_valid = v.buffer_valid; shaped = rw k x };
  limit_eq = refl;
  eof_eq = refl;
  failure_eq = refl;
  cancelled_eq = refl;
  bytes = rw (e, x);
}

module _ (a : Alloc) where
  complete_any-Conserves :
      (r : Reader) (w : ReadWaiter) (n : ℕ)
      → Valid r
      → r.waiter ≡ some w
      → w.exact_read ≡ none
      → r.cancelled w.future ≡ false
      → Conserves r (complete_any a r w n)
  unfolding complete_any
  complete_any-Conserves r w n v e x live = elim (Bool-cases (is_empty r.buffer && not r.eof)) [
    | inl pending ↦ rw pending (Conserves-refl r v)
    | inr done ↦ rw done (
        Yields-Conserves r _ w _ e x live (
          resume-Yields a _ _ _ (
            unread_bytes_object-Yields a (record r { waiter = none }) n v.buffer_valid (inl refl))))
  ]

  complete_all-Conserves :
      (r : Reader) (w : ReadWaiter)
      → Valid r
      → r.waiter ≡ some w
      → w.exact_read ≡ none
      → r.cancelled w.future ≡ false
      → Conserves r (complete_all a r w)
  unfolding complete_all unread_all_bytes_object
  complete_all-Conserves r w v e x live = elim (Bool-cases (not r.eof)) [
    | inl pending ↦ rw pending (Conserves-refl r v)
    | inr done ↦ rw done (
        Yields-Conserves r _ w _ e x live (
          unread_all_bytes_object-Yields a (record r { waiter = none }) (value (unread r.buffer))
            v.buffer_valid (inl refl) refl))
  ]

  complete_exact-Conserves :
      (r : Reader) (w : ReadWaiter) (x : ExactReadAccumulator) (n : ℕ)
      → Valid r
      → r.waiter ≡ some w
      → w.exact_read ≡ some x
      → r.cancelled w.future ≡ false
      → Conserves r (complete_exact a r w x n)
  unfolding complete_exact held
  complete_exact-Conserves r w x n v e ex live =
      let freed : Reader = record r { waiter = none } in
      let k = resume-kept freed in
      let s = resume-SameRest freed in
      elim (Bool-cases (leb n (filled x))) [
        | inl full ↦ rw full (
            settle-Conserves r (maybe_resume_transport freed) w.future (value x.initialized) live
              (rw k.0 v.buffer_valid) k.1 (ground arith) (rw (k.0, k.1, e, ex)))
        | inr more ↦ elim (Bool-cases (not r.eof)) [
          | inl pending ↦ rw (more, pending) (Conserves-refl r v)
          | inr ended ↦
              rw (more, ended)
                (settle-Conserves r freed w.future _ live v.buffer_valid refl (ground arith)
                  (rw (e, ex)))
        ]
      ]

  module _ (m : Memchr) where
    complete_until-Conserves :
        (r : Reader) (w : ReadWaiter) (st : UntilReadState)
        → Valid r
        → r.waiter ≡ some w
        → w.exact_read ≡ none
        → w.kind ≡ until
        → r.cancelled w.future ≡ false
        → Conserves r (complete_until a m r w st)
    unfolding complete_until held
    complete_until-Conserves r w st v e x k live =
        let result = (scan m st (unread r.buffer) r.limit).0 in
        elim (Bool-cases (is_pending result r.eof)) [
          | inl pending ↦ rw pending (waiting-Conserves r w _ v e x k)
          | inr done ↦ rw done (
              Yields-Conserves r _ w _ e x live (
                resolve_until_scan-Yields a (record r { waiter = none }) result st.line_mode
                  v.buffer_valid (inl refl)))
        ]

    -- What the kind of a waiter says of its accumulator, as the cases of `complete` need it.
    complete-Conserves :
        (r : Reader) (w : ReadWaiter) (k : ReadWaitKind)
        → Valid r
        → r.waiter ≡ some w
        → w.kind ≡ k
        → Shaped k w.exact_read
        → r.cancelled w.future ≡ false
        → Conserves r (complete a m r w k)
    unfolding complete
    complete-Conserves r w (any n) v e k x live = complete_any-Conserves r w n v e x live
    complete-Conserves r w (exact n) v e k (y, ex, _) live =
        rw (ex, complete) (complete_exact-Conserves r w y n v e ex live)
    complete-Conserves r w all v e k x live = complete_all-Conserves r w v e x live
    complete-Conserves r w until v e k x live = elim (Option-cases w.until_read) [
      | inl no_state ↦ rw (no_state, complete) (Conserves-refl r v)
      | inr (st, e') ↦ rw (e', complete) (complete_until-Conserves r w st v e x k live)
    ]

  module _ (m : Memchr) where
    pub fill_and_complete-Conserves :
        (r : Reader) (w : ReadWaiter)
        → Valid r
        → r.waiter ≡ some w
        → r.cancelled w.future ≡ false
        → Conserves r (fill_and_complete a m r w)
    unfolding fill_and_complete
    fill_and_complete-Conserves r w v e live = elim (Option-cases w.exact_read) [
      | inl no_acc ↦
          rw (no_acc, fill_and_complete)
            (complete-Conserves m r w w.kind v e refl (rw e at v.shaped) live)
      | inr (x, ex) ↦
          let f = fill_from-Conserves a r w x v e ex in
          rw (ex, fill_and_complete)
            (Conserves-trans r (fill_from a r w x) _ f (
              complete-Conserves m (fill_from a r w x) (filled_waiter r w x) w.kind f.valid
                (fill_from-waiter a r w x) refl (rw (fill_from-waiter a r w x) at f.valid.shaped)
                (ap (λ c. c w.future) f.cancelled_eq ∙ live)))
    ]
