-- ===== src/Reader/Clear.antt =====
-- Clearing a cancelled waiter, and completing a live one, conserve the bytes held.
use rsloop.Common.{
  ℕ, ◌+◌, ◌≤◌, ◌≡◌, refl, sym, ap, ◌∙◌, subst, true, false, none, some, length, arith, Bool-cases,
  Option-cases, inl, inr,
}
use rsloop.Bytes.{Alloc, usize_max}
use rsloop.ReadBuffer.{items, prepend}
use rsloop.ReadBuffer.Unread.{prepend_lem, length-items-prepend}
use rsloop.Separator.{Memchr}
use rsloop.Reader.State.{Reader, ReadWaiter, held, partial}
use rsloop.Reader.Flow.{maybe_pause_transport, clear_cancelled_waiter, drop_waiter}
use rsloop.Reader.Complete.{complete_waiter, fill_and_complete, maybe_complete_waiter}
use rsloop.Reader.Yield.{Unmixed, held_of_kept, pause-SameRest, pause-kept}
use rsloop.Reader.Conserve.{Valid, Conserves, Conserves-refl, Conserves-trans}
use rsloop.Reader.Completion.{fill_and_complete-Conserves}

-- How much a reader holds, with the read bytes that its vector still keeps.
abbrev pub load : Reader → ℕ
load r = length (partial r.waiter) + length (items r.buffer)

-- No waiter of the reader is cancelled.
abbrev pub IsLive : Reader → Type 0
IsLive r = (w : ReadWaiter) → r.waiter ≡ some w → r.cancelled w.future ≡ false

-- What clearing a cancelled waiter does.
pub record Clears (r r' : Reader) : Type 0 where
  pub conserves : Conserves r r'
  pub settled_eq : r'.settled ≡ r.settled
  pub next_eq : r'.next_future ≡ r.next_future
  pub live : IsLive r'
  pub lighter : load r' ≤ load r
  pub held_eq : held r' ≡ held r
  pub unmixed : Unmixed r → Unmixed r'

pub pause-Conserves : (r : Reader) → Valid r → Conserves r (maybe_pause_transport r)
unfolding held
pause-Conserves r v =
    let k = pause-kept r in
    let s = pause-SameRest r in
    record {
      valid = record { buffer_valid = rw k.0 v.buffer_valid; shaped = rw k.1 v.shaped };
      limit_eq = s.limit_eq;
      eof_eq = s.eof_eq;
      failure_eq = s.failure_eq;
      cancelled_eq = s.cancelled_eq;
      bytes = rw (s.settled_eq, k.0, k.1);
    }

pause-next : (r : Reader) → (maybe_pause_transport r).next_future ≡ r.next_future
unfolding maybe_pause_transport
pause-next r = ground arith

module _ (a : Alloc) where
  drop_waiter-Clears :
      (r : Reader) (w : ReadWaiter)
      → Valid r
      → r.waiter ≡ some w
      → load r ≤ usize_max
      → Clears r (drop_waiter a r w)
  unfolding drop_waiter held
  drop_waiter-Clears r w v e room =
      let back : Reader = record r {
        waiter = none;
        buffer = prepend a r.buffer (partial (some w));
      } in
      let same : partial r.waiter ≡ partial (some w) = ap partial e in
      let p = prepend_lem a r.buffer (partial (some w)) v.buffer_valid (rw same at room) in
      let v' : Valid back = record { buffer_valid = p.0; shaped = tt } in
      let k = pause-kept back in
      let s = pause-SameRest back in
      let c = pause-Conserves back v' in
      record {
        conserves = record {
          valid = c.valid;
          limit_eq = c.limit_eq;
          eof_eq = c.eof_eq;
          failure_eq = c.failure_eq;
          cancelled_eq = c.cancelled_eq;
          bytes = c.bytes ∙ rw (p.1, e);
        };
        settled_eq = s.settled_eq;
        next_eq = pause-next back;
        live = λ x q. absurd (cc k.1);
        lighter =
            rw (k.0, k.1, e) (omega (arith, length-items-prepend a r.buffer (partial (some w))));
        held_eq = held_of_kept back (maybe_pause_transport back) k.0 k.1 ∙ rw (p.1, e);
        unmixed = λ u. inl (ap partial k.1);
      }

  clear_none : (r : Reader) → r.waiter ≡ none → clear_cancelled_waiter a r ≡ r
  unfolding clear_cancelled_waiter
  clear_none r e = ground arith

  clear_live :
      (r : Reader) (w : ReadWaiter)
      → r.waiter ≡ some w
      → r.cancelled w.future ≡ false
      → clear_cancelled_waiter a r ≡ r
  unfolding clear_cancelled_waiter
  clear_live r w e c = ground arith

  clear_cancelled :
      (r : Reader) (w : ReadWaiter)
      → r.waiter ≡ some w
      → r.cancelled w.future ≡ true
      → clear_cancelled_waiter a r ≡ drop_waiter a r w
  unfolding clear_cancelled_waiter
  clear_cancelled r w e c = ground arith

  clear_of_live : (r : Reader) → IsLive r → clear_cancelled_waiter a r ≡ r
  clear_of_live r l = elim (Option-cases r.waiter) [
    | inl e ↦ clear_none r e
    | inr (w, e) ↦ clear_live r w e (l w e)
  ]

  stays : (r : Reader) → Valid r → IsLive r → Clears r r
  stays r v l = record {
    conserves = Conserves-refl r v;
    settled_eq = refl;
    next_eq = refl;
    live = l;
    lighter = omega arith;
    held_eq = refl;
    unmixed = λ u. u;
  }

  -- Clearing a cancelled waiter puts the bytes that an exact read had taken back to the front, and
  -- settles nothing.
  pub clear_cancelled_waiter-Clears :
      (r : Reader) → Valid r → load r ≤ usize_max → Clears r (clear_cancelled_waiter a r)
  clear_cancelled_waiter-Clears r v room = elim (Option-cases r.waiter) [
    | inl e ↦ subst (Clears r) (sym (clear_none r e)) (stays r v (λ x q. ground arith))
    | inr (w, e) ↦ elim (Bool-cases (r.cancelled w.future)) [
      | inl c ↦ subst (Clears r) (sym (clear_cancelled r w e c)) (drop_waiter-Clears r w v e room)
      | inr c ↦ subst (Clears r) (sym (clear_live r w e c)) (stays r v (λ x q. ground arith))
    ]
  ]

  module _ (m : Memchr) where
    complete_waiter-Conserves :
        (r : Reader) → Valid r → IsLive r → r.failure ≡ none → Conserves r (complete_waiter a m r)
    unfolding complete_waiter
    complete_waiter-Conserves r v l f = elim (Option-cases r.waiter) [
      | inl e ↦ subst (Conserves r) (sym (complete_none r e)) (Conserves-refl r v)
      | inr (w, e) ↦
          subst (Conserves r) (sym (complete_some r w e f))
            (fill_and_complete-Conserves a m r w v e (l w e))
    ]
      where
        complete_none : (r : Reader) → r.waiter ≡ none → complete_waiter a m r ≡ r
        complete_none r e = ground arith

        complete_some :
            (r : Reader) (w : ReadWaiter)
            → r.waiter ≡ some w
            → r.failure ≡ none
            → complete_waiter a m r ≡ fill_and_complete a m r w
        complete_some r w e f = ground arith

    pub maybe_complete_waiter-Conserves :
        (r : Reader)
        → Valid r
        → load r ≤ usize_max
        → r.failure ≡ none
        → Conserves r (maybe_complete_waiter a m r)
    unfolding maybe_complete_waiter
    maybe_complete_waiter-Conserves r v room f =
        let c = clear_cancelled_waiter-Clears r v room in
        Conserves-trans r (clear_cancelled_waiter a r) _ c.conserves (
          complete_waiter-Conserves (clear_cancelled_waiter a r) c.conserves.valid c.live
            (c.conserves.failure_eq ∙ f))

    -- Without a cancelled waiter nothing need fit the vector.
    pub complete_live-Conserves :
        (r : Reader)
        → Valid r
        → IsLive r
        → r.failure ≡ none
        → Conserves r (maybe_complete_waiter a m r)
    unfolding maybe_complete_waiter
    complete_live-Conserves r v l f =
        subst (λ r'. Conserves r (complete_waiter a m r')) (sym (clear_of_live r l))
          (complete_waiter-Conserves r v l f)
