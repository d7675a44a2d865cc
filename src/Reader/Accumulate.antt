-- ===== src/Reader/Accumulate.antt =====
-- What the accumulator of an exact read takes from the buffer.
use rsloop.Common.{
  ℕ, ◌≡◌, refl, ap, ◌∙◌, List, ◌++◌, some, length, take, drop, arith, append_assoc,
  take-append-drop,
}
use rsloop.Bytes.{Alloc}
use rsloop.ReadBuffer.{unread}
use rsloop.ReadBuffer.Unread.{consume_lem}
use rsloop.Reader.State.{
  Reader, ReadWaiter, ReadWaitKind, any, exact, all, until, ExactReadAccumulator, filled, held,
  delivered,
}
use rsloop.Reader.Flow.{fill_from_slice, fill_from, filled_waiter, exact_fill_amount}
use rsloop.Reader.Conserve.{Shaped, Valid, Conserves}

pub refill-Shaped :
    (k : ReadWaitKind) (x y : ExactReadAccumulator)
    → Shaped k (some x)
    → y.expected ≡ x.expected
    → Shaped k (some y)
refill-Shaped (any n) x y h e = absurd (cc h)
refill-Shaped (exact n) x y (z, h, p) e = (y, refl, e ∙ ground arith)
refill-Shaped all x y h e = absurd (cc h)
refill-Shaped until x y h e = absurd (cc h)

pub Shaped-here :
    (r : Reader) (w : ReadWaiter) (x : ExactReadAccumulator)
    → Valid r
    → r.waiter ≡ some w
    → w.exact_read ≡ some x
    → Shaped w.kind (some x)
Shaped-here r w x v e ex = rw ex at (rw e at v.shaped)

pub filled-expected :
    (x : ExactReadAccumulator) (xs : List ℕ) → (fill_from_slice x xs).1.expected ≡ x.expected
unfolding fill_from_slice
filled-expected x xs = refl

-- What an accumulator takes and what it leaves are the bytes offered.
pub fill_from_slice-append :
    (x : ExactReadAccumulator) (xs : List ℕ)
    → (fill_from_slice x xs).1.initialized ++ drop (fill_from_slice x xs).0 xs ≡ x.initialized ++ xs
unfolding fill_from_slice
fill_from_slice-append x xs =
    let k = exact_fill_amount (length xs) (filled x) x.expected in
    append_assoc x.initialized (take k xs) (drop k xs)
    ∙ ap (◌++◌ x.initialized) (take-append-drop k xs)

module _ (a : Alloc) where
  pub fill_from-waiter :
      (r : Reader) (w : ReadWaiter) (x : ExactReadAccumulator)
      → (fill_from a r w x).waiter ≡ some (filled_waiter r w x)
  unfolding fill_from
  fill_from-waiter r w x = refl

  pub fill_from-held :
      (r : Reader) (w : ReadWaiter) (x : ExactReadAccumulator)
      → Valid r
      → r.waiter ≡ some w
      → w.exact_read ≡ some x
      → held (fill_from a r w x) ≡ held r
  unfolding fill_from held
  fill_from-held r w x v e ex =
      rw (e, ex, (consume_lem a r.buffer (fill_from_slice x (unread r.buffer)).0 v.buffer_valid).1)
        (fill_from_slice-append x (unread r.buffer))

  -- Filling an accumulator moves bytes from the front of the buffer to the end of what it has.
  pub fill_from-Conserves :
      (r : Reader) (w : ReadWaiter) (x : ExactReadAccumulator)
      → Valid r
      → r.waiter ≡ some w
      → w.exact_read ≡ some x
      → Conserves r (fill_from a r w x)
  unfolding fill_from held
  fill_from-Conserves r w x v e ex =
      let k = (fill_from_slice x (unread r.buffer)).0 in
      let c = consume_lem a r.buffer k v.buffer_valid in
      record {
        valid = record {
          buffer_valid = c.0;
          shaped =
              refill-Shaped w.kind x _ (Shaped-here r w x v e ex)
                (filled-expected x (unread r.buffer));
        };
        limit_eq = refl;
        eof_eq = refl;
        failure_eq = refl;
        cancelled_eq = refl;
        bytes = ap (◌++◌ (delivered r.settled)) (fill_from-held r w x v e ex);
      }
