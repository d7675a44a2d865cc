-- ===== src/Reader/Fill.antt =====
-- Incoming bytes that go straight to a waiting exact read.
use rsloop.Common.{
  ℕ, ◌≤◌, ◌≡◌, refl, sym, ap, ◌∙◌, subst, true, not, List, [], ◌++◌, none, some, drop, arith,
  append-nil, Bool-cases, Option-cases, inl, inr, ◌&&◌,
}
use rsloop.Bytes.{Alloc, usize_max}
use rsloop.ReadBuffer.{unread, is_empty}
use rsloop.ReadBuffer.Unread.{unread_of_empty}
use rsloop.Reader.State.{Reader, ReadWaiter, held, ExactReadAccumulator, is_some}
use rsloop.Reader.Flow.{clear_cancelled_waiter, fill_from_slice}
use rsloop.Reader.Start.{fill_exact_from_incoming, fill_waiting, take_incoming}
use rsloop.Reader.Conserve.{Valid}
use rsloop.Reader.Accumulate.{fill_from_slice-append, refill-Shaped, Shaped-here, filled-expected}
use rsloop.Reader.Clear.{load, IsLive, clear_cancelled_waiter-Clears}

-- `r'` is `r` with the first `k` of the incoming bytes `xs` taken by its exact read.
pub record Fills (r : Reader) (xs : List ℕ) (k : ℕ) (r' : Reader) : Type 0 where
  pub valid : Valid r'
  pub live : IsLive r'
  pub limit_eq : r'.limit ≡ r.limit
  pub eof_eq : r'.eof ≡ r.eof
  pub failure_eq : r'.failure ≡ r.failure
  pub cancelled_eq : r'.cancelled ≡ r.cancelled
  pub settled_eq : r'.settled ≡ r.settled
  pub buffer_eq : r'.buffer ≡ r.buffer
  pub bytes : held r' ++ drop k xs ≡ held r ++ xs

Fills-nothing : (r : Reader) (xs : List ℕ) → Valid r → IsLive r → Fills r xs 0 r
Fills-nothing r xs v l = record {
  valid = v;
  live = l;
  limit_eq = refl;
  eof_eq = refl;
  failure_eq = refl;
  cancelled_eq = refl;
  settled_eq = refl;
  buffer_eq = refl;
  bytes = refl;
}

module _ (a : Alloc) where
  take_incoming-Fills :
      (r : Reader) (w : ReadWaiter) (e : ExactReadAccumulator) (xs : List ℕ)
      → Valid r
      → IsLive r
      → r.waiter ≡ some w
      → w.exact_read ≡ some e
      → is_empty r.buffer ≡ true
      → let (k, r') = take_incoming a r w e xs in Fills r xs k r'
  unfolding take_incoming held
  take_incoming-Fills r w e xs v l q x none_left =
      let nothing : unread r.buffer ≡ [] = unread_of_empty a r.buffer none_left in
      record {
        valid = record {
          buffer_valid = v.buffer_valid;
          shaped = refill-Shaped w.kind e _ (Shaped-here r w e v q x) (filled-expected e xs);
        };
        live = λ w' p.
            let y : ReadWaiter = record w { exact_read = some (fill_from_slice e xs).1 } in
            let same : y ≡ w' = cc p in
            ap (λ (x : ReadWaiter). r.cancelled x.future) (sym same) ∙ l w q;
        limit_eq = refl;
        eof_eq = refl;
        failure_eq = refl;
        cancelled_eq = refl;
        settled_eq = refl;
        buffer_eq = refl;
        bytes =
            rw
              (
                q,
                x,
                nothing,
                append-nil (fill_from_slice e xs).1.initialized,
                append-nil e.initialized,
              )
              (fill_from_slice-append e xs);
      }

  fill_waiting-Fills :
      (r : Reader) (xs : List ℕ)
      → Valid r
      → IsLive r
      → let (k, r') = fill_waiting a r xs in Fills r xs k r'
  unfolding fill_waiting
  fill_waiting-Fills r xs v l = elim (Bool-cases (not (is_some r.failure) && is_empty r.buffer)) [
    | inr e ↦ rw e (Fills-nothing r xs v l)
    | inl e ↦ elim (Option-cases r.waiter) [
      | inl q ↦ subst (λ p. Fills r xs p.0 p.1) (sym (at_none r xs e q)) (Fills-nothing r xs v l)
      | inr (w, q) ↦ elim (Option-cases w.exact_read) [
        | inl x ↦
            subst (λ p. Fills r xs p.0 p.1) (sym (at_other r w xs e q x)) (Fills-nothing r xs v l)
        | inr (acc, x) ↦
            subst (λ p. Fills r xs p.0 p.1) (sym (at_exact r w acc xs e q x))
              (take_incoming-Fills r w acc xs v l q x (ground arith))
      ]
    ]
  ]
    where
      at_none :
          (r : Reader) (xs : List ℕ)
          → (not (is_some r.failure) && is_empty r.buffer) ≡ true
          → r.waiter ≡ none
          → fill_waiting a r xs ≡ (0, r)
      at_none r xs e q = ground arith

      at_other :
          (r : Reader) (w : ReadWaiter) (xs : List ℕ)
          → (not (is_some r.failure) && is_empty r.buffer) ≡ true
          → r.waiter ≡ some w
          → w.exact_read ≡ none
          → fill_waiting a r xs ≡ (0, r)
      at_other r w xs e q x = ground arith

      at_exact :
          (r : Reader) (w : ReadWaiter) (acc : ExactReadAccumulator) (xs : List ℕ)
          → (not (is_some r.failure) && is_empty r.buffer) ≡ true
          → r.waiter ≡ some w
          → w.exact_read ≡ some acc
          → fill_waiting a r xs ≡ take_incoming a r w acc xs
      at_exact r w acc xs e q x = ground arith

  -- The bytes that a feed hands to an exact read, and those that are left for the buffer.
  pub filled_and_left :
      (r : Reader) (xs : List ℕ)
      → Valid r
      → load r ≤ usize_max
      → let (k, r') = fill_exact_from_incoming a r xs in Fills (clear_cancelled_waiter a r) xs k r'
  unfolding fill_exact_from_incoming
  filled_and_left r xs v room =
      let c = clear_cancelled_waiter-Clears a r v room in
      fill_waiting-Fills (clear_cancelled_waiter a r) xs c.conserves.valid c.live
