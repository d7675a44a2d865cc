-- ===== src/Reader/Read.antt =====
-- Reads: what they return is the front of what the reader holds.
use rsloop.Common.{
  ℕ, suc, ◌≡◌, refl, sym, ◌∙◌, subst, List, [], ◌++◌, Option, none, some, arith, Bool-cases,
  Option-cases, inl, inr, Result, ok, err,
}
use rsloop.Bytes.{Alloc}
use rsloop.Separator.{UntilReadState}
use rsloop.Reader.State.{
  Reader, ReadWaiter, ReadWaitKind, any, exact, all, until, Outcome, exception, raised, Awaitable,
  ready, waiting, held, CallError, already_waiting, read_size_too_large, ExactReadAccumulator,
  is_some, bytes_of,
}
use rsloop.Reader.Flow.{fill_from}
use rsloop.Reader.Start.{start_waiter, resume_for_waiter, new_waiter, is_too_large, fill_new}
use rsloop.Reader.Calls.{Reply, or_failure}
use rsloop.Reader.Yield.{SameRest, Yields}
use rsloop.Reader.Conserve.{Shaped, Valid}
use rsloop.Reader.Accumulate.{fill_from-Conserves, fill_from-held}
use rsloop.Reader.Clear.{Clears}

-- The bytes that the answer of a call hands over at once.
abbrev pub answered : Result Awaitable CallError → List ℕ
answered (ok (ready o)) = bytes_of o
answered (ok (waiting f)) = []
answered (err e) = []

-- A read answers with the front of what was held and keeps the rest; it settles no future.
pub record Reads (r : Reader) (reply : Reply) : Type 0 where
  pub valid : Valid reply.1
  pub limit_eq : reply.1.limit ≡ r.limit
  pub eof_eq : reply.1.eof ≡ r.eof
  pub failure_eq : reply.1.failure ≡ r.failure
  pub cancelled_eq : reply.1.cancelled ≡ r.cancelled
  pub settled_eq : reply.1.settled ≡ r.settled
  pub front : answered reply.0 ++ held reply.1 ≡ held r

pub Yields-Reads :
    (r : Reader) (o : Outcome) (r' : Reader) → Valid r → Yields r o r' → Reads r (ok (ready o), r')
Yields-Reads r o r' v y = record {
  valid = record { buffer_valid = y.valid; shaped = rw y.waiter_eq v.shaped };
  limit_eq = y.same.limit_eq;
  eof_eq = y.same.eof_eq;
  failure_eq = y.same.failure_eq;
  cancelled_eq = y.same.cancelled_eq;
  settled_eq = y.same.settled_eq;
  front = y.front;
}

-- Clearing a cancelled waiter before the read changes nothing that the read is judged by.
pub cleared-Reads : (r c : Reader) (reply : Reply) → Clears r c → Reads c reply → Reads r reply
cleared-Reads r c reply k d = record {
  valid = d.valid;
  limit_eq = d.limit_eq ∙ k.conserves.limit_eq;
  eof_eq = d.eof_eq ∙ k.conserves.eof_eq;
  failure_eq = d.failure_eq ∙ k.conserves.failure_eq;
  cancelled_eq = d.cancelled_eq ∙ k.conserves.cancelled_eq;
  settled_eq = d.settled_eq ∙ k.settled_eq;
  front = d.front ∙ k.held_eq;
}

-- An answer without bytes beside a reader that holds the same.
pub kept-Reads :
    (r r' : Reader) (answer : Result Awaitable CallError)
    → Valid r'
    → SameRest r r'
    → held r' ≡ held r
    → answered answer ≡ []
    → Reads r (answer, r')
kept-Reads r r' answer v s h e = record {
  valid = v;
  limit_eq = s.limit_eq;
  eof_eq = s.eof_eq;
  failure_eq = s.failure_eq;
  cancelled_eq = s.cancelled_eq;
  settled_eq = s.settled_eq;
  front = rw (e, h);
}

-- A read that raises the failure of the transport takes nothing.
pub or_failure-Reads :
    (r : Reader) (reply : Reply) → Valid r → Reads r reply → Reads r (or_failure r reply)
or_failure-Reads r reply v d = elim (Option-cases r.failure) [
  | inl e ↦ subst (Reads r) (sym (no_failure r reply e)) d
  | inr (x, e) ↦
      subst (Reads r) (sym (a_failure r reply x e))
        (kept-Reads r r (ok (ready (exception (raised x)))) v (ground arith) refl refl)
]
  where
    no_failure : (r : Reader) (reply : Reply) → r.failure ≡ none → or_failure r reply ≡ reply
    no_failure r reply e = ground arith

    a_failure :
        (r : Reader) (reply : Reply) (x : ℕ)
        → r.failure ≡ some x
        → or_failure r reply ≡ (ok (ready (exception (raised x))), r)
    a_failure r reply x e = ground arith

module _ (a : Alloc) where
  -- a waiter whose kind has no accumulator takes nothing when it starts
  plain-Reads :
      (r : Reader) (w : ReadWaiter) (f : ℕ)
      → Valid r
      → r.waiter ≡ none
      → w.exact_read ≡ none
      → Shaped w.kind none
      → Reads r (ok (waiting f), fill_new a r w)
  unfolding fill_new held
  plain-Reads r w f v free x s =
      rw (x, fill_new)
        (record {
          valid = record { buffer_valid = v.buffer_valid; shaped = rw x s };
          limit_eq = refl;
          eof_eq = refl;
          failure_eq = refl;
          cancelled_eq = refl;
          settled_eq = refl;
          front = rw (free, x);
        })

  fresh-Reads :
      (r r' : Reader) (kind : ReadWaitKind) (st : Option UntilReadState) (f : ℕ)
      → Valid r
      → r.waiter ≡ none
      → Reads r (ok (waiting f), fill_new a r (new_waiter a r' kind st))
  unfolding new_waiter fill_new fill_from held
  fresh-Reads r r' (any n) st f v free = plain-Reads r _ f v free refl refl
  fresh-Reads r r' all st f v free = plain-Reads r _ f v free refl refl
  fresh-Reads r r' until st f v free = plain-Reads r _ f v free refl refl
  fresh-Reads r r' (exact n) st f v free =
      let x : ExactReadAccumulator = record { initialized = []; expected = n } in
      let w : ReadWaiter = new_waiter a r' (exact n) st in
      let begun : Reader = record r { waiter = some w } in
      let begun-Valid : Valid begun = record {
        buffer_valid = v.buffer_valid;
        shaped = (x, refl, refl);
      } in
      let begun-held : held begun ≡ held r = rw free refl in
      let c = fill_from-Conserves a begun w x begun-Valid refl refl in
      record {
        valid = c.valid;
        limit_eq = refl;
        eof_eq = refl;
        failure_eq = refl;
        cancelled_eq = refl;
        settled_eq = refl;
        front = fill_from-held a begun w x begun-Valid refl refl ∙ begun-held;
      }

  resume_for_waiter-SameRest : (r : Reader) → SameRest r (resume_for_waiter a r)
  unfolding resume_for_waiter
  resume_for_waiter-SameRest r = ground arith

  resume_for_waiter-kept :
      (r : Reader)
      → ((resume_for_waiter a r).buffer ≡ r.buffer) × ((resume_for_waiter a r).waiter ≡ r.waiter)
  unfolding resume_for_waiter
  resume_for_waiter-kept r = ground arith

  pub start_waiter-Reads :
      (r : Reader) (kind : ReadWaitKind) (st : Option UntilReadState)
      → Valid r
      → Reads r (start_waiter a r kind st)
  unfolding start_waiter held
  start_waiter-Reads r kind st v =
      let s = resume_for_waiter-SameRest r in
      let k = resume_for_waiter-kept r in
      let r' : Reader = resume_for_waiter a r in
      let n : Reader = record r' { next_future = suc r'.next_future } in
      let n-SameRest : SameRest r n = ground arith in
      let n-Valid : Valid n = record {
        buffer_valid = rw k.0 v.buffer_valid;
        shaped = rw k.1 v.shaped;
      } in
      let n-held : held n ≡ held r = rw (k.0, k.1) refl in
      elim (Bool-cases (is_some r.waiter)) [
        | inl e ↦ simp e (kept-Reads r r (err already_waiting) v (ground arith) refl refl)
        | inr e ↦ elim (Bool-cases (is_too_large a kind)) [
          | inl t ↦
              simp (e, t) (kept-Reads r n (err read_size_too_large) n-Valid n-SameRest n-held refl)
          | inr t ↦
              let d = fresh-Reads n r' kind st r'.next_future n-Valid (k.1 ∙ ground arith) in
              simp (e, t)
                record {
                  valid = d.valid;
                  limit_eq = d.limit_eq ∙ s.limit_eq;
                  eof_eq = d.eof_eq ∙ s.eof_eq;
                  failure_eq = d.failure_eq ∙ s.failure_eq;
                  cancelled_eq = d.cancelled_eq ∙ s.cancelled_eq;
                  settled_eq = d.settled_eq ∙ s.settled_eq;
                  front = d.front ∙ n-held;
                }
        ]
      ]
