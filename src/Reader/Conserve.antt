-- ===== src/Reader/Conserve.antt =====
-- What it means that the reader conserves bytes, and that settling a future does.
use rsloop.Common.{
  ℕ, ◌≡◌, sym, ap, ◌∙◌, false, List, [], ◌∷◌, ◌++◌, Option, none, some, arith, append-nil,
  append_assoc,
}
use rsloop.ReadBuffer.Unread.{IsValid}
use rsloop.Reader.State.{
  Reader, ReadWaiter, ReadWaitKind, any, exact, all, until, ExactReadAccumulator, Outcome, held,
  bytes_of, delivered, settle,
}
use rsloop.Reader.Yield.{SameRest}

-- Exactly the waiters of `readexactly` have an accumulator, for the size that was asked for.
abbrev pub Shaped : ReadWaitKind → Option ExactReadAccumulator → Type 0
Shaped (any n) e = e ≡ none
Shaped (exact n) e = (x : ExactReadAccumulator) × (e ≡ some x) × (x.expected ≡ n)
Shaped all e = e ≡ none
Shaped until e = e ≡ none

abbrev pub ShapedWaiter : Option ReadWaiter → Type 0
ShapedWaiter none = Unit {0}
ShapedWaiter (some w) = Shaped w.kind w.exact_read

pub record Valid (r : Reader) : Type 0 where
  pub buffer_valid : IsValid r.buffer
  pub shaped : ShapedWaiter r.waiter

-- All bytes in the order in which they were fed: those that futures have received, then those held.
abbrev pub stream : Reader → List ℕ
stream r = delivered r.settled ++ held r

-- From `r` to `r'` no byte is lost, made up or put out of order.
pub record Conserves (r r' : Reader) : Type 0 where
  pub valid : Valid r'
  pub limit_eq : r'.limit ≡ r.limit
  pub eof_eq : r'.eof ≡ r.eof
  pub failure_eq : r'.failure ≡ r.failure
  pub cancelled_eq : r'.cancelled ≡ r.cancelled
  pub bytes : stream r' ≡ stream r

pub Conserves-refl : (r : Reader) → Valid r → Conserves r r
Conserves-refl r v = ground arith

pub Conserves-trans : (r s t : Reader) → Conserves r s → Conserves s t → Conserves r t
Conserves-trans r s t p q = record {
  valid = q.valid;
  limit_eq = q.limit_eq ∙ p.limit_eq;
  eof_eq = q.eof_eq ∙ p.eof_eq;
  failure_eq = q.failure_eq ∙ p.failure_eq;
  cancelled_eq = q.cancelled_eq ∙ p.cancelled_eq;
  bytes = q.bytes ∙ p.bytes;
}

delivered-snoc :
    (xs : List (ℕ × Outcome)) (f : ℕ) (o : Outcome)
    → delivered (xs ++ ((f, o) ∷ [])) ≡ delivered xs ++ bytes_of o
delivered-snoc [] f o = append-nil (bytes_of o)
delivered-snoc ((g, p) ∷ xs) f o =
    ap (◌++◌ (bytes_of p)) (delivered-snoc xs f o)
    ∙ sym (append_assoc (bytes_of p) (delivered xs) (bytes_of o))

-- A future that is not cancelled receives the outcome.
settle-stream :
    (r r' : Reader) (f : ℕ) (o : Outcome)
    → r'.cancelled f ≡ false
    → r'.settled ≡ r.settled
    → bytes_of o ++ held r' ≡ held r
    → stream (settle r' f o) ≡ stream r
unfolding held
settle-stream r r' f o live s e = rw (
  live,
  delivered-snoc r'.settled f o,
  append_assoc (delivered r'.settled) (bytes_of o) (held r'),
  s,
  e,
)

pub settle-Conserves :
    (r r' : Reader) (f : ℕ) (o : Outcome)
    → r.cancelled f ≡ false
    → IsValid r'.buffer
    → r'.waiter ≡ none
    → SameRest r r'
    → bytes_of o ++ held r' ≡ held r
    → Conserves r (settle r' f o)
settle-Conserves r r' f o live v w s e =
    let live' : r'.cancelled f ≡ false = ap (λ c. c f) s.cancelled_eq ∙ live in
    record {
      valid = rw live' (record { buffer_valid = v; shaped = rw w tt });
      limit_eq = rw live' s.limit_eq;
      eof_eq = rw live' s.eof_eq;
      failure_eq = rw live' s.failure_eq;
      cancelled_eq = rw live' s.cancelled_eq;
      bytes = settle-stream r r' f o live' s.settled_eq e;
    }
