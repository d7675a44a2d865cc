-- ===== src/AsyncEvent/Run.antt =====
-- Runs of an event: the calls that threads make, and the steps of the calls of `notify_all`, in any
-- order.
use rsloop.Common.{
  ℕ, zero, suc, ◌+◌, ◌≡◌, sym, ap, ◌∙◌, ltb, ◌==◌, arith, List, [], ◌∷◌, ◌++◌, Option, none, some,
  length, Option-cases, inl, inr, if◌then◌else◌,
}
use rsloop.Bytes.{Alloc}
use rsloop.AsyncEvent.{Waiters, AsyncEvent, listen, start_notify, continue_notify}

-- Call number `i` in flight, and the others.
abbrev pub behind : Waiters → Option (Waiters × List Waiters) → Option (Waiters × List Waiters)
behind w none = none
behind w (some (v, ws)) = some (v, w ∷ ws)

abbrev pub take_call : ℕ → List Waiters → Option (Waiters × List Waiters)
take_call i [] = none
take_call zero (w ∷ ws) = some (w, ws)
take_call (suc i) (w ∷ ws) = behind w (take_call i ws)

pub data Act : Type 0 where
  listens notifies : Act
  continues : ℕ → Act

abbrev pub continue_call : AsyncEvent → Option (Waiters × List Waiters) → AsyncEvent
continue_call e none = e
continue_call e (some (w, ws)) = continue_notify e ws w

unfoldable pub act : Alloc → AsyncEvent → Act → AsyncEvent
act a e listens = listen a e
act a e notifies = start_notify e
act a e (continues i) = continue_call e (take_call i e.notifying)

unfoldable pub run : Alloc → AsyncEvent → List Act → AsyncEvent
run a e [] = e
run a e (x ∷ xs) = run a (act a e x) xs

-- How often a channel is in a list.
unfoldable pub occurrences : ℕ → List ℕ → ℕ
occurrences t [] = 0
occurrences t (x ∷ xs) = (if t == x then 1 else 0) + occurrences t xs

pub occurrences-append :
    (t : ℕ) (xs ys : List ℕ) → occurrences t (xs ++ ys) ≡ occurrences t xs + occurrences t ys
unfolding occurrences
occurrences-append t [] ys = omega arith
occurrences-append t (x ∷ xs) ys = omega (arith, occurrences-append t xs ys)

unfoldable pub pending : ℕ → List Waiters → ℕ
pending t [] = 0
pending t (w ∷ ws) = occurrences t w.senders + pending t ws

-- The steps that the calls in flight have left.
unfoldable pub steps_left : List Waiters → ℕ
steps_left [] = 0
steps_left (w ∷ ws) = suc (length w.senders) + steps_left ws

unfoldable pub finish : Alloc → ℕ → AsyncEvent → AsyncEvent
finish a zero e = e
finish a (suc n) e = finish a n (act a e (continues zero))

abbrev picked : ℕ → Option (Waiters × List Waiters) → ℕ
picked t none = 0
picked t (some (w, ws)) = occurrences t w.senders + pending t ws

pub take_call-pending :
    (t i : ℕ) (ws : List Waiters) (w : Waiters) (rest : List Waiters)
    → take_call i ws ≡ some (w, rest)
    → pending t ws ≡ occurrences t w.senders + pending t rest
unfolding pending
take_call-pending t zero [] w rest e = ground arith
take_call-pending t (suc i) [] w rest e = ground arith
take_call-pending t zero (v ∷ ws) w rest e = ground arith
take_call-pending t (suc i) (v ∷ ws) w rest e = elim (Option-cases (take_call i ws)) [
  | inl q ↦ absurd (cc (e, q))
  | inr ((u, us), q) ↦
      let r = take_call-pending t i ws u us q in
      let b = ap (picked t) (sym (ap (behind v) q) ∙ e) in omega arith
]

unfoldable pub total : ℕ → AsyncEvent → ℕ
total t e = occurrences t e.sent + (pending t e.notifying + occurrences t e.waiters.senders)

abbrev pub share : ℕ → AsyncEvent → ℕ
share t e = if ltb t e.next_channel then 1 else 0
