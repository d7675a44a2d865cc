-- ===== src/Timers/Earliest.antt =====
-- The timers of a queue leave it in the order of their deadlines.
use mathlib.Core.List.{Perm, perm_middle}
use mathlib.Core.List.Perm
use mathlib.Core.Option as Opt
use rsloop.Common.{
  ◌≡◌, refl, sym, ap, subst, inl, inr, Bool, true, ◌&&◌, List, [], ◌∷◌, ◌++◌, Option, none, some,
  append_assoc, All, All-append, All-map, arith, Bool-cases,
}
use rsloop.Timers.{
  TimerEntry, TimerQueue, is_greater, greatest, heap_peek, take_greatest, heap_pop, fits_behind,
  push, peek, pop,
}
use rsloop.Timers.Order.{Before, Before-trans, Before-refl, greater-Before, not_greater-Before}
use rsloop.Timers.Heap.{take_greatest-greatest, greatest-Before, take_greatest-perm}

-- All that a queue holds.
unfoldable pub entries : TimerQueue → List TimerEntry
entries q = q.ordered ++ q.unordered

-- Each entry is due before those behind it.
abbrev pub IsSorted : List TimerEntry → Type 0
IsSorted [] = Unit {0}
IsSorted (e ∷ es) = All (Before e) es × IsSorted es

fits-IsSorted :
    (es : List TimerEntry) (entry : TimerEntry)
    → IsSorted es
    → fits_behind es entry ≡ true
    → All (λ e. Before e entry) es × IsSorted (es ++ entry ∷ [])
unfolding fits_behind
fits-IsSorted [] entry s h = (tt, (tt, tt))
fits-IsSorted (e ∷ []) entry s h = elim (Bool-cases (is_greater entry e)) [
  | inl g ↦ ground arith
  | inr g ↦ let b = not_greater-Before entry e g in ((b, tt), ((b, tt), (tt, tt)))
]
fits-IsSorted (e ∷ f ∷ es) entry s h =
    let rest = fits-IsSorted (f ∷ es) entry s.1 h in
    let b : Before e entry = Before-trans e f entry s.0.0 rest.0.0 in
    ((b, rest.0), (All-append (Before e) (f ∷ es) (entry ∷ []) s.0 (b, tt), rest.1))

push_Front :
    (o u : List TimerEntry) (entry : TimerEntry) → Perm ((o ++ entry ∷ []) ++ u) (entry ∷ o ++ u)
push_Front o u entry =
    subst (λ (es : List TimerEntry). Perm es (entry ∷ o ++ u)) (sym (append_assoc o (entry ∷ []) u))
      (perm_middle {a = entry} o u)

-- However a timer is pushed, a queue whose first part is sorted holds the timer and what it held,
-- and its first part stays sorted.
pub push-Holds :
    (q : TimerQueue) (entry : TimerEntry) (immediate : Bool)
    → IsSorted q.ordered
    → Perm (entries (push q entry immediate)) (entry ∷ entries q)
      × IsSorted (push q entry immediate).ordered
unfolding push entries
push-Holds q entry immediate s = elim (Bool-cases (immediate && fits_behind q.ordered entry)) [
  | inl h ↦ rw h (
    push_Front q.ordered q.unordered entry,
    (fits-IsSorted q.ordered entry s (fits immediate h)).1,
  )
  | inr h ↦ rw h (perm_middle {a = entry} q.ordered q.unordered, s)
]
  where
    fits :
        (b : Bool) → (b && fits_behind q.ordered entry) ≡ true → fits_behind q.ordered entry ≡ true
    fits b k = ground arith

-- What `pop` makes of a queue.
pub data IsPop (q : TimerQueue) : Option (TimerEntry × TimerQueue) → Type 0 where
  nothing : entries q ≡ [] → IsPop q none
  popped :
      (e : TimerEntry) (q' : TimerQueue)
      → Perm (e ∷ entries q') (entries q)
      → All (Before e) (entries q)
      → IsSorted q'.ordered
      → IsPop q (some (e, q'))

abbrev queue : List TimerEntry → List TimerEntry → TimerQueue
queue o u = record { ordered = o; unordered = u }

front_first :
    (e : TimerEntry) (es u : List TimerEntry)
    → IsSorted (e ∷ es)
    → All (Before e) u
    → IsPop (queue (e ∷ es) u) (some (e, queue es u))
unfolding entries
front_first e es u s h =
    popped e (queue es u) (Perm.refl (e ∷ es ++ u))
      (Before-refl e, All-append (Before e) es u s.0 h) s.1

heap_first :
    (o us : List TimerEntry) (u : TimerEntry)
    → IsSorted o
    → All (Before (greatest u us)) o
    → IsPop (queue o (u ∷ us)) (some ((take_greatest u us).0, queue o (take_greatest u us).1))
unfolding entries
heap_first o us u s h =
    let (top, rest) = take_greatest u us in
    popped top (queue o rest)
      (Perm.trans (Perm.symm (perm_middle {a = top} o rest))
        (Perm.append_left o (take_greatest-perm u us)))
      (subst (λ (e : TimerEntry). All (Before e) (o ++ u ∷ us)) (sym (take_greatest-greatest u us))
        (All-append (Before (greatest u us)) o (u ∷ us) h (greatest-Before u us)))
      s

pop_both :
    (e : TimerEntry) (es us : List TimerEntry) (u : TimerEntry)
    → IsSorted (e ∷ es)
    → IsPop (queue (e ∷ es) (u ∷ us)) (pop (queue (e ∷ es) (u ∷ us)))
unfolding pop heap_peek heap_pop
pop_both e es us u s = elim (Bool-cases (is_greater (greatest u us) e)) [
  | inl h ↦
      let b = greater-Before (greatest u us) e h in
      rw h (
        heap_first (e ∷ es) us u s (
          b,
          All-map (Before e) (Before (greatest u us)) (λ f k. Before-trans (greatest u us) e f b k)
              es s.0,
        ))
  | inr h ↦
      let b = not_greater-Before (greatest u us) e h in
      rw h (
        front_first e es (u ∷ us) s (
          All-map (Before (greatest u us)) (Before e) (λ f k. Before-trans e (greatest u us) f b k)
            (u ∷ us) (greatest-Before u us)))
]

pop_cases : (o u : List TimerEntry) → IsSorted o → IsPop (queue o u) (pop (queue o u))
unfolding pop heap_peek heap_pop entries
pop_cases [] [] s = nothing refl
pop_cases [] (u ∷ us) s = heap_first [] us u s tt
pop_cases (e ∷ es) [] s = front_first e es [] s tt
pop_cases (e ∷ es) (u ∷ us) s = pop_both e es us u s

-- Where the first part of a queue is sorted, `pop` gives up an entry exactly when there is one, the
-- one that is due first, of equal deadlines the one with the smallest number, and leaves the other
-- entries, the first part of them still sorted.
pub pop-IsPop : (q : TimerQueue) → IsSorted q.ordered → IsPop q (pop q)
pop-IsPop q s = pop_cases q.ordered q.unordered s

peek_cases : (o u : List TimerEntry) → peek (queue o u) ≡ Opt.map (λ r. r.0) (pop (queue o u))
unfolding pop peek heap_peek heap_pop
peek_cases [] [] = refl
peek_cases [] (u ∷ us) = ap some (sym (take_greatest-greatest u us))
peek_cases (e ∷ es) [] = refl
peek_cases (e ∷ es) (u ∷ us) = elim (Bool-cases (is_greater (greatest u us) e)) [
  | inl h ↦ rw h (ap some (sym (take_greatest-greatest u us)))
  | inr h ↦ rw h refl
]

-- `peek` shows the entry that `pop` would give up.
pub peek-pop : (q : TimerQueue) → peek q ≡ Opt.map (λ r. r.0) (pop q)
peek-pop q = peek_cases q.ordered q.unordered
