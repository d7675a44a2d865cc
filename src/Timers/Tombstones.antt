-- ===== src/Timers/Tombstones.antt =====
-- The cancelled timers that a queue still holds, and the counter of the loop that counts them.
use rsloop.Common.{
  subst, ℕ, ◌+◌, ◌<◌, ◌≡◌, refl, sym, ap, ◌∙◌, inl, inr, arith, true, false, ◌&&◌, List, [], ◌∷◌,
  ◌++◌, map, append-nil, append_assoc, All, Bool-cases, if◌then◌else◌,
}
use rsloop.Timers.{
  TimerCallback, TimerEntry, TimerQueue, is_cancelled, add_one, sub_one, cancel, dequeue,
  drop_callback, retain_live, compact_cancelled,
}
use rsloop.Timers.Order.{Before}
use rsloop.Timers.Earliest.{entries, IsSorted}

-- The share of a callback in the counter.
unfoldable pub weight : TimerCallback → ℕ
weight c = if c.queued && c.cancelled then 1 else 0

abbrev pub weights : List TimerEntry → ℕ
weights [] = 0
weights (e ∷ es) = weight e.callback + weights es

pub weights-append : (xs ys : List TimerEntry) → weights (xs ++ ys) ≡ weights xs + weights ys
weights-append [] ys = omega arith
weights-append (x ∷ xs) ys = omega (arith, weights-append xs ys)

-- What is left of a callback that has been taken off the queue.
unfoldable pub dequeued : TimerEntry → TimerCallback
dequeued e = record e.callback { queued = false }

-- Whatever the state of a callback that the counter accounts for: its cancellation, repeated or
-- not, its removal from the queue and its release each change the counter by what they change its
-- share in it, so the counter stays that share and the `others`; and after them it is cancelled, or
-- has no share. The counter and one more fit a `usize`.
pub counter_cases :
    (c : TimerCallback) (n others : ℕ)
    → n ≡ weight c + others
    → n + 1 < 18446744073709551616
    → ((cancel c n).1 ≡ weight (cancel c n).0 + others)
      × (is_cancelled (cancel c n).0 ≡ true)
      × ((dequeue c n).1 ≡ weight (dequeue c n).0 + others)
      × (weight (dequeue c n).0 ≡ 0)
      × (drop_callback c n ≡ others)
      × (cancel (cancel c n).0 (cancel c n).1 ≡ cancel c n)
unfolding weight cancel dequeue drop_callback is_cancelled add_one sub_one
counter_cases c n others h b = ground arith

-- The entries that are not cancelled, and those that are.
abbrev pub live : List TimerEntry → List TimerEntry
live [] = []
live (e ∷ es) = if is_cancelled e.callback then live es else e ∷ live es

abbrev pub dead : List TimerEntry → List TimerEntry
dead [] = []
dead (e ∷ es) = if is_cancelled e.callback then e ∷ dead es else dead es

live-append : (xs ys : List TimerEntry) → live (xs ++ ys) ≡ live xs ++ live ys
live-append [] ys = refl
live-append (x ∷ xs) ys = elim (Bool-cases (is_cancelled x.callback)) [
  | inl h ↦ rw h (live-append xs ys)
  | inr h ↦ rw h (ap (◌∷◌ x) (live-append xs ys))
]

dead-append : (xs ys : List TimerEntry) → dead (xs ++ ys) ≡ dead xs ++ dead ys
dead-append [] ys = refl
dead-append (x ∷ xs) ys = elim (Bool-cases (is_cancelled x.callback)) [
  | inl h ↦ rw h (ap (◌∷◌ x) (dead-append xs ys))
  | inr h ↦ rw h (dead-append xs ys)
]

live-All : (P : TimerEntry → Type 0) (es : List TimerEntry) → All P es → All P (live es)
live-All P [] h = tt
live-All P (e ∷ es) h = elim (Bool-cases (is_cancelled e.callback)) [
  | inl c ↦ rw c (live-All P es h.1)
  | inr c ↦ rw c (h.0, live-All P es h.1)
]

pub live-IsSorted : (es : List TimerEntry) → IsSorted es → IsSorted (live es)
live-IsSorted [] s = tt
live-IsSorted (e ∷ es) s = elim (Bool-cases (is_cancelled e.callback)) [
  | inl c ↦ rw c (live-IsSorted es s.1)
  | inr c ↦ rw c (live-All (Before e) es s.0, live-IsSorted es s.1)
]

live-weight : (c : TimerCallback) → is_cancelled c ≡ false → weight c ≡ 0
unfolding is_cancelled weight
live-weight c h = ground arith

pub live-weights : (es : List TimerEntry) → weights (live es) ≡ 0
live-weights [] = refl
live-weights (e ∷ es) = elim (Bool-cases (is_cancelled e.callback)) [
  | inl c ↦ rw c (live-weights es)
  | inr c ↦ rw c (omega (arith, live-weight e.callback c, live-weights es))
]

pub dequeue_count :
    (c : TimerCallback) (n others : ℕ)
    → n ≡ weight c + others
    → n < 18446744073709551616
    → (dequeue c n).1 ≡ others
unfolding dequeue weight sub_one
dequeue_count c n others h b = ground arith

retain_live_lem :
    (es : List TimerEntry) (ready : List TimerCallback) (n others : ℕ)
    → n ≡ weights es + others
    → n < 18446744073709551616
    → retain_live es ready n ≡ (live es, ready ++ map dequeued (dead es), others)
unfolding retain_live dequeued dequeue
retain_live_lem [] ready n others h b =
    let k : n ≡ others = omega (arith, h) in rw (append-nil ready, k) refl
retain_live_lem (e ∷ es) ready n others h b = elim (Bool-cases (is_cancelled e.callback)) [
  | inl c ↦
      let (callback, m) = dequeue e.callback n in
      let k : m ≡ weights es + others =
        dequeue_count e.callback n (weights es + others) (omega (arith, h)) b in
      rw c (
        retain_live_lem es (ready ++ dequeued e ∷ []) m others k (omega arith)
        ∙ ap (λ (r : List TimerCallback). (live es, r, others))
            (append_assoc ready (dequeued e ∷ []) (map dequeued (dead es))))
  | inr c ↦
      let k = live-weight e.callback c in
      rw c (
        ap (λ (r : List TimerEntry × List TimerCallback × ℕ). (e ∷ r.0, r.1, r.2))
          (retain_live_lem es ready n others (omega (arith, h, k)) b))
]

-- What `compact_cancelled` makes of a queue, the ready items and the counter.
pub record IsCompacted (q : TimerQueue) (ready : List TimerCallback) (others : ℕ)
    (r : TimerQueue × List TimerCallback × ℕ) : Type 0 where
  pub kept : entries r.0 ≡ live (entries q)
  pub handed_over : r.1 ≡ ready ++ map dequeued (dead (entries q))
  pub sorted : IsSorted r.0.ordered
  pub count : r.2 ≡ others

map-append :
    (xs ys : List TimerEntry) → map dequeued (xs ++ ys) ≡ map dequeued xs ++ map dequeued ys
map-append [] ys = refl
map-append (x ∷ xs) ys = ap (◌∷◌ (dequeued x)) (map-append xs ys)

compact_lem :
    (q : TimerQueue) (ready : List TimerCallback) (n others : ℕ)
    → n ≡ weights (entries q) + others
    → n < 18446744073709551616
    → compact_cancelled q ready n ≡ (
      record { ordered = live q.ordered; unordered = live q.unordered },
      ready ++ map dequeued (dead (entries q)),
      others,
    )
unfolding compact_cancelled entries
compact_lem q ready n others h b =
    let k = weights-append q.ordered q.unordered in
    let m = weights q.unordered + others in
    let first = retain_live_lem q.ordered ready n m (omega (arith, h, k)) b in
    let ready' = ready ++ map dequeued (dead q.ordered) in
    let second = retain_live_lem q.unordered ready' m others refl (omega (arith, h, k)) in
    let all : ready' ++ map dequeued (dead q.unordered)
        ≡ ready ++ map dequeued (dead (q.ordered ++ q.unordered)) =
      append_assoc ready (map dequeued (dead q.ordered)) (map dequeued (dead q.unordered))
      ∙ ap (◌++◌ ready) (sym (map-append (dead q.ordered) (dead q.unordered)))
      ∙ ap (λ es. ready ++ map dequeued es) (sym (dead-append q.ordered q.unordered)) in
    rw (first, second, all) refl

-- Where the counter is the share of a queue's cancelled entries and the `others`, and fits a
-- `usize`: compaction keeps exactly the entries that are not cancelled, in their places and sorted
-- as they were, puts each cancelled one behind the ready items once, off the queue, and leaves the
-- counter to the others.
pub compact_cancelled-IsCompacted :
    (q : TimerQueue) (ready : List TimerCallback) (n others : ℕ)
    → IsSorted q.ordered
    → n ≡ weights (entries q) + others
    → n < 18446744073709551616
    → IsCompacted q ready others (compact_cancelled q ready n)
unfolding entries
compact_cancelled-IsCompacted q ready n others s h b =
    subst (IsCompacted q ready others) (sym (compact_lem q ready n others h b)) (record {
      kept = sym (live-append q.ordered q.unordered);
      handed_over = refl;
      sorted = live-IsSorted q.ordered s;
      count = refl;
    })
