-- ===== src/Timers/Collect.antt =====
-- The loop of `collect`: it ends, and leaves nothing that is due.
use mathlib.Core.List.{Perm}
use mathlib.Core.List.Perm
use rsloop.Common.{
  ℕ, zero, suc, ◌+◌, ◌<◌, ◌≡◌, refl, sym, ◌∙◌, subst, inl, inr, arith, true, false, List, [], ◌∷◌,
  ◌++◌, map, Option, some, append-nil, append_assoc, All, All-map, All-split, Bool-cases, length,
  length-append,
}
use rsloop.Timers.{TimerCallback, TimerEntry, TimerQueue, is_cancelled, dequeue, peek, pop, len}
use rsloop.Timers.Order.{Before}
use rsloop.Timers.Earliest.{entries, IsSorted, IsPop, nothing, popped, pop-IsPop, peek-pop}
use rsloop.Timers.Tombstones.{weights, dequeued, dequeue_count}
use rsloop.Timers.Permutations.{All-perm, Before-prop, weights-perm, length-perm}
use rsloop.Timers.Local.{collect_due, due_at_front, is_due}

len-entries : (q : TimerQueue) → len q ≡ length (entries q)
unfolding len entries
len-entries q = sym (length-append q.ordered q.unordered)

-- A result that there is, with a property.
pub data Gives {A : Type 0} (P : A → Type 0) : Option A → Type 0 where
  gives : (a : A) → P a → Gives P (some a)

pub Gives-map :
    {A : Type 0} {P Q : A → Type 0} {o : Option A} → ((a : A) → P a → Q a) → Gives P o → Gives Q o
Gives-map f (gives a p) = gives a (f a p)

-- What the loop of `collect` makes of a queue, the ready items and the counter.
pub record IsCollected (now : ℕ) (q : TimerQueue) (ready : List TimerCallback) (others : ℕ)
    (r : TimerQueue × List TimerCallback × ℕ) : Type 0 where
  pub out : List TimerEntry
  pub handed_over : r.1 ≡ ready ++ map dequeued out
  pub same : Perm (out ++ entries r.0) (entries q)
  pub in_order : IsSorted out
  pub all_due : All (λ e. is_due now e ≡ true) out
  pub later : All (λ e. now < e.when) (entries r.0)
  pub sorted : IsSorted r.0.ordered
  pub count : r.2 ≡ weights (entries r.0) + others

-- The loop where nothing is due any more, and where a timer is.
collect_done :
    (k now : ℕ) (q : TimerQueue) (ready : List TimerCallback) (n : ℕ)
    → due_at_front now (peek q) ≡ false
    → collect_due (suc k) now q ready n ≡ some (q, ready, n)
unfolding collect_due
collect_done k now q ready n h = rw (collect_due, h) refl

collect_next :
    (k now : ℕ) (q rest : TimerQueue) (e : TimerEntry) (ready : List TimerCallback) (n : ℕ)
    → due_at_front now (peek q) ≡ true
    → pop q ≡ some (e, rest)
    → collect_due (suc k) now q ready n
      ≡ collect_due k now rest (ready ++ dequeued e ∷ []) (dequeue e.callback n).1
unfolding collect_due dequeued dequeue
collect_next k now q rest e ready n h p = rw (collect_due, h, p) refl

not_due-later : (now : ℕ) (e f : TimerEntry) → is_due now e ≡ false → Before e f → now < f.when
unfolding is_due Before is_cancelled
not_due-later now e f h b = ground arith

-- A timer that is taken before those that another round of the loop takes.
collect_more :
    (now : ℕ) (q rest : TimerQueue) (e : TimerEntry) (ready : List TimerCallback) (others : ℕ)
    → Perm (e ∷ entries rest) (entries q)
    → All (Before e) (entries q)
    → is_due now e ≡ true
    → (r : TimerQueue × List TimerCallback × ℕ)
    → IsCollected now rest (ready ++ dequeued e ∷ []) others r
    → IsCollected now q ready others r
collect_more now q rest e ready others p b d r c =
    let behind : Perm (e ∷ c.out ++ entries r.0) (entries q) = Perm.trans (Perm.cons e c.same) p in
    let before = All-perm (Before e) (Before-prop e) (Perm.symm behind) b in
    record {
      out = e ∷ c.out;
      handed_over = c.handed_over ∙ append_assoc ready (dequeued e ∷ []) (map dequeued c.out);
      same = behind;
      in_order = ((All-split (Before e) c.out (entries r.0) before.1).0, c.in_order);
      all_due = (d, c.all_due);
      later = c.later;
      sorted = c.sorted;
      count = c.count;
    }

-- One round of the loop, where the others do as they should.
collect_round :
    (k now : ℕ) (q : TimerQueue) (ready : List TimerCallback) (n others : ℕ)
    → ((rest : TimerQueue) (ready' : List TimerCallback) (m : ℕ)
        → IsSorted rest.ordered
        → len rest < k
        → m ≡ weights (entries rest) + others
        → m < 18446744073709551616
        → Gives (IsCollected now rest ready' others) (collect_due k now rest ready' m))
    → IsSorted q.ordered
    → len q < suc k
    → n ≡ weights (entries q) + others
    → n < 18446744073709551616
    → (r : Option (TimerEntry × TimerQueue)) → IsPop q r
    → pop q ≡ r
    → Gives (IsCollected now q ready others) (collect_due (suc k) now q ready n)
unfolding due_at_front
collect_round k now q ready n others ih s l h b _ (nothing e) p =
    let front : due_at_front now (peek q) ≡ false = rw (peek-pop q, p) refl in
    subst (Gives (IsCollected now q ready others)) (sym (collect_done k now q ready n front)) (
      gives (q, ready, n)
        (record {
          out = [];
          handed_over = sym (append-nil ready);
          same = Perm.refl (entries q);
          in_order = tt;
          all_due = tt;
          later = rw e tt;
          sorted = s;
          count = h;
        }))
collect_round k now q ready n others ih s l h b _ (popped e rest same before t) p =
    elim (Bool-cases (is_due now e)) [
      | inl d ↦
          let front : due_at_front now (peek q) ≡ true = rw (peek-pop q, p) d in
          let w = weights-perm same in
          let m = (dequeue e.callback n).1 in
          let less = length-perm same in
          let count : m ≡ weights (entries rest) + others =
            dequeue_count e.callback n (weights (entries rest) + others) (omega (arith, h, w)) b in
          subst (Gives (IsCollected now q ready others))
            (sym (collect_next k now q rest e ready n front p))
            (Gives-map (collect_more now q rest e ready others same before d) (
              ih rest (ready ++ dequeued e ∷ []) m t
                (omega (arith, len-entries q, len-entries rest, less, l)) count
                (omega (arith, count, w, h, b))))
      | inr d ↦
          let front : due_at_front now (peek q) ≡ false = rw (peek-pop q, p) d in
          subst (Gives (IsCollected now q ready others)) (sym (collect_done k now q ready n front))
            (gives (q, ready, n)
              (record {
                out = [];
                handed_over = sym (append-nil ready);
                same = Perm.refl (entries q);
                in_order = tt;
                all_due = tt;
                later =
                    All-map (Before e) (λ f. now < f.when) (λ f. not_due-later now e f d)
                      (entries q) before;
                sorted = s;
                count = h;
              }))
    ]

-- Where the first part of the queue is sorted, the fuel exceeds the number of its timers, and the
-- counter is the share of its cancelled timers and the `others` and fits a `usize`: the loop of
-- `collect` ends without a panic. It moves timers that are due or cancelled behind the ready items,
-- in the order of their deadlines, each once and off the queue; all others are still queued, and
-- none of those is due; the counter is left to them and the others.
pub collect_due-Gives :
    (k now : ℕ) (q : TimerQueue) (ready : List TimerCallback) (n others : ℕ)
    → IsSorted q.ordered
    → len q < k
    → n ≡ weights (entries q) + others
    → n < 18446744073709551616
    → Gives (IsCollected now q ready others) (collect_due k now q ready n)
collect_due-Gives zero now q ready n others s l h b = absurd (omega (arith, l))
collect_due-Gives (suc k) now q ready n others s l h b =
    collect_round k now q ready n others
      (λ rest ready' m s' l' h' b'. collect_due-Gives k now rest ready' m others s' l' h' b') s l h
      b (pop q) (pop-IsPop q s) refl
