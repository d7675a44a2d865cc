-- ===== src/Timers/Kept.antt =====
-- What the loop holds between its operations, and the first steps of `collect`.
use mathlib.Core.List.{Perm}
use mathlib.Core.List.Perm
use rsloop.Common.{
  All, ℕ, ◌<◌, ◌≤◌, ◌≡◌, refl, sym, ap, ◌∙◌, subst, inl, inr, arith, true, false, ◌&&◌, List, [],
  ◌∷◌, ◌++◌, map, append-nil, append_assoc, Bool-cases, length, ltb, ◌/◌,
}
use rsloop.Timers.{
  is_cancelled, TimerCallback, TimerEntry, TimerQueue, len, append_heap, compact_cancelled,
}
use rsloop.Timers.Earliest.{entries, IsSorted}
use rsloop.Timers.Permutations.{live-perm}
use rsloop.Timers.Tombstones.{
  live-weights, weight, weights, dequeued, live, dead, compact_cancelled-IsCompacted,
}
use rsloop.Timers.Local.{LoopTimers, merge_pending, compact_burst}

-- All that the loop holds.
unfoldable pub held_timers : LoopTimers → List TimerEntry
held_timers t = entries t.heap ++ t.pending_timers

-- The timers of a loop between its operations.
pub record IsKept (t : LoopTimers) : Type 0 where
  pub sorted : IsSorted t.heap.ordered
  pub idle : t.running ≡ false → entries t.heap ≡ []
  pub seen : t.pending_timers_dirty ≡ false → t.pending_timers ≡ []
  pub count : t.cancelled_timers ≡ weights (held_timers t)

pub weights-length : (es : List TimerEntry) → weights es ≤ length es
unfolding weight
weights-length [] = omega arith
weights-length (e ∷ es) = let k = weights-length es in ground (arith, k)

-- The merge: all that the loop holds is in its heap.
pub record IsMerged (t m : LoopTimers) : Type 0 where
  pub sorted : IsSorted m.heap.ordered
  pub all : entries m.heap ≡ held_timers t
  pub nothing_pending : m.pending_timers ≡ []
  pub same_count : m.cancelled_timers ≡ t.cancelled_timers
  pub same_running : m.running ≡ t.running

merge_dirty :
    (t : LoopTimers)
    → t.pending_timers_dirty ≡ true
    → merge_pending t ≡ record t {
      heap = append_heap t.heap t.pending_timers;
      pending_timers = [];
      pending_timers_dirty = false;
    }
unfolding merge_pending
merge_dirty t h = ground arith

merge_clean : (t : LoopTimers) → t.pending_timers_dirty ≡ false → merge_pending t ≡ t
unfolding merge_pending
merge_clean t h = ground arith

pub merge-IsMerged : (t : LoopTimers) → IsKept t → IsMerged t (merge_pending t)
unfolding held_timers entries append_heap
merge-IsMerged t v = elim (Bool-cases t.pending_timers_dirty) [
  | inl h ↦ subst (IsMerged t) (sym (merge_dirty t h)) (record {
    sorted = v.sorted;
    all = sym (append_assoc t.heap.ordered t.heap.unordered t.pending_timers);
    nothing_pending = refl;
    same_count = refl;
    same_running = refl;
  })
  | inr h ↦ subst (IsMerged t) (sym (merge_clean t h)) (record {
    sorted = v.sorted;
    all = sym (ap (◌++◌ (entries t.heap)) (v.seen h) ∙ append-nil (entries t.heap));
    nothing_pending = v.seen h;
    same_count = refl;
    same_running = refl;
  })
]

-- The compaction, if there is one.
pub record IsBurst (q : TimerQueue) (ready : List TimerCallback)
    (r : TimerQueue × List TimerCallback × ℕ) : Type 0 where
  pub burst : List TimerEntry
  pub handed_over : r.1 ≡ ready ++ map dequeued burst
  pub all_cancelled : All (λ e. is_cancelled e.callback ≡ true) burst
  pub same : Perm (burst ++ entries r.0) (entries q)
  pub sorted : IsSorted r.0.ordered
  pub count : r.2 ≡ weights (entries r.0)

dead-cancelled : (es : List TimerEntry) → All (λ e. is_cancelled e.callback ≡ true) (dead es)
dead-cancelled [] = tt
dead-cancelled (e ∷ es) = elim (Bool-cases (is_cancelled e.callback)) [
  | inl c ↦ rw c (c, dead-cancelled es)
  | inr c ↦ rw c (dead-cancelled es)
]

pub compact-IsBurst :
    (q : TimerQueue) (ready : List TimerCallback) (n : ℕ)
    → IsSorted q.ordered
    → n ≡ weights (entries q)
    → n < 18446744073709551616
    → IsBurst q ready (compact_burst q ready n)
unfolding compact_burst
compact-IsBurst q ready n s h b = elim (Bool-cases (ltb 100 n && ltb (len q / 2) n)) [
  | inl k ↦
      let c = compact_cancelled-IsCompacted q ready n 0 s (omega (arith, h)) b in
      let kept : entries (compact_cancelled q ready n).0 ≡ live (entries q) = c.kept in
      let same : Perm (dead (entries q) ++ entries (compact_cancelled q ready n).0) (entries q) =
        subst (λ (es : List TimerEntry). Perm (dead (entries q) ++ es) (entries q)) (sym kept)
          (live-perm (entries q)) in
      let none_left : weights (entries (compact_cancelled q ready n).0) ≡ 0 =
        ap weights kept ∙ live-weights (entries q) in
      rw k (record {
        burst = dead (entries q);
        handed_over = c.handed_over;
        all_cancelled = dead-cancelled (entries q);
        same = same;
        sorted = c.sorted;
        count = c.count ∙ sym none_left;
      })
  | inr k ↦ rw k (record {
    burst = [];
    handed_over = sym (append-nil ready);
    all_cancelled = tt;
    same = Perm.refl (entries q);
    sorted = s;
    count = h;
  })
]
