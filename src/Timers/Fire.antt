-- ===== src/Timers/Fire.antt =====
-- `collect` as a whole.
use mathlib.Core.List.{Perm}
use mathlib.Core.List.Perm
use rsloop.Common.{
  ℕ, suc, ◌<◌, ◌≡◌, ◌≢◌, sym, ap, ◌∙◌, subst, inl, inr, arith, true, false, List, [], ◌++◌, map,
  Option, some, append-nil, append_assoc, All, Bool-cases, if◌then◌else◌,
}
use rsloop.Timers.{is_cancelled, TimerCallback, TimerEntry, TimerQueue, is_empty, len}
use rsloop.Timers.Earliest.{entries, IsSorted}
use rsloop.Timers.Permutations.{weights-perm}
use rsloop.Timers.Tombstones.{weights, weights-append, dequeued}
use rsloop.Timers.Collect.{Gives, gives, IsCollected, collect_due-Gives}
use rsloop.Timers.Kept.{held_timers, IsKept, IsMerged, IsBurst, merge-IsMerged, compact-IsBurst}
use rsloop.Timers.Local.{
  LoopTimers, is_due, collect_due, merge_pending, compact_burst, collected, collect,
}

-- What a collection does at `now`, with the ready items before it.
pub record IsFired (now : ℕ) (t : LoopTimers) (ready : List TimerCallback)
    (r : List TimerCallback × LoopTimers) : Type 0 where
  pub burst : List TimerEntry
  pub out : List TimerEntry
  pub all_cancelled : All (λ e. is_cancelled e.callback ≡ true) burst
  pub handed_over : r.0 ≡ (ready ++ map dequeued burst) ++ map dequeued out
  pub same : Perm ((burst ++ out) ++ held_timers r.1) (held_timers t)
  pub in_order : IsSorted out
  pub all_due : All (λ e. is_due now e ≡ true) out
  pub later : All (λ e. now < e.when) (held_timers r.1)
  pub kept : IsKept r.1

pub empty_entries : (q : TimerQueue) → is_empty q ≡ true → entries q ≡ []
unfolding is_empty entries
empty_entries q h = ground arith

drain-Gives :
    (now : ℕ) (q : TimerQueue) (ready : List TimerCallback) (n : ℕ)
    → IsSorted q.ordered
    → n ≡ weights (entries q)
    → n < 18446744073709551616
    → Gives
        (IsCollected now q ready 0)
        (if is_empty q then some (q, ready, n) else collect_due (suc (len q)) now q ready n)
drain-Gives now q ready n s h b = elim (Bool-cases (is_empty q)) [
  | inl e ↦
      let k = empty_entries q e in
      rw e (
        gives (q, ready, n)
          (record {
            out = [];
            handed_over = sym (append-nil ready);
            same = Perm.refl (entries q);
            in_order = tt;
            all_due = tt;
            later = rw k tt;
            sorted = s;
            count = omega (arith, h);
          }))
  | inr e ↦
      rw e (collect_due-Gives (suc (len q)) now q ready n 0 s (omega arith) (omega (arith, h)) b)
]

collected-Gives :
    {P : TimerQueue × List TimerCallback × ℕ → Type 0}
    {Q : List TimerCallback × LoopTimers → Type 0} (t : LoopTimers)
    → ((r : TimerQueue × List TimerCallback × ℕ)
        → P r
        → Q (r.1, record t { heap = r.0; cancelled_timers = r.2 }))
    → {o : Option (TimerQueue × List TimerCallback × ℕ)} → Gives P o
    → Gives Q (collected t o)
collected-Gives t f (gives a p) = gives _ (f a p)

pub true-false : true ≢ false
true-false e = ground arith

collected-IsFired :
    (now : ℕ) (t m : LoopTimers) (ready : List TimerCallback)
    (c r : TimerQueue × List TimerCallback × ℕ)
    → t.running ≡ true
    → IsMerged t m
    → IsBurst m.heap ready c
    → IsCollected now c.0 c.1 0 r
    → IsFired now t ready (r.1, record m { heap = r.0; cancelled_timers = r.2 })
unfolding held_timers
collected-IsFired now t m ready c r l v b d =
    let left : entries r.0 ++ m.pending_timers ≡ entries r.0 =
      ap (◌++◌ (entries r.0)) v.nothing_pending ∙ append-nil (entries r.0) in
    let after : Perm (b.burst ++ (d.out ++ entries r.0)) (held_timers t) =
      Perm.trans (Perm.append_left b.burst d.same)
        (subst (λ (es : List TimerEntry). Perm (b.burst ++ entries c.0) es) v.all b.same) in
    let same : Perm ((b.burst ++ d.out) ++ entries r.0) (held_timers t) =
      subst (λ (es : List TimerEntry). Perm es (held_timers t))
        (sym (append_assoc b.burst d.out (entries r.0))) after in
    record {
      burst = b.burst;
      out = d.out;
      all_cancelled = b.all_cancelled;
      handed_over =
          d.handed_over ∙ ap (λ (xs : List TimerCallback). xs ++ map dequeued d.out) b.handed_over;
      same =
          subst (λ (es : List TimerEntry). Perm ((b.burst ++ d.out) ++ es) (held_timers t))
            (sym left) same;
      in_order = d.in_order;
      all_due = d.all_due;
      later = subst (All (λ e. now < e.when)) (sym left) d.later;
      kept = record {
        sorted = d.sorted;
        idle = λ e. absurd (true-false (sym l ∙ sym v.same_running ∙ e));
        seen = λ e. v.nothing_pending;
        count = d.count ∙ omega (arith, ap weights left);
      };
    }

-- While the loop runs, and the counter fits a `usize`: whatever is pending, whether the cancelled
-- timers are compacted or not, `collect` ends without a panic. It moves timers behind the ready items,
-- each once: first cancelled ones, and then, in the order of their deadlines, ones that are due or
-- cancelled;
-- the loop still holds all others, and none of those is due. The counter stays that of the cancelled
-- timers that are held.
pub collect-Gives :
    (now : ℕ) (t : LoopTimers) (ready : List TimerCallback)
    → IsKept t
    → t.running ≡ true
    → t.cancelled_timers < 18446744073709551616
    → Gives (IsFired now t ready) (collect now t ready)
unfolding collect
collect-Gives now t ready v l b =
    let m = merge_pending t in
    let M = merge-IsMerged t v in
    let w = ap weights M.all in
    let B =
      compact-IsBurst m.heap ready m.cancelled_timers M.sorted (M.same_count ∙ v.count ∙ sym w)
        (omega (arith, M.same_count, b)) in
    let (q, ready', n) = compact_burst m.heap ready m.cancelled_timers in
    let parts = weights-append B.burst (entries q) in
    let less : n < 18446744073709551616 =
      omega (arith, B.count, weights-perm B.same, parts, w, v.count, b) in
    collected-Gives m (λ r d. collected-IsFired now t m ready (q, ready', n) r l M B d)
      (drain-Gives now q ready' n B.sorted B.count less)
