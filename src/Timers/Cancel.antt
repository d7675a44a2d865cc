-- ===== src/Timers/Cancel.antt =====
-- The cancellation of a timer that the loop holds, through the handle of its callback.
use rsloop.Common.{
  ℕ, ◌+◌, ◌<◌, ◌≤◌, ◌≡◌, refl, sym, ap, ◌∙◌, subst, arith, List, [], ◌∷◌, ◌++◌, map, All, length,
  if◌then◌else◌, ◌==◌,
}
use rsloop.Timers.{TimerCallback, TimerEntry, cancel, add_one}
use rsloop.Timers.Order.{Before}
use rsloop.Timers.Earliest.{entries, IsSorted}
use rsloop.Timers.Tombstones.{weight, weights}
use rsloop.Timers.Local.{LoopTimers}
use rsloop.Timers.Kept.{held_timers, IsKept, weights-length}

-- An entry when the handle of the callback `id` is cancelled, and all those of a container: the
-- entry shares the callback with the handle.
cancel_entry : ℕ → TimerEntry → ℕ → TimerEntry × ℕ
cancel_entry id e n =
    let (callback, m) = cancel e.callback n in
    if e.callback.id == id then (record e { callback = callback }, m) else (e, n)

cancel_in : ℕ → List TimerEntry → ℕ → List TimerEntry × ℕ
cancel_in id [] n = ([], n)
cancel_in id (e ∷ es) n =
    let (f, m) = cancel_entry id e n in let (fs, k) = cancel_in id es m in (f ∷ fs, k)

pub cancel_timer : ℕ → LoopTimers → LoopTimers
unfolding cancel_in
cancel_timer id t =
    let (ordered, n) = cancel_in id t.heap.ordered t.cancelled_timers in
    let (unordered, m) = cancel_in id t.heap.unordered n in
    let (pending, k) = cancel_in id t.pending_timers m in
    record t {
      heap = record { ordered = ordered; unordered = unordered };
      pending_timers = pending;
      cancelled_timers = k;
    }

abbrev pub ids : List TimerEntry → List ℕ
ids = map (λ e. e.callback.id)

-- The entries have the same keys and identities.
abbrev Same : TimerEntry → TimerEntry → Type 0
Same e f = (e.when ≡ f.when) × (e.seq ≡ f.seq) × (e.callback.id ≡ f.callback.id)

abbrev AllSame : List TimerEntry → List TimerEntry → Type 0
AllSame [] [] = Unit {0}
AllSame [] (f ∷ fs) = ⊥
AllSame (e ∷ es) [] = ⊥
AllSame (e ∷ es) (f ∷ fs) = Same e f × AllSame es fs

Same-Before : (a b c d : TimerEntry) → Same a b → Same c d → Before a c → Before b d
unfolding Before
Same-Before a b c d h k o = ground arith

AllSame-Before :
    (a b : TimerEntry) (es fs : List TimerEntry)
    → Same a b
    → AllSame es fs
    → All (Before a) es
    → All (Before b) fs
AllSame-Before a b [] [] h k o = tt
AllSame-Before a b (e ∷ es) (f ∷ fs) h k o =
    (Same-Before a b e f h k.0 o.0, AllSame-Before a b es fs h k.1 o.1)
AllSame-Before a b [] (f ∷ fs) h k o = absurd k
AllSame-Before a b (e ∷ es) [] h k o = absurd k

AllSame-IsSorted : (es fs : List TimerEntry) → AllSame es fs → IsSorted es → IsSorted fs
AllSame-IsSorted [] [] k s = tt
AllSame-IsSorted (e ∷ es) (f ∷ fs) k s =
    (AllSame-Before e f es fs k.0 k.1 s.0, AllSame-IsSorted es fs k.1 s.1)
AllSame-IsSorted [] (f ∷ fs) k s = absurd k
AllSame-IsSorted (e ∷ es) [] k s = absurd k

cancel_entry-Same : (id n : ℕ) (e : TimerEntry) → Same e (cancel_entry id e n).0
unfolding cancel_entry cancel
cancel_entry-Same id n e = ground arith

cancel_entry_count :
    (id n others : ℕ) (e : TimerEntry)
    → n ≡ weight e.callback + others
    → n + 1 < 18446744073709551616
    → (cancel_entry id e n).1 ≡ weight (cancel_entry id e n).0.callback + others
unfolding cancel_entry cancel weight add_one
cancel_entry_count id n others e h b = ground arith

weight_one : (c : TimerCallback) → weight c ≤ 1
unfolding weight
weight_one c = ground arith

cancel_in-AllSame : (id n : ℕ) (es : List TimerEntry) → AllSame es (cancel_in id es n).0
unfolding cancel_in
cancel_in-AllSame id n [] = tt
cancel_in-AllSame id n (e ∷ es) =
    (cancel_entry-Same id n e, cancel_in-AllSame id (cancel_entry id e n).1 es)

cancel_in-append :
    (id n : ℕ) (xs ys : List TimerEntry)
    → let (cs, m) = cancel_in id xs n in
      let (bs, k) = cancel_in id ys m in cancel_in id (xs ++ ys) n ≡ (cs ++ bs, k)
unfolding cancel_in
cancel_in-append id n [] ys = refl
cancel_in-append id n (x ∷ xs) ys =
    let (f, m) = cancel_entry id x n in
    ap (λ (r : List TimerEntry × ℕ). (f ∷ r.0, r.1)) (cancel_in-append id m xs ys)

-- What the cancellation makes of a container, where the counter has the share of the container
-- and the `others`.
record IsCancelled (es : List TimerEntry) (others : ℕ) (r : List TimerEntry × ℕ) : Type 0 where
  count : r.1 ≡ weights r.0 + others
  same_ids : ids r.0 ≡ ids es

cancel_in-IsCancelled :
    (id n others : ℕ) (es : List TimerEntry)
    → n ≡ weights es + others
    → length es + others < 18446744073709551615
    → IsCancelled es others (cancel_in id es n)
unfolding cancel_in
cancel_in-IsCancelled id n others [] h b = record { count = h; same_ids = refl }
cancel_in-IsCancelled id n others (e ∷ es) h b =
    let (f, m) = cancel_entry id e n in
    let s = cancel_entry-Same id n e in
    let l = weights-length es in
    let w = weight_one e.callback in
    let c : m ≡ weight f.callback + (weights es + others) =
      cancel_entry_count id n (weights es + others) e (omega (arith, h))
        (omega (arith, h, b, l, w)) in
    let v = weight_one f.callback in
    let rest =
      cancel_in-IsCancelled id m (weight f.callback + others) es (omega (arith, c))
        (omega (arith, b, v)) in
    let (fs, k) = cancel_in id es m in
    record {
      count = omega (arith, rest.count);
      same_ids = ap (◌∷◌ f.callback.id) rest.same_ids ∙ ap (λ i. i ∷ ids es) (sym s.2);
    }

pub ids-append : (xs ys : List TimerEntry) → ids (xs ++ ys) ≡ ids xs ++ ids ys
ids-append [] ys = refl
ids-append (x ∷ xs) ys = ap (◌∷◌ x.callback.id) (ids-append xs ys)

AllSame-nil : (es fs : List TimerEntry) → AllSame es fs → es ≡ [] → fs ≡ []
AllSame-nil [] [] k e = refl
AllSame-nil [] (f ∷ fs) k e = absurd k
AllSame-nil (x ∷ es) [] k e = absurd k
AllSame-nil (x ∷ es) (f ∷ fs) k e = ground arith

-- The cancellation of a timer keeps the timers of the loop, their identities and their order, and
-- the counter stays that of the cancelled timers that are held. The timers fit a `usize`.
pub cancel_timer-IsKept :
    (id : ℕ) (t : LoopTimers)
    → IsKept t
    → length (held_timers t) < 18446744073709551615
    → IsKept (cancel_timer id t) × (ids (held_timers (cancel_timer id t)) ≡ ids (held_timers t))
unfolding cancel_timer held_timers entries
cancel_timer-IsKept id t v b =
    let o = t.heap.ordered in
    let u = t.heap.unordered in
    let p = t.pending_timers in
    let (o', n) = cancel_in id o t.cancelled_timers in
    let (u', m) = cancel_in id u n in
    let (p', k) = cancel_in id p m in
    let whole : cancel_in id ((o ++ u) ++ p) t.cancelled_timers ≡ ((o' ++ u') ++ p', k) =
      cancel_in-append id t.cancelled_timers (o ++ u) p
      ∙ rw (cancel_in-append id t.cancelled_timers o u) refl in
    let c = subst (IsCancelled ((o ++ u) ++ p) 0) whole (
      cancel_in-IsCancelled id t.cancelled_timers 0 ((o ++ u) ++ p) (omega (arith, v.count))
        (omega (arith, b))) in
    let heap_same = cancel_in-AllSame id t.cancelled_timers (o ++ u) in
    let heap_parts : AllSame (o ++ u) (o' ++ u') =
      subst (λ (r : List TimerEntry × ℕ). AllSame (o ++ u) r.0)
        (cancel_in-append id t.cancelled_timers o u) heap_same in
    (
      record {
        sorted = AllSame-IsSorted o o' (cancel_in-AllSame id t.cancelled_timers o) v.sorted;
        idle = λ e. AllSame-nil (o ++ u) (o' ++ u') heap_parts (v.idle e);
        seen = λ e. AllSame-nil p p' (cancel_in-AllSame id m p) (v.seen e);
        count = omega (arith, c.count);
      },
      c.same_ids,
    )
