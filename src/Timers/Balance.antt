-- ===== src/Timers/Balance.antt =====
-- Every step of a loop's history keeps its timers.
use mathlib.Core.List.{Perm}
use mathlib.Core.List.Perm
use rsloop.Common.{
  ℕ, ◌+◌, ◌<◌, ◌≡◌, refl, sym, ap, ◌∙◌, subst, inl, inr, arith, true, false, ◌||◌, List, [], ◌∷◌,
  ◌++◌, append-nil, append_assoc, Bool-cases, if◌then◌else◌,
}
use rsloop.Timers.{
  TimerCallback, TimerEntry, is_empty, drain_into, new_timer_queue, drop_callback, sub_one,
}
use rsloop.Timers.Earliest.{entries}
use rsloop.Timers.Permutations.{exchange, weights-perm}
use rsloop.Timers.Tombstones.{weight, weights, weights-append}
use rsloop.Timers.Local.{LoopTimers, start_run, end_run, close_timers, drop_entries}
use rsloop.Timers.Kept.{held_timers, IsKept}
use rsloop.Timers.Fire.{empty_entries, true-false}
use rsloop.Timers.History.{Moves, stays-Moves, ids-perm}
use rsloop.Timers.Cancel.{ids}

pub start-Moves : (t : LoopTimers) → IsKept t → t.running ≡ false → Moves t ([], [], start_run t)
unfolding start_run held_timers entries
start-Moves t v h =
    let e : ids (entries t.heap ++ t.pending_timers) ≡ ids t.pending_timers =
      ap (λ (es : List TimerEntry). ids (es ++ t.pending_timers)) (v.idle h) in
    let w = ap (λ (es : List TimerEntry). weights (es ++ t.pending_timers)) (v.idle h) in
    record {
      kept = record { sorted = tt; idle = λ i. refl; seen = v.seen; count = v.count ∙ w };
      same =
          subst (λ xs. Perm (ids t.pending_timers) xs) (sym e) (Perm.refl (ids t.pending_timers));
      one = omega arith;
    }

end_empty : (t : LoopTimers) → is_empty t.heap ≡ true → end_run t ≡ record t { running = false }
unfolding end_run
end_empty t h = ground arith

end_held :
    (t : LoopTimers)
    → is_empty t.heap ≡ false
    → end_run t ≡ record t {
      running = false;
      heap = new_timer_queue;
      pending_timers = drain_into t.heap t.pending_timers;
      pending_timers_dirty = true;
    }
unfolding end_run
end_held t h = ground arith

comm : (xs ys : List TimerEntry) → Perm (xs ++ ys) (ys ++ xs)
comm xs ys =
    subst (λ (zs : List TimerEntry). Perm (xs ++ zs) (ys ++ xs)) (append-nil ys)
      (subst (λ (zs : List TimerEntry). Perm (xs ++ (ys ++ [])) (ys ++ zs)) (append-nil xs)
        (exchange xs ys []))

drained : (p u o : List TimerEntry) → Perm ((p ++ u) ++ o) ((o ++ u) ++ p)
drained p u o = Perm.trans (comm (p ++ u) o) (
    subst (λ (es : List TimerEntry). Perm (o ++ (p ++ u)) es) (sym (append_assoc o u p))
      (Perm.append_left o (comm p u)))

pub end-Moves : (t : LoopTimers) → IsKept t → Moves t ([], [], end_run t)
unfolding held_timers entries drain_into
end-Moves t v = elim (Bool-cases (is_empty t.heap)) [
  | inl h ↦
      subst (λ u. Moves t ([], [], u)) (sym (end_empty t h))
        (record {
          kept = record {
            sorted = v.sorted;
            idle = λ i. empty_entries t.heap h;
            seen = v.seen;
            count = v.count;
          };
          same = Perm.refl (ids (held_timers t));
          one = omega arith;
        })
  | inr h ↦
      let p = drained t.pending_timers t.heap.unordered t.heap.ordered in
      subst (λ u. Moves t ([], [], u)) (sym (end_held t h))
        (record {
          kept = record {
            sorted = tt;
            idle = λ i. refl;
            seen = λ i. absurd (true-false i);
            count = v.count ∙ sym (weights-perm p);
          };
          same = ids-perm p;
          one = omega arith;
        })
]

drop_count :
    (c : TimerCallback) (n others : ℕ)
    → n ≡ weight c + others
    → n < 18446744073709551616
    → drop_callback c n ≡ others
unfolding drop_callback weight sub_one
drop_count c n others h b = ground arith

drop_entries_count :
    (es : List TimerEntry) (n others : ℕ)
    → n ≡ weights es + others
    → n < 18446744073709551616
    → drop_entries es n ≡ others
unfolding drop_entries
drop_entries_count [] n others h b = omega (arith, h)
drop_entries_count (e ∷ es) n others h b =
    let k = drop_count e.callback n (weights es + others) (omega (arith, h)) b in
    drop_entries_count es (drop_callback e.callback n) others k (omega (arith, k, h, b))

close_done : (t : LoopTimers) → (t.running || t.closed) ≡ true → close_timers t ≡ t
unfolding close_timers
close_done t h = ground arith

close_dropped :
    (t : LoopTimers)
    → (t.running || t.closed) ≡ false
    → close_timers t ≡ record t {
      closed = true;
      pending_timers = [];
      pending_timers_dirty = false;
      cancelled_timers = drop_entries t.pending_timers t.cancelled_timers;
    }
unfolding close_timers
close_dropped t h = ground arith

pub stopped : (t : LoopTimers) → (t.running || t.closed) ≡ false → t.running ≡ false
stopped t h = ground arith

dropped-Moves :
    (t : LoopTimers)
    → IsKept t
    → t.cancelled_timers < 18446744073709551616
    → entries t.heap ≡ []
    → Moves t (
      [],
      ids t.pending_timers,
      record t {
        closed = true;
        pending_timers = [];
        pending_timers_dirty = false;
        cancelled_timers = drop_entries t.pending_timers t.cancelled_timers;
      },
    )
unfolding held_timers entries
dropped-Moves t v b e =
    let before : ids (entries t.heap ++ t.pending_timers) ≡ ids t.pending_timers =
      ap (λ (es : List TimerEntry). ids (es ++ t.pending_timers)) e in
    let after : ids (entries t.heap ++ []) ≡ [] = ap (λ (es : List TimerEntry). ids (es ++ [])) e in
    let left = ap (λ (es : List TimerEntry). weights (es ++ [])) e in
    let w = weights-append (entries t.heap) t.pending_timers in
    let x = ap weights e in
    record {
      kept = record {
        sorted = v.sorted;
        idle = λ i. e;
        seen = λ i. refl;
        count =
            drop_entries_count t.pending_timers t.cancelled_timers 0 (omega (arith, v.count, w, x))
              b
            ∙ sym left;
      };
      same =
          subst (λ xs. Perm (ids t.pending_timers ++ ids (entries t.heap ++ [])) xs) (sym before)
            (subst (λ xs. Perm (ids t.pending_timers ++ xs) (ids t.pending_timers)) (sym after)
              (subst (λ xs. Perm xs (ids t.pending_timers))
                (sym (append-nil (ids t.pending_timers))) (Perm.refl (ids t.pending_timers))));
      one = omega arith;
    }

pub close-Moves :
    (t : LoopTimers)
    → IsKept t
    → t.cancelled_timers < 18446744073709551616
    → Moves t ([], if t.running || t.closed then [] else ids t.pending_timers, close_timers t)
unfolding held_timers entries
close-Moves t v b = elim (Bool-cases (t.running || t.closed)) [
  | inl h ↦
      subst (λ u. Moves t ([], if t.running || t.closed then [] else ids t.pending_timers, u))
        (sym (close_done t h)) (rw h (stays-Moves t v))
  | inr h ↦
      subst (λ u. Moves t ([], if t.running || t.closed then [] else ids t.pending_timers, u))
        (sym (close_dropped t h)) (rw h (dropped-Moves t v b (v.idle (stopped t h))))
]
