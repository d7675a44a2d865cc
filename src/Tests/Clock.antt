-- ===== src/Tests/Clock.antt =====
-- Examples for the timers of a loop.
use mathlib.Core.List.{Perm}
use rsloop.Common.{ℕ, ◌+◌, ◌≡◌, refl, inl, arith, true, false, List, [], ◌∷◌, some, length, ◌<◌}
use rsloop.Timers.{
  TimerEntry, TimerQueue, new_callback, is_cancelled, cancel, dequeue, drop_callback,
  compact_cancelled, push, pop, heap_peek, is_greater, greatest, heap_pop, take_greatest,
}
use rsloop.Timers.Order.{Before}
use rsloop.Timers.Earliest.{IsSorted, IsPop, entries, push-Holds, pop-IsPop}
use rsloop.Timers.Tombstones.{
  weight, weights, IsCompacted, counter_cases, compact_cancelled-IsCompacted,
}
use rsloop.Timers.Local.{LoopTimers, new_timers, collect}
use rsloop.Timers.Kept.{IsKept, held_timers}
use rsloop.Timers.Collect.{Gives}
use rsloop.Timers.Fire.{IsFired, collect-Gives}
use rsloop.Timers.History.{Op, enqueues, starts, ends, collects, cancels, closes}
use rsloop.Timers.Runs.{Balances, run, run-Balances}

abbrev at : ℕ → ℕ → TimerEntry
at when seq = record { when = when; seq = seq; callback = new_callback seq }

abbrev cancelled_at : ℕ → ℕ → TimerEntry
cancelled_at when seq = record {
  when = when;
  seq = seq;
  callback = record (new_callback seq) { ready = false; cancelled = true };
}

abbrev three : TimerQueue
three = record { ordered = at 3 1 ∷ cancelled_at 9 2 ∷ []; unordered = at 2 4 ∷ [] }

three-IsSorted : IsSorted three.ordered
unfolding Before
three-IsSorted = ((inl (omega arith), tt), (tt, tt))

pop-IsPop_example : IsPop three (pop three)
pop-IsPop_example = pop-IsPop three three-IsSorted

earliest : pop three ≡ some (at 2 4, record three { unordered = [] })
unfolding pop heap_peek is_greater greatest heap_pop take_greatest
earliest = refl

push-Holds_example :
    Perm (entries (push three (at 12 5) true)) (at 12 5 ∷ entries three)
    × IsSorted (push three (at 12 5) true).ordered
push-Holds_example = push-Holds three (at 12 5) true three-IsSorted

three_count : 1 ≡ weights (entries three) + 0
unfolding entries weight
three_count = refl

compact_cancelled-IsCompacted_example : IsCompacted three [] 0 (compact_cancelled three [] 1)
compact_cancelled-IsCompacted_example =
    compact_cancelled-IsCompacted three [] 1 0 three-IsSorted three_count (omega arith)

weight_new : 3 ≡ weight (new_callback 7) + 3
unfolding weight
weight_new = refl

counter_cases_example :
    ((cancel (new_callback 7) 3).1 ≡ weight (cancel (new_callback 7) 3).0 + 3)
    × (is_cancelled (cancel (new_callback 7) 3).0 ≡ true)
    × ((dequeue (new_callback 7) 3).1 ≡ weight (dequeue (new_callback 7) 3).0 + 3)
    × (weight (dequeue (new_callback 7) 3).0 ≡ 0)
    × (drop_callback (new_callback 7) 3 ≡ 3)
    × (cancel (cancel (new_callback 7) 3).0 (cancel (new_callback 7) 3).1
        ≡ cancel (new_callback 7) 3)
counter_cases_example = counter_cases (new_callback 7) 3 3 weight_new (omega arith)

abbrev busy : LoopTimers
busy = record {
  running = true;
  heap = three;
  pending_timers = at 4 6 ∷ [];
  pending_timers_dirty = true;
  cancelled_timers = 1;
  closed = false;
}

busy-IsKept : IsKept busy
unfolding held_timers entries weight
busy-IsKept = record {
  sorted = three-IsSorted;
  idle = λ e. ground arith;
  seen = λ e. ground arith;
  count = refl;
}

collect-Gives_example : Gives (IsFired 4 busy []) (collect 4 busy [])
collect-Gives_example = collect-Gives 4 busy [] busy-IsKept refl (omega arith)

new_timers-IsKept : IsKept new_timers
unfolding held_timers entries
new_timers-IsKept = record { sorted = tt; idle = λ e. refl; seen = λ e. refl; count = refl }

abbrev day : List Op
day =
    enqueues 5 10 (new_callback 1) true
    ∷ starts
    ∷ enqueues 6 0 (new_callback 2) true
    ∷ enqueues 6 9 (new_callback 3) false
    ∷ cancels 3
    ∷ collects 7
    ∷ ends
    ∷ closes
    ∷ []

day_bound : length day + length (held_timers new_timers) < 18446744073709551615
unfolding held_timers entries
day_bound = omega arith

run-Balances_example : Gives (Balances new_timers) (run day new_timers)
run-Balances_example =
    run-Balances day new_timers new_timers-IsKept
      (refl, (tt, (refl, (refl, (tt, (tt, (tt, (tt, tt)))))))) day_bound
