-- ===== src/Timers/Local.antt =====
-- The timers of a loop in src/engine/loop_core.rs: `LocalTimers`, the heap of the thread that runs
-- the loop, and the pending timers behind their mutex, where a timer waits that was scheduled from
-- another thread or while the loop does not run. `now` is the clock; the wake-up of the loop is not
-- modelled; `now + delay` does not overflow, since `call_later` limits the delay.
use rsloop.Common.{
  ℕ, zero, suc, ◌+◌, ◌/◌, Bool, true, false, not, ◌&&◌, ◌||◌, List, [], ◌∷◌, ◌++◌, Option, none,
  some, ltb, leb, if◌then◌else◌, ◌==◌, min,
}
use rsloop.Timers.{
  TimerCallback, TimerEntry, TimerQueue, is_cancelled, dequeue, drop_callback, new_timer_queue,
  is_empty, len, compact_cancelled, push, peek, pop, append_heap, drain_into,
}

pub record LoopTimers : Type 0 where
  pub running : Bool
  pub heap : TimerQueue
  pub pending_timers : List TimerEntry
  pub pending_timers_dirty : Bool
  pub cancelled_timers : ℕ
  pub closed : Bool

-- the timers of a new loop
abbrev pub new_timers : LoopTimers
new_timers = record {
  running = false;
  heap = new_timer_queue;
  pending_timers = [];
  pending_timers_dirty = false;
  cancelled_timers = 0;
  closed = false;
}

-- `LocalTimers::new`, when a run starts
unfoldable pub start_run : LoopTimers → LoopTimers
start_run t = record t { running = true; heap = new_timer_queue }

-- the `Drop` of `LocalTimers`, when a run ends
unfoldable pub end_run : LoopTimers → LoopTimers
end_run t =
    if not (is_empty t.heap)
    then record t {
      running = false;
      heap = new_timer_queue;
      pending_timers = drain_into t.heap t.pending_timers;
      pending_timers_dirty = true;
    }
    else record t { running = false }

-- `enqueue_timer` at the time `now`; `local` says that it runs on the thread of the active loop.
-- The flag of the answer says whether the timer was accepted.
unfoldable pub enqueue_timer : ℕ → ℕ → TimerCallback → Bool → LoopTimers → Bool × LoopTimers
enqueue_timer now delay ready local t =
    let entry : TimerEntry = record { when = now + delay; seq = ready.id; callback = ready } in
    if local && t.running
    then (true, record t { heap = push t.heap entry (delay == 0) })
    else if t.closed
    then (false, record t { cancelled_timers = drop_callback ready t.cancelled_timers })
    else (true, record t { pending_timers = entry ∷ t.pending_timers; pending_timers_dirty = true })

-- `entry.when <= now || entry.callback.cancelled()`
unfoldable pub is_due : ℕ → TimerEntry → Bool
is_due now e = leb e.when now || is_cancelled e.callback

-- the condition of the loop of `collect`
unfoldable pub due_at_front : ℕ → Option TimerEntry → Bool
due_at_front now none = false
due_at_front now (some e) = is_due now e

-- The loop of `collect`, with the ready items and the counter. The fuel counts its tests; no fuel
-- and the panic of `expect` are both no result.
unfoldable pub collect_due :
    ℕ → ℕ → TimerQueue → List TimerCallback → ℕ → Option (TimerQueue × List TimerCallback × ℕ)
collect_due zero now q ready n = none
collect_due (suc k) now q ready n = elim (due_at_front now (peek q)) [
  | false ↦ some (q, ready, n)
  | true ↦ elim (pop q) [
    | none ↦ none
    | some (entry, rest) ↦
        let (callback, m) = dequeue entry.callback n in
        collect_due k now rest (ready ++ callback ∷ []) m
  ]
]

-- the merge of `collect`
unfoldable pub merge_pending : LoopTimers → LoopTimers
merge_pending t =
    if t.pending_timers_dirty
    then record t {
      heap = append_heap t.heap t.pending_timers;
      pending_timers = [];
      pending_timers_dirty = false;
    }
    else t

-- the compaction of `collect` after a burst of cancellations
unfoldable pub compact_burst :
    TimerQueue → List TimerCallback → ℕ → TimerQueue × List TimerCallback × ℕ
compact_burst q ready n =
    if ltb 100 n && ltb (len q / 2) n then compact_cancelled q ready n else (q, ready, n)

-- what `collect` leaves in the loop
abbrev pub collected :
    LoopTimers
    → Option (TimerQueue × List TimerCallback × ℕ)
    → Option (List TimerCallback × LoopTimers)
collected t none = none
collected t (some (q, ready, n)) = some (ready, record t { heap = q; cancelled_timers = n })

-- `LocalTimers::collect`
unfoldable pub collect :
    ℕ → LoopTimers → List TimerCallback → Option (List TimerCallback × LoopTimers)
collect now t ready =
    let merged = merge_pending t in
    let (q, ready', n) = compact_burst merged.heap ready merged.cancelled_timers in
    collected merged
      (if is_empty q then some (q, ready', n) else collect_due (suc (len q)) now q ready' n)

-- `LocalTimers::deadline`, with the time until the signals are looked at
unfoldable pub deadline : ℕ → ℕ → LoopTimers → ℕ
deadline now signal_poll_interval t = elim (peek t.heap) [
  | none ↦ now + signal_poll_interval
  | some e ↦ min e.when (now + signal_poll_interval)
]

-- the `Drop` of each entry of a container
unfoldable pub drop_entries : List TimerEntry → ℕ → ℕ
drop_entries [] n = n
drop_entries (e ∷ es) n = drop_entries es (drop_callback e.callback n)

-- the timers when a loop that does not run is closed; a loop that runs is not closed
unfoldable pub close_timers : LoopTimers → LoopTimers
close_timers t = if t.running || t.closed then t else record t {
  closed = true;
  pending_timers = [];
  pending_timers_dirty = false;
  cancelled_timers = drop_entries t.pending_timers t.cancelled_timers;
}
