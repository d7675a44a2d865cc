-- ===== src/Tests/Buffers.antt =====
-- Examples for the read buffer and for the accounting of writes.
use rsloop.Common.{◌≤◌, ◌≡◌, true, false, max, List, [], ◌∷◌, none, some, arith}
use rsloop.Bytes.{exact_alloc}
use rsloop.ReadBuffer.{
  ReadBuffer, OwnedReadBuffer, unread, new, consume_all, extend, consume, compact_if_needed,
  prepend, is_empty, len,
}
use rsloop.ReadBuffer.Unread.{IsValid}
use rsloop.ReadBuffer.Model.{
  Op, extends, prepends, extends_owned, consumes, apply, run, run_list, AllAdmit, unread-run,
}
use rsloop.ReadBuffer.Capacity.{consume_all-releases}
use rsloop.WriteBuffer.{initial, IsConsistent}
use rsloop.WriteBuffer.Signals
use rsloop.WriteBuffer.Signals.{initial-IsConsistent, Alternates, run-Alternates, enqueue-drain}

abbrev handed_over : OwnedReadBuffer
handed_over = record { vec = record { items = 7 ∷ 8 ∷ []; capacity = 4 }; pooled = false }

abbrev history : List Op
history =
    extends (1 ∷ 2 ∷ 3 ∷ [])
    ∷ consumes 2
    ∷ prepends (9 ∷ [])
    ∷ extends_owned handed_over
    ∷ consumes 1
    ∷ []

history-AllAdmit : AllAdmit exact_alloc (new exact_alloc 4) history
unfolding apply new extend consume compact_if_needed prepend unread is_empty len
history-AllAdmit = (omega arith, (tt, (omega arith, ((omega arith, omega arith), (tt, tt)))))

unread-run_example :
    IsValid (run exact_alloc (new exact_alloc 4) history)
    × (unread (run exact_alloc (new exact_alloc 4) history) ≡ run_list [] history)
unread-run_example = unread-run exact_alloc 4 history history-AllAdmit

abbrev pooled_buffer : ReadBuffer
pooled_buffer = record {
  bytes = record { vec = record { items = 1 ∷ 2 ∷ []; capacity = 65536 }; pooled = true };
  start = 1;
  baseline_capacity = 4096;
  max_retained_capacity = 16384;
}

consume_all-releases_example :
    ((consume_all exact_alloc pooled_buffer).bytes.pooled ≡ false)
    × ((consume_all exact_alloc pooled_buffer).start ≡ 0)
    × ((consume_all exact_alloc pooled_buffer).bytes.vec.capacity
        ≤ max pooled_buffer.max_retained_capacity
            (max (exact_alloc.room 0 pooled_buffer.baseline_capacity) (exact_alloc.room 0 0)))
consume_all-releases_example = consume_all-releases exact_alloc pooled_buffer (omega arith)

abbrev writes : List Signals.Op
writes =
    Signals.enqueues 70000
    ∷ Signals.drains 60000
    ∷ Signals.sets_limits (some 100) none
    ∷ Signals.clears true
    ∷ Signals.enqueues 80000
    ∷ Signals.clears false
    ∷ []

run-Alternates_example :
    Alternates 100000 initial.protocol_paused writes
      (Signals.run 100000 initial writes).0
      (Signals.run 100000 initial writes).1.protocol_paused
    × IsConsistent 100000 (Signals.run 100000 initial writes).1
run-Alternates_example = run-Alternates 100000 initial writes (initial-IsConsistent 100000)
