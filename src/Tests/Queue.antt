-- ===== src/Tests/Queue.antt =====
-- Examples for the queue of the writer.
use rsloop.Common.{ℕ, ◌≡◌, refl, ◌↔◌, true, false, List, [], ◌∷◌, ◌++◌, none, arith, err}
use rsloop.Bytes.{exact_alloc}
use rsloop.Staging.{OwnedWriteBuffer}
use rsloop.Staging.Remaining.{IsWritable}
use rsloop.WriterQueue.{
  payload, write_eof, stop, new_queue, empty, disconnected, enqueue, send_batch, try_dequeue,
  drop_receiver,
}
use rsloop.WriterQueue.Order.{all_items}
use rsloop.WriterQueue.Fifo.{
  Op, sends, sends_batch, receives, disconnects, run, sent, run-order, disconnection_cases,
}

abbrev write_of : List ℕ → OwnedWriteBuffer
write_of bytes = record {
  bytes = record { items = bytes; capacity = 16 };
  python_bytes = none;
  offset = 0;
  pooled = false;
}

write_of-IsWritable : (bytes : List ℕ) → IsWritable (write_of bytes)
write_of-IsWritable bytes = record { exclusive = λ old e. absurd (cc e); within = λ e. omega arith }

abbrev history : List Op
history =
    sends (payload (write_of (1 ∷ 2 ∷ [])))
    ∷ sends (payload (write_of (3 ∷ [])))
    ∷ receives
    ∷ sends_batch (write_of (4 ∷ []) ∷ [])
    ∷ sends write_eof
    ∷ disconnects
    ∷ receives
    ∷ []

run-order_example :
    let (cs, q) = run exact_alloc new_queue history in
    all_items cs ++ all_items q.commands ≡ all_items new_queue.commands ++ sent history
run-order_example = run-order exact_alloc new_queue history refl tt (
  write_of-IsWritable (1 ∷ 2 ∷ []),
  (write_of-IsWritable (3 ∷ []), (tt, ((write_of-IsWritable (4 ∷ []), tt), (tt, (tt, (tt, tt)))))),
)

disconnection_cases_example :
    (((try_dequeue new_queue).0 ≡ err disconnected)
      ↔ ((new_queue.commands ≡ []) × (new_queue.sender_alive ≡ false)))
    × (((try_dequeue new_queue).0 ≡ err empty)
        ↔ ((new_queue.commands ≡ []) × (new_queue.sender_alive ≡ true)))
    × (enqueue exact_alloc (drop_receiver new_queue) stop ≡ (err stop, drop_receiver new_queue))
    × (send_batch (drop_receiver new_queue) (write_of [] ∷ []) ≡ (err tt, drop_receiver new_queue))
disconnection_cases_example = disconnection_cases exact_alloc new_queue stop (write_of [] ∷ [])
