-- ===== src/WriterQueue/Fifo.antt =====
-- What the worker receives is what was sent, in order.
use rsloop.Common.{
  ◌≡◌, refl, sym, ap, ◌∙◌, subst, inl, inr, ◌↔◌, List-cases, arith, true, false, List, [], ◌∷◌,
  ◌++◌, map, append-nil, append_assoc, All, All-append, if◌then◌else◌, Result, ok, err,
}
use rsloop.Bytes.{Alloc}
use rsloop.Staging.{OwnedWriteBuffer}
use rsloop.WriterQueue.{
  WriterCommand, payload, QueueState, TryRecvError, enqueue, send_batch, try_dequeue, drop_sender,
  drop_receiver, empty, disconnected,
}
use rsloop.WriterQueue.Order.{
  Item, items_of, all_items, all_items-append, Sendable, push_back-Places,
}

-- What the transport and the worker do while both are there.
pub data Op : Type 0 where
  sends : WriterCommand → Op
  sends_batch : List OwnedWriteBuffer → Op
  receives disconnects : Op

-- What an operation hands to the worker.
abbrev pub received : Result WriterCommand TryRecvError → List WriterCommand
received (ok c) = c ∷ []
received (err e) = []

pub step : Alloc → QueueState → Op → List WriterCommand × QueueState
step a q (sends c) = ([], (enqueue a q c).1)
step a q (sends_batch ws) = ([], (send_batch q ws).1)
step a q receives = let (r, q') = try_dequeue q in (received r, q')
step a q disconnects = ([], drop_sender q)

pub run : Alloc → QueueState → List Op → List WriterCommand × QueueState
run a q [] = ([], q)
run a q (o ∷ os) = let (cs, q') = step a q o in let (ds, q'') = run a q' os in (cs ++ ds, q'')

abbrev pub sent : List Op → List Item
sent [] = []
sent (sends c ∷ os) = items_of c ++ sent os
sent (sends_batch ws ∷ os) = all_items (map payload ws) ++ sent os
sent (receives ∷ os) = sent os
sent (disconnects ∷ os) = sent os

abbrev pub SendsWell : Op → Type 0
SendsWell (sends c) = Sendable c
SendsWell (sends_batch ws) = All Sendable (map payload ws)
SendsWell receives = Unit {0}
SendsWell disconnects = Unit {0}

pub dequeue_nothing :
    (q : QueueState)
    → q.commands ≡ []
    → try_dequeue q ≡ (err (if q.sender_alive then empty else disconnected), q)
unfolding try_dequeue
dequeue_nothing q e = ground arith

pub dequeue_first :
    (q : QueueState) (c : WriterCommand) (cs : List WriterCommand)
    → q.commands ≡ c ∷ cs
    → try_dequeue q ≡ (ok c, record q { commands = cs })
unfolding try_dequeue
dequeue_first q c cs e = ground arith

-- One step of a queue whose worker is there.
record Steps (q : QueueState) (o : Op) (r : List WriterCommand × QueueState) : Type 0 where
  alive : r.1.receiver_alive ≡ true
  sendable : All Sendable r.1.commands
  order : all_items r.0 ++ all_items r.1.commands ≡ all_items q.commands ++ sent (o ∷ [])

step-Steps :
    (a : Alloc) (q : QueueState) (o : Op)
    → q.receiver_alive ≡ true
    → All Sendable q.commands
    → SendsWell o
    → Steps q o (step a q o)
unfolding step enqueue send_batch try_dequeue drop_sender
step-Steps a q (sends c) l v u =
    let p = push_back-Places a q.commands c v u in
    rw l (record {
      alive = refl;
      sendable = p.1;
      order = p.0 ∙ ap (◌++◌ (all_items q.commands)) (sym (append-nil (items_of c)));
    })
step-Steps a q (sends_batch ws) l v u = rw l (record {
  alive = refl;
  sendable = All-append Sendable q.commands (map payload ws) v u;
  order =
      all_items-append q.commands (map payload ws)
      ∙ ap (◌++◌ (all_items q.commands)) (sym (append-nil (all_items (map payload ws))));
})
step-Steps a q receives l v u = elim (List-cases q.commands) [
  | inl e ↦
      subst (λ r. Steps q receives (received r.0, r.1)) (sym (dequeue_nothing q e))
        (record { alive = l; sendable = v; order = sym (append-nil (all_items q.commands)) })
  | inr (c, cs, e) ↦
      subst (λ r. Steps q receives (received r.0, r.1)) (sym (dequeue_first q c cs e))
        (record {
          alive = l;
          sendable = (rw e at v).1;
          order =
              ap (λ xs. xs ++ all_items cs) (append-nil (items_of c))
              ∙ ap all_items (sym e)
              ∙ sym (append-nil (all_items q.commands));
        })
]
step-Steps a q disconnects l v u = record {
  alive = l;
  sendable = v;
  order = sym (append-nil (all_items q.commands));
}

sent-cons : (o : Op) (os : List Op) → sent (o ∷ os) ≡ sent (o ∷ []) ++ sent os
sent-cons (sends c) os = ap (λ xs. xs ++ sent os) (sym (append-nil (items_of c)))
sent-cons (sends_batch ws) os =
    ap (λ xs. xs ++ sent os) (sym (append-nil (all_items (map payload ws))))
sent-cons receives os = refl
sent-cons disconnects os = refl

-- While the worker is there, and buffers have their offset within their bytes: however sends,
-- batches, receptions and the disconnection of the sender are interleaved, the bytes and the
-- control commands that the worker has received, followed by those that are queued, are those that
-- were queued at first, followed by those that were sent, in order, whether small writes are
-- coalesced or not.
pub run-order :
    (a : Alloc) (q : QueueState) (os : List Op)
    → q.receiver_alive ≡ true
    → All Sendable q.commands
    → All SendsWell os
    → let (cs, q') = run a q os in
      all_items cs ++ all_items q'.commands ≡ all_items q.commands ++ sent os
unfolding run
run-order a q [] l v u = sym (append-nil (all_items q.commands))
run-order a q (o ∷ os) l v u =
    let (cs, q') = step a q o in
    let s = step-Steps a q o l v u.0 in
    let rest = run-order a q' os s.alive s.sendable u.1 in
    let (ds, q'') = run a q' os in
    ap (λ xs. xs ++ all_items q''.commands) (all_items-append cs ds)
    ∙ append_assoc (all_items cs) (all_items ds) (all_items q''.commands)
    ∙ ap (◌++◌ (all_items cs)) rest
    ∙ sym (append_assoc (all_items cs) (all_items q'.commands) (sent os))
    ∙ ap (λ xs. xs ++ sent os) s.order
    ∙ append_assoc (all_items q.commands) (sent (o ∷ [])) (sent os)
    ∙ ap (◌++◌ (all_items q.commands)) (sym (sent-cons o os))

-- The worker is told of the disconnection exactly once the queue is drained and the sender is gone,
-- and is told to wait exactly while the queue is empty and the sender is there; a queued command
-- comes first either way. After the worker has gone, every send is refused, gives its command back
-- and leaves the queue as it is.
pub disconnection_cases :
    (a : Alloc) (q : QueueState) (c : WriterCommand) (ws : List OwnedWriteBuffer)
    → (((try_dequeue q).0 ≡ err disconnected) ↔ ((q.commands ≡ []) × (q.sender_alive ≡ false)))
      × (((try_dequeue q).0 ≡ err empty) ↔ ((q.commands ≡ []) × (q.sender_alive ≡ true)))
      × (enqueue a (drop_receiver q) c ≡ (err c, drop_receiver q))
      × (send_batch (drop_receiver q) ws ≡ (err tt, drop_receiver q))
unfolding try_dequeue enqueue send_batch drop_receiver
disconnection_cases a q c ws = ground arith
