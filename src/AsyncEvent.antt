-- ===== src/AsyncEvent.antt =====
-- src/async_event.rs: the broadcast notification that the shutdown of transports waits on. Threads
-- and wakers take turns at every lock and at every `send`, so a call of `notify_all` is a chain of
-- steps, and the calls in flight are part of the state. The channels of `futures::oneshot` have the
-- numbers in which they are made, and `send` is the record that it happened.
use rsloop.Common.{
  ℕ, suc, Bool, true, false, ◌&&◌, ltb, List, [], ◌∷◌, ◌++◌, Option, none, some, length,
  if◌then◌else◌,
}
use rsloop.Bytes.{Alloc}
pub mod Run
pub mod Once
pub mod Notified

-- `Vec<oneshot::Sender<()>>`
pub record Waiters : Type 0 where
  pub senders : List ℕ
  pub capacity : ℕ

-- The event, the vectors that calls of `notify_all` have taken and not yet given back, the channels
-- that have been sent to, and the number of the next one.
pub record AsyncEvent : Type 0 where
  pub waiters : Waiters
  pub notifying : List Waiters
  pub sent : List ℕ
  pub next_channel : ℕ

abbrev pub new_event : AsyncEvent
new_event = record {
  waiters = record { senders = []; capacity = 4 };
  notifying = [];
  sent = [];
  next_channel = 0;
}

abbrev pub no_waiters : List ℕ → Bool
no_waiters [] = true
no_waiters (t ∷ ts) = false

-- `Vec::push`
unfoldable pub push_sender : Alloc → Waiters → ℕ → Waiters
push_sender a w t = record {
  senders = w.senders ++ (t ∷ []);
  capacity =
      if ltb (length w.senders) w.capacity
      then w.capacity
      else a.room w.capacity (suc (length w.senders));
}

-- `listen` leaves the event with the new sender behind the others.
unfoldable pub listen : Alloc → AsyncEvent → AsyncEvent
listen a e = record e {
  waiters = push_sender a e.waiters e.next_channel;
  next_channel = suc e.next_channel;
}

-- `notify_all` up to the end of its first lock: `mem::take` leaves a vector without allocation.
unfoldable pub start_notify : AsyncEvent → AsyncEvent
start_notify e = if no_waiters e.waiters.senders then e else record e {
  waiters = record { senders = []; capacity = 0 };
  notifying = e.waiters ∷ e.notifying;
}

-- The end of `notify_all`, with the vector that it has drained.
unfoldable pub give_back : AsyncEvent → Waiters → AsyncEvent
give_back e pending =
    if no_waiters e.waiters.senders && ltb e.waiters.capacity pending.capacity
    then record e { waiters = pending }
    else e

-- One step of a call in flight, beside the other calls: a `send` of its loop, or its end.
unfoldable pub continue_notify : AsyncEvent → List Waiters → Waiters → AsyncEvent
unfolding give_back
continue_notify e others pending = elim pending.senders [
  | [] ↦ give_back (record e { notifying = others }) pending
  | t ∷ ts ↦ record e {
    notifying = record pending { senders = ts } ∷ others;
    sent = e.sent ++ (t ∷ []);
  }
]
