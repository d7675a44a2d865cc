-- ===== src/WriterQueue.antt =====
-- src/transport/stream/write_queue.rs, the queue between a transport and its writer worker, with
-- `WriterCommand` of src/transport/stream/mod.rs. Each operation runs under the lock of the queue,
-- so it is one step.
pub mod Order
pub mod Fifo
use rsloop.Common.{
  ℕ, Bool, true, false, not, List, [], ◌∷◌, ◌++◌, map, Option, none, some, if◌then◌else◌, Result,
  ok, err,
}
use rsloop.Bytes.{Alloc}
use rsloop.Staging.{OwnedWriteBuffer, remaining, try_append}

pub data WriterCommand : Type 0 where
  payload : OwnedWriteBuffer → WriterCommand
  write_eof close abort stop : WriterCommand

-- `QueueState`; the commands from the front to the back
pub record QueueState : Type 0 where
  pub commands : List WriterCommand
  pub sender_alive : Bool
  pub receiver_alive : Bool

-- `QueueState::new`
abbrev pub new_queue : QueueState
new_queue = record { commands = []; sender_alive = true; receiver_alive = true }

pub data TryRecvError : Type 0 where
  empty disconnected : TryRecvError

-- `if let WriterCommand::Data(…)`
abbrev pub payload_of : WriterCommand → Option OwnedWriteBuffer
payload_of (payload w) = some w
payload_of write_eof = none
payload_of close = none
payload_of abort = none
payload_of stop = none

pub coalesced : OwnedWriteBuffer → Bool × OwnedWriteBuffer → List WriterCommand
coalesced w (taken, joined) = if taken then payload joined ∷ [] else payload joined ∷ payload w ∷ []

module _ (a : Alloc) where
  -- a payload behind a payload, which may take it
  pub coalesce : OwnedWriteBuffer → OwnedWriteBuffer → List WriterCommand
  unfolding coalesced
  coalesce pending w = coalesced w (try_append a pending (remaining w))

  -- a command behind the one at the back
  pub join : WriterCommand → WriterCommand → List WriterCommand
  unfolding coalesce
  join back command = elim (payload_of command) [
    | none ↦ back ∷ command ∷ []
    | some w ↦ elim (payload_of back) [
      | none ↦ back ∷ command ∷ []
      | some pending ↦ coalesce pending w
    ]
  ]

  pub push_back : List WriterCommand → WriterCommand → List WriterCommand
  unfolding join
  push_back [] command = command ∷ []
  push_back (c ∷ []) command = join c command
  push_back (c ∷ d ∷ cs) command = c ∷ push_back (d ∷ cs) command

  -- `QueueState::enqueue`: the error gives the command back.
  unfoldable pub enqueue : QueueState → WriterCommand → Result (Unit {0}) WriterCommand × QueueState
  unfolding push_back
  enqueue q command =
      if not q.receiver_alive
      then (err command, q)
      else (ok tt, record q { commands = push_back q.commands command })

-- `WriterSender::send_batch`
unfoldable pub send_batch :
    QueueState → List OwnedWriteBuffer → Result (Unit {0}) (Unit {0}) × QueueState
send_batch q buffers =
    if not q.receiver_alive
    then (err tt, q)
    else (ok tt, record q { commands = q.commands ++ map payload buffers })

-- the answer of `try_dequeue` when nothing is queued
nothing_queued : Bool → TryRecvError
nothing_queued true = empty
nothing_queued false = disconnected

-- `QueueState::try_dequeue`
unfoldable pub try_dequeue : QueueState → Result WriterCommand TryRecvError × QueueState
unfolding nothing_queued
try_dequeue q = elim q.commands [
  | [] ↦ (err (nothing_queued q.sender_alive), q)
  | c ∷ cs ↦ (ok c, record q { commands = cs })
]

-- the `Drop` of `WriterSender` and of `WriterReceiver`
unfoldable pub drop_sender : QueueState → QueueState
drop_sender q = record q { sender_alive = false }

unfoldable pub drop_receiver : QueueState → QueueState
drop_receiver q = record q { receiver_alive = false }
