-- ===== src/Events/Machine.antt =====
-- A transport with its workers and its loop: the steps of enqueuing workers and those of a drain, in
-- any order.
use rsloop.Common.{
  ℕ, suc, ◌-◌, Bool, true, false, ◌&&◌, List, [], Option, none, some, ltb, if◌then◌else◌,
}
use rsloop.Events.{
  PendingReadEvent, ReadEvents, enqueue_pending_read_event, backpressure_read, schedule_read,
}
use rsloop.Events.Drain.{
  Delivery, Answers, DrainLocals, Status, running, returned, raised, Step, start_drain, drain_step,
}

-- `drain` is the drain that is under way, and `unscheduled` the number of workers that have put an
-- event into the queue and have not come to the wake-up.
pub record Machine : Type 0 where
  pub transport : ReadEvents
  pub drain : Option DrainLocals
  pub unscheduled : ℕ

pub data Act : Type 0 where
  pushes : PendingReadEvent → Act
  backpressures : Act
  schedules : Bool → Act
  starts : Bool → Act
  drains : Answers → Act

abbrev pub is_idle : Option DrainLocals → Bool
is_idle none = true
is_idle (some d) = false

abbrev pub status_drain : Status → Option DrainLocals
status_drain (running d) = some d
status_drain returned = none
status_drain raised = none

abbrev pub stepped : Machine → Step → List Delivery × Machine
stepped m (calls, status, r) = (calls, record m { transport = r; drain = status_drain status })

abbrev pub pushed : Machine → Bool × ReadEvents → Machine
pushed m (accepted, r) = record m {
  transport = r;
  unscheduled = if accepted then suc m.unscheduled else m.unscheduled;
}

abbrev pub drain_on : Answers → Machine → Option DrainLocals → List Delivery × Machine
drain_on a m none = ([], m)
drain_on a m (some d) = stepped m (drain_step a d m.transport)

-- A drain starts when the loop comes to its command and runs one at a time.
unfoldable pub act : Act → Machine → List Delivery × Machine
act (pushes event) m = ([], pushed m (enqueue_pending_read_event event m.transport))
act backpressures m = ([], record m { transport = backpressure_read m.transport })
act (schedules sends) m =
    if ltb 0 m.unscheduled
    then (
      [],
      record m { transport = schedule_read sends m.transport; unscheduled = m.unscheduled - 1 },
    )
    else ([], m)
act (starts fast_path) m =
    if is_idle m.drain && ltb 0 m.transport.read_commands
    then stepped m (start_drain fast_path m.transport)
    else ([], m)
act (drains a) m = drain_on a m m.drain
