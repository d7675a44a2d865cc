-- ===== src/Events/Insert.antt =====
-- The state of the wake-ups, and what the workers do to it.
use rsloop.Common.{
  ℕ, ◌+◌, ◌-◌, ◌≤◌, ◌≡◌, ◌⊎◌, refl, inl, inr, arith, Bool, true, false, [], Option, none, some,
  if◌then◌else◌,
}
use rsloop.Events.{
  PendingReadEvent, ReadEvents, enqueue_pending_read_event, schedule_read,
  transition_read_event_state, read_event_kind, push_event,
}
use rsloop.Events.Drain.{DrainLocals}
use rsloop.Events.Machine.{Machine, Act, pushes, backpressures, schedules, starts, drains, pushed}

abbrev pub active : Option DrainLocals → ℕ
active none = 0
active (some d) = 1

abbrev pub due : Bool → ℕ
due true = 1
due false = 0

-- While something is queued, a drain is scheduled or a worker is about to schedule it, or the
-- connection is lost; and what is scheduled is one drain, in the loop or under way.
pub record IsAwake (m : Machine) : Type 0 where
  pub one : m.transport.read_commands + active m.drain ≡ due m.transport.read_events_scheduled
  pub waiting :
      (m.transport.pending_read_events ≡ []) × (m.transport.read_event_drain ≡ [])
      ⊎ ((m.transport.read_events_scheduled ≡ true)
          ⊎ ((1 ≤ m.unscheduled) ⊎ (m.transport.flags.lost_called ≡ true)))
  pub rest :
      (m.transport.read_event_drain ≡ [])
      ⊎ ((active m.drain ≡ 1) ⊎ (m.transport.flags.lost_called ≡ true))

-- The answers and the loop let every step return.
abbrev pub Returns : Act → Type 0
Returns (pushes event) = Unit {0}
Returns backpressures = Unit {0}
Returns (schedules sends) = sends ≡ true
Returns (starts fast_path) = Unit {0}
Returns (drains a) = (a.writing_returns ≡ true) × (a.sends ≡ true)

-- What an insertion leaves as it is.
pub record IsPushed (r : ReadEvents) (p : Bool × ReadEvents) : Type 0 where
  scheduled : p.1.read_events_scheduled ≡ r.read_events_scheduled
  commands : p.1.read_commands ≡ r.read_commands
  flags : p.1.flags ≡ r.flags
  drained : p.1.read_event_drain ≡ r.read_event_drain
  queue : (p.0 ≡ true) ⊎ (p.1.pending_read_events ≡ r.pending_read_events)

push_event-IsPushed :
    (event : PendingReadEvent) (o : Option ℕ) (r : ReadEvents) → IsPushed r (push_event event o r)
push_event-IsPushed event none r = record {
  scheduled = refl;
  commands = refl;
  flags = refl;
  drained = refl;
  queue = inr refl;
}
push_event-IsPushed event (some state) r = record {
  scheduled = refl;
  commands = refl;
  flags = refl;
  drained = refl;
  queue = inl refl;
}

IsPushed-if :
    {r : ReadEvents} {p q : Bool × ReadEvents} (c : Bool)
    → IsPushed r p
    → IsPushed r q
    → IsPushed r (if c then p else q)
IsPushed-if true h k = h
IsPushed-if false h k = k

pub enqueue-IsPushed :
    (event : PendingReadEvent) (r : ReadEvents) → IsPushed r (enqueue_pending_read_event event r)
unfolding enqueue_pending_read_event
enqueue-IsPushed event r = IsPushed-if r.detached (push_event-IsPushed event none r) (
    push_event-IsPushed event
      (transition_read_event_state r.read_event_state (read_event_kind event)) r)

pub pushed-IsAwake :
    (m : Machine) (p : Bool × ReadEvents)
    → IsAwake m
    → IsPushed m.transport p
    → IsAwake (pushed m p)
pushed-IsAwake m p v q = record {
  one = ground (arith, v.one, q.scheduled, q.commands);
  waiting = ground (arith, v.waiting, q.scheduled, q.flags, q.drained, q.queue);
  rest = ground (arith, v.rest, q.flags, q.drained);
}

pub schedule-IsAwake :
    (m : Machine)
    → IsAwake m
    → 1 ≤ m.unscheduled
    → IsAwake
        (record m { transport = schedule_read true m.transport; unscheduled = m.unscheduled - 1 })
unfolding schedule_read
schedule-IsAwake m v l = record {
  one = ground (arith, v.one);
  waiting = ground (arith, v.waiting);
  rest = ground (arith, v.rest);
}
