-- ===== src/Events/Wakeups.antt =====
-- The ways in which a step of a drain can leave the wake-ups.
use rsloop.Common.{
  ℕ, suc, ◌≡◌, refl, arith, Bool, true, false, ◌&&◌, List, [], Option, none, some, if◌then◌else◌,
  is_nil,
}
use rsloop.Events.{PendingReadEvent, ReadEvents}
use rsloop.Events.Drain.{
  Delivery, Answers, DrainLocals, Status, running, returned, raised, Step, flush_pending_data,
  lose_connection, end_lost, reschedule_pending_read_events, close_if,
}

-- Nothing is scheduled or taken off.
pub record IsSame (scheduled : Bool) (commands : ℕ) (u : ReadEvents) : Type 0 where
  pub same_scheduled : u.read_events_scheduled ≡ scheduled
  pub same_commands : u.read_commands ≡ commands

-- How a step of a drain leaves the wake-ups: the drain goes on; it ends and there is a new command;
-- it ends with the connection lost, or with nothing queued, and the next event is scheduled again.
pub data IsTurn (scheduled : Bool) (commands : ℕ) : Step → Type 0 where
  goes_on :
      (calls : List Delivery) (e : DrainLocals) (u : ReadEvents)
      → IsSame scheduled commands u
      → IsTurn scheduled commands (calls, running e, u)
  again :
      (calls : List Delivery) (s : Status) (u : ReadEvents)
      → (ok : Bool) → s ≡ (if ok then returned else raised)
      → IsSame scheduled (suc commands) u
      → u.read_event_drain ≡ []
      → IsTurn scheduled commands (calls, s, u)
  over :
      (calls : List Delivery) (u : ReadEvents)
      → IsSame false commands u
      → u.flags.lost_called ≡ true
      → IsTurn scheduled commands (calls, returned, u)
  nothing_left :
      (calls : List Delivery) (u : ReadEvents)
      → IsSame false commands u
      → u.read_event_drain ≡ []
      → u.pending_read_events ≡ []
      → IsTurn scheduled commands (calls, returned, u)

pub nil_of : (xs : List PendingReadEvent) → is_nil xs ≡ true → xs ≡ []
nil_of xs h = ground arith

pub second : (x y : Bool) → (x && y) ≡ true → y ≡ true
second x y h = ground arith

pub flush_drained :
    (a : Answers) (p : Option (List ℕ)) (r : ReadEvents)
    → (flush_pending_data a p r).2.read_event_drain ≡ r.read_event_drain
unfolding flush_pending_data
flush_drained a none r = refl
flush_drained a (some bytes) r = ground arith

pub rescheduled_drained :
    (sends : Bool) (r : ReadEvents)
    → (reschedule_pending_read_events sends r).0 ≡ true
    → (reschedule_pending_read_events sends r).1.read_event_drain ≡ []
unfolding reschedule_pending_read_events
rescheduled_drained sends r h = ground arith

module _ {b : Bool} {n : ℕ} where
  pub IsTurn-if :
      {x y : Step} (c : Bool)
      → (c ≡ true → IsTurn b n x)
      → (c ≡ false → IsTurn b n y)
      → IsTurn b n (if c then x else y)
  IsTurn-if true f g = f refl
  IsTurn-if false f g = g refl

  pub rescheduled-IsSame :
      (sends : Bool) (r : ReadEvents)
      → (reschedule_pending_read_events sends r).0 ≡ true
      → sends ≡ true
      → IsSame b n r
      → IsSame b (suc n) (reschedule_pending_read_events sends r).1
  unfolding reschedule_pending_read_events
  rescheduled-IsSame sends r h w s = record {
    same_scheduled = ground (arith, s.same_scheduled);
    same_commands = ground (arith, s.same_commands);
  }

  pub flush-IsSame :
      (a : Answers) (p : Option (List ℕ)) (r : ReadEvents)
      → IsSame b n r
      → IsSame b n (flush_pending_data a p r).2
  unfolding flush_pending_data
  flush-IsSame a none r s = s
  flush-IsSame a (some bytes) r s = record {
    same_scheduled = ground (arith, s.same_scheduled);
    same_commands = ground (arith, s.same_commands);
  }

  pub closed : (c : Bool) (u : ReadEvents) → IsSame b n u → IsSame b n (close_if c u)
  closed true u s = record { same_scheduled = s.same_scheduled; same_commands = s.same_commands }
  closed false u s = s

  pub end_lost-IsTurn :
      (calls : List Delivery) (r : ReadEvents) → IsSame b n r → IsTurn b n (end_lost calls r)
  unfolding end_lost lose_connection
  end_lost-IsTurn calls r s =
      over _ _ (record { same_scheduled = refl; same_commands = ground (arith, s.same_commands) })
        (ground arith)
