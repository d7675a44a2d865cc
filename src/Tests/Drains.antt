-- ===== src/Tests/Drains.antt =====
-- Examples for the read events of a transport.
use rsloop.Common.{◌≡◌, ◌++◌, refl, inl, inr, true, false, List, [], ◌∷◌, none, some}
use rsloop.Events.{
  PendingReadEvent, incoming, eof, connection_lost, pause_writing, ReadFlags, ReadEvents,
}
use rsloop.Events.Drain.{keep_open, Answers, DrainLocals, start_drain, take_queue}
use rsloop.Events.Items.{IsGood, IsOpen, call_items}
use rsloop.Events.Machine.{Machine, starts, drains, act}
use rsloop.Events.Insert.{IsAwake}
use rsloop.Events.Awake.{act-IsAwake}
use rsloop.Events.Gate.{IsReadSequence, let_in, let_in-IsReadSequence}
use rsloop.Events.Flow.{
  IsReading, FlowOp, pauses, resumes, closes, stores, drains, grows, FlowRun, flow_run, IsFlowing,
  Settles, flow_run-IsFlowing,
}
use rsloop.Events.Stream.{IsLive, Runs, nothing_yet, then_act, undelivered, Runs-order}

abbrev open_flags : ReadFlags
open_flags = record {
  read_paused = false;
  read_backpressured = false;
  closing = false;
  lost_called = false;
  reading = true;
  shown = true;
}

-- two events queued, and their drain scheduled
abbrev two_events : ReadEvents
two_events = record {
  detached = false;
  read_event_state = 1;
  pending_read_events = incoming (7 ∷ 8 ∷ []) ∷ eof ∷ [];
  read_event_drain = [];
  pending_read_bytes = 2;
  read_events_scheduled = true;
  read_commands = 1;
  flags = open_flags;
}

abbrev two_queued : Machine
two_queued = record { transport = two_events; drain = none; unscheduled = 0 }

abbrev calm : Answers
calm = record {
  data_returns = true;
  data_closes = false;
  eof_answer = keep_open;
  writing_returns = true;
  sends = true;
}

calm-IsGood : IsGood calm
calm-IsGood = record {
  data_returns = refl;
  data_closes = refl;
  eof_answer = refl;
  writing_returns = refl;
}

two_events-IsOpen : IsOpen two_events
two_events-IsOpen = record { attached = refl; not_closing = refl; not_lost = refl }

two_queued-IsLive : IsLive two_queued
two_queued-IsLive = record { is_open = two_events-IsOpen; split = refl }

abbrev under_way : Machine
under_way = (act (starts false) two_queued).1

under_way-IsLive : IsLive under_way
unfolding act start_drain take_queue
under_way-IsLive = record {
  is_open = record { attached = refl; not_closing = refl; not_lost = refl };
  split = λ e. refl;
}

two_steps :
    Runs two_queued
      (([] ++ []) ++ [])
      (([] ++ (act (starts false) two_queued).0) ++ (act (drains calm) under_way).0)
      (act (drains calm) under_way).1
two_steps =
    then_act _ _ under_way (drains calm)
      (then_act [] [] two_queued (starts false) nothing_yet two_queued-IsLive tt) under_way-IsLive
      calm-IsGood

Runs-order_example :
    call_items (([] ++ (act (starts false) two_queued).0) ++ (act (drains calm) under_way).0)
      ++ undelivered (act (drains calm) under_way).1
    ≡ undelivered two_queued ++ []
Runs-order_example = Runs-order two_steps

abbrev joined_three : DrainLocals
joined_three = record {
  fast_path = false;
  pending_data = some (1 ∷ 2 ∷ 3 ∷ []);
  drained_events = 15;
  drained_bytes = 3;
}

two_queued-IsAwake : IsAwake two_queued
two_queued-IsAwake = record { one = refl; waiting = inr (inl refl); rest = inl refl }

act-IsAwake_example : IsAwake (act (starts true) two_queued).1
act-IsAwake_example = act-IsAwake (starts true) two_queued tt two_queued-IsAwake

abbrev offered : List PendingReadEvent
offered =
    incoming (1 ∷ []) ∷ eof ∷ incoming (2 ∷ []) ∷ pause_writing ∷ connection_lost none ∷ eof ∷ []

abbrev fresh : ReadEvents
fresh = record two_events { read_event_state = 0; pending_read_events = [] }

let_in-IsReadSequence_example : IsReadSequence (let_in offered fresh)
let_in-IsReadSequence_example = let_in-IsReadSequence offered fresh refl

open_flags-IsReading : IsReading open_flags
open_flags-IsReading = record { stopped = λ e. (refl, refl); going = λ c p b. refl }

abbrev flowing : FlowRun
flowing = record { flags = open_flags; store = none; raced = false }

abbrev pauses_and_closes : List FlowOp
pauses_and_closes =
    pauses ∷ grows 1048576 ∷ resumes ∷ stores ∷ drains 10 ∷ stores ∷ pauses ∷ closes ∷ resumes ∷ []

flow_run-IsFlowing_example :
    IsFlowing (flow_run flowing pauses_and_closes)
    × Settles open_flags (flow_run flowing pauses_and_closes).flags
flow_run-IsFlowing_example =
    flow_run-IsFlowing flowing pauses_and_closes
      (record { locked = open_flags-IsReading; visible = λ e. refl })
