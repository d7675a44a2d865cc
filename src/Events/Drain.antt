-- ===== src/Events/Drain.antt =====
-- `drain_pending_read_events_with_py`, in the steps between which workers can run.
use rsloop.Common.{
  ℕ, suc, ◌%◌, ◌+◌, ◌-◌, Bool, true, false, ◌&&◌, ◌||◌, List, [], ◌∷◌, ◌++◌, Option, none, some,
  length, if◌then◌else◌, is_nil,
}
use rsloop.Events.{
  PendingReadEvent, incoming, eof, connection_lost, pause_writing, resume_writing, ReadFlags,
  ReadEvents, send_read, can_coalesce_read_data, read_drain_budget_reached, set_closing, show_if,
  record_pending_read_drained, max_pending_read_coalesce_bytes, max_read_events_per_drain,
  max_read_bytes_per_drain,
}

-- The calls of the protocol.
pub data Delivery : Type 0 where
  received : List ℕ → Delivery
  eof_received lost pauses resumes : Delivery

-- What `eof_received` answers: that the transport stays open, that it closes, or an exception.
pub data EofAnswer : Type 0 where
  keep_open closes raises : EofAnswer

-- What the protocol does when it is called: whether `data_received` returns, and whether it closes
-- the transport; what `eof_received` answers; whether `pause_writing` and `resume_writing` return, an
-- exception that the handler of the loop takes included. `sends` says whether the loop takes a
-- command.
pub record Answers : Type 0 where
  pub data_returns : Bool
  pub data_closes : Bool
  pub eof_answer : EofAnswer
  pub writing_returns : Bool
  pub sends : Bool

-- the variables of a drain
pub record DrainLocals : Type 0 where
  pub fast_path : Bool
  pub pending_data : Option (List ℕ)
  pub drained_events : ℕ
  pub drained_bytes : ℕ

-- Whether the drain goes on, has returned, or has raised.
pub data Status : Type 0 where
  running : DrainLocals → Status
  returned raised : Status

abbrev pub Step : Type 0
Step = List Delivery × Status × ReadEvents

-- the lock of the queue at the head of the loop
unfoldable pub take_queue : DrainLocals → ReadEvents → Step
take_queue d r =
    if is_nil r.pending_read_events
    then ([], returned, record r { read_events_scheduled = false })
    else (
      [],
      running d,
      record r {
        read_event_drain = r.pending_read_events;
        pending_read_events = r.read_event_drain;
      },
    )

-- the start of a drain, for which a command of the loop asks, with the first lock of the queue
unfoldable pub start_drain : Bool → ReadEvents → Step
start_drain fast_path r =
    let d : DrainLocals = record {
      fast_path = fast_path;
      pending_data = none;
      drained_events = 0;
      drained_bytes = 0;
    } in
    take_queue d (record r { read_commands = r.read_commands - 1 })

-- `is_closing_or_lost`
abbrev pub is_closing_or_lost : ReadFlags → Bool
is_closing_or_lost f = f.closing || f.lost_called

abbrev pub close_if : Bool → ReadEvents → ReadEvents
close_if now_closes r = if now_closes then record r { flags = set_closing r.flags } else r

-- `flush_pending_data_with_py`: whether it succeeds
unfoldable pub flush_pending_data :
    Answers → Option (List ℕ) → ReadEvents → Bool × List Delivery × ReadEvents
flush_pending_data a none r = (true, [], r)
flush_pending_data a (some bytes) r =
    if is_closing_or_lost r.flags
    then (true, [], r)
    else (a.data_returns, received bytes ∷ [], close_if a.data_closes r)

-- `connection_lost_with_py` as far as reading goes
unfoldable pub lose_connection : ReadEvents → List Delivery × ReadEvents
lose_connection r =
    if r.detached
    then ([], record r { flags = record r.flags { lost_called = true } })
    else if r.flags.lost_called
    then ([], r)
    else (lost ∷ [], record r { flags = record r.flags { lost_called = true; closing = true } })

-- the end of a drain on a failure or a lost connection
unfoldable pub end_lost : List Delivery → ReadEvents → Step
end_lost calls r =
    let (more, u) = lose_connection r in
    (calls ++ more, returned, record u { read_events_scheduled = false })

-- `reschedule_pending_read_events`
unfoldable pub reschedule_pending_read_events : Bool → ReadEvents → Bool × ReadEvents
reschedule_pending_read_events sends r =
    if is_nil r.read_event_drain && is_nil r.pending_read_events then (false, r) else (
      true,
      send_read sends (record r {
        pending_read_events = r.read_event_drain ++ r.pending_read_events;
        read_event_drain = [];
      }),
    )

-- the end of the arm for data: the budget, with the calls before
unfoldable pub check_budget : Answers → List Delivery → DrainLocals → ReadEvents → Step
check_budget a calls d r =
    let (again, u) = reschedule_pending_read_events a.sends r in
    let (ok, more, v) = flush_pending_data a d.pending_data u in
    if read_drain_budget_reached d.drained_events d.drained_bytes max_read_events_per_drain
        max_read_bytes_per_drain
      && again
    then (calls ++ more, if ok then returned else raised, v)
    else (calls, running d, r)

-- data behind what the drain has joined so far
unfoldable pub coalesce_with : Answers → DrainLocals → List ℕ → ReadEvents → Option (List ℕ) → Step
coalesce_with a d bytes r none = check_budget a [] (record d { pending_data = some bytes }) r
coalesce_with a d bytes r (some joined) =
    let (ok, calls, u) = flush_pending_data a (some joined) r in
    if can_coalesce_read_data (length joined) (length bytes) max_pending_read_coalesce_bytes
    then check_budget a [] (record d { pending_data = some (joined ++ bytes) }) r
    else if ok
    then check_budget a calls (record d { pending_data = some bytes }) u
    else end_lost calls u

unfoldable pub coalesce_data : Answers → DrainLocals → List ℕ → ReadEvents → Step
coalesce_data a d bytes r = coalesce_with a d bytes r d.pending_data

-- the arm for data; the flag that `record_pending_read_drained` stores after its lock is stored here at
-- once
unfoldable pub drain_data : Answers → DrainLocals → List ℕ → ReadEvents → Step
drain_data a d bytes r =
    let remaining = r.pending_read_bytes - length bytes in
    let (stored, flags) = record_pending_read_drained remaining r.flags in
    let count =
      (r.pending_read_bytes + (18446744073709551616 - length bytes)) % 18446744073709551616 in
    let u = record r { pending_read_bytes = count; flags = show_if stored flags } in
    let counted = record d {
      drained_events = suc d.drained_events;
      drained_bytes = d.drained_bytes + length bytes;
    } in
    if d.fast_path
    then if a.data_returns
      then check_budget a (received bytes ∷ []) counted (close_if a.data_closes u)
      else end_lost (received bytes ∷ []) (close_if a.data_closes u)
    else coalesce_data a counted bytes u

-- the arms for the end of the stream, for the loss and for the writing, behind their flush; the command
-- `Close` for the writer is left out
unfoldable pub eof_answered : List Delivery → DrainLocals → ReadEvents → EofAnswer → Step
eof_answered calls d r keep_open = (calls ++ eof_received ∷ [], running d, r)
eof_answered calls d r closes =
    end_lost (calls ++ eof_received ∷ []) (record r { flags = set_closing r.flags })
eof_answered calls d r raises = end_lost (calls ++ eof_received ∷ []) r

unfoldable pub drain_eof : Answers → List Delivery → DrainLocals → ReadEvents → Step
drain_eof a calls d r = eof_answered calls d r a.eof_answer

unfoldable pub drain_control :
    Answers → PendingReadEvent → List Delivery → DrainLocals → ReadEvents → Step
drain_control a (incoming bytes) calls d r = (calls, running d, r)
drain_control a eof calls d r = drain_eof a calls d r
drain_control a (connection_lost message) calls d r = end_lost calls r
drain_control a pause_writing calls d r =
    (calls ++ pauses ∷ [], if a.writing_returns then running d else raised, r)
drain_control a resume_writing calls d r =
    (calls ++ resumes ∷ [], if a.writing_returns then running d else raised, r)

-- an event that is not data: what is joined is delivered first
unfoldable pub flush_before : Answers → PendingReadEvent → DrainLocals → ReadEvents → Step
flush_before a event d r =
    let (ok, calls, u) = flush_pending_data a d.pending_data r in
    if ok
    then drain_control a event calls (record d { pending_data = none }) u
    else end_lost calls u

-- the match of the inner loop
unfoldable pub drain_event : Answers → PendingReadEvent → DrainLocals → ReadEvents → Step
drain_event a (incoming bytes) d r = drain_data a d bytes r
drain_event a eof d r = flush_before a eof d r
drain_event a (connection_lost message) d r = flush_before a (connection_lost message) d r
drain_event a pause_writing d r = flush_before a pause_writing d r
drain_event a resume_writing d r = flush_before a resume_writing d r

-- the flush behind the inner loop, and the head of the outer one
unfoldable pub end_pass : Answers → DrainLocals → ReadEvents → Step
end_pass a d r =
    let (ok, calls, u) = flush_pending_data a d.pending_data r in
    let (more, status, v) = take_queue (record d { pending_data = none }) u in
    if ok then (calls ++ more, status, v) else end_lost calls u

-- a step of the inner loop, or what follows the loop
unfoldable pub drain_step : Answers → DrainLocals → ReadEvents → Step
drain_step a d r = elim r.read_event_drain [
  | event ∷ rest ↦ drain_event a event d (record r { read_event_drain = rest })
  | [] ↦ end_pass a d r
]
