-- ===== src/Events.antt =====
-- The read events of a transport: src/transport/stream/core_events.rs with the flow control of
-- core_protocol.rs and core_state.rs. Workers put events into a queue and ask the loop for a drain;
-- the drain delivers them to the protocol. What happens under the lock of the queue, or under that
-- of the state, is one step, and so is each event of a drain, so that the steps of workers can stand
-- between those of a drain. What the protocol answers to a call is an argument; the bytes that a
-- drain joins are those of the buffer of src/transport/stream/buffers.rs.
pub mod Drain
pub mod Items
pub mod Budget
pub mod Order
pub mod Control
pub mod Deliver
pub mod Machine
pub mod Wakeups
pub mod Turn
pub mod Insert
pub mod Awake
pub mod Gate
pub mod Flow
pub mod Stream
use rsloop.Common.{
  ℕ, suc, ◌%◌, ◌+◌, ◌-◌, Bool, true, false, not, ◌&&◌, ◌||◌, List, [], ◌∷◌, ◌++◌, Option, none,
  some, length, leb, ltb, ◌==◌, if◌then◌else◌, is_nil,
}

-- `MAX_PENDING_READ_COALESCE_BYTES`, `MAX_READ_EVENTS_PER_DRAIN`, `MAX_READ_BYTES_PER_DRAIN`,
-- `PENDING_READ_HIGH_WATER`, `PENDING_READ_LOW_WATER`
abbrev pub max_pending_read_coalesce_bytes : ℕ
max_pending_read_coalesce_bytes = 262144

abbrev pub max_read_events_per_drain : ℕ
max_read_events_per_drain = 16

abbrev pub max_read_bytes_per_drain : ℕ
max_read_bytes_per_drain = 131072

abbrev pub pending_read_high_water : ℕ
pending_read_high_water = 1048576

abbrev pub pending_read_low_water : ℕ
pending_read_low_water = 262144

-- `PendingReadEvent`; a lost connection comes with a message.
pub data PendingReadEvent : Type 0 where
  incoming : List ℕ → PendingReadEvent
  eof : PendingReadEvent
  connection_lost : Option (List ℕ) → PendingReadEvent
  pause_writing resume_writing : PendingReadEvent

pub data ReadEventKind : Type 0 where
  incoming_kind eof_kind lost_kind pause_kind resume_kind : ReadEventKind

abbrev pub read_event_kind : PendingReadEvent → ReadEventKind
read_event_kind (incoming bytes) = incoming_kind
read_event_kind eof = eof_kind
read_event_kind (connection_lost message) = lost_kind
read_event_kind pause_writing = pause_kind
read_event_kind resume_writing = resume_kind

-- `READ_EVENT_OPEN`, `READ_EVENT_EOF`, `READ_EVENT_LOST`
abbrev pub read_event_open : ℕ
read_event_open = 0

abbrev pub read_event_eof : ℕ
read_event_eof = 1

abbrev pub read_event_lost : ℕ
read_event_lost = 2

unfoldable pub transition_read_event_state : ℕ → ReadEventKind → Option ℕ
transition_read_event_state state incoming_kind =
    if state == read_event_open then some read_event_open else none
transition_read_event_state state eof_kind =
    if state == read_event_open then some read_event_eof else none
transition_read_event_state state lost_kind =
    if not (state == read_event_lost) then some read_event_lost else none
transition_read_event_state state pause_kind =
    if not (state == read_event_lost) then some state else none
transition_read_event_state state resume_kind =
    if not (state == read_event_lost) then some state else none

unfoldable pub can_coalesce_read_data : ℕ → ℕ → ℕ → Bool
can_coalesce_read_data current incoming_len limit = leb incoming_len (limit - current)

unfoldable pub read_drain_budget_reached : ℕ → ℕ → ℕ → ℕ → Bool
read_drain_budget_reached drained_events drained_bytes event_budget byte_budget =
    leb event_budget drained_events || leb byte_budget drained_bytes

-- What a transport keeps of its reading: the fields of its state under their lock, and `shown`, the
-- flag that readers look at without the lock.
pub record ReadFlags : Type 0 where
  pub read_paused : Bool
  pub read_backpressured : Bool
  pub closing : Bool
  pub lost_called : Bool
  pub reading : Bool
  pub shown : Bool

unfoldable pub pause_reading : ReadFlags → ReadFlags
pause_reading f = record f { read_paused = true; reading = false; shown = false }

-- `resume_reading`: the step under the lock, and the flag that is stored after it
unfoldable pub resume_reading : ReadFlags → Bool × ReadFlags
resume_reading f =
    let reading = not f.read_backpressured && not f.closing in
    (reading, record f { read_paused = false; reading = reading })

-- the store after the lock of `resume_reading` and of `record_pending_read_drained`
unfoldable pub show_reading : Bool → ReadFlags → ReadFlags
show_reading reading f = record f { shown = reading }

unfoldable pub set_closing : ReadFlags → ReadFlags
set_closing f = record f { closing = true }

-- `apply_pending_read_backpressure`, with the pending bytes
unfoldable pub apply_pending_read_backpressure : ℕ → ReadFlags → ReadFlags
apply_pending_read_backpressure pending_read_bytes f =
    if ltb pending_read_bytes pending_read_high_water
    then f
    else if f.read_backpressured || f.closing
    then f
    else record f { read_backpressured = true; reading = false; shown = false }

-- `record_pending_read_drained` under the lock, with the bytes that remain pending; the flag that is
-- stored after it is the new `reading`, if there is a store.
unfoldable pub record_pending_read_drained : ℕ → ReadFlags → Option Bool × ReadFlags
record_pending_read_drained remaining f =
    let reading = not f.read_paused && not f.closing in
    if ltb pending_read_low_water remaining
    then (none, f)
    else if not f.read_backpressured
    then (none, f)
    else (some reading, record f { read_backpressured = false; reading = reading })

abbrev pub show_if : Option Bool → ReadFlags → ReadFlags
show_if none f = f
show_if (some reading) f = show_reading reading f

pub record ReadEvents : Type 0 where
  pub detached : Bool
  pub read_event_state : ℕ
  pub pending_read_events : List PendingReadEvent
  pub read_event_drain : List PendingReadEvent
  pub pending_read_bytes : ℕ
  pub read_events_scheduled : Bool
  pub read_commands : ℕ
  pub flags : ReadFlags

-- the commands `StreamRead` in the loop after one is sent; a closed loop takes none
abbrev pub send_read : Bool → ReadEvents → ReadEvents
send_read sends r = if sends then record r { read_commands = suc r.read_commands } else r

abbrev pub data_len : PendingReadEvent → ℕ
data_len (incoming bytes) = length bytes
data_len eof = 0
data_len (connection_lost message) = 0
data_len pause_writing = 0
data_len resume_writing = 0

-- the insertion of an event that is let in; the atomic counter wraps
abbrev pub push_event : PendingReadEvent → Option ℕ → ReadEvents → Bool × ReadEvents
push_event event none r = (false, r)
push_event event (some state) r = (
  true,
  record r {
    read_event_state = state;
    pending_read_events = r.pending_read_events ++ event ∷ [];
    pending_read_bytes = (r.pending_read_bytes + data_len event) % 18446744073709551616;
  },
)

-- `enqueue_pending_read_event` under the lock of the queue, and whether the event is let in
unfoldable pub enqueue_pending_read_event : PendingReadEvent → ReadEvents → Bool × ReadEvents
enqueue_pending_read_event event r =
    if r.detached
    then (false, r)
    else push_event event (transition_read_event_state r.read_event_state (read_event_kind event)) r

-- the backpressure of `enqueue_pending_read_event`, behind data
unfoldable pub backpressure_read : ReadEvents → ReadEvents
backpressure_read r = record r {
  flags = apply_pending_read_backpressure r.pending_read_bytes r.flags;
}

-- the wake-up at the end of `enqueue_pending_read_event`
unfoldable pub schedule_read : Bool → ReadEvents → ReadEvents
schedule_read sends r =
    if r.read_events_scheduled
    then r
    else if sends
    then record r { read_events_scheduled = true; read_commands = suc r.read_commands }
    else record r { read_events_scheduled = false }
