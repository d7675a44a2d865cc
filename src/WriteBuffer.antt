-- ===== src/WriteBuffer.antt =====
-- src/transport/stream/core_write.rs, the accounting of buffered bytes against the water marks, with
-- `StreamWriteBufferState` of src/transport/stream/mod.rs and `normalize_write_buffer_limits` and
-- `set_write_buffer_limits` of src/transport/stream/core_state.rs. The state lock makes each of
-- these one step. Telling the protocol is outside the lock: a step returns the signal to send.
pub mod Limits
pub mod Signals
use rsloop.Common.{
  ℕ, ◌+◌, ◌-◌, ◌*◌, ◌≤◌, ◌<◌, ◌≡◌, Bool, true, false, not, ◌&&◌, ltb, leb, ◌==◌, if◌then◌else◌,
  Result, ok, err,
}

-- `StreamWriteBufferState`
pub record WriteBufferState : Type 0 where
  pub size : ℕ
  pub high_water : ℕ
  pub low_water : ℕ
  pub protocol_paused : Bool

pub data WriteBufferSignal : Type 0 where
  none pause resume : WriteBufferSignal

abbrev pub default_write_buffer_high_water : ℕ
default_write_buffer_high_water = 64 * 1024

abbrev pub default_write_buffer_low_water : ℕ
default_write_buffer_low_water = 16 * 1024

-- `StreamWriteBufferState::default`
pub initial : WriteBufferState
initial = record {
  size = 0;
  high_water = default_write_buffer_high_water;
  low_water = default_write_buffer_low_water;
  protocol_paused = false;
}

-- `enqueue_write_buffer`. The size cannot wrap: it stays within `cap`, a `usize`.
unfoldable pub enqueue_write_buffer :
    WriteBufferState → ℕ → ℕ → Result WriteBufferSignal (Unit {0}) × WriteBufferState
enqueue_write_buffer s len cap =
    if len == 0
    then (ok none, s)
    else if ltb (cap - s.size) len
    then (err tt, s)
    else if ltb s.high_water (s.size + len) && not s.protocol_paused
    then (ok pause, record s { size = s.size + len; protocol_paused = true })
    else (ok none, record s { size = s.size + len })

-- `drain_write_buffer`; `-` stops at 0, as `saturating_sub` does.
unfoldable pub drain_write_buffer : WriteBufferState → ℕ → WriteBufferSignal × WriteBufferState
drain_write_buffer s len =
    if s.protocol_paused && leb (s.size - len) s.low_water
    then (resume, record s { size = s.size - len; protocol_paused = false })
    else (none, record s { size = s.size - len })

-- `clear_write_buffer_state`
unfoldable pub clear_write_buffer_state :
    WriteBufferState → Bool → WriteBufferSignal × WriteBufferState
clear_write_buffer_state s resume_protocol = (
  if resume_protocol && s.protocol_paused then resume else none,
  record s { size = 0; protocol_paused = false },
)

-- `reconcile_write_buffer_limits`
unfoldable pub reconcile_write_buffer_limits :
    WriteBufferState → ℕ → ℕ → WriteBufferSignal × WriteBufferState
reconcile_write_buffer_limits s low_water high_water =
    let t : WriteBufferState = record s { low_water = low_water; high_water = high_water } in
    if ltb high_water s.size && not s.protocol_paused
    then (pause, record t { protocol_paused = true })
    else if s.protocol_paused && leb s.size low_water
    then (resume, record t { protocol_paused = false })
    else (none, t)

-- `is_write_batch_candidate`, with `SMALL_WRITE_COALESCE_MIN_BYTES` and `_MAX_BYTES`
unfoldable pub is_write_batch_candidate : ℕ → Bool
is_write_batch_candidate len = ltb 64 len && leb len (16 * 1024)

-- The invariant of the accounting under the capacity `cap`: the marks are in order, the size fits,
-- a paused protocol has more than the low mark buffered, and one that is not paused at most the
-- high mark.
pub record IsConsistent (cap : ℕ) (s : WriteBufferState) : Type 0 where
  pub ordered : s.low_water ≤ s.high_water
  pub capped : s.size ≤ cap
  pub paused_above : s.protocol_paused ≡ true → s.low_water < s.size
  pub running_below : s.protocol_paused ≡ false → s.size ≤ s.high_water
