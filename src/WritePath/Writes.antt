-- ===== src/WritePath/Writes.antt =====
-- src/transport/stream/core_write.rs: the three ways to write, and in front of them `write_data` and
-- `writelines` of src/transport/stream/py_transport.rs for bytes. A transport with a text encoding
-- calls Python to encode first. A worker can run between the reading of the flags and the rest.
use rsloop.Common.{
  ℕ, ◌+◌, ◌-◌, Bool, true, false, not, ◌&&◌, ◌||◌, List, [], ◌∷◌, ◌++◌, Option, none, some, length,
  take, drop, ltb, leb, ◌==◌, if◌then◌else◌, Result, ok, err, is_nil, min, ◌*◌, ◌*◌,
}
use rsloop.Pool.{PoolState}
use rsloop.Staging.{
  OwnedWriteBuffer, remaining, remaining_len, is_sent, advance, from_python, with_pooled_capacity,
  extend_write,
}
use rsloop.WriteBuffer.{is_write_batch_candidate, default_write_buffer_high_water}
use rsloop.WriterQueue.{send_batch}
use rsloop.WritePath.{
  IoError, not_writable, is_retried, Host, is_present, StreamTransport, Reply,
  set_write_backpressure_active,
}
use rsloop.WritePath.Direct.{
  record_write_buffer_enqueued, ensure_writer_worker, fail_write, try_direct_tasked_write,
  queue_write, after_send, stage_direct_write_buffer,
}

-- `should_coalesce_small_write`
unfoldable pub should_coalesce_small_write : ℕ → StreamTransport → Bool × StreamTransport
should_coalesce_small_write len t =
    let same_turn = t.small_write_turn == t.current_turn in
    let many : StreamTransport = record t {
      small_write_turn = t.current_turn;
      small_writes_this_turn = 2;
    } in
    let one : StreamTransport = record t {
      small_write_turn = t.current_turn;
      small_writes_this_turn = 1;
    } in
    if not t.coalesce_small_writes || not (is_write_batch_candidate len)
    then (false, t)
    else if same_turn
    then (true, many)
    else (ltb 1 t.small_writes_this_turn, one)

pub record WriteStatus : Type 0 where
  pub closing : Bool
  pub writable : Bool
  pub backpressure_active : Bool

-- `write_status`
unfoldable pub write_status : StreamTransport → WriteStatus
write_status t = record {
  closing = t.closing;
  writable = t.writable;
  backpressure_active = t.writer_registered;
}

-- the length of a list of segments, and their bytes
abbrev pub joined_bytes : List (List ℕ) → List ℕ
joined_bytes [] = []
joined_bytes (s ∷ ss) = s ++ joined_bytes ss

-- the buffers of a batch, without the `written` bytes that the socket has taken
abbrev pub unsent_segments : ℕ → List (List ℕ) → List OwnedWriteBuffer
unsent_segments written [] = []
unsent_segments written (s ∷ ss) =
    let rest = unsent_segments (written - length s) ss in
    let all = unsent_segments 0 ss in
    if leb (length s) written then rest else advance (from_python s) written ∷ all

abbrev pub total_len : List OwnedWriteBuffer → ℕ
total_len [] = 0
total_len (w ∷ ws) = remaining_len w + total_len ws

abbrev pub single_segment : List (List ℕ) → Option (List ℕ)
single_segment [] = none
single_segment (s ∷ []) = some s
single_segment (s ∷ r ∷ ss) = none

abbrev pub nonempty : List (List ℕ) → List (List ℕ)
nonempty [] = []
nonempty (s ∷ ss) = let rest = nonempty ss in if is_nil s then rest else s ∷ rest

module _ (h : Host) where
  -- the match on a direct write of `w`, of `try_write_bytes_with_status` and `try_write_buffer`
  abbrev pub written_direct : OwnedWriteBuffer → Result ℕ IoError × StreamTransport → Reply
  written_direct w (ok written, t) =
      if written == remaining_len w
      then (ok tt, t)
      else queue_write h (advance w written) (set_write_backpressure_active true t)
  written_direct w (err e, t) =
      if is_retried e
      then queue_write h w (set_write_backpressure_active true t)
      else (ok tt, fail_write h true (some e) t)

  -- a direct write of `w`, or its staging
  abbrev pub stage_or_write : OwnedWriteBuffer → Bool → StreamTransport → Reply
  stage_or_write w coalesce t =
      if t.direct_write_scheduled || coalesce
      then stage_direct_write_buffer h w t
      else written_direct w (try_direct_tasked_write h (remaining w) t)

  -- `try_write_bytes_with_status`
  unfoldable pub try_write_bytes_with_status : List ℕ → Bool → StreamTransport → Reply
  try_write_bytes_with_status bytes backpressure_active t =
      let (coalesce, t') = should_coalesce_small_write (length bytes) t in
      if is_present t.direct_writer && not backpressure_active
      then stage_or_write (from_python bytes) coalesce t'
      else queue_write h (from_python bytes) t

  -- `try_write_bytes`
  unfoldable pub try_write_bytes : List ℕ → StreamTransport → Reply
  unfolding try_write_bytes_with_status
  try_write_bytes bytes t = try_write_bytes_with_status bytes t.writer_registered t

  -- `try_write_buffer`
  unfoldable pub try_write_buffer : OwnedWriteBuffer → StreamTransport → Reply
  try_write_buffer w t =
      let coalesce = t.coalesce_small_writes && is_write_batch_candidate (remaining_len w) in
      if is_sent w
      then (ok tt, t)
      else if is_present t.direct_writer && not t.writer_registered
      then stage_or_write w coalesce t
      else queue_write h w t

  -- `try_direct_tasked_write_vectored`: a vectored write takes its slices as one run of bytes.
  unfoldable pub try_direct_tasked_write_vectored :
      List (List ℕ) → StreamTransport → Result ℕ IoError × StreamTransport
  unfolding try_direct_tasked_write
  try_direct_tasked_write_vectored slices t = try_direct_tasked_write h (joined_bytes slices) t

  abbrev pub batch_behind : List OwnedWriteBuffer → Result Bool IoError × StreamTransport → Reply
  batch_behind ws (ok should_pause, t) =
      let t' = ensure_writer_worker h (set_write_backpressure_active true t) in
      let (r, q) = send_batch t'.queue ws in
      (ok tt, after_send h should_pause (r, record t' { queue = q }))
  batch_behind ws (err e, t) = (err e, t)

  -- `queue_write_batch`
  unfoldable pub queue_write_batch : List OwnedWriteBuffer → StreamTransport → Reply
  queue_write_batch ws t = batch_behind ws (record_write_buffer_enqueued h (total_len ws) t)

  -- the loop of `try_write_segments` that joins what is unsent
  abbrev pub join_segments : ℕ → List (List ℕ) → OwnedWriteBuffer → OwnedWriteBuffer
  join_segments written [] w = w
  join_segments written (s ∷ ss) w =
      let skip = min written (length s) in
      join_segments (written - skip) ss (extend_write h.alloc w (drop skip s))

  abbrev pub join_into : ℕ → List (List ℕ) → StreamTransport → OwnedWriteBuffer × PoolState → Reply
  join_into written segments t (w, p) =
      try_write_buffer (join_segments written segments w) (record t { pool = p })

  -- `try_write_segments` once the socket has taken `written` bytes
  unfoldable pub write_unsent : ℕ → List (List ℕ) → StreamTransport → Reply
  unfolding queue_write_batch
  write_unsent written segments t =
      let unsent = length (joined_bytes segments) - written in
      if ltb default_write_buffer_high_water unsent
        && leb (length segments) 16
        && not t.direct_write_scheduled
      then queue_write_batch (unsent_segments written segments) t
      else join_into written segments t (with_pooled_capacity h.alloc unsent t.pool)

  -- the match of `try_write_segments` on its vectored write
  abbrev pub segments_direct : List (List ℕ) → Result ℕ IoError × StreamTransport → Reply
  segments_direct segments (ok count, t) =
      if count == length (joined_bytes segments)
      then (ok tt, t)
      else write_unsent count segments (set_write_backpressure_active true t)
  segments_direct segments (err e, t) =
      if is_retried e
      then write_unsent 0 segments (set_write_backpressure_active true t)
      else (ok tt, fail_write h true (some e) t)

  -- `try_write_segments` of two segments or more, with the flag of backpressure as it was read
  unfoldable pub write_many : List (List ℕ) → Bool → StreamTransport → Reply
  unfolding try_direct_tasked_write_vectored write_unsent
  write_many segments backpressure_active t =
      if ltb (16 * 1024) (length (joined_bytes segments))
        && is_present t.direct_writer
        && not backpressure_active
        && not t.direct_write_scheduled
      then segments_direct segments (try_direct_tasked_write_vectored (take 16 segments) t)
      else write_unsent 0 segments t

  -- `try_write_segments` behind its reading of that flag
  unfoldable pub try_write_segments : List (List ℕ) → Bool → StreamTransport → Reply
  unfolding write_many try_write_bytes_with_status
  try_write_segments segments backpressure_active t =
      if is_nil (joined_bytes segments) then (ok tt, t) else elim (single_segment segments) [
        | some s ↦ try_write_bytes_with_status s backpressure_active t
        | none ↦ write_many segments backpressure_active t
      ]

  -- `write_data` of bytes, behind its reading of the status
  unfoldable pub write_data : List ℕ → WriteStatus → StreamTransport → Reply
  unfolding try_write_bytes_with_status
  write_data bytes s t =
      if s.closing
      then (ok tt, t)
      else if not s.writable
      then (err not_writable, t)
      else try_write_bytes_with_status bytes s.backpressure_active t

  -- `writelines` of bytes, without the empty ones, behind its reading of the flags; a worker changes
  -- only the last of them, which is read last
  unfoldable pub writelines : List (List ℕ) → WriteStatus → StreamTransport → Reply
  unfolding try_write_segments
  writelines segments s t =
      if s.closing
      then (ok tt, t)
      else if not s.writable
      then (err not_writable, t)
      else try_write_segments (nonempty segments) s.backpressure_active t
