-- ===== src/Staging.antt =====
-- src/transport/stream/buffers.rs, `OwnedWriteBuffer` and `PendingReadBuffer`, and
-- `stage_owned_buffer` of src/transport/stream/core_write.rs: bytes on their way to the socket and
-- to the protocol. An operation that meets a pool returns the pool as it leaves it.
pub mod Remaining
pub mod Append
pub mod Stage
pub mod Pending
use rsloop.Common.{
  ℕ, ◌+◌, ◌-◌, ◌≤◌, Bool, true, false, ◌&&◌, List, [], ◌∷◌, ◌++◌, Option, none, some, length, drop,
  leb, ◌==◌, if◌then◌else◌, is_nil,
}
use rsloop.Bytes.{Alloc, ByteVec, clear, reserve, extend_from_slice}
use rsloop.WriteBuffer.{default_write_buffer_high_water}
use rsloop.Pool.{PoolState, Acquired, write_acquire, write_release, ReadPool, release}

-- `OwnedWriteBuffer`
pub record OwnedWriteBuffer : Type 0 where
  pub bytes : ByteVec
  pub python_bytes : Option (List ℕ)
  pub offset : ℕ
  pub pooled : Bool

abbrev pub no_bytes : ByteVec
no_bytes = record { items = []; capacity = 0 }

-- `from_python`
unfoldable pub from_python : List ℕ → OwnedWriteBuffer
from_python incoming = record {
  bytes = no_bytes;
  python_bytes = some incoming;
  offset = 0;
  pooled = false;
}

-- `remaining`, with an offset that is valid
unfoldable pub remaining : OwnedWriteBuffer → List ℕ
remaining w =
    drop w.offset (elim w.python_bytes [ none ↦ w.bytes.items | some incoming ↦ incoming ])

-- `len`
unfoldable pub remaining_len : OwnedWriteBuffer → ℕ
unfolding remaining
remaining_len w = length (remaining w)

-- `is_empty`
unfoldable pub is_sent : OwnedWriteBuffer → Bool
unfolding remaining
is_sent w = is_nil (remaining w)

-- `advance`
unfoldable pub advance : OwnedWriteBuffer → ℕ → OwnedWriteBuffer
advance w written = record w { offset = w.offset + written }

-- `can_append`
unfoldable pub can_append : ℕ → ℕ → ℕ → Bool
can_append offset current_len incoming_len =
    offset == 0
    && leb current_len default_write_buffer_high_water
    && leb incoming_len (default_write_buffer_high_water - current_len)

-- the `Drop` of a write buffer
unfoldable pub drop_write_buffer : OwnedWriteBuffer → PoolState → PoolState
drop_write_buffer w p = if w.pooled then write_release p w.bytes else p

module _ (a : Alloc) where
  -- `with_pooled_capacity`
  unfoldable pub with_pooled_capacity : ℕ → PoolState → OwnedWriteBuffer × PoolState
  with_pooled_capacity capacity p =
      let (r, p') = write_acquire a p capacity in
      (record { bytes = r.buffer; python_bytes = none; offset = 0; pooled = r.pooled }, p')

  -- the unsent bytes of Python, copied into the vector `into`
  pub copied : OwnedWriteBuffer → List ℕ → ByteVec → OwnedWriteBuffer
  copied w incoming into = record w {
    bytes = extend_from_slice a into (drop w.offset incoming);
    python_bytes = none;
    offset = 0;
  }

  -- the append behind the copy
  pub appended : OwnedWriteBuffer → List ℕ → OwnedWriteBuffer
  appended w incoming = record w { bytes = extend_from_slice a w.bytes incoming }

  -- `extend_from_slice`
  unfoldable pub extend_write : OwnedWriteBuffer → List ℕ → OwnedWriteBuffer
  unfolding copied appended
  extend_write w incoming = elim w.python_bytes [
    | none ↦ appended w incoming
    | some old ↦
        appended (copied w old (reserve a w.bytes (length old - w.offset + length incoming)))
          incoming
  ]

  -- `extend_from_slice_pooled`
  unfoldable pub extend_pooled :
      OwnedWriteBuffer → List ℕ → PoolState → OwnedWriteBuffer × PoolState
  unfolding copied appended
  extend_pooled w incoming p = elim w.python_bytes [
    | none ↦ (appended w incoming, p)
    | some old ↦
        let (r, p') = write_acquire a p (length old - w.offset + length incoming) in
        (appended (copied (record w { pooled = r.pooled }) old r.buffer) incoming, p')
  ]

  -- `try_append`
  unfoldable pub try_append : OwnedWriteBuffer → List ℕ → Bool × OwnedWriteBuffer
  unfolding remaining_len can_append
  try_append w incoming =
      if can_append w.offset (remaining_len w) (length incoming)
      then (true, extend_write w incoming)
      else (false, w)

  -- `stage_owned_buffer`; a buffer whose bytes were copied is dropped.
  unfoldable pub stage_owned_buffer :
      Option OwnedWriteBuffer → OwnedWriteBuffer → PoolState → OwnedWriteBuffer × PoolState
  unfolding drop_write_buffer
  stage_owned_buffer none incoming p = (incoming, p)
  stage_owned_buffer (some w) incoming p =
      let (w', p') = extend_pooled w (remaining incoming) p in (w', drop_write_buffer incoming p')

-- `PendingReadBuffer` beside the buffer kept for joining, `home`, and the pool of its first chunk.
-- `from_pool` is whether it still holds that chunk.
pub record PendingReadBuffer : Type 0 where
  pub bytes : ByteVec
  pub home : ByteVec
  pub from_pool : Bool
  pub pool : ReadPool

-- `from_pooled`
unfoldable pub pending_read : ByteVec → ByteVec → ReadPool → PendingReadBuffer
pending_read bytes home pool = record { bytes = bytes; home = home; from_pool = true; pool = pool }

module _ (a : Alloc) where
  -- the first chunk moves to the joining buffer
  joined : PendingReadBuffer → PendingReadBuffer
  joined r = record {
    bytes = extend_from_slice a (clear r.home) r.bytes.items;
    home = no_bytes;
    from_pool = false;
    pool = release r.pool r.bytes;
  }

  -- `PendingReadBuffer::extend`
  unfoldable pub extend_pending : PendingReadBuffer → List ℕ → PendingReadBuffer
  unfolding joined
  extend_pending r incoming =
      let r' = if r.from_pool then joined r else r in
      record r' { bytes = extend_from_slice a r'.bytes incoming }

-- the `Drop` of a pending read whose joining buffer nobody else holds: the buffer that is kept and
-- the pool
unfoldable pub drop_pending : PendingReadBuffer → ByteVec × ReadPool
drop_pending r = if r.from_pool then (r.home, release r.pool r.bytes) else (clear r.bytes, r.pool)
