-- ===== src/ReadBuffer.antt =====
-- src/transport/stream/fast.rs, `ReadBuffer`: the sliding buffer of the stream reader, over the
-- `OwnedReadBuffer` of src/transport/stream/buffers.rs. Lengths are those of vectors, so the sums
-- `data.len() + self.len()` and `start * 2` do not wrap.
pub mod Unread
pub mod Model
pub mod Capacity
use rsloop.Common.{
  ℕ, ◌+◌, ◌-◌, ◌*◌, ◌≤◌, min, Bool, true, false, ◌&&◌, List, [], ◌++◌, Option, none, some, length,
  drop, is_nil, ltb, leb, ◌==◌, if◌then◌else◌,
}
use rsloop.Bytes.{
  Alloc, ByteVec, usize_max, saturating_add, clear, with_capacity, extend_from_slice, reserve,
}

-- `OwnedReadBuffer`: `pooled` says that dropping it returns the allocation to a read pool.
pub record OwnedReadBuffer : Type 0 where
  pub vec : ByteVec
  pub pooled : Bool

pub record ReadBuffer : Type 0 where
  pub bytes : OwnedReadBuffer
  pub start : ℕ
  pub baseline_capacity : ℕ
  pub max_retained_capacity : ℕ

-- `MAX_STREAM_READ_BUFFER_SIZE`
abbrev pub max_stream_read_buffer_size : ℕ
max_stream_read_buffer_size = 64 * 1024

abbrev pub items : ReadBuffer → List ℕ
items r = r.bytes.vec.items

unfoldable pub len : ReadBuffer → ℕ
len r = length (items r) - r.start

unfoldable pub is_empty : ReadBuffer → Bool
unfolding len
is_empty r = len r == 0

-- `&self.bytes[self.start..]`; `Unread.IsValid` rules out a start past the end.
unfoldable pub unread : ReadBuffer → List ℕ
unread r = drop r.start (items r)

module _ (a : Alloc) where
  -- `OwnedReadBuffer::with_capacity`
  pub owned_with_capacity : ℕ → OwnedReadBuffer
  owned_with_capacity n = record { vec = with_capacity a n; pooled = false }

  -- `ReadBuffer::with_capacity`
  unfoldable pub new : ℕ → ReadBuffer
  unfolding owned_with_capacity
  new capacity = record {
    bytes = owned_with_capacity capacity;
    start = 0;
    baseline_capacity = capacity;
    max_retained_capacity = max_stream_read_buffer_size;
  }

  -- the buffer that replaces one that is consumed to its end
  emptied : ReadBuffer → OwnedReadBuffer
  unfolding owned_with_capacity
  emptied r =
      if r.bytes.pooled
      then owned_with_capacity 0
      else if ltb r.max_retained_capacity r.bytes.vec.capacity
      then owned_with_capacity r.baseline_capacity
      else record { vec = clear r.bytes.vec; pooled = r.bytes.pooled }

  unfoldable pub compact_if_needed : ReadBuffer → ReadBuffer
  unfolding emptied
  compact_if_needed r =
      if r.start == 0
      then r
      else if r.start == length (items r)
      then record r { bytes = emptied r; start = 0 }
      else if leb 4096 r.start && leb (length (items r)) (r.start * 2)
      then record r {
        bytes = record {
          vec = record { items = unread r; capacity = r.bytes.vec.capacity };
          pooled = r.bytes.pooled;
        };
        start = 0;
      }
      else r

  -- `extend` past its early return: what a reserve and an append do to the vector
  append : ReadBuffer → List ℕ → ReadBuffer
  append r xs = record r {
    bytes = record { vec = extend_from_slice a r.bytes.vec xs; pooled = r.bytes.pooled };
  }

  unfoldable pub extend : ReadBuffer → List ℕ → ReadBuffer
  unfolding append
  extend r xs =
      if is_nil xs
      then r
      else if ltb (r.bytes.vec.capacity - length (items r)) (length xs)
      then append (compact_if_needed r) xs
      else append r xs

  -- The option is the buffer handed back to the caller, which drops it.
  unfoldable pub extend_owned : ReadBuffer → OwnedReadBuffer → Option OwnedReadBuffer × ReadBuffer
  extend_owned r xs =
      if is_nil xs.vec.items
      then (some xs, r)
      else if is_empty r
      then (some r.bytes, record r { bytes = xs; start = 0 })
      else (some xs, extend r xs.vec.items)

  unfoldable pub consume : ReadBuffer → ℕ → ReadBuffer
  consume r n =
      let moved : ReadBuffer = record r {
        start = min (saturating_add r.start n) (length (items r));
      } in
      if moved.start == length (items r) then compact_if_needed moved else moved

  unfoldable pub consume_all : ReadBuffer → ReadBuffer
  consume_all r = compact_if_needed (record r { start = length (items r) })

  unfoldable pub prepend : ReadBuffer → List ℕ → ReadBuffer
  unfolding owned_with_capacity
  prepend r xs = if is_nil xs then r else record r {
    bytes = record {
      vec =
          extend_from_slice a (extend_from_slice a (with_capacity a (length xs + len r)) xs)
            (unread r);
      pooled = false;
    };
    start = 0;
  }

  -- the setter of `_buffer`
  unfoldable pub replace : ReadBuffer → List ℕ → ReadBuffer
  replace r xs = record r {
    bytes = record { vec = extend_from_slice a (clear r.bytes.vec) xs; pooled = r.bytes.pooled };
    start = 0;
  }
