-- ===== src/Pool.antt =====
-- src/transport/stream/buffers.rs, the pools of vectors for reads and for writes that wait. Each
-- operation of a pool runs under its lock, so it is one step; `ReadPool` has what is beside the
-- lock, the closed flag and the wake-ups of the waiters, which it counts.
pub mod Accounting
pub mod Wake
use rsloop.Common.{
  ℕ, suc, ◌+◌, ◌-◌, ◌*◌, ◌/◌, Bool, true, false, not, ◌&&◌, ◌||◌, List, [], ◌∷◌, Option, none, some,
  length, is_nil, max, ltb, leb, if◌then◌else◌,
}
use rsloop.Bytes.{Alloc, ByteVec, clear, with_capacity, reserve}
use rsloop.ReadBuffer.{max_stream_read_buffer_size}
use rsloop.WriteBuffer.{default_write_buffer_high_water}

-- `READ_BUFFER_POOL_LIMIT`, `WRITE_BUFFER_POOL_LIMIT` and `MIN_WRITE_BUFFER_CAPACITY` of tuning.rs
abbrev pub read_buffer_pool_limit : ℕ
read_buffer_pool_limit = 4

abbrev pub write_buffer_pool_limit : ℕ
write_buffer_pool_limit = 5

abbrev pub min_write_buffer_capacity : ℕ
min_write_buffer_capacity = 256

pub data PoolAcquire : Type 0 where
  reuse allocate fallback unavailable : PoolAcquire

pub data PoolRelease : Type 0 where
  store discard : PoolRelease

-- `pool_acquire`
unfoldable pub pool_acquire : ℕ → ℕ → ℕ → Bool → PoolAcquire
pool_acquire available allocated limit allow_fallback =
    if ltb 0 available
    then reuse
    else if ltb allocated limit
    then allocate
    else if allow_fallback
    then fallback
    else unavailable

-- `pool_release`
unfoldable pub pool_release : Bool → ℕ → ℕ → PoolRelease
pool_release retain available limit = if retain && ltb available limit then store else discard

-- `retain_write_buffer` and `retain_read_buffer`
abbrev pub retain_write_buffer : ℕ → Bool
retain_write_buffer capacity = leb capacity default_write_buffer_high_water

abbrev pub retain_read_buffer : ℕ → Bool
retain_read_buffer capacity = leb capacity max_stream_read_buffer_size

-- `WriteBufferPoolState` and `ReadBufferPoolState`; the end of the vector of buffers, where they
-- are pushed and popped, is the front of the list.
pub record PoolState : Type 0 where
  pub buffers : List ByteVec
  pub allocated : ℕ

-- the `new` of both
abbrev pub empty_pool : PoolState
empty_pool = record { buffers = []; allocated = 0 }

-- What `WriteBufferPoolState::acquire` returns: the vector, whether it is pooled, the number of
-- allocations, and whether the pool was exhausted.
pub record Acquired : Type 0 where
  pub buffer : ByteVec
  pub pooled : Bool
  pub allocation_events : ℕ
  pub fell_back : Bool

-- the end of the two releases
unfoldable pub put_back : PoolState → ByteVec → PoolRelease → PoolState
put_back p b store = record p { buffers = clear b ∷ p.buffers }
put_back p b discard = record p { allocated = p.allocated - 1 }

-- `WriteBufferPoolState::release`
unfoldable pub write_release : PoolState → ByteVec → PoolState
unfolding pool_release put_back
write_release p b =
    put_back p b
      (pool_release (retain_write_buffer b.capacity) (length p.buffers) write_buffer_pool_limit)

-- `ReadBufferPoolState::release`
unfoldable pub read_release : PoolState → ByteVec → PoolState
unfolding pool_release put_back
read_release p b =
    put_back p b
      (pool_release (retain_read_buffer b.capacity) (length p.buffers) read_buffer_pool_limit)

module _ (a : Alloc) where
  -- the end of the two acquisitions
  pub fitted : ByteVec → ℕ → ByteVec × ℕ
  fitted b capacity =
      if ltb b.capacity capacity then (reserve a (clear b) capacity, 1) else (clear b, 0)

  -- `pop` of the buffers, which `reuse` says is there
  pub reused : List ByteVec → ByteVec × List ByteVec
  reused [] = (with_capacity a 0, [])
  reused (b ∷ bs) = (b, bs)

  unfoldable pub write_acquire_as : PoolState → ℕ → PoolAcquire → Acquired × PoolState
  unfolding fitted reused
  write_acquire_as p capacity reuse =
      let (b, rest) = reused p.buffers in
      let (buffer, events) = fitted b capacity in
      (
        record { buffer = buffer; pooled = true; allocation_events = events; fell_back = false },
        record p { buffers = rest },
      )
  write_acquire_as p capacity allocate =
      let (buffer, events) =
        fitted (with_capacity a (max capacity min_write_buffer_capacity)) capacity in
      (
        record {
          buffer = buffer;
          pooled = true;
          allocation_events = 1 + events;
          fell_back = false;
        },
        record p { allocated = suc p.allocated },
      )
  write_acquire_as p capacity fallback =
      let (buffer, events) = fitted (with_capacity a capacity) capacity in
      (record { buffer = buffer; pooled = false; allocation_events = events; fell_back = true }, p)
  write_acquire_as p capacity unavailable = (
    record { buffer = with_capacity a 0; pooled = false; allocation_events = 0; fell_back = true },
    p,
  )

  -- `WriteBufferPoolState::acquire`; its answer is never `unavailable`, where the source panics.
  unfoldable pub write_acquire : PoolState → ℕ → Acquired × PoolState
  unfolding write_acquire_as pool_acquire
  write_acquire p capacity =
      write_acquire_as p capacity
        (pool_acquire (length p.buffers) p.allocated write_buffer_pool_limit true)

  unfoldable pub read_acquire_as : PoolState → ℕ → PoolAcquire → Option ByteVec × ℕ × PoolState
  unfolding fitted reused
  read_acquire_as p capacity reuse =
      let (b, rest) = reused p.buffers in
      let (buffer, events) = fitted b capacity in (some buffer, events, record p { buffers = rest })
  read_acquire_as p capacity allocate =
      let (buffer, events) = fitted (with_capacity a capacity) capacity in
      (some buffer, 1 + events, record p { allocated = suc p.allocated })
  read_acquire_as p capacity fallback = (none, 0, p)
  read_acquire_as p capacity unavailable = (none, 0, p)

  -- `ReadBufferPoolState::try_acquire`; its answer is never `fallback`, where the source panics.
  unfoldable pub read_try_acquire : PoolState → ℕ → Option ByteVec × ℕ × PoolState
  unfolding read_acquire_as pool_acquire
  read_try_acquire p capacity =
      read_acquire_as p capacity
        (pool_acquire (length p.buffers) p.allocated read_buffer_pool_limit false)

-- `ReadBufferPool`: `notifications` counts the calls of `notify_all`.
pub record ReadPool : Type 0 where
  pub state : PoolState
  pub closed : Bool
  pub notifications : ℕ

-- `has_available`
unfoldable pub has_available : ReadPool → Bool
has_available p = not (is_nil p.state.buffers) || ltb p.state.allocated read_buffer_pool_limit

-- `notify_all`
unfoldable pub notify_all : ReadPool → ReadPool
notify_all p = record p { notifications = suc p.notifications }

-- `close`
unfoldable pub close : ReadPool → ReadPool
unfolding notify_all
close p = notify_all (record p { closed = true })

-- `release`
unfoldable pub release : ReadPool → ByteVec → ReadPool
unfolding notify_all
release p b =
    let was_exhausted = is_nil p.state.buffers && leb read_buffer_pool_limit p.state.allocated in
    let p' : ReadPool = record p { state = read_release p.state b } in
    if was_exhausted then notify_all p' else p'

-- the condition of `wait_async` under which it does not wait
unfoldable pub is_released : ReadPool → Bool
unfolding has_available
is_released p = p.closed || has_available p

-- `try_acquire`
unfoldable pub try_acquire : Alloc → ReadPool → ℕ → Option ByteVec × ReadPool
try_acquire a p capacity =
    let (buffer, events, state) = read_try_acquire a p.state capacity in
    (buffer, record p { state = state })
