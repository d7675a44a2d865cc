-- ===== src/ReadBuffer/Capacity.antt =====
-- What `ReadBuffer` keeps allocated once its bytes are consumed.
use rsloop.Common.{◌≤◌, ◌<◌, ◌≡◌, false, max, length, arith}
use rsloop.Bytes.{Alloc}
use rsloop.ReadBuffer.{
  ReadBuffer, items, consume_all, compact_if_needed, emptied, owned_with_capacity,
}

-- Once a buffer that held bytes is consumed to the end, its slot is no longer the read pool's, and
-- the capacity it keeps is at most the retention limit, or what an allocation of the baseline or of
-- nothing gets.
pub consume_all-releases :
    (a : Alloc) (r : ReadBuffer)
    → 0 < length (items r)
    → ((consume_all a r).bytes.pooled ≡ false)
      × ((consume_all a r).start ≡ 0)
      × ((consume_all a r).bytes.vec.capacity
          ≤ max r.max_retained_capacity (max (a.room 0 r.baseline_capacity) (a.room 0 0)))
unfolding consume_all compact_if_needed emptied owned_with_capacity
consume_all-releases a r h = ground arith
