-- ===== src/Tests/Pools.antt =====
-- Examples for the pools and for staged bytes.
use rsloop.Common.{ℕ, suc, ◌≡◌, refl, true, false, List, [], ◌∷◌, ◌++◌, none, some, arith}
use rsloop.Bytes.{ByteVec, exact_alloc}
use rsloop.Pool.{
  PoolState, empty_pool, write_acquire, write_release, read_try_acquire, ReadPool, release,
  has_available,
}
use rsloop.Pool.Accounting.{
  IsWritePool, WriteHistory, fresh, acquires, releases, WriteHistory-Accounted,
}
use rsloop.Pool.Wake.{IsReadPool, release-wakes, IsReadAcquired, read_try_acquire-IsReadAcquired}
use rsloop.Staging.{
  OwnedWriteBuffer, remaining, try_append, stage_owned_buffer, pending_read, drop_pending,
}
use rsloop.Staging.Remaining.{IsWritable}
use rsloop.Staging.Append.{IsAppend, try_append-IsAppend}
use rsloop.Staging.Stage.{IsStaged, stage_owned_buffer-IsStaged}
use rsloop.Staging.Pending.{extend_all, concat, pending_read-extend_all}

abbrev small : ByteVec
small = record { items = 1 ∷ 2 ∷ []; capacity = 1024 }

abbrev stored : ByteVec
stored = record { items = []; capacity = 300 }

-- One vector is stored, two slots are out.
abbrev pool : PoolState
pool = record { buffers = stored ∷ []; allocated = 3 }

pool-IsWritePool : IsWritePool pool 2
pool-IsWritePool = record { count = refl; bounded = omega arith; clean = ((refl, refl), tt) }

abbrev after_acquire : PoolState
after_acquire = (write_acquire exact_alloc empty_pool 10).1

one_out : WriteHistory exact_alloc after_acquire 1
unfolding write_acquire
one_out = acquires empty_pool 0 10 fresh

WriteHistory-Accounted_example : IsWritePool (write_release after_acquire small) 0
WriteHistory-Accounted_example =
    WriteHistory-Accounted exact_alloc (write_release after_acquire small) 0
      (releases after_acquire 0 small one_out)

-- All four slots of a read pool are out.
abbrev exhausted_pool : ReadPool
exhausted_pool = record {
  state = record { buffers = []; allocated = 4 };
  closed = false;
  notifications = 0;
}

exhausted_pool-IsReadPool : IsReadPool exhausted_pool.state 4
exhausted_pool-IsReadPool = record { count = refl; bounded = omega arith; clean = tt }

release-wakes_example :
    IsReadPool (release exhausted_pool small).state 3
    × (has_available (release exhausted_pool small) ≡ true)
    × (has_available exhausted_pool ≡ false
        → (release exhausted_pool small).notifications ≡ suc exhausted_pool.notifications)
    × (has_available exhausted_pool ≡ true
        → (release exhausted_pool small).notifications ≡ exhausted_pool.notifications)
release-wakes_example = release-wakes exhausted_pool small 3 exhausted_pool-IsReadPool

read_try_acquire-IsReadAcquired_example :
    IsReadAcquired exact_alloc 4 100 exhausted_pool.state
      (read_try_acquire exact_alloc exhausted_pool.state 100)
read_try_acquire-IsReadAcquired_example =
    read_try_acquire-IsReadAcquired exact_alloc exhausted_pool.state 4 100 exhausted_pool-IsReadPool

abbrev sent_one : OwnedWriteBuffer
sent_one = record {
  bytes = record { items = []; capacity = 0 };
  python_bytes = some (7 ∷ 8 ∷ 9 ∷ []);
  offset = 1;
  pooled = false;
}

abbrev in_pool : OwnedWriteBuffer
in_pool = record { bytes = small; python_bytes = none; offset = 0; pooled = true }

sent_one-IsWritable : IsWritable sent_one
sent_one-IsWritable = record {
  exclusive = λ bytes e. (refl, refl, rw⁻¹ (same e) (omega arith));
  within = λ e. absurd (cc e);
}
  where
    same : {bytes : List ℕ} → some (7 ∷ 8 ∷ 9 ∷ []) ≡ some bytes → 7 ∷ 8 ∷ 9 ∷ [] ≡ bytes
    same e = cc e

in_pool-IsWritable : IsWritable in_pool
in_pool-IsWritable = record { exclusive = λ bytes e. absurd (cc e); within = λ e. omega arith }

try_append-IsAppend_example : IsAppend in_pool (3 ∷ []) (try_append exact_alloc in_pool (3 ∷ []))
try_append-IsAppend_example = try_append-IsAppend exact_alloc in_pool (3 ∷ []) in_pool-IsWritable

stage_owned_buffer-IsStaged_example :
    IsStaged 1
      (remaining sent_one ++ remaining in_pool)
      (stage_owned_buffer exact_alloc (some sent_one) in_pool pool)
stage_owned_buffer-IsStaged_example =
    stage_owned_buffer-IsStaged exact_alloc sent_one in_pool pool 1 sent_one-IsWritable
      in_pool-IsWritable pool-IsWritePool

pending_read-extend_all_example :
    let r =
      extend_all exact_alloc
        (pending_read small stored exhausted_pool)
        ((3 ∷ []) ∷ (4 ∷ []) ∷ []) in
    (r.bytes.items ≡ small.items ++ concat ((3 ∷ []) ∷ (4 ∷ []) ∷ []))
    × IsReadPool (drop_pending r).1.state 3
pending_read-extend_all_example =
    pending_read-extend_all exact_alloc small stored exhausted_pool ((3 ∷ []) ∷ (4 ∷ []) ∷ []) 3
      exhausted_pool-IsReadPool
