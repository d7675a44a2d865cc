-- ===== src/Pool/Accounting.antt =====
-- Slots that are checked out and vectors that are stored, over any history of a pool.
use rsloop.Common.{
  ℕ, suc, ◌+◌, ◌≤◌, ◌<◌, ◌≡◌, refl, sym, subst, ap, ◌∙◌, List-cases, ◌↔◌, inl, inr, Bool, true,
  false, not, List, [], ◌∷◌, length, All, ltb, max, arith, if◌then◌else◌, Bool-cases,
}
use native.Mathlib.Decide.{dec_lt}
use rsloop.Bytes.{Alloc, ByteVec, with_capacity}
use rsloop.Pool.{
  PoolState, allocate, fallback, Acquired, empty_pool, pool_acquire, pool_release, put_back,
  write_acquire, write_acquire_as, write_release, retain_write_buffer, write_buffer_pool_limit,
  fitted, reused, min_write_buffer_capacity,
}

-- With `out` slots checked out: every slot is either stored or out, there are no more than the
-- limit, and what is stored is empty and not oversized.
pub record Accounted (limit : ℕ) (keeps : ℕ → Bool) (p : PoolState) (out : ℕ) : Type 0 where
  pub count : p.allocated ≡ length p.buffers + out
  pub bounded : p.allocated ≤ limit
  pub clean : All (λ b. (b.items ≡ []) × (keeps b.capacity ≡ true)) p.buffers

module _ (limit : ℕ) (keeps : ℕ → Bool) where
  -- A slot that comes back is stored, or freed where its vector has outgrown the pool.
  pub put_back-Accounted :
      (p : PoolState) (b : ByteVec) (n : ℕ)
      → Accounted limit keeps p (suc n)
      → Accounted limit keeps
          (put_back p b (pool_release (keeps b.capacity) (length p.buffers) limit))
          n
  unfolding put_back pool_release
  put_back-Accounted p b n v = elim (Bool-cases (keeps b.capacity)) [
    | inl e ↦
        let room : ltb (length p.buffers) limit ≡ true = ground (arith, v.count, v.bounded) in
        rw (e, room)
          (record {
            count = ground (arith, v.count);
            bounded = v.bounded;
            clean = ((refl, e), v.clean);
          })
    | inr e ↦ rw e (record {
      count = omega (arith, v.count);
      bounded = omega (arith, v.bounded);
      clean = v.clean;
    })
  ]

abbrev pub IsWritePool : PoolState → ℕ → Type 0
IsWritePool = Accounted write_buffer_pool_limit retain_write_buffer

module _ (a : Alloc) where
  -- What `acquire` hands out is empty and has room for what was asked for.
  pub fitted_lem :
      (b : ByteVec) (c : ℕ)
      → ((fitted a b c).0.items ≡ [])
        × (c ≤ (fitted a b c).0.capacity)
        × ((fitted a b c).1 ≤ 1)
        × (c ≤ b.capacity → (fitted a b c).1 ≡ 0)
  unfolding fitted
  fitted_lem b c = ground (arith, a.room_enough b.capacity c)

  -- A write pool after any acquisitions, and releases of what it handed out: `n` of its slots are
  -- out.
  pub data WriteHistory : PoolState → ℕ → Type 0 where
    fresh : WriteHistory empty_pool 0
    acquires :
        (p : PoolState) (n c : ℕ)
        → WriteHistory p n
        → WriteHistory (write_acquire a p c).1 (if (write_acquire a p c).0.pooled then suc n else n)
    releases :
        (p : PoolState) (n : ℕ) (b : ByteVec)
        → WriteHistory p (suc n)
        → WriteHistory (write_release p b) n

  -- what an acquisition does, by what is stored and how many slots there are
  write_reuse :
      (p : PoolState) (c : ℕ) (b : ByteVec) (bs : List ByteVec)
      → p.buffers ≡ b ∷ bs
      → write_acquire a p c ≡ (
        record {
          buffer = (fitted a b c).0;
          pooled = true;
          allocation_events = (fitted a b c).1;
          fell_back = false;
        },
        record p { buffers = bs },
      )
  unfolding write_acquire write_acquire_as pool_acquire reused
  write_reuse p c b bs e = ground arith

  write_allocate :
      (p : PoolState) (c : ℕ)
      → p.buffers ≡ []
      → p.allocated < write_buffer_pool_limit
      → write_acquire a p c ≡ write_acquire_as a p c allocate
  unfolding write_acquire pool_acquire
  write_allocate p c e h = ground arith

  write_fallback :
      (p : PoolState) (c : ℕ)
      → p.buffers ≡ []
      → write_buffer_pool_limit ≤ p.allocated
      → write_acquire a p c ≡ write_acquire_as a p c fallback
  unfolding write_acquire pool_acquire
  write_fallback p c e h = ground arith

  -- What an acquisition of `c` bytes promises where `n` slots are out.
  pub record IsAcquired (n c : ℕ) (r : Acquired × PoolState) : Type 0 where
    pub accounted : IsWritePool r.1 (if r.0.pooled then suc n else n)
    pub empty : r.0.buffer.items ≡ []
    pub room : c ≤ r.0.buffer.capacity
    pub pooled_below : (r.0.pooled ≡ true) ↔ (n < write_buffer_pool_limit)
    pub fell_back_eq : r.0.fell_back ≡ not r.0.pooled
    pub one_allocation : r.0.allocation_events ≤ 1

  reuse-IsAcquired :
      (p : PoolState) (n c : ℕ) (b : ByteVec) (bs : List ByteVec)
      → IsWritePool p n
      → p.buffers ≡ b ∷ bs
      → IsAcquired n c (write_acquire a p c)
  reuse-IsAcquired p n c b bs v e =
      let f = fitted_lem b c in
      let k : p.allocated ≡ suc (length bs) + n = v.count ∙ ap (λ xs. length xs + n) e in
      subst (IsAcquired n c) (sym (write_reuse p c b bs e)) (record {
        accounted = record {
          count = omega (arith, k);
          bounded = v.bounded;
          clean = (rw e at v.clean).1;
        };
        empty = f.0;
        room = f.1;
        pooled_below = ((λ x. omega (arith, v.bounded)), (λ x. refl));
        fell_back_eq = refl;
        one_allocation = f.2;
      })

  allocate-IsAcquired :
      (p : PoolState) (n c : ℕ)
      → IsWritePool p n
      → p.buffers ≡ []
      → p.allocated < write_buffer_pool_limit
      → IsAcquired n c (write_acquire a p c)
  unfolding write_acquire_as
  allocate-IsAcquired p n c v e h =
      let b = with_capacity a (max c min_write_buffer_capacity) in
      let f = fitted_lem b c in
      let enough = a.room_enough 0 (max c min_write_buffer_capacity) in
      let k : p.allocated ≡ 0 + n = v.count ∙ ap (λ xs. length xs + n) e in
      subst (IsAcquired n c) (sym (write_allocate p c e h)) (record {
        accounted = record {
          count = rw e (omega (arith, k));
          bounded = omega arith;
          clean = rw e tt;
        };
        empty = f.0;
        room = f.1;
        pooled_below = ((λ x. omega (arith, k)), (λ x. refl));
        fell_back_eq = refl;
        one_allocation = omega (arith, f.3 (omega (arith, enough)));
      })

  fallback-IsAcquired :
      (p : PoolState) (n c : ℕ)
      → IsWritePool p n
      → p.buffers ≡ []
      → write_buffer_pool_limit ≤ p.allocated
      → IsAcquired n c (write_acquire a p c)
  unfolding write_acquire_as
  fallback-IsAcquired p n c v e h =
      let f = fitted_lem (with_capacity a c) c in
      let k : p.allocated ≡ 0 + n = v.count ∙ ap (λ xs. length xs + n) e in
      subst (IsAcquired n c) (sym (write_fallback p c e h)) (record {
        accounted = v;
        empty = f.0;
        room = f.1;
        pooled_below = ((λ x. absurd (cc x)), (λ x. absurd (omega (arith, k))));
        fell_back_eq = refl;
        one_allocation = f.2;
      })

  -- From a write pool that accounts for `n` slots as out, `acquire` hands out an empty vector with
  -- room for what was asked for, at the cost of one allocation at most; the vector takes a slot
  -- exactly while fewer than the limit are out, and is otherwise one that the pool does not track;
  -- and the slots stay accounted for.
  pub write_acquire-IsAcquired :
      (p : PoolState) (n c : ℕ) → IsWritePool p n → IsAcquired n c (write_acquire a p c)
  write_acquire-IsAcquired p n c v = elim (List-cases p.buffers) [
    | inr (b, bs, e) ↦ reuse-IsAcquired p n c b bs v e
    | inl e ↦ elim (dec_lt p.allocated write_buffer_pool_limit) [
      | yes h ↦ allocate-IsAcquired p n c v e h
      | no h ↦ fallback-IsAcquired p n c v e (omega arith)
    ]
  ]

  -- After any history of acquisitions and of releases of vectors that were handed out, each slot of
  -- a write pool is stored or out, the slots are at most five, and the stored vectors are empty and
  -- no larger than the high-water mark.
  pub WriteHistory-Accounted : (p : PoolState) (n : ℕ) → WriteHistory p n → IsWritePool p n
  unfolding write_release
  WriteHistory-Accounted _ _ fresh = record { count = refl; bounded = omega arith; clean = tt }
  WriteHistory-Accounted _ _ (acquires p n c h) =
      (write_acquire-IsAcquired p n c (WriteHistory-Accounted p n h)).accounted
  WriteHistory-Accounted _ _ (releases p n b h) =
      put_back-Accounted write_buffer_pool_limit retain_write_buffer p b n
        (WriteHistory-Accounted p (suc n) h)
