-- ===== src/Pool/Wake.antt =====
-- The read pool, which never allocates past its limit: a task that finds it exhausted waits, and the
-- release that ends the exhaustion wakes it.
use native.Mathlib.Decide.{dec_lt}
use rsloop.Common.{
  ℕ, suc, ◌+◌, ◌≤◌, ◌<◌, ◌≡◌, refl, sym, subst, ap, ◌∙◌, inl, inr, true, false, List, [], ◌∷◌,
  Option, none, some, length, ltb, arith, if◌then◌else◌, List-cases,
}
use rsloop.Bytes.{Alloc, ByteVec, with_capacity}
use rsloop.Pool.{
  PoolState, allocate, pool_acquire, read_try_acquire, read_acquire_as, read_release,
  retain_read_buffer, read_buffer_pool_limit, fitted, reused, ReadPool, has_available, release,
}
use rsloop.Pool.Accounting.{Accounted, fitted_lem, put_back-Accounted}

abbrev pub IsReadPool : PoolState → ℕ → Type 0
IsReadPool = Accounted read_buffer_pool_limit retain_read_buffer

-- A task that looks at the pool need not wait exactly while fewer slots than the limit are out.
has_available_lem :
    (p : ReadPool) (n : ℕ) → IsReadPool p.state n → has_available p ≡ ltb n read_buffer_pool_limit
unfolding has_available
has_available_lem p n v = elim (List-cases p.state.buffers) [
  | inl e ↦
      let k : p.state.allocated ≡ 0 + n = v.count ∙ ap (λ xs. length xs + n) e in
      rw e (ap (λ z. ltb z read_buffer_pool_limit) (omega (arith, k)))
  | inr (b, bs, e) ↦
      let k : p.state.allocated ≡ suc (length bs) + n = v.count ∙ ap (λ xs. length xs + n) e in
      rw e (ground (arith, k, v.bounded))
]

release-state : (p : ReadPool) (b : ByteVec) → (release p b).state ≡ read_release p.state b
unfolding release
release-state p b = ground arith

-- the waiters are told exactly when the pool was exhausted
release-notifications :
    (p : ReadPool) (b : ByteVec)
    → (release p b).notifications
      ≡ (if has_available p then p.notifications else suc p.notifications)
unfolding release has_available
release-notifications p b = elim (List-cases p.state.buffers) [
  | inl e ↦ ground arith
  | inr (c, bs, e) ↦ ground arith
]

-- A release of one of the `n + 1` slots that a read pool accounts for as out leaves a slot for
-- whoever waits; it notifies the waiters when the pool was exhausted before, the only time at
-- which a task can have begun to wait, and only then; and the slots stay accounted for.
pub release-wakes :
    (p : ReadPool) (b : ByteVec) (n : ℕ)
    → IsReadPool p.state (suc n)
    → IsReadPool (release p b).state n
      × (has_available (release p b) ≡ true)
      × (has_available p ≡ false → (release p b).notifications ≡ suc p.notifications)
      × (has_available p ≡ true → (release p b).notifications ≡ p.notifications)
unfolding read_release
release-wakes p b n v =
    let w : IsReadPool (release p b).state n =
      subst (λ s. IsReadPool s n) (sym (release-state p b))
        (put_back-Accounted read_buffer_pool_limit retain_read_buffer p.state b n v) in
    (
      w,
      has_available_lem (release p b) n w ∙ ground (arith, v.count, v.bounded),
      λ e. release-notifications p b ∙ rw e refl,
      λ e. release-notifications p b ∙ rw e refl,
    )

module _ (a : Alloc) where
  read_reuse :
      (p : PoolState) (c : ℕ) (b : ByteVec) (bs : List ByteVec)
      → p.buffers ≡ b ∷ bs
      → read_try_acquire a p c
        ≡ (some (fitted a b c).0, (fitted a b c).1, record p { buffers = bs })
  unfolding read_try_acquire read_acquire_as pool_acquire reused
  read_reuse p c b bs e = ground arith

  read_allocate :
      (p : PoolState) (c : ℕ)
      → p.buffers ≡ []
      → p.allocated < read_buffer_pool_limit
      → read_try_acquire a p c ≡ read_acquire_as a p c allocate
  unfolding read_try_acquire pool_acquire
  read_allocate p c e h = ground arith

  read_unavailable :
      (p : PoolState) (c : ℕ)
      → p.buffers ≡ []
      → read_buffer_pool_limit ≤ p.allocated
      → read_try_acquire a p c ≡ (none, 0, p)
  unfolding read_try_acquire read_acquire_as pool_acquire
  read_unavailable p c e h = ground arith

  -- What an acquisition of `c` bytes promises where `n` slots are out.
  pub data IsReadAcquired (n c : ℕ) (p : PoolState) : Option ByteVec × ℕ × PoolState → Type 0 where
    handed_out :
        (b : ByteVec) (events : ℕ) (q : PoolState)
        → n < read_buffer_pool_limit
        → b.items ≡ []
        → c ≤ b.capacity
        → events ≤ 1
        → IsReadPool q (suc n)
        → IsReadAcquired n c p (some b, events, q)
    exhausted : n ≡ read_buffer_pool_limit → IsReadAcquired n c p (none, 0, p)

  -- While a read pool accounts for fewer than four slots as out, `try_acquire` hands out an empty
  -- vector with room for what was asked for, at the cost of one allocation at most, and one more
  -- slot is out; it refuses, and changes nothing, exactly when all four are.
  pub read_try_acquire-IsReadAcquired :
      (p : PoolState) (n c : ℕ) → IsReadPool p n → IsReadAcquired n c p (read_try_acquire a p c)
  unfolding read_acquire_as
  read_try_acquire-IsReadAcquired p n c v = elim (List-cases p.buffers) [
    | inr (b, bs, e) ↦
        let k : p.allocated ≡ suc (length bs) + n = v.count ∙ ap (λ xs. length xs + n) e in
        let f = fitted_lem a b c in
        subst (IsReadAcquired n c p) (sym (read_reuse p c b bs e)) (
          handed_out _ _ _ (omega (arith, v.bounded)) f.0 f.1 f.2
            (record { count = omega (arith, k); bounded = v.bounded; clean = (rw e at v.clean).1 }))
    | inl e ↦
        let k : p.allocated ≡ 0 + n = v.count ∙ ap (λ xs. length xs + n) e in
        elim (dec_lt p.allocated read_buffer_pool_limit) [
          | yes h ↦
              let f = fitted_lem a (with_capacity a c) c in
              subst (IsReadAcquired n c p) (sym (read_allocate p c e h)) (
                handed_out _ _ _ (omega (arith, k)) f.0 f.1 (omega (arith, f.3 (a.room_enough 0 c)))
                  (record {
                    count = rw e (omega (arith, k));
                    bounded = omega arith;
                    clean = rw e tt;
                  }))
          | no h ↦
              subst (IsReadAcquired n c p) (sym (read_unavailable p c e (omega arith)))
                (exhausted (omega (arith, k, v.bounded)))
        ]
  ]
