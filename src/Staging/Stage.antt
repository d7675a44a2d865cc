-- ===== src/Staging/Stage.antt =====
-- Staging small writes in one buffer.
use rsloop.Common.{
  ℕ, suc, ◌+◌, ◌-◌, ◌≡◌, refl, sym, ap, ◌∙◌, subst, inl, inr, Bool, true, false, List, ◌++◌, none,
  some, length, arith, Bool-cases, Option-cases, if◌then◌else◌,
}
use rsloop.Bytes.{Alloc, ByteVec}
use rsloop.Pool.{
  PoolState, write_acquire, write_release, retain_write_buffer, write_buffer_pool_limit,
}
use rsloop.Pool.Accounting.{IsWritePool, write_acquire-IsAcquired, put_back-Accounted}
use rsloop.Staging.{
  OwnedWriteBuffer, remaining, appended, copied, extend_pooled, stage_owned_buffer,
  drop_write_buffer,
}
use rsloop.Staging.Remaining.{IsWritable, slots, appended_lem, copied_lem}

-- `w` is to be sent as `bytes`, and beside its slots `n` slots of the pool are out.
pub record IsStaged (n : ℕ) (bytes : List ℕ) (r : OwnedWriteBuffer × PoolState) : Type 0 where
  pub writable : IsWritable r.0
  pub sends : remaining r.0 ≡ bytes
  pub accounted : IsWritePool r.1 (n + slots r.0)

drop-IsWritePool :
    (w : OwnedWriteBuffer) (p : PoolState) (n : ℕ)
    → IsWritePool p (n + slots w)
    → IsWritePool (drop_write_buffer w p) n
unfolding drop_write_buffer write_release
drop-IsWritePool w p n v = elim (Bool-cases w.pooled) [
  | inl e ↦ rw e (
      put_back-Accounted write_buffer_pool_limit retain_write_buffer p w.bytes n
        (subst (IsWritePool p) (omega arith) (rw e at v)))
  | inr e ↦ rw e (subst (IsWritePool p) (omega arith) (rw e at v))
]

count_slot : (b : Bool) (n : ℕ) → (if b then suc n else n) ≡ n + (if b then 1 else 0)
count_slot true n = omega arith
count_slot false n = omega arith

module _ (a : Alloc) where
  pub pooled_own :
      (w : OwnedWriteBuffer) (incoming : List ℕ) (p : PoolState)
      → w.python_bytes ≡ none
      → extend_pooled a w incoming p ≡ (appended a w incoming, p)
  unfolding extend_pooled
  pooled_own w incoming p e = ground arith

  pub pooled_python :
      (w : OwnedWriteBuffer) (old incoming : List ℕ) (p : PoolState)
      → w.python_bytes ≡ some old
      → let (r, p') = write_acquire a p (length old - w.offset + length incoming) in
        extend_pooled a w incoming p
        ≡ (appended a (copied a (record w { pooled = r.pooled }) old r.buffer) incoming, p')
  unfolding extend_pooled
  pooled_python w old incoming p e = rw e refl

  appended-slots :
      (w : OwnedWriteBuffer) (incoming : List ℕ) (p : PoolState) (n : ℕ)
      → IsWritePool p (n + slots w)
      → IsWritePool p (n + slots (appended a w incoming))
  unfolding appended
  appended-slots w incoming p n k = k

  pub pooled-remaining :
      (w : OwnedWriteBuffer) (b : Bool) → remaining (record w { pooled = b }) ≡ remaining w
  unfolding remaining
  pooled-remaining w b = refl

  copied-slots :
      (w : OwnedWriteBuffer) (b : Bool) (old incoming : List ℕ) (into : ByteVec)
      → slots (appended a (copied a (record w { pooled = b }) old into) incoming)
        ≡ (if b then 1 else 0)
  unfolding appended copied
  copied-slots w b old incoming into = refl

  extend_pooled-IsStaged :
      (w : OwnedWriteBuffer) (incoming : List ℕ) (p : PoolState) (n : ℕ)
      → IsWritable w
      → IsWritePool p (n + slots w)
      → IsStaged n (remaining w ++ incoming) (extend_pooled a w incoming p)
  extend_pooled-IsStaged w incoming p n v k = elim (Option-cases w.python_bytes) [
    | inl e ↦
        let l = appended_lem a w incoming e (v.within e) in
        subst (IsStaged n (remaining w ++ incoming)) (sym (pooled_own w incoming p e))
          (record { writable = l.0; sends = l.1; accounted = appended-slots w incoming p n k })
    | inr (old, e) ↦
        let needed = length old - w.offset + length incoming in
        let no_slot : slots w ≡ 0 = rw (v.exclusive old e).1 refl in
        let q =
          write_acquire-IsAcquired a p n needed
            (subst (IsWritePool p) (omega (arith, no_slot)) k) in
        let r = (write_acquire a p needed).0 in
        let w' : OwnedWriteBuffer = record w { pooled = r.pooled } in
        let l = copied_lem a w' old incoming r.buffer e q.empty in
        subst (IsStaged n (remaining w ++ incoming)) (sym (pooled_python w old incoming p e))
          (record {
            writable = l.0;
            sends = l.1 ∙ ap (λ xs. xs ++ incoming) (pooled-remaining w r.pooled);
            accounted =
                subst (IsWritePool _)
                  (count_slot r.pooled n
                    ∙ ap (◌+◌ n) (sym (copied-slots w r.pooled old incoming r.buffer)))
                  q.accounted;
          })
  ]

  -- Staging a write behind another, both with an offset within their bytes, sends both in order;
  -- the buffer of the second one is dropped, and every slot of the pool that was accounted for is
  -- accounted for afterwards.
  pub stage_owned_buffer-IsStaged :
      (w incoming : OwnedWriteBuffer) (p : PoolState) (n : ℕ)
      → IsWritable w
      → IsWritable incoming
      → IsWritePool p (n + slots w + slots incoming)
      → IsStaged n (remaining w ++ remaining incoming) (stage_owned_buffer a (some w) incoming p)
  unfolding stage_owned_buffer
  stage_owned_buffer-IsStaged w incoming p n v u k =
      let s =
        extend_pooled-IsStaged w (remaining incoming) p (n + slots incoming) v
          (subst (IsWritePool p) (omega arith) k) in
      record {
        writable = s.writable;
        sends = s.sends;
        accounted = drop-IsWritePool incoming (extend_pooled a w (remaining incoming) p).1 _ (
            subst (IsWritePool (extend_pooled a w (remaining incoming) p).1) (omega arith)
              s.accounted);
      }
