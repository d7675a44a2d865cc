-- ===== src/Staging/Append.antt =====
-- Appending to a write that is queued.
use rsloop.Common.{
  ℕ, ◌+◌, ◌≤◌, ◌<◌, ◌≡◌, refl, sym, subst, ◌⊎◌, inl, inr, Bool, true, false, List, ◌++◌, length,
  arith, Bool-cases,
}
use rsloop.Bytes.{Alloc}
use rsloop.Staging.{
  OwnedWriteBuffer, remaining, remaining_len, can_append, extend_write, try_append,
}
use rsloop.Staging.Remaining.{IsWritable, extend_write_lem}

-- What `try_append` comes to.
pub data IsAppend (w : OwnedWriteBuffer) (incoming : List ℕ)
    : Bool × OwnedWriteBuffer → Type 0 where
  taken :
      (w' : OwnedWriteBuffer)
      → w.offset ≡ 0
      → length (remaining w) + length incoming ≤ 65536
      → IsWritable w'
      → remaining w' ≡ remaining w ++ incoming
      → IsAppend w incoming (true, w')
  refused :
      (0 < w.offset) ⊎ (65536 < length (remaining w) + length incoming)
      → IsAppend w incoming (false, w)

can_append-true :
    (offset current incoming : ℕ)
    → can_append offset current incoming ≡ true
    → (offset ≡ 0) × (current + incoming ≤ 65536)
unfolding can_append
can_append-true offset current incoming e = (ground arith, ground arith)

can_append-false :
    (offset current incoming : ℕ)
    → can_append offset current incoming ≡ false
    → (0 < offset) ⊎ (65536 < current + incoming)
unfolding can_append
can_append-false offset current incoming e = ground arith

module _ (a : Alloc) where
  append_taken :
      (w : OwnedWriteBuffer) (incoming : List ℕ)
      → can_append w.offset (remaining_len w) (length incoming) ≡ true
      → try_append a w incoming ≡ (true, extend_write a w incoming)
  unfolding try_append
  append_taken w incoming e = rw e refl

  append_refused :
      (w : OwnedWriteBuffer) (incoming : List ℕ)
      → can_append w.offset (remaining_len w) (length incoming) ≡ false
      → try_append a w incoming ≡ (false, w)
  unfolding try_append
  append_refused w incoming e = rw e refl

  -- On a buffer whose offset is within its bytes, `try_append` takes all of the new bytes or none:
  -- it takes them exactly where nothing has been sent yet and the result is within the high-water
  -- mark, and then they stand behind the others.
  pub try_append-IsAppend :
      (w : OwnedWriteBuffer) (incoming : List ℕ)
      → IsWritable w
      → IsAppend w incoming (try_append a w incoming)
  unfolding remaining_len
  try_append-IsAppend w incoming v =
      elim (Bool-cases (can_append w.offset (remaining_len w) (length incoming))) [
        | inl e ↦
            let l = extend_write_lem a w incoming v in
            let c = can_append-true _ _ _ e in
            subst (IsAppend w incoming) (sym (append_taken w incoming e)) (taken _ c.0 c.1 l.0 l.1)
        | inr e ↦
            subst (IsAppend w incoming) (sym (append_refused w incoming e))
              (refused (can_append-false _ _ _ e))
      ]
