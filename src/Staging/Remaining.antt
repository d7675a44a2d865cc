-- ===== src/Staging/Remaining.antt =====
-- What is still to be sent, and what is still to be delivered.
use rsloop.Common.{
  ℕ, ◌+◌, ◌-◌, ◌≤◌, ◌≡◌, refl, sym, ap, ◌∙◌, subst, inl, inr, false, List, [], ◌++◌, none, some,
  length, drop, drop-drop, drop-append, arith, Option-cases, length-drop, length-append,
  if◌then◌else◌,
}
use rsloop.Bytes.{reserve, Alloc, ByteVec}
use rsloop.Staging.{copied, appended, OwnedWriteBuffer, remaining, advance, extend_write}

-- Bytes of Python leave the vector empty, and the offset is within the bytes.
pub record IsWritable (w : OwnedWriteBuffer) : Type 0 where
  pub exclusive :
      (incoming : List ℕ)
      → w.python_bytes ≡ some incoming
      → (w.bytes.items ≡ []) × (w.pooled ≡ false) × (w.offset ≤ length incoming)
  pub within : w.python_bytes ≡ none → w.offset ≤ length w.bytes.items

-- The slots of the pool that a buffer holds.
abbrev pub slots : OwnedWriteBuffer → ℕ
slots w = if w.pooled then 1 else 0

python_remaining :
    (w : OwnedWriteBuffer) (old : List ℕ)
    → w.python_bytes ≡ some old
    → remaining w ≡ drop w.offset old
unfolding remaining
python_remaining w old e = rw e refl

own_remaining :
    (w : OwnedWriteBuffer) → w.python_bytes ≡ none → remaining w ≡ drop w.offset w.bytes.items
unfolding remaining
own_remaining w e = rw e refl

own-IsWritable :
    (w : OwnedWriteBuffer) → w.python_bytes ≡ none → w.offset ≤ length w.bytes.items → IsWritable w
own-IsWritable w e h = record { exclusive = λ old x. absurd (cc (e, x)); within = λ x. h }

module _ (a : Alloc) where
  pub appended_lem :
      (w : OwnedWriteBuffer) (incoming : List ℕ)
      → w.python_bytes ≡ none
      → w.offset ≤ length w.bytes.items
      → IsWritable (appended a w incoming)
        × (remaining (appended a w incoming) ≡ remaining w ++ incoming)
  unfolding appended
  appended_lem w incoming e h = (
    own-IsWritable (appended a w incoming) e
        (omega (arith, h, length-append w.bytes.items incoming)),
    own_remaining (appended a w incoming) e
        ∙ drop-append w.offset w.bytes.items incoming h
        ∙ ap (λ xs. xs ++ incoming) (sym (own_remaining w e)),
  )

  -- Copying Python's bytes to an empty vector and appending keeps what is to be sent.
  pub copied_lem :
      (w : OwnedWriteBuffer) (old incoming : List ℕ) (into : ByteVec)
      → w.python_bytes ≡ some old
      → into.items ≡ []
      → let w' = appended a (copied a w old into) incoming in
        IsWritable w' × (remaining w' ≡ remaining w ++ incoming)
  unfolding copied
  copied_lem w old incoming into e x =
      let c = copied a w old into in
      let l = appended_lem c incoming refl (omega arith) in
      (
        l.0,
        l.1
            ∙ ap (λ xs. xs ++ incoming)
                (own_remaining c refl ∙ rw x refl ∙ sym (python_remaining w old e)),
      )

  extend_own :
      (w : OwnedWriteBuffer) (incoming : List ℕ)
      → w.python_bytes ≡ none
      → extend_write a w incoming ≡ appended a w incoming
  unfolding extend_write
  extend_own w incoming e = ground arith

  extend_python :
      (w : OwnedWriteBuffer) (old incoming : List ℕ)
      → w.python_bytes ≡ some old
      → extend_write a w incoming
        ≡ appended a
            (copied a w old (reserve a w.bytes (length old - w.offset + length incoming)))
            incoming
  unfolding extend_write
  extend_python w old incoming e = rw e refl

  reserved_empty : (b : ByteVec) (n : ℕ) → b.items ≡ [] → (reserve a b n).items ≡ []
  reserved_empty b n e = ground arith

  -- Appending keeps what is to be sent and puts the new bytes behind it, whichever storage the
  -- buffer has.
  pub extend_write_lem :
      (w : OwnedWriteBuffer) (incoming : List ℕ)
      → IsWritable w
      → IsWritable (extend_write a w incoming)
        × (remaining (extend_write a w incoming) ≡ remaining w ++ incoming)
  extend_write_lem w incoming v = elim (Option-cases w.python_bytes) [
    | inl e ↦
        subst (λ t. IsWritable t × (remaining t ≡ remaining w ++ incoming))
          (sym (extend_own w incoming e)) (appended_lem w incoming e (v.within e))
    | inr (old, e) ↦
        subst (λ t. IsWritable t × (remaining t ≡ remaining w ++ incoming))
          (sym (extend_python w old incoming e))
          (copied_lem w old incoming _ e (reserved_empty w.bytes _ (v.exclusive old e).0))
  ]

-- Of Python's bytes or of its own, what is sent is a prefix of what remains.
pub advance_lem :
    (w : OwnedWriteBuffer) (written : ℕ)
    → IsWritable w
    → written ≤ length (remaining w)
    → IsWritable (advance w written) × (remaining (advance w written) ≡ drop written (remaining w))
unfolding advance
advance_lem w written v h = elim (Option-cases w.python_bytes) [
  | inl e ↦
      let k : length (remaining w) ≡ length w.bytes.items - w.offset =
        ap length (own_remaining w e) ∙ length-drop w.offset w.bytes.items in
      (
        own-IsWritable (advance w written) e (omega (arith, k, v.within e)),
        own_remaining (advance w written) e
            ∙ ap (λ n. drop n w.bytes.items) (omega arith)
            ∙ sym (drop-drop written w.offset w.bytes.items)
            ∙ ap (drop written) (sym (own_remaining w e)),
      )
  | inr (old, e) ↦
      let k : length (remaining w) ≡ length old - w.offset =
        ap length (python_remaining w old e) ∙ length-drop w.offset old in
      (
        record {
          exclusive = λ old' x. (
            (v.exclusive old e).0,
            (v.exclusive old e).1,
            subst (λ xs. w.offset + written ≤ length xs) (same_some (sym e ∙ x))
                (omega (arith, k, (v.exclusive old e).2)),
          );
          within = λ x. absurd (cc (x, e));
        },
        python_remaining (advance w written) old e
            ∙ ap (λ n. drop n old) (omega arith)
            ∙ sym (drop-drop written w.offset old)
            ∙ ap (drop written) (sym (python_remaining w old e)),
      )
]
  where
    same_some : {x y : List ℕ} → some x ≡ some y → x ≡ y
    same_some e = cc e
