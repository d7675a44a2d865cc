-- ===== src/ReadBuffer/Unread.antt =====
-- `ReadBuffer` against the list of its unread bytes: every operation keeps the representation valid
-- and does to that list what its name says, compaction included.
use rsloop.Common.{
  ℕ, ◌+◌, ◌≤◌, ◌≡◌, refl, sym, ap, ◌∙◌, true, List, [], ◌∷◌, ◌++◌, arith, length, drop, is_nil,
  length-append, length-drop, drop-append, drop_all, drop-drop, append-nil, min,
}
use native.Mathlib.Decide.{dec_le}
use rsloop.Bytes.{
  Alloc, ByteVec, clear, with_capacity, extend_from_slice, usize_max, saturating_add,
  extend_from_slice-within,
}
use rsloop.ReadBuffer.{
  ReadBuffer, OwnedReadBuffer, items, len, unread, is_empty, new, compact_if_needed, extend,
  extend_owned, consume, consume_all, prepend, replace, emptied, append, owned_with_capacity,
}

-- The cursor lies within the vector, whose length is at most its capacity and fits a `usize`.
pub record IsValid (r : ReadBuffer) : Type 0 where
  pub start_in : r.start ≤ length (items r)
  pub within : length (items r) ≤ r.bytes.vec.capacity
  pub bounded : length (items r) ≤ usize_max

pub length-unread : (r : ReadBuffer) → length (unread r) ≡ len r
unfolding unread len
length-unread r = length-drop r.start (items r)

unread_end : (r : ReadBuffer) → unread (record r { start = length (items r) }) ≡ []
unfolding unread
unread_end r = drop_all _ (items r) (omega arith)

module _ (a : Alloc) where
  pub new-IsValid : (n : ℕ) → IsValid (new a n) × (unread (new a n) ≡ [])
  unfolding new unread
  new-IsValid n = (omega arith, refl)

  emptied-items : (r : ReadBuffer) → (emptied a r).vec.items ≡ []
  unfolding emptied owned_with_capacity
  emptied-items r = ground arith

  pub compact_if_needed-IsValid : (r : ReadBuffer) → IsValid r → IsValid (compact_if_needed a r)
  unfolding compact_if_needed unread
  compact_if_needed-IsValid r v =
      ground (arith, ap length (emptied-items r), length-drop r.start (items r))

  -- Compaction moves bytes and drops read ones, and leaves the unread ones as they are.
  pub unread-compact_if_needed :
      (r : ReadBuffer) → IsValid r → unread (compact_if_needed a r) ≡ unread r
  unfolding compact_if_needed unread
  unread-compact_if_needed r v = ground (arith, emptied-items r, drop_all r.start (items r))

  append-IsValid :
      (r : ReadBuffer) (xs : List ℕ)
      → IsValid r
      → length (items r) + length xs ≤ usize_max
      → IsValid (append a r xs) × (unread (append a r xs) ≡ unread r ++ xs)
  unfolding append unread
  append-IsValid r xs v h = (
    record {
      start_in = omega (arith, length-append (items r) xs);
      within = extend_from_slice-within a r.bytes.vec xs v.within;
      bounded = omega (arith, length-append (items r) xs);
    },
    drop-append r.start (items r) xs v.start_in,
  )

  length-items-compact_if_needed :
      (r : ReadBuffer) → length (items (compact_if_needed a r)) ≤ length (items r)
  unfolding compact_if_needed unread
  length-items-compact_if_needed r =
      ground (arith, ap length (emptied-items r), length-drop r.start (items r))

  pub extend_lem :
      (r : ReadBuffer) (xs : List ℕ)
      → IsValid r
      → length (items r) + length xs ≤ usize_max
      → IsValid (extend a r xs) × (unread (extend a r xs) ≡ unread r ++ xs)
  unfolding extend
  extend_lem r [] v h = (v, sym (append-nil (unread r)))
  extend_lem r (x ∷ xs) v h = ground (
    arith,
    append-IsValid r (x ∷ xs) v h,
    append-IsValid (compact_if_needed a r) (x ∷ xs) (compact_if_needed-IsValid r v),
    length-items-compact_if_needed r,
    unread-compact_if_needed r v,
  )

  pub unread_of_empty : (r : ReadBuffer) → is_empty r ≡ true → unread r ≡ []
  unfolding is_empty len unread
  unread_of_empty r e = drop_all r.start (items r) (ground arith)

  nil_of_is_nil : (xs : List ℕ) → is_nil xs ≡ true → xs ≡ []
  nil_of_is_nil [] e = refl
  nil_of_is_nil (x ∷ xs) e = cc

  unread_fresh :
      (r : ReadBuffer) (d : OwnedReadBuffer)
      → unread (record r { bytes = d; start = 0 }) ≡ d.vec.items
  unfolding unread
  unread_fresh r d = refl

  -- The vector that is handed over becomes the buffer where nothing is unread.
  pub extend_owned_lem :
      (r : ReadBuffer) (d : OwnedReadBuffer)
      → IsValid r
      → length d.vec.items ≤ d.vec.capacity
      → length (items r) + length d.vec.items ≤ usize_max
      → IsValid (extend_owned a r d).1 × (unread (extend_owned a r d).1 ≡ unread r ++ d.vec.items)
  unfolding extend_owned
  extend_owned_lem r d v w h = ground (
    arith,
    nil_of_is_nil d.vec.items,
    unread_of_empty r,
    unread_fresh r d,
    extend_lem r d.vec.items v h,
    append-nil (unread r),
  )

  moved-IsValid :
      (r : ReadBuffer) (k : ℕ) → IsValid r → k ≤ length (items r) → IsValid (record r { start = k })
  moved-IsValid r k v h = omega arith

  -- A count past the end reads to the end.
  unread_moved :
      (r : ReadBuffer) (n : ℕ)
      → IsValid r
      → unread (record r { start = min (saturating_add r.start n) (length (items r)) })
        ≡ drop n (unread r)
  unfolding unread
  unread_moved r n v = elim (dec_le (r.start + n) (length (items r))) [
    | yes p ↦ ap (λ j. drop j (items r)) (omega arith) ∙ sym (drop-drop n r.start (items r))
    | no p ↦
        drop_all _ (items r) (omega arith)
        ∙ sym (drop-drop n r.start (items r) ∙ drop_all _ (items r) (omega arith))
  ]

  pub consume_lem :
      (r : ReadBuffer) (n : ℕ)
      → IsValid r
      → IsValid (consume a r n) × (unread (consume a r n) ≡ drop n (unread r))
  unfolding consume
  consume_lem r n v =
      let k : ℕ = min (saturating_add r.start n) (length (items r)) in
      let w : IsValid (record r { start = k }) = moved-IsValid r k v (omega arith) in
      ground (
        arith,
        w,
        compact_if_needed-IsValid (record r { start = k }) w,
        unread-compact_if_needed (record r { start = k }) w,
        unread_moved r n v,
      )

  pub consume_all_lem :
      (r : ReadBuffer) → IsValid r → IsValid (consume_all a r) × (unread (consume_all a r) ≡ [])
  unfolding consume_all
  consume_all_lem r v =
      let moved : ReadBuffer = record r { start = length (items r) } in
      let w : IsValid moved = omega arith in
      (compact_if_needed-IsValid moved w, unread-compact_if_needed moved w ∙ unread_end r)

  pub prepend_lem :
      (r : ReadBuffer) (xs : List ℕ)
      → IsValid r
      → length xs + length (items r) ≤ usize_max
      → IsValid (prepend a r xs) × (unread (prepend a r xs) ≡ xs ++ unread r)
  unfolding prepend unread
  prepend_lem r [] v h = (v, refl)
  prepend_lem r (x ∷ xs) v h =
      let fresh : ByteVec = with_capacity a (length (x ∷ xs) + len r) in
      let first : ByteVec = extend_from_slice a fresh (x ∷ xs) in
      let fits = extend_from_slice-within a fresh (x ∷ xs) (omega arith) in
      (
        record {
          start_in = omega arith;
          within = extend_from_slice-within a first (unread r) fits;
          bounded = omega (arith, length-append (x ∷ xs) (unread r), length-drop r.start (items r));
        },
        refl,
      )

  pub replace_lem :
      (r : ReadBuffer) (xs : List ℕ)
      → length xs ≤ usize_max
      → IsValid (replace a r xs) × (unread (replace a r xs) ≡ xs)
  unfolding replace unread
  replace_lem r xs h = (
    record {
      start_in = omega arith;
      within = extend_from_slice-within a (clear r.bytes.vec) xs (omega arith);
      bounded = h;
    },
    refl,
  )

  pub length-items-prepend :
      (r : ReadBuffer) (xs : List ℕ)
      → length (items (prepend a r xs)) ≤ length xs + length (items r)
  unfolding prepend unread
  length-items-prepend r [] = omega arith
  length-items-prepend r (x ∷ xs) =
      omega (arith, length-append (x ∷ xs) (unread r), length-drop r.start (items r))
