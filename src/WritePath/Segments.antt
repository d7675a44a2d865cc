-- ===== src/WritePath/Segments.antt =====
-- The segments of a write that are still to be sent, joined or one by one.
use rsloop.Common.{
  ℕ, zero, suc, ◌-◌, ◌≤◌, ◌≡◌, refl, sym, ap, ◌∙◌, subst, List, [], ◌∷◌, ◌++◌, append-nil,
  append_assoc, arith, Bool-cases, map, All, length, drop, drop-append, drop-nil, drop_all, inl,
  inr, min, leb, leb→le,
}
use rsloop.Bytes.{Alloc}
use rsloop.Pool.{PoolState, write_acquire}
use rsloop.Staging.{
  OwnedWriteBuffer, remaining, advance, from_python, with_pooled_capacity, extend_write,
}
use rsloop.Staging.Remaining.{IsWritable, advance_lem, extend_write_lem}
use rsloop.WriterQueue.{payload}
use rsloop.WriterQueue.Order.{Sendable, all_items}
use rsloop.WritePath.{Host}
use rsloop.WritePath.Writes.{joined_bytes, unsent_segments, join_segments}
use rsloop.WritePath.Wire.{if_elim, payload_bytes, payload_bytes-map, queued-first}
use rsloop.WritePath.Staged.{acquired_empty}

pub from_python_lem :
    (bytes : List ℕ) → IsWritable (from_python bytes) × (remaining (from_python bytes) ≡ bytes)
unfolding from_python remaining
from_python_lem bytes =
    (record { exclusive = λ xs e. (refl, refl, omega arith); within = λ e. absurd (cc e) }, refl)

drop_short : (n : ℕ) (xs ys : List ℕ) → length xs ≤ n → drop n (xs ++ ys) ≡ drop (n - length xs) ys
drop_short n [] ys h = ap (λ k. drop k ys) (omega arith)
drop_short zero (x ∷ xs) ys h = absurd (omega arith)
drop_short (suc n) (x ∷ xs) ys h =
    drop_short n xs ys (omega arith) ∙ ap (λ k. drop k ys) (omega arith)

drop_over :
    (n : ℕ) (xs ys : List ℕ)
    → drop n (xs ++ ys) ≡ drop (min n (length xs)) xs ++ drop (n - min n (length xs)) ys
drop_over n xs ys = elim (Bool-cases (leb n (length xs))) [
  | inl e ↦
      let m : min n (length xs) ≡ n = ground arith in
      let z : 0 ≡ n - min n (length xs) = omega arith in
      drop-append n xs ys (leb→le n (length xs) e)
      ∙ ap (λ k. drop k xs ++ ys) (sym m)
      ∙ ap (λ k. drop (min n (length xs)) xs ++ drop k ys) z
  | inr e ↦
      let m : min n (length xs) ≡ length xs = ground arith in
      drop_short n xs ys (ground arith)
      ∙ ap (λ k. drop (n - k) ys) (sym m)
      ∙ ap (λ zs. zs ++ drop (n - min n (length xs)) ys)
          (sym (drop_all (min n (length xs)) xs (omega arith)))
]

-- What the loop over the segments joins.
pub join_segments_lem :
    (h : Host) (n : ℕ) (segments : List (List ℕ)) (w : OwnedWriteBuffer)
    → IsWritable w
    → IsWritable (join_segments h n segments w)
      × (remaining (join_segments h n segments w) ≡ remaining w ++ drop n (joined_bytes segments))
join_segments_lem h n [] w v =
    (v, sym (ap (◌++◌ (remaining w)) (drop-nil n) ∙ append-nil (remaining w)))
join_segments_lem h n (s ∷ ss) w v =
    let skip = min n (length s) in
    let e = extend_write_lem h.alloc w (drop skip s) v in
    let r = join_segments_lem h (n - skip) ss (extend_write h.alloc w (drop skip s)) e.0 in
    (
      r.0,
      r.1
          ∙ ap (λ xs. xs ++ drop (n - skip) (joined_bytes ss)) e.1
          ∙ append_assoc (remaining w) (drop skip s) (drop (n - skip) (joined_bytes ss))
          ∙ ap (◌++◌ (remaining w)) (sym (drop_over n s (joined_bytes ss))),
    )

pub pooled_lem :
    (a : Alloc) (n : ℕ) (p : PoolState)
    → let w = (with_pooled_capacity a n p).0 in IsWritable w × (remaining w ≡ [])
unfolding with_pooled_capacity remaining write_acquire
pooled_lem a n p = (
  record { exclusive = λ xs e. absurd (cc e); within = λ e. omega arith },
  acquired_empty a p n _,
)

-- What the batch keeps of them.
pub unsent_segments_lem :
    (n : ℕ) (segments : List (List ℕ))
    → All Sendable (map payload (unsent_segments n segments))
      × (payload_bytes (all_items (map payload (unsent_segments n segments)))
          ≡ drop n (joined_bytes segments))
unsent_segments_lem n [] = (tt, sym (drop-nil n))
unsent_segments_lem n (s ∷ ss) =
    let goal : List OwnedWriteBuffer → Type 0 = λ ws.
      All Sendable (map payload ws)
      × (payload_bytes (all_items (map payload ws)) ≡ drop n (s ++ joined_bytes ss)) in
    if_elim goal (leb (length s) n) _ _
      (λ e.
        let r = unsent_segments_lem (n - length s) ss in
        (r.0, r.1 ∙ sym (drop_short n s (joined_bytes ss) (leb→le (length s) n e))))
      (λ e.
        let f = from_python_lem s in
        let le : n ≤ length s = ground (arith, e) in
        let l = advance_lem (from_python s) n f.0 (subst (λ xs. n ≤ length xs) (sym f.1) le) in
        let r = unsent_segments_lem 0 ss in
        let w = advance (from_python s) n in
        (
          (l.0, r.0),
          queued-first (payload w) (map payload (unsent_segments 0 ss))
              ∙ ap (λ xs. xs ++ payload_bytes (all_items (map payload (unsent_segments 0 ss))))
                  (payload_bytes-map (remaining w) ∙ l.1 ∙ ap (drop n) f.1)
              ∙ ap (◌++◌ (drop n s)) r.1
              ∙ sym (drop-append n s (joined_bytes ss) le),
        ))
