-- ===== src/Staging/Pending.antt =====
-- Read chunks that are joined before they are delivered.
use rsloop.Common.{
  ℕ, suc, ◌+◌, ◌≡◌, refl, sym, ap, ◌∙◌, subst, inl, inr, true, false, List, [], ◌∷◌, ◌++◌,
  append-nil, append_assoc, Bool-cases, if◌then◌else◌, arith,
}
use rsloop.Bytes.{Alloc, ByteVec}
use rsloop.Pool.{ReadPool, release}
use rsloop.Pool.Wake.{IsReadPool, release-wakes}
use rsloop.Staging.{PendingReadBuffer, pending_read, extend_pending, drop_pending, joined}

-- The slots of the pool that a pending read holds.
abbrev pub read_slots : PendingReadBuffer → ℕ
read_slots r = if r.from_pool then 1 else 0

abbrev pub concat : List (List ℕ) → List ℕ
concat [] = []
concat (c ∷ cs) = c ++ concat cs

one_slot : (r : PendingReadBuffer) (n : ℕ) → r.from_pool ≡ true → n + read_slots r ≡ suc n
one_slot r n e = rw e (omega arith)

no_slot : (r : PendingReadBuffer) (n : ℕ) → r.from_pool ≡ false → n + read_slots r ≡ n
no_slot r n e = rw e (omega arith)

given_back :
    (p : ReadPool) (b : ByteVec) (n : ℕ)
    → IsReadPool p.state (suc n)
    → IsReadPool (release p b).state n
given_back p b n v = (release-wakes p b n v).0

module _ (a : Alloc) where
  -- `extend` with each of the chunks
  pub extend_all : PendingReadBuffer → List (List ℕ) → PendingReadBuffer
  extend_all r [] = r
  extend_all r (c ∷ cs) = extend_all (extend_pending a r c) cs

  extend-items :
      (r : PendingReadBuffer) (c : List ℕ) → (extend_pending a r c).bytes.items ≡ r.bytes.items ++ c
  unfolding extend_pending joined
  extend-items r c = elim (Bool-cases r.from_pool) [ inl e ↦ rw e refl | inr e ↦ rw e refl ]

  extend-slots : (r : PendingReadBuffer) (c : List ℕ) → (extend_pending a r c).from_pool ≡ false
  unfolding extend_pending joined
  extend-slots r c = ground arith

  extend-pool :
      (r : PendingReadBuffer) (c : List ℕ) (n : ℕ)
      → IsReadPool r.pool.state (n + read_slots r)
      → IsReadPool (extend_pending a r c).pool.state n
  unfolding extend_pending joined
  extend-pool r c n v = elim (Bool-cases r.from_pool) [
    | inl e ↦
        rw e (given_back r.pool r.bytes n (subst (IsReadPool r.pool.state) (one_slot r n e) v))
    | inr e ↦ rw e (subst (IsReadPool r.pool.state) (no_slot r n e) v)
  ]

  extend_all_lem :
      (r : PendingReadBuffer) (cs : List (List ℕ)) (n : ℕ)
      → IsReadPool r.pool.state (n + read_slots r)
      → ((extend_all r cs).bytes.items ≡ r.bytes.items ++ concat cs)
        × IsReadPool (extend_all r cs).pool.state (n + read_slots (extend_all r cs))
  unfolding extend_all
  extend_all_lem r [] n v = (sym (append-nil r.bytes.items), v)
  extend_all_lem r (c ∷ cs) n v =
      let s = extend_pending a r c in
      let one : n ≡ n + read_slots s = rw (extend-slots r c) (omega arith) in
      let l = extend_all_lem s cs n (subst (IsReadPool s.pool.state) one (extend-pool r c n v)) in
      (
        l.0
            ∙ ap (λ xs. xs ++ concat cs) (extend-items r c)
            ∙ append_assoc r.bytes.items c (concat cs),
        l.1,
      )

drop-IsReadPool :
    (r : PendingReadBuffer) (n : ℕ)
    → IsReadPool r.pool.state (n + read_slots r)
    → IsReadPool (drop_pending r).1.state n
unfolding drop_pending
drop-IsReadPool r n v = elim (Bool-cases r.from_pool) [
  | inl e ↦ rw e (given_back r.pool r.bytes n (subst (IsReadPool r.pool.state) (one_slot r n e) v))
  | inr e ↦ rw e (subst (IsReadPool r.pool.state) (no_slot r n e) v)
]

-- A pending read that takes its first chunk from a read pool with `n + 1` slots out has the bytes
-- of its chunks, in order, however many there are; and once it is dropped its slot is back, so
-- that `n` slots are out.
pub pending_read-extend_all :
    (a : Alloc) (bytes home : ByteVec) (pool : ReadPool) (cs : List (List ℕ)) (n : ℕ)
    → IsReadPool pool.state (suc n)
    → let r = extend_all a (pending_read bytes home pool) cs in
      (r.bytes.items ≡ bytes.items ++ concat cs) × IsReadPool (drop_pending r).1.state n
unfolding pending_read
pending_read-extend_all a bytes home pool cs n v =
    let l =
      extend_all_lem a (pending_read bytes home pool) cs n
        (subst (IsReadPool pool.state) (omega arith) v) in
    (l.0, drop-IsReadPool _ n l.1)
