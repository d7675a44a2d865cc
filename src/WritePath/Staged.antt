-- ===== src/WritePath/Staged.antt =====
-- A transport that writes directly, and the buffer in which it stages.
use rsloop.Common.{
  ℕ, ◌+◌, ◌-◌, ◌≡◌, refl, sym, ap, ◌∙◌, subst, true, false, List, [], ◌∷◌, ◌++◌, some, append-nil,
  Option-cases, inl, inr, All, length, max,
}
use rsloop.Bytes.{Alloc, with_capacity}
use rsloop.Pool.{
  PoolState, PoolAcquire, reused, min_write_buffer_capacity, write_acquire, write_acquire_as,
  allocate, fallback, reuse, unavailable,
}
use rsloop.Pool.Accounting.{fitted_lem}
use rsloop.Staging.{OwnedWriteBuffer, remaining, stage_owned_buffer}
use rsloop.Staging.Remaining.{IsWritable, appended_lem, copied_lem}
use rsloop.Staging.Stage.{pooled_own, pooled_python, pooled-remaining}
use rsloop.WriterQueue.Order.{Sendable}
use rsloop.WritePath.Wire.{Wire, queued, staged_bytes}
use rsloop.WritePath.Ordered.{Ordered}

-- A transport whose socket can be written directly, as far as nothing is staged.
pub record Direct (held acc : List ℕ) (x : Wire) : Type 0 where
  pub is_open : x.closing ≡ false
  pub here : x.present ≡ true
  pub unflagged : x.registered ≡ false
  pub nothing_held : held ≡ []
  pub nothing_queued : queued x.queue ≡ []
  pub all_there : x.out ++ staged_bytes x.pending ≡ acc
  pub sendable : All Sendable x.queue.commands
  pub writable : (w : OwnedWriteBuffer) → x.pending ≡ some w → IsWritable w × (x.scheduled ≡ true)

pub nil_parts : (xs ys : List ℕ) → xs ++ ys ≡ [] → (xs ≡ []) × (ys ≡ [])
nil_parts [] ys e = (refl, e)
nil_parts (x ∷ xs) ys e = absurd (cc e)

only_staged :
    (out held q s rest : List ℕ)
    → held ≡ []
    → q ≡ []
    → rest ≡ []
    → out ++ (held ++ (q ++ (s ++ rest))) ≡ out ++ s
only_staged out held q s rest n m r = rw (n, m, r, append-nil s) refl

pub Ordered-Direct :
    (held acc : List ℕ) (x : Wire)
    → Ordered held acc x
    → x.closing ≡ false
    → x.present ≡ true
    → x.registered ≡ false
    → Direct held acc x
Ordered-Direct held acc x o c p r =
    let n = nil_parts held (queued x.queue) (o.idle p r c) in
    let nothing_lost : o.rest ≡ [] = elim (o.whole c) [
      | inl e ↦ e
      | inr (d, f) ↦ absurd (cc (f p, r))
    ] in
    record {
      is_open = c;
      here = p;
      unflagged = r;
      nothing_held = n.0;
      nothing_queued = n.1;
      all_there =
          sym (
            only_staged x.out held (queued x.queue) (staged_bytes x.pending) o.rest n.0 n.1
              nothing_lost)
          ∙ o.bytes;
      sendable = o.sendable;
      writable = λ w e. ((o.stage w e).0, (o.stage w e).3);
    }

pub Direct-Ordered : (held acc : List ℕ) (x : Wire) → Direct held acc x → Ordered held acc x
Direct-Ordered held acc x d = record {
  rest = [];
  bytes =
      only_staged x.out held (queued x.queue) (staged_bytes x.pending) [] d.nothing_held
        d.nothing_queued refl
      ∙ d.all_there;
  sendable = d.sendable;
  idle = λ p r c. rw (d.nothing_held, d.nothing_queued) refl;
  stage = λ w e. (
    (d.writable w e).0,
    d.here,
    d.unflagged,
    (d.writable w e).1,
    rw (d.nothing_held, d.nothing_queued) refl,
  );
  whole = λ c. inl refl;
}

module _ (a : Alloc) where
  pub acquired_empty :
      (p : PoolState) (c : ℕ) (k : PoolAcquire) → (write_acquire_as a p c k).0.buffer.items ≡ []
  unfolding write_acquire_as
  acquired_empty p c reuse = (fitted_lem a (reused a p.buffers).0 c).0
  acquired_empty p c allocate =
      (fitted_lem a (with_capacity a (max c min_write_buffer_capacity)) c).0
  acquired_empty p c fallback = (fitted_lem a (with_capacity a c) c).0
  acquired_empty p c unavailable = refl

  -- Whatever is in the pool, a buffer that is staged behind another is sent behind it.
  pub stage_owned_buffer-sends :
      (w incoming : OwnedWriteBuffer) (p : PoolState)
      → IsWritable w
      → IsWritable incoming
      → let w' = (stage_owned_buffer a (some w) incoming p).0 in
        IsWritable w' × (remaining w' ≡ remaining w ++ remaining incoming)
  unfolding stage_owned_buffer write_acquire
  stage_owned_buffer-sends w incoming p v u =
      let goal : OwnedWriteBuffer × PoolState → Type 0 =
        λ r. IsWritable r.0 × (remaining r.0 ≡ remaining w ++ remaining incoming) in
      elim (Option-cases w.python_bytes) [
        | inl e ↦
            subst goal (sym (pooled_own a w (remaining incoming) p e))
              (appended_lem a w (remaining incoming) e (v.within e))
        | inr (old, e) ↦
            let needed = length old - w.offset + length (remaining incoming) in
            let r = (write_acquire a p needed).0 in
            let w' : OwnedWriteBuffer = record w { pooled = r.pooled } in
            let l =
              copied_lem a w' old (remaining incoming) r.buffer e (acquired_empty p needed _) in
            subst goal (sym (pooled_python a w old (remaining incoming) p e))
              (l.0, l.1 ∙ ap (λ xs. xs ++ remaining incoming) (pooled-remaining a w r.pooled))
      ]

pub same_some : {x y : OwnedWriteBuffer} → some x ≡ some y → x ≡ y
same_some e = cc e
