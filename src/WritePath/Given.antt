-- ===== src/WritePath/Given.antt =====
-- What the program hands over, in one piece or in many.
use rsloop.Common.{
  zero, length-append, ℕ, suc, ◌≤◌, ◌≡◌, refl, sym, ap, ◌∙◌, subst, true, false, not, ◌&&◌, List,
  [], ◌∷◌, ◌++◌, none, some, append-nil, append_assoc, arith, if◌then◌else◌, ok, err, Result,
  length, take, drop, take-append-drop, is_nil, ◌==◌, ==_iff, ltb, ◌*◌,
}
use rsloop.WritePath.{
  IoError, is_retried, Host, StreamTransport, Reply, is_present, set_write_backpressure_active,
}
use rsloop.WritePath.Direct.{try_direct_tasked_write}
use rsloop.WritePath.Writes.{
  write_status, try_write_bytes_with_status, joined_bytes, single_segment, nonempty,
  try_write_bytes_with_status, try_write_bytes, try_direct_tasked_write_vectored, write_unsent,
  segments_direct, write_many, try_write_segments, write_data, writelines,
}
use rsloop.WritePath.Wire.{if_true, if_false, if_elim, is_nil-nil, Wire, wire}
use rsloop.WritePath.Ordered.{Ordered, Writes}
use rsloop.WritePath.Started.{Queueable}
use rsloop.WritePath.Staged.{Ordered-Direct}
use rsloop.WritePath.Answered.{IsDirect, took, refused, Idle, wrote-IsDirect, unstaged}
use rsloop.WritePath.Written.{
  full-Ordered, part-Queueable, none-Queueable, failed-Ordered, flagged-wire,
}
use rsloop.WritePath.Program.{Queueable-Ordered, try_write_bytes-Ordered}
use rsloop.WritePath.Lines.{write_unsent-Ordered}

take_within : (n : ℕ) (xs ys : List ℕ) → n ≤ length xs → take n (xs ++ ys) ≡ take n xs
take_within zero xs ys h = refl
take_within (suc n) [] ys h = absurd (omega arith)
take_within (suc n) (x ∷ xs) ys h = ap (◌∷◌ x) (take_within n xs ys (omega arith))

joined_bytes-take :
    (n : ℕ) (segments : List (List ℕ))
    → joined_bytes (take n segments) ++ joined_bytes (drop n segments) ≡ joined_bytes segments
joined_bytes-take zero ss = refl
joined_bytes-take (suc n) [] = refl
joined_bytes-take (suc n) (s ∷ ss) =
    append_assoc s (joined_bytes (take n ss)) (joined_bytes (drop n ss))
    ∙ ap (◌++◌ s) (joined_bytes-take n ss)

joined_bytes-nonempty :
    (segments : List (List ℕ)) → joined_bytes (nonempty segments) ≡ joined_bytes segments
joined_bytes-nonempty [] = refl
joined_bytes-nonempty (s ∷ ss) =
    if_elim (λ (xs : List (List ℕ)). joined_bytes xs ≡ s ++ joined_bytes ss) (is_nil s) _ _
      (λ e. joined_bytes-nonempty ss ∙ ap (λ xs. xs ++ joined_bytes ss) (sym (is_nil-nil s e)))
      (λ e. ap (◌++◌ s) (joined_bytes-nonempty ss))

-- A write of a front of the bytes is a write of the bytes.
widen :
    (front more bytes : List ℕ) (x : Wire) (r : Result ℕ IoError × StreamTransport)
    → front ++ more ≡ bytes
    → IsDirect front x r
    → IsDirect bytes x r
widen front more bytes x _ e (took n u le same) =
    took n u (subst (λ xs. n ≤ length xs) e (omega (arith, le, length-append front more))) (
      same
      ∙ ap (λ xs. record x { out = x.out ++ xs })
          (sym (take_within n front more le) ∙ ap (take n) e))
widen front more bytes x _ e (refused y u same) = refused y u same

-- What a closing transport is given is dropped without an error.
abbrev pub given : StreamTransport → List ℕ → List ℕ
given t bytes = if t.closing then [] else bytes

module _ (h : Host) where
  flagged-Ordered :
      (held acc : List ℕ) (u : StreamTransport) (x : Wire)
      → wire u ≡ x
      → Queueable held acc (record x { registered = true })
      → Ordered held acc (wire (set_write_backpressure_active true u))
  flagged-Ordered held acc u x same q =
      subst (Ordered held acc) (sym (flagged-wire h u x same)) (Queueable-Ordered held acc _ q)

  flagged-closing :
      (u : StreamTransport) (x : Wire)
      → wire u ≡ x
      → x.closing ≡ false
      → (set_write_backpressure_active true u).closing ≡ false
  flagged-closing u x same c = ap Wire.closing (flagged-wire h u x same) ∙ c

  segments-Ordered :
      (segments : List (List ℕ)) (held acc : List ℕ) (x : Wire)
      (r : Result ℕ IoError × StreamTransport)
      → IsDirect (joined_bytes segments) x r
      → Idle held acc x
      → Writes held acc (joined_bytes segments) (segments_direct h segments r)
  segments-Ordered segments held acc x _ (took n u le same) i =
      let bytes = joined_bytes segments in
      let t = set_write_backpressure_active true u in
      if_elim (Writes held acc bytes) (n == length bytes) _ _
        (λ e z. full-Ordered h bytes held acc n x u i same ((==_iff n (length bytes)).0 e))
        (λ e z.
          subst (λ xs. Ordered held xs (wire (write_unsent h n segments t).1))
            (append_assoc acc (take n bytes) (drop n bytes)
              ∙ ap (◌++◌ acc) (take-append-drop n bytes))
            (write_unsent-Ordered h n segments held (acc ++ take n bytes) t
              (flagged-Ordered held (acc ++ take n bytes) u _ same
                (part-Queueable h bytes held acc n x i))
              (flagged-closing u _ same i.direct.is_open) z))
  segments-Ordered segments held acc x _ (refused e u same) i =
      if_elim (Writes held acc (joined_bytes segments)) (is_retried e) _ _
        (λ b.
          write_unsent-Ordered h 0 segments held acc (set_write_backpressure_active true u)
            (flagged-Ordered held acc u x same (none-Queueable h held acc x i))
            (flagged-closing u x same i.direct.is_open))
        (λ b z. failed-Ordered h (joined_bytes segments) held acc e x u i same)

  write_many-Ordered :
      (segments : List (List ℕ)) (held acc : List ℕ) (t : StreamTransport)
      → Ordered held acc (wire t)
      → t.closing ≡ false
      → Writes held acc (joined_bytes segments) (write_many h segments t.writer_registered t)
  unfolding write_many try_direct_tasked_write_vectored
  write_many-Ordered segments held acc t o c =
      let front = joined_bytes (take 16 segments) in
      if_elim (Writes held acc (joined_bytes segments))
        (ltb (16 * 1024) (length (joined_bytes segments))
          && is_present t.direct_writer
          && not t.writer_registered
          && not t.direct_write_scheduled)
        _ _
        (λ e.
          let d = Ordered-Direct held acc (wire t) o c (ground (arith, e)) (ground (arith, e)) in
          let s : t.direct_write_scheduled ≡ false = ground (arith, e) in
          segments-Ordered segments held acc (wire t) (try_direct_tasked_write h front t)
            (widen front (joined_bytes (drop 16 segments)) (joined_bytes segments) (wire t) _
              (joined_bytes-take 16 segments) (wrote-IsDirect h front t))
            (record { direct = d; empty = unstaged held acc t d s }))
        (λ e. write_unsent-Ordered h 0 segments held acc t o c)

  try_write_segments-Ordered :
      (segments : List (List ℕ)) (held acc : List ℕ) (t : StreamTransport)
      → Ordered held acc (wire t)
      → t.closing ≡ false
      → Writes held acc
          (joined_bytes segments)
          (try_write_segments h segments t.writer_registered t)
  unfolding try_write_segments try_write_bytes
  try_write_segments-Ordered segments held acc t o c =
      if_elim (Writes held acc (joined_bytes segments)) (is_nil (joined_bytes segments)) _ _
        (λ e z.
          subst (λ xs. Ordered held xs (wire t))
            (sym (append-nil acc) ∙ ap (◌++◌ acc) (sym (is_nil-nil (joined_bytes segments) e))) o)
        (λ e. by_number segments)
    where
      by_number :
          (ss : List (List ℕ))
          → Writes held acc (joined_bytes ss) (elim (single_segment ss) [
            | some s ↦ try_write_bytes_with_status h s t.writer_registered t
            | none ↦ write_many h ss t.writer_registered t
          ])
      by_number [] = write_many-Ordered [] held acc t o c
      by_number (s ∷ []) =
          subst (λ xs. Writes held acc xs (try_write_bytes_with_status h s t.writer_registered t))
            (sym (append-nil s)) (try_write_bytes-Ordered h s held acc t o c)
      by_number (s ∷ r ∷ ss) = write_many-Ordered (s ∷ r ∷ ss) held acc t o c

  guarded :
      (bytes held acc : List ℕ) (t : StreamTransport) (r : Reply)
      → Ordered held acc (wire t)
      → (t.closing ≡ false → Writes held acc bytes r)
      → Writes held acc (given t bytes) (
          if t.closing
          then (ok tt, t)
          else if not t.writable
          then (err IoError.not_writable, t)
          else r)
  guarded bytes held acc t r o w =
      if_elim (Writes held acc (given t bytes)) t.closing _ _
        (λ e z.
          subst (λ xs. Ordered held xs (wire t))
            (sym (append-nil acc) ∙ ap (◌++◌ acc) (sym (if_true t.closing [] bytes e))) o)
        (λ e.
          if_elim (Writes held acc (given t bytes)) (not t.writable) _ _ (λ x z. absurd (cc z))
            (λ x z.
              subst (λ xs. Ordered held (acc ++ xs) (wire r.1))
                (sym (if_false t.closing [] bytes e)) (w e z)))

  pub write_data-Ordered :
      (bytes held acc : List ℕ) (t : StreamTransport)
      → Ordered held acc (wire t)
      → Writes held acc (given t bytes) (write_data h bytes (write_status t) t)
  unfolding write_data write_status
  write_data-Ordered bytes held acc t o =
      guarded bytes held acc t (try_write_bytes_with_status h bytes t.writer_registered t) o
        (λ c. try_write_bytes-Ordered h bytes held acc t o c)

  pub writelines-Ordered :
      (segments : List (List ℕ)) (held acc : List ℕ) (t : StreamTransport)
      → Ordered held acc (wire t)
      → Writes held acc (given t (joined_bytes segments)) (writelines h segments (write_status t) t)
  unfolding writelines write_status
  writelines-Ordered segments held acc t o =
      subst (λ xs. Writes held acc (given t xs) (writelines h segments (write_status t) t))
        (joined_bytes-nonempty segments)
        (guarded (joined_bytes (nonempty segments)) held acc t
          (try_write_segments h (nonempty segments) t.writer_registered t) o
          (λ c. try_write_segments-Ordered (nonempty segments) held acc t o c))
