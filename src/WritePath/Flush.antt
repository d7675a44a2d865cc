-- ===== src/WritePath/Flush.antt =====
-- The flush of what is staged.
use rsloop.Common.{
  ℕ, ◌≡◌, refl, sym, ap, ◌∙◌, subst, true, List, ◌++◌, Option, none, some, append-nil, Result, ◌==◌,
  ==_iff,
}
use rsloop.Staging.{OwnedWriteBuffer, remaining, remaining_len}
use rsloop.Staging.Remaining.{IsWritable}
use rsloop.WritePath.{IoError, is_retried, Host, StreamTransport, record_write_buffer_drained}
use rsloop.WritePath.Direct.{
  try_direct_tasked_write, flushed, flush_taken, take_pending, flush_pending_direct_write,
}
use rsloop.WritePath.Wire.{if_elim, Wire, wire, wire-drained, queued, staged_bytes}
use rsloop.WritePath.Ordered.{Ordered, Ordered-Prefix, Closed-Ordered}
use rsloop.WritePath.Staged.{Ordered-Direct}
use rsloop.WritePath.Answered.{IsDirect, took, refused, Idle, wrote-IsDirect}
use rsloop.WritePath.Written.{full-Ordered, part-Ordered, retried-Ordered, failed-Ordered}

module _ (h : Host) where
  drained-Ordered :
      (n : ℕ) (held acc : List ℕ) (t : StreamTransport)
      → Ordered held acc (wire t)
      → Ordered held acc (wire (record_write_buffer_drained true n t))
  drained-Ordered n held acc t = subst (Ordered held acc) (sym (wire-drained true n t))

  flushed-Ordered :
      (w : OwnedWriteBuffer) (held acc : List ℕ) (x : Wire) (r : Result ℕ IoError × StreamTransport)
      → IsDirect (remaining w) x r
      → Idle held acc x
      → IsWritable w
      → Ordered held (acc ++ remaining w) (wire (flushed h w r))
  unfolding remaining_len
  flushed-Ordered w held acc x _ (took n u le same) i v =
      if_elim (λ t. Ordered held (acc ++ remaining w) (wire t)) (n == remaining_len w) _ _
        (λ e.
          drained-Ordered n held (acc ++ remaining w) u
            (full-Ordered h (remaining w) held acc n x u i same ((==_iff n (remaining_len w)).0 e)))
        (λ e.
          drained-Ordered n held (acc ++ remaining w) _
            (part-Ordered h w held acc n x u i v le same).1)
  flushed-Ordered w held acc x _ (refused e u same) i v =
      if_elim (λ t. Ordered held (acc ++ remaining w) (wire t)) (is_retried e) _ _
        (λ b. (retried-Ordered h w held acc x u i v same).1)
        (λ b. failed-Ordered h (remaining w) held acc e x u i same)

  taken-Ordered :
      (p : Option OwnedWriteBuffer) (held acc : List ℕ) (t : StreamTransport)
      → t.pending_direct_write ≡ p
      → Ordered held acc (wire t)
      → Ordered held acc (wire (flush_taken h p (take_pending t)))
  taken-Ordered none held acc t e o = record {
    rest = o.rest;
    bytes =
        ap (λ q. t.out ++ (held ++ (queued t.queue ++ (staged_bytes q ++ o.rest)))) (sym e)
        ∙ o.bytes;
    sendable = o.sendable;
    idle = o.idle;
    stage = λ w x. absurd (cc x);
    whole = o.whole;
  }
  taken-Ordered (some w) held acc t e o =
      let s = o.stage w e in
      let x = wire (take_pending t) in
      let r = try_direct_tasked_write h (remaining w) (take_pending t) in
      if_elim (λ u. Ordered held acc (wire u)) t.closing _ _
        (λ c.
          let p = Ordered-Prefix held acc (wire t) o in
          drained-Ordered (remaining_len w) held acc (take_pending t) (
            Closed-Ordered held acc x (record {
              is_closed = c;
              empty = refl;
              front = record { rest = p.rest; bytes = p.bytes; sendable = p.sendable };
            })))
        (λ c.
          let d = Ordered-Direct held acc (wire t) o c s.1 s.2 in
          let i : Idle held t.out x = record {
            direct = record {
              is_open = d.is_open;
              here = d.here;
              unflagged = d.unflagged;
              nothing_held = d.nothing_held;
              nothing_queued = d.nothing_queued;
              all_there = append-nil t.out;
              sendable = d.sendable;
              writable = λ v z. absurd (cc z);
            };
            empty = refl;
          } in
          subst (λ xs. Ordered held xs (wire (flushed h w r)))
            (ap (λ q. t.out ++ staged_bytes q) (sym e) ∙ d.all_there)
            (flushed-Ordered w held t.out x r (wrote-IsDirect h (remaining w) (take_pending t)) i
              s.0))

  -- A flush leaves every byte in its place.
  pub flush-Ordered :
      (held acc : List ℕ) (t : StreamTransport)
      → Ordered held acc (wire t)
      → Ordered held acc (wire (flush_pending_direct_write h t))
  unfolding flush_pending_direct_write
  flush-Ordered held acc t o = taken-Ordered t.pending_direct_write held acc t refl o
