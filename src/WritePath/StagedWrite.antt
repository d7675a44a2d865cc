-- ===== src/WritePath/StagedWrite.antt =====
-- A write that is staged.
use rsloop.Common.{
  ℕ, ◌≡◌, refl, sym, ap, ◌∙◌, subst, Bool, true, false, List, ◌++◌, Option, none, some, append-nil,
  append_assoc, Bool-cases, inl, inr, if◌then◌else◌, ok, err, Result, ◌==◌,
}
use rsloop.Pool.{PoolState}
use rsloop.Staging.{OwnedWriteBuffer, remaining, remaining_len, is_sent, stage_owned_buffer}
use rsloop.Staging.Remaining.{IsWritable}
use rsloop.WriteBuffer.{WriteBufferState, WriteBufferSignal, enqueue_write_buffer}
use rsloop.WritePath.{IoError, Host, StreamTransport, notify_pause_writing, recorded}
use rsloop.WritePath.Direct.{
  record_write_buffer_enqueued, stage_behind, staged, finish_staged_write, send_write_command,
  stage_direct_write_buffer,
}
use rsloop.WritePath.Wire.{
  if_true, if_false, if_elim, is_nil-nil, Wire, wire, wire-notify_pause, staged_bytes,
}
use rsloop.WritePath.Ordered.{
  Ordered, Prefix, Ordered-Prefix, Writes, Closed-Ordered, fail_write-Closed,
}
use rsloop.WritePath.Staged.{Direct, Direct-Ordered, stage_owned_buffer-sends, same_some}

module _ (h : Host) where
  pub recorded-wire :
      (n : ℕ) (t : StreamTransport) → wire (record_write_buffer_enqueued h n t).1 ≡ wire t
  unfolding record_write_buffer_enqueued
  recorded-wire n t = elim (Bool-cases (n == 0)) [
    | inl e ↦ ap (λ (r : Result Bool IoError × StreamTransport). wire r.1) (if_true (n == 0) _ _ e)
    | inr e ↦
        ap (λ (r : Result Bool IoError × StreamTransport). wire r.1) (if_false (n == 0) _ _ e)
        ∙ answered (enqueue_write_buffer t.write_buffer n h.cap)
  ]
    where
      answered :
          (r : Result WriteBufferSignal (Unit {0}) × WriteBufferState)
          → wire (recorded t r).1 ≡ wire t
      answered (ok s, b) = refl
      answered (err e, b) = refl

  command-Ordered :
      (held acc : List ℕ) (t : StreamTransport)
      → Ordered held acc (wire t)
      → t.closing ≡ false
      → Ordered held acc (wire (send_write_command h t))
  unfolding send_write_command
  command-Ordered held acc t o c =
      if_elim (λ u. Ordered held acc (wire u)) t.loop_open _ _ (λ e. o)
        (λ e.
          let u : StreamTransport = record t { direct_write_scheduled = false } in
          let p = Ordered-Prefix held acc (wire t) o in
          let p' : Prefix held acc (wire u) = record {
            rest = p.rest;
            bytes = p.bytes;
            sendable = p.sendable;
          } in
          Closed-Ordered held acc _
            (fail_write-Closed h true none held acc u p' (λ x. absurd (cc (x, c)))))

  -- What is staged is flushed on a later turn.
  finish-Ordered :
      (b : Bool) (held acc : List ℕ) (t : StreamTransport)
      → Ordered held acc (record (wire t) { scheduled = true })
      → t.closing ≡ false
      → Ordered held acc (wire (finish_staged_write h b t))
  unfolding finish_staged_write
  finish-Ordered b held acc t o c =
      let t' = if b then notify_pause_writing true t else t in
      let same : wire t' ≡ wire t =
        if_elim (λ (u : StreamTransport). wire u ≡ wire t) b _ _ (λ e. wire-notify_pause true t)
          (λ e. refl) in
      let o' : Ordered held acc (record (wire t') { scheduled = true }) =
        subst (λ (x : Wire). Ordered held acc (record x { scheduled = true })) (sym same) o in
      if_elim (λ u. Ordered held acc (wire u)) t'.direct_write_scheduled _ _
        (λ e. subst (λ s. Ordered held acc (record (wire t') { scheduled = s })) (sym e) o')
        (λ e.
          command-Ordered held acc (record t' { direct_write_scheduled = true }) o'
            (ap Wire.closing same ∙ c))

  staged-sends :
      (o : Option OwnedWriteBuffer) (incoming : OwnedWriteBuffer) (p : PoolState)
      → ((w : OwnedWriteBuffer) → o ≡ some w → IsWritable w)
      → IsWritable incoming
      → let w' = (stage_owned_buffer h.alloc o incoming p).0 in
        IsWritable w' × (remaining w' ≡ staged_bytes o ++ remaining incoming)
  unfolding stage_owned_buffer
  staged-sends none incoming p v u = (u, refl)
  staged-sends (some w) incoming p v u = stage_owned_buffer-sends h.alloc w incoming p (v w refl) u

  behind-Ordered :
      (w : OwnedWriteBuffer) (held acc : List ℕ) (x : Wire)
      (r : Result Bool IoError × StreamTransport)
      → wire r.1 ≡ x
      → Direct held acc x
      → IsWritable w
      → Writes held acc (remaining w) (stage_behind h w r)
  behind-Ordered w held acc x (err e, u) same d v = λ q. absurd (cc q)
  behind-Ordered w held acc x (ok b, u) same d v = λ q.
      let d' = subst (Direct held acc) (sym same) d in
      let r = stage_owned_buffer h.alloc u.pending_direct_write w u.pool in
      let s = staged-sends u.pending_direct_write w u.pool (λ p e. (d'.writable p e).0) v in
      let t' = staged h u r in
      let z : Direct held (acc ++ remaining w) (record (wire t') { scheduled = true }) = record {
        is_open = d'.is_open;
        here = d'.here;
        unflagged = d'.unflagged;
        nothing_held = d'.nothing_held;
        nothing_queued = d'.nothing_queued;
        all_there =
            ap (◌++◌ u.out) s.1
            ∙ sym (append_assoc u.out (staged_bytes u.pending_direct_write) (remaining w))
            ∙ ap (λ xs. xs ++ remaining w) d'.all_there;
        sendable = d'.sendable;
        writable = λ p e. (subst IsWritable (same_some e) s.0, refl);
      } in
      finish-Ordered b held (acc ++ remaining w) t' (Direct-Ordered held (acc ++ remaining w) _ z)
        d'.is_open

  pub stage-Ordered :
      (w : OwnedWriteBuffer) (held acc : List ℕ) (t : StreamTransport)
      → Direct held acc (wire t)
      → IsWritable w
      → Writes held acc (remaining w) (stage_direct_write_buffer h w t)
  unfolding stage_direct_write_buffer is_sent
  stage-Ordered w held acc t d v =
      if_elim (Writes held acc (remaining w)) (is_sent w) _ _
        (λ e q.
          subst (λ xs. Ordered held xs (wire t))
            (sym (append-nil acc) ∙ ap (◌++◌ acc) (sym (is_nil-nil (remaining w) e)))
            (Direct-Ordered held acc (wire t) d))
        (λ e.
          behind-Ordered w held acc (wire t) (record_write_buffer_enqueued h (remaining_len w) t)
            (recorded-wire (remaining_len w) t) d v)
