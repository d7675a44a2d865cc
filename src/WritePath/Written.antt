-- ===== src/WritePath/Written.antt =====
-- The rest of a direct write, which goes to the worker or is staged.
use rsloop.Common.{
  ℕ, ◌≤◌, ◌≡◌, refl, sym, ap, ◌∙◌, subst, Bool, true, false, ◌||◌, List, [], ◌++◌, some, append-nil,
  append_assoc, arith, ok, err, Result, length, take, drop, take-append-drop, take_all, ◌==◌,
  ==_iff,
}
use rsloop.Staging.{OwnedWriteBuffer, remaining, remaining_len, advance}
use rsloop.Staging.Remaining.{IsWritable, advance_lem}
use rsloop.WritePath.{IoError, is_retried, Host, StreamTransport, set_write_backpressure_active}
use rsloop.WritePath.Direct.{
  record_write_buffer_enqueued, fail_write, try_direct_tasked_write, queue_write, queue_behind,
  queue_recorded,
}
use rsloop.WritePath.Writes.{written_direct, stage_or_write}
use rsloop.WritePath.Wire.{if_elim, Wire, wire, queued, staged_bytes}
use rsloop.WritePath.Ordered.{
  Ordered, Ordered-Prefix, Prefix, Closed-Ordered, Closed-more, Writes, fail_write-Closed,
}
use rsloop.WritePath.Started.{Queueable}
use rsloop.WritePath.Queued.{queue_recorded-Ordered}
use rsloop.WritePath.Staged.{Direct, Direct-Ordered}
use rsloop.WritePath.StagedWrite.{recorded-wire, stage-Ordered}
use rsloop.WritePath.Answered.{
  IsDirect, took, refused, Idle, no_rest, out_when_unused, unstaged, wrote-IsDirect,
}

module _ (h : Host) where
  behind-Ordered :
      (w : OwnedWriteBuffer) (held acc : List ℕ) (x : Wire)
      (r : Result Bool IoError × StreamTransport)
      → wire r.1 ≡ x
      → Queueable held acc x
      → IsWritable w
      → Writes held acc (remaining w) (queue_behind h w r)
  behind-Ordered w held acc x (err e, u) same q v = λ z. absurd (cc z)
  behind-Ordered w held acc x (ok b, u) same q v =
      λ z. queue_recorded-Ordered h b w held acc u (subst (Queueable held acc) (sym same) q) v

  pub queue_write-Ordered :
      (w : OwnedWriteBuffer) (held acc : List ℕ) (t : StreamTransport)
      → Queueable held acc (wire t)
      → IsWritable w
      → Writes held acc (remaining w) (queue_write h w t)
  unfolding queue_write
  queue_write-Ordered w held acc t q v =
      behind-Ordered w held acc (wire t) (record_write_buffer_enqueued h (remaining_len w) t)
        (recorded-wire h (remaining_len w) t) q v

  -- The socket has taken `n` bytes, and the rest is for the worker.
  pub part-Queueable :
      (bytes held acc : List ℕ) (n : ℕ) (x : Wire)
      → Idle held acc x
      → Queueable held
          (acc ++ take n bytes)
          (record x { out = x.out ++ take n bytes; registered = true })
  part-Queueable bytes held acc n x i = record {
    front = record {
      rest = [];
      bytes =
          no_rest (x.out ++ take n bytes) held (queued x.queue) i.direct.nothing_held
            i.direct.nothing_queued
          ∙ ap (λ xs. xs ++ take n bytes) (out_when_unused held acc x i);
      sendable = i.direct.sendable;
    };
    is_open = i.direct.is_open;
    empty = i.empty;
    whole = λ l. refl;
    flagged = λ p. refl;
  }

  pub none-Queueable :
      (held acc : List ℕ) (x : Wire)
      → Idle held acc x
      → Queueable held acc (record x { registered = true })
  none-Queueable held acc x i = record {
    front = record {
      rest = [];
      bytes =
          no_rest x.out held (queued x.queue) i.direct.nothing_held i.direct.nothing_queued
          ∙ out_when_unused held acc x i;
      sendable = i.direct.sendable;
    };
    is_open = i.direct.is_open;
    empty = i.empty;
    whole = λ l. refl;
    flagged = λ p. refl;
  }

  full-Direct :
      (bytes held acc : List ℕ) (n : ℕ) (x : Wire)
      → Idle held acc x
      → n ≡ length bytes
      → Direct held (acc ++ bytes) (record x { out = x.out ++ take n bytes })
  full-Direct bytes held acc n x i e =
      let d = i.direct in
      record {
        is_open = d.is_open;
        here = d.here;
        unflagged = d.unflagged;
        nothing_held = d.nothing_held;
        nothing_queued = d.nothing_queued;
        all_there =
            ap (λ p. (x.out ++ take n bytes) ++ staged_bytes p) i.empty
            ∙ append-nil (x.out ++ take n bytes)
            ∙ ap (λ xs. xs ++ take n bytes) (out_when_unused held acc x i)
            ∙ ap (◌++◌ acc) (take_all n bytes (omega arith));
        sendable = d.sendable;
        writable = d.writable;
      }

  pub full-Ordered :
      (bytes held acc : List ℕ) (n : ℕ) (x : Wire) (u : StreamTransport)
      → Idle held acc x
      → wire u ≡ record x { out = x.out ++ take n bytes }
      → n ≡ length bytes
      → Ordered held (acc ++ bytes) (wire u)
  full-Ordered bytes held acc n x u i same e =
      subst (Ordered held (acc ++ bytes)) (sym same)
        (Direct-Ordered held (acc ++ bytes) _ (full-Direct bytes held acc n x i e))

  pub flagged-wire :
      (u : StreamTransport) (x : Wire)
      → wire u ≡ x
      → wire (set_write_backpressure_active true u) ≡ record x { registered = true }
  unfolding set_write_backpressure_active
  flagged-wire u x same = ap (λ (y : Wire). record y { registered = true }) same

  -- The two ways in which the unsent rest of a write goes to the worker.
  pub part-Ordered :
      (w : OwnedWriteBuffer) (held acc : List ℕ) (n : ℕ) (x : Wire) (u : StreamTransport)
      → Idle held acc x
      → IsWritable w
      → n ≤ length (remaining w)
      → wire u ≡ record x { out = x.out ++ take n (remaining w) }
      → let t = set_write_backpressure_active true u in
        Writes held acc (remaining w) (queue_write h (advance w n) t)
        × Ordered held (acc ++ remaining w) (wire (queue_recorded h false (advance w n) t))
  part-Ordered w held acc n x u i v le same =
      let t = set_write_backpressure_active true u in
      let bytes = remaining w in
      let l = advance_lem w n v le in
      let q : Queueable held (acc ++ take n bytes) (wire t) =
        subst (Queueable held (acc ++ take n bytes)) (sym (flagged-wire u _ same))
          (part-Queueable bytes held acc n x i) in
      let e : (acc ++ take n bytes) ++ remaining (advance w n) ≡ acc ++ bytes =
        ap (◌++◌ (acc ++ take n bytes)) l.1
        ∙ append_assoc acc (take n bytes) (drop n bytes)
        ∙ ap (◌++◌ acc) (take-append-drop n bytes) in
      (
        λ z.
            subst (λ xs. Ordered held xs (wire (queue_write h (advance w n) t).1)) e
              (queue_write-Ordered (advance w n) held (acc ++ take n bytes) t q l.0 z),
        subst (λ xs. Ordered held xs (wire (queue_recorded h false (advance w n) t))) e
            (queue_recorded-Ordered h false (advance w n) held (acc ++ take n bytes) t q l.0),
      )

  pub retried-Ordered :
      (w : OwnedWriteBuffer) (held acc : List ℕ) (x : Wire) (u : StreamTransport)
      → Idle held acc x
      → IsWritable w
      → wire u ≡ x
      → let t = set_write_backpressure_active true u in
        Writes held acc (remaining w) (queue_write h w t)
        × Ordered held (acc ++ remaining w) (wire (queue_recorded h false w t))
  retried-Ordered w held acc x u i v same =
      let t = set_write_backpressure_active true u in
      let q : Queueable held acc (wire t) =
        subst (Queueable held acc) (sym (flagged-wire u x same)) (none-Queueable held acc x i) in
      (queue_write-Ordered w held acc t q v, queue_recorded-Ordered h false w held acc t q v)

  pub failed-Ordered :
      (bytes held acc : List ℕ) (e : IoError) (x : Wire) (u : StreamTransport)
      → Idle held acc x
      → wire u ≡ x
      → Ordered held (acc ++ bytes) (wire (fail_write h true (some e) u))
  failed-Ordered bytes held acc e x u i same =
      let p =
        subst (Prefix held acc) (sym same)
          (Ordered-Prefix held acc x (Direct-Ordered held acc x i.direct)) in
      let c =
        fail_write-Closed h true (some e) held acc u p (λ z. ap Wire.pending same ∙ i.empty) in
      Closed-Ordered held (acc ++ bytes) _ (Closed-more held acc bytes _ c)

  -- Writing directly from a transport where nothing waits.
  written-Ordered :
      (w : OwnedWriteBuffer) (held acc : List ℕ) (x : Wire) (r : Result ℕ IoError × StreamTransport)
      → IsDirect (remaining w) x r
      → Idle held acc x
      → IsWritable w
      → Writes held acc (remaining w) (written_direct h w r)
  unfolding remaining_len
  written-Ordered w held acc x _ (took n u le same) i v =
      if_elim (Writes held acc (remaining w)) (n == remaining_len w) _ _
        (λ e z. full-Ordered (remaining w) held acc n x u i same ((==_iff n (remaining_len w)).0 e))
        (λ e. (part-Ordered w held acc n x u i v le same).0)
  written-Ordered w held acc x _ (refused e u same) i v =
      if_elim (Writes held acc (remaining w)) (is_retried e) _ _
        (λ b. (retried-Ordered w held acc x u i v same).0)
        (λ b z. failed-Ordered (remaining w) held acc e x u i same)

  -- A write from a transport whose socket can be written directly.
  pub stage_or_write-Ordered :
      (w : OwnedWriteBuffer) (coalesce : Bool) (held acc : List ℕ) (t : StreamTransport)
      → Direct held acc (wire t)
      → IsWritable w
      → Writes held acc (remaining w) (stage_or_write h w coalesce t)
  stage_or_write-Ordered w coalesce held acc t d v =
      if_elim (Writes held acc (remaining w)) (t.direct_write_scheduled || coalesce) _ _
        (λ e. stage-Ordered h w held acc t d v)
        (λ e.
          written-Ordered w held acc (wire t) (try_direct_tasked_write h (remaining w) t)
            (wrote-IsDirect h (remaining w) t)
            (record { direct = d; empty = unstaged held acc t d (ground (arith, e)) }) v)
