-- ===== src/WritePath/Program.antt =====
-- The writes of the program keep the order of the bytes.
use rsloop.Common.{
  ℕ, ◌≡◌, refl, sym, ap, ◌∙◌, subst, Bool, true, false, not, ◌||◌, ◌&&◌, List, ◌++◌, none,
  append-nil, arith, Bool-cases, Option-cases, inl, inr, if◌then◌else◌, length, ◌==◌,
}
use rsloop.Staging.{OwnedWriteBuffer, remaining, remaining_len, is_sent, from_python}
use rsloop.Staging.Remaining.{IsWritable}
use rsloop.WriteBuffer.{is_write_batch_candidate}
use rsloop.WritePath.{Host, StreamTransport, is_present}
use rsloop.WritePath.Direct.{queue_write}
use rsloop.WritePath.Writes.{
  should_coalesce_small_write, stage_or_write, try_write_bytes_with_status, try_write_buffer,
}
use rsloop.WritePath.Wire.{if_elim, is_nil-nil, Wire, wire, queued, staged_bytes}
use rsloop.WritePath.Ordered.{Ordered, Writes}
use rsloop.WritePath.Started.{Queueable}
use rsloop.WritePath.Staged.{Direct, Ordered-Direct}
use rsloop.WritePath.Written.{queue_write-Ordered, stage_or_write-Ordered}
use rsloop.WritePath.Segments.{from_python_lem}

-- Where nothing can be written directly, the worker has to.
pub Ordered-Queueable :
    (held acc : List ℕ) (x : Wire)
    → Ordered held acc x
    → x.closing ≡ false
    → x.pending ≡ none
    → (x.present ≡ true → x.registered ≡ true)
    → Queueable held acc x
Ordered-Queueable held acc x o c n f = record {
  front = record {
    rest = o.rest;
    bytes =
        ap (λ p. x.out ++ (held ++ (queued x.queue ++ (staged_bytes p ++ o.rest)))) (sym n)
        ∙ o.bytes;
    sendable = o.sendable;
  };
  is_open = c;
  empty = n;
  whole = λ l. elim (o.whole c) [ inl e ↦ e | inr (d, f) ↦ absurd (cc (d, l)) ];
  flagged = f;
}

pub Queueable-Ordered : (held acc : List ℕ) (x : Wire) → Queueable held acc x → Ordered held acc x
Queueable-Ordered held acc x q = record {
  rest = q.front.rest;
  bytes =
      ap (λ p. x.out ++ (held ++ (queued x.queue ++ (staged_bytes p ++ q.front.rest)))) q.empty
      ∙ q.front.bytes;
  sendable = q.front.sendable;
  idle = λ p r c. absurd (cc (q.flagged p, r));
  stage = λ w e. absurd (cc (e, q.empty));
  whole = λ c. elim (Bool-cases x.queue.receiver_alive) [
    | inl l ↦ inl (q.whole l)
    | inr l ↦ inr (l, q.flagged)
  ];
}

-- What is staged waits for a socket that can be written directly.
pub unstaged_unless :
    (held acc : List ℕ) (x : Wire)
    → Ordered held acc x
    → ((x.present ≡ true) → (x.registered ≡ true))
    → x.pending ≡ none
unstaged_unless held acc x o f = elim (Option-cases x.pending) [
  | inl n ↦ n
  | inr (w, n) ↦ absurd (cc (f (o.stage w n).1, (o.stage w n).2))
]

module _ (h : Host) where
  coalesced-wire : (n : ℕ) (t : StreamTransport) → wire (should_coalesce_small_write n t).1 ≡ wire t
  unfolding should_coalesce_small_write
  coalesced-wire n t =
      let goal : Bool × StreamTransport → Type 0 = λ r. wire r.1 ≡ wire t in
      if_elim goal (not t.coalesce_small_writes || not (is_write_batch_candidate n)) _ _ (λ e. refl)
        (λ e. if_elim goal (t.small_write_turn == t.current_turn) _ _ (λ e. refl) (λ e. refl))

  -- The choice of `try_write_bytes_with_status` and of `try_write_buffer`.
  choice-Ordered :
      (w : OwnedWriteBuffer) (coalesce : Bool) (held acc : List ℕ) (t t' : StreamTransport)
      → Ordered held acc (wire t)
      → t.closing ≡ false
      → wire t' ≡ wire t
      → IsWritable w
      → Writes held acc (remaining w) (
          if is_present t.direct_writer && not t.writer_registered
          then stage_or_write h w coalesce t'
          else queue_write h w t)
  choice-Ordered w coalesce held acc t t' o c same v =
      if_elim (Writes held acc (remaining w))
        (is_present t.direct_writer && not t.writer_registered) _ _
        (λ e.
          stage_or_write-Ordered h w coalesce held acc t'
            (subst (Direct held acc) (sym same)
              (Ordered-Direct held acc (wire t) o c (ground (arith, e)) (ground (arith, e))))
            v)
        (λ e.
          let f : is_present t.direct_writer ≡ true → t.writer_registered ≡ true =
            λ p. ground (arith, e, p) in
          queue_write-Ordered h w held acc t
            (Ordered-Queueable held acc (wire t) o c (unstaged_unless held acc (wire t) o f) f) v)

  pub try_write_bytes-Ordered :
      (bytes held acc : List ℕ) (t : StreamTransport)
      → Ordered held acc (wire t)
      → t.closing ≡ false
      → Writes held acc bytes (try_write_bytes_with_status h bytes t.writer_registered t)
  unfolding try_write_bytes_with_status
  try_write_bytes-Ordered bytes held acc t o c =
      let p = from_python_lem bytes in
      let r = should_coalesce_small_write (length bytes) t in
      subst (λ xs. Writes held acc xs (try_write_bytes_with_status h bytes t.writer_registered t))
        p.1
        (choice-Ordered (from_python bytes) r.0 held acc t r.1 o c (coalesced-wire (length bytes) t)
          p.0)

  pub try_write_buffer-Ordered :
      (w : OwnedWriteBuffer) (held acc : List ℕ) (t : StreamTransport)
      → Ordered held acc (wire t)
      → t.closing ≡ false
      → IsWritable w
      → Writes held acc (remaining w) (try_write_buffer h w t)
  unfolding try_write_buffer is_sent
  try_write_buffer-Ordered w held acc t o c v =
      let coalesce = t.coalesce_small_writes && is_write_batch_candidate (remaining_len w) in
      if_elim (Writes held acc (remaining w)) (is_sent w) _ _
        (λ e q.
          subst (λ xs. Ordered held xs (wire t))
            (sym (append-nil acc) ∙ ap (◌++◌ acc) (sym (is_nil-nil (remaining w) e))) o)
        (λ e. choice-Ordered w coalesce held acc t t o c refl v)
