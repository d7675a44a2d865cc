-- ===== src/WritePath/Lines.antt =====
-- Many segments at once.
use rsloop.Common.{
  ℕ, ◌-◌, ◌≡◌, refl, sym, ap, ◌∙◌, subst, Bool, true, false, not, ◌&&◌, List, ◌++◌, none, arith,
  Bool-cases, Option-cases, inl, inr, map, All, ok, err, Result, length, drop, ltb, leb,
}
use rsloop.Staging.{OwnedWriteBuffer, with_pooled_capacity}
use rsloop.WriteBuffer.{default_write_buffer_high_water}
use rsloop.WriterQueue.{QueueState, payload, send_batch}
use rsloop.WriterQueue.Order.{Sendable, all_items}
use rsloop.WritePath.{IoError, Host, StreamTransport, set_write_backpressure_active}
use rsloop.WritePath.Direct.{record_write_buffer_enqueued, ensure_writer_worker, after_send}
use rsloop.WritePath.Writes.{
  joined_bytes, unsent_segments, total_len, batch_behind, queue_write_batch, join_segments,
  join_into, write_unsent,
}
use rsloop.WritePath.Wire.{if_elim, Wire, wire, payload_bytes, batch-Sent, Sent}
use rsloop.WritePath.Ordered.{Ordered, Writes}
use rsloop.WritePath.Started.{Queueable, worker-cases}
use rsloop.WritePath.Queued.{taken-Ordered, refused-Ordered}
use rsloop.WritePath.StagedWrite.{recorded-wire}
use rsloop.WritePath.Written.{flagged-wire}
use rsloop.WritePath.Segments.{join_segments_lem, pooled_lem, unsent_segments_lem}
use rsloop.WritePath.Program.{Ordered-Queueable, try_write_buffer-Ordered}

batch_alive :
    (q : QueueState) (ws : List OwnedWriteBuffer)
    → q.receiver_alive ≡ true
    → send_batch q ws ≡ (ok tt, record q { commands = q.commands ++ map payload ws })
unfolding send_batch
batch_alive q ws l = rw l refl

batch_dead :
    (q : QueueState) (ws : List OwnedWriteBuffer)
    → q.receiver_alive ≡ false
    → send_batch q ws ≡ (err tt, q)
unfolding send_batch
batch_dead q ws l = rw l refl

module _ (h : Host) where
  sent-Ordered :
      (b : Bool) (ws : List OwnedWriteBuffer) (bytes held acc : List ℕ) (t : StreamTransport)
      → Queueable held acc (wire t)
      → All Sendable (map payload ws)
      → payload_bytes (all_items (map payload ws)) ≡ bytes
      → Ordered held (acc ++ bytes) (
          wire (
            after_send h b
              ((send_batch t.queue ws).0, record t { queue = (send_batch t.queue ws).1 })))
  sent-Ordered b ws bytes held acc t q v e =
      let goal : Result (Unit {0}) (Unit {0}) × QueueState → Type 0 =
        λ r. Ordered held (acc ++ bytes) (wire (after_send h b (r.0, record t { queue = r.1 }))) in
      let q' : QueueState = record t.queue { commands = t.queue.commands ++ map payload ws } in
      elim (Bool-cases t.queue.receiver_alive) [
        | inl l ↦ subst goal (sym (batch_alive t.queue ws l)) (
            taken-Ordered h b bytes held acc t q' q l
              (subst (λ xs. Sent xs t.queue q') e (batch-Sent t.queue ws l q.front.sendable v)))
        | inr l ↦
            subst goal (sym (batch_dead t.queue ws l))
              (refused-Ordered h bytes held acc t q.front q.empty)
      ]

  behind-Ordered :
      (ws : List OwnedWriteBuffer) (bytes held acc : List ℕ) (x : Wire)
      (r : Result Bool IoError × StreamTransport)
      → wire r.1 ≡ x
      → Queueable held acc (record x { registered = true })
      → All Sendable (map payload ws)
      → payload_bytes (all_items (map payload ws)) ≡ bytes
      → Writes held acc bytes (batch_behind h ws r)
  behind-Ordered ws bytes held acc x (err e, u) same q v p = λ z. absurd (cc z)
  behind-Ordered ws bytes held acc x (ok b, u) same q v p = λ z.
      let t = set_write_backpressure_active true u in
      let t' = ensure_writer_worker h t in
      let goal : Result (Unit {0}) (Unit {0}) × QueueState → Type 0 =
        λ r. Ordered held (acc ++ bytes) (wire (after_send h b (r.0, record t' { queue = r.1 }))) in
      let q' : Queueable held acc (wire t) =
        subst (Queueable held acc) (sym (flagged-wire h u x same)) q in
      elim (worker-cases h held acc t q') [
        | inl k ↦ sent-Ordered b ws bytes held acc t' k v p
        | inr d ↦
            subst goal (sym (batch_dead t'.queue ws d.receiver_gone))
              (refused-Ordered h bytes held acc t' d.front d.empty)
      ]

  -- What is left of the segments, behind what the socket has taken of them.
  pub write_unsent-Ordered :
      (n : ℕ) (segments : List (List ℕ)) (held acc : List ℕ) (t : StreamTransport)
      → Ordered held acc (wire t)
      → t.closing ≡ false
      → Writes held acc (drop n (joined_bytes segments)) (write_unsent h n segments t)
  unfolding write_unsent queue_write_batch
  write_unsent-Ordered n segments held acc t o c =
      let unsent = length (joined_bytes segments) - n in
      let ws = unsent_segments n segments in
      let l = unsent_segments_lem n segments in
      let r = with_pooled_capacity h.alloc unsent t.pool in
      let p = pooled_lem h.alloc unsent t.pool in
      let j = join_segments_lem h n segments r.0 p.0 in
      let bytes = drop n (joined_bytes segments) in
      if_elim (Writes held acc bytes)
        (ltb default_write_buffer_high_water unsent
          && leb (length segments) 16
          && not t.direct_write_scheduled)
        _ _
        (λ e.
          let s : t.direct_write_scheduled ≡ false = ground (arith, e) in
          let none_staged : t.pending_direct_write ≡ none = unscheduled held acc (wire t) o s in
          behind-Ordered ws bytes held acc (wire t)
            (record_write_buffer_enqueued h (total_len ws) t) (recorded-wire h (total_len ws) t)
            (flagged-Queueable held acc (wire t) o c none_staged) l.0 l.1)
        (λ e.
          subst (λ xs. Writes held acc xs (join_into h n segments t r))
            (j.1 ∙ ap (λ xs. xs ++ bytes) p.1)
            (try_write_buffer-Ordered h (join_segments h n segments r.0) held acc
              (record t { pool = r.1 }) o c j.0))
    where
      unscheduled :
          (held acc : List ℕ) (x : Wire)
          → Ordered held acc x
          → x.scheduled ≡ false
          → x.pending ≡ none
      unscheduled held acc x o s = elim (Option-cases x.pending) [
        | inl n ↦ n
        | inr (w, n) ↦ absurd (cc ((o.stage w n).3, s))
      ]

      flagged-Queueable :
          (held acc : List ℕ) (x : Wire)
          → Ordered held acc x
          → x.closing ≡ false
          → x.pending ≡ none
          → Queueable held acc (record x { registered = true })
      flagged-Queueable held acc x o c n =
          Ordered-Queueable held acc (record x { registered = true })
            (record {
              rest = o.rest;
              bytes = o.bytes;
              sendable = o.sendable;
              idle = λ p r. absurd (cc r);
              stage = λ w e. absurd (cc (e, n));
              whole = λ z. elim (o.whole z) [ inl e ↦ inl e | inr (d, f) ↦ inr (d, λ p. refl) ];
            })
            c n (λ p. refl)
