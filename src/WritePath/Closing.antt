-- ===== src/WritePath/Closing.antt =====
-- What `close`, `abort`, `write_eof` and the delivery of a loss leave of the bytes.
use rsloop.Common.{
  ℕ, ◌≡◌, refl, sym, ap, ◌∙◌, subst, true, false, not, ◌&&◌, List, [], ◌++◌, none, append-nil,
  Bool-cases, inl, inr, Result, ℕ,
}
use rsloop.WriterQueue.{QueueState, WriterCommand, write_eof, close, abort, stop}
use rsloop.WriterQueue.Order.{Sendable}
use rsloop.WritePath.{
  DirectWriter, absent, released, open_writer, Host, StreamTransport, Reply, is_present,
  record_write_buffer_drained, enqueue_event,
}
use rsloop.WritePath.Direct.{
  start_closing, staged_len, send, take_pending, flush_pending_direct_write,
  discard_pending_direct_write,
}
use rsloop.WritePath.Close.{
  release_direct_writer, deliver_loss, shut, send_control, close_flushed, close_transport,
  abort_discarded, abort_transport, eof_flushed, end_writing,
}
use rsloop.WritePath.Wire.{
  if_elim, Wire, wire, wire-drained, bytes_of, queued, staged_bytes, enqueue-Sent,
}
use rsloop.WritePath.Ordered.{
  Ordered, Closed, Closed-Ordered, Ordered-Prefix, enqueue_alive, enqueue_dead,
}
use rsloop.WritePath.Flush.{flush-Ordered}
use rsloop.WritePath.Unstaged.{flush-unstaged}

-- A command without bytes behind all bytes.
controls-Ordered :
    (h : Host) (c : WriterCommand) (held acc : List ℕ) (t : StreamTransport)
    → Sendable c
    → bytes_of c ≡ []
    → Ordered held acc (wire t)
    → Ordered held acc (wire (send_control h c t))
      × (queued (send_control h c t).queue ≡ queued t.queue)
unfolding send
controls-Ordered h c held acc t v z o =
    let goal : Result (Unit {0}) WriterCommand × QueueState → Type 0 =
      λ r. Ordered held acc (record (wire t) { queue = r.1 }) × (queued r.1 ≡ queued t.queue) in
    elim (Bool-cases t.queue.receiver_alive) [
      | inl l ↦
          let s = enqueue-Sent h.alloc t.queue c l o.sendable v in
          let same = s.behind ∙ ap (◌++◌ (queued t.queue)) z ∙ append-nil (queued t.queue) in
          subst goal (sym (enqueue_alive h.alloc t.queue c l)) (
            record {
              rest = o.rest;
              bytes =
                  ap
                    (λ xs.
                      t.out ++ (held ++ (xs ++ (staged_bytes t.pending_direct_write ++ o.rest))))
                    same
                  ∙ o.bytes;
              sendable = s.good;
              idle = λ p r k. ap (◌++◌ held) same ∙ o.idle p r k;
              stage = λ w e. let s = o.stage w e in (s.0, s.1, s.2, s.3, ap (◌++◌ held) same ∙ s.4);
              whole = λ k. o.whole k;
            },
            same,
          )
      | inr l ↦ subst goal (sym (enqueue_dead h.alloc t.queue c l)) (o, refl)
    ]

closing-Ordered :
    (held acc : List ℕ) (x : Wire)
    → Ordered held acc x
    → Ordered held acc (record x { closing = true })
closing-Ordered held acc x o = record {
  rest = o.rest;
  bytes = o.bytes;
  sendable = o.sendable;
  idle = λ p r c. absurd (cc c);
  stage = o.stage;
  whole = λ c. absurd (cc c);
}

release-is_present : (d : DirectWriter) → is_present (release_direct_writer d) ≡ is_present d
release-is_present absent = refl
release-is_present released = refl
release-is_present open_writer = refl

-- The delivery of a loss leaves what is staged, which no flush will write.
pub deliver_loss-Ordered :
    (held acc : List ℕ) (t : StreamTransport)
    → Ordered held acc (wire t)
    → Ordered held acc (wire (deliver_loss t))
unfolding deliver_loss
deliver_loss-Ordered held acc t o =
    if_elim (λ (u : StreamTransport). Ordered held acc (wire u)) t.lost_called _ _ (λ e. o)
      (λ e.
        subst (λ b. Ordered held acc (record (wire t) { closing = true; present = b }))
          (sym (release-is_present t.direct_writer)) (closing-Ordered held acc (wire t) o))

module _ (h : Host) where
  -- What an operation does that moves no byte.
  abbrev Stays : List ℕ → List ℕ → StreamTransport → StreamTransport → Type 0
  Stays held acc t u =
      Ordered held acc (wire u) × (u.out ≡ t.out) × (queued u.queue ≡ queued t.queue)

  close_flushed-Stays :
      (held acc : List ℕ) (t : StreamTransport)
      → Ordered held acc (wire t)
      → Stays held acc t (close_flushed h t)
  unfolding close_flushed enqueue_event send
  close_flushed-Stays held acc t o =
      let goal : StreamTransport → Type 0 = Stays held acc t in
      let c = controls-Ordered h close held acc t tt refl o in
      let s = controls-Ordered h stop held acc (shut t) tt refl o in
      if_elim goal (not (is_present t.direct_writer)) _ _ (λ e. (c.0, refl, c.1))
        (λ e. if_elim goal t.lazy_writer _ _ (λ z. (s.0, refl, s.1)) (λ z. (c.0, refl, c.1)))

  pub eof_flushed-Ordered :
      (held acc : List ℕ) (t : StreamTransport)
      → Ordered held acc (wire t)
      → Ordered held acc (wire (eof_flushed h t))
  unfolding eof_flushed enqueue_event send
  eof_flushed-Ordered held acc t o =
      let goal : StreamTransport → Type 0 = λ u. Ordered held acc (wire u) in
      if_elim goal (is_present t.direct_writer && t.lazy_writer) _ _
        (λ e. if_elim goal t.close_on_write_eof _ _ (λ z. o) (λ z. o))
        (λ e. (controls-Ordered h write_eof held acc t tt refl o).0)

  pub end_writing-Ordered :
      (held acc : List ℕ) (t : StreamTransport)
      → Ordered held acc (wire t)
      → Ordered held acc (wire (end_writing h t).1)
  unfolding end_writing
  end_writing-Ordered held acc t o =
      let f = flush_pending_direct_write h t in
      if_elim (λ (r : Reply). Ordered held acc (wire r.1)) (not t.can_write_eof) _ _ (λ e. o)
        (λ e.
          eof_flushed-Ordered held acc (record f { write_eof_requested = true })
            (flush-Ordered h held acc t o))

  -- `abort` gives up what is staged.
  pub abort-Ordered :
      (held acc : List ℕ) (t : StreamTransport)
      → Ordered held acc (wire t)
      → Ordered held acc (wire (abort_transport h t))
  unfolding abort_transport abort_discarded discard_pending_direct_write enqueue_event send
  abort-Ordered held acc t o =
      let d =
        record_write_buffer_drained true (staged_len t.pending_direct_write) (take_pending t) in
      let p = Ordered-Prefix held acc (wire t) o in
      let same = wire-drained true (staged_len t.pending_direct_write) (take_pending t) in
      let x : Wire = record (wire (take_pending t)) { closing = true } in
      let c : Closed held acc x = record {
        is_closed = refl;
        empty = refl;
        front = record { rest = p.rest; bytes = p.bytes; sendable = p.sendable };
      } in
      let u = start_closing d in
      let o' : Ordered held acc (wire u) =
        subst (λ (y : Wire). Ordered held acc (record y { closing = true })) (sym same)
          (Closed-Ordered held acc x c) in
      if_elim (λ (v : StreamTransport). Ordered held acc (wire v))
        (not (is_present u.direct_writer)) _ _
        (λ e. (controls-Ordered h abort held acc u tt refl o').0)
        (λ e. (controls-Ordered h abort held acc (shut u) tt refl o').0)

  closed-Stays :
      (held acc : List ℕ) (t : StreamTransport)
      → Ordered held acc (wire t)
      → Stays held acc (flush_pending_direct_write h t) (close_transport h t)
  unfolding close_transport
  closed-Stays held acc t o =
      let f = flush_pending_direct_write h t in
      close_flushed-Stays held acc (start_closing f)
        (closing-Ordered held acc (wire f) (flush-Ordered h held acc t o))

  pub shut-Ordered :
      (held acc : List ℕ) (t : StreamTransport)
      → Ordered held acc (wire t)
      → Ordered held acc (wire (close_flushed h (start_closing t)))
  shut-Ordered held acc t o =
      (close_flushed-Stays held acc (start_closing t) (closing-Ordered held acc (wire t) o)).0

  pub close-Ordered :
      (held acc : List ℕ) (t : StreamTransport)
      → Ordered held acc (wire t)
      → Ordered held acc (wire (close_transport h t))
  close-Ordered held acc t o = (closed-Stays held acc t o).0

  -- A closing transport has nothing staged.
  pub close-unstaged : (t : StreamTransport) → (close_transport h t).pending_direct_write ≡ none
  unfolding close_transport close_flushed send enqueue_event
  close-unstaged t =
      let goal : StreamTransport → Type 0 = λ u. u.pending_direct_write ≡ none in
      let n = flush-unstaged h t in
      if_elim goal (not (is_present (start_closing (flush_pending_direct_write h t)).direct_writer))
        _ _ (λ e. n)
        (λ e.
          if_elim goal (start_closing (flush_pending_direct_write h t)).lazy_writer _ _ (λ z. n)
            (λ z. n))

  -- A close that can still flush gives up nothing.
  pub close-whole :
      (held acc : List ℕ) (t : StreamTransport)
      → Ordered held acc (wire t)
      → (flush_pending_direct_write h t).closing ≡ false
      → (flush_pending_direct_write h t).queue.receiver_alive ≡ true
      → (close_transport h t).out ++ (held ++ queued (close_transport h t).queue) ≡ acc
  close-whole held acc t o c l =
      let f = flush_pending_direct_write h t in
      let s = closed-Stays held acc t o in
      let g = flush-Ordered h held acc t o in
      let nothing_lost : g.rest ≡ [] = elim (g.whole c) [
        | inl e ↦ e
        | inr (d, k) ↦ absurd (cc (d, l))
      ] in
      ap (λ xs. xs ++ (held ++ queued (close_transport h t).queue)) s.1
      ∙ ap (λ xs. f.out ++ (held ++ xs)) s.2
      ∙ ap (λ xs. f.out ++ (held ++ xs)) (sym (append-nil (queued f.queue)))
      ∙ ap (λ xs. f.out ++ (held ++ (queued f.queue ++ xs))) (sym nothing_lost)
      ∙ ap (λ p. f.out ++ (held ++ (queued f.queue ++ (staged_bytes p ++ g.rest))))
          (sym (flush-unstaged h t))
      ∙ g.bytes
