-- ===== src/WritePath/Ordered.antt =====
-- What the bytes of a transport are to those that were written, and failing and queueing a write.
use rsloop.Common.{
  ◌⊎◌, ℕ, ◌≡◌, refl, sym, ap, ◌∙◌, subst, Bool, true, false, List, [], ◌∷◌, ◌++◌, Option, none,
  some, append-nil, append_assoc, Bool-cases, inl, inr, All, ok, err,
}
use rsloop.Bytes.{Alloc}
use rsloop.Staging.{OwnedWriteBuffer}
use rsloop.Staging.Remaining.{IsWritable}
use rsloop.WriterQueue.{WriterCommand, QueueState, stop, enqueue, push_back}
use rsloop.WriterQueue.Order.{Sendable}
use rsloop.Events.{connection_lost}
use rsloop.WritePath.{
  IoError, enqueue_event, set_write_backpressure_active, Host, StreamTransport, Reply,
  clear_write_buffer,
}
use rsloop.WritePath.Direct.{error_text, send, fail_write, failed_write}
use rsloop.WritePath.Wire.{
  if_true, if_false, Wire, wire, wire-cleared, queued, staged_bytes, enqueue-Sent,
}

-- The bytes `held` by the worker stand between what the socket has taken and what is queued; what is
-- staged is behind that, and `rest` is what will not be sent any more.
pub record Ordered (held acc : List ℕ) (x : Wire) : Type 0 where
  pub rest : List ℕ
  pub bytes : x.out ++ (held ++ (queued x.queue ++ (staged_bytes x.pending ++ rest))) ≡ acc
  pub sendable : All Sendable x.queue.commands
  pub idle :
      x.present ≡ true → x.registered ≡ false → x.closing ≡ false → held ++ queued x.queue ≡ []
  pub stage :
      (w : OwnedWriteBuffer)
      → x.pending ≡ some w
      → IsWritable w
        × (x.present ≡ true)
        × (x.registered ≡ false)
        × (x.scheduled ≡ true)
        × (held ++ queued x.queue ≡ [])
  pub whole :
      x.closing ≡ false
      → (rest ≡ []) ⊎ ((x.queue.receiver_alive ≡ false) × (x.present ≡ true → x.registered ≡ true))

-- Nothing is staged, and the bytes that are left are a front of those that were written.
pub record Prefix (held acc : List ℕ) (x : Wire) : Type 0 where
  pub rest : List ℕ
  pub bytes : x.out ++ (held ++ (queued x.queue ++ rest)) ≡ acc
  pub sendable : All Sendable x.queue.commands

pub record Closed (held acc : List ℕ) (x : Wire) : Type 0 where
  pub is_closed : x.closing ≡ true
  pub empty : x.pending ≡ none
  pub front : Prefix held acc x

pub Closed-Ordered : (held acc : List ℕ) (x : Wire) → Closed held acc x → Ordered held acc x
Closed-Ordered held acc x c = record {
  rest = c.front.rest;
  bytes = rw c.empty c.front.bytes;
  sendable = c.front.sendable;
  idle = λ p r o. absurd (cc (o, c.is_closed));
  stage = λ w e. absurd (cc (e, c.empty));
  whole = λ o. absurd (cc (o, c.is_closed));
}

pub regroup : (a b c d e : List ℕ) → a ++ (b ++ (c ++ (d ++ e))) ≡ (a ++ (b ++ (c ++ d))) ++ e
regroup a b c d e = simp append_assoc

-- Without what is staged.
pub Ordered-Prefix : (held acc : List ℕ) (x : Wire) → Ordered held acc x → Prefix held acc x
Ordered-Prefix held acc x o = record {
  rest = staged_bytes x.pending ++ o.rest;
  bytes = o.bytes;
  sendable = o.sendable;
}

-- A write of `bytes` that succeeds puts them behind all bytes before them.
abbrev pub Writes : List ℕ → List ℕ → List ℕ → Reply → Type 0
Writes held acc bytes r = r.0 ≡ ok tt → Ordered held (acc ++ bytes) (wire r.1)

-- More bytes that will not be sent.
pub Closed-more :
    (held acc more : List ℕ) (x : Wire) → Closed held acc x → Closed held (acc ++ more) x
Closed-more held acc more x c = record {
  is_closed = c.is_closed;
  empty = c.empty;
  front = record {
    rest = c.front.rest ++ more;
    bytes =
        regroup x.out held (queued x.queue) c.front.rest more ∙ ap (λ xs. xs ++ more) c.front.bytes;
    sendable = c.front.sendable;
  };
}

pub enqueue_alive :
    (a : Alloc) (q : QueueState) (c : WriterCommand)
    → q.receiver_alive ≡ true
    → enqueue a q c ≡ (ok tt, record q { commands = push_back a q.commands c })
unfolding enqueue
enqueue_alive a q c l = rw l refl

pub enqueue_dead :
    (a : Alloc) (q : QueueState) (c : WriterCommand)
    → q.receiver_alive ≡ false
    → enqueue a q c ≡ (err c, q)
unfolding enqueue
enqueue_dead a q c l = rw l refl

module _ (h : Host) where
  stopped-Prefix :
      (held acc : List ℕ) (t : StreamTransport)
      → Prefix held acc (wire t)
      → Prefix held acc (wire (send h stop t).1)
  unfolding send
  stopped-Prefix held acc t p = elim (Bool-cases t.queue.receiver_alive) [
    | inl l ↦
        let s = enqueue-Sent h.alloc t.queue stop l p.sendable tt in
        rw (enqueue_alive h.alloc t.queue stop l) (record {
          rest = p.rest;
          bytes = rw (s.behind, append-nil (queued t.queue)) p.bytes;
          sendable = s.good;
        })
    | inr l ↦ rw (enqueue_dead h.alloc t.queue stop l) p
  ]

  failed_write-Closed :
      (here : Bool) (e : Option IoError) (held acc : List ℕ) (t : StreamTransport)
      → Prefix held acc (wire t)
      → Closed held acc (wire (failed_write h here e t))
  unfolding failed_write enqueue_event set_write_backpressure_active send
  failed_write-Closed here e held acc t p =
      let u : StreamTransport = record t {
        events = t.events ++ (connection_lost (error_text h e) ∷ []);
        closing = true;
        writer_registered = false;
        pending_direct_write = none;
        direct_write_scheduled = false;
      } in
      let same = wire-cleared here false u in
      let p' : Prefix held acc (wire u) = record {
        rest = p.rest;
        bytes = p.bytes;
        sendable = p.sendable;
      } in
      record {
        is_closed = ap Wire.closing same;
        empty = ap Wire.pending same;
        front =
            stopped-Prefix held acc (clear_write_buffer here false u)
              (subst (Prefix held acc) (sym same) p');
      }

  pub fail_write-Closed :
      (here : Bool) (e : Option IoError) (held acc : List ℕ) (t : StreamTransport)
      → Prefix held acc (wire t)
      → (t.closing ≡ true → t.pending_direct_write ≡ none)
      → Closed held acc (wire (fail_write h here e t))
  unfolding fail_write
  fail_write-Closed here e held acc t p n = elim (Bool-cases t.closing) [
    | inl c ↦
        subst (λ u. Closed held acc (wire u)) (sym (if_true t.closing t _ c))
          (record { is_closed = c; empty = n c; front = p })
    | inr c ↦
        subst (λ u. Closed held acc (wire u)) (sym (if_false t.closing t _ c))
          (failed_write-Closed here e held acc t p)
  ]
