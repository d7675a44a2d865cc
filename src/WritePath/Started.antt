-- ===== src/WritePath/Started.antt =====
-- The start of a worker from a transport that queues its bytes.
use rsloop.Common.{
  ℕ, ◌≡◌, refl, sym, ap, ◌∙◌, subst, ◌⊎◌, Bool, true, false, List, [], ◌∷◌, ◌++◌, Option, none,
  some, append-nil, append_assoc, Bool-cases, inl, inr, Result,
}
use rsloop.WriterQueue.{WriterCommand, QueueState, stop, enqueue, drop_receiver}
use rsloop.Events.{connection_lost}
use rsloop.WritePath.{
  IoError, enqueue_event, set_write_backpressure_active, Host, StreamTransport, clear_write_buffer,
  WorkerStart, worker_started, not_materialized, not_spawned,
}
use rsloop.WritePath.Direct.{
  error_text, start_lazy, send, fail_write, failed_write, ensure_writer_worker,
}
use rsloop.WritePath.Wire.{if_true, if_false, Wire, wire, wire-cleared, queued}
use rsloop.WritePath.Ordered.{Prefix, enqueue_alive, enqueue_dead, fail_write-Closed}

-- A transport that hands its bytes to the worker: nothing is staged, and a socket that could be
-- written directly is not.
pub record Queueable (held acc : List ℕ) (x : Wire) : Type 0 where
  pub front : Prefix held acc x
  pub is_open : x.closing ≡ false
  pub empty : x.pending ≡ none
  pub whole : x.queue.receiver_alive ≡ true → front.rest ≡ []
  pub flagged : x.present ≡ true → x.registered ≡ true

-- A worker that could not be started.
pub record Dead (held acc : List ℕ) (x : Wire) : Type 0 where
  pub front : Prefix held acc x
  pub empty : x.pending ≡ none
  pub receiver_gone : x.queue.receiver_alive ≡ false

pub dropped-Prefix :
    (held acc : List ℕ) (x : Wire)
    → Prefix held acc x
    → Prefix held acc (record x { queue = drop_receiver x.queue })
unfolding drop_receiver
dropped-Prefix held acc x p = record {
  rest = queued x.queue ++ p.rest;
  bytes = p.bytes;
  sendable = p.sendable;
}

pub behind_queued :
    (out held q rest acc bytes q' staged : List ℕ)
    → out ++ (held ++ (q ++ rest)) ≡ acc
    → rest ≡ []
    → q' ≡ q ++ bytes
    → staged ≡ []
    → out ++ (held ++ (q' ++ (staged ++ []))) ≡ acc ++ bytes
behind_queued out held q rest acc bytes q' staged e r b n =
    ap (λ xs. out ++ (held ++ (xs ++ (staged ++ [])))) b
    ∙ ap (λ xs. out ++ (held ++ ((q ++ bytes) ++ (xs ++ [])))) n
    ∙ moved
    ∙ ap (λ xs. (out ++ (held ++ (q ++ xs))) ++ bytes) (sym r)
    ∙ ap (λ xs. xs ++ bytes) e
  where
    moved : out ++ (held ++ ((q ++ bytes) ++ [])) ≡ (out ++ (held ++ (q ++ []))) ++ bytes
    moved = simp (append_assoc, append-nil)

module _ (h : Host) where
  send-alive :
      (c : WriterCommand) (t : StreamTransport)
      → (send h c t).1.queue.receiver_alive ≡ t.queue.receiver_alive
  unfolding send enqueue
  send-alive c t = elim (Bool-cases t.queue.receiver_alive) [
    | inl l ↦
        ap (λ (r : Result (Unit {0}) WriterCommand × QueueState). r.1.receiver_alive)
          (enqueue_alive h.alloc t.queue c l)
    | inr l ↦
        ap (λ (r : Result (Unit {0}) WriterCommand × QueueState). r.1.receiver_alive)
          (enqueue_dead h.alloc t.queue c l)
  ]

  fail_write-alive :
      (here : Bool) (e : Option IoError) (t : StreamTransport)
      → (fail_write h here e t).queue.receiver_alive ≡ t.queue.receiver_alive
  unfolding fail_write failed_write enqueue_event set_write_backpressure_active
  fail_write-alive here e t =
      let u : StreamTransport = record t {
        events = t.events ++ (connection_lost (error_text h e) ∷ []);
        closing = true;
        writer_registered = false;
        pending_direct_write = none;
        direct_write_scheduled = false;
      } in
      let kept =
        send-alive stop (clear_write_buffer here false u)
        ∙ ap (λ (x : Wire). x.queue.receiver_alive) (wire-cleared here false u) in
      elim (Bool-cases t.closing) [
        | inl c ↦ ap (λ (v : StreamTransport). v.queue.receiver_alive) (if_true t.closing t _ c)
        | inr c ↦
            ap (λ (v : StreamTransport). v.queue.receiver_alive) (if_false t.closing t _ c) ∙ kept
      ]

  start_lazy-cases :
      (s : WorkerStart) (held acc : List ℕ) (t : StreamTransport)
      → Queueable held acc (wire t)
      → Queueable held acc (wire (start_lazy h s t)) ⊎ Dead held acc (wire (start_lazy h s t))
  unfolding drop_receiver
  start_lazy-cases worker_started held acc t q = inl q
  start_lazy-cases (not_materialized e) held acc t q =
      let c = fail_write-Closed h true (some e) held acc t q.front (λ c. q.empty) in
      inr (record {
        front = dropped-Prefix held acc _ c.front;
        empty = c.empty;
        receiver_gone = refl;
      })
  start_lazy-cases (not_spawned e) held acc t q =
      let u : StreamTransport = record t { queue = drop_receiver t.queue } in
      let p = dropped-Prefix held acc (wire t) q.front in
      let c = fail_write-Closed h true (some e) held acc u p (λ c. q.empty) in
      inr (record {
        front = c.front;
        empty = c.empty;
        receiver_gone = fail_write-alive true (some e) u;
      })

  pub worker-cases :
      (held acc : List ℕ) (t : StreamTransport)
      → Queueable held acc (wire t)
      → Queueable held acc (wire (ensure_writer_worker h t))
        ⊎ Dead held acc (wire (ensure_writer_worker h t))
  unfolding ensure_writer_worker
  worker-cases held acc t q =
      let t' : StreamTransport = record t { lazy_writer = false } in
      let q' : Queueable held acc (wire t') = record {
        front = record { rest = q.front.rest; bytes = q.front.bytes; sendable = q.front.sendable };
        is_open = q.is_open;
        empty = q.empty;
        whole = q.whole;
        flagged = q.flagged;
      } in
      let goal : StreamTransport → Type 0 =
        λ u. Queueable held acc (wire u) ⊎ Dead held acc (wire u) in
      elim (Bool-cases t.lazy_writer) [
        | inl e ↦
            subst goal (sym (if_true t.lazy_writer _ t e))
              (start_lazy-cases h.start_worker held acc t' q')
        | inr e ↦ subst goal (sym (if_false t.lazy_writer _ t e)) (inl q)
      ]
