-- ===== src/WritePath/Drained.antt =====
-- A worker that is given its turns delivers what was written.
use rsloop.Common.{
  Bool, Result, err, if◌then◌else◌, ℕ, zero, suc, ◌≤◌, ◌≡◌, refl, sym, ap, ◌∙◌, subst, true, false,
  not, ◌&&◌, List, [], ◌∷◌, ◌++◌, append-nil, arith, inl, inr, All, none, ◌⊎◌, Bool-cases, ◌==◌,
  ==_iff, if_elim,
}
use rsloop.WriterQueue.Fifo.{dequeue_nothing}
use rsloop.WriterQueue.{QueueState, TryRecvError, empty, disconnected, WriterCommand}
use rsloop.WritePath.{Host, StreamTransport}
use rsloop.WritePath.Worker.{
  received_command, Worker, waiting, holding, writing, draining, looking, clearing, clearing_again,
  leaving, ended, work,
}
use rsloop.WritePath.Wire.{if_true, wire, queued, staged_bytes}
use rsloop.WritePath.Ending.{hand}
use rsloop.WritePath.Working.{empty_queue}
use rsloop.WritePath.Progress.{is_payload, TakesSome, is_at_work, cost, IsPlain}
use rsloop.WritePath.Advancing.{work-Advances}
use rsloop.WritePath.Run.{is_begun, worked_run, Act, works, Run, start, act, run}
use rsloop.WritePath.Undisturbed.{IsFresh, InOrder, start-InOrder, run-InOrder}

abbrev pub works_only : ℕ → List Act
works_only zero = []
works_only (suc n) = works ∷ works_only n

-- A run between two calls of the program, of a transport that is open and has nothing staged, whose
-- worker has been started and has only payloads to write.
pub record IsWorking (r : Run) : Type 0 where
  pub between : is_begun r.status ≡ false
  pub awake : r.transport.lazy_writer ≡ false
  pub open_still : r.transport.closing ≡ false
  pub unstaged : r.transport.pending_direct_write ≡ none
  pub sender : r.transport.queue.sender_alive ≡ true
  pub receiver : r.transport.queue.receiver_alive ≡ true
  pub at_work : is_at_work r.worker ≡ true
  pub payloads : All (λ c. is_payload c ≡ true) r.transport.queue.commands

record Settles (r r' : Run) : Type 0 where
  plain : IsPlain r'.worker (wire r'.transport)
  done : cost r'.worker r'.transport.queue.commands ≡ 0
  spoilt : r'.spoilt ≡ r.spoilt
  given : r'.given_bytes ≡ r.given_bytes

no_cost :
    (k : Worker) (cs : List WriterCommand)
    → is_at_work k ≡ true
    → cost k cs ≡ 0
    → (k ≡ waiting) × (cs ≡ [])
no_cost waiting [] a e = (refl, refl)
no_cost waiting (c ∷ cs) a e = absurd (omega (arith, e))
no_cost (holding c) cs a e = absurd (omega (arith, e))
no_cost (writing n w) cs a e = absurd (omega (arith, e))
no_cost (draining n) cs a e = absurd (omega (arith, e))
no_cost looking cs a e = absurd (omega (arith, e))
no_cost clearing cs a e = absurd (omega (arith, e))
no_cost clearing_again cs a e = absurd (omega (arith, e))
no_cost (leaving p) cs a e = absurd (cc a)
no_cost ended cs a e = absurd (cc a)

module _ (h : Host) (some_taken : TakesSome h) where
  works-Settles :
      (n : ℕ) (r : Run)
      → IsPlain r.worker (wire r.transport)
      → is_begun r.status ≡ false
      → r.transport.lazy_writer ≡ false
      → cost r.worker r.transport.queue.commands ≤ n
      → Settles r (run h r (works_only n))
  unfolding run act
  works-Settles zero r p b z le = record {
    plain = p;
    done = omega (arith, le);
    spoilt = refl;
    given = refl;
  }
  works-Settles (suc n) r p b z le =
      let s = work h r.worker r.transport in
      let next : Run = worked_run r s in
      let a = work-Advances h some_taken r.worker r.transport p in
      let i =
        works-Settles n next a.plain b (a.awake ∙ z)
          (elim a.nearer [ inl l ↦ omega (arith, l, le) | inr c ↦ omega (arith, c.1) ]) in
      let turn : (r.transport.queue.receiver_alive && not r.transport.lazy_writer) ≡ true =
        ground (arith, p.receiver, z) in
      subst (λ u. Settles r (run h u (works_only n))) (sym (if_true _ next r turn))
        (record {
          plain = i.plain;
          done = i.done;
          spoilt = i.spoilt ∙ ground (arith, b);
          given = i.given;
        })

working-IsPlain :
    (r : Run)
    → IsWorking r
    → (1 ≤ cost r.worker r.transport.queue.commands) ⊎ (r.transport.writer_registered ≡ false)
    → IsPlain r.worker (wire r.transport)
working-IsPlain r w o = record {
  open_still = w.open_still;
  unstaged = w.unstaged;
  sender = w.sender;
  receiver = w.receiver;
  hand = w.at_work;
  payloads = w.payloads;
  owed = o;
}

-- A worker that has nothing to do does nothing.
module _ (h : Host) where
  idle_work :
      (t : StreamTransport)
      → t.queue.commands ≡ []
      → t.queue.sender_alive ≡ true
      → work h waiting t ≡ (waiting, t)
  unfolding work
  idle_work t c s =
      let goal : Result WriterCommand TryRecvError × QueueState → Type 0 =
        λ r. received_command h r t ≡ (waiting, t) in
      subst goal (sym (dequeue_nothing t.queue c))
        (subst (λ b. goal (err (if b then empty else disconnected), t.queue)) (sym s) refl)

  idle_act :
      (r : Run)
      → IsWorking r
      → r.worker ≡ waiting
      → r.transport.queue.commands ≡ []
      → act h r works ≡ r
  unfolding act
  idle_act r w k c =
      let still : work h r.worker r.transport ≡ (r.worker, r.transport) =
        ap (λ v. work h v r.transport) k
        ∙ idle_work r.transport c w.sender
        ∙ ap (λ (v : Worker). (v, r.transport)) (sym k) in
      if_elim (λ (u : Run). u ≡ r) (r.transport.queue.receiver_alive && not r.transport.lazy_writer)
        _ _
        (λ b.
          subst (λ s. worked_run r s ≡ r) (sym still)
            (ap (λ (z : Bool). record r { spoilt = z }) (ground (arith, w.between))))
        (λ b. refl)

  idle_works :
      (n : ℕ) (r : Run)
      → IsWorking r
      → r.worker ≡ waiting
      → r.transport.queue.commands ≡ []
      → run h r (works_only n) ≡ r
  unfolding run
  idle_works zero r w k c = refl
  idle_works (suc n) r w k c =
      ap (λ u. run h u (works_only n)) (idle_act r w k c) ∙ idle_works n r w k c

-- All bytes given to a transport are with the socket, in order.
delivered :
    (h : Host) (r u : Run)
    → InOrder u
    → u.worker ≡ waiting
    → u.transport.queue.commands ≡ []
    → u.transport.closing ≡ false
    → u.transport.pending_direct_write ≡ none
    → u.transport.queue.receiver_alive ≡ true
    → u.given_bytes ≡ r.given_bytes
    → u.transport.out ≡ r.given_bytes
delivered h r u i k c d p l g =
    let o = i.stage.ordered in
    let nothing_lost : o.rest ≡ [] = elim (o.whole d) [
      | inl z ↦ z
      | inr (e, f) ↦ absurd (cc (e, l))
    ] in
    let nothing_held : hand u.worker
          ++ (queued u.transport.queue ++ (staged_bytes u.transport.pending_direct_write ++ o.rest))
        ≡ [] =
      rw (ap hand k, empty_queue h u.transport.queue c, ap staged_bytes p, nothing_lost) refl in
    sym (append-nil u.transport.out)
    ∙ ap (λ xs. u.transport.out ++ xs) (sym nothing_held)
    ∙ o.bytes
    ∙ g

-- With a socket that takes some of whatever it is offered, let a run from a transport that has not
-- been written to be one in which no write raises, nothing the program does, nor the time between a
-- write's reading of the flags and its end, overlaps with the worker's finding the queue empty and its
-- clearing of the flag, and the protocol is told to pause or to resume only as the last that an
-- operation does. Let it be between two calls of the program, the transport open with nothing staged,
-- its worker started with only payloads to write. Then so many further turns of the worker as its
-- commands and bytes cost leave nothing queued, the worker waiting, and all bytes given to the
-- transport, in order, with the socket. The flag of backpressure is clear afterwards, unless it was set
-- while the worker had nothing to do.
pub works-Deliver :
    (h : Host) (t : StreamTransport) (acts : List Act) (n : ℕ)
    → TakesSome h
    → IsFresh t
    → (run h (start t) acts).spoilt ≡ false
    → IsWorking (run h (start t) acts)
    → (let r = run h (start t) acts in cost r.worker r.transport.queue.commands ≤ n)
    → let r = run h (start t) acts in
      let u = run h r (works_only n) in
      (u.worker ≡ waiting)
      × (u.transport.queue.commands ≡ [])
      × (u.transport.writer_registered
          ≡ (r.transport.writer_registered && cost r.worker r.transport.queue.commands == 0))
      × (u.transport.out ≡ r.given_bytes)
works-Deliver h t acts n some_taken f e w le =
    let r = run h (start t) acts in
    let u = run h r (works_only n) in
    let k = cost r.worker r.transport.queue.commands in
    let i = run-InOrder h (start t) acts (start-InOrder t f) e in
    elim (Bool-cases (k == 0)) [
      | inl z ↦
          let idle = no_cost r.worker r.transport.queue.commands w.at_work ((==_iff k 0).0 z) in
          let same = idle_works h n r w idle.0 idle.1 in
          (
            ap Run.worker same ∙ idle.0,
            ap (λ (v : Run). v.transport.queue.commands) same ∙ idle.1,
            ap (λ (v : Run). v.transport.writer_registered) same ∙ ground (arith, z),
            ap (λ (v : Run). v.transport.out) same
                ∙ delivered h r r i idle.0 idle.1 w.open_still w.unstaged w.receiver refl,
          )
      | inr z ↦
          let one : 1 ≤ k = ground (arith, z) in
          let s =
            works-Settles h some_taken n r (working-IsPlain r w (inl one)) w.between w.awake le in
          let idle = no_cost u.worker u.transport.queue.commands s.plain.hand s.done in
          let cleared : u.transport.writer_registered ≡ false = elim s.plain.owed [
            | inl l ↦ absurd (omega (arith, l, s.done))
            | inr c ↦ c
          ] in
          (
            idle.0,
            idle.1,
            cleared ∙ ground (arith, z),
            delivered h r u (run-InOrder h r (works_only n) i (s.spoilt ∙ e)) idle.0 idle.1
                s.plain.open_still s.plain.unstaged s.plain.receiver s.given,
          )
    ]
