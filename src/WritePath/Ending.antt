-- ===== src/WritePath/Ending.antt =====
-- What the worker has in its hands, and how it takes, writes and leaves it.
use rsloop.Common.{
  ℕ, ◌≤◌, ◌≡◌, refl, sym, ap, ◌∙◌, subst, true, false, not, ◌&&◌, List, [], ◌∷◌, ◌++◌, Option, none,
  append_assoc, arith, Bool-cases, Option-cases, inl, inr, All, length, take, drop, drop-nil,
  take-append-drop,
}
use rsloop.Staging.{OwnedWriteBuffer, remaining, advance}
use rsloop.Staging.Remaining.{IsWritable, advance_lem}
use rsloop.WriterQueue.{QueueState, WriterCommand, drop_receiver}
use rsloop.WriterQueue.Order.{Sendable, all_items}
use rsloop.WritePath.{IoError, Host, StreamTransport, enqueue_event}
use rsloop.WritePath.Worker.{
  Worker, waiting, holding, writing, draining, looking, clearing, clearing_again, leaving, ended,
  Stage, end_worker, lose,
}
use rsloop.WritePath.Wire.{
  if_true, Wire, wire, bytes_of, queued, staged_bytes, payload_bytes, queued-first,
}
use rsloop.WritePath.Ordered.{Ordered}
use rsloop.WritePath.Staged.{nil_parts}

abbrev pub hand : Worker → List ℕ
hand waiting = []
hand (holding c) = bytes_of c
hand (writing n w) = remaining w
hand (draining n) = []
hand looking = []
hand clearing = []
hand clearing_again = []
hand (leaving p) = staged_bytes p
hand ended = []

-- What is known at each of its stages: it clears the flag of an empty queue.
abbrev pub Grips : Worker → QueueState → Type 0
Grips waiting q = Unit {0}
Grips (holding c) q = Sendable c
Grips (writing n w) q = IsWritable w
Grips (draining n) q = Unit {0}
Grips looking q = Unit {0}
Grips clearing q = queued q ≡ []
Grips clearing_again q = queued q ≡ []
Grips (leaving p) q = Unit {0}
Grips ended q = Unit {0}

-- The stage of a transport that was given the bytes `acc`.
pub record IsStage (acc : List ℕ) (s : Stage) : Type 0 where
  pub ordered : Ordered (hand s.0) acc (wire s.1)
  pub grips : Grips s.0 s.1.queue

-- A worker that ends leaves what it held and what is queued.
left_over :
    (out held q rest acc : List ℕ) (p : Option OwnedWriteBuffer)
    → p ≡ none
    → out ++ (held ++ (q ++ (staged_bytes p ++ rest))) ≡ acc
    → out ++ ([] ++ ([] ++ (staged_bytes p ++ (held ++ (q ++ rest))))) ≡ acc
left_over out held q rest acc p n e =
    ap (λ o. out ++ (staged_bytes o ++ (held ++ (q ++ rest)))) n
    ∙ ap (λ o. out ++ (held ++ (q ++ (staged_bytes o ++ rest)))) (sym n)
    ∙ e

nothing_left :
    (out held q s acc : List ℕ)
    → held ≡ []
    → q ≡ []
    → out ++ (held ++ (q ++ s)) ≡ acc
    → out ++ ([] ++ ([] ++ s)) ≡ acc
nothing_left out held q s acc n m e = rw (← e) (rw (n, m) refl)

pub ended-Ordered :
    (held acc : List ℕ) (x : Wire)
    → Ordered held acc x
    → Ordered [] acc (record x { queue = drop_receiver x.queue })
unfolding drop_receiver
ended-Ordered held acc x o = elim (Bool-cases (x.present && not x.registered && not x.closing)) [
  | inl e ↦
      let p : x.present ≡ true = ground (arith, e) in
      let r : x.registered ≡ false = ground (arith, e) in
      let c : x.closing ≡ false = ground (arith, e) in
      let n = nil_parts held (queued x.queue) (o.idle p r c) in
      let nothing_lost : o.rest ≡ [] = elim (o.whole c) [
        | inl z ↦ z
        | inr (d, f) ↦ absurd (cc (f p, r))
      ] in
      record {
        rest = o.rest;
        bytes =
            nothing_left x.out held (queued x.queue) (staged_bytes x.pending ++ o.rest) acc n.0 n.1
              o.bytes;
        sendable = o.sendable;
        idle = λ a b d. refl;
        stage = λ w n. let s = o.stage w n in (s.0, s.1, s.2, s.3, refl);
        whole = λ d. inl nothing_lost;
      }
  | inr e ↦ elim (Option-cases x.pending) [
    | inl empty ↦ record {
      rest = held ++ (queued x.queue ++ o.rest);
      bytes = left_over x.out held (queued x.queue) o.rest acc x.pending empty o.bytes;
      sendable = o.sendable;
      idle = λ a b d. refl;
      stage = λ w n. absurd (cc (n, empty));
      whole = λ c. inr (refl, λ p. ground (arith, e, c, p));
    }
    | inr (w, n) ↦
        let s = o.stage w n in
        let m = nil_parts held (queued x.queue) s.4 in
        record {
          rest = o.rest;
          bytes =
              nothing_left x.out held (queued x.queue) (staged_bytes x.pending ++ o.rest) acc m.0
                m.1 o.bytes;
          sendable = o.sendable;
          idle = λ a b d. refl;
          stage = λ v z. let t = o.stage v z in (t.0, t.1, t.2, t.3, refl);
          whole = λ c. absurd (ground (arith, e, c, s.1, s.2));
        }
  ]
]

pub end-IsStage :
    (held acc : List ℕ) (t : StreamTransport)
    → Ordered held acc (wire t)
    → IsStage acc (end_worker t)
unfolding end_worker
end-IsStage held acc t o = record { ordered = ended-Ordered held acc (wire t) o; grips = tt }

pub lose-IsStage :
    (h : Host) (p : Option OwnedWriteBuffer) (e : Option IoError) (acc : List ℕ)
    (t : StreamTransport)
    → Ordered (staged_bytes p) acc (wire t)
    → IsStage acc (lose h p e t)
unfolding lose enqueue_event
lose-IsStage h p e acc t o = record { ordered = o; grips = tt }

-- A command that leaves the queue.
pub taken-Ordered :
    (acc : List ℕ) (x : Wire) (c : WriterCommand) (cs : List WriterCommand)
    → Ordered [] acc x
    → x.queue.receiver_alive ≡ true
    → x.queue.commands ≡ c ∷ cs
    → Ordered (bytes_of c) acc (record x { queue = record x.queue { commands = cs } }) × Sendable c
taken-Ordered acc x c cs o l e =
    let q' : QueueState = record x.queue { commands = cs } in
    let rest_bytes = payload_bytes (all_items cs) in
    let split : queued x.queue ≡ bytes_of c ++ queued q' =
      if_true x.queue.receiver_alive (payload_bytes (all_items x.queue.commands)) [] l
      ∙ ap (λ ds. payload_bytes (all_items ds)) e
      ∙ queued-first c cs
      ∙ ap (◌++◌ (bytes_of c)) (sym (if_true x.queue.receiver_alive rest_bytes [] l)) in
    let all : All Sendable (c ∷ cs) = subst (All Sendable) e o.sendable in
    let s = staged_bytes x.pending ++ o.rest in
    (
      record {
        rest = o.rest;
        bytes =
            ap (◌++◌ x.out) (sym (append_assoc (bytes_of c) (queued q') s))
            ∙ ap (λ xs. x.out ++ (xs ++ s)) (sym split)
            ∙ o.bytes;
        sendable = all.1;
        idle = λ p r z. sym split ∙ o.idle p r z;
        stage = λ w n. let s = o.stage w n in (s.0, s.1, s.2, s.3, sym split ∙ s.4);
        whole = o.whole;
      },
      all.0,
    )

-- The worker clears the flag of a queue that was empty.
pub cleared-Ordered :
    (acc : List ℕ) (x : Wire)
    → Ordered [] acc x
    → queued x.queue ≡ []
    → x.queue.receiver_alive ≡ true
    → Ordered [] acc (record x { registered = false })
cleared-Ordered acc x o n l = record {
  rest = o.rest;
  bytes = o.bytes;
  sendable = o.sendable;
  idle = λ p r z. n;
  stage = λ w e. let s = o.stage w e in (s.0, s.1, refl, s.3, s.4);
  whole = λ c. elim (o.whole c) [ inl z ↦ inl z | inr (d, f) ↦ absurd (cc (d, l)) ];
}

-- The socket takes a part of the buffer that the worker writes.
pub part-Ordered :
    (acc : List ℕ) (x : Wire) (w : OwnedWriteBuffer) (n : ℕ)
    → Ordered (remaining w) acc x
    → IsWritable w
    → n ≤ length (remaining w)
    → Ordered (remaining (advance w n)) acc (record x { out = x.out ++ take n (remaining w) })
      × IsWritable (advance w n)
part-Ordered acc x w n o v le =
    let l = advance_lem w n v le in
    let bytes = remaining w in
    let s = queued x.queue ++ (staged_bytes x.pending ++ o.rest) in
    let still : bytes ++ queued x.queue ≡ [] → remaining (advance w n) ++ queued x.queue ≡ [] = λ e.
      let m = nil_parts bytes (queued x.queue) e in
      ap (λ xs. xs ++ queued x.queue) (l.1 ∙ ap (drop n) m.0 ∙ drop-nil n) ∙ m.1 in
    (
      record {
        rest = o.rest;
        bytes =
            ap (λ xs. (x.out ++ take n bytes) ++ (xs ++ s)) l.1
            ∙ append_assoc x.out (take n bytes) (drop n bytes ++ s)
            ∙ ap (◌++◌ x.out) (
                sym (append_assoc (take n bytes) (drop n bytes) s)
                ∙ ap (λ xs. xs ++ s) (take-append-drop n bytes))
            ∙ o.bytes;
        sendable = o.sendable;
        idle = λ p r c. still (o.idle p r c);
        stage = λ v z. let t = o.stage v z in (t.0, t.1, t.2, t.3, still t.4);
        whole = o.whole;
      },
      l.0,
    )
