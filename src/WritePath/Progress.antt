-- ===== src/WritePath/Progress.antt =====
-- How far the worker is from having nothing to do.
use rsloop.Common.{
  ℕ, suc, ◌+◌, ◌-◌, ◌≤◌, ◌≡◌, refl, sym, ap, subst, ◌⊎◌, Bool, true, false, List, [], ◌∷◌, none,
  inl, inr, All, ok, ◌==◌, arith, length, drop, length-drop, is_nil,
}
use rsloop.Staging.{OwnedWriteBuffer, remaining, remaining_len, advance}
use rsloop.WriterQueue.{QueueState, WriterCommand, payload, write_eof, close, abort, stop}
use rsloop.WritePath.{
  Host, StreamTransport, set_write_backpressure_active, record_write_buffer_drained,
  notify_resume_writing, enqueue_event,
}
use rsloop.WritePath.Worker.{
  Worker, waiting, holding, writing, draining, looking, clearing, clearing_again, leaving, ended,
  Stage,
}
use rsloop.WritePath.Wire.{if_elim, Wire, wire}

-- A socket that takes some of whatever it is offered.
abbrev pub TakesSome : Host → Type 0
TakesSome h = (k : ℕ) (bytes : List ℕ) → 1 ≤ length bytes → (n : ℕ) × (h.write k bytes ≡ ok (suc n))

abbrev pub is_payload : WriterCommand → Bool
is_payload (payload w) = true
is_payload write_eof = false
is_payload close = false
is_payload abort = false
is_payload stop = false

abbrev pub is_at_work : Worker → Bool
is_at_work waiting = true
is_at_work (holding c) = is_payload c
is_at_work (writing n w) = true
is_at_work (draining n) = true
is_at_work looking = true
is_at_work clearing = true
is_at_work clearing_again = true
is_at_work (leaving p) = false
is_at_work ended = false

abbrev command_len : WriterCommand → ℕ
command_len (payload w) = remaining_len w
command_len write_eof = 0
command_len close = 0
command_len abort = 0
command_len stop = 0

-- The steps that the commands of a queue take, seven for each beside those of its bytes.
abbrev pub queue_cost : List WriterCommand → ℕ
queue_cost [] = 0
queue_cost (c ∷ cs) = 7 + command_len c + queue_cost cs

-- The steps that the worker takes at most until it has nothing to do.
abbrev pub cost : Worker → List WriterCommand → ℕ
cost waiting cs = queue_cost cs
cost (holding c) cs = 6 + command_len c + queue_cost cs
cost (writing n w) cs = 5 + remaining_len w + queue_cost cs
cost (draining n) cs = 4 + queue_cost cs
cost looking cs = 3 + queue_cost cs
cost clearing cs = 2 + queue_cost cs
cost clearing_again cs = 1 + queue_cost cs
cost (leaving p) cs = 0
cost ended cs = 0

-- A transport that is open and has nothing staged, whose worker has been started and has only
-- payloads to write, and has not cleared the flag of backpressure while it has any.
pub record IsPlain (k : Worker) (x : Wire) : Type 0 where
  pub open_still : x.closing ≡ false
  pub unstaged : x.pending ≡ none
  pub sender : x.queue.sender_alive ≡ true
  pub receiver : x.queue.receiver_alive ≡ true
  pub hand : is_at_work k ≡ true
  pub payloads : All (λ c. is_payload c ≡ true) x.queue.commands
  pub owed : (1 ≤ cost k x.queue.commands) ⊎ (x.registered ≡ false)

-- A step that gets nearer, or has nothing to do.
pub record Advances (k : Worker) (t : StreamTransport) (s : Stage) : Type 0 where
  pub plain : IsPlain s.0 (wire s.1)
  pub awake : s.1.lazy_writer ≡ t.lazy_writer
  pub nearer :
      (suc (cost s.0 s.1.queue.commands) ≤ cost k t.queue.commands)
      ⊎ ((cost k t.queue.commands ≡ 0) × (cost s.0 s.1.queue.commands ≡ 0))

length-drop_sum :
    (a n : ℕ) (bytes : List ℕ) → length (drop (a + n) bytes) ≡ length (drop a bytes) - n
length-drop_sum a n bytes = omega (arith, length-drop (a + n) bytes, length-drop a bytes)

pub remaining_len-advance :
    (w : OwnedWriteBuffer) (n : ℕ) → remaining_len (advance w n) ≡ remaining_len w - n
unfolding remaining_len remaining advance
remaining_len-advance w n = length-drop_sum w.offset n _

pub nonempty_len : (bytes : List ℕ) → is_nil bytes ≡ false → 1 ≤ length bytes
nonempty_len [] e = absurd (cc e)
nonempty_len (x ∷ xs) e = omega arith

pub lazy-drained :
    (n : ℕ) (t : StreamTransport)
    → (record_write_buffer_drained false n t).lazy_writer ≡ t.lazy_writer
unfolding record_write_buffer_drained notify_resume_writing enqueue_event
lazy-drained n t =
    let goal : StreamTransport → Type 0 = λ u. u.lazy_writer ≡ t.lazy_writer in
    if_elim goal (n == 0) _ _ (λ e. refl) (λ e. if_elim goal _ _ _ (λ z. refl) (λ z. refl))

pub taken-Advances :
    (k : Worker) (t : StreamTransport) (c : WriterCommand) (cs : List WriterCommand)
    → IsPlain k (wire t)
    → t.queue.commands ≡ c ∷ cs
    → queue_cost t.queue.commands ≤ cost k t.queue.commands
    → Advances k t (holding c, record t { queue = record t.queue { commands = cs } })
taken-Advances k t c cs p e le =
    let v = subst (All (λ d. is_payload d ≡ true)) e p.payloads in
    record {
      plain = record {
        open_still = p.open_still;
        unstaged = p.unstaged;
        sender = p.sender;
        receiver = p.receiver;
        hand = v.0;
        payloads = v.1;
        owed = inl (omega arith);
      };
      awake = refl;
      nearer = inl (omega (arith, le, ap queue_cost e));
    }

-- A step that leaves the queue and more to do.
pub on-Advances :
    (k k' : Worker) (t u : StreamTransport) (o : List ℕ)
    → IsPlain k (wire t)
    → wire u ≡ record (wire t) { out = o }
    → u.lazy_writer ≡ t.lazy_writer
    → is_at_work k' ≡ true
    → 1 ≤ cost k' t.queue.commands
    → suc (cost k' t.queue.commands) ≤ cost k t.queue.commands
    → Advances k t (k', u)
on-Advances k k' t u o p e z a one le =
    let q : u.queue ≡ t.queue = ap (λ (x : Wire). x.queue) e in
    record {
      plain = subst (IsPlain k') (sym e) (record {
        open_still = p.open_still;
        unstaged = p.unstaged;
        sender = p.sender;
        receiver = p.receiver;
        hand = a;
        payloads = p.payloads;
        owed = inl one;
      });
      awake = z;
      nearer = inl (
          subst (λ (r : QueueState). suc (cost k' r.commands) ≤ cost k t.queue.commands) (sym q)
            le);
    }

pub clears-Advances :
    (k k' : Worker) (t : StreamTransport)
    → IsPlain k (wire t)
    → is_at_work k' ≡ true
    → suc (cost k' t.queue.commands) ≤ cost k t.queue.commands
    → Advances k t (k', set_write_backpressure_active false t)
unfolding set_write_backpressure_active
clears-Advances k k' t p a le = record {
  plain = record {
    open_still = p.open_still;
    unstaged = p.unstaged;
    sender = p.sender;
    receiver = p.receiver;
    hand = a;
    payloads = p.payloads;
    owed = inr refl;
  };
  awake = refl;
  nearer = inl le;
}
