-- ===== src/WritePath/Undisturbed.antt =====
-- A run that is not spoilt keeps the bytes in order.
use rsloop.Common.{
  ◌∙◌, sym, ℕ, ◌≡◌, refl, ap, Bool, true, false, not, ◌&&◌, ◌||◌, List, [], ◌∷◌, none, Bool-cases,
  inl, inr, arith, Result, ok, err, Option, subst, if_elim, if◌then◌else◌, some,
}
use rsloop.WriterQueue.{QueueState, new_queue}
use rsloop.WritePath.{IoError, Host, StreamTransport, Reply}
use rsloop.WritePath.Writes.{WriteStatus, write_status, joined_bytes, write_data, writelines}
use rsloop.WritePath.Worker.{
  work, Worker, waiting, holding, writing, draining, looking, clearing, clearing_again, leaving,
  ended,
}
use rsloop.WritePath.Wire.{if_true, if_false, wire, queued}
use rsloop.WritePath.Ordered.{Ordered, Writes}
use rsloop.WritePath.Flush.{flush-Ordered}
use rsloop.WritePath.Given.{given, write_data-Ordered, writelines-Ordered}
use rsloop.WritePath.Ending.{hand, Grips, IsStage}
use rsloop.WritePath.Working.{work-IsStage}
use rsloop.WritePath.Closing.{
  shut-Ordered, eof_flushed-Ordered, close-Ordered, abort-Ordered, deliver_loss-Ordered,
  end_writing-Ordered,
}
use rsloop.WritePath.Status.{write_status-work}
use rsloop.WritePath.Run.{
  worked_run, begins, shuts, ends, is_disturbing, is_begun, status_of, free_act, Act, writes,
  writes_lines, flushes, closes, aborts, ends_writing, loses, turns, works, is_clearing, is_err,
  Run, start, wrote_run, moved_run, act, run,
}

-- A transport that has been opened and not written to.
pub record IsFresh (t : StreamTransport) : Type 0 where
  pub silent : t.out ≡ []
  pub unstaged : t.pending_direct_write ≡ none
  pub unqueued : t.queue ≡ new_queue

-- What a run keeps; a write that has begun has read the flags of now.
pub record InOrder (r : Run) : Type 0 where
  pub stage : IsStage r.given_bytes (r.worker, r.transport)
  pub seen : status_of r.status r.transport ≡ write_status r.transport

pub fresh-Ordered : (t : StreamTransport) → IsFresh t → Ordered [] [] (wire t)
fresh-Ordered t f = record {
  rest = [];
  bytes = rw (f.silent, f.unstaged, f.unqueued) refl;
  sendable = rw f.unqueued tt;
  idle = λ p r c. ap queued f.unqueued;
  stage = λ w e. absurd (cc (e, f.unstaged));
  whole = λ c. inl refl;
}

-- The program changes nothing that the worker relies on, but for the queue that it found empty.
same_holding : (k : Worker) (q q' : QueueState) → is_clearing k ≡ false → Grips k q → Grips k q'
same_holding waiting q q' c g = g
same_holding (holding x) q q' c g = g
same_holding (writing n w) q q' c g = g
same_holding (draining n) q q' c g = g
same_holding looking q q' c g = g
same_holding clearing q q' c g = absurd (cc c)
same_holding clearing_again q q' c g = absurd (cc c)
same_holding (leaving p) q q' c g = g
same_holding ended q q' c g = g

pub start-InOrder : (t : StreamTransport) → IsFresh t → InOrder (start t)
start-InOrder t f = record {
  stage = record { ordered = fresh-Ordered t f; grips = tt };
  seen = refl;
}

or_false : (a b : Bool) → (a || b) ≡ false → (a ≡ false) × (b ≡ false)
or_false a b e = (ground (arith, e), ground (arith, e))

answer_ok : (r : Result (Unit {0}) IoError) → is_err r ≡ false → r ≡ ok tt
answer_ok (ok u) e = refl
answer_ok (err x) e = absurd (cc e)

unread :
    (s : Option WriteStatus) (t : StreamTransport)
    → is_begun s ≡ false
    → status_of s t ≡ write_status t
unread none t e = refl
unread (some s) t e = absurd (cc e)

still_read :
    (s : Option WriteStatus) (t u : StreamTransport)
    → status_of s t ≡ write_status t
    → (is_begun s ≡ true → write_status u ≡ write_status t)
    → status_of s u ≡ write_status u
still_read none t u e f = refl
still_read (some s) t u e f = e ∙ sym (f refl)

undisturbed :
    (s : Option WriteStatus) (b : Bool) → is_begun s ≡ true → (is_begun s && b) ≡ false → b ≡ false
undisturbed s b e f = ground (arith, e, f)

wrote-InOrder :
    (r : Run) (bytes : List ℕ) (reply : Reply)
    → InOrder r
    → Writes (hand r.worker) r.given_bytes (given r.transport bytes) reply
    → (wrote_run r bytes reply).spoilt ≡ false
    → InOrder (wrote_run r bytes reply)
wrote-InOrder r bytes reply i w e =
    let s = or_false (is_err reply.0) _ (or_false r.spoilt _ e).1 in
    let c = or_false (is_clearing r.worker) _ s.1 in
    record {
      stage = record {
        ordered = w (answer_ok reply.0 s.0);
        grips = same_holding r.worker r.transport.queue reply.1.queue c.0 i.stage.grips;
      };
      seen = refl;
    }

moved-InOrder :
    (r : Run) (within : Bool) (t : StreamTransport)
    → InOrder r
    → is_begun r.status ≡ false
    → Ordered (hand r.worker) r.given_bytes (wire t)
    → (moved_run r within t).spoilt ≡ false
    → InOrder (moved_run r within t)
moved-InOrder r within t i b o e = record {
  stage = record {
    ordered = o;
    grips =
        same_holding r.worker r.transport.queue t.queue
          (or_false (is_clearing r.worker) within (or_false r.spoilt _ e).1).0 i.stage.grips;
  };
  seen = unread r.status t b;
}

module _ (h : Host) where
  worked-InOrder :
      (r : Run)
      → InOrder r
      → r.transport.queue.receiver_alive ≡ true
      → (r.spoilt || (is_begun r.status && is_disturbing r.worker r.transport.queue.commands))
        ≡ false
      → InOrder (worked_run r (work h r.worker r.transport))
  worked-InOrder r i alive e = record {
    stage = work-IsStage h r.given_bytes r.worker r.transport i.stage alive;
    seen = still_read r.status r.transport (work h r.worker r.transport).1 i.seen (λ b.
        write_status-work h r.worker r.transport
          (undisturbed r.status _ b (or_false r.spoilt _ e).1));
  }

  free_act-InOrder :
      (r : Run) (a : Act)
      → InOrder r
      → is_begun r.status ≡ false
      → (free_act h r a).spoilt ≡ false
      → InOrder (free_act h r a)
  unfolding free_act
  free_act-InOrder r flushes i b e =
      moved-InOrder r _ _ i b
        (flush-Ordered h (hand r.worker) r.given_bytes r.transport i.stage.ordered) e
  free_act-InOrder r closes i b e =
      moved-InOrder r _ _ i b
        (close-Ordered h (hand r.worker) r.given_bytes r.transport i.stage.ordered) e
  free_act-InOrder r shuts i b e =
      moved-InOrder r _ _ i b
        (shut-Ordered h (hand r.worker) r.given_bytes r.transport i.stage.ordered) e
  free_act-InOrder r aborts i b e =
      moved-InOrder r _ _ i b
        (abort-Ordered h (hand r.worker) r.given_bytes r.transport i.stage.ordered) e
  free_act-InOrder r ends_writing i b e =
      moved-InOrder r _ _ i b
        (end_writing-Ordered h (hand r.worker) r.given_bytes r.transport i.stage.ordered) e
  free_act-InOrder r ends i b e =
      moved-InOrder r _ _ i b
        (eof_flushed-Ordered h (hand r.worker) r.given_bytes
          (record r.transport { write_eof_requested = true }) i.stage.ordered)
        e
  free_act-InOrder r loses i b e =
      moved-InOrder r _ _ i b
        (deliver_loss-Ordered (hand r.worker) r.given_bytes r.transport i.stage.ordered) e
  free_act-InOrder r (turns n) i b e = record {
    stage = record { ordered = i.stage.ordered; grips = i.stage.grips };
    seen = unread r.status _ b;
  }
  free_act-InOrder r begins i b e = record { stage = i.stage; seen = refl }
  free_act-InOrder r (writes bytes) i b e = i
  free_act-InOrder r (writes_lines ss) i b e = i
  free_act-InOrder r works i b e = i

  unless_begun-InOrder :
      (r : Run) (a : Act)
      → InOrder r
      → (if is_begun r.status then r else free_act h r a).spoilt ≡ false
      → InOrder (if is_begun r.status then r else free_act h r a)
  unless_begun-InOrder r a i e = elim (Bool-cases (is_begun r.status)) [
    | inl b ↦ subst InOrder (sym (if_true (is_begun r.status) r (free_act h r a) b)) i
    | inr b ↦
        let same = if_false (is_begun r.status) r (free_act h r a) b in
        subst InOrder (sym same) (free_act-InOrder r a i b (ap Run.spoilt (sym same) ∙ e))
  ]

  act-InOrder : (r : Run) (a : Act) → InOrder r → (act h r a).spoilt ≡ false → InOrder (act h r a)
  unfolding act
  act-InOrder r (writes bytes) i e =
      let now =
        write_data-Ordered h bytes (hand r.worker) r.given_bytes r.transport i.stage.ordered in
      wrote-InOrder r bytes (write_data h bytes (status_of r.status r.transport) r.transport) i
        (subst
          (λ s.
            Writes (hand r.worker) r.given_bytes (given r.transport bytes)
              (write_data h bytes s r.transport))
          (sym i.seen) now)
        e
  act-InOrder r (writes_lines ss) i e =
      let now = writelines-Ordered h ss (hand r.worker) r.given_bytes r.transport i.stage.ordered in
      wrote-InOrder r (joined_bytes ss)
        (writelines h ss (status_of r.status r.transport) r.transport) i
        (subst
          (λ s.
            Writes (hand r.worker) r.given_bytes (given r.transport (joined_bytes ss))
              (writelines h ss s r.transport))
          (sym i.seen) now)
        e
  act-InOrder r works i e = elim (Bool-cases can_work) [
    | inl b ↦
        let same = if_true can_work (worked_run r (work h r.worker r.transport)) r b in
        subst InOrder (sym same)
          (worked-InOrder r i (ground (arith, b)) (ap Run.spoilt (sym same) ∙ e))
    | inr b ↦
        subst InOrder (sym (if_false can_work (worked_run r (work h r.worker r.transport)) r b)) i
  ]
    where
      can_work : Bool
      can_work = r.transport.queue.receiver_alive && not r.transport.lazy_writer
  act-InOrder r flushes i e = unless_begun-InOrder r flushes i e
  act-InOrder r closes i e = unless_begun-InOrder r closes i e
  act-InOrder r shuts i e = unless_begun-InOrder r shuts i e
  act-InOrder r aborts i e = unless_begun-InOrder r aborts i e
  act-InOrder r ends_writing i e = unless_begun-InOrder r ends_writing i e
  act-InOrder r ends i e = unless_begun-InOrder r ends i e
  act-InOrder r loses i e = unless_begun-InOrder r loses i e
  act-InOrder r (turns n) i e = unless_begun-InOrder r (turns n) i e
  act-InOrder r begins i e = unless_begun-InOrder r begins i e

  free_act-spoilt : (r : Run) (a : Act) → r.spoilt ≡ true → (free_act h r a).spoilt ≡ true
  unfolding free_act
  free_act-spoilt r flushes e = rw e refl
  free_act-spoilt r closes e = rw e refl
  free_act-spoilt r shuts e = rw e refl
  free_act-spoilt r aborts e = rw e refl
  free_act-spoilt r ends_writing e = rw e refl
  free_act-spoilt r ends e = rw e refl
  free_act-spoilt r loses e = rw e refl
  free_act-spoilt r (turns n) e = e
  free_act-spoilt r begins e = e
  free_act-spoilt r (writes bytes) e = e
  free_act-spoilt r (writes_lines ss) e = e
  free_act-spoilt r works e = e

  unless_begun-spoilt :
      (r : Run) (a : Act)
      → r.spoilt ≡ true
      → (if is_begun r.status then r else free_act h r a).spoilt ≡ true
  unless_begun-spoilt r a e =
      if_elim (λ (u : Run). u.spoilt ≡ true) (is_begun r.status) _ _ (λ b. e)
        (λ b. free_act-spoilt r a e)

  act-spoilt : (r : Run) (a : Act) → r.spoilt ≡ true → (act h r a).spoilt ≡ true
  unfolding act
  act-spoilt r (writes bytes) e = rw e refl
  act-spoilt r (writes_lines ss) e = rw e refl
  act-spoilt r works e =
      if_elim (λ (u : Run). u.spoilt ≡ true)
        (r.transport.queue.receiver_alive && not r.transport.lazy_writer) _ _
        (λ b. ground (arith, e)) (λ b. e)
  act-spoilt r flushes e = unless_begun-spoilt r flushes e
  act-spoilt r closes e = unless_begun-spoilt r closes e
  act-spoilt r shuts e = unless_begun-spoilt r shuts e
  act-spoilt r aborts e = unless_begun-spoilt r aborts e
  act-spoilt r ends_writing e = unless_begun-spoilt r ends_writing e
  act-spoilt r ends e = unless_begun-spoilt r ends e
  act-spoilt r loses e = unless_begun-spoilt r loses e
  act-spoilt r (turns n) e = unless_begun-spoilt r (turns n) e
  act-spoilt r begins e = unless_begun-spoilt r begins e

  run-spoilt : (r : Run) (acts : List Act) → r.spoilt ≡ true → (run h r acts).spoilt ≡ true
  unfolding run
  run-spoilt r [] e = e
  run-spoilt r (a ∷ acts) e = run-spoilt (act h r a) acts (act-spoilt r a e)

  pub run-InOrder :
      (r : Run) (acts : List Act)
      → InOrder r
      → (run h r acts).spoilt ≡ false
      → InOrder (run h r acts)
  unfolding run
  run-InOrder r [] i e = i
  run-InOrder r (a ∷ acts) i e = elim (Bool-cases (act h r a).spoilt) [
    | inl s ↦ absurd (cc (run-spoilt (act h r a) acts s, e))
    | inr s ↦ run-InOrder (act h r a) acts (act-InOrder r a i s) e
  ]
