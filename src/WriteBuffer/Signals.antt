-- ===== src/WriteBuffer/Signals.antt =====
-- The signals that a transport's write path sends to its protocol, over any sequence of calls.
use rsloop.Common.{
  ℕ, ◌+◌, ◌≤◌, ◌<◌, ◌≡◌, ◌⊎◌, inl, inr, Bool, true, false, Option, Option-cases, List, [], ◌∷◌,
  arith, Result, ok, err, ◌≢◌,
}
use native.Mathlib.Decide.{dec_le}
use rsloop.WriteBuffer.{
  WriteBufferState, WriteBufferSignal, none, pause, resume, IsConsistent, enqueue_write_buffer,
  drain_write_buffer, clear_write_buffer_state, reconcile_write_buffer_limits, initial,
}
use rsloop.WriteBuffer.Limits.{
  normalize_write_buffer_limits, set_write_buffer_limits, normalize_write_buffer_limits-le,
}

-- What changes the accounting of a transport; `clears` says whether a paused protocol is told.
pub data Op : Type 0 where
  enqueues drains : ℕ → Op
  sets_limits : Option ℕ → Option ℕ → Op
  clears : Bool → Op

-- A call that is refused sends nothing.
abbrev pub signal_of : Result WriteBufferSignal (Unit {0}) → WriteBufferSignal
signal_of (ok s) = s
signal_of (err e) = none

module _ (cap : ℕ) where
  unfoldable pub step : WriteBufferState → Op → WriteBufferSignal × WriteBufferState
  step s (enqueues n) = let (r, t) = enqueue_write_buffer s n cap in (signal_of r, t)
  step s (drains n) = drain_write_buffer s n
  step s (sets_limits high low) =
      let (r, t) = set_write_buffer_limits s high low in (signal_of r, t)
  step s (clears told) = clear_write_buffer_state s told

  pub run : WriteBufferState → List Op → List WriteBufferSignal × WriteBufferState
  run s [] = ([], s)
  run s (o ∷ os) =
      let (signal, t) = step s o in let (signals, u) = run t os in (signal ∷ signals, u)

  pub initial-IsConsistent : IsConsistent cap initial
  unfolding initial
  initial-IsConsistent = record {
    ordered = omega arith;
    capped = omega arith;
    paused_above = λ e. cc;
    running_below = λ e. omega arith;
  }

  enqueue-IsConsistent :
      (s : WriteBufferState) (n : ℕ)
      → IsConsistent cap s
      → IsConsistent cap (enqueue_write_buffer s n cap).1
  unfolding enqueue_write_buffer
  enqueue-IsConsistent s n v = ground arith

  drain-IsConsistent :
      (s : WriteBufferState) (n : ℕ)
      → IsConsistent cap s
      → IsConsistent cap (drain_write_buffer s n).1
  unfolding drain_write_buffer
  drain-IsConsistent s n v = ground arith

  reconcile-IsConsistent :
      (s : WriteBufferState) (l h : ℕ)
      → l ≤ h
      → IsConsistent cap s
      → IsConsistent cap (reconcile_write_buffer_limits s l h).1
  unfolding reconcile_write_buffer_limits
  reconcile-IsConsistent s l h p v = ground arith

  clear-IsConsistent :
      (s : WriteBufferState) (b : Bool)
      → IsConsistent cap s
      → IsConsistent cap (clear_write_buffer_state s b).1
  unfolding clear_write_buffer_state
  clear-IsConsistent s b v = ground arith

  set-IsConsistent :
      (s : WriteBufferState) (high low : Option ℕ)
      → IsConsistent cap s
      → IsConsistent cap (set_write_buffer_limits s high low).1
  unfolding set_write_buffer_limits
  set-IsConsistent s high low v = elim (Option-cases (normalize_write_buffer_limits high low)) [
    | inl e ↦ rw (e, set_write_buffer_limits) v
    | inr ((l, h), e) ↦
        rw (e, set_write_buffer_limits)
          (reconcile-IsConsistent s l h (normalize_write_buffer_limits-le high low l h e) v)
  ]

  step-IsConsistent :
      (s : WriteBufferState) (o : Op) → IsConsistent cap s → IsConsistent cap (step s o).1
  unfolding step
  step-IsConsistent s (enqueues n) v = enqueue-IsConsistent s n v
  step-IsConsistent s (drains n) v = drain-IsConsistent s n v
  step-IsConsistent s (sets_limits high low) v = set-IsConsistent s high low v
  step-IsConsistent s (clears told) v = clear-IsConsistent s told v

  -- A pause tells a running protocol, a resume a paused one, and the flag follows.
  abbrev pub Switches : Bool → WriteBufferSignal → Bool → Type 0
  Switches b none c = c ≡ b
  Switches b pause c = (b ≡ false) × (c ≡ true)
  Switches b resume c = (b ≡ true) × (c ≡ false)

  -- A clearing that tells the protocol nothing starts over.
  abbrev pub Follows : Op → Bool → WriteBufferSignal → Bool → Type 0
  Follows (enqueues n) b s c = Switches b s c
  Follows (drains n) b s c = Switches b s c
  Follows (sets_limits high low) b s c = Switches b s c
  Follows (clears true) b s c = Switches b s c
  Follows (clears false) b s c = (s ≡ none) × (c ≡ false)

  enqueue-Switches :
      (s : WriteBufferState) (n : ℕ)
      → let (r, t) = enqueue_write_buffer s n cap in
        Switches s.protocol_paused (signal_of r) t.protocol_paused
  unfolding enqueue_write_buffer
  enqueue-Switches s n = ground arith

  set-Switches :
      (s : WriteBufferState) (high low : Option ℕ)
      → let (r, t) = set_write_buffer_limits s high low in
        Switches s.protocol_paused (signal_of r) t.protocol_paused
  unfolding set_write_buffer_limits reconcile_write_buffer_limits
  set-Switches s high low = ground arith

  step-Follows :
      (s : WriteBufferState) (o : Op)
      → Follows o s.protocol_paused (step s o).0 (step s o).1.protocol_paused
  unfolding step drain_write_buffer clear_write_buffer_state
  step-Follows s (enqueues n) = enqueue-Switches s n
  step-Follows s (drains n) = ground arith
  step-Follows s (sets_limits high low) = set-Switches s high low
  step-Follows s (clears true) = ground arith
  step-Follows s (clears false) = ground arith

  -- From a flag `b` the signals of the operations follow each other, and leave the flag at `c`.
  pub data Alternates : Bool → List Op → List WriteBufferSignal → Bool → Type 0 where
    stops : (b : Bool) → Alternates b [] [] b
    steps :
        {b m c : Bool} {o : Op} {os : List Op} {s : WriteBufferSignal} {ss : List WriteBufferSignal}
        → Follows o b s m
        → Alternates m os ss c
        → Alternates b (o ∷ os) (s ∷ ss) c

  -- From a state that is consistent under the capacity `cap`, whatever is enqueued, drained, cleared
  -- (with or without a resume) and set: a running protocol is told to pause and a paused one to
  -- resume, never twice in a row, and the flag records the last signal. A clearing without a resume,
  -- which the program makes when the transport is lost, sends nothing and starts over with the flag of
  -- a running protocol. The accounting stays consistent: a paused protocol has more than the low mark
  -- buffered, one that runs at most the high mark, and the buffer never exceeds its capacity.
  pub run-Alternates :
      (s : WriteBufferState) (os : List Op)
      → IsConsistent cap s
      → Alternates s.protocol_paused os (run s os).0 (run s os).1.protocol_paused
        × IsConsistent cap (run s os).1
  unfolding run
  run-Alternates s [] v = (stops s.protocol_paused, v)
  run-Alternates s (o ∷ os) v =
      let rest = run-Alternates (step s o).1 os (step-IsConsistent s o v) in
      (steps (step-Follows s o) rest.0, rest.1)

  -- In a state that is consistent under the capacity `cap`, an enqueue is all or nothing: it fits
  -- the capacity and adds its length, which a drain takes off again, or it does not fit and
  -- changes nothing.
  pub enqueue-drain :
      (s : WriteBufferState) (n : ℕ)
      → IsConsistent cap s
      → let (r, t) = enqueue_write_buffer s n cap in
        ((s.size + n ≤ cap)
          × (r ≢ err tt)
          × (t.size ≡ s.size + n)
          × ((drain_write_buffer t n).1.size ≡ s.size))
        ⊎ ((cap < s.size + n) × (r ≡ err tt) × (t ≡ s))
  unfolding enqueue_write_buffer drain_write_buffer
  enqueue-drain s n v = elim (dec_le (s.size + n) cap) [
    | yes p ↦ inl (p, ground arith, ground arith, ground arith)
    | no p ↦ inr (omega arith, ground arith, ground arith)
  ]
