-- ===== src/Events/Flow.antt =====
-- The flow control of reading, in the steps between which the loop and the readers take turns: what
-- `resume_reading` and `record_pending_read_drained` store after their lock is a step of its own.
use rsloop.Common.{
  ℕ, ◌≡◌, refl, arith, Bool, true, false, not, ◌&&◌, ◌||◌, List, [], ◌∷◌, Option, none, some,
  if◌then◌else◌,
}
use rsloop.Events.{
  ReadFlags, pause_reading, resume_reading, show_reading, set_closing,
  apply_pending_read_backpressure, record_pending_read_drained,
}

-- What the protocol and the loop do on the thread of the loop, `stores` for the store behind a lock;
-- and what a reader does when the backlog has grown to `n` bytes.
pub data FlowOp : Type 0 where
  pauses resumes closes stores : FlowOp
  drains grows : ℕ → FlowOp

-- `store` is what the loop has still to store, `raced` says that a reader has stopped reading before
-- it did.
pub record FlowRun : Type 0 where
  pub flags : ReadFlags
  pub store : Option Bool
  pub raced : Bool

abbrev pub is_storing : Option Bool → Bool
is_storing none = false
is_storing (some b) = true

abbrev pub stored : Option Bool → ReadFlags → ReadFlags
stored none f = f
stored (some b) f = show_reading b f

-- The loop does nothing else before it has stored.
unfoldable pub flow_step : FlowRun → FlowOp → FlowRun
flow_step r pauses = if is_storing r.store then r else record r { flags = pause_reading r.flags }
flow_step r resumes =
    let (reading, f) = resume_reading r.flags in
    if is_storing r.store then r else record r { flags = f; store = some reading }
flow_step r (drains n) =
    let (reading, f) = record_pending_read_drained n r.flags in
    if is_storing r.store then r else record r { flags = f; store = reading }
flow_step r stores = record r { flags = stored r.store r.flags; store = none }
flow_step r closes = record r { flags = set_closing r.flags }
flow_step r (grows n) =
    let f = apply_pending_read_backpressure n r.flags in
    record r {
      flags = f;
      raced = r.raced || (is_storing r.store && r.flags.reading && not f.reading);
    }

unfoldable pub flow_run : FlowRun → List FlowOp → FlowRun
flow_run r [] = r
flow_run r (o ∷ os) = flow_run (flow_step r o) os

-- A transport that is not closing reads exactly while neither the protocol nor the backlog has stopped
-- it; one that closes reads only so.
pub record IsReading (f : ReadFlags) : Type 0 where
  pub stopped : f.reading ≡ true → (f.read_paused ≡ false) × (f.read_backpressured ≡ false)
  pub going :
      f.closing ≡ false → f.read_paused ≡ false → f.read_backpressured ≡ false → f.reading ≡ true

-- What `is_reading` shows, or is about to.
abbrev pub shown_by : Option Bool → ReadFlags → Bool
shown_by none f = f.shown
shown_by (some b) f = b

pub record IsFlowing (r : FlowRun) : Type 0 where
  pub locked : IsReading r.flags
  pub visible : r.raced ≡ false → shown_by r.store r.flags ≡ r.flags.reading

-- A transport that closes stays so and does not begin to read.
pub record Settles (f g : ReadFlags) : Type 0 where
  pub closed : f.closing ≡ true → g.closing ≡ true
  pub quiet : f.closing ≡ true → f.reading ≡ false → g.reading ≡ false

pause-IsReading : (f : ReadFlags) → IsReading f → IsReading (pause_reading f)
unfolding pause_reading
pause-IsReading f v = record { stopped = λ e. ground arith; going = λ c p b. ground arith }

resume-IsReading : (f : ReadFlags) → IsReading f → IsReading (resume_reading f).1
unfolding resume_reading
resume-IsReading f v = record { stopped = λ e. ground arith; going = λ c p b. ground arith }

closing-IsReading : (f : ReadFlags) → IsReading f → IsReading (set_closing f)
unfolding set_closing
closing-IsReading f v = record { stopped = λ e. v.stopped e; going = λ c p b. ground arith }

show-IsReading : (b : Bool) (f : ReadFlags) → IsReading f → IsReading (show_reading b f)
unfolding show_reading
show-IsReading b f v = record { stopped = v.stopped; going = v.going }

backpressure-IsReading :
    (n : ℕ) (f : ReadFlags) → IsReading f → IsReading (apply_pending_read_backpressure n f)
unfolding apply_pending_read_backpressure
backpressure-IsReading n f v = record {
  stopped = λ e. ground (arith, v.stopped);
  going = λ c p b. ground (arith, v.going);
}

drained-IsReading :
    (n : ℕ) (f : ReadFlags) → IsReading f → IsReading (record_pending_read_drained n f).1
unfolding record_pending_read_drained
drained-IsReading n f v = record {
  stopped = λ e. ground (arith, v.stopped);
  going = λ c p b. ground (arith, v.going);
}

-- A reader that stops reading shows it at once.
grows-visible :
    (n : ℕ) (f : ReadFlags)
    → f.shown ≡ f.reading
    → (apply_pending_read_backpressure n f).shown ≡ (apply_pending_read_backpressure n f).reading
unfolding apply_pending_read_backpressure
grows-visible n f e = ground (arith, e)

drained-visible :
    (n : ℕ) (f : ReadFlags)
    → f.shown ≡ f.reading
    → let (reading, g) = record_pending_read_drained n f in shown_by reading g ≡ g.reading
unfolding record_pending_read_drained
drained-visible n f e = ground (arith, e)

-- The flag that is to be stored outlasts a growth that does not stop reading.
still_stored :
    (n : ℕ) (f : ReadFlags) (b raced : Bool)
    → (raced ≡ false → b ≡ f.reading)
    → (raced || (f.reading && not (apply_pending_read_backpressure n f).reading)) ≡ false
    → b ≡ (apply_pending_read_backpressure n f).reading
unfolding apply_pending_read_backpressure
still_stored n f b raced h e = ground (arith, h, e)

step-IsFlowing :
    (f : ReadFlags) (store : Option Bool) (raced : Bool) (o : FlowOp)
    → let r : FlowRun = record { flags = f; store = store; raced = raced } in
      IsFlowing r → IsFlowing (flow_step r o)
unfolding flow_step resume_reading pause_reading set_closing show_reading
step-IsFlowing f none raced pauses v = record {
  locked = pause-IsReading f v.locked;
  visible = λ e. refl;
}
step-IsFlowing f (some b) raced pauses v = v
step-IsFlowing f none raced resumes v = record {
  locked = resume-IsReading f v.locked;
  visible = λ e. refl;
}
step-IsFlowing f (some b) raced resumes v = v
step-IsFlowing f none raced closes v = record {
  locked = closing-IsReading f v.locked;
  visible = v.visible;
}
step-IsFlowing f (some b) raced closes v = record {
  locked = closing-IsReading f v.locked;
  visible = v.visible;
}
step-IsFlowing f none raced stores v = v
step-IsFlowing f (some b) raced stores v = record {
  locked = show-IsReading b f v.locked;
  visible = v.visible;
}
step-IsFlowing f none raced (drains n) v = record {
  locked = drained-IsReading n f v.locked;
  visible = λ e. drained-visible n f (v.visible e);
}
step-IsFlowing f (some b) raced (drains n) v = v
step-IsFlowing f none raced (grows n) v = record {
  locked = backpressure-IsReading n f v.locked;
  visible = λ e. grows-visible n f (v.visible (ground (arith, e)));
}
step-IsFlowing f (some b) raced (grows n) v = record {
  locked = backpressure-IsReading n f v.locked;
  visible = λ e. still_stored n f b raced v.visible e;
}

step-Settles : (r : FlowRun) (o : FlowOp) → Settles r.flags (flow_step r o).flags
unfolding flow_step resume_reading pause_reading set_closing show_reading
    apply_pending_read_backpressure record_pending_read_drained
step-Settles r pauses = record {
  closed = λ c. ground (arith, c);
  quiet = λ c q. ground (arith, c, q);
}
step-Settles r resumes = record {
  closed = λ c. ground (arith, c);
  quiet = λ c q. ground (arith, c, q);
}
step-Settles r closes = record {
  closed = λ c. ground (arith, c);
  quiet = λ c q. ground (arith, c, q);
}
step-Settles r stores = record {
  closed = λ c. ground (arith, c);
  quiet = λ c q. ground (arith, c, q);
}
step-Settles r (drains n) = record {
  closed = λ c. ground (arith, c);
  quiet = λ c q. ground (arith, c, q);
}
step-Settles r (grows n) = record {
  closed = λ c. ground (arith, c);
  quiet = λ c q. ground (arith, c, q);
}

-- Where reading is as the flags of the transport say, it stays so whatever the protocol pauses and
-- resumes, the loop drains and stores, the readers add to the backlog, and when the transport closes,
-- in any order; only between a step of the loop and its store nothing else is done by the loop. As
-- long as no reader has stopped reading just before such a store, `is_reading` shows the flag that the
-- lock guards, or the store that makes it do so is still to come. A transport that closes stays so and
-- never begins to read again.
pub flow_run-IsFlowing :
    (r : FlowRun) (os : List FlowOp)
    → IsFlowing r
    → IsFlowing (flow_run r os) × Settles r.flags (flow_run r os).flags
unfolding flow_run
flow_run-IsFlowing r [] v = (v, record { closed = λ c. c; quiet = λ c q. q })
flow_run-IsFlowing r (o ∷ os) v =
    let s = step-Settles r o in
    let (w, t) =
      flow_run-IsFlowing (flow_step r o) os (step-IsFlowing r.flags r.store r.raced o v) in
    (
      w,
      record {
        closed = λ c. t.closed (s.closed c);
        quiet = λ c q. t.quiet (s.closed c) (s.quiet c q);
      },
    )
