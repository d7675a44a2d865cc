-- ===== src/Events/Gate.antt =====
-- Which events the gate of the queue lets in.
use rsloop.Common.{
  ℕ, ◌≡◌, ◌⊎◌, refl, sym, ◌∙◌, subst, inl, inr, arith, List, [], ◌∷◌, Option, none, some,
  if◌then◌else◌,
}
use rsloop.Events.{
  PendingReadEvent, incoming, eof, connection_lost, pause_writing, resume_writing, ReadEvents,
  enqueue_pending_read_event, push_event, transition_read_event_state, read_event_kind,
}

-- The events of a sequence that are let in.
pub let_in : List PendingReadEvent → ReadEvents → List PendingReadEvent
let_in [] r = []
let_in (e ∷ es) r =
    let (accepted, u) = enqueue_pending_read_event e r in
    let rest = let_in es u in if accepted then e ∷ rest else rest

-- Behind the end of the stream there are no data and no further end, and behind the loss nothing.
abbrev pub IsBehindEof : List PendingReadEvent → Type 0
IsBehindEof [] = Unit {0}
IsBehindEof (incoming bytes ∷ es) = ⊥
IsBehindEof (eof ∷ es) = ⊥
IsBehindEof (connection_lost message ∷ es) = es ≡ []
IsBehindEof (pause_writing ∷ es) = IsBehindEof es
IsBehindEof (resume_writing ∷ es) = IsBehindEof es

abbrev pub IsReadSequence : List PendingReadEvent → Type 0
IsReadSequence [] = Unit {0}
IsReadSequence (incoming bytes ∷ es) = IsReadSequence es
IsReadSequence (eof ∷ es) = IsBehindEof es
IsReadSequence (connection_lost message ∷ es) = es ≡ []
IsReadSequence (pause_writing ∷ es) = IsReadSequence es
IsReadSequence (resume_writing ∷ es) = IsReadSequence es

-- One event, by what the gate says.
pub gate : PendingReadEvent → ReadEvents → Option ℕ
gate e r =
    if r.detached then none else transition_read_event_state r.read_event_state (read_event_kind e)

pub enqueue-gate :
    (e : PendingReadEvent) (r : ReadEvents)
    → enqueue_pending_read_event e r ≡ push_event e (gate e r) r
unfolding enqueue_pending_read_event gate
enqueue-gate e r = ground arith

refused :
    (e : PendingReadEvent) (es : List PendingReadEvent) (r : ReadEvents)
    → gate e r ≡ none
    → let_in (e ∷ es) r ≡ let_in es r
unfolding let_in
refused e es r h = rw (enqueue-gate e r, h) refl

accepted :
    (e : PendingReadEvent) (es : List PendingReadEvent) (r : ReadEvents) (s : ℕ)
    → gate e r ≡ some s
    → let_in (e ∷ es) r ≡ e ∷ let_in es (push_event e (some s) r).1
unfolding let_in
accepted e es r s h = rw (enqueue-gate e r, h) refl

gate_lost : (e : PendingReadEvent) (r : ReadEvents) → r.read_event_state ≡ 2 → gate e r ≡ none
unfolding gate transition_read_event_state
gate_lost (incoming bytes) r h = ground arith
gate_lost eof r h = ground arith
gate_lost (connection_lost message) r h = ground arith
gate_lost pause_writing r h = ground arith
gate_lost resume_writing r h = ground arith

let_in_lost :
    (es : List PendingReadEvent) (r : ReadEvents) → r.read_event_state ≡ 2 → let_in es r ≡ []
unfolding let_in
let_in_lost [] r h = refl
let_in_lost (e ∷ es) r h = refused e es r (gate_lost e r h) ∙ let_in_lost es r h

-- A property of what is let in, by whether the event is refused or let in with the state `s`.
by_gate :
    (P : List PendingReadEvent → Type 0) (e : PendingReadEvent) (es : List PendingReadEvent)
    (r : ReadEvents) (s : ℕ)
    → (gate e r ≡ none) ⊎ (gate e r ≡ some s)
    → P (let_in es r)
    → P (e ∷ let_in es (push_event e (some s) r).1)
    → P (let_in (e ∷ es) r)
by_gate P e es r s (inl g) kept taken = subst P (sym (refused e es r g)) kept
by_gate P e es r s (inr g) kept taken = subst P (sym (accepted e es r s g)) taken

gate_to :
    (e : PendingReadEvent) (r : ReadEvents) (s : ℕ)
    → transition_read_event_state r.read_event_state (read_event_kind e) ≡ some s
    → (gate e r ≡ none) ⊎ (gate e r ≡ some s)
unfolding gate
gate_to e r s t = ground arith

gate_none :
    (e : PendingReadEvent) (r : ReadEvents)
    → transition_read_event_state r.read_event_state (read_event_kind e) ≡ none
    → gate e r ≡ none
unfolding gate
gate_none e r t = ground arith

let_in_behind :
    (es : List PendingReadEvent) (r : ReadEvents)
    → r.read_event_state ≡ 1
    → IsBehindEof (let_in es r)
unfolding let_in transition_read_event_state
let_in_behind [] r h = tt
let_in_behind (incoming bytes ∷ es) r h =
    subst IsBehindEof
      (sym (refused (incoming bytes) es r (gate_none (incoming bytes) r (rw h refl))))
      (let_in_behind es r h)
let_in_behind (eof ∷ es) r h =
    subst IsBehindEof (sym (refused eof es r (gate_none eof r (rw h refl)))) (let_in_behind es r h)
let_in_behind (connection_lost message ∷ es) r h =
    by_gate IsBehindEof (connection_lost message) es r 2
      (gate_to (connection_lost message) r 2 (rw h refl)) (let_in_behind es r h)
      (let_in_lost es _ refl)
let_in_behind (pause_writing ∷ es) r h =
    by_gate IsBehindEof pause_writing es r 1 (gate_to pause_writing r 1 (rw h refl))
      (let_in_behind es r h) (let_in_behind es _ refl)
let_in_behind (resume_writing ∷ es) r h =
    by_gate IsBehindEof resume_writing es r 1 (gate_to resume_writing r 1 (rw h refl))
      (let_in_behind es r h) (let_in_behind es _ refl)

-- Whatever workers enqueue, in whatever order, on a transport whose stream is open: behind the end
-- of the stream no data and no further end are let in, and behind the loss nothing.
pub let_in-IsReadSequence :
    (es : List PendingReadEvent) (r : ReadEvents)
    → r.read_event_state ≡ 0
    → IsReadSequence (let_in es r)
unfolding let_in transition_read_event_state
let_in-IsReadSequence [] r h = tt
let_in-IsReadSequence (incoming bytes ∷ es) r h =
    by_gate IsReadSequence (incoming bytes) es r 0 (gate_to (incoming bytes) r 0 (rw h refl))
      (let_in-IsReadSequence es r h) (let_in-IsReadSequence es _ refl)
let_in-IsReadSequence (eof ∷ es) r h =
    by_gate IsReadSequence eof es r 1 (gate_to eof r 1 (rw h refl)) (let_in-IsReadSequence es r h)
      (let_in_behind es _ refl)
let_in-IsReadSequence (connection_lost message ∷ es) r h =
    by_gate IsReadSequence (connection_lost message) es r 2
      (gate_to (connection_lost message) r 2 (rw h refl)) (let_in-IsReadSequence es r h)
      (let_in_lost es _ refl)
let_in-IsReadSequence (pause_writing ∷ es) r h =
    by_gate IsReadSequence pause_writing es r 0 (gate_to pause_writing r 0 (rw h refl))
      (let_in-IsReadSequence es r h) (let_in-IsReadSequence es _ refl)
let_in-IsReadSequence (resume_writing ∷ es) r h =
    by_gate IsReadSequence resume_writing es r 0 (gate_to resume_writing r 0 (rw h refl))
      (let_in-IsReadSequence es r h) (let_in-IsReadSequence es _ refl)
