-- ===== src/Events/Stream.antt =====
-- What the protocol sees of a stream of events, however the workers and the loop take turns.
use rsloop.Common.{
  ℕ, ◌-◌, ◌≡◌, refl, sym, ap, ◌∙◌, subst, inl, inr, arith, Bool, true, false, ◌&&◌, List, [], ◌∷◌,
  ◌++◌, Option, none, some, append-nil, append_assoc, Bool-cases, if◌then◌else◌, is_nil, ltb,
}
use rsloop.Events.{
  PendingReadEvent, ReadEvents, enqueue_pending_read_event, push_event, backpressure_read,
  schedule_read,
}
use rsloop.Events.Drain.{Delivery, Answers, DrainLocals, Step, start_drain}
use rsloop.Events.Gate.{gate, enqueue-gate}
use rsloop.Events.Deliver.{take_nothing, take_some, drain_step-IsOrdered}
use rsloop.Events.Items.{
  Item, event_items, queue_items, call_items, pending_items, queued, to_deliver, IsGood, IsOpen,
  IsSplit, IsOrdered, goes_on, rests, call_items-append, queue_items-append,
}
use rsloop.Events.Machine.{
  Machine, Act, pushes, backpressures, schedules, starts, drains, act, is_idle, stepped, pushed,
  drain_on,
}

-- What a machine is still to deliver.
abbrev pub drain_items : Option DrainLocals → List Item
drain_items none = []
drain_items (some d) = pending_items d.pending_data

abbrev pub undelivered : Machine → List Item
undelivered m = drain_items m.drain ++ queued m.transport

-- What an act adds to it: an event that is let in.
abbrev let_in_items : PendingReadEvent → Bool → List Item
let_in_items event accepted = if accepted then event_items event else []

abbrev pub added : Act → Machine → List Item
added (pushes event) m = let_in_items event (enqueue_pending_read_event event m.transport).0
added backpressures m = []
added (schedules sends) m = []
added (starts fast_path) m = []
added (drains a) m = []

-- The protocol's calls return and leave the transport open.
abbrev pub IsKind : Act → Type 0
IsKind (pushes event) = Unit {0}
IsKind backpressures = Unit {0}
IsKind (schedules sends) = Unit {0}
IsKind (starts fast_path) = Unit {0}
IsKind (drains a) = IsGood a

abbrev pub DrainIsSplit : Option DrainLocals → ReadEvents → Type 0
DrainIsSplit none r = r.read_event_drain ≡ []
DrainIsSplit (some d) r = IsSplit d

-- The transport is open; without a drain, nothing is left of one, and a drain that feeds a stream
-- reader has joined nothing.
pub record IsLive (m : Machine) : Type 0 where
  pub is_open : IsOpen m.transport
  pub split : DrainIsSplit m.drain m.transport

-- The histories of a machine that is open before every step, with what they add and deliver.
pub data Runs (m : Machine) : List Item → List Delivery → Machine → Type 0 where
  nothing_yet : Runs m [] [] m
  then_act :
      (items : List Item) (calls : List Delivery) (n : Machine) (o : Act)
      → Runs m items calls n
      → IsLive n
      → IsKind o
      → Runs m (items ++ added o n) (calls ++ (act o n).0) (act o n).1

queued-push :
    (event : PendingReadEvent) (o : Option ℕ) (r : ReadEvents)
    → queued (push_event event o r).1 ≡ queued r ++ let_in_items event (push_event event o r).0
unfolding queued
queued-push event none r =
    sym (append-nil (queue_items r.read_event_drain ++ queue_items r.pending_read_events))
queued-push event (some s) r =
    ap (◌++◌ (queue_items r.read_event_drain)) (
      queue_items-append r.pending_read_events (event ∷ [])
      ∙ ap (◌++◌ (queue_items r.pending_read_events)) (append-nil (event_items event)))
    ∙ sym (
        append_assoc (queue_items r.read_event_drain) (queue_items r.pending_read_events)
          (event_items event))

-- An act that delivers the front of what there is and of what it adds.
abbrev Delivers : Machine → List Item → List Delivery × Machine → Type 0
Delivers m items r = call_items r.0 ++ undelivered r.1 ≡ undelivered m ++ items

Delivers-if :
    (m : Machine) (x y : List Delivery × Machine) (c : Bool)
    → (c ≡ true → Delivers m [] x)
    → Delivers m [] y
    → Delivers m [] (if c then x else y)
Delivers-if m x y true f k = f refl
Delivers-if m x y false f k = k

push-Delivers :
    (event : PendingReadEvent) (m : Machine) (p : Bool × ReadEvents)
    → queued p.1 ≡ queued m.transport ++ let_in_items event p.0
    → Delivers m (let_in_items event p.0) ([], pushed m p)
push-Delivers event m p e =
    ap (◌++◌ (drain_items m.drain)) e
    ∙ sym (append_assoc (drain_items m.drain) (queued m.transport) (let_in_items event p.0))

same-Delivers :
    (m : Machine) (u : ReadEvents) (n : ℕ)
    → queued u ≡ queued m.transport
    → Delivers m [] ([], record m { transport = u; unscheduled = n })
same-Delivers m u n e = ap (◌++◌ (drain_items m.drain)) e ∙ sym (append-nil (undelivered m))

first : (x y : Bool) → (x && y) ≡ true → x ≡ true
first x y h = ground arith

backpressure-queued : (r : ReadEvents) → queued (backpressure_read r) ≡ queued r
unfolding backpressure_read queued
backpressure-queued r = refl

queued-if :
    (c : Bool) (x y r : ReadEvents)
    → queued x ≡ queued r
    → queued y ≡ queued r
    → queued (if c then x else y) ≡ queued r
queued-if true x y r h k = h
queued-if false x y r h k = k

schedule-queued : (sends : Bool) (r : ReadEvents) → queued (schedule_read sends r) ≡ queued r
unfolding schedule_read queued
schedule-queued sends r =
    queued-if r.read_events_scheduled _ _ r refl (queued-if sends _ _ r refl refl)

idle_none : (o : Option DrainLocals) → is_idle o ≡ true → o ≡ none
idle_none o h = ground arith

start-Delivers :
    (fast_path : Bool) (m : Machine)
    → m.drain ≡ none
    → m.transport.read_event_drain ≡ []
    → Delivers m [] (stepped m (start_drain fast_path m.transport))
unfolding start_drain queued
start-Delivers fast_path m e f =
    let r : ReadEvents = record m.transport { read_commands = m.transport.read_commands - 1 } in
    let q = queue_items m.transport.pending_read_events in
    let all : queue_items m.transport.read_event_drain ++ q ≡ undelivered m ++ [] = sym (
      append-nil (undelivered m)
      ∙ ap (λ o. drain_items o ++ (queue_items m.transport.read_event_drain ++ q)) e) in
    let swapped : q ++ queue_items m.transport.read_event_drain
        ≡ queue_items m.transport.read_event_drain ++ q =
      ap (λ es. q ++ queue_items es) f ∙ append-nil q ∙ ap (λ es. queue_items es ++ q) (sym f) in
    elim (Bool-cases (is_nil m.transport.pending_read_events)) [
      | inl k ↦ subst (λ t. Delivers m [] (stepped m t)) (sym (take_nothing _ r k)) all
      | inr k ↦ subst (λ t. Delivers m [] (stepped m t)) (sym (take_some _ r k)) (swapped ∙ all)
    ]

turn-Delivers :
    (m : Machine) (d : DrainLocals) (s : Step)
    → m.drain ≡ some d
    → IsOrdered (to_deliver d m.transport) s
    → Delivers m [] (stepped m s)
unfolding to_deliver
turn-Delivers m d _ e (goes_on calls f u t o k) =
    t ∙ ap (λ x. drain_items x ++ queued m.transport) (sym e) ∙ sym (append-nil (undelivered m))
turn-Delivers m d _ e (rests calls u t) =
    t ∙ ap (λ x. drain_items x ++ queued m.transport) (sym e) ∙ sym (append-nil (undelivered m))

drain-Delivers :
    (a : Answers) (m : Machine)
    → IsGood a
    → IsLive m
    → (o : Option DrainLocals) → m.drain ≡ o
    → Delivers m [] (drain_on a m o)
drain-Delivers a m g v none e = sym (append-nil (undelivered m))
drain-Delivers a m g v (some d) e = turn-Delivers m d _ e (
    drain_step-IsOrdered a d m.transport g v.is_open
      (subst (λ o. DrainIsSplit o m.transport) e v.split))

act-Delivers : (o : Act) (m : Machine) → IsLive m → IsKind o → Delivers m (added o m) (act o m)
unfolding act
act-Delivers (pushes event) m v g =
    push-Delivers event m (enqueue_pending_read_event event m.transport) (
      subst (λ p. queued p.1 ≡ queued m.transport ++ let_in_items event p.0)
        (sym (enqueue-gate event m.transport))
        (queued-push event (gate event m.transport) m.transport))
act-Delivers backpressures m v g =
    same-Delivers m (backpressure_read m.transport) m.unscheduled (backpressure-queued m.transport)
act-Delivers (schedules sends) m v g =
    Delivers-if m _ _ (ltb 0 m.unscheduled)
      (λ h. same-Delivers m _ (m.unscheduled - 1) (schedule-queued sends m.transport))
      (sym (append-nil (undelivered m)))
act-Delivers (starts fast_path) m v g =
    Delivers-if m _ _ (is_idle m.drain && ltb 0 m.transport.read_commands)
      (λ h.
        let e = idle_none m.drain (first (is_idle m.drain) _ h) in
        start-Delivers fast_path m e (subst (λ o. DrainIsSplit o m.transport) e v.split))
      (sym (append-nil (undelivered m)))
act-Delivers (drains a) m v g = drain-Delivers a m g v m.drain refl

-- However workers enqueue events, schedule drains and are interleaved with the steps of the drains,
-- where the transport is open and the drains are in order before each step, and the protocol's calls
-- return and leave it open: what the protocol has seen, followed by what is joined and queued, is what
-- there was at first, followed by what was let in, in order, each byte once, whether data are joined
-- or not, and however often a drain runs out of budget.
pub Runs-order :
    {m n : Machine} {items : List Item} {calls : List Delivery}
    → Runs m items calls n
    → call_items calls ++ undelivered n ≡ undelivered m ++ items
Runs-order {m} nothing_yet = sym (append-nil (undelivered m))
Runs-order {m} (then_act items calls n o h v g) =
    ap (λ xs. xs ++ undelivered (act o n).1) (call_items-append calls (act o n).0)
    ∙ append_assoc (call_items calls) (call_items (act o n).0) (undelivered (act o n).1)
    ∙ ap (◌++◌ (call_items calls)) (act-Delivers o n v g)
    ∙ sym (append_assoc (call_items calls) (undelivered n) (added o n))
    ∙ ap (λ xs. xs ++ added o n) (Runs-order h)
    ∙ append_assoc (undelivered m) items (added o n)
