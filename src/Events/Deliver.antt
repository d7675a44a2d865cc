-- ===== src/Events/Deliver.antt =====
-- What a drain delivers is what was queued, in order.
use rsloop.Common.{
  ◌≡◌, refl, sym, ap, ◌∙◌, subst, inl, inr, arith, true, false, List, [], ◌∷◌, ◌++◌, none,
  append-nil, append_assoc, Bool-cases, List-cases, is_nil,
}
use rsloop.Events.{
  PendingReadEvent, incoming, eof, connection_lost, pause_writing, resume_writing, ReadEvents,
}
use rsloop.Events.Drain.{
  Answers, DrainLocals, running, returned, Step, take_queue, flush_pending_data, drain_event,
  end_pass, drain_step,
}
use rsloop.Events.Items.{
  Item, event_items, queue_items, call_items, pending_items, queued, to_deliver, IsGood, IsOpen,
  IsSplit, IsOrdered, goes_on, rests, flush_open, flush_calls, flush_calls_items,
}
use rsloop.Events.Order.{data-IsOrdered}
use rsloop.Events.Control.{flush_before-IsOrdered}

event-IsOrdered :
    (a : Answers) (event : PendingReadEvent) (d : DrainLocals) (r : ReadEvents) (total : List Item)
    → IsGood a
    → IsOpen r
    → IsSplit d
    → pending_items d.pending_data ++ (event_items event ++ queued r) ≡ total
    → IsOrdered total (drain_event a event d r)
unfolding drain_event
event-IsOrdered a (incoming bytes) d r total g o s t = data-IsOrdered a d bytes r total g o s t
event-IsOrdered a eof d r total g o s t =
    flush_before-IsOrdered a eof d r total g o t (λ e. ground arith)
event-IsOrdered a (connection_lost message) d r total g o s t =
    flush_before-IsOrdered a (connection_lost message) d r total g o t (λ e. ground arith)
event-IsOrdered a pause_writing d r total g o s t =
    flush_before-IsOrdered a pause_writing d r total g o t (λ e. ground arith)
event-IsOrdered a resume_writing d r total g o s t =
    flush_before-IsOrdered a resume_writing d r total g o t (λ e. ground arith)

pub step_event :
    (a : Answers) (d : DrainLocals) (r : ReadEvents) (event : PendingReadEvent)
    (rest : List PendingReadEvent)
    → r.read_event_drain ≡ event ∷ rest
    → drain_step a d r ≡ drain_event a event d (record r { read_event_drain = rest })
unfolding drain_step
step_event a d r event rest e = rw (drain_step, e) refl

-- the flush of a pass, and what it leaves to the head of the loop
behind_pass : Answers → DrainLocals → ReadEvents → Step
behind_pass a d r =
    let (more, status, v) = take_queue (record d { pending_data = none }) r in
    (flush_calls d.pending_data ++ more, status, v)

pub step_pass :
    (a : Answers) (d : DrainLocals) (r : ReadEvents)
    → r.read_event_drain ≡ []
    → drain_step a d r ≡ end_pass a d r
unfolding drain_step
step_pass a d r e = ground arith

pass_flushed :
    (a : Answers) (d : DrainLocals) (r : ReadEvents)
    → flush_pending_data a d.pending_data r ≡ (true, flush_calls d.pending_data, r)
    → end_pass a d r ≡ behind_pass a d r
unfolding end_pass behind_pass
pass_flushed a d r f = rw f refl

step_end :
    (a : Answers) (d : DrainLocals) (r : ReadEvents)
    → r.read_event_drain ≡ []
    → flush_pending_data a d.pending_data r ≡ (true, flush_calls d.pending_data, r)
    → drain_step a d r ≡ behind_pass a d r
step_end a d r e f = step_pass a d r e ∙ pass_flushed a d r f

pub take_nothing :
    (d : DrainLocals) (r : ReadEvents)
    → is_nil r.pending_read_events ≡ true
    → take_queue d r ≡ ([], returned, record r { read_events_scheduled = false })
unfolding take_queue
take_nothing d r e = rw e refl

pub take_some :
    (d : DrainLocals) (r : ReadEvents)
    → is_nil r.pending_read_events ≡ false
    → take_queue d r ≡ (
      [],
      running d,
      record r {
        read_event_drain = r.pending_read_events;
        pending_read_events = r.read_event_drain;
      },
    )
unfolding take_queue
take_some d r e = rw e refl

pass-IsOrdered :
    (a : Answers) (d : DrainLocals) (r : ReadEvents)
    → IsOpen r
    → r.read_event_drain ≡ []
    → IsOrdered (to_deliver d r) (behind_pass a d r)
unfolding behind_pass to_deliver queued
pass-IsOrdered a d r o e =
    let p = d.pending_data in
    let all : pending_items p
          ++ (queue_items r.read_event_drain ++ queue_items r.pending_read_events)
        ≡ pending_items p ++ queue_items r.pending_read_events =
      ap (λ es. pending_items p ++ (queue_items es ++ queue_items r.pending_read_events)) e in
    let front : call_items (flush_calls p ++ []) ≡ pending_items p =
      ap call_items (append-nil (flush_calls p)) ∙ flush_calls_items p in
    elim (Bool-cases (is_nil r.pending_read_events)) [
      | inl n ↦
          subst (λ t. IsOrdered (to_deliver d r) (flush_calls p ++ t.0, t.1, t.2))
            (sym (take_nothing (record d { pending_data = none }) r n))
            (rests (flush_calls p ++ []) _ (
              ap (λ xs. xs ++ (queue_items r.read_event_drain ++ queue_items r.pending_read_events))
                front))
      | inr n ↦
          subst (λ t. IsOrdered (to_deliver d r) (flush_calls p ++ t.0, t.1, t.2))
            (sym (take_some (record d { pending_data = none }) r n))
            (goes_on (flush_calls p ++ []) (record d { pending_data = none }) _
              (ap
                  (λ xs.
                    xs ++ (queue_items r.pending_read_events ++ queue_items r.read_event_drain))
                  front
                ∙ ap
                    (λ es. pending_items p ++ (queue_items r.pending_read_events ++ queue_items es))
                    e
                ∙ ap (◌++◌ (pending_items p)) (append-nil (queue_items r.pending_read_events))
                ∙ sym all)
              (record { attached = o.attached; not_closing = o.not_closing; not_lost = o.not_lost })
              (λ k. refl))
    ]

-- Where the protocol's calls return and leave the transport open, and the transport is neither
-- detached nor closing nor lost: a step of a drain delivers the front of what it has joined and what
-- is queued, and still holds the rest in order, whether data are joined or fed one by one, whether the
-- drain goes on, is out of budget or done, whatever the event is; it never raises.
pub drain_step-IsOrdered :
    (a : Answers) (d : DrainLocals) (r : ReadEvents)
    → IsGood a
    → IsOpen r
    → IsSplit d
    → IsOrdered (to_deliver d r) (drain_step a d r)
unfolding to_deliver queued
drain_step-IsOrdered a d r g o s = elim (List-cases r.read_event_drain) [
  | inl e ↦
      subst (IsOrdered (to_deliver d r))
        (sym (step_end a d r e (flush_open a d.pending_data r g o))) (pass-IsOrdered a d r o e)
  | inr (event, rest, e) ↦
      let u : ReadEvents = record r { read_event_drain = rest } in
      let open_rest : IsOpen u = record {
        attached = o.attached;
        not_closing = o.not_closing;
        not_lost = o.not_lost;
      } in
      subst (IsOrdered (to_deliver d r)) (sym (step_event a d r event rest e)) (
        event-IsOrdered a event d u (to_deliver d r) g open_rest s (
          ap (◌++◌ (pending_items d.pending_data)) (
            sym (
              append_assoc (event_items event) (queue_items rest)
                (queue_items r.pending_read_events))
            ∙ ap (λ es. queue_items es ++ queue_items r.pending_read_events) (sym e))))
]
