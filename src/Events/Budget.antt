-- ===== src/Events/Budget.antt =====
-- The budget of a drain.
use rsloop.Common.{
  ◌≡◌, refl, sym, ap, ◌∙◌, subst, inl, inr, arith, Bool, true, false, ◌&&◌, List, [], ◌++◌,
  append_assoc, Bool-cases, is_nil,
}
use rsloop.Events.{
  ReadEvents, send_read, read_drain_budget_reached, max_read_events_per_drain,
  max_read_bytes_per_drain,
}
use rsloop.Events.Drain.{
  Delivery, Answers, DrainLocals, running, returned, flush_pending_data,
  reschedule_pending_read_events, check_budget,
}
use rsloop.Events.Items.{
  Item, call_items, pending_items, queued, to_deliver, IsGood, IsOpen, IsSplit, IsOrdered, goes_on,
  rests, call_items-append, queue_items-append, flush_open, flush_calls, flush_calls_items,
}

left : ReadEvents → Bool
left r = is_nil r.read_event_drain && is_nil r.pending_read_events

back_in_queue : ReadEvents → ReadEvents
back_in_queue r = record r {
  pending_read_events = r.read_event_drain ++ r.pending_read_events;
  read_event_drain = [];
}

reschedule_none :
    (sends : Bool) (r : ReadEvents)
    → left r ≡ true
    → reschedule_pending_read_events sends r ≡ (false, r)
unfolding reschedule_pending_read_events left
reschedule_none sends r e = ground arith

reschedule_some :
    (sends : Bool) (r : ReadEvents)
    → left r ≡ false
    → reschedule_pending_read_events sends r ≡ (true, send_read sends (back_in_queue r))
unfolding reschedule_pending_read_events left back_in_queue
reschedule_some sends r e = ground arith

back_in_queue-queued :
    (sends : Bool) (r : ReadEvents) → queued (send_read sends (back_in_queue r)) ≡ queued r
unfolding queued back_in_queue
back_in_queue-queued true r = queue_items-append r.read_event_drain r.pending_read_events
back_in_queue-queued false r = queue_items-append r.read_event_drain r.pending_read_events

back_in_queue-IsOpen :
    (sends : Bool) (r : ReadEvents) → IsOpen r → IsOpen (send_read sends (back_in_queue r))
unfolding back_in_queue
back_in_queue-IsOpen true r o = record {
  attached = o.attached;
  not_closing = o.not_closing;
  not_lost = o.not_lost;
}
back_in_queue-IsOpen false r o = record {
  attached = o.attached;
  not_closing = o.not_closing;
  not_lost = o.not_lost;
}

budget : DrainLocals → Bool
budget d =
    read_drain_budget_reached d.drained_events d.drained_bytes max_read_events_per_drain
      max_read_bytes_per_drain

check_again :
    (a : Answers) (calls more : List Delivery) (d : DrainLocals) (r u : ReadEvents)
    → reschedule_pending_read_events a.sends r ≡ (true, u)
    → flush_pending_data a d.pending_data u ≡ (true, more, u)
    → budget d ≡ true
    → check_budget a calls d r ≡ (calls ++ more, returned, u)
unfolding check_budget budget
check_again a calls more d r u e f b = rw (e, f, b) refl

check_on :
    (a : Answers) (calls : List Delivery) (d : DrainLocals) (r : ReadEvents)
    → (budget d && (reschedule_pending_read_events a.sends r).0) ≡ false
    → check_budget a calls d r ≡ (calls, running d, r)
unfolding check_budget budget
check_on a calls d r b = rw b refl

pub check_budget-IsOrdered :
    (a : Answers) (calls : List Delivery) (d : DrainLocals) (r : ReadEvents) (total : List Item)
    → IsGood a
    → IsOpen r
    → IsSplit d
    → call_items calls ++ to_deliver d r ≡ total
    → IsOrdered total (check_budget a calls d r)
unfolding to_deliver
check_budget-IsOrdered a calls d r total g o s t = elim (Bool-cases (budget d)) [
  | inr b ↦
      subst (IsOrdered total) (sym (check_on a calls d r (rw b refl))) (goes_on calls d r t o s)
  | inl b ↦ elim (Bool-cases (left r)) [
    | inl e ↦
        subst (IsOrdered total)
          (sym (check_on a calls d r (rw (b, reschedule_none a.sends r e) refl)))
          (goes_on calls d r t o s)
    | inr e ↦
        let u = send_read a.sends (back_in_queue r) in
        let f = flush_open a d.pending_data u g (back_in_queue-IsOpen a.sends r o) in
        let c =
          check_again a calls (flush_calls d.pending_data) d r u (reschedule_some a.sends r e) f
            b in
        subst (IsOrdered total) (sym c) (
          rests _ u (
            ap (λ xs. xs ++ queued u) (call_items-append calls (flush_calls d.pending_data))
            ∙ append_assoc (call_items calls) (call_items (flush_calls d.pending_data)) (queued u)
            ∙ ap (λ xs. call_items calls ++ (xs ++ queued u)) (flush_calls_items d.pending_data)
            ∙ ap (λ xs. call_items calls ++ (pending_items d.pending_data ++ xs))
                (back_in_queue-queued a.sends r)
            ∙ t))
  ]
]
