-- ===== src/Events/Turn.antt =====
-- What each step of a drain does to the wake-ups.
use rsloop.Common.{
  ℕ, ◌≡◌, refl, sym, ◌∙◌, subst, inl, inr, Bool, true, ◌&&◌, List, [], ◌++◌, Option, none, some,
  Bool-cases, List-cases, length, is_nil,
}
use rsloop.Events.{
  PendingReadEvent, incoming, eof, connection_lost, pause_writing, resume_writing, ReadEvents,
  can_coalesce_read_data, read_drain_budget_reached, max_pending_read_coalesce_bytes,
  max_read_events_per_drain, max_read_bytes_per_drain,
}
use rsloop.Events.Drain.{
  Delivery, EofAnswer, keep_open, closes, raises, Answers, DrainLocals, take_queue,
  flush_pending_data, reschedule_pending_read_events, check_budget, coalesce_data, drain_data,
  coalesce_with, drain_eof, eof_answered, drain_control, flush_before, drain_event, end_pass,
  drain_step,
}
use rsloop.Events.Order.{read_off}
use rsloop.Events.Deliver.{step_pass, step_event, take_nothing, take_some}
use rsloop.Events.Wakeups.{
  second, flush_drained, rescheduled_drained, IsTurn-if, rescheduled-IsSame, flush-IsSame, closed,
  end_lost-IsTurn, IsSame, IsTurn, goes_on, again, nothing_left, nil_of,
}

module _ {b : Bool} {n : ℕ} where
  check_budget-IsTurn :
      (a : Answers) (calls : List Delivery) (d : DrainLocals) (r : ReadEvents)
      → a.sends ≡ true
      → IsSame b n r
      → IsTurn b n (check_budget a calls d r)
  unfolding check_budget
  check_budget-IsTurn a calls d r w s =
      let (more, u) = reschedule_pending_read_events a.sends r in
      let reached =
        read_drain_budget_reached d.drained_events d.drained_bytes max_read_events_per_drain
          max_read_bytes_per_drain in
      IsTurn-if (reached && more)
        (λ c.
          again _ _ _ (flush_pending_data a d.pending_data u).0 refl
            (flush-IsSame a d.pending_data u
              (rescheduled-IsSame a.sends r (second reached more c) w s))
            (flush_drained a d.pending_data u
              ∙ rescheduled_drained a.sends r (second reached more c)))
        (λ c. goes_on calls d r s)

  coalesce-IsTurn :
      (a : Answers) (d : DrainLocals) (bytes : List ℕ) (r : ReadEvents) (p : Option (List ℕ))
      → a.sends ≡ true
      → IsSame b n r
      → IsTurn b n (coalesce_with a d bytes r p)
  unfolding coalesce_with
  coalesce-IsTurn a d bytes r none w s =
      check_budget-IsTurn a [] (record d { pending_data = some bytes }) r w s
  coalesce-IsTurn a d bytes r (some joined) w s =
      let (ok, calls, u) = flush_pending_data a (some joined) r in
      let f = flush-IsSame a (some joined) r s in
      IsTurn-if
        (can_coalesce_read_data (length joined) (length bytes) max_pending_read_coalesce_bytes)
        (λ c. check_budget-IsTurn a [] (record d { pending_data = some (joined ++ bytes) }) r w s)
        (λ c.
          IsTurn-if ok
            (λ k. check_budget-IsTurn a calls (record d { pending_data = some bytes }) u w f)
            (λ k. end_lost-IsTurn calls u f))

  read_off-IsSame : (bytes : List ℕ) (r : ReadEvents) → IsSame b n r → IsSame b n (read_off bytes r)
  unfolding read_off
  read_off-IsSame bytes r s = record {
    same_scheduled = s.same_scheduled;
    same_commands = s.same_commands;
  }

  data-IsTurn :
      (a : Answers) (d : DrainLocals) (bytes : List ℕ) (r : ReadEvents)
      → a.sends ≡ true
      → IsSame b n r
      → IsTurn b n (drain_data a d bytes r)
  unfolding drain_data coalesce_data read_off
  data-IsTurn a d bytes r w s =
      IsTurn-if d.fast_path
        (λ c.
          IsTurn-if a.data_returns
            (λ k.
              check_budget-IsTurn a _ _ _ w (closed a.data_closes _ (read_off-IsSame bytes r s)))
            (λ k. end_lost-IsTurn _ _ (closed a.data_closes _ (read_off-IsSame bytes r s))))
        (λ c. coalesce-IsTurn a _ bytes _ d.pending_data w (read_off-IsSame bytes r s))

  eof-IsTurn :
      (calls : List Delivery) (d : DrainLocals) (r : ReadEvents) (e : EofAnswer)
      → IsSame b n r
      → IsTurn b n (eof_answered calls d r e)
  unfolding eof_answered
  eof-IsTurn calls d r keep_open s = goes_on _ d r s
  eof-IsTurn calls d r closes s =
      end_lost-IsTurn _ _
        (record { same_scheduled = s.same_scheduled; same_commands = s.same_commands })
  eof-IsTurn calls d r raises s = end_lost-IsTurn _ r s

  control-IsTurn :
      (a : Answers) (event : PendingReadEvent) (calls : List Delivery) (d : DrainLocals)
      (r : ReadEvents)
      → a.writing_returns ≡ true
      → IsSame b n r
      → IsTurn b n (drain_control a event calls d r)
  unfolding drain_control drain_eof
  control-IsTurn a (incoming bytes) calls d r w s = goes_on calls d r s
  control-IsTurn a eof calls d r w s = eof-IsTurn calls d r a.eof_answer s
  control-IsTurn a (connection_lost message) calls d r w s = end_lost-IsTurn calls r s
  control-IsTurn a pause_writing calls d r w s = rw w (goes_on _ d r s)
  control-IsTurn a resume_writing calls d r w s = rw w (goes_on _ d r s)

  before-IsTurn :
      (a : Answers) (event : PendingReadEvent) (d : DrainLocals) (r : ReadEvents)
      → a.writing_returns ≡ true
      → IsSame b n r
      → IsTurn b n (flush_before a event d r)
  unfolding flush_before
  before-IsTurn a event d r w s =
      let (ok, calls, u) = flush_pending_data a d.pending_data r in
      let f = flush-IsSame a d.pending_data r s in
      IsTurn-if ok (λ k. control-IsTurn a event calls (record d { pending_data = none }) u w f)
        (λ k. end_lost-IsTurn calls u f)

  event-IsTurn :
      (a : Answers) (event : PendingReadEvent) (d : DrainLocals) (r : ReadEvents)
      → a.writing_returns ≡ true
      → a.sends ≡ true
      → IsSame b n r
      → IsTurn b n (drain_event a event d r)
  unfolding drain_event
  event-IsTurn a (incoming bytes) d r w e s = data-IsTurn a d bytes r e s
  event-IsTurn a eof d r w e s = before-IsTurn a eof d r w s
  event-IsTurn a (connection_lost message) d r w e s =
      before-IsTurn a (connection_lost message) d r w s
  event-IsTurn a pause_writing d r w e s = before-IsTurn a pause_writing d r w s
  event-IsTurn a resume_writing d r w e s = before-IsTurn a resume_writing d r w s

  take-IsTurn :
      (before : List Delivery) (d : DrainLocals) (r : ReadEvents)
      → IsSame b n r
      → r.read_event_drain ≡ []
      → let (calls, status, u) = take_queue d r in IsTurn b n (before ++ calls, status, u)
  take-IsTurn before d r s e = elim (Bool-cases (is_nil r.pending_read_events)) [
    | inl k ↦
        subst (λ t. IsTurn b n (before ++ t.0, t.1, t.2)) (sym (take_nothing d r k))
          (nothing_left _ _ (record { same_scheduled = refl; same_commands = s.same_commands }) e
            (nil_of r.pending_read_events k))
    | inr k ↦
        subst (λ t. IsTurn b n (before ++ t.0, t.1, t.2)) (sym (take_some d r k))
          (goes_on _ _ _
            (record { same_scheduled = s.same_scheduled; same_commands = s.same_commands }))
  ]

  pass-IsTurn :
      (a : Answers) (d : DrainLocals) (r : ReadEvents)
      → IsSame b n r
      → r.read_event_drain ≡ []
      → IsTurn b n (end_pass a d r)
  unfolding end_pass
  pass-IsTurn a d r s e =
      let (ok, calls, u) = flush_pending_data a d.pending_data r in
      let f = flush-IsSame a d.pending_data r s in
      IsTurn-if ok
        (λ k.
          take-IsTurn calls (record d { pending_data = none }) u f
            (flush_drained a d.pending_data r ∙ e))
        (λ k. end_lost-IsTurn calls u f)

-- Whatever is queued and whatever the protocol answers, where `pause_writing` and `resume_writing`
-- return or their exceptions are handled, and the loop takes commands: each step of a drain leaves
-- the wake-ups so that the drain goes on, or there is one new command, or the connection is lost, or
-- nothing is queued and the next event is scheduled again.
pub drain_step-IsTurn :
    (a : Answers) (d : DrainLocals) (r : ReadEvents)
    → a.writing_returns ≡ true
    → a.sends ≡ true
    → IsTurn r.read_events_scheduled r.read_commands (drain_step a d r)
drain_step-IsTurn a d r w e = elim (List-cases r.read_event_drain) [
  | inl k ↦
      subst (IsTurn r.read_events_scheduled r.read_commands) (sym (step_pass a d r k))
        (pass-IsTurn a d r (record { same_scheduled = refl; same_commands = refl }) k)
  | inr (event, rest, k) ↦
      subst (IsTurn r.read_events_scheduled r.read_commands) (sym (step_event a d r event rest k)) (
        event-IsTurn a event d (record r { read_event_drain = rest }) w e
          (record { same_scheduled = refl; same_commands = refl }))
]
