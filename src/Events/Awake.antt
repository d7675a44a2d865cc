-- ===== src/Events/Awake.antt =====
-- No wake-up of a drain is lost, and no two drains run.
use rsloop.Common.{
  ◌+◌, ◌-◌, ◌≤◌, ◌≡◌, ◌⊎◌, refl, sym, ap, ◌∙◌, subst, inl, inr, arith, Bool, true, false, ◌&&◌,
  List, [], Option, none, some, Bool-cases, if◌then◌else◌, is_nil, ltb,
}
use rsloop.Events.{
  ReadEvents, enqueue_pending_read_event, backpressure_read, apply_pending_read_backpressure,
}
use rsloop.Events.Drain.{Delivery, Answers, DrainLocals, Step, start_drain}
use rsloop.Events.Deliver.{take_nothing, take_some}
use rsloop.Events.Turn.{drain_step-IsTurn}
use rsloop.Events.Wakeups.{IsTurn, goes_on, again, over, nothing_left, nil_of}
use rsloop.Events.Machine.{
  Machine, Act, pushes, backpressures, schedules, starts, drains, act, is_idle, status_drain,
  stepped, drain_on,
}
use rsloop.Events.Insert.{
  pushed-IsAwake, enqueue-IsPushed, schedule-IsAwake, active, due, IsAwake, Returns,
}

turned-IsAwake :
    (m : Machine) (s : Step)
    → m.transport.read_commands ≡ 0
    → m.transport.read_events_scheduled ≡ true
    → IsTurn m.transport.read_events_scheduled m.transport.read_commands s
    → IsAwake (stepped m s).1
turned-IsAwake m _ c e (goes_on calls d u s) = record {
  rest = inr (inl refl);
  one = ground (arith, s.same_commands, s.same_scheduled, c, e);
  waiting = inr (inl (s.same_scheduled ∙ e));
}
turned-IsAwake m _ c e (again calls t u ok k s l) = record {
  rest = inl l;
  one = s_one;
  waiting = inr (inl (s.same_scheduled ∙ e));
}
  where
    s_one : u.read_commands + active (status_drain t) ≡ due u.read_events_scheduled
    s_one = ground (arith, s.same_commands, s.same_scheduled, c, e, k)
turned-IsAwake m _ c e (over calls u s l) = record {
  rest = inr (inr l);
  one = ground (arith, s.same_commands, s.same_scheduled, c, e);
  waiting = inr (inr (inr l));
}
turned-IsAwake m _ c e (nothing_left calls u s k j) = record {
  rest = inl k;
  one = ground (arith, s.same_commands, s.same_scheduled, c, e);
  waiting = inl (j, k);
}

backpressure_lost : (r : ReadEvents) → (backpressure_read r).flags.lost_called ≡ r.flags.lost_called
unfolding backpressure_read apply_pending_read_backpressure
backpressure_lost r = ground arith

backpressure-IsAwake :
    (m : Machine) → IsAwake m → IsAwake (record m { transport = backpressure_read m.transport })
unfolding backpressure_read
backpressure-IsAwake m v =
    let l = backpressure_lost m.transport in
    record {
      one = v.one;
      waiting =
          subst
            (λ b.
              (m.transport.pending_read_events ≡ []) × (m.transport.read_event_drain ≡ [])
              ⊎ ((m.transport.read_events_scheduled ≡ true) ⊎ ((1 ≤ m.unscheduled) ⊎ (b ≡ true))))
            (sym l) v.waiting;
      rest =
          subst (λ b. (m.transport.read_event_drain ≡ []) ⊎ ((active m.drain ≡ 1) ⊎ (b ≡ true)))
            (sym l) v.rest;
    }

-- A command that the loop comes to is the only one, and no drain is under way.
one_command :
    (m : Machine)
    → IsAwake m
    → (is_idle m.drain && ltb 0 m.transport.read_commands) ≡ true
    → (m.transport.read_commands ≡ 1)
      × (m.transport.read_events_scheduled ≡ true)
      × (active m.drain ≡ 0)
one_command m v h = ground (arith, v.one, h)

start-IsAwake :
    (fast_path : Bool) (m : Machine)
    → IsAwake m
    → (is_idle m.drain && ltb 0 m.transport.read_commands) ≡ true
    → IsAwake (stepped m (start_drain fast_path m.transport)).1
unfolding start_drain
start-IsAwake fast_path m v h =
    let c = one_command m v h in
    let r = record m.transport { read_commands = m.transport.read_commands - 1 } in
    elim (Bool-cases (is_nil m.transport.pending_read_events)) [
      | inl k ↦
          subst (λ t. IsAwake (stepped m t).1) (sym (take_nothing _ r k))
            (record {
              one = omega (arith, c.0);
              waiting = ground (arith, v.rest, c.2, nil_of m.transport.pending_read_events k);
              rest = ground (arith, v.rest, c.2);
            })
      | inr k ↦
          subst (λ t. IsAwake (stepped m t).1) (sym (take_some _ r k))
            (record {
              one = ground (arith, c.0, c.1);
              waiting = inr (inl c.1);
              rest = inr (inl refl);
            })
    ]

IsAwake-if :
    (m n : List Delivery × Machine) (c : Bool)
    → (c ≡ true → IsAwake m.1)
    → IsAwake n.1
    → IsAwake (if c then m else n).1
IsAwake-if m n true f k = f refl
IsAwake-if m n false f k = k

drain-IsAwake :
    (a : Answers) (m : Machine)
    → a.writing_returns ≡ true
    → a.sends ≡ true
    → IsAwake m
    → (o : Option DrainLocals) → m.drain ≡ o
    → IsAwake (drain_on a m o).1
drain-IsAwake a m w s v none e = v
drain-IsAwake a m w s v (some d) e =
    let o : active m.drain ≡ 1 = ap active e in
    turned-IsAwake m _ (none_left o) (one_due o) (drain_step-IsTurn a d m.transport w s)
  where
    none_left : active m.drain ≡ 1 → m.transport.read_commands ≡ 0
    none_left o = ground (arith, v.one, o)

    one_due : active m.drain ≡ 1 → m.transport.read_events_scheduled ≡ true
    one_due o = ground (arith, v.one, o)

-- Where `pause_writing` and `resume_writing` return or their exceptions are handled, and the loop
-- takes commands: every step of a worker or of a drain, in whatever order, keeps one drain at most
-- scheduled or under way, and while something is queued one is scheduled, or a worker is about to
-- schedule it, or the connection is lost; so no event stays behind.
pub act-IsAwake : (o : Act) (m : Machine) → Returns o → IsAwake m → IsAwake (act o m).1
unfolding act
act-IsAwake (pushes event) m g v =
    pushed-IsAwake m (enqueue_pending_read_event event m.transport) v
      (enqueue-IsPushed event m.transport)
act-IsAwake backpressures m g v = backpressure-IsAwake m v
act-IsAwake (schedules true) m g v =
    IsAwake-if _ _ (ltb 0 m.unscheduled) (λ h. schedule-IsAwake m v (ground (arith, h))) v
act-IsAwake (schedules false) m g v = absurd (ground (arith, g))
act-IsAwake (starts fast_path) m g v =
    IsAwake-if _ _ (is_idle m.drain && ltb 0 m.transport.read_commands)
      (start-IsAwake fast_path m v) v
act-IsAwake (drains a) m g v = drain-IsAwake a m g.0 g.1 v m.drain refl
