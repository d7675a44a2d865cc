-- ===== src/AsyncEvent/Notified.antt =====
-- Whoever listened before a call of `notify_all` is notified by its end.
use rsloop.Common.{
  ℕ, zero, suc, ◌+◌, ◌<◌, ◌≡◌, refl, sym, ap, ◌∙◌, subst, arith, List, [], ◌∷◌, ◌++◌, length,
  Bool-cases, inl, inr,
}
use rsloop.Bytes.{Alloc}
use rsloop.AsyncEvent.{
  Waiters, AsyncEvent, new_event, no_waiters, start_notify, give_back, continue_notify,
}
use rsloop.AsyncEvent.Run.{
  take_call, Act, notifies, continues, continue_call, act, run, occurrences, pending, steps_left,
  finish, total, share,
}
use rsloop.AsyncEvent.Once.{
  start_notify-Keeps, Keeps-trans, run-Keeps, finish-Keeps, no_occurrences,
}

start_notify-taken : (t : ℕ) (e : AsyncEvent) → occurrences t (start_notify e).waiters.senders ≡ 0
unfolding start_notify occurrences
start_notify-taken t e = elim (Bool-cases (no_waiters e.waiters.senders)) [
  | inl h ↦ rw h (no_occurrences t e.waiters.senders h)
  | inr h ↦ rw h refl
]

give_back-notifying : (e : AsyncEvent) (w : Waiters) → (give_back e w).notifying ≡ e.notifying
unfolding give_back
give_back-notifying e w = ground arith

continue_notify-steps :
    (e : AsyncEvent) (ws : List Waiters) (c : ℕ) (ts : List ℕ)
    → steps_left (continue_notify e ws (record { senders = ts; capacity = c })).notifying
      ≡ length ts + steps_left ws
unfolding continue_notify steps_left
continue_notify-steps e ws c [] =
    let g =
      give_back-notifying (record e { notifying = ws }) (record { senders = []; capacity = c }) in
    omega (arith, ap steps_left g)
continue_notify-steps e ws c (x ∷ xs) = omega arith

first_step :
    (a : Alloc) (n : ℕ) (e : AsyncEvent) (ws : List Waiters)
    → ws ≡ e.notifying
    → steps_left ws ≡ suc n
    → steps_left (act a e (continues zero)).notifying ≡ n
unfolding act steps_left
first_step a n e [] q h = ground arith
first_step a n e (w ∷ ws) q h =
    subst (λ vs. steps_left (continue_call e (take_call zero vs)).notifying ≡ n) q
      (continue_notify-steps e ws w.capacity w.senders ∙ omega arith)

no_steps : (ws : List Waiters) → steps_left ws ≡ 0 → ws ≡ []
unfolding steps_left
no_steps [] h = refl
no_steps (w ∷ ws) h = ground arith

finish-ends :
    (a : Alloc) (n : ℕ) (e : AsyncEvent)
    → steps_left e.notifying ≡ n
    → (finish a n e).notifying ≡ []
unfolding finish
finish-ends a zero e h = no_steps e.notifying h
finish-ends a (suc n) e h =
    finish-ends a n (act a e (continues zero)) (first_step a n e e.notifying refl h)

-- A channel that is in no list of senders has been sent to.
all_sent :
    (t : ℕ) (e : AsyncEvent)
    → total t e ≡ share t e
    → t < e.next_channel
    → occurrences t e.waiters.senders ≡ 0
    → pending t e.notifying ≡ 0
    → occurrences t e.sent ≡ 1
unfolding total
all_sent t e o m w p = ground arith

run-append :
    (a : Alloc) (e : AsyncEvent) (xs ys : List Act) → run a e (xs ++ ys) ≡ run a (run a e xs) ys
unfolding run
run-append a e [] ys = refl
run-append a e (x ∷ xs) ys = run-append a (act a e x) xs ys

-- The event after a history, with the calls that are still in flight run to their ends.
unfoldable pub settled : Alloc → List Act → AsyncEvent
settled a xs = finish a (steps_left (run a new_event xs).notifying) (run a new_event xs)

-- Whatever the calls and the interleaving of their steps before and after it, a call of
-- `notify_all` reaches everyone who listened before it: as many steps as the calls in flight have
-- left bring them to their ends, and then each channel made before that call has been sent to, and
-- only once.
pub settled-Notifies :
    (a : Alloc) (before after : List Act) (t : ℕ)
    → t < (run a new_event before).next_channel
    → ((settled a (before ++ (notifies ∷ after))).notifying ≡ [])
      × (occurrences t (settled a (before ++ (notifies ∷ after))).sent ≡ 1)
unfolding settled run act total pending occurrences
settled-Notifies a before after t h =
    let b = run a new_event before in
    let n = start_notify b in
    let l = run a n after in
    let f = finish a (steps_left l.notifying) l in
    let e : run a new_event (before ++ (notifies ∷ after)) ≡ l =
      run-append a new_event before (notifies ∷ after) in
    let kb = run-Keeps a t new_event before in
    let kn = start_notify-Keeps t b in
    let kf =
      Keeps-trans t n l f (run-Keeps a t n after) (finish-Keeps a t (steps_left l.notifying) l) in
    let made = kf.made (kn.made h) in
    let once = kf.once (kn.once (kb.once (ground arith))) in
    let taken = kf.taken (kn.made h) (start_notify-taken t b) in
    let ends = finish-ends a (steps_left l.notifying) l refl in
    let idle = ap (pending t) ends in
    subst
      (λ v.
        ((finish a (steps_left v.notifying) v).notifying ≡ [])
        × (occurrences t (finish a (steps_left v.notifying) v).sent ≡ 1))
      (sym e) (ends, all_sent t f once made taken idle)
