-- ===== src/Timers/History.antt =====
-- No timer of a loop is lost, and none is released twice.
use mathlib.Core.List.{Perm, perm_middle}
use mathlib.Core.List.Perm
use rsloop.Common.{
  ℕ, ◌+◌, ◌≤◌, ◌≡◌, ◌≢◌, refl, sym, subst, inl, inr, arith, Bool, true, false, ◌&&◌, ◌||◌, List, [],
  ◌∷◌, ◌++◌, map, Option, none, some, Bool-cases, length, if◌then◌else◌, ◌==◌,
}
use rsloop.Timers.{TimerCallback, TimerEntry, push, drop_callback}
use rsloop.Timers.Earliest.{entries, IsSorted, push-Holds}
use rsloop.Timers.Permutations.{weights-perm}
use rsloop.Timers.Tombstones.{weight}
use rsloop.Timers.Local.{LoopTimers, start_run, end_run, enqueue_timer, collect, close_timers}
use rsloop.Timers.Kept.{held_timers, IsKept}
use rsloop.Timers.Fire.{true-false}
use rsloop.Timers.Cancel.{cancel_timer, ids}

-- What happens to the timers of a loop; the first number is the time. A run is started, and the
-- loop closed, only while it does not run.
pub data Op : Type 0 where
  enqueues : ℕ → ℕ → TimerCallback → Bool → Op
  starts ends closes : Op
  collects cancels : ℕ → Op

-- The identities of the callbacks that are accepted, and of those that are released: moved to the
-- ready items, or dropped when the loop is closed.
abbrev pub Moved : Type 0
Moved = List ℕ × List ℕ × LoopTimers

abbrev pub callback_ids : List TimerCallback → List ℕ
callback_ids = map (λ c. c.id)

abbrev enqueued : TimerCallback → Bool × LoopTimers → Moved
enqueued c (accepted, t) = (if accepted then c.id ∷ [] else [], [], t)

abbrev pub fired : Option (List TimerCallback × LoopTimers) → Option Moved
fired none = none
fired (some (ready, t)) = some ([], callback_ids ready, t)

unfoldable pub step : Op → LoopTimers → Option Moved
step (enqueues now delay c local) t = some (enqueued c (enqueue_timer now delay c local t))
step starts t = some ([], [], if t.running || t.closed then t else start_run t)
step ends t = some ([], [], if t.running then end_run t else t)
step closes t =
    some ([], if t.running || t.closed then [] else ids t.pending_timers, close_timers t)
step (collects now) t = if t.running then fired (collect now t []) else some ([], [], t)
step (cancels id) t = some ([], [], cancel_timer id t)

-- A callback that is scheduled is a new one.
abbrev pub IsFresh : Op → Type 0
IsFresh (enqueues now delay c local) = c.cancelled ≡ false
IsFresh starts = Unit {0}
IsFresh ends = Unit {0}
IsFresh closes = Unit {0}
IsFresh (collects now) = Unit {0}
IsFresh (cancels id) = Unit {0}

-- The timers that are released and those that are held are those that were accepted and those that
-- were held.
pub record Moves (t : LoopTimers) (r : Moved) : Type 0 where
  pub kept : IsKept r.2
  pub same : Perm (r.1 ++ ids (held_timers r.2)) (r.0 ++ ids (held_timers t))
  pub one : length r.0 ≤ 1

pub stays-Moves : (t : LoopTimers) → IsKept t → Moves t ([], [], t)
stays-Moves t v = record { kept = v; same = Perm.refl (ids (held_timers t)); one = omega arith }

pub ids-perm : {xs ys : List TimerEntry} → Perm xs ys → Perm (ids xs) (ids ys)
ids-perm p = Perm.map (λ e. e.callback.id) p

-- A timer that is accepted, wherever it is put.
accepted-Moves :
    (t u : LoopTimers) (e : TimerEntry)
    → IsKept t
    → weight e.callback ≡ 0
    → IsSorted u.heap.ordered
    → (u.running ≡ false → entries u.heap ≡ [])
    → (u.pending_timers_dirty ≡ false → u.pending_timers ≡ [])
    → u.cancelled_timers ≡ t.cancelled_timers
    → Perm (held_timers u) (e ∷ held_timers t)
    → Moves t (e.callback.id ∷ [], [], u)
accepted-Moves t u e v f s i d c p = record {
  kept = record {
    sorted = s;
    idle = i;
    seen = d;
    count = omega (arith, c, v.count, weights-perm p, f);
  };
  same = ids-perm p;
  one = omega arith;
}

entry_of : ℕ → ℕ → TimerCallback → TimerEntry
entry_of now delay c = record { when = now + delay; seq = c.id; callback = c }

fresh-weight : (c : TimerCallback) → c.cancelled ≡ false → weight c ≡ 0
unfolding weight
fresh-weight c f = ground arith

enqueue_local :
    (now delay : ℕ) (c : TimerCallback) (local : Bool) (t : LoopTimers)
    → (local && t.running) ≡ true
    → enqueue_timer now delay c local t
      ≡ (true, record t { heap = push t.heap (entry_of now delay c) (delay == 0) })
unfolding enqueue_timer entry_of
enqueue_local now delay c local t h = rw h refl

enqueue_refused :
    (now delay : ℕ) (c : TimerCallback) (local : Bool) (t : LoopTimers)
    → (local && t.running) ≡ false
    → t.closed ≡ true
    → c.cancelled ≡ false
    → enqueue_timer now delay c local t ≡ (false, t)
unfolding enqueue_timer drop_callback
enqueue_refused now delay c local t h k f = ground arith

enqueue_remote :
    (now delay : ℕ) (c : TimerCallback) (local : Bool) (t : LoopTimers)
    → (local && t.running) ≡ false
    → t.closed ≡ false
    → enqueue_timer now delay c local t ≡ (
      true,
      record t {
        pending_timers = entry_of now delay c ∷ t.pending_timers;
        pending_timers_dirty = true;
      },
    )
unfolding enqueue_timer entry_of
enqueue_remote now delay c local t h k = ground arith

pub enqueue-Moves :
    (now delay : ℕ) (c : TimerCallback) (local : Bool) (t : LoopTimers)
    → IsKept t
    → c.cancelled ≡ false
    → Moves t (enqueued c (enqueue_timer now delay c local t))
unfolding held_timers entry_of
enqueue-Moves now delay c local t v f =
    let e = entry_of now delay c in
    elim (Bool-cases (local && t.running)) [
      | inl h ↦
          let p = push-Holds t.heap e (delay == 0) v.sorted in
          subst (λ r. Moves t (enqueued c r)) (sym (enqueue_local now delay c local t h))
            (accepted-Moves t _ e v (fresh-weight c f) p.1 (λ i. absurd (busy h i)) v.seen refl
              (Perm.append_right t.pending_timers p.0))
      | inr h ↦ elim (Bool-cases t.closed) [
        | inl k ↦
            subst (λ r. Moves t (enqueued c r)) (sym (enqueue_refused now delay c local t h k f))
              (stays-Moves t v)
        | inr k ↦
            subst (λ r. Moves t (enqueued c r)) (sym (enqueue_remote now delay c local t h k))
              (accepted-Moves t _ e v (fresh-weight c f) v.sorted v.idle
                (λ i. absurd (true-false i)) refl
                (perm_middle {a = e} (entries t.heap) t.pending_timers))
      ]
    ]
  where
    busy : (local && t.running) ≡ true → t.running ≢ false
    busy h i = ground arith
