-- ===== src/Timers/Runs.antt =====
-- No timer of a loop is lost, and none is released twice, whatever happens in whatever order.
use mathlib.Core.List.{Perm}
use mathlib.Core.List.Perm
use rsloop.Common.{
  ℕ, suc, ◌+◌, ◌<◌, ◌≤◌, ◌≡◌, refl, sym, ap, ◌∙◌, subst, arith, Bool, true, false, ◌||◌, List, [],
  ◌∷◌, ◌++◌, map, Option, none, some, append_assoc, All, length, length-append, if◌then◌else◌,
}
use rsloop.Timers.{TimerCallback, TimerEntry}
use rsloop.Timers.Permutations.{exchange, length-perm}
use rsloop.Timers.Tombstones.{dequeued}
use rsloop.Timers.Local.{LoopTimers, collect}
use rsloop.Timers.Kept.{held_timers, IsKept, weights-length}
use rsloop.Timers.Fire.{IsFired, collect-Gives}
use rsloop.Timers.Collect.{Gives, gives}
use rsloop.Timers.History.{
  Op, enqueues, starts, ends, closes, collects, cancels, Moved, callback_ids, fired, step, IsFresh,
  Moves, stays-Moves, ids-perm, enqueue-Moves,
}
use rsloop.Timers.Cancel.{cancel_timer-IsKept, ids, ids-append}
use rsloop.Timers.Balance.{start-Moves, end-Moves, close-Moves, stopped}

ready_ids : (es : List TimerEntry) → callback_ids (map dequeued es) ≡ ids es
unfolding dequeued
ready_ids [] = refl
ready_ids (e ∷ es) = ap (◌∷◌ e.callback.id) (ready_ids es)

callback_ids-append :
    (xs ys : List TimerCallback) → callback_ids (xs ++ ys) ≡ callback_ids xs ++ callback_ids ys
callback_ids-append [] ys = refl
callback_ids-append (x ∷ xs) ys = ap (◌∷◌ x.id) (callback_ids-append xs ys)

fired-Moves :
    (now : ℕ) (t : LoopTimers) (r : List TimerCallback × LoopTimers)
    → IsFired now t [] r
    → Moves t ([], callback_ids r.0, r.1)
fired-Moves now t r f =
    let out : callback_ids r.0 ≡ ids (f.burst ++ f.out) =
      ap callback_ids f.handed_over
      ∙ callback_ids-append (map dequeued f.burst) (map dequeued f.out)
      ∙ ap (λ xs. xs ++ callback_ids (map dequeued f.out)) (ready_ids f.burst)
      ∙ ap (◌++◌ (ids f.burst)) (ready_ids f.out)
      ∙ sym (ids-append f.burst f.out) in
    let all : callback_ids r.0 ++ ids (held_timers r.1)
        ≡ ids ((f.burst ++ f.out) ++ held_timers r.1) =
      ap (λ xs. xs ++ ids (held_timers r.1)) out
      ∙ sym (ids-append (f.burst ++ f.out) (held_timers r.1)) in
    record {
      kept = f.kept;
      same = subst (λ xs. Perm xs (ids (held_timers t))) (sym all) (ids-perm f.same);
      one = omega arith;
    }

fired-Gives :
    (now : ℕ) (t : LoopTimers) (o : Option (List TimerCallback × LoopTimers))
    → Gives (IsFired now t []) o
    → Gives (Moves t) (fired o)
fired-Gives now t _ (gives r f) = gives _ (fired-Moves now t r f)

Moves-if :
    {t x y : LoopTimers} (b : Bool)
    → (b ≡ true → Moves t ([], [], x))
    → (b ≡ false → Moves t ([], [], y))
    → Moves t ([], [], if b then x else y)
Moves-if true f g = f refl
Moves-if false f g = g refl

Gives-if :
    {A : Type 0} {P : A → Type 0} {x y : Option A} (b : Bool)
    → (b ≡ true → Gives P x)
    → (b ≡ false → Gives P y)
    → Gives P (if b then x else y)
Gives-if true f g = f refl
Gives-if false f g = g refl

-- Where the timers of the loop are in order, one that is scheduled is new, and the timers fit a
-- `usize`: no operation panics or runs on; it keeps them in order, accepts at most one, and the
-- timers that it releases and those that are held after it are those that it accepted and those that
-- were held before it.
pub step-Moves :
    (o : Op) (t : LoopTimers)
    → IsKept t
    → IsFresh o
    → length (held_timers t) < 18446744073709551615
    → Gives (Moves t) (step o t)
unfolding step
step-Moves (enqueues now delay c local) t v f b = gives _ (enqueue-Moves now delay c local t v f)
step-Moves starts t v f b =
    gives _
      (Moves-if (t.running || t.closed) (λ h. stays-Moves t v) (λ h. start-Moves t v (stopped t h)))
step-Moves ends t v f b = gives _ (Moves-if t.running (λ h. end-Moves t v) (λ h. stays-Moves t v))
step-Moves closes t v f b =
    gives _ (close-Moves t v (omega (arith, v.count, weights-length (held_timers t), b)))
step-Moves (collects now) t v f b =
    let fits : t.cancelled_timers < 18446744073709551616 =
      omega (arith, v.count, weights-length (held_timers t), b) in
    Gives-if t.running (λ h. fired-Gives now t (collect now t []) (collect-Gives now t [] v h fits))
      (λ h. gives _ (stays-Moves t v))
step-Moves (cancels id) t v f b =
    let c = cancel_timer-IsKept id t v b in
    gives _ (record {
      kept = c.0;
      same =
          subst (λ xs. Perm xs (ids (held_timers t))) (sym c.1) (Perm.refl (ids (held_timers t)));
      one = omega arith;
    })

-- One step before the rest of a history.
abbrev then_more : Moved → Option Moved → Option Moved
then_more r none = none
then_more (accepted, released, t) (some (accepted', released', u)) =
    some (accepted ++ accepted', released ++ released', u)

-- A history, with all that it accepts and releases.
pub run : List Op → LoopTimers → Option Moved
run [] t = some ([], [], t)
run (o ∷ os) t = elim (step o t) [ none ↦ none | some r ↦ then_more r (run os r.2) ]

-- The timers that a history releases and those that are held after it are those that it accepted and
-- those that were held.
pub record Balances (t : LoopTimers) (r : Moved) : Type 0 where
  pub kept : IsKept r.2
  pub same : Perm (r.1 ++ ids (held_timers r.2)) (r.0 ++ ids (held_timers t))

length-ids : (es : List TimerEntry) → length (ids es) ≡ length es
length-ids [] = refl
length-ids (e ∷ es) = ap suc (length-ids es)

at_most_one_more :
    (t : LoopTimers) (r : Moved)
    → Moves t r
    → length (held_timers r.2) ≤ suc (length (held_timers t))
at_most_one_more t r m =
    let p = length-perm m.same in
    omega (
      arith,
      p,
      length-append r.1 (ids (held_timers r.2)),
      length-append r.0 (ids (held_timers t)),
      length-ids (held_timers r.2),
      length-ids (held_timers t),
      m.one,
    )

then-Balances :
    (t : LoopTimers) (r : Moved)
    → Moves t r
    → {o : Option Moved} → Gives (Balances r.2) o
    → Gives (Balances t) (then_more r o)
then-Balances t (a, b, u) m (gives (a', b', w) k) =
    let first : Perm (b ++ (b' ++ ids (held_timers w))) (b ++ (a' ++ ids (held_timers u))) =
      Perm.append_left b k.same in
    let second : Perm (b ++ (a' ++ ids (held_timers u))) (a' ++ (b ++ ids (held_timers u))) =
      exchange b a' (ids (held_timers u)) in
    let third : Perm (a' ++ (b ++ ids (held_timers u))) (a' ++ (a ++ ids (held_timers t))) =
      Perm.append_left a' m.same in
    let fourth : Perm (a' ++ (a ++ ids (held_timers t))) (a ++ (a' ++ ids (held_timers t))) =
      exchange a' a (ids (held_timers t)) in
    let all = Perm.trans first (Perm.trans second (Perm.trans third fourth)) in
    gives (a ++ a', b ++ b', w)
      (record {
        kept = k.kept;
        same =
            subst (λ xs. Perm xs ((a ++ a') ++ ids (held_timers t)))
              (sym (append_assoc b b' (ids (held_timers w))))
              (subst (λ xs. Perm (b ++ (b' ++ ids (held_timers w))) xs)
                (sym (append_assoc a a' (ids (held_timers t)))) all);
      })

run_step :
    (os : List Op) (t : LoopTimers)
    → ((u : LoopTimers)
        → IsKept u
        → length os + length (held_timers u) < 18446744073709551615
        → Gives (Balances u) (run os u))
    → suc (length os) + length (held_timers t) < 18446744073709551615
    → (r : Option Moved) → Gives (Moves t) r
    → Gives (Balances t) (elim r [ none ↦ none | some r' ↦ then_more r' (run os r'.2) ])
run_step os t ih b _ (gives r m) =
    let l = at_most_one_more t r m in then-Balances t r m (ih r.2 m.kept (omega (arith, b, l)))

-- Whatever happens to the timers of a loop, in whatever order: timers scheduled on the loop's thread
-- or another one, cancelled or collected, runs that start and end, the loop closed. Where they are
-- in order at first, every timer that is scheduled is new, and all of them fit a `usize`, then
-- nothing panics or runs on, they are in order at the end, and the timers released and those still
-- held are those that were accepted and those held at first: none is lost and none released twice.
pub run-Balances :
    (os : List Op) (t : LoopTimers)
    → IsKept t
    → All IsFresh os
    → length os + length (held_timers t) < 18446744073709551615
    → Gives (Balances t) (run os t)
unfolding run
run-Balances [] t v f b =
    gives ([], [], t) (record { kept = v; same = Perm.refl (ids (held_timers t)) })
run-Balances (o ∷ os) t v f b =
    run_step os t (λ u w c. run-Balances os u w f.1 c) b (step o t)
      (step-Moves o t v f.0 (omega (arith, b)))
