-- ===== src/Timers/Heap.antt =====
-- The heap of timers, as a list that gives up its earliest entry.
use mathlib.Core.List.{Perm}
use mathlib.Core.List.Perm
use rsloop.Common.{◌≡◌, refl, inl, inr, List, [], ◌∷◌, All, Bool-cases, if◌then◌else◌}
use rsloop.Timers.{TimerEntry, is_greater, greatest, take_greatest}
use rsloop.Timers.Order.{Before, Before-refl, Before-trans, greater-Before, not_greater-Before}

-- the one of two entries that is looked at further, and the one that is put aside
pub chosen : TimerEntry → TimerEntry → TimerEntry
chosen e f = if is_greater f e then f else e

aside : TimerEntry → TimerEntry → TimerEntry
aside e f = if is_greater f e then e else f

chosen-Before : (e f : TimerEntry) → Before (chosen e f) e × Before (chosen e f) f
unfolding chosen
chosen-Before e f = elim (Bool-cases (is_greater f e)) [
  | inl h ↦ rw h (greater-Before f e h, Before-refl f)
  | inr h ↦ rw h (Before-refl e, not_greater-Before f e h)
]

chosen-perm :
    (e f : TimerEntry) (rest : List TimerEntry)
    → Perm (chosen e f ∷ aside e f ∷ rest) (e ∷ f ∷ rest)
unfolding chosen aside
chosen-perm e f rest = elim (Bool-cases (is_greater f e)) [
  | inl h ↦ rw h (Perm.swap e f rest)
  | inr h ↦ rw h (Perm.refl (e ∷ f ∷ rest))
]

pub take_greatest-greatest :
    (e : TimerEntry) (es : List TimerEntry) → (take_greatest e es).0 ≡ greatest e es
unfolding take_greatest greatest
take_greatest-greatest e [] = refl
take_greatest-greatest e (f ∷ fs) = take_greatest-greatest (if is_greater f e then f else e) fs

-- The greatest entry is due before every other.
pub greatest-Before :
    (e : TimerEntry) (es : List TimerEntry) → All (Before (greatest e es)) (e ∷ es)
unfolding greatest chosen
greatest-Before e [] = (Before-refl e, tt)
greatest-Before e (f ∷ fs) =
    let top = greatest (chosen e f) fs in
    let rest = greatest-Before (chosen e f) fs in
    let c = chosen-Before e f in
    (
      Before-trans top (chosen e f) e rest.0 c.0,
      (Before-trans top (chosen e f) f rest.0 c.1, rest.1),
    )

pub take_greatest-perm :
    (e : TimerEntry) (es : List TimerEntry)
    → let (top, rest) = take_greatest e es in Perm (top ∷ rest) (e ∷ es)
unfolding take_greatest chosen aside
take_greatest-perm e [] = Perm.refl (e ∷ [])
take_greatest-perm e (f ∷ fs) =
    let (top, rest) = take_greatest (chosen e f) fs in
    Perm.trans (Perm.swap (aside e f) top rest) (
      Perm.trans (Perm.cons (aside e f) (take_greatest-perm (chosen e f) fs))
        (Perm.trans (Perm.swap (chosen e f) (aside e f) fs) (chosen-perm e f fs)))
