-- ===== src/Timers/Order.antt =====
-- The order of the timers.
use rsloop.Common.{◌<◌, ◌≤◌, ◌≡◌, ◌⊎◌, arith, true, false}
use rsloop.Timers.{TimerEntry, cmp, compare_timer_parts, is_greater}

-- `a` is due no later than `b`, and of two with one deadline the one with the smaller number first.
unfoldable pub Before : TimerEntry → TimerEntry → Type 0
Before a b = (a.when < b.when) ⊎ ((a.when ≡ b.when) × (a.seq ≤ b.seq))

pub Before-refl : (a : TimerEntry) → Before a a
unfolding Before
Before-refl a = ground arith

pub Before-trans : (a b c : TimerEntry) → Before a b → Before b c → Before a c
unfolding Before
Before-trans a b c h k = ground arith

pub greater-Before : (a b : TimerEntry) → is_greater a b ≡ true → Before a b
unfolding Before is_greater cmp compare_timer_parts
greater-Before a b h = ground arith

pub not_greater-Before : (a b : TimerEntry) → is_greater a b ≡ false → Before b a
unfolding Before is_greater cmp compare_timer_parts
not_greater-Before a b h = ground arith
