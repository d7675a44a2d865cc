-- ===== src/WriteBuffer/Limits.antt =====
-- asyncio's optional write-buffer limits.
use rsloop.Common.{
  ℕ, ◌*◌, ◌/◌, ◌≤◌, ◌<◌, ◌≡◌, refl, ◌⊎◌, inl, inr, Option, none, some, leb, arith, if◌then◌else◌,
  Result, ok, err,
}
use native.Mathlib.Decide.{dec_le}
use rsloop.Bytes.{usize_max}
use rsloop.WriteBuffer.{
  WriteBufferState, WriteBufferSignal, default_write_buffer_high_water,
  reconcile_write_buffer_limits,
}

-- `usize::checked_mul`
abbrev checked_mul : ℕ → ℕ → Option ℕ
checked_mul a b = if leb (a * b) usize_max then some (a * b) else none

-- the high mark that `normalize_write_buffer_limits` settles on
abbrev derived_high : Option ℕ → Option ℕ → Option ℕ
derived_high (some high) low = some high
derived_high none (some low) = checked_mul low 4
derived_high none none = some default_write_buffer_high_water

-- `Option::unwrap_or`
abbrev pub unwrap_or : Option ℕ → ℕ → ℕ
unwrap_or none d = d
unwrap_or (some x) d = x

-- `(high >= low).then_some((low, high))`
abbrev in_order : ℕ → ℕ → Option (ℕ × ℕ)
in_order low high = if leb low high then some (low, high) else none

-- `normalize_write_buffer_limits`
unfoldable pub normalize_write_buffer_limits : Option ℕ → Option ℕ → Option (ℕ × ℕ)
normalize_write_buffer_limits high low = elim (derived_high high low) [
  | none ↦ none
  | some h ↦ in_order (unwrap_or low (h / 4)) h
]

-- `set_write_buffer_limits`: the error is asyncio's `ValueError`.
unfoldable pub set_write_buffer_limits :
    WriteBufferState → Option ℕ → Option ℕ → Result WriteBufferSignal (Unit {0}) × WriteBufferState
set_write_buffer_limits s high low = elim (normalize_write_buffer_limits high low) [
  | none ↦ (err tt, s)
  | some (l, h) ↦ let (signal, t) = reconcile_write_buffer_limits s l h in (ok signal, t)
]

-- What asyncio asks of the limits: a mark that is given is kept, a high mark that is not is four
-- times the low one or 64 KiB, and a low mark that is not is a quarter of the high one.
abbrev pub Resolves : Option ℕ → Option ℕ → ℕ → ℕ → Type 0
Resolves (some high) (some low) l h = (h ≡ high) × (l ≡ low)
Resolves (some high) none l h = (h ≡ high) × (l ≡ high / 4)
Resolves none (some low) l h = (h ≡ low * 4) × (l ≡ low)
Resolves none none l h = (h ≡ 65536) × (l ≡ 16384)

-- Limits are refused where no marks resolve the request in order and within a `usize`.
abbrev pub IsRefusal : Option ℕ → Option ℕ → Type 0
IsRefusal (some high) (some low) = high < low
IsRefusal (some high) none = ⊥
IsRefusal none (some low) = usize_max < low * 4
IsRefusal none none = ⊥

-- The limits resolve to marks in order that fit a `usize` (given that the inputs do), as asyncio
-- resolves them; they are refused exactly where the given marks are out of order or the derived
-- high mark overflows.
pub normalize_write_buffer_limits_cases :
    (high low : Option ℕ)
    → unwrap_or high 0 ≤ usize_max
    → ((l : ℕ) × (h : ℕ) × (normalize_write_buffer_limits high low ≡ some (l, h))
        × (l ≤ h)
        × (h ≤ usize_max)
        × Resolves high low l h)
      ⊎ ((normalize_write_buffer_limits high low ≡ none) × IsRefusal high low)
unfolding normalize_write_buffer_limits
normalize_write_buffer_limits_cases (some high) (some low) p = elim (dec_le low high) [
  | yes q ↦ inl (low, high, ground arith, q, p, (refl, refl))
  | no q ↦ inr (ground arith, omega arith)
]
normalize_write_buffer_limits_cases (some high) none p =
    inl (high / 4, high, ground arith, omega arith, p, (refl, refl))
normalize_write_buffer_limits_cases none (some low) p = elim (dec_le (low * 4) usize_max) [
  | yes q ↦ inl (low, low * 4, ground arith, omega arith, q, (refl, refl))
  | no q ↦ inr (ground arith, omega arith)
]
normalize_write_buffer_limits_cases none none p =
    inl (16384, 65536, refl, omega arith, omega arith, (refl, refl))

-- Limits that are accepted are in order.
pub normalize_write_buffer_limits-le :
    (high low : Option ℕ) (l h : ℕ) → normalize_write_buffer_limits high low ≡ some (l, h) → l ≤ h
unfolding normalize_write_buffer_limits
normalize_write_buffer_limits-le (some high) (some low) l h e = ground arith
normalize_write_buffer_limits-le (some high) none l h e = ground arith
normalize_write_buffer_limits-le none (some low) l h e = ground arith
normalize_write_buffer_limits-le none none l h e = ground arith
