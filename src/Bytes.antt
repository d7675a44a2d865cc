-- ===== src/Bytes.antt =====
-- `Vec<u8>` as far as the buffers of src/transport/stream use it: its bytes and its capacity. The
-- standard library leaves the capacity that an allocation gets open (it is at least what was asked
-- for), so that choice is the parameter `room`.
use rsloop.Common.{
  ℕ, ◌+◌, ◌-◌, ◌^◌, ◌≤◌, List, [], ◌++◌, length, length-append, leb, arith, min, if◌then◌else◌,
}

-- `room capacity needed` is the capacity of an allocation that must hold `needed` bytes, made for
-- a vector of capacity `capacity`.
pub record Alloc : Type 0 where
  pub room : ℕ → ℕ → ℕ
  pub room_enough : (capacity needed : ℕ) → needed ≤ room capacity needed

-- An allocator that gives what is asked for.
abbrev pub exact_alloc : Alloc
exact_alloc = record { room = λ c n. n; room_enough = λ c n. omega arith }

pub record ByteVec : Type 0 where
  pub items : List ℕ
  pub capacity : ℕ

-- `usize::MAX` on the 64-bit targets, and `usize::saturating_add`.
abbrev pub usize_max : ℕ
usize_max = 2 ^ 64 - 1

abbrev pub saturating_add : ℕ → ℕ → ℕ
saturating_add a b = min (a + b) usize_max

-- `Vec::clear` and `Vec::truncate` after `copy_within` keep the allocation.
abbrev pub clear : ByteVec → ByteVec
clear v = record v { items = [] }

module _ (a : Alloc) where
  -- `Vec::with_capacity`
  abbrev pub with_capacity : ℕ → ByteVec
  with_capacity n = record { items = []; capacity = a.room 0 n }

  -- `Vec::reserve`
  abbrev pub reserve : ByteVec → ℕ → ByteVec
  reserve v additional =
      if leb (length v.items + additional) v.capacity
      then v
      else record v { capacity = a.room v.capacity (length v.items + additional) }

  -- `Vec::extend_from_slice`
  abbrev pub extend_from_slice : ByteVec → List ℕ → ByteVec
  extend_from_slice v xs = record {
    items = v.items ++ xs;
    capacity = (reserve v (length xs)).capacity;
  }

  -- `length` within `capacity` is kept by an append.
  pub extend_from_slice-within :
      (v : ByteVec) (xs : List ℕ)
      → length v.items ≤ v.capacity
      → length (extend_from_slice v xs).items ≤ (extend_from_slice v xs).capacity
  extend_from_slice-within v xs h =
      ground
        (arith, length-append v.items xs, a.room_enough v.capacity (length v.items + length xs))
