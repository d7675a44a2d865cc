-- ===== src/Snapshot.antt =====
-- src/state_snapshot.rs, a state behind a mutex with a byte of flags that is read without it, and
-- the flags of a transport and of a loop. The state is a type `T`, and `snapshot_flags` its trait.
-- An atomic access is one step; the poisoning of the mutex is not modelled.
pub mod Published
use rsloop.Common.{
  ℕ, ◌+◌, ◌*◌, ◌/◌, ◌%◌, Bool, true, false, not, ◌||◌, Option, none, some, ◌==◌, if◌then◌else◌,
  List, [], ◌∷◌,
}

-- `SnapshotMutex` with the guard that is out, if one is: whether it is dirty
pub record SnapshotMutex (T : Type 0) : Type 0 where
  pub inner : T
  pub flags : ℕ
  pub guard : Option Bool

module _ {T : Type 0} (snapshot_flags : T → ℕ) where
  -- `SnapshotMutex::new`
  abbrev pub new_snapshot : T → SnapshotMutex T
  new_snapshot value = record { inner = value; flags = snapshot_flags value; guard = none }

  -- `SnapshotMutex::lock` and `wrap`: another thread waits while a guard is out
  abbrev pub lock : SnapshotMutex T → SnapshotMutex T
  lock m = elim m.guard [ none ↦ record m { guard = some false } | some dirty ↦ m ]

  -- `deref_mut`, and what is written through it
  abbrev pub write_guarded : (T → T) → SnapshotMutex T → SnapshotMutex T
  write_guarded change m = elim m.guard [
    | none ↦ m
    | some dirty ↦ record m { inner = change m.inner; guard = some true }
  ]

  -- the store of `publish`, which is left out where it would change nothing
  abbrev pub store_flags : ℕ → SnapshotMutex T → SnapshotMutex T
  store_flags flags m = if not (m.flags == flags) then record m { flags = flags } else m

  -- `SnapshotGuard::publish`
  abbrev pub publish : SnapshotMutex T → SnapshotMutex T
  publish m = elim m.guard [
    | none ↦ m
    | some dirty ↦
        if dirty then record (store_flags (snapshot_flags m.inner) m) { guard = some false } else m
  ]

  -- the `Drop` of the guard, and `wait_timeout` up to its wait, at the end of which `lock` makes a
  -- guard again
  unfoldable pub release_guard : SnapshotMutex T → SnapshotMutex T
  release_guard m = record (publish m) { guard = none }

-- bit `2 ^ k` of a byte
abbrev pub is_set : ℕ → ℕ → Bool
is_set bit flags = flags / bit % 2 == 1

abbrev pub as_bit : Bool → ℕ → ℕ
as_bit b bit = if b then bit else 0

-- the flags of `StreamTransportState`, and what they are read for
pub record TransportFlags : Type 0 where
  pub closing : Bool
  pub writable : Bool
  pub writer_registered : Bool
  pub lost_called : Bool

unfoldable pub transport_flags : TransportFlags → ℕ
transport_flags s =
    as_bit s.closing 1 + as_bit s.writable 2 + as_bit s.writer_registered 4 + as_bit s.lost_called 8

-- `flags() & 9 != 0`, `flags() & 1 != 0`, `flags() & 4 != 0`
unfoldable pub is_closing_or_lost : ℕ → Bool
is_closing_or_lost flags = is_set 1 flags || is_set 8 flags

unfoldable pub is_closing : ℕ → Bool
is_closing flags = is_set 1 flags

unfoldable pub is_writer_registered : ℕ → Bool
is_writer_registered flags = is_set 4 flags

-- the flags of `LoopState`
pub record LoopFlags : Type 0 where
  pub running : Bool
  pub stopping : Bool
  pub closed : Bool

unfoldable pub loop_flags : LoopFlags → ℕ
loop_flags s = as_bit s.running 1 + as_bit s.stopping 2 + as_bit s.closed 4

unfoldable pub is_running : ℕ → Bool
is_running flags = is_set 1 flags

unfoldable pub is_stopping : ℕ → Bool
is_stopping flags = is_set 2 flags

unfoldable pub is_closed : ℕ → Bool
is_closed flags = is_set 4 flags
