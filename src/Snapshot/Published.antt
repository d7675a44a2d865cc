-- ===== src/Snapshot/Published.antt =====
-- What is read from the flags is what the state says.
use rsloop.Common.{
  ℕ, ◌≡◌, ◌≢◌, refl, ap, ◌∙◌, arith, true, ◌||◌, some, List, [], ◌∷◌, inl, inr, ◌⊎◌,
}
use rsloop.Snapshot.{
  SnapshotMutex, new_snapshot, lock, write_guarded, release_guard, store_flags, TransportFlags,
  transport_flags, is_closing_or_lost, is_closing, is_writer_registered, LoopFlags, loop_flags,
  is_running, is_stopping, is_closed,
}

pub data Op (T : Type 0) : Type 0 where
  locks : Op T
  writes : (T → T) → Op T
  releases : Op T

module _ {T : Type 0} (f : T → ℕ) where
  unfoldable pub step : Op T → SnapshotMutex T → SnapshotMutex T
  step locks m = lock f m
  step (writes change) m = write_guarded f change m
  step releases m = release_guard f m

  unfoldable pub run : List (Op T) → SnapshotMutex T → SnapshotMutex T
  run [] m = m
  run (o ∷ os) m = run os (step o m)

  -- The flags are those of the state, unless a guard is out that has been written through.
  abbrev pub IsPublished : SnapshotMutex T → Type 0
  IsPublished m = (m.flags ≡ f m.inner) ⊎ (m.guard ≡ some true)

  store_lem : (m : SnapshotMutex T) → (store_flags f (f m.inner) m).flags ≡ f m.inner
  store_lem m = ground arith

  step-IsPublished : (o : Op T) (m : SnapshotMutex T) → IsPublished m → IsPublished (step o m)
  unfolding step release_guard
  step-IsPublished locks m v = ground (arith, v)
  step-IsPublished (writes change) m v = ground (arith, v)
  step-IsPublished releases m v = ground (arith, v)

  run-IsPublished :
      (os : List (Op T)) (m : SnapshotMutex T) → IsPublished m → IsPublished (run os m)
  unfolding run
  run-IsPublished [] m v = v
  run-IsPublished (o ∷ os) m v = run-IsPublished os (step o m) (step-IsPublished o m v)

transport_bits :
    (s : TransportFlags)
    → (is_closing_or_lost (transport_flags s) ≡ (s.closing || s.lost_called))
      × (is_closing (transport_flags s) ≡ s.closing)
      × (is_writer_registered (transport_flags s) ≡ s.writer_registered)
unfolding transport_flags is_closing_or_lost is_closing is_writer_registered
transport_bits s = ground arith

loop_bits :
    (s : LoopFlags)
    → (is_running (loop_flags s) ≡ s.running)
      × (is_stopping (loop_flags s) ≡ s.stopping)
      × (is_closed (loop_flags s) ≡ s.closed)
unfolding loop_flags is_running is_stopping is_closed
loop_bits s = ground arith

unwritten :
    {T : Type 0} (f : T → ℕ) (m : SnapshotMutex T)
    → IsPublished f m
    → m.guard ≢ some true
    → m.flags ≡ f m.inner
unwritten f m (inl e) w = e
unwritten f m (inr g) w = absurd (w g)

-- However a transport's state is locked, written and released, and waited on, whenever no guard is
-- out that has been written through: what is read from the flags without the mutex is what the
-- state says: whether the transport is closing or lost, is closing, and has its writer registered.
pub transport-Published :
    (os : List (Op TransportFlags)) (s : TransportFlags)
    → (run transport_flags os (new_snapshot transport_flags s)).guard ≢ some true
    → let m = run transport_flags os (new_snapshot transport_flags s) in
      (is_closing_or_lost m.flags ≡ (m.inner.closing || m.inner.lost_called))
      × (is_closing m.flags ≡ m.inner.closing)
      × (is_writer_registered m.flags ≡ m.inner.writer_registered)
transport-Published os s w =
    let m = run transport_flags os (new_snapshot transport_flags s) in
    let p : m.flags ≡ transport_flags m.inner =
      unwritten transport_flags m
        (run-IsPublished transport_flags os (new_snapshot transport_flags s) (inl refl)) w in
    let b = transport_bits m.inner in
    (ap is_closing_or_lost p ∙ b.0, ap is_closing p ∙ b.1, ap is_writer_registered p ∙ b.2)

-- However the state of a loop is locked, written and released, whenever no guard is out that has been
-- written through: what is read from its flags without the mutex is what the state says.
pub loop-Published :
    (os : List (Op LoopFlags)) (s : LoopFlags)
    → (run loop_flags os (new_snapshot loop_flags s)).guard ≢ some true
    → let m = run loop_flags os (new_snapshot loop_flags s) in
      (is_running m.flags ≡ m.inner.running)
      × (is_stopping m.flags ≡ m.inner.stopping)
      × (is_closed m.flags ≡ m.inner.closed)
loop-Published os s w =
    let m = run loop_flags os (new_snapshot loop_flags s) in
    let p : m.flags ≡ loop_flags m.inner =
      unwritten loop_flags m (run-IsPublished loop_flags os (new_snapshot loop_flags s) (inl refl))
        w in
    let b = loop_bits m.inner in
    (ap is_running p ∙ b.0, ap is_stopping p ∙ b.1, ap is_closed p ∙ b.2)
