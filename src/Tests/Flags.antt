-- ===== src/Tests/Flags.antt =====
-- Examples for the flags of a state.
use rsloop.Common.{◌≡◌, ◌≢◌, arith, true, false, ◌||◌, List, [], ◌∷◌, some}
use rsloop.Snapshot.{
  TransportFlags, transport_flags, new_snapshot, is_closing_or_lost, is_closing,
  is_writer_registered, release_guard,
}
use rsloop.Snapshot.Published.{Op, locks, writes, releases, run, step, transport-Published}

abbrev opened : TransportFlags
opened = record { closing = false; writable = true; writer_registered = false; lost_called = false }

abbrev closes_it : List (Op TransportFlags)
closes_it = locks ∷ writes (λ s. record s { closing = true }) ∷ releases ∷ []

closed_guard :
    (run transport_flags closes_it (new_snapshot transport_flags opened)).guard ≢ some true
unfolding run step release_guard transport_flags
closed_guard e = ground arith

transport-Published_example :
    let m = run transport_flags closes_it (new_snapshot transport_flags opened) in
    (is_closing_or_lost m.flags ≡ (m.inner.closing || m.inner.lost_called))
    × (is_closing m.flags ≡ m.inner.closing)
    × (is_writer_registered m.flags ≡ m.inner.writer_registered)
transport-Published_example = transport-Published closes_it opened closed_guard
