-- ===== src/Reader/Feed.antt =====
-- Feeding the reader: the bytes that arrive go behind what it holds.
use rsloop.Common.{
  ℕ, ◌+◌, ◌≤◌, ◌≡◌, refl, sym, ap, ◌∙◌, subst, true, false, List, ◌++◌, none, length, drop, arith,
  append_assoc, Bool-cases, inl, inr, ◌==◌, ok, length-drop, if◌then◌else◌,
}
use rsloop.Bytes.{Alloc, usize_max}
use rsloop.ReadBuffer.{ReadBuffer, OwnedReadBuffer, unread, items, extend, extend_owned}
use rsloop.ReadBuffer.Unread.{IsValid, extend_lem, extend_owned_lem}
use rsloop.Separator.{Memchr}
use rsloop.Reader.State.{Reader, held, partial, delivered}
use rsloop.Reader.Flow.{clear_cancelled_waiter}
use rsloop.Reader.Start.{fill_exact_from_incoming}
use rsloop.Reader.Complete.{maybe_complete_waiter}
use rsloop.Reader.Calls.{feed_data_internal, feed_owned_data_internal, feed_eof_internal, feed_rest}
use rsloop.Reader.Conserve.{Valid, stream, Conserves}
use rsloop.Reader.Clear.{
  load, Clears, pause-Conserves, clear_cancelled_waiter-Clears, complete_live-Conserves,
  maybe_complete_waiter-Conserves,
}
use rsloop.Reader.Fill.{Fills, filled_and_left}

module _ (a : Alloc) where
  -- What a feed comes to: `xs` behind all that was there, and the rest as it was.
  pub record Feeds (r : Reader) (xs : List ℕ) (r' : Reader) : Type 0 where
    pub valid : Valid r'
    pub limit_eq : r'.limit ≡ r.limit
    pub eof_eq : r'.eof ≡ r.eof
    pub failure_eq : r'.failure ≡ r.failure
    pub cancelled_eq : r'.cancelled ≡ r.cancelled
    pub bytes : stream r' ≡ stream r ++ xs

  module _ (m : Memchr) where
    -- the steps of a feed behind the fill, whatever buffer takes the bytes that are left
    buffered-Feeds :
        (r s : Reader) (xs : List ℕ) (k : ℕ) (b : ReadBuffer)
        → Conserves r (clear_cancelled_waiter a r)
        → Fills (clear_cancelled_waiter a r) xs k s
        → r.failure ≡ none
        → IsValid b
        → unread b ≡ unread s.buffer ++ drop k xs
        → Feeds r xs (feed_rest a m (record s { buffer = b }))
    unfolding feed_rest held
    buffered-Feeds r s xs k b c f no_failure v e =
        let s' : Reader = record s { buffer = b } in
        let d =
          complete_live-Conserves a m s' (record { buffer_valid = v; shaped = f.valid.shaped })
            f.live (f.failure_eq ∙ c.failure_eq ∙ no_failure) in
        let p = pause-Conserves (maybe_complete_waiter a m s') d.valid in
        record {
          valid = p.valid;
          limit_eq = p.limit_eq ∙ d.limit_eq ∙ f.limit_eq ∙ c.limit_eq;
          eof_eq = p.eof_eq ∙ d.eof_eq ∙ f.eof_eq ∙ c.eof_eq;
          failure_eq = p.failure_eq ∙ d.failure_eq ∙ f.failure_eq ∙ c.failure_eq;
          cancelled_eq = p.cancelled_eq ∙ d.cancelled_eq ∙ f.cancelled_eq ∙ c.cancelled_eq;
          bytes =
              p.bytes
              ∙ d.bytes
              ∙ ap (λ q. delivered s.settled ++ (partial s.waiter ++ q)) e
              ∙ ap (◌++◌ (delivered s.settled))
                  (sym (append_assoc (partial s.waiter) (unread s.buffer) (drop k xs)) ∙ f.bytes)
              ∙ ap (λ q. delivered q ++ (held (clear_cancelled_waiter a r) ++ xs)) f.settled_eq
              ∙ sym (
                  append_assoc (delivered (clear_cancelled_waiter a r).settled)
                    (held (clear_cancelled_waiter a r)) xs)
              ∙ ap (λ q. q ++ xs) c.bytes;
        }

    -- `drop 0` and the buffer of the cleared reader, as the two feeds need them
    left_fits :
        (r s : Reader) (xs : List ℕ) (k : ℕ)
        → Clears r (clear_cancelled_waiter a r)
        → Fills (clear_cancelled_waiter a r) xs k s
        → load r + length xs ≤ usize_max
        → length (items s.buffer) + length (drop k xs) ≤ usize_max
    left_fits r s xs k c f room = rw f.buffer_eq (omega (arith, c.lighter, length-drop k xs))

    -- the feeds before the end of the stream
    feed_open :
        (r : Reader) (xs : List ℕ)
        → r.eof ≡ false
        → let (k, s) = fill_exact_from_incoming a r xs in
          feed_data_internal a m r xs
          ≡ (ok tt, feed_rest a m (record s { buffer = extend a s.buffer (drop k xs) }))
    unfolding feed_data_internal
    feed_open r xs e = simp e refl

    -- the buffer behind a feed that hands its bytes over
    owned_buffer : OwnedReadBuffer → ℕ → Reader → ReadBuffer
    owned_buffer d k s =
        if k == 0 then (extend_owned a s.buffer d).1 else extend a s.buffer (drop k d.vec.items)

    feed_owned_open :
        (r : Reader) (d : OwnedReadBuffer)
        → r.eof ≡ false
        → let (k, s) = fill_exact_from_incoming a r d.vec.items in
          feed_owned_data_internal a m r d
          ≡ (ok tt, feed_rest a m (record s { buffer = owned_buffer d k s }))
    unfolding feed_owned_data_internal owned_buffer
    feed_owned_open r d e = simp e refl

    owned_buffer_lem :
        (d : OwnedReadBuffer) (k : ℕ) (s : Reader)
        → IsValid s.buffer
        → length d.vec.items ≤ d.vec.capacity
        → length (items s.buffer) + length (drop k d.vec.items) ≤ usize_max
        → IsValid (owned_buffer d k s)
          × (unread (owned_buffer d k s) ≡ unread s.buffer ++ drop k d.vec.items)
    unfolding owned_buffer
    owned_buffer_lem d k s v own fits = elim (Bool-cases (k == 0)) [
      | inr e ↦ rw e (extend_lem a s.buffer (drop k d.vec.items) v fits)
      | inl e ↦
          let zero_taken : k ≡ 0 = ground arith in
          rw e (rw zero_taken (extend_owned_lem a s.buffer d v own (rw zero_taken at fits)))
    ]

    -- Before the end of the stream and without a failure, a valid reader accepts bytes that are
    -- fed: they are put behind all those that came before, whether an exact read takes some of
    -- them at once or not, and the reader stays valid. The bytes that its vector keeps and the new
    -- ones must fit a `usize`.
    pub feed_data_internal-Feeds :
        (r : Reader) (xs : List ℕ)
        → Valid r
        → load r + length xs ≤ usize_max
        → r.failure ≡ none
        → r.eof ≡ false
        → let (reply, r') = feed_data_internal a m r xs in (reply ≡ ok tt) × Feeds r xs r'
    unfolding feed_data_internal
    feed_data_internal-Feeds r xs v room no_failure open_end =
        let c = clear_cancelled_waiter-Clears a r v (omega arith) in
        let f = filled_and_left a r xs v (omega arith) in
        let s = (fill_exact_from_incoming a r xs).1 in
        let k = (fill_exact_from_incoming a r xs).0 in
        let x =
          extend_lem a s.buffer (drop k xs) f.valid.buffer_valid (left_fits r s xs k c f room) in
        subst (λ p. (p.0 ≡ ok tt) × Feeds r xs p.1) (sym (feed_open r xs open_end))
          (refl, buffered-Feeds r s xs k _ c.conserves f no_failure x.0 x.1)

    -- Before the end of the stream and without a failure, a valid reader accepts a buffer that is
    -- handed over and holds its own bytes: they are put behind all those that came before, whether
    -- the buffer becomes that of the reader or is copied behind what an exact read takes, and the
    -- reader stays valid. The bytes that its vector keeps and the new ones must fit a `usize`.
    pub feed_owned_data_internal-Feeds :
        (r : Reader) (d : OwnedReadBuffer)
        → Valid r
        → length d.vec.items ≤ d.vec.capacity
        → load r + length d.vec.items ≤ usize_max
        → r.failure ≡ none
        → r.eof ≡ false
        → let (reply, r') = feed_owned_data_internal a m r d in
          (reply ≡ ok tt) × Feeds r d.vec.items r'
    unfolding feed_owned_data_internal
    feed_owned_data_internal-Feeds r d v own room no_failure open_end =
        let xs = d.vec.items in
        let c = clear_cancelled_waiter-Clears a r v (omega arith) in
        let f = filled_and_left a r xs v (omega arith) in
        let s = (fill_exact_from_incoming a r xs).1 in
        let k = (fill_exact_from_incoming a r xs).0 in
        let x = owned_buffer_lem d k s f.valid.buffer_valid own (left_fits r s xs k c f room) in
        subst (λ p. (p.0 ≡ ok tt) × Feeds r xs p.1) (sym (feed_owned_open r d open_end))
          (refl, buffered-Feeds r s xs k _ c.conserves f no_failure x.0 x.1)

    -- The end of the stream conserves the bytes of a valid reader without a failure whose vector
    -- fits a `usize`: those of the settled futures and those still held are together, and in the
    -- same order, what they were before.
    pub feed_eof_internal-Conserves :
        (r : Reader)
        → Valid r
        → load r ≤ usize_max
        → r.failure ≡ none
        → Conserves (record r { eof = true }) (feed_eof_internal a m r)
    unfolding feed_eof_internal
    feed_eof_internal-Conserves r v room f =
        maybe_complete_waiter-Conserves a m (record r { eof = true })
          (record { buffer_valid = v.buffer_valid; shaped = v.shaped }) room f
