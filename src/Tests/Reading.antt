-- ===== src/Tests/Reading.antt =====
-- Examples for the reader.
use rsloop.Common.{ℕ, ◌≡◌, refl, true, false, List, [], ◌∷◌, none, some, arith, inl, ok, Option}
use rsloop.Bytes.{exact_alloc}
use rsloop.ReadBuffer.{unread, prepend, len, replace, ReadBuffer, OwnedReadBuffer}
use rsloop.Reader.State.{Reader, ReadWaiter, exact, pausable}
use rsloop.Reader.Flow.{clear_cancelled_waiter, drop_waiter, maybe_pause_transport}
use rsloop.Reader.Calls.{
  at_most, build_read_future, build_readexactly_future, readuntil, readline, feed_data_internal,
  feed_owned_data_internal, feed_eof_internal, set_buffer, waiter_done,
}
use rsloop.Reader.Conserve.{Valid, Conserves}
use rsloop.Reader.Feed.{
  Feeds, feed_data_internal-Feeds, feed_owned_data_internal-Feeds, feed_eof_internal-Conserves,
}
use rsloop.Reader.Read.{Reads}
use rsloop.Reader.Front.{
  build_read_future-Reads, build_readexactly_future-Reads, readuntil-Reads, readline-Reads,
}
use rsloop.Reader.Exact.{AnswersExactly, build_readexactly_future-AnswersExactly}
use rsloop.Reader.Settled.{Anything}
use rsloop.Reader.Wake.{Ends, feed_eof_internal-wakes}
use rsloop.Tests.Naive.{naive}

abbrev holding : List ℕ → ReadBuffer
holding bytes = record {
  bytes = record { vec = record { items = bytes; capacity = 64 }; pooled = false };
  start = 0;
  baseline_capacity = 64;
  max_retained_capacity = 65536;
}

-- `readexactly(3)` waits and has one byte.
abbrev third_missing : ReadWaiter
third_missing = record {
  future = 0;
  kind = exact 3;
  exact_read = some (record { initialized = 1 ∷ []; expected = 3 });
  until_read = none;
}

abbrev waiting_reader : Reader
waiting_reader = record {
  limit = 64;
  buffer = holding [];
  waiter = some third_missing;
  transport = some pausable;
  paused = false;
  eof = false;
  failure = none;
  next_future = 1;
  cancelled = λ f. false;
  settled = [];
  calls = [];
}

waiting_reader-Valid : Valid waiting_reader
waiting_reader-Valid = record {
  buffer_valid = omega arith;
  shaped = (record { initialized = 1 ∷ []; expected = 3 }, refl, refl);
}

-- Two lines wait in the buffer, the second one unfinished.
abbrev buffered_reader : Reader
buffered_reader = record waiting_reader {
  waiter = none;
  buffer = holding (97 ∷ 10 ∷ 98 ∷ []);
  next_future = 0;
}

buffered_reader-Valid : Valid buffered_reader
buffered_reader-Valid = record { buffer_valid = omega arith; shaped = tt }

feed_data_internal-Feeds_example :
    let (reply, r) = feed_data_internal exact_alloc naive waiting_reader (2 ∷ 3 ∷ 4 ∷ []) in
    (reply ≡ ok tt) × Feeds exact_alloc waiting_reader (2 ∷ 3 ∷ 4 ∷ []) r
feed_data_internal-Feeds_example =
    feed_data_internal-Feeds exact_alloc naive waiting_reader (2 ∷ 3 ∷ 4 ∷ []) waiting_reader-Valid
      (omega arith) refl refl

abbrev received : OwnedReadBuffer
received = record { vec = record { items = 2 ∷ 3 ∷ 4 ∷ []; capacity = 16 }; pooled = true }

feed_owned_data_internal-Feeds_example :
    let (reply, r) = feed_owned_data_internal exact_alloc naive waiting_reader received in
    (reply ≡ ok tt) × Feeds exact_alloc waiting_reader received.vec.items r
feed_owned_data_internal-Feeds_example =
    feed_owned_data_internal-Feeds exact_alloc naive waiting_reader received waiting_reader-Valid
      (omega arith) (omega arith) refl refl

feed_eof_internal-Conserves_example :
    Conserves
      (record waiting_reader { eof = true })
      (feed_eof_internal exact_alloc naive waiting_reader)
feed_eof_internal-Conserves_example =
    feed_eof_internal-Conserves exact_alloc naive waiting_reader waiting_reader-Valid (omega arith)
      refl

build_read_future-Reads_example :
    Reads buffered_reader (build_read_future exact_alloc buffered_reader (at_most 2))
build_read_future-Reads_example =
    build_read_future-Reads exact_alloc buffered_reader (at_most 2) buffered_reader-Valid (inl refl)
      (omega arith)

build_readexactly_future-Reads_example :
    Reads buffered_reader (build_readexactly_future exact_alloc buffered_reader 5)
build_readexactly_future-Reads_example =
    build_readexactly_future-Reads exact_alloc buffered_reader 5 buffered_reader-Valid (inl refl)
      (omega arith)

readuntil-Reads_example :
    Reads buffered_reader
      (readuntil exact_alloc naive buffered_reader ((98 ∷ []) ∷ (10 ∷ 98 ∷ []) ∷ []))
readuntil-Reads_example =
    readuntil-Reads exact_alloc naive buffered_reader ((98 ∷ []) ∷ (10 ∷ 98 ∷ []) ∷ [])
      buffered_reader-Valid (inl refl) (omega arith)

readline-Reads_example : Reads buffered_reader (readline exact_alloc naive buffered_reader)
readline-Reads_example =
    readline-Reads exact_alloc naive buffered_reader buffered_reader-Valid (inl refl) (omega arith)

feed_eof_internal-wakes_example :
    Ends Anything waiting_reader (feed_eof_internal exact_alloc naive waiting_reader)
feed_eof_internal-wakes_example =
    feed_eof_internal-wakes exact_alloc naive waiting_reader waiting_reader-Valid
      (λ e. absurd (cc e))

build_readexactly_future-AnswersExactly_example :
    AnswersExactly 2 (build_readexactly_future exact_alloc buffered_reader 2).0
build_readexactly_future-AnswersExactly_example =
    build_readexactly_future-AnswersExactly exact_alloc buffered_reader 2

abbrev map_unread : Option Reader → Option (List ℕ)
map_unread none = none
map_unread (some r) = some (unread r.buffer)

-- The setter of `_buffer` replaces the unread bytes.
set_buffer_test :
    (map_unread (set_buffer exact_alloc waiting_reader (some (7 ∷ 8 ∷ []))) ≡ some (7 ∷ 8 ∷ []))
    × (map_unread (set_buffer exact_alloc waiting_reader none) ≡ none)
unfolding set_buffer replace unread
set_buffer_test = (refl, refl)

-- The byte that the cancelled `readexactly` has taken is unread again, unless another read waits.
abbrev cancelled_reader : Reader
cancelled_reader = record waiting_reader { cancelled = λ f. true }

waiter_done_test :
    (unread (waiter_done exact_alloc cancelled_reader 0).buffer ≡ 1 ∷ [])
    × (unread (waiter_done exact_alloc cancelled_reader 5).buffer ≡ [])
unfolding waiter_done clear_cancelled_waiter drop_waiter maybe_pause_transport prepend unread len
waiter_done_test = (refl, refl)
