-- ===== src/Reader/State.antt =====
-- What the reader keeps, and what Python sees of it: futures, awaitables, exceptions and the calls
-- on the transport. A future is its number in the order of creation.
use rsloop.Common.{
  ℕ, ◌-◌, ◌^◌, Bool, true, false, List, [], ◌∷◌, ◌++◌, Option, none, some, length, if◌then◌else◌,
  min,
}
use rsloop.Bytes.{Alloc}
use rsloop.ReadBuffer.{ReadBuffer, new, unread}
use rsloop.Separator.{UntilReadState}

pub data ReadWaitKind : Type 0 where
  any exact : ℕ → ReadWaitKind
  all until : ReadWaitKind

-- `ExactReadAccumulator`: of the `expected` bytes of its value the first `filled` are initialized,
-- and only these are kept here.
pub record ExactReadAccumulator : Type 0 where
  pub initialized : List ℕ
  pub expected : ℕ

abbrev pub filled : ExactReadAccumulator → ℕ
filled e = length e.initialized

pub record ReadWaiter : Type 0 where
  pub future : ℕ
  pub kind : ReadWaitKind
  pub exact_read : Option ExactReadAccumulator
  pub until_read : Option UntilReadState

-- The two messages of an overrun.
pub data Overrun : Type 0 where
  separator_found separator_not_found : Overrun

-- What an awaitable raises. `raised e` is the exception object `e` that the transport set. The last
-- field of `line_overrun` is not part of the Python object: it records the bytes that `readline`
-- drops with the oversized line.
pub data Exception : Type 0 where
  raised : ℕ → Exception
  incomplete_read : List ℕ → Option ℕ → Exception
  limit_overrun : Overrun → ℕ → Exception
  line_overrun : Overrun → List ℕ → Exception
  no_separators empty_separator : Exception

-- What an awaitable comes to.
pub data Outcome : Type 0 where
  value : List ℕ → Outcome
  exception : Exception → Outcome

-- What a read returns: an awaitable that is ready, or the future of a waiter.
pub data Awaitable : Type 0 where
  ready : Outcome → Awaitable
  waiting : ℕ → Awaitable

-- What a call of the reader raises at once.
pub data CallError : Type 0 where
  already_waiting fed_after_eof read_size_too_large : CallError

-- Whether a transport has `pause_reading`, or answers `NotImplementedError`.
pub data Transport : Type 0 where
  pausable unpausable : Transport

pub data TransportCall : Type 0 where
  pause_reading resume_reading : TransportCall

-- `PyFastStreamReader`. The last four fields are Python's: the number of the next future, the
-- futures that were cancelled, those that the reader settled, oldest first, and the calls on the
-- transport.
pub record Reader : Type 0 where
  pub limit : ℕ
  pub buffer : ReadBuffer
  pub waiter : Option ReadWaiter
  pub transport : Option Transport
  pub paused : Bool
  pub eof : Bool
  pub failure : Option ℕ
  pub next_future : ℕ
  pub cancelled : ℕ → Bool
  pub settled : List (ℕ × Outcome)
  pub calls : List TransportCall

-- `isize::MAX`, the largest `Py_ssize_t`
abbrev pub isize_max : ℕ
isize_max = 2 ^ 63 - 1

-- `new_with_loop` at a limit that is not 0
unfoldable pub new_with_loop : Alloc → ℕ → Reader
new_with_loop a limit = record {
  limit = limit;
  buffer = new a (min limit 4096);
  waiter = none;
  transport = none;
  paused = false;
  eof = false;
  failure = none;
  next_future = 0;
  cancelled = λ f. false;
  settled = [];
  calls = [];
}

abbrev pub is_some {ℓ} : {A : Type ℓ} → Option A → Bool
is_some none = false
is_some (some a) = true

-- A future is settled unless its awaiter cancelled it: the two
-- `set_future_…_or_ignore_cancelled`.
abbrev pub settle : Reader → ℕ → Outcome → Reader
settle r f o = if r.cancelled f then r else record r { settled = r.settled ++ ((f, o) ∷ []) }

-- The bytes that an exact read has taken out of the buffer.
abbrev pub partial : Option ReadWaiter → List ℕ
partial none = []
partial (some w) = elim w.exact_read [ none ↦ [] | some e ↦ e.initialized ]

-- The bytes that were fed and that no read has returned, oldest first.
unfoldable pub held : Reader → List ℕ
held r = partial r.waiter ++ unread r.buffer

-- The bytes that an outcome hands to the program, or drops with an oversized line.
abbrev pub bytes_of : Outcome → List ℕ
bytes_of (value bs) = bs
bytes_of (exception (raised e)) = []
bytes_of (exception (incomplete_read bs expected)) = bs
bytes_of (exception (limit_overrun o consumed)) = []
bytes_of (exception (line_overrun o dropped)) = dropped
bytes_of (exception no_separators) = []
bytes_of (exception empty_separator) = []

abbrev pub delivered : List (ℕ × Outcome) → List ℕ
delivered [] = []
delivered ((f, o) ∷ rest) = bytes_of o ++ delivered rest
