-- ===== src/Timers.antt =====
-- src/engine/timer_entry.rs, the queue of the timers of a running loop, and `TimerCallback` of
-- src/engine/callbacks.rs. An instant and a sequence number are numbers. The heap of the standard
-- library is the list of what it holds, which gives up a greatest entry; a callback's lock makes
-- each of its operations one step. The payload of a callback is a flag: whether it is there.
pub mod Order
pub mod Heap
pub mod Earliest
pub mod Tombstones
pub mod Permutations
pub mod Collect
pub mod Local
pub mod Kept
pub mod Fire
pub mod Cancel
pub mod History
pub mod Balance
pub mod Runs
use Prim.Native.Nat.{compare, Ordering}
use rsloop.Common.{
  ℕ, ◌+◌, ◌%◌, Bool, true, false, not, ◌&&◌, ◌||◌, List, [], ◌∷◌, ◌++◌, Option, none, some,
  if◌then◌else◌, length, is_nil,
}

-- `TimerCallback` with its `TimerState`; `legacy` holds the `cancelled` of a shared callback.
pub record TimerCallback : Type 0 where
  pub id : ℕ
  pub ready : Bool
  pub queued : Bool
  pub cancelled : Bool
  pub legacy : Option Bool

-- `TimerCallback::new`, `from_shared`
abbrev pub new_callback : ℕ → TimerCallback
new_callback id = record { id = id; ready = true; queued = true; cancelled = false; legacy = none }

abbrev pub from_shared : ℕ → Bool → TimerCallback
from_shared id shared_cancelled = record {
  id = id;
  ready = false;
  queued = true;
  cancelled = false;
  legacy = some shared_cancelled;
}

-- `self.legacy.as_ref().is_some_and(|ready| ready.cancelled())`
abbrev pub shared_cancelled : Option Bool → Bool
shared_cancelled none = false
shared_cancelled (some c) = c

-- `TimerCallback::cancelled`
unfoldable pub is_cancelled : TimerCallback → Bool
is_cancelled c = c.cancelled || shared_cancelled c.legacy

-- `AtomicUsize::fetch_add(1)` and `fetch_sub(1)`, which wrap
unfoldable pub add_one : ℕ → ℕ
add_one n = (n + 1) % 18446744073709551616

unfoldable pub sub_one : ℕ → ℕ
sub_one n = (n + 18446744073709551615) % 18446744073709551616

-- `ready.cancel()` on the shared callback
abbrev pub cancel_shared : Option Bool → Option Bool
cancel_shared none = none
cancel_shared (some c) = some true

-- `TimerCallback::cancel`, with the counter of the loop
unfoldable pub cancel : TimerCallback → ℕ → TimerCallback × ℕ
cancel c n = if c.cancelled then (c, n) else (
  record c { ready = false; cancelled = true; legacy = cancel_shared c.legacy },
  if c.queued then add_one n else n,
)

-- `TimerCallback::dequeue`
unfoldable pub dequeue : TimerCallback → ℕ → TimerCallback × ℕ
dequeue c n = (record c { queued = false }, if c.queued && c.cancelled then sub_one n else n)

-- `TimerCallback::take_ready`: whether there was a payload to take
unfoldable pub take_ready : TimerCallback → Bool × TimerCallback
take_ready c = (c.ready, record c { ready = false })

-- the `Drop` of a callback
unfoldable pub drop_callback : TimerCallback → ℕ → ℕ
drop_callback c n = if c.queued && c.cancelled then sub_one n else n

pub record TimerEntry : Type 0 where
  pub when : ℕ
  pub seq : ℕ
  pub callback : TimerCallback

-- `left.then_with(|| right)`
abbrev pub then_with : Ordering → Ordering → Ordering
then_with Ordering.eq o = o
then_with Ordering.lt o = Ordering.lt
then_with Ordering.gt o = Ordering.gt

-- `compare_timer_parts`
unfoldable pub compare_timer_parts : ℕ → ℕ → ℕ → ℕ → Ordering
compare_timer_parts left_when left_seq right_when right_seq =
    then_with (compare right_when left_when) (compare right_seq left_seq)

-- `Ord::cmp` of the entries
unfoldable pub cmp : TimerEntry → TimerEntry → Ordering
unfolding compare_timer_parts
cmp a b = compare_timer_parts a.when a.seq b.when b.seq

-- `a > b`
unfoldable pub is_greater : TimerEntry → TimerEntry → Bool
unfolding cmp
is_greater a b = elim (cmp a b) [ Ordering.gt ↦ true | _ ↦ false ]

-- `BinaryHeap::peek`: a greatest entry
unfoldable pub greatest : TimerEntry → List TimerEntry → TimerEntry
greatest e [] = e
greatest e (f ∷ fs) = greatest (if is_greater f e then f else e) fs

unfoldable pub heap_peek : List TimerEntry → Option TimerEntry
heap_peek [] = none
heap_peek (e ∷ es) = some (greatest e es)

-- `BinaryHeap::pop`: the greatest entry, and the others
unfoldable pub take_greatest : TimerEntry → List TimerEntry → TimerEntry × List TimerEntry
take_greatest e [] = (e, [])
take_greatest e (f ∷ fs) =
    let (top, rest) = take_greatest (if is_greater f e then f else e) fs in
    (top, (if is_greater f e then e else f) ∷ rest)

unfoldable pub heap_pop : List TimerEntry → Option (TimerEntry × List TimerEntry)
heap_pop [] = none
heap_pop (e ∷ es) = some (take_greatest e es)

pub record TimerQueue : Type 0 where
  pub ordered : List TimerEntry
  pub unordered : List TimerEntry

-- `TimerQueue::new`
abbrev pub new_timer_queue : TimerQueue
new_timer_queue = record { ordered = []; unordered = [] }

unfoldable pub is_empty : TimerQueue → Bool
is_empty q = is_nil q.ordered && is_nil q.unordered

unfoldable pub len : TimerQueue → ℕ
len q = length q.ordered + length q.unordered

-- the closure of `retain` along a container, with the ready items and the counter of the loop
unfoldable pub retain_live :
    List TimerEntry → List TimerCallback → ℕ → List TimerEntry × List TimerCallback × ℕ
retain_live [] ready n = ([], ready, n)
retain_live (e ∷ es) ready n =
    let (callback, m) = dequeue e.callback n in
    let (kept, live_ready, live_n) = retain_live es ready n in
    let gone = retain_live es (ready ++ callback ∷ []) m in
    if not (is_cancelled e.callback) then (e ∷ kept, live_ready, live_n) else gone

-- `TimerQueue::compact_cancelled`
unfoldable pub compact_cancelled :
    TimerQueue → List TimerCallback → ℕ → TimerQueue × List TimerCallback × ℕ
compact_cancelled q ready n =
    let (ordered, ready', n') = retain_live q.ordered ready n in
    let (unordered, ready'', n'') = retain_live q.unordered ready' n' in
    (record { ordered = ordered; unordered = unordered }, ready'', n'')

-- `self.ordered.back().is_none_or(|last| entry <= *last)`
unfoldable pub fits_behind : List TimerEntry → TimerEntry → Bool
fits_behind [] entry = true
fits_behind (last ∷ []) entry = not (is_greater entry last)
fits_behind (e ∷ f ∷ es) entry = fits_behind (f ∷ es) entry

-- `TimerQueue::push`
unfoldable pub push : TimerQueue → TimerEntry → Bool → TimerQueue
push q entry immediate =
    if immediate && fits_behind q.ordered entry
    then record q { ordered = q.ordered ++ entry ∷ [] }
    else record q { unordered = entry ∷ q.unordered }

-- `TimerQueue::peek`
unfoldable pub peek : TimerQueue → Option TimerEntry
peek q = elim q.ordered [
  | [] ↦ heap_peek q.unordered
  | front ∷ _ ↦ elim (heap_peek q.unordered) [
    | none ↦ some front
    | some top ↦ if is_greater top front then some top else some front
  ]
]

-- what is left when the heap gives up its greatest entry
abbrev pub from_heap :
    TimerQueue → Option (TimerEntry × List TimerEntry) → Option (TimerEntry × TimerQueue)
from_heap q none = none
from_heap q (some (top, rest)) = some (top, record q { unordered = rest })

-- `TimerQueue::pop`
unfoldable pub pop : TimerQueue → Option (TimerEntry × TimerQueue)
pop q = elim q.ordered [
  | [] ↦ from_heap q (heap_pop q.unordered)
  | front ∷ behind ↦ elim (heap_peek q.unordered) [
    | none ↦ some (front, record q { ordered = behind })
    | some top ↦
        if is_greater top front
        then from_heap q (heap_pop q.unordered)
        else some (front, record q { ordered = behind })
  ]
]

-- `TimerQueue::append_heap`, after which the other heap is empty
unfoldable pub append_heap : TimerQueue → List TimerEntry → TimerQueue
append_heap q other = record q { unordered = q.unordered ++ other }

-- `TimerQueue::drain_into`: the other heap, after which the queue is empty
unfoldable pub drain_into : TimerQueue → List TimerEntry → List TimerEntry
drain_into q other = (other ++ q.unordered) ++ q.ordered
