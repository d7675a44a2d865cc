-- ===== src/Events/Items.antt =====
-- What a drain is to deliver, and what its steps keep of it.
use rsloop.Common.{
  ℕ, ◌≡◌, refl, sym, ap, ◌∙◌, arith, true, false, List, [], ◌∷◌, ◌++◌, map, Option, none, some,
  append-nil, append_assoc,
}
use rsloop.Events.{
  PendingReadEvent, incoming, eof, connection_lost, pause_writing, resume_writing, ReadEvents,
}
use rsloop.Events.Drain.{
  Delivery, received, eof_received, lost, pauses, resumes, keep_open, Answers, DrainLocals, running,
  returned, Step, flush_pending_data, lose_connection, end_lost,
}

-- What the protocol is to see: a byte, or one of the other events.
pub data Item : Type 0 where
  byte : ℕ → Item
  ended gone paused resumed : Item

abbrev pub event_items : PendingReadEvent → List Item
event_items (incoming bytes) = map byte bytes
event_items eof = ended ∷ []
event_items (connection_lost message) = gone ∷ []
event_items pause_writing = paused ∷ []
event_items resume_writing = resumed ∷ []

abbrev pub queue_items : List PendingReadEvent → List Item
queue_items [] = []
queue_items (e ∷ es) = event_items e ++ queue_items es

abbrev pub call_items : List Delivery → List Item
call_items [] = []
call_items (received bytes ∷ cs) = map byte bytes ++ call_items cs
call_items (eof_received ∷ cs) = ended ∷ call_items cs
call_items (lost ∷ cs) = gone ∷ call_items cs
call_items (pauses ∷ cs) = paused ∷ call_items cs
call_items (resumes ∷ cs) = resumed ∷ call_items cs

abbrev pub pending_items : Option (List ℕ) → List Item
pending_items none = []
pending_items (some bytes) = map byte bytes

-- What the queues hold, and what a drain is still to deliver.
unfoldable pub queued : ReadEvents → List Item
queued r = queue_items r.read_event_drain ++ queue_items r.pending_read_events

unfoldable pub to_deliver : DrainLocals → ReadEvents → List Item
to_deliver d r = pending_items d.pending_data ++ queued r

-- The protocol's calls return and leave the transport open.
pub record IsGood (a : Answers) : Type 0 where
  pub data_returns : a.data_returns ≡ true
  pub data_closes : a.data_closes ≡ false
  pub eof_answer : a.eof_answer ≡ keep_open
  pub writing_returns : a.writing_returns ≡ true

-- The transport is neither detached nor closing nor lost.
pub record IsOpen (r : ReadEvents) : Type 0 where
  pub attached : r.detached ≡ false
  pub not_closing : r.flags.closing ≡ false
  pub not_lost : r.flags.lost_called ≡ false

-- A drain that feeds a stream reader joins nothing.
abbrev pub IsSplit : DrainLocals → Type 0
IsSplit d = d.fast_path ≡ true → d.pending_data ≡ none

-- A step of a drain delivers the front of what there is to deliver, the `total`.
pub data IsOrdered (total : List Item) : Step → Type 0 where
  goes_on :
      (calls : List Delivery) (e : DrainLocals) (u : ReadEvents)
      → call_items calls ++ to_deliver e u ≡ total
      → IsOpen u
      → IsSplit e
      → IsOrdered total (calls, running e, u)
  rests :
      (calls : List Delivery) (u : ReadEvents)
      → call_items calls ++ queued u ≡ total
      → IsOrdered total (calls, returned, u)

pub call_items-append :
    (xs ys : List Delivery) → call_items (xs ++ ys) ≡ call_items xs ++ call_items ys
call_items-append [] ys = refl
call_items-append (received bytes ∷ xs) ys =
    ap (◌++◌ (map byte bytes)) (call_items-append xs ys)
    ∙ sym (append_assoc (map byte bytes) (call_items xs) (call_items ys))
call_items-append (eof_received ∷ xs) ys = ap (◌∷◌ ended) (call_items-append xs ys)
call_items-append (lost ∷ xs) ys = ap (◌∷◌ gone) (call_items-append xs ys)
call_items-append (pauses ∷ xs) ys = ap (◌∷◌ paused) (call_items-append xs ys)
call_items-append (resumes ∷ xs) ys = ap (◌∷◌ resumed) (call_items-append xs ys)

pub queue_items-append :
    (xs ys : List PendingReadEvent) → queue_items (xs ++ ys) ≡ queue_items xs ++ queue_items ys
queue_items-append [] ys = refl
queue_items-append (x ∷ xs) ys =
    ap (◌++◌ (event_items x)) (queue_items-append xs ys)
    ∙ sym (append_assoc (event_items x) (queue_items xs) (queue_items ys))

pub map-append : (xs ys : List ℕ) → map byte (xs ++ ys) ≡ map byte xs ++ map byte ys
map-append [] ys = refl
map-append (x ∷ xs) ys = ap (◌∷◌ (byte x)) (map-append xs ys)

-- The flush of an open transport, by a protocol that returns.
unfoldable pub flush_calls : Option (List ℕ) → List Delivery
flush_calls none = []
flush_calls (some bytes) = received bytes ∷ []

pub flush_open :
    (a : Answers) (p : Option (List ℕ)) (r : ReadEvents)
    → IsGood a
    → IsOpen r
    → flush_pending_data a p r ≡ (true, flush_calls p, r)
unfolding flush_pending_data flush_calls
flush_open a none r g o = refl
flush_open a (some bytes) r g o = ground arith

pub flush_calls_items : (p : Option (List ℕ)) → call_items (flush_calls p) ≡ pending_items p
unfolding flush_calls
flush_calls_items none = refl
flush_calls_items (some bytes) = append-nil (map byte bytes)

pub end_open :
    (calls : List Delivery) (r : ReadEvents)
    → IsOpen r
    → end_lost calls r ≡ (
      calls ++ lost ∷ [],
      returned,
      record r {
        flags = record r.flags { lost_called = true; closing = true };
        read_events_scheduled = false;
      },
    )
unfolding end_lost lose_connection
end_open calls r o = ground arith
