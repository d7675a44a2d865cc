-- ===== src/WritePath/Wire.antt =====
-- The part of a transport on which the order of its bytes depends, and what the bookkeeping leaves of
-- it.
pub use rsloop.Common.{if_elim}
use rsloop.Common.{
  is_nil, All-append, ℕ, ◌≡◌, refl, ap, ◌∙◌, Bool, true, false, List, [], ◌∷◌, ◌++◌, Option, none,
  some, map, All, if◌then◌else◌,
}
use rsloop.Bytes.{Alloc}
use rsloop.Staging.{OwnedWriteBuffer, remaining}
use rsloop.WriteBuffer.{
  WriteBufferSignal, WriteBufferState, drain_write_buffer, clear_write_buffer_state, pause, resume,
}
use rsloop.WriteBuffer
use rsloop.WriterQueue.{payload, WriterCommand, QueueState, push_back}
use rsloop.WriterQueue.Order.{
  all_items-append, Item, byte, control, items_of, all_items, Sendable, push_back-Places,
}
use rsloop.WritePath.{
  StreamTransport, is_present, notify_pause_writing, notify_resume_writing,
  record_write_buffer_drained, clear_write_buffer, enqueue_event, is_resume,
}

pub record Wire : Type 0 where
  pub closing : Bool
  pub registered : Bool
  pub present : Bool
  pub scheduled : Bool
  pub pending : Option OwnedWriteBuffer
  pub queue : QueueState
  pub out : List ℕ

abbrev pub wire : StreamTransport → Wire
wire t = record {
  closing = t.closing;
  registered = t.writer_registered;
  present = is_present t.direct_writer;
  scheduled = t.direct_write_scheduled;
  pending = t.pending_direct_write;
  queue = t.queue;
  out = t.out;
}

pub if_true {ℓ} : {A : Type ℓ} (b : Bool) (x y : A) → b ≡ true → (if b then x else y) ≡ x
if_true b x y e = rw e refl

pub if_false {ℓ} : {A : Type ℓ} (b : Bool) (x y : A) → b ≡ false → (if b then x else y) ≡ y
if_false b x y e = rw e refl

pub is_nil-nil : (xs : List ℕ) → is_nil xs ≡ true → xs ≡ []
is_nil-nil [] e = refl
is_nil-nil (x ∷ xs) e = absurd (cc e)

pub wire-notify_pause : (b : Bool) (t : StreamTransport) → wire (notify_pause_writing b t) ≡ wire t
unfolding notify_pause_writing enqueue_event
wire-notify_pause true t = refl
wire-notify_pause false t = refl

pub wire-notify_resume :
    (b : Bool) (t : StreamTransport) → wire (notify_resume_writing b t) ≡ wire t
unfolding notify_resume_writing enqueue_event
wire-notify_resume true t = refl
wire-notify_resume false t = refl

resumed :
    (b : Bool) (s : WriteBufferSignal) (t : StreamTransport)
    → wire (if is_resume s then notify_resume_writing b t else t) ≡ wire t
resumed b WriteBuffer.none t = refl
resumed b WriteBuffer.pause t = refl
resumed b WriteBuffer.resume t = wire-notify_resume b t

either :
    (c : Bool) (s t u : StreamTransport)
    → wire s ≡ wire u
    → wire t ≡ wire u
    → wire (if c then s else t) ≡ wire u
either true s t u p q = p
either false s t u p q = q

pub wire-drained :
    (b : Bool) (n : ℕ) (t : StreamTransport) → wire (record_write_buffer_drained b n t) ≡ wire t
unfolding record_write_buffer_drained
wire-drained b n t =
    let (signal, s) = drain_write_buffer t.write_buffer n in
    either _ t _ t refl (resumed b signal (record t { write_buffer = s }))

pub wire-cleared : (b c : Bool) (t : StreamTransport) → wire (clear_write_buffer b c t) ≡ wire t
unfolding clear_write_buffer
wire-cleared b c t =
    let (signal, s) = clear_write_buffer_state t.write_buffer c in
    resumed b signal (record t { write_buffer = s })

-- The bytes among what the socket is to see.
abbrev pub payload_bytes : List Item → List ℕ
payload_bytes [] = []
payload_bytes (byte b ∷ is) = b ∷ payload_bytes is
payload_bytes (control c ∷ is) = payload_bytes is

payload_bytes-append :
    (is js : List Item) → payload_bytes (is ++ js) ≡ payload_bytes is ++ payload_bytes js
payload_bytes-append [] js = refl
payload_bytes-append (byte b ∷ is) js = ap (◌∷◌ b) (payload_bytes-append is js)
payload_bytes-append (control c ∷ is) js = payload_bytes-append is js

pub payload_bytes-map : (xs : List ℕ) → payload_bytes (map byte xs) ≡ xs
payload_bytes-map [] = refl
payload_bytes-map (x ∷ xs) = ap (◌∷◌ x) (payload_bytes-map xs)

abbrev pub bytes_of : WriterCommand → List ℕ
bytes_of c = payload_bytes (items_of c)

-- What a queue will give to its worker, nothing if that has gone.
abbrev pub queued : QueueState → List ℕ
queued q = if q.receiver_alive then payload_bytes (all_items q.commands) else []

abbrev pub staged_bytes : Option OwnedWriteBuffer → List ℕ
staged_bytes none = []
staged_bytes (some w) = remaining w

pub queued-first :
    (c : WriterCommand) (cs : List WriterCommand)
    → payload_bytes (all_items (c ∷ cs)) ≡ bytes_of c ++ payload_bytes (all_items cs)
queued-first c cs = payload_bytes-append (items_of c) (all_items cs)

-- The queue behind a send, while the worker is there.
pub record Sent (bytes : List ℕ) (q q' : QueueState) : Type 0 where
  pub still : q'.receiver_alive ≡ true
  pub behind : queued q' ≡ queued q ++ bytes
  pub good : All Sendable q'.commands

pub enqueue-Sent :
    (a : Alloc) (q : QueueState) (c : WriterCommand)
    → q.receiver_alive ≡ true
    → All Sendable q.commands
    → Sendable c
    → Sent (bytes_of c) q (record q { commands = push_back a q.commands c })
enqueue-Sent a q c l v u =
    let p = push_back-Places a q.commands c v u in
    rw l (record {
      still = refl;
      behind = ap payload_bytes p.0 ∙ payload_bytes-append (all_items q.commands) (items_of c);
      good = p.1;
    })

pub batch-Sent :
    (q : QueueState) (ws : List OwnedWriteBuffer)
    → q.receiver_alive ≡ true
    → All Sendable q.commands
    → All Sendable (map payload ws)
    → Sent
        (payload_bytes (all_items (map payload ws)))
        q
        (record q { commands = q.commands ++ map payload ws })
batch-Sent q ws l v u = rw l (record {
  still = refl;
  behind =
      ap payload_bytes (all_items-append q.commands (map payload ws))
      ∙ payload_bytes-append (all_items q.commands) (all_items (map payload ws));
  good = All-append Sendable q.commands (map payload ws) v u;
})
