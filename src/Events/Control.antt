-- ===== src/Events/Control.antt =====
-- The events that are not data, behind a flush.
use rsloop.Common.{
  ℕ, ◌≡◌, ◌≢◌, refl, sym, ap, ◌∙◌, subst, true, List, [], ◌∷◌, ◌++◌, Option, none, append_assoc,
}
use rsloop.Events.{
  read_event_kind, incoming_kind, PendingReadEvent, incoming, eof, connection_lost, pause_writing,
  resume_writing, ReadEvents,
}
use rsloop.Events.Drain.{
  Delivery, eof_received, lost, pauses, resumes, Answers, DrainLocals, running, flush_pending_data,
  drain_eof, eof_answered, drain_control, flush_before,
}
use rsloop.Events.Items.{
  Item, ended, gone, paused, resumed, event_items, call_items, pending_items, queued, to_deliver,
  IsGood, IsOpen, IsOrdered, goes_on, rests, call_items-append, flush_open, flush_calls,
  flush_calls_items, end_open,
}

before_control :
    (a : Answers) (event : PendingReadEvent) (d : DrainLocals) (r : ReadEvents)
    → flush_pending_data a d.pending_data r ≡ (true, flush_calls d.pending_data, r)
    → flush_before a event d r
      ≡ drain_control a event (flush_calls d.pending_data) (record d { pending_data = none }) r
unfolding flush_before
before_control a event d r f = rw f refl

-- A call behind others.
one_more :
    (calls : List Delivery) (call : Delivery) (i : Item) (rest total : List Item)
    → call_items (call ∷ []) ≡ i ∷ []
    → call_items calls ++ (i ∷ rest) ≡ total
    → call_items (calls ++ call ∷ []) ++ rest ≡ total
one_more calls call i rest total c t =
    ap (λ xs. xs ++ rest) (call_items-append calls (call ∷ []))
    ∙ append_assoc (call_items calls) (call_items (call ∷ [])) rest
    ∙ ap (λ xs. call_items calls ++ (xs ++ rest)) c
    ∙ t

eof_open :
    (a : Answers) (calls : List Delivery) (d : DrainLocals) (r : ReadEvents)
    → IsGood a
    → drain_eof a calls d r ≡ (calls ++ eof_received ∷ [], running d, r)
unfolding drain_eof eof_answered
eof_open a calls d r g = rw g.eof_answer refl

control-IsOrdered :
    (a : Answers) (event : PendingReadEvent) (calls : List Delivery) (d : DrainLocals)
    (r : ReadEvents) (total : List Item)
    → IsGood a
    → IsOpen r
    → d.pending_data ≡ none
    → call_items calls ++ (event_items event ++ queued r) ≡ total
    → read_event_kind event ≢ incoming_kind
    → IsOrdered total (drain_control a event calls d r)
unfolding drain_control to_deliver queued
control-IsOrdered a (incoming bytes) calls d r total g o n t w = absurd (w refl)
control-IsOrdered a eof calls d r total g o n t w =
    subst (IsOrdered total) (sym (eof_open a calls d r g)) (
      goes_on (calls ++ eof_received ∷ []) d r
        (one_more calls eof_received ended (to_deliver d r) total refl (
          ap (λ (p : Option (List ℕ)). call_items calls ++ (ended ∷ pending_items p ++ queued r)) n
          ∙ t))
        o (λ k. n))
control-IsOrdered a (connection_lost message) calls d r total g o n t w =
    subst (IsOrdered total) (sym (end_open calls r o))
      (rests (calls ++ lost ∷ []) _ (one_more calls lost gone (queued r) total refl t))
control-IsOrdered a pause_writing calls d r total g o n t w = rw g.writing_returns (
    goes_on (calls ++ pauses ∷ []) d r
      (one_more calls pauses paused (to_deliver d r) total refl (
        ap (λ (p : Option (List ℕ)). call_items calls ++ (paused ∷ pending_items p ++ queued r)) n
        ∙ t))
      o (λ k. n))
control-IsOrdered a resume_writing calls d r total g o n t w = rw g.writing_returns (
    goes_on (calls ++ resumes ∷ []) d r
      (one_more calls resumes resumed (to_deliver d r) total refl (
        ap (λ (p : Option (List ℕ)). call_items calls ++ (resumed ∷ pending_items p ++ queued r)) n
        ∙ t))
      o (λ k. n))

pub flush_before-IsOrdered :
    (a : Answers) (event : PendingReadEvent) (d : DrainLocals) (r : ReadEvents) (total : List Item)
    → IsGood a
    → IsOpen r
    → pending_items d.pending_data ++ (event_items event ++ queued r) ≡ total
    → read_event_kind event ≢ incoming_kind
    → IsOrdered total (flush_before a event d r)
flush_before-IsOrdered a event d r total g o t w =
    subst (IsOrdered total) (sym (before_control a event d r (flush_open a d.pending_data r g o))) (
      control-IsOrdered a event (flush_calls d.pending_data) (record d { pending_data = none }) r
        total g o refl
        (ap (λ xs. xs ++ (event_items event ++ queued r)) (flush_calls_items d.pending_data) ∙ t) w)
