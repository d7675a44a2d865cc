-- ===== src/Events/Order.antt =====
-- The data that a drain joins or delivers.
use rsloop.Common.{
  ℕ, suc, ◌-◌, ◌%◌, ◌+◌, ◌≡◌, refl, sym, ap, ◌∙◌, subst, inl, inr, arith, Bool, true, false, List,
  [], ◌∷◌, ◌++◌, map, Option, none, some, append-nil, append_assoc, Bool-cases, Option-cases,
  length,
}
use rsloop.Events.{
  ReadFlags, ReadEvents, can_coalesce_read_data, show_if, show_reading, record_pending_read_drained,
  max_pending_read_coalesce_bytes,
}
use rsloop.Events.Drain.{
  received, Answers, DrainLocals, flush_pending_data, check_budget, coalesce_with, coalesce_data,
  drain_data,
}
use rsloop.Events.Budget.{check_budget-IsOrdered}
use rsloop.Events.Items.{
  Item, byte, pending_items, queued, to_deliver, IsGood, IsOpen, IsSplit, IsOrdered, map-append,
  flush_open, flush_calls,
}

fits : List ℕ → List ℕ → Bool
fits joined bytes =
    can_coalesce_read_data (length joined) (length bytes) max_pending_read_coalesce_bytes

coalesce_first :
    (a : Answers) (d : DrainLocals) (bytes : List ℕ) (r : ReadEvents)
    → d.pending_data ≡ none
    → coalesce_data a d bytes r ≡ check_budget a [] (record d { pending_data = some bytes }) r
unfolding coalesce_data coalesce_with
coalesce_first a d bytes r e = rw e refl

coalesce_joins :
    (a : Answers) (d : DrainLocals) (bytes joined : List ℕ) (r : ReadEvents)
    → d.pending_data ≡ some joined
    → fits joined bytes ≡ true
    → coalesce_data a d bytes r
      ≡ check_budget a [] (record d { pending_data = some (joined ++ bytes) }) r
unfolding coalesce_data coalesce_with fits
coalesce_joins a d bytes joined r e f = rw (e, f) refl

coalesce_flushes :
    (a : Answers) (d : DrainLocals) (bytes joined : List ℕ) (r : ReadEvents)
    → d.pending_data ≡ some joined
    → fits joined bytes ≡ false
    → flush_pending_data a (some joined) r ≡ (true, received joined ∷ [], r)
    → coalesce_data a d bytes r
      ≡ check_budget a (received joined ∷ []) (record d { pending_data = some bytes }) r
unfolding coalesce_data coalesce_with fits
coalesce_flushes a d bytes joined r e f k = rw (e, f, k) refl

not_fast : {b : Bool} {p : Option (List ℕ)} → b ≡ false → b ≡ true → p ≡ none
not_fast e k = absurd (ground (arith, e, k))

-- The data of an event behind what is joined.
coalesce-IsOrdered :
    (a : Answers) (d : DrainLocals) (bytes : List ℕ) (r : ReadEvents) (total : List Item)
    → IsGood a
    → IsOpen r
    → d.fast_path ≡ false
    → pending_items d.pending_data ++ (map byte bytes ++ queued r) ≡ total
    → IsOrdered total (coalesce_data a d bytes r)
unfolding to_deliver flush_calls
coalesce-IsOrdered a d bytes r total g o n t = elim (Option-cases d.pending_data) [
  | inl e ↦ subst (IsOrdered total) (sym (coalesce_first a d bytes r e)) (
      check_budget-IsOrdered a [] (record d { pending_data = some bytes }) r total g o (not_fast n)
        (ap (λ (p : Option (List ℕ)). pending_items p ++ (map byte bytes ++ queued r)) (sym e) ∙ t))
  | inr (joined, e) ↦
      let t' : map byte joined ++ (map byte bytes ++ queued r) ≡ total =
        ap (λ (p : Option (List ℕ)). pending_items p ++ (map byte bytes ++ queued r)) (sym e) ∙ t in
      elim (Bool-cases (fits joined bytes)) [
        | inl f ↦ subst (IsOrdered total) (sym (coalesce_joins a d bytes joined r e f)) (
            check_budget-IsOrdered a [] (record d { pending_data = some (joined ++ bytes) }) r total
              g o (not_fast n)
              (ap (λ xs. xs ++ queued r) (map-append joined bytes)
                ∙ append_assoc (map byte joined) (map byte bytes) (queued r)
                ∙ t'))
        | inr f ↦
            subst (IsOrdered total)
              (sym (coalesce_flushes a d bytes joined r e f (flush_open a (some joined) r g o)))
              (check_budget-IsOrdered a (received joined ∷ [])
                (record d { pending_data = some bytes }) r total g o (not_fast n)
                (ap (λ xs. xs ++ (map byte bytes ++ queued r)) (append-nil (map byte joined)) ∙ t'))
      ]
]

unfoldable pub read_off : List ℕ → ReadEvents → ReadEvents
read_off bytes r =
    let remaining = r.pending_read_bytes - length bytes in
    let (stored, flags) = record_pending_read_drained remaining r.flags in
    let count =
      (r.pending_read_bytes + (18446744073709551616 - length bytes)) % 18446744073709551616 in
    record r { pending_read_bytes = count; flags = show_if stored flags }

counted : DrainLocals → List ℕ → DrainLocals
counted d bytes = record d {
  drained_events = suc d.drained_events;
  drained_bytes = d.drained_bytes + length bytes;
}

-- What reading off the counters and the flags changes nothing of.
drained_flags :
    (remaining : ℕ) (f : ReadFlags)
    → let (stored, f') = record_pending_read_drained remaining f in
      ((show_if stored f').closing ≡ f.closing) × ((show_if stored f').lost_called ≡ f.lost_called)
unfolding record_pending_read_drained show_reading
drained_flags remaining f = ground arith

-- The arm for data, once its parts are named.
data_fast :
    (a : Answers) (d : DrainLocals) (bytes : List ℕ) (r : ReadEvents)
    → d.fast_path ≡ true
    → IsGood a
    → drain_data a d bytes r
      ≡ check_budget a (received bytes ∷ []) (counted d bytes) (read_off bytes r)
unfolding drain_data counted read_off
data_fast a d bytes r e g = rw (e, g.data_returns, g.data_closes) refl

data_slow :
    (a : Answers) (d : DrainLocals) (bytes : List ℕ) (r : ReadEvents)
    → d.fast_path ≡ false
    → drain_data a d bytes r ≡ coalesce_data a (counted d bytes) bytes (read_off bytes r)
unfolding drain_data counted read_off
data_slow a d bytes r e = rw e refl

read_off-IsOpen : (bytes : List ℕ) (r : ReadEvents) → IsOpen r → IsOpen (read_off bytes r)
unfolding read_off
read_off-IsOpen bytes r o =
    let f = drained_flags (r.pending_read_bytes - length bytes) r.flags in
    record { attached = o.attached; not_closing = f.0 ∙ o.not_closing; not_lost = f.1 ∙ o.not_lost }

pub data-IsOrdered :
    (a : Answers) (d : DrainLocals) (bytes : List ℕ) (r : ReadEvents) (total : List Item)
    → IsGood a
    → IsOpen r
    → IsSplit d
    → pending_items d.pending_data ++ (map byte bytes ++ queued r) ≡ total
    → IsOrdered total (drain_data a d bytes r)
unfolding to_deliver read_off counted queued
data-IsOrdered a d bytes r total g o s t = elim (Bool-cases d.fast_path) [
  | inl e ↦
      let n = s e in
      let t' : map byte bytes ++ queued r ≡ total =
        ap (λ (p : Option (List ℕ)). pending_items p ++ (map byte bytes ++ queued r)) (sym n) ∙ t in
      subst (IsOrdered total) (sym (data_fast a d bytes r e g)) (
        check_budget-IsOrdered a (received bytes ∷ []) (counted d bytes) (read_off bytes r) total g
          (read_off-IsOpen bytes r o) s
          (ap (λ xs. xs ++ (pending_items d.pending_data ++ queued r)) (append-nil (map byte bytes))
            ∙ ap (λ (p : Option (List ℕ)). map byte bytes ++ (pending_items p ++ queued r)) n
            ∙ t'))
  | inr e ↦ subst (IsOrdered total) (sym (data_slow a d bytes r e)) (
      coalesce-IsOrdered a (counted d bytes) bytes (read_off bytes r) total g
        (read_off-IsOpen bytes r o) e t)
]
