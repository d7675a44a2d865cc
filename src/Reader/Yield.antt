-- ===== src/Reader/Yield.antt =====
-- Every way in which the reader hands bytes over takes them from the front of what it holds.
use rsloop.Common.{
  List, ◌∷◌, ℕ, ◌+◌, ◌≡◌, refl, ◌∙◌, Bool, true, false, [], ◌++◌, length, min, take, ltb, arith,
  append-nil, take-append-drop, Bool-cases, inl, inr, ◌⊎◌, ◌&&◌, ◌==◌,
}
use rsloop.Bytes.{Alloc}
use rsloop.ReadBuffer.{unread, len, consume, consume_all}
use rsloop.ReadBuffer.Unread.{IsValid, consume_lem, consume_all_lem}
use rsloop.Separator.{UntilScan, found, need_more, over_limit}
use rsloop.Reader.State.{
  Reader, Overrun, separator_found, separator_not_found, Outcome, value, held, partial, bytes_of,
}
use rsloop.Reader.Flow.{
  maybe_resume_transport, maybe_pause_transport, unread_bytes_object, unread_all_bytes_object,
}
use rsloop.Reader.Complete.{until_limit_overrun, resolve_until_scan, byte_at, newline}

-- All but the buffer, the waiter and the two flow-control fields is as it was.
pub record SameRest (r r' : Reader) : Type 0 where
  pub limit_eq : r'.limit ≡ r.limit
  pub eof_eq : r'.eof ≡ r.eof
  pub failure_eq : r'.failure ≡ r.failure
  pub cancelled_eq : r'.cancelled ≡ r.cancelled
  pub settled_eq : r'.settled ≡ r.settled

-- From `r` to `r'` the outcome `o` takes its bytes from the front of what is held.
pub record Yields (r : Reader) (o : Outcome) (r' : Reader) : Type 0 where
  pub valid : IsValid r'.buffer
  pub waiter_eq : r'.waiter ≡ r.waiter
  pub same : SameRest r r'
  pub front : bytes_of o ++ held r' ≡ held r

pub resume-SameRest : (r : Reader) → SameRest r (maybe_resume_transport r)
unfolding maybe_resume_transport
resume-SameRest r = ground arith

pub resume-kept :
    (r : Reader)
    → ((maybe_resume_transport r).buffer ≡ r.buffer)
      × ((maybe_resume_transport r).waiter ≡ r.waiter)
unfolding maybe_resume_transport
resume-kept r = ground arith

pub pause-SameRest : (r : Reader) → SameRest r (maybe_pause_transport r)
unfolding maybe_pause_transport
pause-SameRest r = ground arith

pub pause-kept :
    (r : Reader)
    → ((maybe_pause_transport r).buffer ≡ r.buffer) × ((maybe_pause_transport r).waiter ≡ r.waiter)
unfolding maybe_pause_transport
pause-kept r = ground arith

pub held_of_kept : (r r' : Reader) → r'.buffer ≡ r.buffer → r'.waiter ≡ r.waiter → held r' ≡ held r
unfolding held
held_of_kept r r' b w = rw (b, w)

-- What an exact read has taken and what waits in the buffer are not there together: an exact read
-- waits only once it has emptied the buffer.
abbrev pub Unmixed : Reader → Type 0
Unmixed r = (partial r.waiter ≡ []) ⊎ (unread r.buffer ≡ [])

taken_first :
    (p bs rest u : List ℕ) → (p ≡ []) ⊎ (u ≡ []) → bs ++ rest ≡ u → bs ++ (p ++ rest) ≡ p ++ u
taken_first p bs rest u (inl e) h = rw e h
taken_first p [] [] u (inr e) h = rw h refl
taken_first p [] (y ∷ rest) u (inr e) h = absurd (cc (h, e))
taken_first p (x ∷ bs) rest u (inr e) h = absurd (cc (h, e))

module _ (a : Alloc) where
  -- the shape of every step that consumes: the front of the buffer becomes the outcome, and the
  -- transport may be resumed
  consume-Yields :
      (r : Reader) (n : ℕ) (o : Outcome)
      → IsValid r.buffer
      → Unmixed r
      → bytes_of o ≡ take n (unread r.buffer)
      → Yields r o (record r { buffer = consume a r.buffer n })
  unfolding held
  consume-Yields r n o v w e =
      let r' : Reader = record r { buffer = consume a r.buffer n } in
      let c = consume_lem a r.buffer n v in
      record {
        valid = c.0;
        waiter_eq = refl;
        same = ground arith;
        front =
            taken_first (partial r.waiter) (bytes_of o) _ (unread r.buffer) w
              (rw (e, c.1) (take-append-drop n (unread r.buffer)));
      }

  pub consume_all-Yields :
      (r : Reader) (o : Outcome)
      → IsValid r.buffer
      → Unmixed r
      → bytes_of o ≡ unread r.buffer
      → Yields r o (record r { buffer = consume_all a r.buffer })
  unfolding held
  consume_all-Yields r o v w e =
      let r' : Reader = record r { buffer = consume_all a r.buffer } in
      let c = consume_all_lem a r.buffer v in
      record {
        valid = c.0;
        waiter_eq = refl;
        same = ground arith;
        front =
            taken_first (partial r.waiter) (bytes_of o) _ (unread r.buffer) w
              (rw (e, c.1) (append-nil (unread r.buffer)));
      }

  -- Resuming the transport touches nothing that is held.
  pub resume-Yields :
      (r : Reader) (o : Outcome) (r' : Reader)
      → Yields r o r'
      → Yields r o (maybe_resume_transport r')
  resume-Yields r o r' y =
      let k = resume-kept r' in
      let s = resume-SameRest r' in
      record {
        valid = rw k.0 y.valid;
        waiter_eq = k.1 ∙ y.waiter_eq;
        same = ground arith;
        front = rw (held_of_kept r' (maybe_resume_transport r') k.0 k.1) y.front;
      }

  pub unread_bytes_object-Yields :
      (r : Reader) (n : ℕ)
      → IsValid r.buffer
      → Unmixed r
      → Yields r (value (unread_bytes_object a r n).0) (unread_bytes_object a r n).1
  unfolding unread_bytes_object
  unread_bytes_object-Yields r n v w = consume-Yields r (min (len r.buffer) n) _ v w refl

  pub unread_all_bytes_object-Yields :
      (r : Reader) (o : Outcome)
      → IsValid r.buffer
      → Unmixed r
      → bytes_of o ≡ unread r.buffer
      → Yields r o (unread_all_bytes_object a r).1
  unfolding unread_all_bytes_object
  unread_all_bytes_object-Yields r o v w e = consume_all-Yields r o v w e

  pub nothing-Yields :
      (r : Reader) (o : Outcome) → IsValid r.buffer → bytes_of o ≡ [] → Yields r o r
  nothing-Yields r o v e = record { valid = v; waiter_eq = refl; same = ground arith; front = rw e }

  until_limit_overrun-Yields :
      (r : Reader) (message : Overrun) (consumed : ℕ) (line_mode : Bool)
      → IsValid r.buffer
      → Unmixed r
      → let (o, r') = until_limit_overrun a r message consumed line_mode in Yields r o r'
  unfolding until_limit_overrun
  until_limit_overrun-Yields r message consumed false v w = nothing-Yields r _ v refl
  until_limit_overrun-Yields r message consumed true v w =
      elim (Bool-cases (
        ltb consumed (length (unread r.buffer)) && byte_at (unread r.buffer) consumed == newline)) [
          | inl e ↦ rw e (resume-Yields r _ _ (consume-Yields r (consumed + 1) _ v w refl))
          | inr e ↦ rw e (resume-Yields r _ _ (consume_all-Yields r _ v w refl))
        ]

  -- However a finished search is resolved, its outcome takes the front of what is held: the bytes up
  -- to the end of the match, the unterminated rest, an oversized line, or nothing.
  pub resolve_until_scan-Yields :
      (r : Reader) (scan : UntilScan) (line_mode : Bool)
      → IsValid r.buffer
      → Unmixed r
      → let (o, r') = resolve_until_scan a r scan line_mode in Yields r o r'
  unfolding resolve_until_scan unread_all_bytes_object
  resolve_until_scan-Yields r (found s e) line_mode v w = elim (Bool-cases (ltb r.limit s)) [
    | inl over ↦ rw over (until_limit_overrun-Yields r separator_found s line_mode v w)
    | inr fits ↦ rw fits (resume-Yields r _ _ (consume-Yields r e _ v w refl))
  ]
  resolve_until_scan-Yields r (over_limit consumed) line_mode v w =
      until_limit_overrun-Yields r separator_not_found consumed line_mode v w
  resolve_until_scan-Yields r need_more true v w =
      unread_all_bytes_object-Yields r _ v w (all_bytes r)
    where
      all_bytes : (r : Reader) → (unread_all_bytes_object a r).0 ≡ unread r.buffer
      all_bytes r = refl
  resolve_until_scan-Yields r need_more false v w =
      unread_all_bytes_object-Yields r _ v w (all_bytes r)
    where
      all_bytes : (r : Reader) → (unread_all_bytes_object a r).0 ≡ unread r.buffer
      all_bytes r = refl
