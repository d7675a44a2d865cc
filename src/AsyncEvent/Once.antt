-- ===== src/AsyncEvent/Once.antt =====
-- No step of an event loses a channel or sends to it twice.
use rsloop.Common.{
  ℕ, zero, suc, ◌+◌, ◌<◌, ◌≡◌, refl, sym, subst, arith, true, false, List, [], ◌∷◌, Option-cases,
  Bool-cases, inl, inr,
}
use rsloop.Bytes.{Alloc}
use rsloop.AsyncEvent.{
  Waiters, AsyncEvent, no_waiters, push_sender, listen, start_notify, give_back, continue_notify,
}
use rsloop.AsyncEvent.Run.{
  take_call, Act, listens, notifies, continues, continue_call, act, run, occurrences,
  occurrences-append, pending, finish, take_call-pending, total, share,
}

-- What a step does to channel `t`.
pub record Keeps (t : ℕ) (e e' : AsyncEvent) : Type 0 where
  pub once : total t e ≡ share t e → total t e' ≡ share t e'
  pub made : t < e.next_channel → t < e'.next_channel
  pub taken :
      t < e.next_channel
      → occurrences t e.waiters.senders ≡ 0
      → occurrences t e'.waiters.senders ≡ 0

listen-Keeps : (a : Alloc) (t : ℕ) (e : AsyncEvent) → Keeps t e (listen a e)
unfolding listen push_sender total occurrences
listen-Keeps a t e =
    let p = occurrences-append t e.waiters.senders (e.next_channel ∷ []) in
    record { once = λ h. ground arith; made = λ h. omega arith; taken = λ h z. ground arith }

start_full :
    (t : ℕ) (e : AsyncEvent) → no_waiters e.waiters.senders ≡ false → Keeps t e (start_notify e)
unfolding start_notify total occurrences pending
start_full t e h = rw h (record { once = λ o. omega arith; made = λ m. m; taken = λ m z. refl })

start_empty : (e : AsyncEvent) → no_waiters e.waiters.senders ≡ true → start_notify e ≡ e
unfolding start_notify
start_empty e h = ground arith

Keeps-refl : (t : ℕ) (e : AsyncEvent) → Keeps t e e
Keeps-refl t e = record { once = λ h. h; made = λ h. h; taken = λ h z. z }

pub start_notify-Keeps : (t : ℕ) (e : AsyncEvent) → Keeps t e (start_notify e)
start_notify-Keeps t e = elim (Bool-cases (no_waiters e.waiters.senders)) [
  | inl h ↦ subst (Keeps t e) (sym (start_empty e h)) (Keeps-refl t e)
  | inr h ↦ start_full t e h
]

pub no_occurrences : (t : ℕ) (xs : List ℕ) → no_waiters xs ≡ true → occurrences t xs ≡ 0
unfolding occurrences
no_occurrences t [] h = refl
no_occurrences t (x ∷ xs) h = ground arith

-- With an empty vector, what is given back is no waiter.
give_back_lem :
    (t : ℕ) (e : AsyncEvent) (c : ℕ)
    → Keeps t e (give_back e (record { senders = []; capacity = c }))
unfolding give_back total occurrences
give_back_lem t e c = elim (Bool-cases (no_waiters e.waiters.senders)) [
  | inl h ↦
      let z = no_occurrences t e.waiters.senders h in
      record { once = λ o. ground arith; made = λ m. ground arith; taken = λ m q. ground arith }
  | inr h ↦ rw h (Keeps-refl t e)
]

continue_notify-Keeps :
    (t : ℕ) (e : AsyncEvent) (ws : List Waiters) (c : ℕ) (ts : List ℕ)
    → pending t e.notifying ≡ occurrences t ts + pending t ws
    → Keeps t e (continue_notify e ws (record { senders = ts; capacity = c }))
unfolding continue_notify total occurrences pending
continue_notify-Keeps t e ws c [] p =
    let k = give_back_lem t (record e { notifying = ws }) c in
    record { once = λ o. k.once (omega (arith, o, p)); made = k.made; taken = k.taken }
continue_notify-Keeps t e ws c (x ∷ xs) p =
    let s = occurrences-append t e.sent (x ∷ []) in
    record { once = λ o. omega (arith, o, p, s); made = λ m. m; taken = λ m z. z }

act-Keeps : (a : Alloc) (t : ℕ) (e : AsyncEvent) (x : Act) → Keeps t e (act a e x)
unfolding act
act-Keeps a t e listens = listen-Keeps a t e
act-Keeps a t e notifies = start_notify-Keeps t e
act-Keeps a t e (continues i) = elim (Option-cases (take_call i e.notifying)) [
  | inl q ↦ rw q (Keeps-refl t e)
  | inr ((w, ws), q) ↦
      subst (λ o. Keeps t e (continue_call e o)) (sym q)
        (continue_notify-Keeps t e ws w.capacity w.senders
          (take_call-pending t i e.notifying w ws q))
]

pub Keeps-trans : (t : ℕ) (d e f : AsyncEvent) → Keeps t d e → Keeps t e f → Keeps t d f
Keeps-trans t d e f p q = record {
  once = λ h. q.once (p.once h);
  made = λ h. q.made (p.made h);
  taken = λ h z. q.taken (p.made h) (p.taken h z);
}

pub run-Keeps : (a : Alloc) (t : ℕ) (e : AsyncEvent) (xs : List Act) → Keeps t e (run a e xs)
unfolding run
run-Keeps a t e [] = Keeps-refl t e
run-Keeps a t e (x ∷ xs) =
    Keeps-trans t e (act a e x) (run a (act a e x) xs) (act-Keeps a t e x)
      (run-Keeps a t (act a e x) xs)

pub finish-Keeps : (a : Alloc) (t n : ℕ) (e : AsyncEvent) → Keeps t e (finish a n e)
unfolding finish
finish-Keeps a t zero e = Keeps-refl t e
finish-Keeps a t (suc n) e =
    Keeps-trans t e (act a e (continues zero)) (finish a n (act a e (continues zero)))
      (act-Keeps a t e (continues zero)) (finish-Keeps a t n (act a e (continues zero)))
