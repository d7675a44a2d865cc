-- ===== src/WritePath/Answered.antt =====
-- What a direct write of the socket does.
use rsloop.Common.{
  ℕ, ◌≤◌, ◌≡◌, refl, sym, ap, ◌∙◌, false, List, [], ◌++◌, none, append-nil, Option-cases, inl, inr,
  ok, err, Result, length, take,
}
use rsloop.WritePath.{IoError, Host, StreamTransport, DirectWriter, absent, released, open_writer}
use rsloop.WritePath.Direct.{wrote, socket_write, try_direct_tasked_write}
use rsloop.WritePath.Wire.{Wire, wire, staged_bytes}
use rsloop.WritePath.Staged.{Direct}

-- What a direct write of `bytes` does.
pub data IsDirect (bytes : List ℕ) (x : Wire) : Result ℕ IoError × StreamTransport → Type 0 where
  took :
      (n : ℕ) (u : StreamTransport)
      → n ≤ length bytes
      → wire u ≡ record x { out = x.out ++ take n bytes }
      → IsDirect bytes x (ok n, u)
  refused : (e : IoError) (u : StreamTransport) → wire u ≡ x → IsDirect bytes x (err e, u)

-- Nothing is staged and the socket has everything.
pub record Idle (held acc : List ℕ) (x : Wire) : Type 0 where
  pub direct : Direct held acc x
  pub empty : x.pending ≡ none

pub no_rest : (out held q : List ℕ) → held ≡ [] → q ≡ [] → out ++ (held ++ (q ++ [])) ≡ out
no_rest out held q n m = rw (n, m, append-nil out) refl

pub out_when_unused : (held acc : List ℕ) (x : Wire) → Idle held acc x → x.out ≡ acc
out_when_unused held acc x i =
    sym (append-nil x.out) ∙ ap (λ p. x.out ++ staged_bytes p) (sym i.empty) ∙ i.direct.all_there

-- What is staged is scheduled.
pub unstaged :
    (held acc : List ℕ) (t : StreamTransport)
    → Direct held acc (wire t)
    → t.direct_write_scheduled ≡ false
    → t.pending_direct_write ≡ none
unstaged held acc t d e = elim (Option-cases t.pending_direct_write) [
  | inl n ↦ n
  | inr (w, n) ↦ absurd (cc ((d.writable w n).1, e))
]

module _ (h : Host) where
  socket-IsDirect :
      (bytes : List ℕ) (t : StreamTransport) (r : Result ℕ IoError)
      → h.write t.socket_calls bytes ≡ r
      → IsDirect bytes (wire t) (r, wrote bytes r t)
  socket-IsDirect bytes t (ok n) e = took n _ (h.write_fits t.socket_calls n bytes e) refl
  socket-IsDirect bytes t (err x) e = refused x _ refl

  pub wrote-IsDirect :
      (bytes : List ℕ) (t : StreamTransport)
      → IsDirect bytes (wire t) (try_direct_tasked_write h bytes t)
  unfolding try_direct_tasked_write socket_write
  wrote-IsDirect bytes t = by_writer t.direct_writer
    where
      by_writer :
          (d : DirectWriter)
          → IsDirect bytes (wire t) (elim d [
            | absent ↦ (err IoError.not_direct_tasked, t)
            | released ↦ (err IoError.not_connected, t)
            | open_writer ↦ socket_write h bytes t
          ])
      by_writer absent = refused _ t refl
      by_writer released = refused _ t refl
      by_writer open_writer = socket-IsDirect bytes t _ refl
