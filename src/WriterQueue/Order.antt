-- ===== src/WriterQueue/Order.antt =====
-- What a queue holds for the socket, and what a command that is put behind it adds.
use rsloop.Common.{
  ℕ, ◌≡◌, refl, sym, ap, ◌∙◌, Bool, List, [], ◌∷◌, ◌++◌, map, append-nil, append_assoc, All,
}
use rsloop.Bytes.{Alloc}
use rsloop.Staging.{OwnedWriteBuffer, remaining}
use rsloop.Staging.Remaining.{IsWritable}
use rsloop.Staging.Append.{IsAppend, taken, refused, try_append-IsAppend}
use rsloop.WriterQueue.{
  WriterCommand, coalesced, payload, write_eof, close, abort, stop, coalesce, join, push_back,
}

-- What the socket is to see: a byte, or a control command.
pub data Item : Type 0 where
  byte : ℕ → Item
  control : WriterCommand → Item

abbrev pub items_of : WriterCommand → List Item
items_of (payload w) = map byte (remaining w)
items_of write_eof = control write_eof ∷ []
items_of close = control close ∷ []
items_of abort = control abort ∷ []
items_of stop = control stop ∷ []

abbrev pub all_items : List WriterCommand → List Item
all_items [] = []
all_items (c ∷ cs) = items_of c ++ all_items cs

abbrev pub Sendable : WriterCommand → Type 0
Sendable (payload w) = IsWritable w
Sendable write_eof = Unit {0}
Sendable close = Unit {0}
Sendable abort = Unit {0}
Sendable stop = Unit {0}

-- What `cs` is to the queue that a command was put behind.
abbrev pub Places : List Item → List WriterCommand → Type 0
Places items cs = (all_items cs ≡ items) × All Sendable cs

pub all_items-append :
    (xs ys : List WriterCommand) → all_items (xs ++ ys) ≡ all_items xs ++ all_items ys
all_items-append [] ys = refl
all_items-append (x ∷ xs) ys =
    ap (◌++◌ (items_of x)) (all_items-append xs ys)
    ∙ sym (append_assoc (items_of x) (all_items xs) (all_items ys))

map-append : (xs ys : List ℕ) → map byte (xs ++ ys) ≡ map byte xs ++ map byte ys
map-append [] ys = refl
map-append (x ∷ xs) ys = ap (◌∷◌ (byte x)) (map-append xs ys)

side_by_side :
    (c d : WriterCommand) → Sendable c → Sendable d → Places (items_of c ++ items_of d) (c ∷ d ∷ [])
side_by_side c d v u = (ap (◌++◌ (items_of c)) (append-nil (items_of d)), (v, (u, tt)))

coalesced-Places :
    (pending w : OwnedWriteBuffer) (r : Bool × OwnedWriteBuffer)
    → IsWritable pending
    → IsWritable w
    → IsAppend pending (remaining w) r
    → Places (map byte (remaining pending) ++ map byte (remaining w)) (coalesced w r)
unfolding coalesced
coalesced-Places pending w _ v u (taken w' o fits x e) = (
  append-nil (map byte (remaining w'))
      ∙ ap (map byte) e
      ∙ map-append (remaining pending) (remaining w),
  (x, tt),
)
coalesced-Places pending w _ v u (refused why) = side_by_side (payload pending) (payload w) v u

module _ (a : Alloc) where
  join-Places :
      (c d : WriterCommand)
      → Sendable c
      → Sendable d
      → Places (items_of c ++ items_of d) (join a c d)
  unfolding join coalesce
  join-Places (payload p) (payload w) v u =
      coalesced-Places p w _ v u (try_append-IsAppend a p (remaining w) v)
  join-Places write_eof (payload w) v u = side_by_side write_eof (payload w) v u
  join-Places close (payload w) v u = side_by_side close (payload w) v u
  join-Places abort (payload w) v u = side_by_side abort (payload w) v u
  join-Places stop (payload w) v u = side_by_side stop (payload w) v u
  join-Places c write_eof v u = side_by_side c write_eof v u
  join-Places c close v u = side_by_side c close v u
  join-Places c abort v u = side_by_side c abort v u
  join-Places c stop v u = side_by_side c stop v u

  pub push_back-Places :
      (cs : List WriterCommand) (d : WriterCommand)
      → All Sendable cs
      → Sendable d
      → Places (all_items cs ++ items_of d) (push_back a cs d)
  unfolding push_back
  push_back-Places [] d v u = (append-nil (items_of d), (u, tt))
  push_back-Places (c ∷ []) d v u =
      let j = join-Places c d v.0 u in
      (j.0 ∙ ap (λ xs. xs ++ items_of d) (sym (append-nil (items_of c))), j.1)
  push_back-Places (c ∷ e ∷ cs) d v u =
      let rest = push_back-Places (e ∷ cs) d v.1 u in
      (
        ap (◌++◌ (items_of c)) rest.0
            ∙ sym (append_assoc (items_of c) (all_items (e ∷ cs)) (items_of d)),
        (v.0, rest.1),
      )
