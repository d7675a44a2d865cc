-- ===== src/ReadBuffer/Model.antt =====
-- A `ReadBuffer` under any sequence of operations against a plain list, as the property test
-- `mixed_operations_match_a_vec_model` of src/transport/stream/fast.rs does for sampled ones.
use rsloop.Common.{ℕ, ◌+◌, ◌≤◌, ◌≡◌, refl, ◌∙◌, ap, List, [], ◌∷◌, ◌++◌, length, drop}
use rsloop.Bytes.{Alloc, usize_max}
use rsloop.ReadBuffer.{
  ReadBuffer, OwnedReadBuffer, items, unread, new, extend, extend_owned, consume, consume_all,
  prepend, replace,
}
use rsloop.ReadBuffer.Unread.{
  IsValid, new-IsValid, extend_lem, extend_owned_lem, consume_lem, consume_all_lem, prepend_lem,
  replace_lem,
}

-- What a reader does to its buffer.
pub data Op : Type 0 where
  extends prepends replaces : List ℕ → Op
  extends_owned : OwnedReadBuffer → Op
  consumes : ℕ → Op
  consumes_all : Op

unfoldable pub apply : Alloc → ReadBuffer → Op → ReadBuffer
apply a r (extends xs) = extend a r xs
apply a r (prepends xs) = prepend a r xs
apply a r (replaces xs) = replace a r xs
apply a r (extends_owned d) = (extend_owned a r d).1
apply a r (consumes n) = consume a r n
apply a r consumes_all = consume_all a r

pub run : Alloc → ReadBuffer → List Op → ReadBuffer
run a r [] = r
run a r (o ∷ os) = run a (apply a r o) os

-- The same operations on a list.
pub apply_list : List ℕ → Op → List ℕ
apply_list q (extends xs) = q ++ xs
apply_list q (prepends xs) = xs ++ q
apply_list q (replaces xs) = xs
apply_list q (extends_owned d) = q ++ d.vec.items
apply_list q (consumes n) = drop n q
apply_list q consumes_all = []

pub run_list : List ℕ → List Op → List ℕ
run_list q [] = q
run_list q (o ∷ os) = run_list (apply_list q o) os

-- The vectors that the operations make are representable: an appended length fits a `usize`, and a
-- vector handed over holds its own bytes.
abbrev pub Admits : ReadBuffer → Op → Type 0
Admits r (extends xs) = length (items r) + length xs ≤ usize_max
Admits r (prepends xs) = length xs + length (items r) ≤ usize_max
Admits r (replaces xs) = length xs ≤ usize_max
Admits r (extends_owned d) =
    (length d.vec.items ≤ d.vec.capacity) × (length (items r) + length d.vec.items ≤ usize_max)
Admits r (consumes n) = Unit {0}
Admits r consumes_all = Unit {0}

abbrev pub AllAdmit : Alloc → ReadBuffer → List Op → Type 0
AllAdmit a r [] = Unit {0}
AllAdmit a r (o ∷ os) = Admits r o × AllAdmit a (apply a r o) os

apply_lem :
    (a : Alloc) (r : ReadBuffer) (o : Op)
    → IsValid r
    → Admits r o
    → IsValid (apply a r o) × (unread (apply a r o) ≡ apply_list (unread r) o)
unfolding apply apply_list
apply_lem a r (extends xs) v h = extend_lem a r xs v h
apply_lem a r (prepends xs) v h = prepend_lem a r xs v h
apply_lem a r (replaces xs) v h = replace_lem a r xs h
apply_lem a r (extends_owned d) v h = extend_owned_lem a r d v h.0 h.1
apply_lem a r (consumes n) v h = consume_lem a r n v
apply_lem a r consumes_all v h = consume_all_lem a r v

run_lem :
    (a : Alloc) (r : ReadBuffer) (os : List Op)
    → IsValid r
    → AllAdmit a r os
    → IsValid (run a r os) × (unread (run a r os) ≡ run_list (unread r) os)
unfolding run run_list
run_lem a r [] v h = (v, refl)
run_lem a r (o ∷ os) v h =
    let step = apply_lem a r o v h.0 in
    let rest = run_lem a (apply a r o) os step.0 h.1 in
    (rest.0, rest.1 ∙ ap (λ q. run_list q os) step.1)

-- A new buffer under any operations whose vectors are representable stays valid, and its unread
-- bytes are those of the same operations on a list that starts empty.
pub unread-run :
    (a : Alloc) (capacity : ℕ) (os : List Op)
    → AllAdmit a (new a capacity) os
    → IsValid (run a (new a capacity) os) × (unread (run a (new a capacity) os) ≡ run_list [] os)
unread-run a capacity os h =
    let fresh = new-IsValid a capacity in
    let all = run_lem a (new a capacity) os fresh.0 h in
    (all.0, all.1 ∙ ap (λ q. run_list q os) fresh.1)
