-- ===== src/Separator/Order.antt =====
-- The separators of a search in their order: sorted by length, with the bounds that the scan uses.
use mathlib.Core.List.{Perm, Mem, mem-cons_self}
use mathlib.Core.List.Perm
use rsloop.Common.{
  ℕ, suc, ◌-◌, ◌≤◌, ◌<◌, ◌≡◌, refl, sym, ap, ◌∙◌, inl, inr, Bool, false, List, [], ◌∷◌, Option,
  none, some, length, ltb, ◌==◌, arith, All, All-map, All-map₂, Bool-cases, Result, ok, err,
  length-append, length-take, ltb→lt, take-append,
}
use rsloop.Separator.{
  Separators, inline, heap, single, from_list, sort_by_key_length, insert_by_length, last_len,
  sort_by_length, shortest, longest_len, to_list, new, UntilReadState, SeparatorError, no_separator,
  empty_separator, started, zeros, inline_separator_len,
}

abbrev pub IsSorted : List (List ℕ) → Type 0
IsSorted [] = Unit {0}
IsSorted (x ∷ xs) = All (λ y. length x ≤ length y) xs × IsSorted xs

insert-All :
    (P : List ℕ → Type 0) (x : List ℕ) (ys : List (List ℕ))
    → P x
    → All P ys
    → All P (insert_by_length x ys)
unfolding insert_by_length
insert-All P x [] p h = (p, tt)
insert-All P x (y ∷ ys) p h = elim (Bool-cases (ltb (length y) (length x))) [
  | inl e ↦ rw e (h.0, insert-All P x ys p h.1)
  | inr e ↦ rw e (p, h)
]

insert-IsSorted : (x : List ℕ) (ys : List (List ℕ)) → IsSorted ys → IsSorted (insert_by_length x ys)
unfolding insert_by_length
insert-IsSorted x [] h = (tt, tt)
insert-IsSorted x (y ∷ ys) h = elim (Bool-cases (ltb (length y) (length x))) [
  | inl e ↦ rw e (
    insert-All (λ z. length y ≤ length z) x ys (omega (arith, ltb→lt (length y) (length x) e)) h.0,
    insert-IsSorted x ys h.1,
  )
  | inr e ↦
      let le : length x ≤ length y = ground arith in
      rw e ((le, All-map _ _ (λ z q. omega arith) ys h.0), h)
]

sort-IsSorted : (xs : List (List ℕ)) → IsSorted (sort_by_key_length xs)
unfolding sort_by_key_length
sort-IsSorted [] = tt
sort-IsSorted (x ∷ xs) = insert-IsSorted x _ (sort-IsSorted xs)

insert-perm : (x : List ℕ) (ys : List (List ℕ)) → Perm (insert_by_length x ys) (x ∷ ys)
unfolding insert_by_length
insert-perm x [] = Perm.refl _
insert-perm x (y ∷ ys) = elim (Bool-cases (ltb (length y) (length x))) [
  | inl e ↦ rw e (Perm.trans (Perm.cons y (insert-perm x ys)) (Perm.swap x y ys))
  | inr e ↦ rw e (Perm.refl _)
]

pub sort-perm : (xs : List (List ℕ)) → Perm (sort_by_key_length xs) xs
unfolding sort_by_key_length
sort-perm [] = Perm.refl _
sort-perm (x ∷ xs) = Perm.trans (insert-perm x _) (Perm.cons x (sort-perm xs))

last_len-max : (xs : List (List ℕ)) → IsSorted xs → All (λ y. length y ≤ last_len xs) xs
unfolding last_len
last_len-max [] h = tt
last_len-max (x ∷ []) h = (omega arith, tt)
last_len-max (x ∷ y ∷ rest) h = let tail = last_len-max (y ∷ rest) h.1 in (omega arith, tail)

to_list-single : (xs : List ℕ) → to_list (single xs) ≡ xs ∷ []
unfolding single
to_list-single xs = elim (Bool-cases (ltb inline_separator_len (length xs))) [
  | inl e ↦ rw e
  | inr e ↦ rw e (ap (λ ys. ys ∷ []) (take-append xs (zeros (inline_separator_len - length xs))))
]

-- The inline form of a single short separator holds the same list as the heap form.
pub to_list-from_list : (list : List (List ℕ)) → to_list (from_list list) ≡ list
unfolding from_list
to_list-from_list [] = refl
to_list-from_list (x ∷ []) = to_list-single x
to_list-from_list (x ∷ y ∷ rest) = refl

-- An inline separator does not claim more bytes than it holds.
abbrev IsStored : Separators → Type 0
IsStored (inline bytes len) = len ≤ length bytes
IsStored (heap list) = Unit {0}

single-IsStored : (xs : List ℕ) → IsStored (single xs)
unfolding single
single-IsStored xs = elim (Bool-cases (ltb inline_separator_len (length xs))) [
  | inl e ↦ rw e tt
  | inr e ↦ rw e (omega (arith, length-append xs (zeros (inline_separator_len - length xs))))
]

from_list-IsStored : (list : List (List ℕ)) → IsStored (from_list list)
unfolding from_list
from_list-IsStored [] = tt
from_list-IsStored (x ∷ []) = single-IsStored x
from_list-IsStored (x ∷ y ∷ rest) = tt

abbrev head? : List (List ℕ) → Option (List ℕ)
head? [] = none
head? (x ∷ xs) = some x

shortest_lem : (s : Separators) → shortest s ≡ head? (to_list s)
unfolding shortest
shortest_lem (inline bytes len) = refl
shortest_lem (heap []) = refl
shortest_lem (heap (x ∷ xs)) = refl

longest_len_lem : (s : Separators) → IsStored s → longest_len s ≡ last_len (to_list s)
unfolding longest_len
longest_len_lem (inline bytes len) h = omega (arith, length-take len bytes)
longest_len_lem (heap list) h = refl

to_list-sort : (s : Separators) → to_list (sort_by_length s) ≡ sort_by_key_length (to_list s)
unfolding sort_by_length sort_by_key_length insert_by_length
to_list-sort (inline bytes len) = refl
to_list-sort (heap list) = refl

sort-IsStored : (s : Separators) → IsStored s → IsStored (sort_by_length s)
unfolding sort_by_length
sort-IsStored (inline bytes len) h = h
sort-IsStored (heap list) h = tt

-- What a search state knows of its separators: none is empty, and the two lengths bound them.
pub record IsReady (st : UntilReadState) : Type 0 where
  pub positive : 0 < st.min_seplen
  pub bounds :
      All (λ s. (st.min_seplen ≤ length s) × (length s ≤ st.max_seplen)) (to_list st.separators)
  pub sorted : IsSorted (to_list st.separators)
  pub some_separator : 0 < st.max_seplen

-- What `new` makes of a list of separators.
pub data IsNew (list : List (List ℕ)) (line_mode : Bool)
    : Result UntilReadState SeparatorError → Type 0 where
  none_given : list ≡ [] → IsNew list line_mode (err no_separator)
  empty_given : Mem [] list → IsNew list line_mode (err empty_separator)
  ready :
      (st : UntilReadState)
      → IsReady st
      → st.offset ≡ 0
      → st.line_mode ≡ line_mode
      → Perm (to_list st.separators) list
      → IsNew list line_mode (ok st)

suc-ne-zero : (n : ℕ) → (suc n == 0) ≡ false
suc-ne-zero n = ground arith

both_bounds :
    (first : List ℕ) (rest : List (List ℕ))
    → IsSorted (first ∷ rest)
    → All (λ s. (length first ≤ length s) × (length s ≤ last_len (first ∷ rest))) (first ∷ rest)
both_bounds first rest o =
    All-map₂ (λ s. length first ≤ length s) (λ s. length s ≤ last_len (first ∷ rest)) _
      (λ s p q. (p, q)) (first ∷ rest) (omega arith, o.0) (last_len-max (first ∷ rest) o)

started-IsNew :
    (list : List (List ℕ)) (line_mode : Bool) (s : Separators) (first : List ℕ)
    (rest : List (List ℕ))
    → IsStored s
    → to_list s ≡ first ∷ rest
    → IsSorted (first ∷ rest)
    → Perm (first ∷ rest) list
    → IsNew list line_mode (started s line_mode first)
unfolding started
started-IsNew list line_mode s [] rest st e o p = empty_given ((Perm.mem_iff p).0 mem-cons_self)
started-IsNew list line_mode s (b ∷ bs) rest st e o p = rw (suc-ne-zero (length bs)) (
    ready
      (record {
        separators = s;
        min_seplen = length (b ∷ bs);
        max_seplen = longest_len s;
        offset = 0;
        line_mode = line_mode;
      })
      (record {
        positive = omega arith;
        bounds = rw (longest_len_lem s st, e) (both_bounds (b ∷ bs) rest o);
        sorted = rw e o;
        some_separator =
            rw (longest_len_lem s st, e) (omega (arith, (last_len-max ((b ∷ bs) ∷ rest) o).0));
      })
      refl refl (rw e p))

IsNew-of_sorted :
    (list : List (List ℕ)) (line_mode : Bool) (s : Separators) (xs : List (List ℕ))
    → IsStored s
    → to_list s ≡ xs
    → IsSorted xs
    → Perm xs list
    → IsNew list line_mode
        (elim (shortest s) [ none ↦ err no_separator | some first ↦ started s line_mode first ])
IsNew-of_sorted list line_mode s [] st e o p =
    rw (shortest_lem s ∙ ap head? e) (none_given (sym (Perm.nil-eq p)))
IsNew-of_sorted list line_mode s (first ∷ rest) st e o p =
    rw (shortest_lem s ∙ ap head? e) (started-IsNew list line_mode s first rest st e o p)

-- `new` refuses an empty list and a list with an empty separator, and otherwise starts a search at
-- offset 0 for exactly the given separators, shortest first.
pub new-IsNew :
    (list : List (List ℕ)) (line_mode : Bool)
    → IsNew list line_mode (new (from_list list) line_mode)
unfolding new
new-IsNew list line_mode =
    IsNew-of_sorted list line_mode (sort_by_length (from_list list)) (sort_by_key_length list)
      (sort-IsStored (from_list list) (from_list-IsStored list))
      (to_list-sort (from_list list) ∙ ap sort_by_key_length (to_list-from_list list))
      (sort-IsSorted list) (sort-perm list)
