-- ===== src/Tests/Naive.antt =====
-- A left-to-right substring search, which stands for the `memchr` crate in the examples.
use mathlib.Core.Option
use rsloop.Common.{
  ℕ, zero, suc, ◌<◌, ◌≡◌, ◌∙◌, ap, false, List, [], ◌∷◌, Option, none, some, if◌then◌else◌, arith,
  Bool-cases, inl, inr, drop-nil,
}
use rsloop.Separator.{Memchr, IsFirst, starts_with, occurs}

unfoldable pub find_naive : List ℕ → List ℕ → Option ℕ
find_naive needle [] = if starts_with needle [] then some 0 else none
find_naive needle (x ∷ xs) =
    let rest = find_naive needle xs in
    if starts_with needle (x ∷ xs) then some 0 else Option.map suc rest

nowhere_in_nil :
    (needle : List ℕ) → starts_with needle [] ≡ false → (j : ℕ) → occurs needle [] j ≡ false
nowhere_in_nil needle e j = ap (starts_with needle) (drop-nil j) ∙ e

one_further :
    (needle : List ℕ) (x : ℕ) (xs : List ℕ) (r : Option ℕ)
    → starts_with needle (x ∷ xs) ≡ false
    → IsFirst needle xs r
    → IsFirst needle (x ∷ xs) (Option.map suc r)
one_further needle x xs none e h = λ j. go j
  where
    go : (j : ℕ) → occurs needle (x ∷ xs) j ≡ false
    go zero = e
    go (suc j) = h j
one_further needle x xs (some i) e h = (h.0, λ j p. go j p)
  where
    go : (j : ℕ) → j < suc i → occurs needle (x ∷ xs) j ≡ false
    go zero p = e
    go (suc j) p = h.1 j (omega arith)

pub find_naive-IsFirst : (needle hay : List ℕ) → IsFirst needle hay (find_naive needle hay)
unfolding find_naive
find_naive-IsFirst needle [] = elim (Bool-cases (starts_with needle [])) [
  | inl e ↦ rw e (e, λ j p. absurd (omega arith))
  | inr e ↦ rw e (nowhere_in_nil needle e)
]
find_naive-IsFirst needle (x ∷ xs) = elim (Bool-cases (starts_with needle (x ∷ xs))) [
  | inl e ↦ rw e (e, λ j p. absurd (omega arith))
  | inr e ↦ rw e (one_further needle x xs _ e (find_naive-IsFirst needle xs))
]

abbrev pub naive : Memchr
naive = record {
  memchr = λ byte hay. find_naive (byte ∷ []) hay;
  memmem = λ hay needle. find_naive needle hay;
  memchr_first = λ byte hay. find_naive-IsFirst (byte ∷ []) hay;
  memmem_first = λ hay needle. find_naive-IsFirst needle hay;
}
