-- ===== src/Separator/Find.antt =====
-- `find_from` finds the first occurrence at or behind its start.
use mathlib.Core.Option
use rsloop.Common.{
  ℕ, ◌+◌, ◌-◌, ◌≤◌, ◌<◌, ◌≡◌, refl, sym, ap, ◌∙◌, true, false, List, [], ◌∷◌, ◌++◌, Option, none,
  some, length, drop, drop-drop, length-drop, ltb, arith, Bool-cases, inl, inr, drop-append, ltb→lt,
}
use rsloop.Separator.{Memchr, IsFirst, occurs, starts_with, find_from, search}

-- The first occurrence at or behind `start`.
abbrev pub IsFirstFrom : ℕ → List ℕ → List ℕ → Option ℕ → Type 0
IsFirstFrom start needle hay none = (j : ℕ) → start ≤ j → occurs needle hay j ≡ false
IsFirstFrom start needle hay (some i) =
    (start ≤ i)
    × (occurs needle hay i ≡ true)
    × ((j : ℕ) → start ≤ j → j < i → occurs needle hay j ≡ false)

-- What stands at the front is no longer than the text, and stays where the text is extended.
pub starts_with-length :
    (needle hay : List ℕ) → starts_with needle hay ≡ true → length needle ≤ length hay
starts_with-length [] hay e = omega arith
starts_with-length (n ∷ ns) [] e = absurd (ground arith)
starts_with-length (n ∷ ns) (h ∷ hs) e = ground (arith, starts_with-length ns hs)

pub starts_with-append :
    (needle hay more : List ℕ)
    → length needle ≤ length hay
    → starts_with needle (hay ++ more) ≡ starts_with needle hay
starts_with-append [] hay more h = refl
starts_with-append (n ∷ ns) [] more h = absurd (omega arith)
starts_with-append (n ∷ ns) (x ∷ hs) more h = ground (arith, starts_with-append ns hs more)

-- An occurrence of a needle that is not empty ends within the text.
pub occurs-bound :
    (needle hay : List ℕ) (i : ℕ)
    → 0 < length needle
    → occurs needle hay i ≡ true
    → i + length needle ≤ length hay
occurs-bound needle hay i p e =
    omega (arith, starts_with-length needle (drop i hay) e, length-drop i hay)

pub not-occurs :
    (needle hay : List ℕ) (i : ℕ)
    → 0 < length needle
    → length hay < i + length needle
    → occurs needle hay i ≡ false
not-occurs needle hay i p h = elim (Bool-cases (occurs needle hay i)) [
  | inl e ↦ absurd (omega (arith, occurs-bound needle hay i p e))
  | inr e ↦ e
]

-- An occurrence counted from `start`.
occurs-drop :
    (needle hay : List ℕ) (start j : ℕ)
    → start ≤ j
    → occurs needle hay j ≡ occurs needle (drop start hay) (j - start)
occurs-drop needle hay start j h =
    ap (starts_with needle)
      (ap (λ k. drop k hay) (omega arith) ∙ sym (drop-drop (j - start) start hay))

-- More text behind does not change what stands within the text.
pub occurs-append :
    (needle hay more : List ℕ) (i : ℕ)
    → i + length needle ≤ length hay
    → occurs needle (hay ++ more) i ≡ occurs needle hay i
occurs-append needle hay more i h =
    rw (drop-append i hay more (omega arith))
      (starts_with-append needle (drop i hay) more (omega (arith, length-drop i hay)))

module _ (m : Memchr) where
  search-IsFirst : (needle hay : List ℕ) → IsFirst needle hay (search m needle hay)
  unfolding search
  search-IsFirst [] hay = (refl, λ j h. absurd (omega arith))
  search-IsFirst (b ∷ []) hay = m.memchr_first b hay
  search-IsFirst (b ∷ c ∷ rest) hay = m.memmem_first hay (b ∷ c ∷ rest)

  shifted :
      (needle hay : List ℕ) (start : ℕ) (r : Option ℕ)
      → IsFirst needle (drop start hay) r
      → IsFirstFrom start needle hay (Option.map (λ index. index + start) r)
  shifted needle hay start none h = λ j p. occurs-drop needle hay start j p ∙ h (j - start)
  shifted needle hay start (some i) h = (
    omega arith,
    occurs-drop needle hay start (i + start) (omega arith)
        ∙ ap (occurs needle (drop start hay)) (omega arith)
        ∙ h.0,
    λ j p q. occurs-drop needle hay start j p ∙ h.1 (j - start) (omega arith),
  )

  -- `find_from` returns the first occurrence at or behind `start` of a needle that is not empty,
  -- or none where there is none.
  pub find_from-IsFirstFrom :
      (needle hay : List ℕ) (start : ℕ)
      → 0 < length needle
      → IsFirstFrom start needle hay (find_from m hay needle start)
  unfolding find_from
  find_from-IsFirstFrom needle hay start p = elim (Bool-cases (ltb (length hay) start)) [
    | inl e ↦ rw e (λ j q. not-occurs needle hay j p (omega (arith, ltb→lt (length hay) start e)))
    | inr e ↦ rw e (shifted needle hay start _ (search-IsFirst needle (drop start hay)))
  ]
