-- ===== src/Separator/Best.antt =====
-- The match that a scan prefers: the one that ends first, and among those that end together the one
-- of the separator that comes first.
use rsloop.Common.{
  ℕ, suc, ◌+◌, ◌≤◌, ◌<◌, ◌≡◌, refl, ap, ◌∙◌, subst, true, false, List, [], ◌∷◌, ◌++◌, Option, none,
  some, length, arith, All, All-append, All-map, append_assoc, append-nil, Bool-cases, inl, inr,
  ltb, ltb→lt,
}
use native.Mathlib.Decide.{dec_le}
use rsloop.Separator.{
  Memchr, occurs, consider_match, consider, consider_all, separator_match_replaces,
}
use rsloop.Separator.Find.{IsFirstFrom, find_from-IsFirstFrom}

-- No occurrence at or behind `start`.
abbrev pub Absent : ℕ → List ℕ → List ℕ → Type 0
Absent start buffer sep = (j : ℕ) → start ≤ j → occurs sep buffer j ≡ false

-- Every occurrence at or behind `start` ends at `e` or later.
abbrev pub EndsFrom : ℕ → List ℕ → ℕ → List ℕ → Type 0
EndsFrom start buffer e sep = (j : ℕ) → start ≤ j → occurs sep buffer j ≡ true → e ≤ j + length sep

-- `best` is the preferred match of the separators at or behind `start`.
abbrev pub IsBest : ℕ → List ℕ → List (List ℕ) → Option (ℕ × ℕ) → Type 0
IsBest start buffer seps none = All (Absent start buffer) seps
IsBest start buffer seps (some (s, e)) =
    (before : List (List ℕ)) × (sep : List ℕ) × (after : List (List ℕ)) × (seps
      ≡ before ++ (sep ∷ after))
    × (start ≤ s)
    × (occurs sep buffer s ≡ true)
    × (e ≡ s + length sep)
    × All (EndsFrom start buffer (suc e)) before
    × All (EndsFrom start buffer e) (sep ∷ after)

module _ (start : ℕ) (buffer : List ℕ) where
  EndsFrom-of_Absent :
      (e : ℕ) (sep : List ℕ) → Absent start buffer sep → EndsFrom start buffer e sep
  EndsFrom-of_Absent e sep h j p q = absurd (cc (h j p))

  EndsFrom-of_first :
      (sep : List ℕ) (i : ℕ)
      → IsFirstFrom start sep buffer (some i)
      → EndsFrom start buffer (i + length sep) sep
  EndsFrom-of_first sep i h j p q = elim (dec_le i j) [
    | yes le ↦ omega arith
    | no gt ↦ absurd (cc (h.2 j p (omega arith)))
  ]

  keeps :
      (done : List (List ℕ)) (x : List ℕ) (s e : ℕ)
      → IsBest start buffer done (some (s, e))
      → EndsFrom start buffer e x
      → IsBest start buffer (done ++ (x ∷ [])) (some (s, e))
  keeps done x s e (before, sep, after, eq, p, o, l, b, a) h = (
    before,
    sep,
    after ++ (x ∷ []),
    ap (λ zs. zs ++ (x ∷ [])) eq ∙ append_assoc before (sep ∷ after) (x ∷ []),
    p,
    o,
    l,
    b,
    (a.0, All-append (EndsFrom start buffer e) after (x ∷ []) a.1 (h, tt)),
  )

  takes :
      (done : List (List ℕ)) (x : List ℕ) (i : ℕ)
      → IsFirstFrom start x buffer (some i)
      → All (EndsFrom start buffer (suc (i + length x))) done
      → IsBest start buffer (done ++ (x ∷ [])) (some (i, i + length x))
  takes done x i h all = (done, x, [], refl, h.0, h.1, refl, all, (EndsFrom-of_first x i h, tt))

  weaken :
      (d e : ℕ) (sep : List ℕ) → d ≤ e → EndsFrom start buffer e sep → EndsFrom start buffer d sep
  weaken d e sep le h j p q = omega (arith, h j p q)

  consider_match-IsBest :
      (done : List (List ℕ)) (x : List ℕ) (best : Option (ℕ × ℕ)) (r : Option ℕ)
      → IsBest start buffer done best
      → IsFirstFrom start x buffer r
      → IsBest start buffer (done ++ (x ∷ [])) (consider_match best (length x) r)
  unfolding consider_match separator_match_replaces
  consider_match-IsBest done x none none b f =
      All-append (Absent start buffer) done (x ∷ []) b (f, tt)
  consider_match-IsBest done x (some (s, e)) none b f =
      keeps done x s e b (EndsFrom-of_Absent e x f)
  consider_match-IsBest done x none (some i) b f =
      takes done x i f (All-map _ _ (λ sep. EndsFrom-of_Absent (suc (i + length x)) sep) done b)
  consider_match-IsBest done x (some (s, e)) (some i) b f =
      elim (Bool-cases (ltb (i + length x) e)) [
        | inl lt ↦ rw lt (takes done x i f (closer done s e (i + length x) b (ltb→lt _ _ lt)))
        | inr ge ↦ rw ge (
            keeps done x s e b (weaken e (i + length x) x (ground arith) (EndsFrom-of_first x i f)))
      ]
    where
      closer :
          (seps : List (List ℕ)) (s e k : ℕ)
          → IsBest start buffer seps (some (s, e))
          → k < e
          → All (EndsFrom start buffer (suc k)) seps
      closer seps s e k (before, sep, after, eq, p, o, l, bs, a) lt = rw eq (
          All-append (EndsFrom start buffer (suc k)) before (sep ∷ after)
            (All-map _ _ (λ z. weaken (suc k) (suc e) z (omega arith)) before bs)
            (All-map _ _ (λ z. weaken (suc k) e z lt) (sep ∷ after) a))

module _ (m : Memchr) (start : ℕ) (buffer : List ℕ) where
  consider_all-go :
      (done todo : List (List ℕ)) (best : Option (ℕ × ℕ))
      → All (λ sep. 0 < length sep) todo
      → IsBest start buffer done best
      → IsBest start buffer (done ++ todo) (consider_all m buffer start best todo)
  unfolding consider_all
  consider_all-go done [] best n b = rw (append-nil done) b
  consider_all-go done (x ∷ todo) best n b =
      subst (λ zs. IsBest start buffer zs (consider_all m buffer start best (x ∷ todo)))
        (append_assoc done (x ∷ []) todo)
        (consider_all-go (done ++ (x ∷ [])) todo (consider m buffer start best x) n.1 (
          consider_match-IsBest start buffer done x best _ b
            (find_from-IsFirstFrom m x buffer start n.0)))

  -- Of separators that are not empty, the loop finds the match at or behind `start` that ends
  -- first, and of those that end together that of the separator that comes first; it finds none
  -- exactly where none of them stands there.
  pub consider_all-IsBest :
      (seps : List (List ℕ))
      → All (λ sep. 0 < length sep) seps
      → IsBest start buffer seps (consider_all m buffer start none seps)
  consider_all-IsBest seps n = consider_all-go [] seps none n tt
