-- ===== src/Timers/Permutations.antt =====
-- What the entries of a queue keep in any order.
use mathlib.Core.List.{Perm, Permᴰ, perm_middle}
use mathlib.Core.List.Perm
use mathlib.Core.Logic.{∥∥₁_elim}
use native.Mathlib.Nat.{ℕ_set}
use native.Mathlib.Bridge.{le_prop}
use rsloop.Common.{
  ℕ, suc, ◌≤◌, ◌≡◌, refl, ap, ◌∙◌, subst, inl, inr, arith, List, [], ◌∷◌, ◌++◌, All, length,
  Bool-cases,
}
use rsloop.Timers.{TimerEntry, is_cancelled}
use rsloop.Timers.Order.{Before}
use rsloop.Timers.Tombstones.{weight, weights, live, dead}

both_prop : {a b c d : ℕ} → IsProp ((a ≡ b) × (c ≤ d))
both_prop {a} {b} h k = λ i. (ℕ_set a b h.0 k.0 i, le_prop h.1 k.1 i)

pub Before-prop : (a b : TimerEntry) → IsProp (Before a b)
unfolding Before
Before-prop a b (inl h) (inl k) = ap inl (le_prop h k)
Before-prop a b (inl h) (inr k) = absurd (omega (arith, k.0))
Before-prop a b (inr h) (inl k) = absurd (omega (arith, h.0))
Before-prop a b (inr h) (inr k) = ap inr (both_prop h k)

All-prop {ℓ κ} :
    {A : Type ℓ} (P : A → Type κ) → ((a : A) → IsProp (P a)) → (xs : List A) → IsProp (All P xs)
All-prop P p [] h k = refl
All-prop P p (x ∷ xs) h k = λ i. (p x h.0 k.0 i, All-prop P p xs h.1 k.1 i)

All-Permᴰ {ℓ κ} : {A : Type ℓ} (P : A → Type κ) {xs ys : List A} → Permᴰ xs ys → All P xs → All P ys
All-Permᴰ P Permᴰ.nil h = tt
All-Permᴰ P (Permᴰ.cons e p) h = (subst P e h.0, All-Permᴰ P p h.1)
All-Permᴰ P (Permᴰ.swap e f) h = (subst P f h.1.0, (subst P e h.0, h.1.1))
All-Permᴰ P (Permᴰ.trans p q) h = All-Permᴰ P q (All-Permᴰ P p h)

-- A property that each entry has in one way is that of the entries in any order.
pub All-perm {ℓ κ} :
    {A : Type ℓ} (P : A → Type κ)
    → ((a : A) → IsProp (P a))
    → {xs ys : List A} → Perm xs ys
    → All P xs
    → All P ys
All-perm P p {ys} r h = ∥∥₁_elim r (All-prop P p ys) (λ d. All-Permᴰ P d h)

weights-Permᴰ : {xs ys : List TimerEntry} → Permᴰ xs ys → weights xs ≡ weights ys
weights-Permᴰ Permᴰ.nil = refl
weights-Permᴰ (Permᴰ.cons e p) =
    let k = ap (λ (x : TimerEntry). weight x.callback) e in omega (arith, k, weights-Permᴰ p)
weights-Permᴰ (Permᴰ.swap e f) =
    let k = ap (λ (x : TimerEntry). weight x.callback) e in
    let j = ap (λ (x : TimerEntry). weight x.callback) f in omega (arith, k, j)
weights-Permᴰ (Permᴰ.trans p q) = weights-Permᴰ p ∙ weights-Permᴰ q

pub weights-perm : {xs ys : List TimerEntry} → Perm xs ys → weights xs ≡ weights ys
weights-perm p = ∥∥₁_elim p (ℕ_set _ _) weights-Permᴰ

length-Permᴰ {ℓ} : {A : Type ℓ} {xs ys : List A} → Permᴰ xs ys → length xs ≡ length ys
length-Permᴰ Permᴰ.nil = refl
length-Permᴰ (Permᴰ.cons e p) = ap suc (length-Permᴰ p)
length-Permᴰ (Permᴰ.swap e f) = refl
length-Permᴰ (Permᴰ.trans p q) = length-Permᴰ p ∙ length-Permᴰ q

pub length-perm {ℓ} : {A : Type ℓ} {xs ys : List A} → Perm xs ys → length xs ≡ length ys
length-perm p = ∥∥₁_elim p (ℕ_set _ _) length-Permᴰ

-- Two parts in front of a third change places.
pub exchange {ℓ} : {A : Type ℓ} (xs ys zs : List A) → Perm (xs ++ (ys ++ zs)) (ys ++ (xs ++ zs))
exchange xs [] zs = Perm.refl (xs ++ zs)
exchange xs (y ∷ ys) zs =
    Perm.trans (perm_middle {a = y} xs (ys ++ zs)) (Perm.cons y (exchange xs ys zs))

pub live-perm : (es : List TimerEntry) → Perm (dead es ++ live es) es
live-perm [] = Perm.refl []
live-perm (e ∷ es) = elim (Bool-cases (is_cancelled e.callback)) [
  | inl h ↦ rw h (Perm.cons e (live-perm es))
  | inr h ↦ rw h (Perm.trans (perm_middle {a = e} (dead es) (live es)) (Perm.cons e (live-perm es)))
]
