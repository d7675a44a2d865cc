-- ===== src/Separator/Scan.antt =====
-- One pass of `readuntil` over the buffered bytes, and passes over a buffer that grows.
use rsloop.Common.{
  ℕ, suc, ◌+◌, ◌-◌, ◌≤◌, ◌<◌, ◌≡◌, refl, sym, ◌∙◌, subst, false, List, [], ◌∷◌, ◌++◌, Option, none,
  some, length, arith, All, All-map, All-map₂, All-split, append_assoc, append-nil, Bool-cases, inl,
  inr, ltb, ltb→lt,
}
use native.Mathlib.Decide.{dec_lt}
use rsloop.Separator.{
  Memchr, UntilScan, found, need_more, over_limit, UntilReadState, to_list, occurs, scan,
  scan_result,
}
use rsloop.Separator.Find.{occurs-append, not-occurs}
use rsloop.Separator.Best.{Absent, EndsFrom, IsBest, consider_all-IsBest}
use rsloop.Separator.Order.{IsReady}

-- No separator stands before `offset`.
abbrev pub ClearBefore : ℕ → List ℕ → List ℕ → Type 0
ClearBefore offset buffer sep = (j : ℕ) → j < offset → occurs sep buffer j ≡ false

-- What the offset of a search over `buffer` says, whatever is appended to the buffer.
abbrev pub IsClear : UntilReadState → List ℕ → Type 0
IsClear st buffer =
    (more : List ℕ) → All (ClearBefore st.offset (buffer ++ more)) (to_list st.separators)

-- A search in progress: the scan may start at its offset, which is within the limit.
pub record IsSearch (limit : ℕ) (st : UntilReadState) (buffer : List ℕ) : Type 0 where
  pub is_ready : IsReady st
  pub clear : IsClear st buffer
  pub offset_le : st.offset ≤ limit

-- No separator stands in the buffer, and the new state may go on where the old one stopped.
abbrev pub Missed : UntilReadState → List ℕ → UntilReadState → Type 0
Missed st buffer t =
    (t ≡ record st { offset = t.offset })
    × All (Absent 0 buffer) (to_list st.separators)
    × IsReady t
    × IsClear t buffer

-- What a pass reports.
abbrev pub IsScan : UntilReadState → List ℕ → ℕ → UntilScan × UntilReadState → Type 0
IsScan st buffer limit (found s e, t) =
    (t ≡ st) × IsBest 0 buffer (to_list st.separators) (some (s, e))
IsScan st buffer limit (need_more, t) = Missed st buffer t × (t.offset ≤ limit)
IsScan st buffer limit (over_limit c, t) =
    Missed st buffer t × (c ≡ t.offset) × (limit < c) × (c ≤ length buffer)

pub IsSearch-append :
    (limit : ℕ) (st : UntilReadState) (buffer more : List ℕ)
    → IsSearch limit st buffer
    → IsSearch limit st (buffer ++ more)
IsSearch-append limit st buffer more v = record {
  is_ready = v.is_ready;
  clear = λ rest.
      subst (λ b. All (ClearBefore st.offset b) (to_list st.separators))
        (sym (append_assoc buffer more rest)) (v.clear (more ++ rest));
  offset_le = v.offset_le;
}

module _ (st : UntilReadState) (buffer : List ℕ) where
  clear_here : IsClear st buffer → All (ClearBefore st.offset buffer) (to_list st.separators)
  clear_here c =
      subst (λ b. All (ClearBefore st.offset b) (to_list st.separators)) (append-nil buffer) (c [])

  Absent-all :
      (sep : List ℕ)
      → ClearBefore st.offset buffer sep
      → Absent st.offset buffer sep
      → Absent 0 buffer sep
  Absent-all sep c a j p = elim (dec_lt j st.offset) [ yes lt ↦ c j lt | no ge ↦ a j (omega arith) ]

  ends_all :
      (e : ℕ) (sep : List ℕ)
      → ClearBefore st.offset buffer sep
      → EndsFrom st.offset buffer e sep
      → EndsFrom 0 buffer e sep
  ends_all e sep c a j p o = elim (dec_lt j st.offset) [
    | yes lt ↦ absurd (cc (c j lt))
    | no ge ↦ a j (omega arith) o
  ]

  -- Where nothing stands before the offset, the preferred match behind it is that of the buffer.
  IsBest-zero :
      (seps : List (List ℕ)) (r : Option (ℕ × ℕ))
      → All (ClearBefore st.offset buffer) seps
      → IsBest st.offset buffer seps r
      → IsBest 0 buffer seps r
  IsBest-zero seps none c b = All-map₂ _ _ _ Absent-all seps c b
  IsBest-zero seps (some (s, e)) c (before, sep, after, eq, p, o, l, bs, a) =
      let split =
        All-split (ClearBefore st.offset buffer) before (sep ∷ after) (subst (All _) eq c) in
      (
        before,
        sep,
        after,
        eq,
        omega arith,
        o,
        l,
        All-map₂ _ _ _ (ends_all (suc e)) before split.0 bs,
        All-map₂ _ _ _ (ends_all e) (sep ∷ after) split.1 a,
      )

  -- Bytes appended behind cannot complete a separator before the next offset.
  next_clear :
      (sep : List ℕ)
      → (st.min_seplen ≤ length sep) × (length sep ≤ st.max_seplen)
      → Absent 0 buffer sep
      → (more : List ℕ) → ClearBefore (length buffer + 1 - st.max_seplen) (buffer ++ more) sep
  next_clear sep l a more j p = occurs-append sep buffer more j (omega arith) ∙ a j (omega arith)

  -- Too few bytes behind the offset hold no separator.
  short-Absent :
      (sep : List ℕ)
      → 0 < st.min_seplen
      → length buffer - st.offset < st.min_seplen
      → (st.min_seplen ≤ length sep) × (length sep ≤ st.max_seplen)
      → Absent st.offset buffer sep
  short-Absent sep pos few l j p = not-occurs sep buffer j (omega arith) (omega arith)

  scan_result-IsScan :
      (limit : ℕ) (r : Option (ℕ × ℕ))
      → IsReady st
      → IsBest 0 buffer (to_list st.separators) r
      → IsScan st buffer limit (scan_result st (length buffer) limit r)
  unfolding scan_result
  scan_result-IsScan limit (some (s, e)) r b = (refl, b)
  scan_result-IsScan limit none r b =
      let next = length buffer + 1 - st.max_seplen in
      let missed : Missed st buffer (record st { offset = next }) = (
        refl,
        b,
        record {
          positive = r.positive;
          bounds = r.bounds;
          sorted = r.sorted;
          some_separator = r.some_separator;
        },
        λ more.
            All-map₂ _ _ _ (λ sep l a. next_clear sep l a more) (to_list st.separators) r.bounds b,
      ) in
      elim (Bool-cases (ltb limit next)) [
        | inl over ↦ rw over (missed, refl, ltb→lt limit next over, omega arith)
        | inr fits ↦ rw fits (missed, ground arith)
      ]

module _ (m : Memchr) (limit : ℕ) (st : UntilReadState) (buffer : List ℕ) where
  -- A pass that starts at the offset of an earlier one misses nothing: it reports the match in the
  -- whole buffer that ends first (of those that end together, that of the separator that comes
  -- first), and otherwise the buffer holds no separator, and the search may go on from the new
  -- offset whatever is appended. An overrun is reported where that offset passes the limit, and
  -- lies within the buffer.
  pub scan-IsScan : IsSearch limit st buffer → IsScan st buffer limit (scan m st buffer limit)
  unfolding scan
  scan-IsScan v = elim (Bool-cases (ltb (length buffer - st.offset) st.min_seplen)) [
    | inl few ↦ rw few (
      (
        refl,
        All-map₂ _ _ _ (Absent-all st buffer) (to_list st.separators) (clear_here st buffer v.clear)
            (All-map _ _
              (λ sep l. short-Absent st buffer sep v.is_ready.positive (ltb→lt _ _ few) l)
              (to_list st.separators) v.is_ready.bounds),
        v.is_ready,
        v.clear,
      ),
      v.offset_le,
    )
    | inr many ↦ rw many (
        scan_result-IsScan st buffer limit _ v.is_ready (
          IsBest-zero st buffer (to_list st.separators) _ (clear_here st buffer v.clear) (
            consider_all-IsBest m st.offset buffer (to_list st.separators)
              (All-map _ _ (λ sep l. positive sep l) (to_list st.separators) v.is_ready.bounds))))
  ]
    where
      positive :
          (sep : List ℕ)
          → (st.min_seplen ≤ length sep) × (length sep ≤ st.max_seplen)
          → 0 < length sep
      positive sep l = omega (arith, v.is_ready.positive)
