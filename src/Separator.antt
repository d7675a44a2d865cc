-- ===== src/Separator.antt =====
-- src/transport/stream/fast.rs, the separator search of `readuntil` and `readline`: `find_from`,
-- `Separators`, `UntilReadState` and its `scan`. The substring searches of the `memchr` crate are
-- parameters. Lengths are those of vectors, so `buflen + 1` does not wrap.
pub mod Find
pub mod Order
pub mod Best
pub mod Scan
use mathlib.Core.Option
use rsloop.Common.{
  ℕ, zero, suc, ◌+◌, ◌-◌, ◌≤◌, ◌<◌, ◌≡◌, Bool, true, false, ◌&&◌, List, [], ◌∷◌, ◌++◌, Option, none,
  some, length, take, drop, ltb, leb, ◌==◌, if◌then◌else◌, Result, ok, err,
}

-- `needle` stands at the front of `hay`.
abbrev pub starts_with : List ℕ → List ℕ → Bool
starts_with [] hay = true
starts_with (n ∷ ns) [] = false
starts_with (n ∷ ns) (h ∷ hs) = n == h && starts_with ns hs

-- `needle` stands at index `i` of `hay`.
abbrev pub occurs : List ℕ → List ℕ → ℕ → Bool
occurs needle hay i = starts_with needle (drop i hay)

-- What the documentation of `memchr::memchr` and `memchr::memmem::find` says of a result: the first
-- index at which the needle stands, or none if it stands nowhere.
abbrev pub IsFirst : List ℕ → List ℕ → Option ℕ → Type 0
IsFirst needle hay none = (j : ℕ) → occurs needle hay j ≡ false
IsFirst needle hay (some i) =
    (occurs needle hay i ≡ true) × ((j : ℕ) → j < i → occurs needle hay j ≡ false)

-- The searches of the `memchr` crate.
pub record Memchr : Type 0 where
  pub memchr : ℕ → List ℕ → Option ℕ
  pub memmem : List ℕ → List ℕ → Option ℕ
  pub memchr_first : (byte : ℕ) (hay : List ℕ) → IsFirst (byte ∷ []) hay (memchr byte hay)
  pub memmem_first : (hay needle : List ℕ) → IsFirst needle hay (memmem hay needle)

pub data UntilScan : Type 0 where
  found : ℕ → ℕ → UntilScan
  need_more : UntilScan
  over_limit : ℕ → UntilScan

-- `UntilScan::is_pending`
unfoldable pub is_pending : UntilScan → Bool → Bool
is_pending need_more true = false
is_pending need_more false = true
is_pending (found s e) eof = false
is_pending (over_limit c) eof = false

-- `INLINE_SEPARATOR_LEN`
abbrev pub inline_separator_len : ℕ
inline_separator_len = 8

-- An inline separator is an array of `inline_separator_len` bytes of which `len` count.
pub data Separators : Type 0 where
  inline : List ℕ → ℕ → Separators
  heap : List (List ℕ) → Separators

abbrev zeros : ℕ → List ℕ
zeros zero = []
zeros (suc n) = 0 ∷ zeros n

-- `Separators::single`
unfoldable pub single : List ℕ → Separators
single bytes =
    if ltb inline_separator_len (length bytes)
    then heap (bytes ∷ [])
    else inline (bytes ++ zeros (inline_separator_len - length bytes)) (length bytes)

-- `Separators::from_list`
unfoldable pub from_list : List (List ℕ) → Separators
unfolding single
from_list [] = heap []
from_list (only ∷ []) = single only
from_list (x ∷ y ∷ rest) = heap (x ∷ y ∷ rest)

-- The stable sort by length: an item goes before those that are as long and stood behind it.
insert_by_length : List ℕ → List (List ℕ) → List (List ℕ)
insert_by_length x [] = x ∷ []
insert_by_length x (y ∷ ys) =
    if ltb (length y) (length x) then y ∷ insert_by_length x ys else x ∷ y ∷ ys

unfoldable pub sort_by_key_length : List (List ℕ) → List (List ℕ)
unfolding insert_by_length
sort_by_key_length [] = []
sort_by_key_length (x ∷ xs) = insert_by_length x (sort_by_key_length xs)

-- `Separators::sort_by_length`
unfoldable pub sort_by_length : Separators → Separators
sort_by_length (heap list) = heap (sort_by_key_length list)
sort_by_length (inline bytes len) = inline bytes len

-- `Separators::shortest`
unfoldable pub shortest : Separators → Option (List ℕ)
shortest (inline bytes len) = some (take len bytes)
shortest (heap []) = none
shortest (heap (x ∷ xs)) = some x

last_len : List (List ℕ) → ℕ
last_len [] = 0
last_len (x ∷ []) = length x
last_len (x ∷ y ∷ rest) = last_len (y ∷ rest)

-- `Separators::longest_len`
unfoldable pub longest_len : Separators → ℕ
unfolding last_len
longest_len (inline bytes len) = len
longest_len (heap list) = last_len list

-- the separators that a scan considers, in order
abbrev pub to_list : Separators → List (List ℕ)
to_list (inline bytes len) = take len bytes ∷ []
to_list (heap list) = list

-- `separator_match_replaces`
unfoldable pub separator_match_replaces : Option (ℕ × ℕ) → ℕ → Bool
separator_match_replaces none candidate_end = true
separator_match_replaces (some (s, best_end)) candidate_end = ltb candidate_end best_end

-- the part of `consider` behind its search
consider_match : Option (ℕ × ℕ) → ℕ → Option ℕ → Option (ℕ × ℕ)
unfolding separator_match_replaces
consider_match best len none = best
consider_match best len (some match_start) =
    if separator_match_replaces best (match_start + len)
    then some (match_start, match_start + len)
    else best

pub record UntilReadState : Type 0 where
  pub separators : Separators
  pub min_seplen : ℕ
  pub max_seplen : ℕ
  pub offset : ℕ
  pub line_mode : Bool

-- The two `ValueError`s of `UntilReadState::new`.
pub data SeparatorError : Type 0 where
  no_separator empty_separator : SeparatorError

started : Separators → Bool → List ℕ → Result UntilReadState SeparatorError
started separators line_mode first =
    if length first == 0
    then err empty_separator
    else ok (record {
      separators = separators;
      min_seplen = length first;
      max_seplen = longest_len separators;
      offset = 0;
      line_mode = line_mode;
    })

-- `UntilReadState::new`
unfoldable pub new : Separators → Bool → Result UntilReadState SeparatorError
unfolding started
new separators line_mode =
    let sorted = sort_by_length separators in
    elim (shortest sorted) [ none ↦ err no_separator | some first ↦ started sorted line_mode first ]

-- the part of `scan` behind its search
scan_result : UntilReadState → ℕ → ℕ → Option (ℕ × ℕ) → UntilScan × UntilReadState
scan_result st buflen limit (some (match_start, match_end)) = (found match_start match_end, st)
scan_result st buflen limit none =
    let next = buflen + 1 - st.max_seplen in
    (if ltb limit next then over_limit next else need_more, record st { offset = next })

module _ (m : Memchr) where
  search : List ℕ → List ℕ → Option ℕ
  search [] hay = some 0
  search (byte ∷ []) hay = m.memchr byte hay
  search (b ∷ c ∷ rest) hay = m.memmem hay (b ∷ c ∷ rest)

  -- `find_from`
  unfoldable pub find_from : List ℕ → List ℕ → ℕ → Option ℕ
  unfolding search
  find_from hay needle start =
      if ltb (length hay) start
      then none
      else Option.map (λ index. index + start) (search needle (drop start hay))

  -- the closure `consider` of `scan`
  consider : List ℕ → ℕ → Option (ℕ × ℕ) → List ℕ → Option (ℕ × ℕ)
  consider buffer offset best separator =
      consider_match best (length separator) (find_from buffer separator offset)

  -- its loop over the separators
  pub consider_all : List ℕ → ℕ → Option (ℕ × ℕ) → List (List ℕ) → Option (ℕ × ℕ)
  unfolding consider consider_match
  consider_all buffer offset best [] = best
  consider_all buffer offset best (s ∷ ss) =
      consider_all buffer offset (consider buffer offset best s) ss

  -- `UntilReadState::scan`
  unfoldable pub scan : UntilReadState → List ℕ → ℕ → UntilScan × UntilReadState
  unfolding consider_all scan_result
  scan st buffer limit =
      if ltb (length buffer - st.offset) st.min_seplen
      then (need_more, st)
      else scan_result st (length buffer) limit
          (consider_all buffer st.offset none (to_list st.separators))
