-- ===== src/Tests/Search.antt =====
-- Examples for the separator search.
use rsloop.Common.{ℕ, false, List, [], ◌∷◌, none, arith}
use rsloop.Separator.{UntilReadState, heap, find_from, consider_all, scan, new, from_list}
use rsloop.Separator.Find.{IsFirstFrom, find_from-IsFirstFrom}
use rsloop.Separator.Best.{IsBest, consider_all-IsBest}
use rsloop.Separator.Order.{IsNew, new-IsNew}
use rsloop.Separator.Scan.{IsSearch, IsScan, scan-IsScan}
use rsloop.Tests.Naive.{naive}

-- `\r\n`, and a line that has it
abbrev crlf : List ℕ
crlf = 13 ∷ 10 ∷ []

abbrev text : List ℕ
text = 97 ∷ 13 ∷ 10 ∷ 98 ∷ 13 ∷ 10 ∷ []

find_from-IsFirstFrom_example : IsFirstFrom 2 crlf text (find_from naive text crlf 2)
find_from-IsFirstFrom_example = find_from-IsFirstFrom naive crlf text 2 (omega arith)

-- `b` and `\r\n`, the shorter one first
abbrev line_ends : List (List ℕ)
line_ends = (98 ∷ []) ∷ crlf ∷ []

consider_all-IsBest_example : IsBest 0 text line_ends (consider_all naive text 0 none line_ends)
consider_all-IsBest_example =
    consider_all-IsBest naive 0 text line_ends (omega arith, (omega arith, tt))

new-IsNew_example :
    IsNew (crlf ∷ (98 ∷ []) ∷ []) false (new (from_list (crlf ∷ (98 ∷ []) ∷ [])) false)
new-IsNew_example = new-IsNew (crlf ∷ (98 ∷ []) ∷ []) false

abbrev search_state : UntilReadState
search_state = record {
  separators = heap line_ends;
  min_seplen = 1;
  max_seplen = 2;
  offset = 0;
  line_mode = false;
}

search_state-IsSearch : IsSearch 100 search_state text
search_state-IsSearch = record {
  is_ready = record {
    positive = omega arith;
    bounds = ((omega arith, omega arith), ((omega arith, omega arith), tt));
    sorted = ((omega arith, tt), (tt, tt));
    some_separator = omega arith;
  };
  clear = λ more. ((λ j p. absurd (omega arith)), ((λ j p. absurd (omega arith)), tt));
  offset_le = omega arith;
}

scan-IsScan_example : IsScan search_state text 100 (scan naive search_state text 100)
scan-IsScan_example = scan-IsScan naive 100 search_state text search_state-IsSearch
