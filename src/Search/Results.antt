-- ===== src/Search/Results.antt =====
-- The filter of the results page: SearchResults.Search of search/search.js. `lower` is toLowerCase,
-- whose table for characters beyond ASCII is not part of the repository.
pub mod Laws
pub mod Entries
use ta_ref.Prelude.{
  ℕ, suc, ◌+◌, ◌≤◌, Bool, true, false, ◌&&◌, List, [], ◌∷◌, leb, ◌==◌, if◌then◌else◌, length, take,
}
use ta_ref.Text.{Str, codes, eq_str, strip_leading, strip_trailing}
use ta_ref.Text.Escape.{unescape}
use ta_ref.Search.Id.{convert_to_id}

-- element.style.display; `unset` is the empty string that an element starts with
pub data Display : Type 0 where
  unset block hidden : Display

-- A div of the page: what Search reads and writes of it.
pub record Div : Type 0 where
  pub class_name : Str
  pub id : Str
  pub display : Display

pub record Page : Type 0 where
  pub divs : List Div  -- getElementsByTagName("div"), in document order
  pub searching : Display
  pub no_matches : Display
  pub last_match_count : ℕ

abbrev is_digit : ℕ → Bool
is_digit c = leb b'0' c && leb c b'9'

-- What is left of s.replace(/^sr\d*_/, '') behind `sr`; `whole` is the text to keep if there is no match.
strip_number : Str → Str → Str
strip_number whole [] = whole
strip_number whole (c ∷ s) =
    let rest = strip_number whole s in if is_digit c then rest else if c == b'_' then s else whole

unfoldable pub strip_sr : Str → Str
unfolding strip_number
strip_sr (c ∷ d ∷ s) = if c == b's' && d == b'r' then strip_number (c ∷ d ∷ s) s else c ∷ d ∷ s
strip_sr (c ∷ []) = c ∷ []
strip_sr [] = []

abbrev pub is_result : Div → Bool
is_result row = eq_str row.class_name (codes "SRResult")

module _ (lower : Str → Str) where
  -- The test of a row: search.length<=rowMatchName.length && rowMatchName.substr(0, search.length)==search
  unfoldable pub row_matches : Str → Div → Bool
  unfolding strip_sr
  row_matches search row =
      let name = strip_sr (lower row.id) in
      leb (length search) (length name) && eq_str (take (length search) name) search

  -- One round of the loop over the rows.
  filter_row : Str → Div → Div
  filter_row search row =
      if is_result row
      then record row { display = if row_matches search row then block else hidden }
      else row

  filter_rows : Str → List Div → List Div
  filter_rows search [] = []
  filter_rows search (row ∷ rows) = filter_row search row ∷ filter_rows search rows

  -- The count that the same loop keeps.
  count_matches : Str → List Div → ℕ
  count_matches search [] = 0
  count_matches search (row ∷ rows) =
      let rest = count_matches search rows in
      if is_result row && row_matches search row then suc rest else rest

  -- The text that is looked for: the argument, or the query of the URL, without its `?`, where there is
  -- none.
  unfoldable pub search_text : Str → Str → Str
  unfolding strip_leading strip_trailing unescape
  search_text [] query = convert_to_id (lower (strip_trailing (strip_leading (unescape query))))
  search_text (c ∷ search) query =
      convert_to_id (lower (strip_trailing (strip_leading (c ∷ search))))

  unfoldable pub search_page : Str → Str → Page → Page
  unfolding filter_rows filter_row count_matches search_text row_matches
  search_page search query page =
      let text = search_text search query in
      let matches = count_matches text page.divs in
      record {
        divs = filter_rows text page.divs;
        searching = hidden;
        no_matches = if matches == 0 then block else hidden;
        last_match_count = matches;
      }
