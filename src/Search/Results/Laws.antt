-- ===== src/Search/Results/Laws.antt =====
-- What the filter of the results page shows.
use ta_ref.Prelude.{
  ℕ, suc, ◌≡◌, refl, ◌↔◌, Bool, ◌&&◌, List, [], ◌∷◌, leb, if◌then◌else◌, length, take, arith, map,
}
use ta_ref.Text.{Str, eq_str, is_prefix}
use ta_ref.Search.Results.{
  block, hidden, Div, Page, is_result, strip_sr, row_matches, filter_row, filter_rows,
  count_matches, search_text, search_page,
}

-- The test of lengths and the comparison of the cut text say: is a prefix.
pub take-is_prefix :
    (s t : Str) → (leb (length s) (length t) && eq_str (take (length s) t) s) ≡ is_prefix s t
unfolding eq_str is_prefix
take-is_prefix [] t = ground arith
take-is_prefix (c ∷ s) [] = ground arith
take-is_prefix (c ∷ s) (d ∷ t) = ground (arith, take-is_prefix s t)

-- The divs that the reader sees afterwards among the results.
abbrev pub shown_results : List Div → ℕ
shown_results [] = 0
shown_results (row ∷ rows) =
    if is_result row
    then (elim row.display [ block ↦ suc (shown_results rows) | _ ↦ shown_results rows ])
    else shown_results rows

module _ (lower : Str → Str) where
  abbrev pub is_shown : Str → Div → Bool
  is_shown text row = is_prefix text (strip_sr (lower row.id))

  pub row_matches-is_prefix :
      (text : Str) (row : Div) → row_matches lower text row ≡ is_shown text row
  unfolding row_matches
  row_matches-is_prefix text row = take-is_prefix text (strip_sr (lower row.id))

  abbrev pub display_row : Str → Div → Div
  display_row text row =
      if is_result row
      then record row { display = if is_shown text row then block else hidden }
      else row

  filter_rows-map :
      (text : Str) (rows : List Div) → filter_rows lower text rows ≡ map (display_row text) rows
  unfolding filter_rows filter_row
  filter_rows-map text [] = refl
  filter_rows-map text (row ∷ rows) = rw (row_matches-is_prefix text row, filter_rows-map text rows)

  count_matches-shown :
      (text : Str) (rows : List Div)
      → count_matches lower text rows ≡ shown_results (filter_rows lower text rows)
  unfolding count_matches filter_rows filter_row
  count_matches-shown text [] = refl
  count_matches-shown text (row ∷ rows) = ground (arith, count_matches-shown text rows)

  -- Search shows the result rows whose id, behind its number, begins with the text looked for, hides
  -- the other result rows, and leaves every other div as it is; lastMatchCount is the number of
  -- result rows that are shown, NoMatches is shown exactly when there is none, and Searching is
  -- hidden.
  pub search_page-shows :
      (search query : Str) (page : Page)
      → let text = search_text lower search query in
        let after = search_page lower search query page in
        (after.divs ≡ map (display_row text) page.divs)
        × (after.last_match_count ≡ shown_results after.divs)
        × ((after.no_matches ≡ block) ↔ (shown_results after.divs ≡ 0))
        × (after.searching ≡ hidden)
  unfolding search_page
  search_page-shows search query page =
      let text = search_text lower search query in
      let counted = count_matches-shown text page.divs in
      (filter_rows-map text page.divs, counted, (λ h. ground arith, λ h. ground arith), refl)
