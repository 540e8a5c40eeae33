-- ===== src/Search/Box/Search.antt =====
-- SearchBox.Search of search/search.js. `lower` is toLowerCase, and `gt_one` the comparison
-- `searchValue > 1` of a text with a number, which reads the text as a number.
use ta_ref.Prelude.{
  Bool, false, ◌&&◌, List, [], ◌∷◌, ◌++◌, Option, none, some, if◌then◌else◌, get_elem?, leb, take,
}
use ta_ref.Prelude.Int.{pos, ◌+ℤ◌, ◌-ℤ◌, ltb_ℤ}
use ta_ref.Text.{Str, codes, strip_leading, to_hex, index_of_text}
use ta_ref.Text.Escape.{escape}
use ta_ref.Search.Results.{block}
use ta_ref.Search.Box.{Config, extension_of, Layout, Position, Panel, get_pos}

-- indexSectionsWithContent and indexSectionNames of search/searchdata.js, by index.
pub record Section : Type 0 where
  pub content : Str
  pub name : Str

-- The window of the results where it is opened: 150 to the right of the box less the width of the
-- popup, but 10 at least, and not beyond the body.
unfoldable pub place_results : Layout → Position
unfolding get_pos
place_results l =
    let left0 = get_pos l.box_width l.box_left +ℤ pos 150 -ℤ pos l.popup_width in
    let left = if ltb_ℤ left0 (pos 10) then pos 10 else left0 in
    let width =
      if ltb_ℤ (pos l.body_width) (pos 400 +ℤ left +ℤ pos 8)
      then pos l.body_width -ℤ left -ℤ pos 8
      else pos 400 in
    record { top = get_pos l.box_width l.box_top +ℤ pos 20; left = left; width = width }

unfoldable pub show_results : Layout → Panel → Panel
unfolding place_results
show_results l p = elim p.results_display [
  | block ↦ p
  | _ ↦ record p {
    close_display = block;
    results_display = block;
    results_position = place_results l;
  }
]

module _ (lower : Str → Str) (gt_one : Str → Bool) where
  -- searchValue.toLowerCase().charCodeAt(0), where it is a number, in the range of the first halves
  -- of surrogate pairs
  abbrev pub is_surrogate : Str → Bool
  is_surrogate [] = false
  is_surrogate (code ∷ s) = leb 0xD800 code && leb code 0xDBFF

  -- idxChar
  unfoldable pub index_char : Str → Str
  index_char value =
      if is_surrogate (lower value) && gt_one value then take 2 value else lower (take 1 value)

  -- The page of results for a section: its name, and the place of the character in its content.
  unfoldable pub results_page : Config → Section → Str → Option Str
  unfolding index_char index_of_text to_hex
  results_page c section value = elim (index_of_text (index_char value) section.content) [
    | none ↦ none
    | some idx ↦
        some (c.results_path ++ (b'/' ∷ (section.name ++ (b'_' ∷ (to_hex idx ++ extension_of c)))))
  ]

  -- resultsPage and resultsPageWithSearch
  abbrev pub opened : Config → Str → Option Str → Str × Str
  opened c value none =
      let page = c.results_path ++ (codes "/nomatches" ++ extension_of c) in (page, page)
  opened c value (some page) = (page, page ++ (b'?' ∷ escape value))

  -- Search in the section of the search index.
  unfoldable pub search_in : Config → Layout → Section → Panel → Panel
  unfolding results_page show_results escape strip_leading
  search_in c l section p =
      let value = strip_leading p.field_value in
      let (page, page_with_search) = opened c value (results_page c section value) in
      let q = show_results l (record p { key_timeout = 0; results_location = page_with_search }) in
      record q { last_search_value = value; last_results_page = page }

  abbrev pub at_section : Config → Layout → Panel → Option Section → Option Panel
  at_section c l p none = none
  at_section c l p (some section) = some (search_in c l section p)

  -- Search; none is the TypeError of a search index for which there is no section.
  unfoldable pub search : Config → Layout → List Section → Panel → Option Panel
  unfolding search_in
  search c l sections p = at_section c l p (get_elem? sections p.search_index)
