-- ===== src/Search/Examples.antt =====
-- The theorems about the search panel at concrete pages, texts and keys.
use ta_ref.Prelude.{
  ℕ, Option, ◌+◌, ◌&&◌, leb, ◌↔◌, if◌then◌else◌, arith, some, none, map, List, get_elem?, ◌≡◌, refl,
  true, false, [], ◌∷◌,
}
use ta_ref.Text.{strip_leading, strip_trailing, eq_str, Str, codes, is_prefix}
use mathlib.Core.Option
use mathlib.Core.List.{map}
use ta_ref.Text.Laws.{IsUnits-all}
use ta_ref.Search.Id.{is_kept, encode_unit, convert_to_id}
use ta_ref.Search.Id.Laws.{prefix-convert_to_id}
use ta_ref.Search.Results.{unset, block, hidden, Div, Page, search_page, search_text}
use ta_ref.Search.Results.Laws.{search_page-shows, shown_results, display_row}
use ta_ref.Search.Results.Entries.{search_page-entry, search_page_spurious}
use ta_ref.Prelude.Loops.{finished}
use ta_ref.Search.Children.{
  Place, Elem, Node, node, nil, cons, toggle, find_child_element, visit_all,
}
use ta_ref.Search.Children.Walk.{focus_elem, find_child_element-first}
use ta_ref.Search.Children.Effect.{flip_first, toggle-flip_first}
use ta_ref.Search.Build.{Entry, create_result, create_results, divs_all, node_of}
use ta_ref.Search.Build.Laws.{
  only_results, result_row, only_results-create_results, find_child_element-create_result,
}
use ta_ref.Search.Keys.{focus_child, focus_item, Row, Keys, nav, still, nav_next, nav_prev}
use ta_ref.Search.Keys.Laws.{IsNext, nav_next-IsNext}
use ta_ref.Search.Keys.Moves.{up_keys, arrow_up, nav_up_adjacent, nav_up_skips_children}

-- toLowerCase on ASCII
abbrev lower_ascii : Str → Str
lower_ascii s = map (λ c. if leb b'A' c && leb c b'Z' then c + 32 else c) s

prefix-convert_to_id_example :
    is_prefix (convert_to_id (codes "a b")) (convert_to_id (codes "a b!")) ≡ true
unfolding is_prefix
prefix-convert_to_id_example =
    prefix-convert_to_id (codes "a b") (codes "a b!") (IsUnits-all (codes "a b") refl)
      (IsUnits-all (codes "a b!") refl)

abbrev api_row : Div
api_row = record { class_name = codes "SRResult"; id = codes "SR_api_20call_21"; display = unset }

abbrev results : Page
results = record {
  divs = api_row ∷ [];
  searching = block;
  no_matches = hidden;
  last_match_count = 0;
}

search_page-shows_example :
    let after = search_page lower_ascii (codes " API") [] results in
    (after.divs
      ≡ map
          (λ row. display_row lower_ascii (search_text lower_ascii (codes " API") []) row)
          results.divs)
    × (after.last_match_count ≡ shown_results after.divs)
    × ((after.no_matches ≡ block) ↔ (shown_results after.divs ≡ 0))
    × (after.searching ≡ hidden)
search_page-shows_example = search_page-shows lower_ascii (codes " API") [] results

search_page-entry_example :
    get_elem? (search_page lower_ascii (codes "API c") [] results).divs 0
    ≡ some (record api_row { display = block })
unfolding eq_str encode_unit convert_to_id strip_trailing strip_leading is_prefix
search_page-entry_example =
    search_page-entry lower_ascii b'A' (codes "PI c") [] (codes "api call") (codes "_21") results 0
      api_row refl refl refl (IsUnits-all (codes "api c") refl)
      (IsUnits-all (codes "api call") refl) (omega arith)

search_page_spurious_example :
    (get_elem? (search_page lower_ascii (codes "api call!") [] results).divs 0
      ≡ some (record api_row { display = block }))
    × (is_prefix (codes "api call!") (codes "api call") ≡ false)
unfolding eq_str encode_unit convert_to_id strip_trailing strip_leading is_kept
search_page_spurious_example =
    search_page_spurious lower_ascii b'a' (codes "pi call!") [] b'!' (codes "api call") [] results 0
      api_row refl refl refl (omega arith) refl refl

abbrev link_elem : Elem
link_elem = record { tag = codes "a"; class_name = []; display = unset }

abbrev children_elem : Elem
children_elem = record { tag = codes "div"; class_name = codes "SRChildren"; display = block }

abbrev row_elem : Elem
row_elem = record { tag = codes "div"; class_name = codes "SREntry"; display = unset }

abbrev entry_row : Node
entry_row =
    node row_elem
      (cons (node link_elem nil) (cons (node children_elem (cons (node link_elem nil) nil)) nil))

find_child_element-first_example :
    (result : Option Place) × (find_child_element entry_row ≡ finished result)
    × (Option.map focus_elem result ≡ some children_elem)
unfolding visit_all eq_str
find_child_element-first_example = find_child_element-first entry_row

toggle-flip_first_example :
    toggle entry_row
    ≡ finished (
        node row_elem (
          cons (node link_elem nil) (
            cons
              (node (record children_elem { display = hidden }) (cons (node link_elem nil) nil))
              nil)))
unfolding flip_first visit_all eq_str
toggle-flip_first_example =
    toggle-flip_first row_elem
      (cons (node link_elem nil) (cons (node children_elem (cons (node link_elem nil) nil)) nil))

abbrev shown_row : Row
shown_row = record { display = block; children = some block; child_count = 2 }

abbrev hidden_row : Row
hidden_row = record { display = hidden; children = none; child_count = 0 }

abbrev three_rows : List Row
three_rows = shown_row ∷ hidden_row ∷ shown_row ∷ []

abbrev idle : Keys
idle = record { last_key = 0; repeat_on = false }

nav_next-IsNext_example :
    (result : Option ℕ) × (nav_next three_rows 1 ≡ finished result) × IsNext three_rows 1 result
nav_next-IsNext_example = nav_next-IsNext three_rows 1

nav_up_adjacent_example :
    nav idle (shown_row ∷ shown_row ∷ []) 1 arrow_up
    ≡ some (finished (still up_keys (shown_row ∷ shown_row ∷ []) (focus_child 0 1 ∷ []) false))
nav_up_adjacent_example =
    nav_up_adjacent idle (shown_row ∷ shown_row ∷ []) 0 shown_row shown_row refl refl refl

nav_up_skips_children_example :
    nav idle three_rows 2 arrow_up
    ≡ some (finished (still up_keys three_rows (focus_item 0 ∷ []) false))
nav_up_skips_children_example =
    nav_up_skips_children idle three_rows 1 0 shown_row refl (unfold nav_prev in refl) refl

abbrev tee_entry : Entry
tee_entry = record {
  id = codes "tee_0";
  name = codes "tee";
  results =
      record { page = codes "a.html"; in_parent = true; scope = codes "a.c" }
      ∷ record { page = codes "b.html"; in_parent = true; scope = codes "b.c" }
      ∷ [];
}

only_results-create_results_example :
    only_results (divs_all (create_results 0 (tee_entry ∷ []))) ≡ result_row tee_entry ∷ []
only_results-create_results_example = only_results-create_results 0 (tee_entry ∷ [])

find_child_element-create_result_example :
    (result : Option Place) × (find_child_element (node_of (create_result 0 tee_entry))
      ≡ finished result)
    × (Option.map focus_elem result
        ≡ some (record { tag = codes "div"; class_name = codes "SRChildren"; display = unset }))
find_child_element-create_result_example = find_child_element-create_result 0 tee_entry
