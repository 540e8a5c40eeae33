-- ===== src/Search/Build/Laws.antt =====
-- The elements that createResults of search/search.js makes, as Search and Toggle read them.
use ta_ref.Prelude.{
  Option, ℕ, ◌+◌, ◌≡◌, refl, ap, ◌∙◌, Bool, true, false, List, [], ◌∷◌, ◌++◌, none, some,
  if◌then◌else◌, map,
}
use ta_ref.Text.{codes, eq_str}
use mathlib.Core.Option
use ta_ref.Search.Results.{unset, Div, is_result}
use ta_ref.Prelude.Loops.{finished}
use ta_ref.Search.Children.{Place, Elem, find_child_element, visit_all, visit}
use ta_ref.Search.Children.Walk.{focus_elem, find_child_element-first, first_children}
use ta_ref.Search.Build.{
  Result, Entry, child_links, item_link, entry_children, create_result, create_results, divs,
  divs_all, node_of, nodes_of,
}

abbrev pub result_row : Entry → Div
result_row entry = record {
  class_name = codes "SRResult";
  id = codes "SR_" ++ entry.id;
  display = unset;
}

abbrev pub only_results : List Div → List Div
only_results [] = []
only_results (row ∷ rows) =
    let rest = only_results rows in if is_result row then row ∷ rest else rest

child_links-divs : (e c : ℕ) (rs : List Result) → divs_all (child_links e c rs) ≡ []
unfolding child_links divs eq_str
child_links-divs e c [] = refl
child_links-divs e c (r ∷ rs) = child_links-divs e (c + 1) rs

entry_children-divs :
    (e : ℕ) (entry : Entry) (rs : List Result) (rest : List Div)
    → only_results ((divs_all (entry_children e entry rs) ++ []) ++ rest) ≡ only_results rest
unfolding entry_children item_link divs eq_str
entry_children-divs e entry [] rest = refl
entry_children-divs e entry (r ∷ []) rest = refl
entry_children-divs e entry (r ∷ s ∷ rs) rest = rw (child_links-divs e 0 (r ∷ s ∷ rs)) refl

-- Among the divs of the page that createResults makes, in document order, those of the class SRResult
-- are one for each entry of searchData, in its order, with `SR_` and the id of the entry as their id.
pub only_results-create_results :
    (e : ℕ) (entries : List Entry)
    → only_results (divs_all (create_results e entries)) ≡ map result_row entries
unfolding create_results create_result divs eq_str
only_results-create_results e [] = refl
only_results-create_results e (entry ∷ entries) =
    ap (λ l. result_row entry ∷ l)
      (entry_children-divs e entry entry.results (divs_all (create_results (e + 1) entries))
        ∙ only_results-create_results (e + 1) entries)

abbrev has_several : List Result → Bool
has_several (r ∷ []) = false
has_several _ = true

abbrev children_elem : Elem
children_elem = record { tag = codes "div"; class_name = codes "SRChildren"; display = unset }

first_in_children :
    (e : ℕ) (entry : Entry) (rs : List Result)
    → first_children (visit_all (nodes_of (entry_children e entry rs)) ++ [])
      ≡ (if has_several rs then some children_elem else none)
unfolding entry_children item_link node_of visit eq_str
first_in_children e entry [] = refl
first_in_children e entry (r ∷ []) = refl
first_in_children e entry (r ∷ s ∷ rs) = refl

-- In the row that createResults makes of an entry with exactly one result FindChildElement ends and
-- finds nothing; in the row of any other entry it ends and finds the div that holds the links of the
-- results.
pub find_child_element-create_result :
    (e : ℕ) (entry : Entry)
    → (result : Option Place) × (find_child_element (node_of (create_result e entry))
        ≡ finished result)
      × (Option.map focus_elem result
          ≡ (if has_several entry.results then some children_elem else none))
unfolding create_result node_of visit eq_str
find_child_element-create_result e entry =
    let (result, ends, first) = find_child_element-first (node_of (create_result e entry)) in
    (result, ends, first ∙ first_in_children e entry entry.results)
