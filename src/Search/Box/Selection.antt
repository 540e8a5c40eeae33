-- ===== src/Search/Box/Selection.antt =====
-- The menu of sections of the search panel: the marked item and the arrow keys.
use ta_ref.Prelude.{
  ℕ, zero, suc, ◌+◌, ◌≡◌, refl, ap, ◌∙◌, Bool, true, false, List, [], ◌∷◌, none, some, get_elem?,
  ◌==◌, arith, length,
}
use ta_ref.Text.{Str, eq_str, strip_spaces}
use ta_ref.Search.Box.{Config, Layout, Panel, set_from, select_item_set, select_item_count}
use ta_ref.Search.Box.Search.{Section, search}
use ta_ref.Search.Box.Events.{on_select_item, on_search_select_key}

get_elem?-set_from :
    (id j i : ℕ) (items : List Bool) {b : Bool}
    → get_elem? items i ≡ some b
    → get_elem? (set_from id j items) i ≡ some (j + i == id)
unfolding set_from
get_elem?-set_from id j i [] h = cc
get_elem?-set_from id j zero (item ∷ items) h = let e : j + 0 ≡ j = omega arith in rw e
get_elem?-set_from id j (suc i) (item ∷ items) h =
    let e : j + suc i ≡ j + 1 + i = omega arith in rw e (get_elem?-set_from id (j + 1) i items h)

-- SelectItemSet puts the bullet at the item with the index given, and takes it from every other item.
pub get_elem?-select_item_set :
    (id i : ℕ) (items : List Bool) {b : Bool}
    → get_elem? items i ≡ some b
    → get_elem? (select_item_set id items) i ≡ some (i == id)
unfolding select_item_set
get_elem?-select_item_set id i items h =
    let e : 0 + i ≡ i = omega arith in
    get_elem?-set_from id 0 i items h ∙ ap (λ k. some (k == id)) e

get_elem?_at_length {ℓ} : {A : Type ℓ} (xs : List A) → get_elem? xs (length xs) ≡ none
get_elem?_at_length [] = refl
get_elem?_at_length (x ∷ xs) = get_elem?_at_length xs

module _ (lower : Str → Str) (gt_one : Str → Bool) where
  -- The key Down on the last item of the menu, with an item for each section, makes the search index
  -- the number of sections. With the panel active and a text in the field the search that follows has
  -- no section to look in, and fails.
  pub select_key_past_end :
      (c : Config) (l : Layout) (sections : List Section) (p : Panel)
      → select_item_count p.select_items ≡ length sections
      → p.search_index + 1 ≡ length sections
      → p.search_active ≡ true
      → eq_str (strip_spaces p.field_value) [] ≡ false
      → on_search_select_key lower gt_one c l sections 40 p ≡ none
  unfolding on_search_select_key on_select_item search
  select_key_past_end c l sections p items last active text =
      let beyond : get_elem? sections (p.search_index + 1) ≡ none =
        rw last (get_elem?_at_length sections) in
      rw (active, text, beyond) (ground arith)
