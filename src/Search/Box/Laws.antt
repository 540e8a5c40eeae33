-- ===== src/Search/Box/Laws.antt =====
-- What the search panel hands to the results page, its timers, and the choice of a section.
use ta_ref.Prelude.{
  ◌≡◌, refl, inl, inr, Bool, List, [], ◌∷◌, ◌++◌, some, get_elem?, ◌==◌, arith, Bool-cases,
}
use ta_ref.Text.{Str, IsUnits, strip_leading}
use ta_ref.Text.Escape.{escape, unescape-escape}
use ta_ref.Search.Results.{block, search_text}
use ta_ref.Search.Box.{Config, Layout, Panel}
use ta_ref.Search.Box.Search.{search_in, Section, search, results_page}

strip_leading-IsUnits : (s : Str) → IsUnits s → IsUnits (strip_leading s)
unfolding strip_leading
strip_leading-IsUnits [] h = tt
strip_leading-IsUnits (c ∷ s) h = elim (Bool-cases (c == 32)) [
  | inl e ↦ rw e (strip_leading-IsUnits s h.1)
  | inr e ↦ rw e h
]

-- The query of the results page stands for the text that it was made of.
search_text-escape :
    (lower : Str → Str) (value : Str)
    → IsUnits value
    → search_text lower [] (escape value) ≡ search_text lower value []
unfolding search_text
search_text-escape lower [] h = unfold escape in refl
search_text-escape lower (c ∷ s) h = rw (unescape-escape (c ∷ s) h)

module _ (lower : Str → Str) (gt_one : Str → Bool) where
  search_in-display :
      (c : Config) (l : Layout) (section : Section) (p : Panel)
      → (search_in lower gt_one c l section p).results_display ≡ block
  unfolding search_in
  search_in-display c l section p = ground arith

  search_in-fields :
      (c : Config) (l : Layout) (section : Section) (p : Panel) (page : Str)
      → results_page lower gt_one c section (strip_leading p.field_value) ≡ some page
      → let q = search_in lower gt_one c l section p in
        (q.last_search_value ≡ strip_leading p.field_value)
        × (q.last_results_page ≡ page)
        × (q.key_timeout ≡ 0)
        × (q.results_location ≡ page ++ b'?' ∷ escape q.last_search_value)
  unfolding search_in
  search_in-fields c l section p page found = ground arith

  -- Search, where the search index has a section that has the character that the text of the field
  -- begins with: the text without leading spaces becomes the last search value, the page of the
  -- section and the character the last results page, the results are shown, no key timer is noted, and
  -- the page is opened with a query from which it reads the text that was searched.
  pub search_found :
      (c : Config) (l : Layout) (sections : List Section) (section : Section) (p : Panel)
      (page : Str)
      → IsUnits p.field_value
      → get_elem? sections p.search_index ≡ some section
      → results_page lower gt_one c section (strip_leading p.field_value) ≡ some page
      → (q : Panel) × (search lower gt_one c l sections p ≡ some q)
        × (q.last_search_value ≡ strip_leading p.field_value)
        × (q.last_results_page ≡ page)
        × (q.key_timeout ≡ 0)
        × (q.results_display ≡ block)
        × (q.results_location ≡ page ++ b'?' ∷ escape q.last_search_value)
        × (search_text lower [] (escape q.last_search_value)
            ≡ search_text lower q.last_search_value [])
  unfolding search
  search_found c l sections section p page u here found =
      let fields = search_in-fields c l section p page found in
      (
        search_in lower gt_one c l section p,
        rw here,
        fields.0,
        fields.1,
        fields.2,
        search_in-display c l section p,
        fields.3,
        search_text-escape lower _ (rw (fields.0) (strip_leading-IsUnits p.field_value u)),
      )
