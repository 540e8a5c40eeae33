-- ===== src/Search/Results/Entries.antt =====
-- The rows of the index on the results page: what a search text shows. The id of a row, in lower
-- case, is `sr_`, the id of the entry's name, and the number that the generator puts behind it.
use mathlib.Core.List.{append_assoc}
use ta_ref.Prelude.{
  ℕ, zero, suc, ◌/◌, ◌%◌, ◌≤◌, ◌<◌, ◌≡◌, refl, true, false, List, [], ◌∷◌, ◌++◌, if◌then◌else◌,
  length, arith, map, ◌∙◌, ap, get_elem?, some,
}
use ta_ref.Text.{Str, codes, IsUnits, is_prefix, strip_leading, strip_trailing, hex_digit}
use ta_ref.Text.Laws.{is_prefix-append}
use ta_ref.Search.Id.{convert_to_id, is_kept}
use ta_ref.Search.Id.Laws.{prefix-convert_to_id_append, convert_to_id-append, convert_to_id_escaped}
use ta_ref.Search.Results.{block, hidden, Div, Page, is_result, strip_sr, search_text, search_page}
use ta_ref.Search.Results.Laws.{is_shown, display_row, search_page-shows}

strip_sr-sr : (s : Str) → strip_sr (codes "sr_" ++ s) ≡ s
unfolding strip_sr
strip_sr-sr s = refl

get_elem?-map {ℓ} :
    {A : Type ℓ} (f : A → A) (xs : List A) (i : ℕ) {a : A}
    → get_elem? xs i ≡ some a
    → get_elem? (map f xs) i ≡ some (f a)
get_elem?-map f [] i h = cc
get_elem?-map f (x ∷ xs) zero h = ground arith
get_elem?-map f (x ∷ xs) (suc i) h = get_elem?-map f xs i h

-- The id of a row whose entry has this name.
abbrev pub HasName : (Str → Str) → Str → Str → Div → Type 0
HasName lower name suffix row = lower row.id ≡ codes "sr_" ++ (convert_to_id name ++ suffix)

-- The text that is looked for, before it is made an id.
abbrev pub wanted : (Str → Str) → Str → Str
wanted lower search = lower (strip_trailing (strip_leading search))

is_prefix-append_longer : (s : Str) (u : ℕ) → is_prefix (s ++ u ∷ []) s ≡ false
unfolding is_prefix
is_prefix-append_longer [] u = refl
is_prefix-append_longer (c ∷ s) u = ground (arith, is_prefix-append_longer s u)

module _ (lower : Str → Str) where
  search_text-wanted :
      (c : ℕ) (s query : Str)
      → search_text lower (c ∷ s) query ≡ convert_to_id (wanted lower (c ∷ s))
  unfolding search_text
  search_text-wanted c s query = refl

  is_shown-name :
      (q name suffix : Str) (row : Div)
      → IsUnits q
      → IsUnits name
      → length q ≤ length name
      → HasName lower name suffix row
      → is_shown lower (convert_to_id q) row ≡ is_prefix q name
  is_shown-name q name suffix row hq hn l h =
      rw (h, strip_sr-sr) (prefix-convert_to_id_append q name suffix hq hn l)

  -- On a page with a result row for an entry of this name, a search text that is not empty and, trimmed
  -- and in lower case, not longer than the name shows the row if the name begins with it, and hides
  -- the row if not.
  pub search_page-entry :
      (c : ℕ) (s query name suffix : Str) (page : Page) (i : ℕ) (row : Div)
      → let q = wanted lower (c ∷ s) in
        get_elem? page.divs i ≡ some row
        → is_result row ≡ true
        → HasName lower name suffix row
        → IsUnits q
        → IsUnits name
        → length q ≤ length name
        → get_elem? (search_page lower (c ∷ s) query page).divs i
          ≡ some (record row { display = if is_prefix q name then block else hidden })
  search_page-entry c s query name suffix page i row here result h hq hn l =
      let q = wanted lower (c ∷ s) in
      let f = display_row lower (search_text lower (c ∷ s) query) in
      rw ((search_page-shows lower (c ∷ s) query page).0) (
        get_elem?-map f page.divs i here
        ∙ ap some
            (rw (result, search_text-wanted c s query, is_shown-name q name suffix row hq hn l h)))

  is_shown-spurious :
      (c : ℕ) (name rest : Str) (row : Div)
      → c < 65536
      → is_kept c ≡ false
      → HasName lower name (b'_' ∷ hex_digit (c / 16) ∷ hex_digit (c % 16) ∷ rest) row
      → is_shown lower (convert_to_id (name ++ c ∷ [])) row ≡ true
  is_shown-spurious c name rest row b k h =
      rw
        (
          h,
          strip_sr-sr,
          convert_to_id-append,
          convert_to_id_escaped c b k,
          ← append_assoc (convert_to_id name) (b'_' ∷ hex_digit (c / 16) ∷ hex_digit (c % 16) ∷ [])
              rest,
        )
        (is_prefix-append _ rest)

  -- A row whose number begins with the hexadecimal digits of a unit that ids escape is shown for the
  -- name followed by that unit, though the name does not begin with that text.
  pub search_page_spurious :
      (c : ℕ) (s query : Str) (u : ℕ) (name rest : Str) (page : Page) (i : ℕ) (row : Div)
      → get_elem? page.divs i ≡ some row
      → is_result row ≡ true
      → wanted lower (c ∷ s) ≡ name ++ u ∷ []
      → u < 65536
      → is_kept u ≡ false
      → HasName lower name (b'_' ∷ hex_digit (u / 16) ∷ hex_digit (u % 16) ∷ rest) row
      → (get_elem? (search_page lower (c ∷ s) query page).divs i
          ≡ some (record row { display = block }))
        × (is_prefix (name ++ u ∷ []) name ≡ false)
  search_page_spurious c s query u name rest page i row here result w b k h =
      let f = display_row lower (search_text lower (c ∷ s) query) in
      let shown = is_shown-spurious u name rest row b k h in
      (
        rw ((search_page-shows lower (c ∷ s) query page).0) (
            get_elem?-map f page.divs i here
            ∙ ap some (rw (result, search_text-wanted c s query, w, shown))),
        is_prefix-append_longer name u,
      )
