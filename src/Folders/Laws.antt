-- ===== src/Folders/Laws.antt =====
-- What folding shows.
use ta_ref.Prelude.{
  ℕ, zero, suc, ◌+◌, ◌≡◌, refl, ap, ◌∙◌, inl, inr, Bool, true, false, not, ◌&&◌, ◌||◌, List, [],
  ◌∷◌, ◌++◌, if◌then◌else◌, leb, arith, length, all, map, Bool-cases,
}
use ta_ref.Text.{Str, codes, eq_str}
use ta_ref.Folders.{
  not, false, suc, true, leb, Bool, Row, stripe_from, update_stripes, depth, level_row, level_rows,
  toggle_level, is_child, is_below, first_child_shown, hide_row, show_row, map_rows, fold_at,
  fold_in, toggle_folder,
}

-- The stripes of the rows that are shown, from the top.
abbrev pub stripes : List Row → List Bool
stripes [] = []
stripes (row ∷ rows) = if row.shown then row.even ∷ stripes rows else stripes rows

abbrev pub hidden_stripes : List Row → Bool
hidden_stripes [] = false
hidden_stripes (row ∷ rows) = (not row.shown && row.even) || hidden_stripes rows

abbrev pub alternate : Bool → ℕ → List Bool
alternate even zero = []
alternate even (suc n) = even ∷ alternate (not even) n

stripe_from_lem :
    (even : Bool) (rows : List Row)
    → (stripes (stripe_from even rows) ≡ alternate even (length (stripes rows)))
      × (hidden_stripes (stripe_from even rows) ≡ false)
      × (map (λ row. row.shown) (stripe_from even rows) ≡ map (λ row. row.shown) rows)
unfolding stripe_from
stripe_from_lem even [] = (refl, refl, refl)
stripe_from_lem even (row ∷ rows) = elim (Bool-cases row.shown) [
  | inl s ↦
      let (a, b, c) = stripe_from_lem (not even) rows in
      rw s (ap (λ l. even ∷ l) a, b, ap (λ l. true ∷ l) c)
  | inr s ↦ let (a, b, c) = stripe_from_lem even rows in rw s (a, b, ap (λ l. false ∷ l) c)
]

-- updateStripes leaves every row shown or hidden as it is, gives the class even to the first, third,
-- fifth, … of the rows that are shown, and to no other row.
pub update_stripes_lem :
    (rows : List Row)
    → (stripes (update_stripes rows) ≡ alternate true (length (stripes rows)))
      × (hidden_stripes (update_stripes rows) ≡ false)
      × (map (λ row. row.shown) (update_stripes rows) ≡ map (λ row. row.shown) rows)
unfolding update_stripes
update_stripes_lem rows = stripe_from_lem true rows

shown-level_rows :
    (level : ℕ) (rows : List Row)
    → map (λ row. row.shown) (level_rows level rows)
      ≡ map (λ row. leb (depth row.id) (level + 1)) rows
unfolding level_rows level_row
shown-level_rows level [] = refl
shown-level_rows level (row ∷ rows) = ground (arith, shown-level_rows level rows)

-- toggleLevel shows the rows whose id has at most one `_` more than the level, and hides the others.
pub shown-toggle_level :
    (level : ℕ) (rows : List Row)
    → map (λ row. row.shown) (toggle_level level rows)
      ≡ map (λ row. leb (depth row.id) (level + 1)) rows
unfolding toggle_level
shown-toggle_level level rows =
    (update_stripes_lem (level_rows level rows)).2 ∙ shown-level_rows level rows

shown-hide :
    (id : Str) (rows : List Row)
    → map (λ row. row.shown) (map_rows (hide_row id) rows)
      ≡ map (λ row. row.shown && not (is_below id row)) rows
unfolding map_rows hide_row
shown-hide id [] = refl
shown-hide id (row ∷ rows) = ground (arith, shown-hide id rows)

shown-show :
    (id : Str) (rows : List Row)
    → map (λ row. row.shown) (map_rows (show_row id) rows)
      ≡ map (λ row. row.shown || is_child id row) rows
unfolding map_rows show_row
shown-show id [] = refl
shown-show id (row ∷ rows) = ground (arith, shown-show id rows)

-- What a click on a folder makes of the rows behind it.
abbrev pub after_click : Str → List Row → Row → Bool
after_click id rows row =
    if first_child_shown id rows
    then row.shown && not (is_below id row)
    else row.shown || is_child id row

map_same : (f g : Row → Bool) (rows : List Row) → ((r : Row) → f r ≡ g r) → map f rows ≡ map g rows
map_same f g [] h = refl
map_same f g (row ∷ rows) h = rw (h row, map_same f g rows h)

shown-fold_in :
    (id : Str) (before : List Row) (row : Row) (rows : List Row)
    → eq_str row.id (codes "row_" ++ id) ≡ true
    → all (λ r. not (eq_str r.id (codes "row_" ++ id))) before ≡ true
    → map (λ r. r.shown) (fold_in id (before ++ row ∷ rows))
      ≡ map (λ r. r.shown) before ++ row.shown ∷ map (after_click id rows) rows
unfolding fold_in fold_at
shown-fold_in id [] row rows here above = elim (Bool-cases (first_child_shown id rows)) [
  | inl s ↦
      rw (here, fold_at, s)
        (ap (λ l. row.shown ∷ l)
          (shown-hide id rows
            ∙ map_same (λ r. r.shown && not (is_below id r)) (after_click id rows) rows
                (λ r. rw s)))
  | inr s ↦
      rw (here, fold_at, s)
        (ap (λ l. row.shown ∷ l)
          (shown-show id rows
            ∙ map_same (λ r. r.shown || is_child id r) (after_click id rows) rows (λ r. rw s)))
]
shown-fold_in id (b ∷ before) row rows here above = ground (arith, shown-fold_in id before row rows)

-- toggleFolder, with the first row of the folder's id among the rows: where the folder's first child is
-- shown, every row behind whose id begins with that of the folder is hidden; where not, its children
-- are shown. Every other row stays shown or hidden as it is.
pub shown-toggle_folder :
    (id : Str) (before : List Row) (row : Row) (rows : List Row)
    → eq_str row.id (codes "row_" ++ id) ≡ true
    → all (λ r. not (eq_str r.id (codes "row_" ++ id))) before ≡ true
    → map (λ r. r.shown) (toggle_folder id (before ++ row ∷ rows))
      ≡ map (λ r. r.shown) before ++ row.shown ∷ map (after_click id rows) rows
unfolding toggle_folder
shown-toggle_folder id before row rows here above =
    (update_stripes_lem (fold_in id (before ++ row ∷ rows))).2
    ∙ shown-fold_in id before row rows here above
