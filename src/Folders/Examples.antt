-- ===== src/Folders/Examples.antt =====
-- The theorems about folding at a table with one folder of two files.
use ta_ref.Prelude.{◌≡◌, refl, true, false, List, [], ◌∷◌, none, some, map}
use ta_ref.Text.{Str, codes, eq_str}
use ta_ref.Folders.{
  is_child, is_below, first_child_shown, depth, Row, toggle_level, toggle_folder, opened,
}
use ta_ref.Folders.Laws.{shown-toggle_level, shown-toggle_folder}

abbrev folder_row : Row
folder_row = record {
  id = codes "row_0_";
  icon = some opened;
  arrow = some opened;
  shown = true;
  even = false;
}

abbrev file_row : Str → Row
file_row id = record { id = id; icon = none; arrow = none; shown = true; even = true }

abbrev file_rows : List Row
file_rows = file_row (codes "row_0_0_") ∷ file_row (codes "row_0_1_") ∷ []

shown-toggle_level_example :
    map (λ row. row.shown) (toggle_level 1 (folder_row ∷ file_rows)) ≡ true ∷ false ∷ false ∷ []
unfolding depth
shown-toggle_level_example = shown-toggle_level 1 (folder_row ∷ file_rows)

shown-toggle_folder_example :
    map (λ r. r.shown) (toggle_folder (codes "0_") (folder_row ∷ file_rows))
    ≡ true ∷ false ∷ false ∷ []
unfolding eq_str first_child_shown is_below is_child
shown-toggle_folder_example = shown-toggle_folder (codes "0_") [] folder_row file_rows refl refl
