-- ===== src/Folders.antt =====
-- The folding of docs/ta-ref_readme_html/dynsections.js (the copy under docs/ta-ref_spec_html is the
-- same text). Here: the directory tables, updateStripes, toggleLevel and toggleFolder. The id of a
-- folder is made of digits and `_`, so that in a pattern it stands for itself.
pub mod Laws
pub mod Sections
mod Examples
use ta_ref.Prelude.{
  ℕ, suc, ◌+◌, ◌-◌, Bool, true, false, not, ◌&&◌, ◌||◌, List, [], ◌∷◌, ◌++◌, Option, none, some,
  if◌then◌else◌, ltb, leb, ◌==◌,
}
use ta_ref.Text.{Str, codes, eq_str, is_prefix}

-- The class of a folder's icon, iconfopen or iconfclosed, and the arrow, &#9660; or &#9658;.
pub data Mark : Type 0 where
  opened closed : Mark

-- A row of table.directory; a row that is no folder has no icon and no arrow of these kinds. `shown` is
-- what :visible tests, show sets and hide clears; `even` is the class.
pub record Row : Type 0 where
  pub id : Str
  pub icon : Option Mark
  pub arrow : Option Mark
  pub shown : Bool
  pub even : Bool

-- Writes a mark where there is one.
abbrev pub mark : Mark → Option Mark → Option Mark
mark m none = none
mark m (some old) = some m

-- filter(':visible:even') counts the visible rows from 0.
stripe_from : Bool → List Row → List Row
stripe_from even [] = []
stripe_from even (row ∷ rows) =
    let next = stripe_from (not even) rows in
    let same = stripe_from even rows in
    if row.shown then record row { even = even } ∷ next else record row { even = false } ∷ same

-- updateStripes
unfoldable pub update_stripes : List Row → List Row
unfolding stripe_from
update_stripes rows = stripe_from true rows

-- this.id.split('_').length-1
unfoldable pub depth : Str → ℕ
depth [] = 0
depth (c ∷ s) = let rest = depth s in if c == b'_' then suc rest else rest

-- One round of toggleLevel.
unfoldable pub level_row : ℕ → Row → Row
unfolding depth
level_row level row =
    let l = depth row.id in
    if ltb l (level + 1)
    then record row { icon = mark opened row.icon; arrow = mark opened row.arrow; shown = true }
    else if l == level + 1
    then record row { icon = mark closed row.icon; arrow = mark closed row.arrow; shown = true }
    else record row { shown = false }

level_rows : ℕ → List Row → List Row
unfolding level_row
level_rows level [] = []
level_rows level (row ∷ rows) = level_row level row ∷ level_rows level rows

-- toggleLevel
unfoldable pub toggle_level : ℕ → List Row → List Row
unfolding level_rows update_stripes
toggle_level level rows = update_stripes (level_rows level rows)

abbrev pub is_digit : ℕ → Bool
is_digit c = leb b'0' c && leb c b'9'

-- The end of the pattern, \d+_$, behind its first digit.
digits_then_end : Str → Bool
digits_then_end [] = false
digits_then_end (c ∷ []) = c == b'_'
digits_then_end (c ∷ d ∷ s) = is_digit c && digits_then_end (d ∷ s)

-- \d+_$ against what stands behind the prefix
number_then_end : Str → Str → Bool
unfolding digits_then_end
number_then_end [] [] = false
number_then_end [] (c ∷ s) = is_digit c && digits_then_end s
number_then_end (p ∷ prefix) [] = false
number_then_end (p ∷ prefix) (c ∷ s) = p == c && number_then_end prefix s

-- The ids of a table are in lower case, so that the flag i makes no difference.
unfoldable pub is_child : Str → Row → Bool
unfolding number_then_end
is_child id row = number_then_end (codes "row_" ++ id) row.id

-- [id^=row_<id>]
unfoldable pub is_below : Str → Row → Bool
unfolding is_prefix
is_below id row = is_prefix (codes "row_" ++ id) row.id

-- childRows.filter(':first').is(':visible'), on the rows behind the clicked one
unfoldable pub first_child_shown : Str → List Row → Bool
unfolding is_child
first_child_shown id [] = false
first_child_shown id (row ∷ rows) =
    let later = first_child_shown id rows in if is_child id row then row.shown else later

hide_row : Str → Row → Row
unfolding is_below
hide_row id row = if is_below id row then record row { shown = false } else row

show_row : Str → Row → Row
unfolding is_child
show_row id row =
    if is_child id row
    then record row { icon = mark closed row.icon; arrow = mark closed row.arrow; shown = true }
    else row

map_rows : (Row → Row) → List Row → List Row
map_rows f [] = []
map_rows f (row ∷ rows) = f row ∷ map_rows f rows

-- The clicked row and the rows behind it.
fold_at : Str → Row → List Row → List Row
unfolding first_child_shown hide_row show_row map_rows
fold_at id row rows =
    if first_child_shown id rows
    then record row { icon = mark closed row.icon; arrow = mark closed row.arrow }
      ∷ map_rows (hide_row id) rows
    else record row { icon = mark opened row.icon; arrow = mark opened row.arrow }
      ∷ map_rows (show_row id) rows

fold_in : Str → List Row → List Row
unfolding fold_at
fold_in id [] = []
fold_in id (row ∷ rows) =
    let rest = fold_in id rows in
    if eq_str row.id (codes "row_" ++ id) then fold_at id row rows else row ∷ rest

-- toggleFolder
unfoldable pub toggle_folder : Str → List Row → List Row
unfolding fold_in update_stripes
toggle_folder id rows = update_stripes (fold_in id rows)
