-- ===== src/Nav/Highlight.antt =====
-- selectAndHighlight of navtree.js: which links of the tree it marks as selected. A link is known by
-- its class name; a[class$="…"] takes those that end with the text.
pub mod Laws
use ta_ref.Prelude.{
  ℕ, zero, suc, ◌+◌, ◌-◌, ◌≤◌, ◌<◌, ◌≡◌, ◌≢◌, refl, sym, ap, ◌∙◌, inl, inr, ◌⊎◌, Bool, true, false,
  not, ◌&&◌, ◌||◌, List, [], ◌∷◌, ◌++◌, Option, none, some, if◌then◌else◌, get_elem?, ◌==◌, ltb,
  leb, arith, length, take, drop, all, map, Bool-cases, Option-cases, if_intro,
}
use ta_ref.Text.{Str, eq_str}
use ta_ref.Nav.Path.{strip_path, path_name}

-- [class$="…"] with a text that is not empty
unfoldable pub ends_with : Str → Str → Bool
unfolding eq_str
ends_with text [] = eq_str text []
ends_with text (c ∷ s) = eq_str text (c ∷ s) || ends_with text s

-- The text that the class of a link ends with, from the path and the hash of the location.
unfoldable pub wanted_class : Str → Str → Str
unfolding strip_path path_name
wanted_class path hash = strip_path (path_name path) ++ b':' ∷ drop 1 hash

-- The marks that the call sets: on the links found, on the item of the node it is called with, or none.
pub data Marks : Type 0 where
  links : List Bool → Marks
  item : Marks
  nothing : Marks

matches : Str → List Str → List Bool
unfolding ends_with
matches text [] = []
matches text (name ∷ names) = ends_with text name ∷ matches text names

any_true : List Bool → Bool
any_true [] = false
any_true (b ∷ bs) = b || any_true bs

-- selectAndHighlight, with the class names of the links in the tree
unfoldable pub select_and_highlight : Str → Str → List Str → Bool → Marks
unfolding matches wanted_class any_true
select_and_highlight path [] names has_node = if has_node then item else nothing
select_and_highlight path (c ∷ hash) names has_node =
    let found = matches (wanted_class path (c ∷ hash)) names in
    if any_true found then links found else if has_node then item else nothing
