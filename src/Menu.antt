-- ===== src/Menu.antt =====
-- initMenu of docs/ta-ref_readme_html/menu.js (the copy under docs/ta-ref_spec_html is the same text):
-- the markup of the menu, and where the search box stands as the window gets narrower and wider.
-- smartmenus, which draws the menu, and the animation of the mobile menu are jQuery's.
pub mod Laws
mod Examples
use ta_ref.Prelude.{
  ℕ, zero, suc, ◌+◌, ◌-◌, ◌≤◌, ◌<◌, ◌≡◌, ◌≢◌, refl, sym, ap, ◌∙◌, inl, inr, ◌⊎◌, Bool, true, false,
  not, ◌&&◌, ◌||◌, List, [], ◌∷◌, ◌++◌, Option, none, some, if◌then◌else◌, get_elem?, ◌==◌, ltb,
  leb, arith, length, take, drop, all, map, Bool-cases, Option-cases, if_intro,
}
use ta_ref.Text.{Str, codes}

-- menudata: an entry with its text, its url and its children, or with no property of that name.
mutual
  pub data Menu : Type 0 where
    menu : Str → Str → Menus → Menu

  pub data Menus : Type 0 where
    no_children : Menus
    children : Entries → Menus

  pub data Entries : Type 0 where
    nil : Entries
    cons : Menu → Entries → Entries

-- makeTree
unfoldable mutual
  pub make_tree : Str → Menus → Str
  make_tree rel_path no_children = []
  make_tree rel_path (children es) = codes "<ul>" ++ (make_entries rel_path es ++ codes "</ul>")

  pub make_entries : Str → Entries → Str
  make_entries rel_path nil = []
  make_entries rel_path (cons (menu text url ms) es) =
      (codes "<li><a href=\""
        ++ (rel_path
            ++ (url
                ++ (codes "\">"
                    ++ (text ++ (codes "</a>" ++ (make_tree rel_path ms ++ codes "</li>")))))))
      ++ make_entries rel_path es

-- What resetState writes: the check box main-menu-state, the menu, and the two places of the search
-- box; `box_in_1` and `box_in_2` say whether the markup of the box is in the place.
pub record State : Type 0 where
  pub prev_width : ℕ
  pub checked : Bool
  pub menu_shown : Bool
  pub box_in_1 : Bool
  pub box_in_2 : Bool
  pub place_2_shown : Bool

-- resetState, where the page has a search box or not (html(undefined) changes nothing)
unfoldable pub reset_state : Bool → ℕ → State → State
reset_state search_box new_width s =
    if new_width == s.prev_width
    then s
    else if ltb new_width 768
    then record s {
      prev_width = new_width;
      checked = false;
      menu_shown = false;
      box_in_1 = search_box || s.box_in_1;
      place_2_shown = false;
    }
    else record s {
      prev_width = new_width;
      menu_shown = true;
      box_in_1 = false;
      box_in_2 = search_box || s.box_in_2;
      place_2_shown = true;
    }

-- The handler of the check box, once its animation is complete.
unfoldable pub toggle_menu : Bool → State → State
toggle_menu checked s = record s { checked = checked; menu_shown = checked }
