-- ===== src/Search/Box.antt =====
-- The search panel: getXPos, getYPos and SearchBox of search/search.js. A method takes the state of the
-- panel and of the elements that it reads and writes, and returns the new state.
mod Examples
pub mod Search
pub mod Events
pub mod Laws
pub mod Placement
pub mod Timers
pub mod Selection
use ta_ref.Prelude.{
  ℕ, zero, suc, ◌+◌, Bool, true, false, not, ◌&&◌, ◌||◌, List, [], ◌∷◌, ◌++◌, Option, none, some,
  if◌then◌else◌, get_elem?, ◌==◌, leb, map,
}
use ta_ref.Prelude.Int.{ℤ, pos, ◌+ℤ◌}
use ta_ref.Text.{Str, codes, eq_str}
use ta_ref.Search.Results.{Display, unset, block, hidden}

-- An element's offsets on the way up to document.body, which ends the chain.
sum_offsets : ℤ → List ℤ → ℤ
sum_offsets x [] = x
sum_offsets x (offset ∷ chain) = sum_offsets (x +ℤ offset) chain

-- getXPos and getYPos, which differ in the offsets that they read: offsetLeft and offsetTop.
unfoldable pub get_pos : ℕ → List ℤ → ℤ
unfolding sum_offsets
get_pos offset_width chain = if offset_width == 0 then pos 0 else sum_offsets (pos 0) chain

pub data TimerAction : Type 0 where
  run_search : TimerAction
  close_selection : TimerAction

pub record Timer : Type 0 where
  pub id : ℕ
  pub action : TimerAction
  pub delay : ℕ

-- The arguments of the constructor.
pub record Config : Type 0 where
  pub results_path : Str
  pub label : Str
  pub extension : Str

-- this.extension: ".html" where none is given
abbrev pub extension_of : Config → Str
extension_of c = if eq_str c.extension [] then codes ".html" else c.extension

-- What layout gives of the elements.
pub record Layout : Type 0 where
  pub box_width : ℕ
  pub box_left : List ℤ
  pub box_top : List ℤ
  pub select_width : ℕ
  pub select_left : List ℤ
  pub select_top : List ℤ
  pub select_height : ℕ
  pub popup_width : ℕ
  pub body_width : ℕ

-- top, left and width of a window's style
pub record Position : Type 0 where
  pub top : ℤ
  pub left : ℤ
  pub width : ℤ

pub record Panel : Type 0 where
  -- the instance variables; a timeout is 0 or a timer's id
  pub key_timeout : ℕ
  pub hide_timeout : ℕ
  pub last_search_value : Str
  pub last_results_page : Str
  pub search_index : ℕ
  pub search_active : Bool
  -- the elements
  pub field_value : Str
  pub field_focused : Bool
  pub box_active : Bool  -- the box has class MSearchBoxActive
  pub close_display : Display  -- of MSearchClose; inline-block counts as block
  pub results_display : Display
  pub results_position : Position
  pub results_location : Str  -- window.frames.MSearchResults.location
  pub results_focused : Bool  -- the message take_focus was posted to the results page
  pub select_display : Display
  pub select_left : ℤ
  pub select_top : ℤ
  pub select_items : List Bool  -- the children of class SelectItem: is its mark the bullet
  pub select_focused : Bool  -- the first of them has the focus
  -- the timers that wait, and the id of the next
  pub timers : List Timer
  pub next_timer : ℕ

unfoldable pub clear_timeout : ℕ → List Timer → List Timer
clear_timeout id [] = []
clear_timeout id (t ∷ ts) = if t.id == id then clear_timeout id ts else t ∷ clear_timeout id ts

-- Activate
unfoldable pub activate : Config → Bool → Panel → Panel
activate c is_active p =
    if is_active || elim p.results_display [ block ↦ true | _ ↦ false ]
    then (let entered = record p { box_active = true } in
        if eq_str p.field_value c.label
        then record entered { field_value = []; search_active = true }
        else entered)
    else record p {
      box_active = false;
      field_value = c.label;
      search_active = false;
      last_search_value = [];
      last_results_page = [];
    }

-- OnSearchFieldFocus
unfoldable pub on_search_field_focus : Config → Bool → Panel → Panel
unfolding activate
on_search_field_focus c is_active p = activate c is_active p

-- CloseResultsWindow
unfoldable pub close_results_window : Config → Panel → Panel
unfolding activate
close_results_window c p =
    activate c false (record p { results_display = hidden; close_display = hidden })

-- CloseSelectionWindow
unfoldable pub close_selection_window : Panel → Panel
close_selection_window p = record p { select_display = hidden }

-- OnSearchSelectShow
unfoldable pub on_search_select_show : Layout → Panel → Panel
unfolding get_pos clear_timeout
on_search_select_show l p =
    let shown = record p {
      select_display = block;
      select_left = get_pos l.select_width l.select_left;
      select_top = get_pos l.select_width l.select_top +ℤ pos l.select_height;
    } in
    if p.hide_timeout == 0
    then shown
    else record shown { timers = clear_timeout p.hide_timeout p.timers; hide_timeout = 0 }

-- OnSearchSelectHide; closeSelectionTimeout is 300
unfoldable pub on_search_select_hide : Panel → Panel
on_search_select_hide p = record p {
  hide_timeout = p.next_timer;
  timers = record { id = p.next_timer; action = close_selection; delay = 300 } ∷ p.timers;
  next_timer = suc p.next_timer;
}

-- SelectItemCount
unfoldable pub select_item_count : List Bool → ℕ
select_item_count [] = 0
select_item_count (item ∷ items) = suc (select_item_count items)

-- SelectItemSet, from the count j
unfoldable pub set_from : ℕ → ℕ → List Bool → List Bool
set_from id j [] = []
set_from id j (item ∷ items) = (j == id) ∷ set_from id (j + 1) items

unfoldable pub select_item_set : ℕ → List Bool → List Bool
unfolding set_from
select_item_set id items = set_from id 0 items
