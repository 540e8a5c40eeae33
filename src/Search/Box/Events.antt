-- ===== src/Search/Box/Events.antt =====
-- The event handlers of SearchBox, search/search.js, that search: OnSearchFieldChange, OnSelectItem and
-- OnSearchSelectKey, and the timers.
use ta_ref.Prelude.{
  ℕ, suc, ◌+◌, ◌-◌, Bool, true, false, not, ◌&&◌, ◌||◌, List, [], ◌∷◌, Option, none, some,
  if◌then◌else◌, ◌==◌, ltb,
}
use ta_ref.Text.{Str, eq_str, strip_spaces}
use ta_ref.Search.Results.{hidden}
use ta_ref.Search.Box.{
  Config, Layout, Panel, Timer, run_search, close_selection, activate, clear_timeout,
  on_search_select_show, close_selection_window, select_item_set, select_item_count,
}
use ta_ref.Search.Box.Search.{Section, search}

pub record FieldEvent : Type 0 where
  pub key_code : ℕ
  pub shift_key : Bool

unfoldable pub kill_timer : Panel → Panel
unfolding clear_timeout
kill_timer p =
    if p.key_timeout == 0
    then p
    else record p { timers = clear_timeout p.key_timeout p.timers; key_timeout = 0 }

-- The end of OnSearchFieldChange; keyTimeoutLength is 500.
unfoldable pub value_change : Panel → Panel
unfolding strip_spaces
value_change p =
    let value = strip_spaces p.field_value in
    if eq_str value p.last_search_value
    then p
    else if eq_str value []
    then record p { results_display = hidden; close_display = hidden; last_search_value = [] }
    else record p {
      key_timeout = p.next_timer;
      timers = record { id = p.next_timer; action = run_search; delay = 500 } ∷ p.timers;
      next_timer = suc p.next_timer;
    }

unfoldable pub escape_field : Config → Panel → Panel
unfolding activate
escape_field c p = activate c false (record p {
  field_focused = false;
  results_display = hidden;
  close_display = hidden;
  last_search_value = [];
})

-- The first child of class SelectItem takes the focus, if there is one.
unfoldable pub focus_first : Panel → Panel
focus_first p =
    if ltb 0 (select_item_count p.select_items) then record p { select_focused = true } else p

-- OnSearchFieldChange
unfoldable pub on_search_field_change : Config → Layout → FieldEvent → Panel → Panel
unfolding kill_timer value_change escape_field focus_first on_search_select_show select_item_count
on_search_field_change c l e p =
    let q = kill_timer p in
    if e.key_code == 40 || e.key_code == 13
    then (if e.shift_key
        then focus_first (on_search_select_show l q)
        else value_change (record q { results_focused = true }))
    else if e.key_code == 27
    then escape_field c q
    else value_change q

module _ (lower : Str → Str) (gt_one : Str → Bool) where
  -- OnSelectItem
  unfoldable pub on_select_item : Config → Layout → List Section → ℕ → Panel → Option Panel
  unfolding search select_item_set strip_spaces
  on_select_item c l sections id p =
      let q = record p { search_index = id; select_items = select_item_set id p.select_items } in
      if not (eq_str (strip_spaces p.field_value) []) && p.search_active
      then search lower gt_one c l sections q
      else some q

  abbrev close_and_focus : Option Panel → Option Panel
  close_and_focus none = none
  close_and_focus (some p) = some (record p { select_display = hidden; field_focused = true })

  -- OnSearchSelectKey
  unfoldable pub on_search_select_key : Config → Layout → List Section → ℕ → Panel → Option Panel
  unfolding on_select_item select_item_count
  on_search_select_key c l sections key_code p =
      if key_code == 40 && ltb p.search_index (select_item_count p.select_items)
      then on_select_item c l sections (p.search_index + 1)
          (record p { search_index = p.search_index + 1 })
      else if key_code == 38 && ltb 0 p.search_index
      then on_select_item c l sections (p.search_index - 1)
          (record p { search_index = p.search_index - 1 })
      else if key_code == 13 || key_code == 27
      then close_and_focus (on_select_item c l sections p.search_index p)
      else some p

  -- A timer that waits runs out: it is taken from the list, and its action is carried out.
  unfoldable pub timer_fires : Config → Layout → List Section → Timer → Panel → Option Panel
  unfolding search close_selection_window clear_timeout
  timer_fires c l sections t p =
      let q = record p { timers = clear_timeout t.id p.timers } in
      elim t.action [
        | run_search ↦ search lower gt_one c l sections q
        | close_selection ↦ some (close_selection_window q)
      ]
