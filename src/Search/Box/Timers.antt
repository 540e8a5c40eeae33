-- ===== src/Search/Box/Timers.antt =====
-- The key timer of the search panel, keyTimeout in search/search.js.
use ta_ref.Prelude.{
  ℕ, ◌<◌, ◌≡◌, ◌≢◌, refl, ◌∙◌, Bool, true, false, List, [], ◌∷◌, some, if◌then◌else◌, get_elem?,
  ◌==◌, arith, if_intro,
}
use ta_ref.Search.Box.Search.{Section, search_in, search, show_results}
use ta_ref.Search.Box.Events.{on_select_item}
use ta_ref.Text.{Str, strip_spaces, eq_str}
use ta_ref.Search.Box.{
  select_item_set, Config, Layout, Panel, Timer, TimerAction, run_search, close_selection,
  clear_timeout, on_search_select_show,
}
use ta_ref.Search.Box.Events.{
  FieldEvent, on_search_field_change, kill_timer, value_change, escape_field, focus_first,
}

abbrev consider : TimerAction → ℕ → List ℕ → List ℕ
consider run_search id ids = id ∷ ids
consider close_selection id ids = ids

-- The ids of the timers that wait to search.
abbrev pub searches : List Timer → List ℕ
searches [] = []
searches (t ∷ ts) = consider t.action t.id (searches ts)

-- Search waits at most once, under the id that keyTimeout holds; the ids of the timers to come are
-- new, and the two timeouts are different timers.
pub record HasKeyTimer (p : Panel) : Type 0 where
  pub noted : searches p.timers ≡ (if p.key_timeout == 0 then [] else p.key_timeout ∷ [])
  pub key_old : p.key_timeout < p.next_timer
  pub hide_old : p.hide_timeout < p.next_timer
  pub distinct : p.hide_timeout ≡ p.key_timeout → p.key_timeout ≡ 0

abbrev remove : ℕ → List ℕ → List ℕ
remove id [] = []
remove id (x ∷ xs) = let rest = remove id xs in if x == id then rest else x ∷ rest

searches-clear_timeout :
    (id : ℕ) (ts : List Timer) → searches (clear_timeout id ts) ≡ remove id (searches ts)
unfolding clear_timeout
searches-clear_timeout id [] = refl
searches-clear_timeout id (t ∷ ts) = ground (arith, searches-clear_timeout id ts)

kill_timer-HasKeyTimer :
    (p : Panel) → HasKeyTimer p → HasKeyTimer (kill_timer p) × ((kill_timer p).key_timeout ≡ 0)
unfolding kill_timer
kill_timer-HasKeyTimer p h = ground (arith, searches-clear_timeout p.key_timeout p.timers)

value_change-HasKeyTimer :
    (p : Panel) → HasKeyTimer p → p.key_timeout ≡ 0 → HasKeyTimer (value_change p)
unfolding value_change
value_change-HasKeyTimer p h z = ground arith

on_search_select_show-HasKeyTimer :
    (l : Layout) (p : Panel)
    → HasKeyTimer p
    → p.key_timeout ≡ 0
    → HasKeyTimer (on_search_select_show l p) × ((on_search_select_show l p).key_timeout ≡ 0)
unfolding on_search_select_show
on_search_select_show-HasKeyTimer l p h z =
    ground (arith, searches-clear_timeout p.hide_timeout p.timers)

focus_first-HasKeyTimer : (p : Panel) → HasKeyTimer p → HasKeyTimer (focus_first p)
unfolding focus_first
focus_first-HasKeyTimer p h = ground arith

focused-HasKeyTimer :
    (p : Panel) → HasKeyTimer p → HasKeyTimer (record p { results_focused = true })
focused-HasKeyTimer p h = record {
  noted = h.noted;
  key_old = h.key_old;
  hide_old = h.hide_old;
  distinct = h.distinct;
}

escape_field-HasKeyTimer : (c : Config) (p : Panel) → HasKeyTimer p → HasKeyTimer (escape_field c p)
unfolding escape_field
escape_field-HasKeyTimer c p h = ground arith

-- A change of the search field keeps it so that at most one search waits, which can be cancelled.
pub field_change-HasKeyTimer :
    (c : Config) (l : Layout) (e : FieldEvent) (p : Panel)
    → HasKeyTimer p
    → HasKeyTimer (on_search_field_change c l e p)
unfolding on_search_field_change
field_change-HasKeyTimer c l e p h =
    let (killed, z) = kill_timer-HasKeyTimer p h in
    let (shown, y) = on_search_select_show-HasKeyTimer l (kill_timer p) killed z in
    if_intro HasKeyTimer _
      (if_intro HasKeyTimer _
        (focus_first-HasKeyTimer (on_search_select_show l (kill_timer p)) shown)
        (value_change-HasKeyTimer (record (kill_timer p) { results_focused = true })
          (focused-HasKeyTimer (kill_timer p) killed) z))
      (if_intro HasKeyTimer _ (escape_field-HasKeyTimer c (kill_timer p) killed)
        (value_change-HasKeyTimer (kill_timer p) killed z))

module _ (lower : Str → Str) (gt_one : Str → Bool) where
  search_in-timers :
      (c : Config) (l : Layout) (section : Section) (p : Panel)
      → ((search_in lower gt_one c l section p).timers ≡ p.timers)
        × ((search_in lower gt_one c l section p).key_timeout ≡ 0)
  unfolding search_in show_results
  search_in-timers c l section p = ground arith

  -- While a search waits, the choice of a section that there is, with the panel active and a text in the
  -- field, searches and notes no key timer, but the search still waits: it can no more be cancelled.
  pub on_select_item-searches :
      (c : Config) (l : Layout) (sections : List Section) (section : Section) (id : ℕ) (p : Panel)
      → HasKeyTimer p
      → p.key_timeout ≢ 0
      → p.search_active ≡ true
      → eq_str (strip_spaces p.field_value) [] ≡ false
      → get_elem? sections id ≡ some section
      → (q : Panel) × (on_select_item lower gt_one c l sections id p ≡ some q)
        × (q.key_timeout ≡ 0)
        × (searches q.timers ≡ p.key_timeout ∷ [])
  unfolding on_select_item search
  on_select_item-searches c l sections section id p h waits active text here =
      let chosen : Panel = record p {
        search_index = id;
        select_items = select_item_set id p.select_items;
      } in
      let (timers, none_noted) = search_in-timers c l section chosen in
      (
        search_in lower gt_one c l section chosen,
        rw (active, text, here) refl,
        none_noted,
        rw timers (h.noted ∙ ground arith),
      )
