-- ===== src/Search/Box/Examples.antt =====
-- The theorems about the search panel's state at a concrete panel.
use ta_ref.Prelude.{◌++◌, some, none, List, arith, Bool, ◌≡◌, refl, true, false, [], ◌∷◌}
use ta_ref.Prelude.Int.{pos}
use ta_ref.Text.{to_hex, Str, codes, eq_str, index_of_text, strip_leading, strip_spaces}
use ta_ref.Text.Laws.{IsUnits-all}
use ta_ref.Text.Escape.{escape}
use ta_ref.Search.Results.{search_text, unset, block}
use ta_ref.Search.Box.{Config, Layout, Panel, select_item_count}
use ta_ref.Search.Box.Search.{index_char, Section, search, results_page}
use ta_ref.Search.Box.Events.{on_search_field_change, on_search_select_key}
use ta_ref.Search.Box.Laws.{search_found}
use ta_ref.Search.Box.Selection.{select_key_past_end}
use ta_ref.Search.Box.{run_search}
use ta_ref.Search.Box.Events.{on_select_item}
use ta_ref.Search.Box.Timers.{
  searches, on_select_item-searches, HasKeyTimer, field_change-HasKeyTimer,
}

abbrev no_case : Str → Str
no_case s = s

-- No text of the examples reads as a number.
abbrev no_number : Str → Bool
no_number s = false

abbrev panel_config : Config
panel_config = record { results_path = codes "search"; label = codes "Search"; extension = [] }

abbrev page_layout : Layout
page_layout = record {
  box_width = 200;
  box_left = pos 500 ∷ [];
  box_top = pos 8 ∷ [];
  select_width = 20;
  select_left = pos 504 ∷ [];
  select_top = pos 8 ∷ [];
  select_height = 19;
  popup_width = 300;
  body_width = 1024;
}

abbrev sections : List Section
sections =
    record { content = codes "abt"; name = codes "all" }
    ∷ record { content = codes "t"; name = codes "functions" }
    ∷ []

abbrev open_panel : Panel
open_panel = record {
  key_timeout = 0;
  hide_timeout = 0;
  last_search_value = [];
  last_results_page = [];
  search_index = 1;
  search_active = true;
  field_value = codes " tee";
  field_focused = true;
  box_active = true;
  close_display = unset;
  results_display = unset;
  results_position = record { top = pos 0; left = pos 0; width = pos 0 };
  results_location = [];
  results_focused = false;
  select_display = unset;
  select_left = pos 0;
  select_top = pos 0;
  select_items = false ∷ true ∷ [];
  select_focused = false;
  timers = [];
  next_timer = 1;
}

search_found_example :
    (q : Panel) × (search no_case no_number panel_config page_layout sections open_panel ≡ some q)
    × (q.last_search_value ≡ codes "tee")
    × (q.last_results_page ≡ codes "search/functions_0.html")
    × (q.key_timeout ≡ 0)
    × (q.results_display ≡ block)
    × (q.results_location ≡ codes "search/functions_0.html" ++ b'?' ∷ escape q.last_search_value)
    × (search_text no_case [] (escape q.last_search_value)
        ≡ search_text no_case q.last_search_value [])
unfolding strip_leading
search_found_example =
    search_found no_case no_number panel_config page_layout sections
      (record { content = codes "t"; name = codes "functions" }) open_panel
      (codes "search/functions_0.html") (IsUnits-all (codes " tee") refl) refl
      (unfold results_page index_char eq_str index_of_text to_hex in refl)

select_key_past_end_example :
    on_search_select_key no_case no_number panel_config page_layout sections 40 open_panel ≡ none
unfolding select_item_count eq_str strip_spaces
select_key_past_end_example =
    select_key_past_end no_case no_number panel_config page_layout sections open_panel refl refl
      refl refl

field_change-HasKeyTimer_example : HasKeyTimer (
    on_search_field_change panel_config page_layout
      (record { key_code = 84; shift_key = false })
      open_panel)
field_change-HasKeyTimer_example =
    field_change-HasKeyTimer panel_config page_layout (record { key_code = 84; shift_key = false })
      open_panel
      (record { noted = refl; key_old = omega arith; hide_old = omega arith; distinct = λ h. refl })

abbrev waiting_panel : Panel
waiting_panel = record open_panel {
  key_timeout = 1;
  timers = record { id = 1; action = run_search; delay = 500 } ∷ [];
  next_timer = 2;
}

on_select_item-searches_example :
    (q : Panel) × (on_select_item no_case no_number panel_config page_layout sections 0
        waiting_panel
      ≡ some q)
    × (q.key_timeout ≡ 0)
    × (searches q.timers ≡ 1 ∷ [])
unfolding strip_spaces eq_str
on_select_item-searches_example =
    on_select_item-searches no_case no_number panel_config page_layout sections
      (record { content = codes "abt"; name = codes "all" }) 0 waiting_panel
      (record {
        noted = refl;
        key_old = omega arith;
        hide_old = omega arith;
        distinct = λ h. absurd (omega arith);
      })
      (omega arith) refl refl refl
