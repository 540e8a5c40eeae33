-- ===== src/Menu/Examples.antt =====
-- The theorem about the menu at a window that gets narrower and wider.
use ta_ref.Prelude.{true, false, [], ◌∷◌, arith}
use ta_ref.Menu.{State}
use ta_ref.Menu.Laws.{IsReset, reset_all, reset_all-IsReset}

abbrev first_state : State
first_state = record {
  prev_width = 0;
  checked = false;
  menu_shown = true;
  box_in_1 = false;
  box_in_2 = false;
  place_2_shown = true;
}

reset_all-IsReset_example : IsReset (reset_all (1000 ∷ 500 ∷ 768 ∷ []) first_state)
reset_all-IsReset_example = reset_all-IsReset 1000 (500 ∷ 768 ∷ []) first_state (omega arith)
