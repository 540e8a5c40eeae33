-- ===== src/Search/Keys/Moves.antt =====
-- Where the arrow keys move the focus on the results page.
use ta_ref.Prelude.{
  ℕ, zero, suc, ◌+◌, ◌-◌, ◌<◌, ◌≡◌, ap, ◌∙◌, true, false, List, [], ◌∷◌, some, if◌then◌else◌,
  get_elem?, ◌&&◌, arith, ltb,
}
use ta_ref.Prelude.Loops
use ta_ref.Prelude.Loops.{Loop, finished}
use ta_ref.Search.Keys.{
  open_or, up_at, pick, keydown, KeyEvent, Keys, process_keys, Row, is_block, is_open, nav_prev,
  nav, nav_key, up_focus, last_child, child_count_at, Act, focus_item, focus_child, still,
}

last_child_lem :
    (fuel : ℕ) (rows : List Row) (i n : ℕ) (found : Act)
    → 0 < fuel
    → child_count_at rows i < fuel + n
    → last_child fuel rows i n found
      ≡ finished (
          if ltb n (child_count_at rows i)
          then focus_child i (child_count_at rows i - 1)
          else found)
unfolding last_child
last_child_lem zero rows i n found some_round h = absurd (omega arith)
last_child_lem (suc fuel) rows i n found some_round h =
    ground (arith, last_child_lem fuel rows i (n + 1) (focus_child i n))

abbrev pub arrow_up : KeyEvent
arrow_up = record { type_ = keydown; key_code = 38 }

abbrev pub up_keys : Keys
up_keys = record { last_key = 38; repeat_on = false }

nav-up :
    (keys : Keys) (rows : List Row) (i : ℕ) (row : Row)
    → get_elem? rows i ≡ some row
    → nav keys rows i arrow_up
      ≡ some (
          Loops.map
            (λ act. still up_keys rows (act ∷ []) false)
            (up_focus rows i (nav_prev rows i)))
unfolding nav process_keys nav_key
nav-up keys rows i row here = rw (here, nav)

up_focus-suc : (rows : List Row) (i j : ℕ) → up_focus rows (suc i) (some j) ≡ up_at rows i j
unfolding up_focus
up_focus-suc rows i j = let index : suc i - 1 ≡ i = omega arith in ap (λ k. up_at rows k j) index

up_at_lem :
    (rows : List Row) (i j : ℕ)
    → up_at rows i j
      ≡ open_or
          (get_elem? rows j)
          (finished (
            if ltb 0 (child_count_at rows i)
            then focus_child i (child_count_at rows i - 1)
            else focus_item j))
          (finished (focus_item j))
unfolding up_at
up_at_lem rows i j =
    ap (λ a. open_or (get_elem? rows j) a (finished (focus_item j)))
      (last_child_lem (child_count_at rows i + 1) rows i 0 (focus_item j) (omega arith)
        (omega arith))

up_at_adjacent :
    (rows : List Row) (i : ℕ) (previous : Row)
    → get_elem? rows i ≡ some previous
    → up_at rows i i
      ≡ finished (
          if is_open previous.children && ltb 0 previous.child_count
          then focus_child i (previous.child_count - 1)
          else focus_item i)
up_at_adjacent rows i previous h =
    let count : child_count_at rows i ≡ previous.child_count = rw (h, child_count_at) in
    up_at_lem rows i i ∙ rw (count, h) (ground arith)

up_at_skips :
    (rows : List Row) (i j : ℕ)
    → child_count_at rows i ≡ 0
    → up_at rows i j ≡ finished (focus_item j)
up_at_skips rows i j h = up_at_lem rows i j ∙ rw h (ground arith)

nav_prev_adjacent :
    (rows : List Row) (i : ℕ) (previous : Row)
    → get_elem? rows i ≡ some previous
    → is_block previous.display ≡ true
    → nav_prev rows (suc i) ≡ some i
unfolding nav_prev
nav_prev_adjacent rows i previous h b = rw (h, pick) (rw b)

-- Up at an item whose previous row is shown goes to the last child link of that row, where its
-- children are shown and there is one, and else to its item.
pub nav_up_adjacent :
    (keys : Keys) (rows : List Row) (i : ℕ) (row previous : Row)
    → get_elem? rows (suc i) ≡ some row
    → get_elem? rows i ≡ some previous
    → is_block previous.display ≡ true
    → nav keys rows (suc i) arrow_up
      ≡ some (
          finished (
            still up_keys rows
              ((if is_open previous.children && ltb 0 previous.child_count
                  then focus_child i (previous.child_count - 1)
                  else focus_item i)
                ∷ [])
              false))
unfolding Loops.map
nav_up_adjacent keys rows i row previous here before shown =
    nav-up keys rows (suc i) row here
    ∙ rw (nav_prev_adjacent rows i previous before shown) (
        ap (λ l. some (Loops.map (λ act. still up_keys rows (act ∷ []) false) l))
          (up_focus-suc rows i i ∙ up_at_adjacent rows i previous before))

-- Up at an item whose previous row is hidden and has no child links goes to the item of the next shown
-- row above, also where that row's children are shown: the child links are looked for under the index
-- of the hidden row.
pub nav_up_skips_children :
    (keys : Keys) (rows : List Row) (i j : ℕ) (row : Row)
    → get_elem? rows (suc i) ≡ some row
    → nav_prev rows (suc i) ≡ some j
    → child_count_at rows i ≡ 0
    → nav keys rows (suc i) arrow_up
      ≡ some (finished (still up_keys rows (focus_item j ∷ []) false))
unfolding Loops.map
nav_up_skips_children keys rows i j row here found no_children =
    nav-up keys rows (suc i) row here
    ∙ rw found (
        ap (λ l. some (Loops.map (λ act. still up_keys rows (act ∷ []) false) l))
          (up_focus-suc rows i j ∙ up_at_skips rows i j no_children))
