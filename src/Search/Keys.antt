-- ===== src/Search/Keys.antt =====
-- The keyboard on the results page: ProcessKeys, NavNext, NavPrev, Nav and NavChild of SearchResults,
-- search/search.js. The page is what createResults builds: the link `Item<i>` in row i, and the links
-- `Item<i>_c<n>` of a row with several results.
pub mod Laws
pub mod Moves
use ta_ref.Prelude.{
  ℕ, zero, suc, ◌+◌, ◌-◌, Bool, true, false, not, ◌&&◌, List, [], ◌∷◌, Option, none, some,
  if◌then◌else◌, length, get_elem?, ◌==◌, ltb,
}
use ta_ref.Prelude.Loops
use ta_ref.Prelude.Loops.{Loop, finished, unfinished}
use ta_ref.Search.Results.{Display, unset, block, hidden}

pub data EventType : Type 0 where
  keydown keypress keyup other : EventType

pub record KeyEvent : Type 0 where
  pub type_ : EventType
  pub key_code : ℕ

pub record Keys : Type 0 where
  pub last_key : ℕ
  pub repeat_on : Bool

abbrev process_type : EventType → ℕ → Keys → Keys × Bool
process_type keydown code k = (record { last_key = code; repeat_on = false }, not (code == 0))
process_type keypress code k =
    if not k.repeat_on
    then (record k { repeat_on = if k.last_key == 0 then false else true }, false)
    else (k, not (k.last_key == 0))
process_type keyup code k = (record { last_key = 0; repeat_on = false }, false)
process_type other code k = (k, not (k.last_key == 0))

-- ProcessKeys: the new state, and whether the key is to be acted on.
unfoldable pub process_keys : Keys → KeyEvent → Keys × Bool
process_keys k e = process_type e.type_ e.key_code k

-- A row of the page: its display, that of the element that FindChildElement returns in it, and the
-- number of its child links.
pub record Row : Type 0 where
  pub display : Display
  pub children : Option Display
  pub child_count : ℕ

abbrev pub is_block : Display → Bool
is_block block = true
is_block _ = false

abbrev pub is_open : Option Display → Bool
is_open none = false
is_open (some d) = is_block d

-- What the handler does to the page and to the panel around it.
pub data Act : Type 0 where
  focus_item : ℕ → Act
  focus_child : ℕ → ℕ → Act
  focus_search : Act
  close_results : Act

pub record Outcome : Type 0 where
  pub keys : Keys
  pub rows : List Row
  pub acts : List Act
  pub result : Bool

-- One round of the loop of NavNext: the item ends it where it is missing, or shown.
abbrev pick_next : Option Row → ℕ → Loop (Option ℕ) → Loop (Option ℕ)
pick_next none index rest = finished none
pick_next (some row) index rest = if is_block row.display then finished (some index) else rest

-- NavNext: the loop over Item<index>, Item<index+1>, …, with at most `fuel` rounds.
nav_next_from : ℕ → List Row → ℕ → Loop (Option ℕ)
nav_next_from zero rows index = unfinished
nav_next_from (suc fuel) rows index =
    let rest = nav_next_from fuel rows (index + 1) in pick_next (get_elem? rows index) index rest

-- There are no more rounds than items, and one for the missing item.
unfoldable pub nav_next : List Row → ℕ → Loop (Option ℕ)
unfolding nav_next_from
nav_next rows index = nav_next_from (length rows + 1) rows index

-- One round of the loop of NavPrev.
abbrev pick : Option Row → ℕ → Option ℕ → Option ℕ
pick none index rest = none
pick (some row) index rest = if is_block row.display then some index else rest

-- NavPrev at the index one less than the argument: there is no item Item-1.
unfoldable pub nav_prev : List Row → ℕ → Option ℕ
nav_prev rows zero = none
nav_prev rows (suc index) = let rest = nav_prev rows index in pick (get_elem? rows index) index rest

abbrev pub child_count_at : List Row → ℕ → ℕ
child_count_at rows i = elim (get_elem? rows i) [ none ↦ 0 | some row ↦ row.child_count ]

-- The loop for the last child: getElementById('Item'+index+'_c'+n) until there is none.
last_child : ℕ → List Row → ℕ → ℕ → Act → Loop Act
last_child zero rows index n found = unfinished
last_child (suc fuel) rows index n found =
    let rest = last_child fuel rows index (n + 1) (focus_child index n) in
    if ltb n (child_count_at rows index) then rest else finished found

set_children : List Row → ℕ → Display → List Row
set_children [] i d = []
set_children (row ∷ rows) zero d = elim row.children [
  | none ↦ row ∷ rows
  | some old ↦ record row { children = some d } ∷ rows
]
set_children (row ∷ rows) (suc i) d = row ∷ set_children rows i d

abbrev open_or : Option Row → Loop Act → Loop Act → Loop Act
open_or none last item = item
open_or (some row) last item = if is_open row.children then last else item

-- The branch of the key Up where NavPrev(newIndex) gave the item j.
up_at : List Row → ℕ → ℕ → Loop Act
unfolding last_child
up_at rows new_index j =
    open_or (get_elem? rows j)
      (last_child (child_count_at rows new_index + 1) rows new_index 0 (focus_item j))
      (finished (focus_item j))

up_focus : List Row → ℕ → Option ℕ → Loop Act
unfolding up_at
up_focus rows item_index none = finished focus_search
up_focus rows item_index (some j) = up_at rows (item_index - 1) j

abbrev focus_or_nothing : Option ℕ → List Act
focus_or_nothing none = []
focus_or_nothing (some j) = focus_item j ∷ []

-- The branch of the key Down, with the row of the item itself.
down_focus : List Row → ℕ → Row → Loop (List Act)
unfolding Loops.map
down_focus rows item_index row =
    if is_open row.children && ltb 0 row.child_count
    then finished (focus_child item_index 0 ∷ [])
    else Loops.map focus_or_nothing (nav_next rows (item_index + 1))

-- What Nav does with the key, where the item is in the page.
nav_key : Keys → List Row → ℕ → Row → Loop Outcome
unfolding Loops.map up_focus down_focus set_children nav_prev nav_next
nav_key keys rows item_index row =
    if keys.last_key == 38
    then Loops.map (λ act. done rows (act ∷ []) false)
        (up_focus rows item_index (nav_prev rows item_index))
    else if keys.last_key == 40
    then Loops.map (λ acts. done rows acts false) (down_focus rows item_index row)
    else if keys.last_key == 39
    then finished (done (set_children rows item_index block) [] false)
    else if keys.last_key == 37
    then finished (done (set_children rows item_index hidden) [] false)
    else if keys.last_key == 27
    then finished (done rows (close_results ∷ focus_search ∷ []) false)
    else finished (done rows [] (keys.last_key == 13))
  where
    done : List Row → List Act → Bool → Outcome
    done rows' acts result = record { keys = keys; rows = rows'; acts = acts; result = result }

abbrev pub still : Keys → List Row → List Act → Bool → Outcome
still keys rows acts result = record { keys = keys; rows = rows; acts = acts; result = result }

-- Nav, the handler of Item<itemIndex>; none where the page has no such item, which has no handler.
unfoldable pub nav : Keys → List Row → ℕ → KeyEvent → Option (Loop Outcome)
unfolding process_keys nav_key
nav keys rows item_index e =
    let (after, act) = process_keys keys e in
    elim (get_elem? rows item_index) [
      | none ↦ none
      | some row ↦
          if e.key_code == 13
          then some (finished (still keys rows [] true))
          else if act
          then some (nav_key after rows item_index row)
          else some (finished (still after rows [] false))
    ]

-- What NavChild does with the key at the child link Item<itemIndex>_c<childIndex>.
child_acts : ℕ → List Row → ℕ → ℕ → Loop (List Act)
unfolding nav_next Loops.map
child_acts last_key rows item_index child_index =
    if last_key == 38
    then finished (
        (if ltb 0 child_index
          then focus_child item_index (child_index - 1)
          else focus_item item_index)
        ∷ [])
    else if last_key == 40
    then (if ltb (child_index + 1) (child_count_at rows item_index)
        then finished (focus_child item_index (child_index + 1) ∷ [])
        else Loops.map focus_or_nothing (nav_next rows (item_index + 1)))
    else if last_key == 27
    then finished (close_results ∷ focus_search ∷ [])
    else finished []

-- NavChild; none where the page has no such child link, which has no handler.
unfoldable pub nav_child : Keys → List Row → ℕ → ℕ → KeyEvent → Option (Loop Outcome)
unfolding Loops.map process_keys child_acts
nav_child keys rows item_index child_index e =
    let (after, act) = process_keys keys e in
    if not (ltb child_index (child_count_at rows item_index))
    then none
    else if e.key_code == 13
    then some (finished (still keys rows [] true))
    else if act
    then some (
        Loops.map (λ acts. still after rows acts (after.last_key == 13))
          (child_acts after.last_key rows item_index child_index))
    else some (finished (still after rows [] false))

-- Which of a row of events are acted on.
unfoldable pub accepted : Keys → List KeyEvent → List Bool
unfolding process_keys
accepted k [] = []
accepted k (e ∷ es) = let (k', act) = process_keys k e in act ∷ accepted k' es
