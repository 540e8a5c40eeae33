-- ===== src/Menu/Laws.antt =====
-- Where the search box is seen.
use ta_ref.Prelude.{
  ℕ, ◌+◌, ◌≡◌, ◌≢◌, inl, inr, true, ◌&&◌, List, [], ◌∷◌, if◌then◌else◌, ◌==◌, ltb, leb, arith,
  Bool-cases,
}
use ta_ref.Menu.{State, reset_state}

-- How often the box is seen.
abbrev pub boxes_seen : State → ℕ
boxes_seen s = (if s.box_in_1 then 1 else 0) + (if s.box_in_2 && s.place_2_shown then 1 else 0)

abbrev pub reset_all : List ℕ → State → State
reset_all [] s = s
reset_all (w ∷ ws) s = reset_all ws (reset_state true w s)

-- The box is seen once, and its place goes by the width that resetState knows.
pub record IsReset (s : State) : Type 0 where
  pub once : boxes_seen s ≡ 1
  pub place : s.place_2_shown ≡ leb 768 s.prev_width
  pub first : s.box_in_1 ≡ ltb s.prev_width 768

changed-IsReset : (w : ℕ) (s : State) → w ≢ s.prev_width → IsReset (reset_state true w s)
unfolding reset_state
changed-IsReset w s h = elim (Bool-cases (w == s.prev_width)) [
  | inl e ↦ absurd (ground arith)
  | inr e ↦ elim (Bool-cases (ltb w 768)) [
    | inl n ↦ rw (e, n) (record { once = ground arith; place = ground arith; first = ground arith })
    | inr n ↦ rw (e, n) (record { once = ground arith; place = ground arith; first = ground arith })
  ]
]

reset_state-IsReset : (w : ℕ) (s : State) → IsReset s → IsReset (reset_state true w s)
unfolding reset_state
reset_state-IsReset w s h = elim (Bool-cases (w == s.prev_width)) [
  | inl e ↦ rw e h
  | inr e ↦ changed-IsReset w s (ground arith)
]

kept : (ws : List ℕ) (s : State) → IsReset s → IsReset (reset_all ws s)
kept [] s h = h
kept (w ∷ ws) s h = kept ws (reset_state true w s) (reset_state-IsReset w s h)

-- resetState on a page with a search box, run for any row of widths of which the first is not the one
-- that it knows: whatever the state was, in the end the box is seen exactly once, in the first place if
-- the width that it knows is below 768 and in the second, which is shown, if not.
pub reset_all-IsReset :
    (w : ℕ) (ws : List ℕ) (s : State) → w ≢ s.prev_width → IsReset (reset_all (w ∷ ws) s)
reset_all-IsReset w ws s h = kept ws (reset_state true w s) (changed-IsReset w s h)
