-- ===== src/Search/Box/Placement.antt =====
-- Where the window of the results is opened.
use ta_ref.Prelude.{ℕ, ◌+◌, ◌≤◌, ◌≡◌, inl, inr, false, if◌then◌else◌, ltb, arith, Bool-cases}
use ta_ref.Prelude.Int.{ℤ, pos, negsuc, ◌+ℤ◌, ◌-ℤ◌, ltb_ℤ}
use ta_ref.Search.Box.{Layout, get_pos}
use ta_ref.Search.Box.Search.{place_results}

abbrev at_least_ten : ℤ → ℤ
at_least_ten left = if ltb_ℤ left (pos 10) then pos 10 else left

at_least_ten_lem : (left : ℤ) → (n : ℕ) × (at_least_ten left ≡ pos n) × (10 ≤ n)
at_least_ten_lem (pos n) = elim (Bool-cases (ltb n 10)) [
  | inl e ↦ (10, ground arith, omega arith)
  | inr e ↦ (n, ground arith, ground arith)
]
at_least_ten_lem (negsuc n) = (10, ground arith, omega arith)

abbrev fitting : ℕ → ℤ → ℤ
fitting body left =
    if ltb_ℤ (pos body) (pos 400 +ℤ left +ℤ pos 8) then pos body -ℤ left -ℤ pos 8 else pos 400

fitting_lem : (body n : ℕ) → ltb_ℤ (pos body) (fitting body (pos n) +ℤ pos n +ℤ pos 8) ≡ false
fitting_lem body n = elim (Bool-cases (ltb body (400 + n + 8))) [
  | inl e ↦ ground arith
  | inr e ↦ ground arith
]

-- The window of the results begins 10 pixels from the left at least, and with its width and 8 pixels it
-- does not end beyond the body.
pub place_results_fits :
    (l : Layout)
    → let p = place_results l in
      (ltb_ℤ p.left (pos 10) ≡ false)
      × (ltb_ℤ (pos l.body_width) (p.width +ℤ p.left +ℤ pos 8) ≡ false)
unfolding place_results
place_results_fits l =
    let (n, same, ten) =
      at_least_ten_lem (get_pos l.box_width l.box_left +ℤ pos 150 -ℤ pos l.popup_width) in
    rw same (ground arith, fitting_lem l.body_width n)
