-- ===== src/Folders/Sections/Laws.antt =====
-- toggleVisibility and toggleInherit of dynsections.js on sections that are open or closed.
use ta_ref.Prelude.{
  ℕ, zero, suc, ◌-◌, ◌≡◌, refl, ap, Bool, true, false, not, List, [], ◌∷◌, ◌++◌, if◌then◌else◌,
  arith, length, length-append, take,
}
use ta_ref.Text.{Str, codes}
use ta_ref.Folders.Sections.{Section, cut, toggle_visibility, Inherit, toggle_inherit, set_all}

cut-append : (n : ℕ) (base name : Str) → length name ≡ n → cut n (base ++ name) ≡ base
cut-append n base name h =
    let e : length (base ++ name) - n ≡ length base = omega (arith, length-append base name) in
    rw e (take-append base name)
  where
    take-append : (xs ys : Str) → take (length xs) (xs ++ ys) ≡ xs
    take-append [] ys = refl
    take-append (x ∷ xs) ys = ap (λ l. x ∷ l) (take-append xs ys)

abbrev picture : Bool → Str
picture open_ = if open_ then codes "open.png" else codes "closed.png"

-- A section that is open or closed in all its elements.
abbrev pub section : Str → Bool → Section
section base open_ = record {
  summary = not open_;
  content = open_;
  opened = open_;
  trigger_src = base ++ picture open_;
}

-- toggleVisibility closes an open section and opens a closed one, in all its elements, and changes the
-- name of the picture to the other one, whatever stands before it.
pub toggle_visibility-section :
    (base : Str) (open_ : Bool) → toggle_visibility (section base open_) ≡ section base (not open_)
unfolding toggle_visibility
toggle_visibility-section base true = rw (cut-append 8 base (codes "open.png") refl) refl
toggle_visibility-section base false = rw (cut-append 10 base (codes "closed.png") refl) refl

abbrev copies : ℕ → Bool → List Bool
copies zero b = []
copies (suc n) b = b ∷ copies n b

set_all-copies : (n : ℕ) (b c : Bool) → set_all b (copies n c) ≡ copies n b
unfolding set_all
set_all-copies zero b c = refl
set_all-copies (suc n) b c = ap (λ l. b ∷ l) (set_all-copies n b c)

-- The rows of an inherited group, all shown or all hidden, with the picture that says so.
abbrev pub inherit : Str → ℕ → Bool → Inherit
inherit base n open_ = record { rows = copies n open_; src = base ++ picture open_ }

-- toggleInherit hides all rows of a group with at least one row where they are shown, and shows all
-- where they are hidden, and changes the name of the picture to the other one.
pub toggle_inherit-inherit :
    (base : Str) (n : ℕ) (open_ : Bool)
    → toggle_inherit (inherit base (suc n) open_) ≡ inherit base (suc n) (not open_)
unfolding toggle_inherit
toggle_inherit-inherit base n true =
    rw (cut-append 8 base (codes "open.png") refl, set_all-copies (suc n) false true) refl
toggle_inherit-inherit base n false =
    rw (cut-append 10 base (codes "closed.png") refl, set_all-copies (suc n) true false) refl
