-- ===== src/Resize/Laws.antt =====
-- What folding the navigation bar leaves, and what a cookie gives back.
use ta_ref.Prelude.{
  ℕ, zero, suc, ◌+◌, ◌≤◌, ◌<◌, ◌≡◌, refl, ap, ◌∙◌, inl, inr, ◌⊎◌, true, false, not, ◌&&◌, List, [],
  ◌∷◌, ◌++◌, Option, none, some, ◌==◌, ltb, arith, length, take, drop, all, Bool-cases,
  Option-cases,
}
use ta_ref.Prelude.Int.{ℤ, pos, negsuc}
use ta_ref.Text.{Str, codes, index_of, index_of_text}
use mathlib.Core.List.{append-nil}
use ta_ref.Resize.{
  up_to_semicolon, cookie_key, read_cookie, Window, Bar, restore_width, heights_of, value_of,
  within, collapse_expand, follow_width, resize_height,
}

-- A width that the bar may have: folded, or 200 at least and below the width of the window.
abbrev pub IsWidth : Window → ℕ → Type 0
IsWidth w n = (n ≡ 0) ⊎ ((n ≡ 200) ⊎ ((200 < n) × (n < w.width)))

-- The bar has such a width, it counts as folded exactly where its width is 0, and the content begins
-- where the bar and the split bar end.
pub record IsLaid (w : Window) (b : Bar) : Type 0 where
  pub width_ok : IsWidth w b.side_width
  pub folded : b.collapsed ≡ (b.side_width == 0)
  pub margin : b.content_margin ≡ pos (b.side_width + b.bar_width)

index_of-none : (c : ℕ) (s : Str) → all (λ d. not (c == d)) s ≡ true → index_of c s ≡ none
unfolding index_of
index_of-none c [] h = refl
index_of-none c (d ∷ s) h = ground (arith, index_of-none c s)

index_of-append :
    (c : ℕ) (s rest : Str)
    → all (λ d. not (c == d)) s ≡ true
    → index_of c (s ++ c ∷ rest) ≡ some (length s)
unfolding index_of
index_of-append c [] rest h = ground arith
index_of-append c (d ∷ s) rest h = ground (arith, index_of-append c s rest)

drop-append {ℓ} : {A : Type ℓ} (xs ys : List A) → drop (length xs) (xs ++ ys) ≡ ys
drop-append [] ys = refl
drop-append (x ∷ xs) ys = drop-append xs ys

take-append {ℓ} : {A : Type ℓ} (xs ys : List A) → take (length xs) (xs ++ ys) ≡ xs
take-append [] ys = refl
take-append (x ∷ xs) ys = ap (λ l. x ∷ l) (take-append xs ys)

-- What a jar holds behind a cookie: nothing, or a semicolon and more.
abbrev pub more : Option Str → Str
more none = []
more (some rest) = b';' ∷ rest

drop-nil {ℓ} : {A : Type ℓ} (n : ℕ) → [] ≡ drop {A = A} n []
drop-nil zero = refl
drop-nil (suc n) = refl

drop_add {ℓ} : {A : Type ℓ} (m n : ℕ) (xs : List A) → drop (m + n) xs ≡ drop n (drop m xs)
drop_add zero n xs = let e : 0 + n ≡ n = omega arith in rw e
drop_add (suc m) n [] = let e : suc m + n ≡ suc (m + n) = omega arith in rw e (drop-nil n)
drop_add (suc m) n (x ∷ xs) =
    let e : suc m + n ≡ suc (m + n) = omega arith in rw e (drop_add m n xs)

up_to-more :
    (val : Str) (rest : Option Str)
    → all (λ d. not (b';' == d)) val ≡ true
    → up_to_semicolon (val ++ more rest) (index_of b';' (val ++ more rest)) ≡ val
up_to-more val none h = simp (append-nil, index_of-none b';' val h)
up_to-more val (some rest) h = rw (index_of-append b';' val rest h) (take-append val (b';' ∷ rest))

-- readCookie gives what stands, up to the next semicolon or the end, behind the first place in the jar
-- where the name with the namespace before it and `=` behind it stands, be that the whole name of a
-- cookie or the end of a longer one. The premises say that it is the first place, and that there is no
-- semicolon in what is given.
pub read_cookie_lem :
    (cookie before val : Str) (rest : Option Str)
    → let jar = before ++ (cookie_key cookie ++ (val ++ more rest)) in
      index_of_text (cookie_key cookie) jar ≡ some (length before)
      → all (λ d. not (b';' == d)) val ≡ true
      → read_cookie cookie jar ≡ some val
unfolding read_cookie
read_cookie_lem cookie before val rest first clean =
    let key = cookie_key cookie in
    let jar = before ++ (key ++ (val ++ more rest)) in
    let split : drop (length before + length key) jar ≡ val ++ more rest =
      drop_add (length before) (length key) jar
      ∙ rw (drop-append before (key ++ (val ++ more rest))) (drop-append key (val ++ more rest)) in
    rw (read_cookie, first, split) (ap some (up_to-more val rest clean))

module _ (number : Str → Option ℤ) (decimal : ℤ → Str) (set_cookie : Str → Str → Str) where
  within_lem :
      (w : Window) (o : Option ℤ)
      → (n : ℕ) × (within number decimal set_cookie w o ≡ pos n)
        × ((n ≡ 200) ⊎ ((200 < n) × (n < w.width)))
  within_lem w none = (200, refl, inl refl)
  within_lem w (some (pos n)) = elim (Bool-cases (ltb 200 n && ltb n w.width)) [
    | inl e ↦ (n, ground arith, inr (ground arith, ground arith))
    | inr e ↦ (200, ground arith, inl refl)
  ]
  within_lem w (some (negsuc n)) = (200, ground arith, inl refl)

  folding :
      (w : Window) (b : Bar)
      → (b.side_width == 0) ≡ false
      → (collapse_expand number decimal set_cookie w b).side_width ≡ 0
  unfolding collapse_expand restore_width
  folding w b h = ground arith

  unfolding_lem :
      (w : Window) (b : Bar)
      → b.side_width ≡ 0
      → (collapse_expand number decimal set_cookie w b).collapsed ≡ false
  unfolding collapse_expand restore_width
  unfolding_lem w b h = rw h refl

  opened-IsLaid :
      (w : Window) (b : Bar) (n : ℕ)
      → ((n ≡ 200) ⊎ ((200 < n) × (n < w.width)))
      → IsLaid w (record (restore_width (pos n) b) { collapsed = false })
  unfolding restore_width
  opened-IsLaid w b n h = record {
    width_ok = inr h;
    folded = elim h [ inl e ↦ ground arith | inr e ↦ ground arith ];
    margin = ground arith;
  }

  -- collapseExpand, from any state, leaves a width that the bar may have in the window, with the mark of
  -- a folded bar exactly where the width is 0, and with the content beside the bar; it folds a bar that is
  -- open, and opens one that is not.
  pub collapse_expand-IsLaid :
      (w : Window) (b : Bar)
      → IsLaid w (collapse_expand number decimal set_cookie w b)
        × ((collapse_expand number decimal set_cookie w b).collapsed ≡ ltb 0 b.side_width)
  unfolding collapse_expand restore_width
  collapse_expand-IsLaid w b = elim (Bool-cases (ltb 0 b.side_width)) [
    | inl e ↦ rw e (record { width_ok = inl refl; folded = refl; margin = ground arith }, refl)
    | inr e ↦
        let (n, same, ok) =
          within_lem w (value_of number decimal set_cookie (read_cookie (codes "width") b.jar)) in
        rw (e, same) (opened-IsLaid w b n ok, refl)
  ]

  resize_height_changed :
      (w : Window) (b : Bar)
      → (h : Bar) × (resize_height number decimal set_cookie w b
          ≡ follow_width number decimal set_cookie w h)
        × (h.collapsed ≡ b.collapsed)
        × (h.collapsed_width ≡ b.collapsed_width)
        × (h.side_width ≡ b.side_width)
  unfolding resize_height
  resize_height_changed w b = elim (Option-cases (heights_of w)) [
    | inl e ↦ (b, rw e, refl, refl, refl)
    | inr (hs, e) ↦ (record b { heights = some hs }, rw e, refl, refl, refl)
  ]

  -- A window that comes from 768 pixels or more to fewer folds an open bar, and leaves a folded one.
  pub resize_height-folds :
      (w : Window) (b : Bar)
      → w.width < 768
      → 768 ≤ b.collapsed_width
      → b.collapsed ≡ (b.side_width == 0)
      → (resize_height number decimal set_cookie w b).side_width ≡ 0
  unfolding follow_width
  resize_height-folds w b narrow wide folded =
      let (h, same, c, cw, sw) = resize_height_changed w b in
      rw same (elim (Bool-cases (b.side_width == 0)) [
        | inl e ↦ ground arith
        | inr e ↦ let f = folding w h (ground arith) in ground arith
      ])

  -- A window of fewer than 768 pixels with a folded bar that is made 768 pixels wide and then wider
  -- keeps the bar folded, though the bar is unfolded where the window gets as wide at once.
  pub resize_height_at_breakpoint :
      (at wide : Window) (b : Bar)
      → at.width ≡ 768
      → 768 < wide.width
      → b.collapsed_width < 768
      → b.collapsed ≡ true
      → b.side_width ≡ 0
      → let resize = resize_height number decimal set_cookie in
        ((resize wide (resize at b)).collapsed ≡ true) × ((resize wide b).collapsed ≡ false)
  unfolding follow_width
  resize_height_at_breakpoint at wide b h l m c z =
      let (b1, same1, c1, cw1, sw1) = resize_height_changed at b in
      let (b2, same2, c2, cw2, sw2) =
        resize_height_changed wide (resize_height number decimal set_cookie at b) in
      let (b3, same3, c3, cw3, sw3) = resize_height_changed wide b in
      let opens = unfolding_lem wide b3 (sw3 ∙ z) in
      let there : (resize_height number decimal set_cookie at b).collapsed ≡ true =
        rw same1 (ground arith) in
      let there_width : (resize_height number decimal set_cookie at b).collapsed_width ≡ 768 =
        rw same1 (ground arith) in
      (rw same2 (ground arith), rw same3 (ground arith))
