-- ===== src/Resize.antt =====
-- initResizable of docs/ta-ref_readme_html/resize.js (the copy under docs/ta-ref_spec_html is the same
-- text): the width of the navigation bar, kept in a cookie, and its folding on narrow windows. Lengths
-- are whole pixels. `number` reads a text as a number; `set_cookie` is the assignment to
-- document.cookie, which the browser turns into a change of its jar.
pub mod Laws
mod Examples
use ta_ref.Prelude.{
  ℕ, zero, suc, ◌+◌, ◌-◌, ◌≤◌, ◌<◌, ◌≡◌, ◌≢◌, refl, sym, ap, ◌∙◌, inl, inr, ◌⊎◌, Bool, true, false,
  not, ◌&&◌, ◌||◌, List, [], ◌∷◌, ◌++◌, Option, none, some, if◌then◌else◌, get_elem?, ◌==◌, ltb,
  leb, arith, length, take, drop, all, map, Bool-cases, Option-cases, if_intro,
}
use ta_ref.Prelude.Int.{ℤ, pos, negsuc, ◌+ℤ◌, ◌-ℤ◌, ltb_ℤ}
use ta_ref.Text.{Str, codes, index_of, index_of_text}

abbrev pub cookie_key : Str → Str
cookie_key cookie = codes "doxygen" ++ (b'_' ∷ (cookie ++ codes "="))

abbrev pub up_to_semicolon : Str → Option ℕ → Str
up_to_semicolon s none = s
up_to_semicolon s (some i) = take i s

-- readCookie; none is the number 0
unfoldable pub read_cookie : Str → Str → Option Str
unfolding index_of_text index_of
read_cookie cookie jar =
    let key = cookie_key cookie in
    elim (index_of_text key jar) [
      | none ↦ none
      | some index ↦
          let val = drop (index + length key) jar in some (up_to_semicolon val (index_of b';' val))
    ]

-- What writeCookie assigns, with the date at which the cookie ends.
unfoldable pub cookie_text : Str → Str → Str → Str
cookie_text cookie val expiration =
    cookie_key cookie
    ++ (val ++ (codes "; SameSite=Lax; expires=" ++ (expiration ++ codes "; path=/")))

-- What layout gives of the window and the elements. `side_frame` is what outerWidth adds to the width
-- of the bar; `page_layout` is the variable of that name, if there is one.
pub record Window : Type 0 where
  pub width : ℕ
  pub height : ℕ
  pub header_height : ℕ
  pub footer_height : ℕ
  pub side_frame : ℕ
  pub page_layout : Option ℕ

pub record Heights : Type 0 where
  pub content : ℤ
  pub navtree : ℤ
  pub sidenav : ℤ

-- `collapsed` is undefined at first, which counts as false.
pub record Bar : Type 0 where
  pub collapsed : Bool
  pub collapsed_width : ℕ
  pub bar_width : ℕ
  pub side_width : ℕ  -- sidenav.width()
  pub content_margin : ℤ  -- the left margin of the content
  pub heights : Option Heights
  pub jar : Str  -- document.cookie

abbrev desktop_vp : ℕ
desktop_vp = 768

-- css({width: …}) does not take a negative width.
abbrev set_width : ℤ → ℕ → ℕ
set_width (pos n) old = n
set_width (negsuc n) old = old

-- restoreWidth
unfoldable pub restore_width : ℤ → Bar → Bar
restore_width nav_width b = record b {
  content_margin = nav_width +ℤ pos b.bar_width;
  side_width = set_width nav_width b.side_width;
}

-- The heights that resizeHeight computes; any other layout leaves them undefined.
unfoldable pub heights_of : Window → Option Heights
heights_of w =
    let inner = pos w.height -ℤ pos w.header_height -ℤ pos w.footer_height in
    elim w.page_layout [
      | none ↦ some (record { content = inner; navtree = inner; sidenav = inner })
      | some layout ↦
          if layout == 0
          then some (record { content = inner; navtree = inner; sidenav = inner })
          else if layout == 1
          then some (record {
            content = pos w.height -ℤ pos w.footer_height;
            navtree = pos w.height -ℤ pos w.header_height;
            sidenav = pos w.height;
          })
          else none
    ]

-- css with "undefinedpx" changes nothing
abbrev set_heights : Option Heights → Bar → Bar
set_heights none b = b
set_heights (some h) b = record b { heights = some h }

module _ (number : Str → Option ℤ) (decimal : ℤ → Str) (set_cookie : Str → Str → Str) where
  abbrev pub value_of : Option Str → Option ℤ
  value_of none = some (pos 0)
  value_of (some s) = number s

  abbrev pub within : Window → Option ℤ → ℤ
  within w none = pos 200
  within w (some width) =
      if ltb_ℤ (pos 200) width && ltb_ℤ width (pos w.width) then width else pos 200

  -- collapseExpand
  unfoldable pub collapse_expand : Window → Bar → Bar
  unfolding restore_width read_cookie
  collapse_expand w b =
      if ltb 0 b.side_width
      then record (restore_width (pos 0) b) { collapsed = true }
      else record (restore_width (within w (value_of (read_cookie (codes "width") b.jar))) b) {
        collapsed = false;
      }

  -- The part of resizeHeight that folds and unfolds the bar where the width of the window has changed.
  unfoldable pub follow_width : Window → Bar → Bar
  unfolding collapse_expand
  follow_width w b =
      if w.width == b.collapsed_width
      then b
      else record (if ltb w.width desktop_vp && leb desktop_vp b.collapsed_width
          then (if b.collapsed then b else collapse_expand w b)
          else if ltb desktop_vp w.width && ltb b.collapsed_width desktop_vp
          then (if b.collapsed then collapse_expand w b else b)
          else b) { collapsed_width = w.width }

  -- resizeHeight
  unfoldable pub resize_height : Window → Bar → Bar
  unfolding follow_width heights_of
  resize_height w b = follow_width w (set_heights (heights_of w) b)

  -- resizeWidth, which runs while the bar is dragged
  unfoldable pub resize_width : Window → Str → Bar → Bar
  unfolding cookie_text
  resize_width w expiration b =
      let outer = b.side_width + w.side_frame in
      record b {
        content_margin = pos outer;
        jar =
            set_cookie b.jar
              (cookie_text (codes "width") (decimal (pos outer -ℤ pos b.bar_width)) expiration);
      }

  abbrev is_true : Option Str → Bool
  is_true none = false
  is_true (some []) = false
  is_true (some (c ∷ s)) = true

  -- The start: a wider split bar on touch devices, the width of the cookie, and the heights.
  unfoldable pub init_resizable : Bool → Window → Str → Bar → Bar
  unfolding resize_height resize_width restore_width read_cookie
  init_resizable touch w expiration b0 =
      let b = record b0 {
        collapsed = false;
        collapsed_width = 0;
        bar_width = if touch then 20 else 6;
      } in
      let width = read_cookie (codes "width") b.jar in
      resize_height w (
        if is_true width
        then elim (value_of width) [ none ↦ b | some px ↦ restore_width px b ]
        else resize_width w expiration b)
