-- ===== src/Resize/Examples.antt =====
-- The theorems about the navigation bar at concrete windows and cookies.
use ta_ref.Prelude.{ℕ, ◌+◌, ◌≡◌, refl, Bool, true, false, [], Option, none, some, if◌then◌else◌}
use ta_ref.Prelude.Int.{ℤ, pos}
use ta_ref.Text.{index_of_text, is_prefix, eq_str, is_prefix, Str, codes}
use ta_ref.Resize.{index_of_text, read_cookie, Window, Bar, collapse_expand}
use ta_ref.Resize.Laws.{IsLaid, read_cookie_lem, collapse_expand-IsLaid}

-- Reads 250, and no other text.
abbrev reads_250 : Str → Option ℤ
reads_250 s = if eq_str s (codes "250") then some (pos 250) else none

abbrev no_digits : ℤ → Str
no_digits n = []

-- A jar that no assignment changes.
abbrev full_jar : Str → Str → Str
full_jar jar text = jar

abbrev window_of : ℕ → Window
window_of width = record {
  width = width;
  height = 600;
  header_height = 60;
  footer_height = 20;
  side_frame = 6;
  page_layout = none;
}

abbrev bar_of : ℕ → Bool → ℕ → Bar
bar_of width collapsed last_width = record {
  collapsed = collapsed;
  collapsed_width = last_width;
  bar_width = 6;
  side_width = width;
  content_margin = pos (width + 6);
  heights = none;
  jar = codes "doxygen_width=250";
}

read_cookie_lem_example :
    read_cookie (codes "width") (codes "my_doxygen_width=9; doxygen_width=250") ≡ some (codes "9")
unfolding index_of_text is_prefix
read_cookie_lem_example =
    read_cookie_lem (codes "width") (codes "my_") (codes "9") (some (codes " doxygen_width=250"))
      refl refl

collapse_expand-IsLaid_example :
    IsLaid
      (window_of 1000)
      (collapse_expand reads_250 no_digits full_jar (window_of 1000) (bar_of 0 true 1000))
    × ((collapse_expand reads_250 no_digits full_jar
          (window_of 1000)
          (bar_of 0 true 1000)).collapsed
        ≡ false)
collapse_expand-IsLaid_example =
    collapse_expand-IsLaid reads_250 no_digits full_jar (window_of 1000) (bar_of 0 true 1000)
