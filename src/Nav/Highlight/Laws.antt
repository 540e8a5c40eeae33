-- ===== src/Nav/Highlight/Laws.antt =====
-- selectAndHighlight of navtree.js on the links that newNode makes.
use ta_ref.Prelude.{
  ℕ, ◌≡◌, refl, sym, ◌∙◌, Bool, true, false, not, ◌&&◌, List, [], ◌∷◌, ◌++◌, Option, none, some,
  get_elem?, ◌==◌, arith, length, all,
}
use ta_ref.Text.{Str, last_index_of}
use ta_ref.Text.Laws.{eq_str_refl}
use ta_ref.Nav.Path.{strip_path, path_name}
use ta_ref.Nav.Link.{node_link, linked, colon_for_hash}
use ta_ref.Nav.Highlight.{ends_with, wanted_class, links, matches, any_true, select_and_highlight}

-- Neither `/`, `#` nor a `^`.
abbrev pub is_plain : ℕ → Bool
is_plain d = not (d == b'/') && not (d == b'#') && not (d == b'^')

ends_with_refl : (s : Str) → ends_with s s ≡ true
unfolding ends_with
ends_with_refl [] = refl
ends_with_refl (c ∷ s) = rw (eq_str_refl (c ∷ s)) refl

colon_for_hash-append :
    (page anchor : Str)
    → all is_plain page ≡ true
    → colon_for_hash (page ++ b'#' ∷ anchor) ≡ page ++ b':' ∷ anchor
colon_for_hash-append [] anchor h = refl
colon_for_hash-append (c ∷ page) anchor h = ground (arith, colon_for_hash-append page anchor)

last_index_of-none : (s : Str) → all (λ d. not (d == b'/')) s ≡ true → last_index_of b'/' s ≡ none
unfolding last_index_of
last_index_of-none [] h = refl
last_index_of-none (c ∷ s) h = ground (arith, last_index_of-none s)

no_slash :
    (page anchor : Str)
    → all is_plain page ≡ true
    → all is_plain anchor ≡ true
    → all (λ d. not (d == b'/')) (page ++ b':' ∷ anchor) ≡ true
no_slash [] [] h k = refl
no_slash [] (c ∷ anchor) h k = ground (arith, no_slash [] anchor)
no_slash (c ∷ page) anchor h k = ground (arith, no_slash page anchor)

strip_path_same : (s : Str) → all (λ d. not (d == b'/')) s ≡ true → strip_path s ≡ s
unfolding strip_path
strip_path_same s h = rw (last_index_of-none s h) refl

class_name-linked :
    (path u link : Str) (o : Option ℕ)
    → (linked path u link o).class_name ≡ strip_path (colon_for_hash link)
unfolding linked
class_name-linked path u link none = refl
class_name-linked path u link (some i) = refl

class_name-node_link :
    (path rel_path : Str) (has_children : Bool) (c : ℕ) (page anchor : Str)
    → all is_plain (c ∷ page) ≡ true
    → all is_plain anchor ≡ true
    → (node_link path rel_path has_children ((c ∷ page) ++ b'#' ∷ anchor)).class_name
      ≡ (c ∷ page) ++ b':' ∷ anchor
unfolding node_link
class_name-node_link path rel_path has_children c page anchor h k =
    let other : (c == b'^') ≡ false = ground arith in
    rw other (
      class_name-linked path _ ((c ∷ page) ++ b'#' ∷ anchor) _
      ∙ rw (colon_for_hash-append (c ∷ page) anchor h)
          (strip_path_same ((c ∷ page) ++ b':' ∷ anchor) (no_slash (c ∷ page) anchor h k)))

matches_at :
    (text name : Str) (before after : List Str)
    → ends_with text name ≡ true
    → (get_elem? (matches text (before ++ name ∷ after)) (length before) ≡ some true)
      × (any_true (matches text (before ++ name ∷ after)) ≡ true)
unfolding matches any_true
matches_at text name [] after h = (rw h refl, rw h refl)
matches_at text name (b ∷ before) after h =
    let (here, some_one) = matches_at text name before after h in (here, ground arith)

-- In a tree with the link of a node to a page and a hash, at the location of that page and hash
-- selectAndHighlight marks links, and that link is one of them, whatever node it is called with; the
-- names have no `/`, `#` or `^`.
pub select_and_highlight-node_link :
    (path rel_path page anchor : Str) (before after : List Str) (has_children has_node : Bool)
    (c : ℕ)
    → strip_path (path_name path) ≡ c ∷ page
    → all is_plain (c ∷ page) ≡ true
    → all is_plain anchor ≡ true
    → let name = (node_link path rel_path has_children ((c ∷ page) ++ b'#' ∷ anchor)).class_name in
      (found : List Bool) × (select_and_highlight path
          (b'#' ∷ anchor)
          (before ++ name ∷ after)
          has_node
        ≡ links found)
      × (get_elem? found (length before) ≡ some true)
unfolding select_and_highlight
select_and_highlight-node_link path rel_path page anchor before after has_children has_node c at h
      k =
    let name = (node_link path rel_path has_children ((c ∷ page) ++ b'#' ∷ anchor)).class_name in
    let same : wanted_class path (b'#' ∷ anchor) ≡ name =
      unfold wanted_class in
      rw at (sym (class_name-node_link path rel_path has_children c page anchor h k)) in
    let ends : ends_with (wanted_class path (b'#' ∷ anchor)) name ≡ true =
      rw same (ends_with_refl name) in
    let (here, some_one) = matches_at (wanted_class path (b'#' ∷ anchor)) name before after ends in
    (matches (wanted_class path (b'#' ∷ anchor)) (before ++ name ∷ after), rw some_one refl, here)
