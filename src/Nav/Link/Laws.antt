-- ===== src/Nav/Link/Laws.antt =====
-- The stored link of navtree.js, as navTo reads it.
use ta_ref.Prelude.{
  ℕ, zero, suc, ◌-◌, ◌≡◌, refl, inl, inr, Bool, true, not, ◌&&◌, [], ◌∷◌, ◌++◌, Option, none, some,
  if◌then◌else◌, ◌==◌, leb, arith, take, drop, all, Bool-cases,
}
use ta_ref.Text.{last_index_of, Str}
use ta_ref.Nav.Path.{
  is_dir_pair, is_path_unit, strip_at, strip_path2, path_name, hash_url, hash_value, is_hash_unit,
  keep,
}
use ta_ref.Nav.Path.Laws.{hash_value_clean}
use ta_ref.Nav.Goto.{before_hash, second_part, from_link}
use ta_ref.Nav.Link.{Sync, store_link, delete_link, cached_link, toggle_sync_button}

abbrev not_hash : ℕ → Bool
not_hash d = not (d == b'#')

abbrev has_no_hash : Str → Bool
has_no_hash s = all not_hash s

before_hash-append :
    (page hash : Str) → has_no_hash page ≡ true → before_hash (page ++ b'#' ∷ hash) ≡ page
unfolding before_hash
before_hash-append [] hash h = refl
before_hash-append (c ∷ page) hash h = ground (arith, before_hash-append page hash)

before_hash_same : (s : Str) → has_no_hash s ≡ true → before_hash s ≡ s
unfolding before_hash
before_hash_same [] h = refl
before_hash_same (c ∷ s) h = ground (arith, before_hash_same s)

second_part-append :
    (page hash : Str)
    → has_no_hash page ≡ true
    → second_part (page ++ b'#' ∷ hash) ≡ some (before_hash hash)
unfolding second_part
second_part-append [] hash h = refl
second_part-append (c ∷ page) hash h = ground (arith, second_part-append page hash)

all-keep_of : (p q : ℕ → Bool) (s : Str) → all p s ≡ true → all p (keep q s) ≡ true
unfolding keep
all-keep_of p q [] h = refl
all-keep_of p q (c ∷ s) h = ground (arith, all-keep_of p q s)

all-drop : (p : ℕ → Bool) (n : ℕ) (s : Str) → all p s ≡ true → all p (drop n s) ≡ true
all-drop p zero s h = h
all-drop p (suc n) [] h = refl
all-drop p (suc n) (c ∷ s) h = all-drop p n s (ground arith)

strip_at-has_no_hash :
    (uri : Str) (i : Option ℕ) → has_no_hash uri ≡ true → has_no_hash (strip_at uri i) ≡ true
unfolding strip_at
strip_at-has_no_hash uri none h = h
strip_at-has_no_hash uri (some i) h =
    elim (Bool-cases (leb 7 i && is_dir_pair (drop (i - 7) (take (suc i) uri)))) [
      | inl e ↦ rw (strip_at, e) (all-drop not_hash (i - 6) uri h)
      | inr e ↦ rw (strip_at, e) (all-drop not_hash (suc i) uri h)
    ]

page-has_no_hash :
    (path : Str) → has_no_hash path ≡ true → has_no_hash (strip_path2 (path_name path)) ≡ true
unfolding strip_path2 path_name
page-has_no_hash path h =
    strip_at-has_no_hash (path_name path) (last_index_of b'/' (path_name path))
      (all-keep_of not_hash is_path_unit path h)

hash_units_no_hash : (s : Str) → all is_hash_unit s ≡ true → has_no_hash s ≡ true
hash_units_no_hash [] h = refl
hash_units_no_hash (c ∷ s) h = ground (arith, hash_units_no_hash s)

hash_value-kept : (hash : Str) → keep is_hash_unit (hash_value hash) ≡ hash_value hash
unfolding hash_url hash_value
hash_value-kept hash = (hash_value_clean hash).1

from_link-page :
    (page hash root anchor : Str)
    → has_no_hash page ≡ true
    → from_link (page ++ hash_url hash) root anchor ≡ (page, hash_url hash)
unfolding from_link hash_url
from_link-page [] hash root anchor h =
    let clean = hash_units_no_hash (hash_value hash) (hash_value_clean hash).0 in
    unfold before_hash second_part in
    rw (before_hash_same (hash_value hash) clean, hash_value-kept hash) refl
from_link-page (c ∷ page) hash root anchor h =
    let clean = hash_units_no_hash (hash_value hash) (hash_value_clean hash).0 in
    rw
      (
        before_hash-append (c ∷ page) (hash_value hash) h,
        second_part-append (c ∷ page) (hash_value hash) h,
        before_hash_same (hash_value hash) clean,
        hash_value-kept hash,
      )
      refl

-- With a storage, at a location whose path has no `#`, a click on the button that takes its class sync
-- away stores a link by which navTo, for any page and hash, goes by the page and the hash of the
-- location; a click that gives the class back leaves navTo with the page and the hash that it is given.
pub from_link-toggle_sync_button :
    (path hash root anchor old : Str) (s : Sync)
    → s.nav_path ≡ some old
    → has_no_hash path ≡ true
    → from_link (cached_link (toggle_sync_button path hash s)) root anchor
      ≡ (if s.sync then (strip_path2 (path_name path), hash_url hash) else (root, anchor))
unfolding toggle_sync_button store_link delete_link cached_link
from_link-toggle_sync_button path hash root anchor old s stored h = elim (Bool-cases s.sync) [
  | inl e ↦
      rw (e, stored)
        (from_link-page (strip_path2 (path_name path)) hash root anchor (page-has_no_hash path h))
  | inr e ↦ rw (e, stored) (unfold from_link in refl)
]
