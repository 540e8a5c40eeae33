-- ===== src/Nav/Link.antt =====
-- The stored link, the button that keeps the tree with the page, and the links of the tree:
-- storeLink, deleteLink, cachedLink, showSyncOff, showSyncOn, toggleSyncButton and the link part of newNode
-- in navtree.js. The storage is none where the browser has none.
pub mod Laws
use ta_ref.Prelude.{
  ℕ, zero, suc, ◌+◌, ◌-◌, ◌≤◌, ◌<◌, ◌≡◌, ◌≢◌, refl, sym, ap, ◌∙◌, inl, inr, ◌⊎◌, Bool, true, false,
  not, ◌&&◌, ◌||◌, List, [], ◌∷◌, ◌++◌, Option, none, some, if◌then◌else◌, get_elem?, ◌==◌, ltb,
  leb, arith, length, take, drop, all, map, Bool-cases, Option-cases, if_intro,
}
use ta_ref.Text.{Str, codes, index_of, eq_str}
use ta_ref.Nav.Path.{strip_path, strip_path2, path_name, hash_url}
use ta_ref.Nav.Goto.{before_hash, second_part}

-- `nav_path` is the storage with the item navpath; `sync` says that the button has that class, and
-- `image_on` which of the two pictures it shows.
pub record Sync : Type 0 where
  pub nav_path : Option Str
  pub sync : Bool
  pub image_on : Bool

abbrev put : Str → Option Str → Option Str
put link none = none
put link (some old) = some link

-- storeLink
unfoldable pub store_link : Str → Sync → Sync
store_link link s = if s.sync then s else record s { nav_path = put link s.nav_path }

-- deleteLink
unfoldable pub delete_link : Sync → Sync
delete_link s = record s { nav_path = put [] s.nav_path }

-- cachedLink; the empty text is no link
unfoldable pub cached_link : Sync → Str
cached_link s = elim s.nav_path [ none ↦ [] | some link ↦ link ]

-- toggleSyncButton, with the path and the hash of the location
unfoldable pub toggle_sync_button : Str → Str → Sync → Sync
unfolding store_link delete_link strip_path2 path_name hash_url
toggle_sync_button path hash s =
    if s.sync
    then store_link (strip_path2 (path_name path) ++ hash_url hash)
        (record s { sync = false; image_on = false })
    else delete_link (record s { sync = true; image_on = true })

-- The part of initNavTree that sets the button.
unfoldable pub init_sync : Sync → Sync
unfolding cached_link
init_sync s = elim s.nav_path [
  | none ↦ s
  | some link ↦
      if eq_str (cached_link s) []
      then record s { image_on = true }
      else record s { image_on = false; sync = false }
]

-- What a click on the link of a node does: the link it stores, the anchor that it goes to in the page,
-- and whether it opens or closes the node.
pub record Click : Type 0 where
  pub stores : Option Str
  pub anchor : Option Str
  pub toggles : Bool

-- The link of a node: `void` stands for javascript:void(0), none for no href.
pub data Href : Type 0 where
  no_href : Href
  void : Href
  url : Str → Href

pub record Link : Type 0 where
  pub class_name : Str
  pub href : Href
  pub click : Click

abbrev pub colon_for_hash : Str → Str
colon_for_hash [] = []
colon_for_hash (c ∷ s) = if c == b'#' then b':' ∷ s else c ∷ colon_for_hash s

abbrev part_or_empty : Option Str → Str
part_or_empty none = []
part_or_empty (some part) = part

-- The url and the link, where a link that begins with ^ is one outside the pages.
abbrev pub url_and_link : Str → Str → Str × Str
url_and_link rel_path [] = (rel_path, [])
url_and_link rel_path (c ∷ s) = if c == b'^' then (s, s) else (rel_path ++ c ∷ s, c ∷ s)

-- The link with a hash: it goes to the page only from another one.
unfoldable pub linked : Str → Str → Str → Option ℕ → Link
unfolding strip_path before_hash second_part path_name
linked path u link none = record {
  class_name = strip_path (colon_for_hash link);
  href = url u;
  click = record { stores = some link; anchor = none; toggles = false };
}
linked path u link (some i) = record {
  class_name = strip_path (colon_for_hash link);
  href =
      if eq_str (strip_path (path_name path)) (strip_path (before_hash link)) then void else url u;
  click = record {
    stores = some link;
    anchor = some (b'#' ∷ part_or_empty (second_part link));
    toggles = false;
  };
}

-- The link of newNode, from the path of the location, the relpath of the node and whether it has
-- childrenData.
unfoldable pub node_link : Str → Str → Bool → Str → Link
unfolding linked index_of
node_link path rel_path has_children [] = record {
  class_name = if has_children then codes "nolink" else [];
  href = if has_children then void else no_href;
  click = record { stores = none; anchor = none; toggles = has_children };
}
node_link path rel_path has_children (c ∷ s) =
    let (u, link) = url_and_link rel_path (c ∷ s) in linked path u link (index_of b'#' link)
