-- ===== src/Nav/Goto.antt =====
-- gotoNode and navTo of navtree.js: from a page and a hash to a node of the tree. `extend_array` is
-- $.extend(true, [], x) of jQuery, which gives an array, so that the test `!o.breadcrumbs` of gotoNode
-- fails, and its fallback is not reached.
pub mod Laws
use ta_ref.Prelude.{
  ℕ, zero, suc, ◌+◌, ◌-◌, Bool, true, false, not, ◌&&◌, ◌||◌, List, [], ◌∷◌, ◌++◌, Option, none,
  some, if◌then◌else◌, ◌==◌, leb, all, get_elem?,
}
use ta_ref.Text.{Str, codes, eq_str, le_str}
use ta_ref.Nav.Path.{strip_path, keep, is_hash_unit}
use ta_ref.Nav.Tree.{Node, node, Nodes, array, Shown, waiting, show_node}

-- A table of navtreeindex<i>.js, an object: the last entry with a key counts.
abbrev pub Table : Type 0
Table = List (Str × List ℕ)

unfoldable pub lookup : Str → Table → Option (List ℕ)
unfolding eq_str
lookup key [] = none
lookup key ((k, path) ∷ table) = elim (lookup key table) [
  | some found ↦ some found
  | none ↦ if eq_str k key then some path else none
]

-- The data of a set of pages: the arrays NAVTREE and NAVTREEINDEX, the tables and the scripts of the
-- tree that arrive.
pub record Site : Type 0 where
  pub tree : Nodes
  pub index : List Str
  pub table : ℕ → Option Table
  pub load : Str → Option Nodes
  pub home : Str  -- NAVTREE[0][1]

-- split('#')[0], and what stands behind the first '#' up to the next
unfoldable pub before_hash : Str → Str
before_hash [] = []
before_hash (c ∷ s) = if c == b'#' then [] else c ∷ before_hash s

unfoldable pub second_part : Str → Option Str
unfolding before_hash
second_part [] = none
second_part (c ∷ s) = if c == b'#' then some (before_hash s) else second_part s

abbrev is_digit : ℕ → Bool
is_digit c = leb b'0' c && leb c b'9'

-- hash.match(/^#l\d+$/)
is_line_anchor : Str → Bool
is_line_anchor (a ∷ b ∷ c ∷ s) = a == b'#' && b == b'l' && is_digit c && all is_digit s
is_line_anchor _ = false

-- The page and the hash that navTo goes by: those of the link that is stored, if there is one.
unfoldable pub from_link : Str → Str → Str → Str × Str
unfolding before_hash second_part keep
from_link [] root hash = (root, hash)
from_link (c ∷ link) root hash = (
  before_hash (c ∷ link),
  elim (second_part (c ∷ link)) [ none ↦ [] | some part ↦ b'#' ∷ keep is_hash_unit part ],
)

unfoldable pub target : Str → Str → Str → Str × Str
unfolding from_link is_line_anchor
target link root hash =
    let (page, anchor) = from_link link root hash in
    (page, if is_line_anchor anchor then [] else anchor)

-- The loop while (NAVTREEINDEX[i+1]<=url) i++, which gives i + 1.
unfoldable pub chunk : Str → List Str → ℕ
unfolding le_str
chunk url [] = 0
chunk url (key ∷ keys) = let more = suc (chunk url keys) in if le_str key url then more else 0

-- s.replace(/\..+$/, '')
cut_extension : Str → Str
cut_extension [] = []
cut_extension (c ∷ []) = c ∷ []
cut_extension (c ∷ d ∷ s) = if c == b'.' then [] else c ∷ cut_extension (d ∷ s)

-- The test of rootBase in showNode.
unfoldable pub is_index_page : Str → Bool
unfolding cut_extension strip_path eq_str
is_index_page toroot =
    let base = strip_path (cut_extension toroot) in
    eq_str base (codes "index") || eq_str base (codes "pages") || eq_str base (codes "search")

module _ (extend_array : Option (List ℕ) → List ℕ) (site : Site) where
  -- nti ? nti : navTreeSubIndices[subIndex][root]; every array counts as true
  abbrev entry_or : Option (List ℕ) → Option (List ℕ) → Option (List ℕ)
  entry_or (some path) page = some path
  entry_or none page = page

  -- o.breadcrumbs, with 0 put before it
  unfoldable pub breadcrumbs : Table → Str → Str → List ℕ
  unfolding lookup
  breadcrumbs table root hash =
      0 ∷ extend_array (entry_or (lookup (root ++ hash) table) (lookup root table))

  -- gotoNode
  unfoldable pub goto_node : Str → Table → Str → Str → Node → Node × Shown
  unfolding is_index_page show_node
  goto_node toroot table root hash tree =
      show_node site.load (is_index_page toroot) (breadcrumbs table root hash) tree

  unfoldable pub in_table : Option Table → Str → Str → Str → Node → Node × Shown
  in_table none toroot root hash tree = (tree, waiting)
  in_table (some table) toroot root hash tree = goto_node toroot table root hash tree

  unfoldable pub in_chunk : ℕ → Str → Str → Str → Node → Node × Shown
  in_chunk zero toroot root hash tree = in_table (site.table 0) toroot site.home hash tree
  in_chunk (suc i) toroot root hash tree = in_table (site.table i) toroot root hash tree

  -- navTo, with the link that is stored, or the empty text
  unfoldable pub nav_to : Str → Str → Str → Str → Node → Node × Shown
  nav_to link toroot root hash tree =
      let (page, anchor) = target link root hash in
      in_chunk (chunk (page ++ anchor) site.index) toroot page anchor tree
