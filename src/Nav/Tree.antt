-- ===== src/Nav/Tree.antt =====
-- The nodes of the navigation tree, and newNode, getNode, expandNode and showNode of navtree.js. `load`
-- stands for getScript and getData: the array that a script puts in its variable, or none where the
-- script does not arrive. A node's elements in the page are not modelled but for `expanded`.
pub mod Laws
use ta_ref.Prelude.{
  ℕ, zero, suc, ◌+◌, ◌-◌, Bool, true, false, not, ◌&&◌, ◌||◌, List, [], ◌∷◌, ◌++◌, Option, none,
  some, if◌then◌else◌, ◌==◌, length,
}
use ta_ref.Text.{Str, codes, eq_str}

-- The entry that a node is made of: label and link; null and the empty text are no link.
pub record Info : Type 0 where
  pub label : Str
  pub link : Str

-- childrenData: null, the name of a script, or an array. `expanded` and `visited` (childrenVisited) are
-- set on the node; a node that is not visited has no children of its own yet.
mutual
  pub data Node : Type 0 where
    node : Info → (expanded visited : Bool) → Data → Node

  pub data Data : Type 0 where
    null : Data
    script : Str → Data
    array : Nodes → Data

  pub data Nodes : Type 0 where
    nil : Nodes
    cons : Node → Nodes → Nodes

abbrev pub info : Node → Info
info (node i e v d) = i

abbrev pub is_expanded : Node → Bool
is_expanded (node i e v d) = e

abbrev pub data_of : Node → Data
data_of (node i e v d) = d

-- node.children[i] of a visited node
unfoldable pub child : Nodes → ℕ → Option Node
child nil i = none
child (cons n ns) zero = some n
child (cons n ns) (suc i) = child ns i

unfoldable pub set_child : Nodes → ℕ → Node → Nodes
set_child nil i m = nil
set_child (cons n ns) zero m = cons m ns
set_child (cons n ns) (suc i) m = cons n (set_child ns i m)

-- What a call of showNode comes to: selectAndHighlight is called with a node, or with the hash alone; a script that has
-- not arrived is waited for.
pub data Shown : Type 0 where
  selected : Info → Shown
  by_hash : Shown
  waiting : Shown
  fault : Shown

module _ (load : Str → Option Nodes) where
  -- expandNode: getNode makes the children where the node is not visited.
  expand_data : Info → Bool → Data → Node
  expand_data i v null = node i false v null
  expand_data i v (array ns) = node i true true (array ns)
  expand_data i v (script s) = elim (load s) [
    | none ↦ node i false v (script s)
    | some ns ↦ node i true true (array ns)
  ]

  unfoldable pub expand_node : Node → Node
  unfolding expand_data
  expand_node (node i true v d) = node i true v d
  expand_node (node i false v d) = expand_data i v d

  -- The end of the path at the node n: its script is loaded first, where it has one; on the index pages
  -- the node is expanded; then it is selected.
  select_data : Bool → Node → Data → Node × Shown
  unfolding expand_node
  select_data index_page n null = (if index_page then expand_node n else n, selected (info n))
  select_data index_page n (array ns) = (if index_page then expand_node n else n, selected (info n))
  select_data index_page (node i e v d) (script s) = elim (load s) [
    | none ↦ (node i e v (script s), waiting)
    | some ns ↦ (
      if index_page then expand_node (node i e v (array ns)) else node i e v (array ns),
      selected i,
    )
  ]

  select_node : Bool → Node → Node × Shown
  unfolding select_data
  select_node index_page (node i e v d) = select_data index_page (node i e v d) d

  abbrev put_child : Info → Nodes → ℕ → Node × Shown → Node × Shown
  put_child i ns b (m, shown) = (node i true true (array (set_child ns b m)), shown)

  abbrev is_last : List ℕ → Bool
  is_last [] = true
  is_last (b ∷ crumbs) = false

  -- The child at a breadcrumb: `below` is the rest of the walk. A child that there is not is an error
  -- in the last round, and in any other leaves the hash to be looked for.
  at_child : (Node → Node × Shown) → Bool → Info → Nodes → ℕ → Option Node → Node × Shown
  at_child below last i ns b none = (node i true true (array ns), if last then fault else by_hash)
  at_child below last i ns b (some n) = put_child i ns b (below n)

  at_data : (Node → Node × Shown) → Bool → Info → Bool → Bool → ℕ → Data → Node × Shown
  unfolding at_child child set_child
  at_data below last i e v b null = (node i e v null, by_hash)
  at_data below last i e v b (array ns) = at_child below last i ns b (child ns b)
  at_data below last i e v b (script s) = elim (load s) [
    | none ↦ (node i e v (script s), waiting)
    | some ns ↦ at_child below last i ns b (child ns b)
  ]

  -- showNode from a node on, with the breadcrumbs that are left.
  unfoldable pub show_node : Bool → List ℕ → Node → Node × Shown
  unfolding at_data select_node
  show_node index_page [] n = select_node index_page n
  show_node index_page (b ∷ crumbs) (node i e v d) =
      at_data (show_node index_page crumbs) (is_last crumbs) i e v b d

  -- The children of a node once its script has arrived.
  abbrev pub kids : Data → Option Nodes
  kids null = none
  kids (array ns) = some ns
  kids (script s) = load s
