-- ===== src/Nav/Readme/Laws.antt =====
-- navTo of navtree.js with the data of the pages under docs/ta-ref_readme_html.
use ta_ref.Prelude.{
  ℕ, zero, suc, ◌≡◌, ◌≢◌, refl, inl, inr, Bool, true, false, ◌&&◌, ◌||◌, List, [], ◌∷◌, ◌++◌,
  Option, none, some, arith, all, Bool-cases,
}
use ta_ref.Text.{Str, codes, eq_str, le_str}
use ta_ref.Text.Laws.{eq_str_sound}
use ta_ref.Nav.Tree.{Info, Node, node, Nodes, array, child, selected, info, data_of}
use ta_ref.Nav.Tree.Laws.{node_at, has_data}
use ta_ref.Nav.Goto.{Table, lookup, Site, target, chunk, nav_to}
use ta_ref.Nav.Goto.Laws.{lookup-all, nav_to-selects}
use ta_ref.Nav.Readme.Chapters.{nav_tree, nav_tree_index}
use ta_ref.Nav.Readme.Index.{nav_tree_index0}

abbrev table_at : ℕ → Option Table
table_at zero = some nav_tree_index0
table_at (suc i) = none

-- The pages load no further scripts for the tree.
abbrev no_script : Str → Option Nodes
no_script name = none

abbrev pub site : Site
site = record {
  tree = nav_tree;
  index = nav_tree_index;
  table = table_at;
  load = no_script;
  home = codes "index.html";
}

-- o.node of initNavTree
abbrev pub root_node : Node
root_node = node (record { label = []; link = [] }) false false (array nav_tree)

abbrev exception : Str
exception = codes "pages.html"

abbrev links_to : Str → Option Node → Bool
links_to key none = false
links_to key (some n) = eq_str (info n).link key && has_data no_script (data_of n)

entry_ok : Str → List ℕ → Bool
entry_ok key path =
    le_str (codes "a00053.html") key
    && (eq_str key exception || links_to key (node_at no_script root_node (0 ∷ path)))

index_ok : all (λ e. entry_ok e.0 e.1) nav_tree_index0 ≡ true
unfolding entry_ok nav_tree_index0 nav_tree node_at child eq_str le_str
index_ok = refl

-- What the check of an entry says.
entry_ok_sound :
    (key : Str) (path : List ℕ)
    → entry_ok key path ≡ true
    → key ≢ exception
    → (n : Node) × (node_at no_script root_node (0 ∷ path) ≡ some n)
      × ((info n).link ≡ key)
      × (has_data no_script (data_of n) ≡ true)
      × (le_str (codes "a00053.html") key ≡ true)
entry_ok_sound key path ok other =
    found (node_at no_script root_node (0 ∷ path)) refl (eq_str_false key exception other)
      (unfold entry_ok in ok)
  where
    eq_str_false : (s t : Str) → s ≢ t → eq_str s t ≡ false
    eq_str_false s t ne = elim (Bool-cases (eq_str s t)) [
      | inl e ↦ absurd (ne (eq_str_sound s t e))
      | inr e ↦ e
    ]

    found :
        (o : Option Node)
        → node_at no_script root_node (0 ∷ path) ≡ o
        → eq_str key exception ≡ false
        → (le_str (codes "a00053.html") key && (eq_str key exception || links_to key o)) ≡ true
        → (n : Node) × (node_at no_script root_node (0 ∷ path) ≡ some n)
          × ((info n).link ≡ key)
          × (has_data no_script (data_of n) ≡ true)
          × (le_str (codes "a00053.html") key ≡ true)
    found none e f h = absurd (ground arith)
    found (some n) e f h =
        (n, e, eq_str_sound (info n).link key (ground arith), ground arith, ground arith)

chunk_one : (url : Str) → le_str (codes "a00053.html") url ≡ true → chunk url nav_tree_index ≡ 1
unfolding chunk nav_tree_index
chunk_one url h = rw h

-- For every page and hash that NAVTREEINDEX0 has as a key, but pages.html, navTo with no stored link and
-- a hash that is not that of a line ends in selectAndHighlight with the entry of NAVTREE that links to
-- that page and hash, if jQuery's extend copies an array that it is given.
pub readme_nav_to :
    (extend_array : Option (List ℕ) → List ℕ) (toroot root hash : Str) (path : List ℕ)
    → ((l : List ℕ) → extend_array (some l) ≡ l)
    → target [] root hash ≡ (root, hash)
    → lookup (root ++ hash) nav_tree_index0 ≡ some path
    → root ++ hash ≢ codes "pages.html"
    → (i : Info) × ((nav_to extend_array site [] toroot root hash root_node).1 ≡ selected i)
      × (i.link ≡ root ++ hash)
readme_nav_to extend_array toroot root hash path extend t entry other =
    let (n, at, link, arrived, first) =
      entry_ok_sound (root ++ hash) path
        (lookup-all entry_ok (root ++ hash) nav_tree_index0 path index_ok entry) other in
    (
      info n,
      nav_to-selects extend_array site [] toroot root hash root hash 0 nav_tree_index0 path
          root_node n extend t (chunk_one (root ++ hash) first) refl entry at arrived,
      link,
    )
