-- ===== src/Nav/Spec/Links.antt =====
-- navTo of navtree.js on the pages of the specification, with the scripts that hold their tree.
use ta_ref.Prelude.{
  ℕ, zero, suc, ◌≡◌, refl, Bool, true, false, ◌&&◌, List, [], ◌∷◌, ◌++◌, Option, none, some,
  if◌then◌else◌, arith, all,
}
use ta_ref.Text.{Str, codes, eq_str}
use ta_ref.Text.Laws.{eq_str_sound}
use ta_ref.Nav.Tree.{Info, Node, node, array, child, selected, info, data_of}
use ta_ref.Nav.Tree.Laws.{node_at, has_data}
use ta_ref.Nav.Goto.{Table, lookup, target, nav_to}
use ta_ref.Nav.Goto.Laws.{lookup-all, nav_to-selects, nav_to-page}
use ta_ref.Nav.Spec.Laws.{chunk-spec_tables, chunk_page, joined_all}
use ta_ref.Nav.Spec.{spec_tables, spec_tree, spec_site}
use ta_ref.Nav.Spec.Scripts.{spec_load}
use ta_ref.Nav.Spec.Index2b.{nav_tree_index2_b}
use ta_ref.Nav.Spec.Index2a.{nav_tree_index2_a}
use ta_ref.Nav.Spec.Index1b.{nav_tree_index1_b}
use ta_ref.Nav.Spec.Index1a.{nav_tree_index1_a}
use ta_ref.Nav.Spec.Index0b.{nav_tree_index0_b}
use ta_ref.Nav.Spec.Index0a.{nav_tree_index0_a}

-- The page of a source file stands in the tree under the page of its documentation.
abbrev pub without_source : Str → Str
without_source [] = []
without_source (c ∷ s) =
    if eq_str (c ∷ s) (codes "_source.html") then codes ".html" else c ∷ without_source s

-- The link of the entry for a page and hash: the list of pages stands for the main page.
abbrev pub entry_link : Str → Str
entry_link key = if eq_str key (codes "pages.html") then codes "index.html" else without_source key

-- o.node of initNavTree
abbrev pub spec_root : Node
spec_root = node (record { label = []; link = [] }) false false (array spec_tree)

abbrev links_to : Str → Option Node → Bool
links_to key none = false
links_to key (some n) = eq_str (info n).link (entry_link key) && has_data spec_load (data_of n)

entry_ok : Str → List ℕ → Bool
entry_ok key path = links_to key (node_at spec_load spec_root (0 ∷ path))

index0_a_ok : all (λ e. entry_ok e.0 e.1) nav_tree_index0_a ≡ true
unfolding entry_ok nav_tree_index0_a spec_tree spec_load node_at child eq_str
index0_a_ok = refl

index0_b_ok : all (λ e. entry_ok e.0 e.1) nav_tree_index0_b ≡ true
unfolding entry_ok nav_tree_index0_b spec_tree spec_load node_at child eq_str
index0_b_ok = refl

index1_a_ok : all (λ e. entry_ok e.0 e.1) nav_tree_index1_a ≡ true
unfolding entry_ok nav_tree_index1_a spec_tree spec_load node_at child eq_str
index1_a_ok = refl

index1_b_ok : all (λ e. entry_ok e.0 e.1) nav_tree_index1_b ≡ true
unfolding entry_ok nav_tree_index1_b spec_tree spec_load node_at child eq_str
index1_b_ok = refl

index2_a_ok : all (λ e. entry_ok e.0 e.1) nav_tree_index2_a ≡ true
unfolding entry_ok nav_tree_index2_a spec_tree spec_load node_at child eq_str
index2_a_ok = refl

index2_b_ok : all (λ e. entry_ok e.0 e.1) nav_tree_index2_b ≡ true
unfolding entry_ok nav_tree_index2_b spec_tree spec_load node_at child eq_str
index2_b_ok = refl

tables_ok :
    (i : ℕ) (table : Table) → spec_tables i ≡ some table → all (λ e. entry_ok e.0 e.1) table ≡ true
unfolding spec_tables
tables_ok zero table h = joined_all (λ e. entry_ok e.0 e.1) _ _ table index0_a_ok index0_b_ok h
tables_ok (suc zero) table h =
    joined_all (λ e. entry_ok e.0 e.1) _ _ table index1_a_ok index1_b_ok h
tables_ok (suc (suc zero)) table h =
    joined_all (λ e. entry_ok e.0 e.1) _ _ table index2_a_ok index2_b_ok h
tables_ok (suc (suc (suc i))) table h = cc

-- What the check of an entry says.
links_to_sound :
    (key : Str) (o : Option Node)
    → links_to key o ≡ true
    → (n : Node) × (o ≡ some n)
      × ((info n).link ≡ entry_link key)
      × (has_data spec_load (data_of n) ≡ true)
links_to_sound key none h = cc
links_to_sound key (some n) h =
    (n, refl, eq_str_sound (info n).link (entry_link key) (ground arith), ground arith)

-- The key of the tables for a page and an anchor in it, or for the page alone.
abbrev pub key_of : Str → Str → Str
key_of page [] = page
key_of page (c ∷ anchor) = page ++ b'#' ∷ c ∷ anchor

-- On the pages of the specification, whose scripts all arrive: for every key that a table of
-- NAVTREEINDEX has, be it a page or a page with an anchor, navTo with no stored link, called with that
-- page and with `#` and that anchor, as hashUrl gives them, ends in selectAndHighlight with an entry of
-- the tree. The entry links to the key itself, but for two kinds of keys: that of the page `_source.html`
-- of a file links to the page `.html` of the same name, and that of pages.html to index.html. The
-- premises are that jQuery's extend copies an array that it is given, and that the anchor is not that of
-- a line.
pub spec_nav_to_links :
    (extend_array : Option (List ℕ) → List ℕ) (toroot page anchor : Str) (i : ℕ) (table : Table)
    (path : List ℕ)
    → ((l : List ℕ) → extend_array (some l) ≡ l)
    → target [] page (b'#' ∷ anchor) ≡ (page, b'#' ∷ anchor)
    → spec_tables i ≡ some table
    → lookup (key_of page anchor) table ≡ some path
    → (entry : Info) × ((nav_to extend_array
          (spec_site spec_load)
          []
          toroot
          page
          (b'#' ∷ anchor)
          spec_root).1
        ≡ selected entry)
      × (entry.link ≡ entry_link (key_of page anchor))
spec_nav_to_links extend_array toroot page [] i table path extend t here found =
    let ok = lookup-all entry_ok page table path (tables_ok i table here) found in
    let (n, at, link, arrived) =
      links_to_sound page (node_at spec_load spec_root (0 ∷ path)) (unfold entry_ok in ok) in
    let (led, missing) = chunk_page page i table path here found in
    (
      info n,
      nav_to-page extend_array (spec_site spec_load) [] toroot page (codes "#") page (codes "#") i
          table path spec_root n extend t led here missing found at arrived,
      link,
    )
spec_nav_to_links extend_array toroot page (c ∷ a) i table path extend t here found =
    let hash = b'#' ∷ c ∷ a in
    let ok = lookup-all entry_ok (page ++ hash) table path (tables_ok i table here) found in
    let (n, at, link, arrived) =
      links_to_sound (page ++ hash) (node_at spec_load spec_root (0 ∷ path))
        (unfold entry_ok in ok) in
    (
      info n,
      nav_to-selects extend_array (spec_site spec_load) [] toroot page hash page hash i table path
          spec_root n extend t (chunk-spec_tables (page ++ hash) i table path here found) here found
          at arrived,
      link,
    )
