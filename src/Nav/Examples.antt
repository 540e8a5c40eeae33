-- ===== src/Nav/Examples.antt =====
-- The theorems about the navigation tree at concrete paths and trees.
use ta_ref.Prelude.{
  arith, Bool, ◌++◌, none, if◌then◌else◌, get_elem?, some, List, Option, ℕ, ◌≡◌, refl, true, false,
  [], ◌∷◌,
}
use ta_ref.Text.{Str, codes, eq_str, le_str}
use ta_ref.Nav.Path.{path_name, strip_path2, strip_path, hash_url}
use ta_ref.Nav.Tree.{
  Info, Node, node, array, script, null, Nodes, nil, cons, child, show_node, selected,
}
use ta_ref.Nav.Tree.Laws.{node_at, opened, show_node-selects}
use ta_ref.Nav.Goto.{Site, nav_to, target, chunk, lookup}
use ta_ref.Nav.Goto.Laws.{nav_to-selects}
use ta_ref.Nav.Link.{Sync, cached_link, toggle_sync_button}
use ta_ref.Nav.Link.Laws.{from_link-toggle_sync_button}
use ta_ref.Nav.Goto.{from_link}
use ta_ref.Nav.Spec.{spec_site, spec_tables}
use ta_ref.Nav.Spec.Index1a.{nav_tree_index1_a}
use ta_ref.Nav.Spec.Index1b.{nav_tree_index1_b}
use ta_ref.Nav.Spec.Links.{spec_nav_to_links, spec_root, entry_link}
use ta_ref.Nav.Spec.Scripts.{spec_load}
use ta_ref.Nav.Link.{node_link}
use ta_ref.Nav.Start.{unstarted, handle_all, load, ready, hash_changed, Event}
use ta_ref.Nav.Start.Laws.{first_calls, loads, readies, once_loaded, handle_all-first_calls}
use ta_ref.Nav.Highlight.{links, select_and_highlight}
use ta_ref.Nav.Highlight.Laws.{select_and_highlight-node_link}
use ta_ref.Nav.Readme.Index.{nav_tree_index0}
use ta_ref.Nav.Readme.Laws.{site, root_node, readme_nav_to}

abbrev files_info : Info
files_info = record { label = codes "Files"; link = codes "files.html" }

abbrev files_data : Str → Option Nodes
files_data name =
    if eq_str name (codes "files")
    then some (
        cons
          (node (record { label = codes "tools.c"; link = codes "tools_8c.html" }) false false null)
          nil)
    else none

abbrev small_tree : Nodes
small_tree = cons (node files_info false false (script (codes "files"))) nil

-- As in the navigation data, the breadcrumbs begin at the one entry of the root.
abbrev small_root : Node
small_root = node (record { label = []; link = [] }) false false (array small_tree)

show_node-selects_example :
    ((show_node files_data false (0 ∷ 0 ∷ []) small_root).1
      ≡ selected (record { label = codes "tools.c"; link = codes "tools_8c.html" }))
    × (opened files_data (show_node files_data false (0 ∷ 0 ∷ []) small_root).0 (0 ∷ 0 ∷ []) ≡ true)
unfolding node_at child eq_str
show_node-selects_example =
    show_node-selects files_data false (0 ∷ 0 ∷ []) small_root
      (node (record { label = codes "tools.c"; link = codes "tools_8c.html" }) false false null)
      refl refl

-- jQuery's copy of an array, and its new array where there is none
abbrev copy_array : Option (List ℕ) → List ℕ
copy_array none = []
copy_array (some l) = l

abbrev small_site : Site
small_site = record {
  tree = small_tree;
  index = codes "files.html" ∷ [];
  table = λ i. some ((codes "files.html", []) ∷ (codes "tools_8c.html", 0 ∷ []) ∷ []);
  load = files_data;
  home = codes "index.html";
}

nav_to-selects_example :
    (nav_to copy_array small_site []
      (codes "tools_8c.html")
      (codes "tools_8c.html")
      []
      small_root).1
    ≡ selected (record { label = codes "tools.c"; link = codes "tools_8c.html" })
unfolding node_at child eq_str target chunk lookup le_str
nav_to-selects_example =
    nav_to-selects copy_array small_site [] (codes "tools_8c.html") (codes "tools_8c.html") []
      (codes "tools_8c.html") [] 0 ((codes "files.html", []) ∷ (codes "tools_8c.html", 0 ∷ []) ∷ [])
      (0 ∷ []) small_root
      (node (record { label = codes "tools.c"; link = codes "tools_8c.html" }) false false null)
      (λ l. refl) refl refl refl refl refl refl

readme_nav_to_example :
    (i : Info) × ((nav_to copy_array site []
        (codes "a00054.html")
        (codes "a00054.html")
        (codes "#autotoc_md14")
        root_node).1
      ≡ selected i)
    × (i.link ≡ codes "a00054.html#autotoc_md14")
unfolding target lookup eq_str nav_tree_index0
readme_nav_to_example =
    readme_nav_to copy_array (codes "a00054.html") (codes "a00054.html") (codes "#autotoc_md14")
      (2 ∷ 0 ∷ []) (λ l. refl) refl refl (λ e. cc e)

abbrev synced : Sync
synced = record { nav_path = some []; sync = true; image_on = true }

from_link-toggle_sync_button_example :
    from_link
      (cached_link (toggle_sync_button (codes "/doc/a00054.html") (codes "#top") synced))
      (codes "index.html")
      []
    ≡ (codes "a00054.html", codes "#top")
unfolding strip_path2 path_name hash_url
from_link-toggle_sync_button_example =
    from_link-toggle_sync_button (codes "/doc/a00054.html") (codes "#top") (codes "index.html") []
      [] synced refl refl

spec_nav_to_links_example :
    (entry : Info) × ((nav_to copy_array
        (spec_site spec_load)
        []
        (codes "a00101.html")
        (codes "a00101.html")
        (codes "#")
        spec_root).1
      ≡ selected entry)
    × (entry.link ≡ entry_link (codes "a00101.html"))
unfolding spec_tables nav_tree_index1_a nav_tree_index1_b target lookup eq_str
spec_nav_to_links_example =
    spec_nav_to_links copy_array (codes "a00101.html") (codes "a00101.html") [] 1
      (nav_tree_index1_a ++ nav_tree_index1_b) (1 ∷ 0 ∷ 0 ∷ 0 ∷ 0 ∷ 11 ∷ []) (λ l. refl) refl refl
      refl

select_and_highlight-node_link_example :
    let name = (node_link (codes "/doc/a.html") [] false (codes "a.html#top")).class_name in
    (found : List Bool) × (select_and_highlight
        (codes "/doc/a.html")
        (codes "#top")
        (codes "b.html" ∷ name ∷ [])
        true
      ≡ links found)
    × (get_elem? found 1 ≡ some true)
unfolding strip_path path_name
select_and_highlight-node_link_example =
    select_and_highlight-node_link (codes "/doc/a.html") [] (codes ".html") (codes "top")
      (codes "b.html" ∷ []) [] false true b'a' refl refl refl

abbrev page_events : List Event
page_events =
    hash_changed (codes "/doc/a.html") (codes "#x")
    ∷ ready (codes "a.html") [] (codes "#top")
    ∷ load
    ∷ hash_changed (codes "/doc/a.html") (codes "#y")
    ∷ []

handle_all-first_calls_example :
    first_calls (handle_all page_events unstarted).calls
    ≡ once_loaded (loads page_events) (readies page_events)
unfolding loads readies
handle_all-first_calls_example = handle_all-first_calls page_events (omega arith) (omega arith)
