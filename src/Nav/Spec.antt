-- ===== src/Nav/Spec.antt =====
-- The navigation data of the pages under docs/ta-ref_spec_html: the static part of NAVTREE, of which
-- some children are named by the scripts that hold them, NAVTREEINDEX and its tables.
mod Index0a
mod Index0b
pub mod Index1a
pub mod Index1b
mod Index2a
mod Index2b
pub mod Scripts
pub mod Laws
pub mod Links
use Prim.Native.String.{String}
use ta_ref.Prelude.{false, ℕ, zero, suc, List, [], ◌∷◌, ◌++◌, Option, none, some}
use ta_ref.Text.{Str, codes}
use ta_ref.Nav.Tree.{Node, node, Nodes, nil, cons, script}
use ta_ref.Nav.Goto.{Table, Site}
use ta_ref.Nav.Entry.{leaf, branch, scripted}
use ta_ref.Nav.Spec.Index0a.{nav_tree_index0_a}
use ta_ref.Nav.Spec.Index0b.{nav_tree_index0_b}
use ta_ref.Nav.Spec.Index1a.{nav_tree_index1_a}
use ta_ref.Nav.Spec.Index1b.{nav_tree_index1_b}
use ta_ref.Nav.Spec.Index2a.{nav_tree_index2_a}
use ta_ref.Nav.Spec.Index2b.{nav_tree_index2_b}

unfoldable pub spec_tree : Nodes
spec_tree =
    cons
      (branch "TA-REF" "index.html" (
        branch "Classes" "annotated.html" (
          scripted "Class List" "annotated.html" "annotated_dup"
          ∷ leaf "Class Index" "classes.html"
          ∷ branch "Class Members" "functions.html"
              (leaf "All" "functions.html" ∷ leaf "Variables" "functions_vars.html" ∷ [])
          ∷ [])
        ∷ branch "Files" "files.html" (
            scripted "File List" "files.html" "files_dup"
            ∷ branch "File Members" "globals.html" (
                scripted "All" "globals.html" "globals_dup"
                ∷ scripted "Functions" "globals_func.html" "globals_func"
                ∷ leaf "Variables" "globals_vars.html"
                ∷ leaf "Typedefs" "globals_type.html"
                ∷ leaf "Enumerations" "globals_enum.html"
                ∷ leaf "Enumerator" "globals_eval.html"
                ∷ leaf "Macros" "globals_defs.html"
                ∷ [])
            ∷ [])
        ∷ []))
      nil

unfoldable pub spec_index : List Str
spec_index =
    codes "a00029.html"
    ∷ codes "a00092.html#aadb9bac764034588d3f2279f1453f8c0"
    ∷ codes "a00294.html#a12e0a5703767c19b688f1056ce87518f"
    ∷ []

unfoldable pub spec_tables : ℕ → Option Table
spec_tables zero = some (nav_tree_index0_a ++ nav_tree_index0_b)
spec_tables (suc zero) = some (nav_tree_index1_a ++ nav_tree_index1_b)
spec_tables (suc (suc zero)) = some (nav_tree_index2_a ++ nav_tree_index2_b)
spec_tables (suc (suc (suc i))) = none

-- The pages, with the scripts of the tree that arrive.
abbrev pub spec_site : (Str → Option Nodes) → Site
spec_site load = record {
  tree = spec_tree;
  index = spec_index;
  table = spec_tables;
  load = load;
  home = codes "index.html";
}
