-- ===== src/Nav/Entry.antt =====
-- The notation of the data: entries of NAVTREE and of the tables of NAVTREEINDEX.
use Prim.Native.String.{String}
use mathlib.Core.Bool.{false}
use ta_ref.Prelude.{ℕ, List, [], ◌∷◌}
use ta_ref.Text.{Str, codes}
use ta_ref.Nav.Tree.{Node, node, Nodes, nil, cons, null, script, array}

abbrev pub nodes : List Node → Nodes
nodes [] = nil
nodes (n ∷ ns) = cons n (nodes ns)

-- An entry with no children.
abbrev pub leaf : String → String → Node
leaf label link = node (record { label = codes label; link = codes link }) false false null

-- An entry with an array of children.
abbrev pub branch : String → String → List Node → Node
branch label link ns =
    node (record { label = codes label; link = codes link }) false false (array (nodes ns))

-- An entry whose children a script holds.
abbrev pub scripted : String → String → String → Node
scripted label link name =
    node (record { label = codes label; link = codes link }) false false (script (codes name))

-- A key of a table and its path.
abbrev pub at : String → List ℕ → Str × List ℕ
at key path = (codes key, path)
