-- ===== src/Nav/Spec/Laws.antt =====
-- navTo of navtree.js with the tables of the specification.
use ta_ref.Prelude.{
  inl, inr, Option-cases, false, not, ◌&&◌, ◌∷◌, none, ℕ, zero, suc, ◌≡◌, refl, Bool, true, List,
  [], ◌++◌, Option, some, ◌==◌, arith, all, all-append,
}
use ta_ref.Text.{Str, codes, le_str}
use ta_ref.Nav.Tree.{Node, Nodes}
use ta_ref.Nav.Goto.{Table, lookup, target, chunk, goto_node, nav_to, in_chunk, in_table}
use ta_ref.Nav.Goto.Laws.{lookup-all}
use ta_ref.Nav.Spec.Index0a.{nav_tree_index0_a}
use ta_ref.Nav.Spec.Index0b.{nav_tree_index0_b}
use ta_ref.Nav.Spec.Index1a.{nav_tree_index1_a}
use ta_ref.Nav.Spec.Index1b.{nav_tree_index1_b}
use ta_ref.Nav.Spec.Index2a.{nav_tree_index2_a}
use ta_ref.Nav.Spec.Index2b.{nav_tree_index2_b}
use ta_ref.Nav.Spec.{spec_index, spec_tables, spec_site}

abbrev ends_in_hash : Str → Bool
ends_in_hash [] = false
ends_in_hash (c ∷ []) = c == b'#'
ends_in_hash (c ∷ d ∷ s) = ends_in_hash (d ∷ s)

ends_in_hash-append : (s : Str) → ends_in_hash (s ++ codes "#") ≡ true
ends_in_hash-append [] = refl
ends_in_hash-append (c ∷ []) = refl
ends_in_hash-append (c ∷ d ∷ s) = ends_in_hash-append (d ∷ s)

-- The loop of navTo comes to table i for the key, and for the key with an empty hash behind it.
abbrev leads_to : ℕ → Str → List ℕ → Bool
leads_to i key path =
    chunk key spec_index == suc i
    && (chunk (key ++ codes "#") spec_index == suc i && not (ends_in_hash key))

abbrev all_lead : ℕ → Table → Bool
all_lead i table = all (λ e. leads_to i e.0 e.1) table

nav_tree_index0_a_leads : all_lead 0 nav_tree_index0_a ≡ true
unfolding nav_tree_index0_a spec_index chunk le_str
nav_tree_index0_a_leads = refl

nav_tree_index0_b_leads : all_lead 0 nav_tree_index0_b ≡ true
unfolding nav_tree_index0_b spec_index chunk le_str
nav_tree_index0_b_leads = refl

nav_tree_index1_a_leads : all_lead 1 nav_tree_index1_a ≡ true
unfolding nav_tree_index1_a spec_index chunk le_str
nav_tree_index1_a_leads = refl

nav_tree_index1_b_leads : all_lead 1 nav_tree_index1_b ≡ true
unfolding nav_tree_index1_b spec_index chunk le_str
nav_tree_index1_b_leads = refl

nav_tree_index2_a_leads : all_lead 2 nav_tree_index2_a ≡ true
unfolding nav_tree_index2_a spec_index chunk le_str
nav_tree_index2_a_leads = refl

nav_tree_index2_b_leads : all_lead 2 nav_tree_index2_b ≡ true
unfolding nav_tree_index2_b spec_index chunk le_str
nav_tree_index2_b_leads = refl

-- What holds of all entries of both parts of a table holds of all its entries.
pub joined_all :
    (p : Str × List ℕ → Bool) (a b table : Table)
    → all p a ≡ true
    → all p b ≡ true
    → some (a ++ b) ≡ some table
    → all p table ≡ true
joined_all p a b table h k e =
    let same : a ++ b ≡ table = cc e in rw (← same) (all-append p a b h k)

tables_lead : (i : ℕ) (table : Table) → spec_tables i ≡ some table → all_lead i table ≡ true
unfolding spec_tables
tables_lead zero table h =
    joined_all (λ e. leads_to 0 e.0 e.1) _ _ table nav_tree_index0_a_leads nav_tree_index0_b_leads h
tables_lead (suc zero) table h =
    joined_all (λ e. leads_to 1 e.0 e.1) _ _ table nav_tree_index1_a_leads nav_tree_index1_b_leads h
tables_lead (suc (suc zero)) table h =
    joined_all (λ e. leads_to 2 e.0 e.1) _ _ table nav_tree_index2_a_leads nav_tree_index2_b_leads h
tables_lead (suc (suc (suc i))) table h = cc

-- The table that holds a key is the one that the loop of navTo comes to.
pub chunk-spec_tables :
    (key : Str) (i : ℕ) (table : Table) (path : List ℕ)
    → spec_tables i ≡ some table
    → lookup key table ≡ some path
    → chunk key spec_index ≡ suc i
chunk-spec_tables key i table path here entry =
    let found = lookup-all (leads_to i) key table path (tables_lead i table here) entry in
    ground arith

-- So it is for a page with an empty hash, which itself is not a key.
pub chunk_page :
    (page : Str) (i : ℕ) (table : Table) (path : List ℕ)
    → spec_tables i ≡ some table
    → lookup page table ≡ some path
    → (chunk (page ++ codes "#") spec_index ≡ suc i) × (lookup (page ++ codes "#") table ≡ none)
chunk_page page i table path here entry =
    let led = tables_lead i table here in
    let found = lookup-all (leads_to i) page table path led entry in
    (
      ground arith,
      elim (Option-cases (lookup (page ++ codes "#") table)) [
        | inl missing ↦ missing
        | inr (other, there) ↦
            let at_hash = lookup-all (leads_to i) (page ++ codes "#") table other led there in
            absurd (ground (arith, ends_in_hash-append page))
      ],
    )

-- On the pages of the specification, for every page and hash that a table of NAVTREEINDEX has as a
-- key, navTo with no stored link and a hash that is not that of a line goes on with gotoNode in that
-- table, whichever scripts arrive.
pub spec_nav_to :
    (extend_array : Option (List ℕ) → List ℕ) (load : Str → Option Nodes) (toroot root hash : Str)
    (i : ℕ) (table : Table) (path : List ℕ) (tree : Node)
    → target [] root hash ≡ (root, hash)
    → spec_tables i ≡ some table
    → lookup (root ++ hash) table ≡ some path
    → nav_to extend_array (spec_site load) [] toroot root hash tree
      ≡ goto_node extend_array (spec_site load) toroot table root hash tree
unfolding nav_to in_chunk in_table
spec_nav_to extend_array load toroot root hash i table path tree t here entry =
    rw (t, chunk-spec_tables (root ++ hash) i table path here entry, here) refl
