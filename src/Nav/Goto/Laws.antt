-- ===== src/Nav/Goto/Laws.antt =====
-- Which table navTo looks in, and which node it selects.
use ta_ref.Prelude.{
  ℕ, zero, suc, ◌<◌, ◌≡◌, refl, ap, ◌∙◌, inl, inr, Bool, true, false, List, [], ◌∷◌, ◌++◌, Option,
  none, some, arith, all, Bool-cases, Option-cases, get_elem?,
}
use ta_ref.Text.{Str, eq_str, le_str}
use ta_ref.Text.Laws.{eq_str_sound}
use ta_ref.Nav.Tree.{Node, selected, info, data_of}
use ta_ref.Nav.Tree.Laws.{node_at, has_data, show_node-selects}
use ta_ref.Nav.Goto.{
  Table, lookup, Site, target, chunk, breadcrumbs, goto_node, in_table, in_chunk, nav_to,
  is_index_page,
}

abbrev pub le_at : Str → Option Str → Bool
le_at url none = false
le_at url (some key) = le_str key url

chunk_before :
    (url key : Str) (keys : List Str) (i : ℕ)
    → le_str key url ≡ true
    → ((j : ℕ) → suc j ≡ i → le_at url (get_elem? keys j) ≡ true)
    → le_at url (get_elem? (key ∷ keys) i) ≡ true
chunk_before url key keys zero le before = le
chunk_before url key keys (suc j) le before = before j refl

-- The loop of navTo over NAVTREEINDEX stops at the first entry that is not at most the url, or at the
-- end: every entry before is at most the url.
pub chunk_lem :
    (url : Str) (index : List Str)
    → (le_at url (get_elem? index (chunk url index)) ≡ false)
      × ((i : ℕ) → i < chunk url index → le_at url (get_elem? index i) ≡ true)
unfolding chunk
chunk_lem url [] = (refl, λ i h. absurd (omega arith))
chunk_lem url (key ∷ keys) = elim (Bool-cases (le_str key url)) [
  | inl le ↦
      let (stop, before) = chunk_lem url keys in
      rw le (stop, λ i h. chunk_before url key keys i le (λ j k. before j (omega arith)))
  | inr more ↦ rw more (more, λ i h. absurd (omega arith))
]

-- What holds of every entry of a table holds of what is looked up.
pub lookup-all :
    (p : Str → List ℕ → Bool) (key : Str) (table : Table) (path : List ℕ)
    → all (λ e. p e.0 e.1) table ≡ true
    → lookup key table ≡ some path
    → p key path ≡ true
unfolding lookup
lookup-all p key [] path h e = cc
lookup-all p key ((k, q) ∷ table) path h e = elim (Option-cases (lookup key table)) [
  | inl n ↦ elim (Bool-cases (eq_str k key)) [
    | inl same ↦
        let keys : k ≡ key = eq_str_sound k key same in
        let paths : q ≡ path = ground arith in rw (← keys, ← paths) (ground arith)
    | inr other ↦ absurd (ground arith)
  ]
  | inr (found, n) ↦
      let paths : found ≡ path = ground arith in
      lookup-all p key table path (ground arith) (n ∙ ap some paths)
]

module _ (extend_array : Option (List ℕ) → List ℕ) (site : Site) where
  goto_node-crumbs :
      (table : Table) (root hash : Str) (path : List ℕ)
      → ((l : List ℕ) → extend_array (some l) ≡ l)
      → lookup (root ++ hash) table ≡ some path
      → breadcrumbs extend_array site table root hash ≡ 0 ∷ path
  unfolding breadcrumbs
  goto_node-crumbs table root hash path extend found = rw (found, extend path)

  -- navTo, where the table that its loop chooses has this path for the page, with or without the hash.
  pub nav_to_at :
      (link toroot root hash page anchor : Str) (i : ℕ) (table : Table) (path : List ℕ)
      (tree n : Node)
      → target link root hash ≡ (page, anchor)
      → chunk (page ++ anchor) site.index ≡ suc i
      → site.table i ≡ some table
      → breadcrumbs extend_array site table page anchor ≡ 0 ∷ path
      → node_at site.load tree (0 ∷ path) ≡ some n
      → has_data site.load (data_of n) ≡ true
      → (nav_to extend_array site link toroot root hash tree).1 ≡ selected (info n)
  unfolding nav_to in_chunk in_table goto_node
  nav_to_at link toroot root hash page anchor i table path tree n t c arrived crumbs at d =
      rw (t, c, arrived, crumbs)
        (show_node-selects site.load (is_index_page toroot) (0 ∷ path) tree n at d).0

  -- The same for a page whose hash the table does not have.
  pub nav_to-page :
      (link toroot root hash page anchor : Str) (i : ℕ) (table : Table) (path : List ℕ)
      (tree n : Node)
      → ((l : List ℕ) → extend_array (some l) ≡ l)
      → target link root hash ≡ (page, anchor)
      → chunk (page ++ anchor) site.index ≡ suc i
      → site.table i ≡ some table
      → lookup (page ++ anchor) table ≡ none
      → lookup page table ≡ some path
      → node_at site.load tree (0 ∷ path) ≡ some n
      → has_data site.load (data_of n) ≡ true
      → (nav_to extend_array site link toroot root hash tree).1 ≡ selected (info n)
  unfolding breadcrumbs
  nav_to-page link toroot root hash page anchor i table path tree n extend t c arrived missing found
        at d =
      nav_to_at link toroot root hash page anchor i table path tree n t c arrived
        (rw (missing, found, extend path) refl) at d

  -- navTo, where the table that its loop chooses has an entry for the page and the hash, and the entry
  -- leads to a node of the tree whose script, if any, has arrived, ends in selectAndHighlight with that
  -- node, if jQuery's extend copies an array that it is given.
  pub nav_to-selects :
      (link toroot root hash page anchor : Str) (i : ℕ) (table : Table) (path : List ℕ)
      (tree n : Node)
      → ((l : List ℕ) → extend_array (some l) ≡ l)
      → target link root hash ≡ (page, anchor)
      → chunk (page ++ anchor) site.index ≡ suc i
      → site.table i ≡ some table
      → lookup (page ++ anchor) table ≡ some path
      → node_at site.load tree (0 ∷ path) ≡ some n
      → has_data site.load (data_of n) ≡ true
      → (nav_to extend_array site link toroot root hash tree).1 ≡ selected (info n)
  nav_to-selects link toroot root hash page anchor i table path tree n extend t c arrived found at
        d =
      nav_to_at link toroot root hash page anchor i table path tree n t c arrived
        (goto_node-crumbs table page anchor path extend found) at d
