-- ===== src/Nav/Tree/Laws.antt =====
-- What showNode selects, and what it opens.
use ta_ref.Prelude.{
  ℕ, zero, suc, ◌≡◌, refl, inl, inr, Bool, true, false, ◌&&◌, List, [], ◌∷◌, Option, none, some,
  arith, Option-cases,
}
use ta_ref.Text.{Str}
use ta_ref.Nav.Tree.{
  Info, Node, node, Data, null, script, array, Nodes, nil, cons, info, data_of, child, set_child,
  Shown, selected, select_data, select_node, is_last, at_child, at_data, show_node, kids,
}

-- The node that the breadcrumbs name, in the tree with every script loaded.
abbrev pub child_in : Option Nodes → ℕ → Option Node
child_in none b = none
child_in (some ns) b = child ns b

abbrev pub follow : (Node → Option Node) → Option Node → Option Node
follow f none = none
follow f (some n) = f n

abbrev holds_at : (Node → Bool) → Option Node → Bool
holds_at f none = false
holds_at f (some n) = f n

module _ (load : Str → Option Nodes) where
  unfoldable pub node_at : Node → List ℕ → Option Node
  node_at n [] = some n
  node_at (node i e v d) (b ∷ crumbs) = follow (λ n. node_at n crumbs) (child_in (kids load d) b)

  -- The script of the node at the end of the path has arrived, where it has one.
  abbrev pub has_data : Data → Bool
  has_data (script s) = elim (load s) [ none ↦ false | some ns ↦ true ]
  has_data _ = true

  -- All nodes on the path but the last are expanded.
  pub opened : Node → List ℕ → Bool
  opened n [] = true
  opened (node i e v d) (b ∷ crumbs) =
      e && holds_at (λ n. opened n crumbs) (child_in (kids load d) b)

  select_node-selected :
      (index_page : Bool) (n : Node)
      → has_data (data_of n) ≡ true
      → (select_node load index_page n).1 ≡ selected (info n)
  unfolding select_node select_data
  select_node-selected index_page (node i e v null) h = refl
  select_node-selected index_page (node i e v (array ns)) h = refl
  select_node-selected index_page (node i e v (script s)) h = ground arith

  child-set_child :
      (ns : Nodes) (b : ℕ) (m : Node) {n : Node}
      → child ns b ≡ some n
      → child (set_child ns b m) b ≡ some m
  unfolding child set_child
  child-set_child nil b m h = cc
  child-set_child (cons n ns) zero m h = refl
  child-set_child (cons n ns) (suc b) m h = child-set_child ns b m h

  -- What is selected, and that the way to it is open.
  abbrev Selects : Node → List ℕ → Node × Shown → Type 0
  Selects n crumbs r = (r.1 ≡ selected (info n)) × (opened r.0 crumbs ≡ true)

  at_child-Selects :
      (index_page : Bool) (crumbs : List ℕ) (i : Info) (ns : Nodes) (b : ℕ) (n : Node)
      (o : Option Node)
      → child ns b ≡ o
      → follow (λ m. node_at m crumbs) o ≡ some n
      → ((c : Node)
          → node_at c crumbs ≡ some n
          → Selects n crumbs (show_node load index_page crumbs c))
      → Selects n
          (b ∷ crumbs)
          (at_child load (show_node load index_page crumbs) (is_last load crumbs) i ns b o)
  unfolding at_child opened
  at_child-Selects index_page crumbs i ns b n none e h ih = cc
  at_child-Selects index_page crumbs i ns b n (some c) e h ih =
      let (shown, open_below) = ih c h in
      (shown, rw (child-set_child ns b (show_node load index_page crumbs c).0 e) open_below)

  -- showNode, where the breadcrumbs name a node of the tree with every script loaded, and the script of
  -- that node, if any, has arrived, ends in selectAndHighlight with the node; every node above it is
  -- expanded.
  pub show_node-selects :
      (index_page : Bool) (crumbs : List ℕ) (root n : Node)
      → node_at root crumbs ≡ some n
      → has_data (data_of n) ≡ true
      → ((show_node load index_page crumbs root).1 ≡ selected (info n))
        × (opened (show_node load index_page crumbs root).0 crumbs ≡ true)
  unfolding show_node node_at opened
  show_node-selects index_page [] root n h k =
      let same : root ≡ n = cc h in (rw same (select_node-selected index_page n k), refl)
  show_node-selects index_page (b ∷ crumbs) (node i e v null) n h k = cc
  show_node-selects index_page (b ∷ crumbs) (node i e v (array ns)) n h k =
      at_child-Selects index_page crumbs i ns b n (child ns b) refl h
        (λ c r. show_node-selects index_page crumbs c n r k)
  show_node-selects index_page (b ∷ crumbs) (node i e v (script s)) n h k =
      elim (Option-cases (load s)) [
        | inl l ↦ absurd (ground arith)
        | inr (ns, l) ↦
            rw (l, at_data)
              (at_child-Selects index_page crumbs i ns b n (child ns b) refl (rw l at h)
                (λ c r. show_node-selects index_page crumbs c n r k))
      ]
