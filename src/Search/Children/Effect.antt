-- ===== src/Search/Children/Effect.antt =====
-- What Toggle of SearchResults, search/search.js, changes.
use mathlib.Core.List.{append_assoc}
use mathlib.Core.Option
use ta_ref.Prelude.Loops
use ta_ref.Prelude.Loops.{Loop, finished, unfinished}
use ta_ref.Prelude.{
  Bool, if◌then◌else◌, sym, ap, arith, ◌≡◌, refl, ◌∙◌, true, false, List, [], ◌∷◌, ◌++◌, Option,
  none, some, inl, inr, Bool-cases,
}
use ta_ref.Search.Children.{
  is_div, visit_all, find_child_element, find_from, toggle_at, flip_elem, flip_node, toggle, Elem,
  Node, node, Nodes, nil, cons, elem_of, Crumb, Place, join, is_children, visit, visit_all, plug,
}
use ta_ref.Search.Children.Walk.{focus_elem, find_child_element-first, first_children}
use ta_ref.Search.Children.Places.{DivUps}
use ta_ref.Search.Children.Ahead.{ahead, ahead_of, visit_all-join, find_from-IsFound}

-- Toggle as a function on the tree: the first of the children that is, or that has below divs, a div of
-- the class SRChildren is changed there, and all else is kept.
abbrev is_some : Option Elem → Bool
is_some none = false
is_some (some e) = true

abbrev has_children : Node → Bool
has_children n = is_some (first_children (visit n))

unfoldable mutual
  pub flip_in : Node → Node
  flip_in (node e kids) =
      if is_children e
      then node (flip_elem e) kids
      else if is_div e
      then node e (flip_first kids)
      else node e kids

  pub flip_first : Nodes → Nodes
  flip_first nil = nil
  flip_first (cons n ns) = if has_children n then cons (flip_in n) ns else cons n (flip_first ns)

has_children-none : (n : Node) → first_children (visit n) ≡ none → has_children n ≡ false
has_children-none n h = ap is_some h

first-visit_here :
    (e : Elem) (kids : Nodes) → is_children e ≡ true → first_children (visit (node e kids)) ≡ some e
unfolding visit
first-visit_here e kids h = rw h

has_children-here : (n : Node) → is_children (elem_of n) ≡ true → has_children n ≡ true
unfolding visit
has_children-here (node e kids) h = ap is_some (first-visit_here e kids h)

first_children-both :
    (xs ys : List Elem)
    → first_children (xs ++ ys) ≡ none
    → (first_children xs ≡ none) × (first_children ys ≡ none)
first_children-both [] ys h = (refl, h)
first_children-both (x ∷ xs) ys h = elim (Bool-cases (is_children x)) [
  | inl c ↦ absurd (ground arith)
  | inr c ↦ ground (arith, first_children-both xs ys)
]

flip_first-none : (ns : Nodes) → first_children (visit_all ns) ≡ none → flip_first ns ≡ ns
unfolding flip_first visit
flip_first-none nil h = refl
flip_first-none (cons n ns) h =
    let (here, later) = first_children-both (visit n) (visit_all ns) h in
    rw (has_children-none n here) (ap (cons n) (flip_first-none ns later))

-- Siblings before that have none of what is looked for are kept.
flip_first-join :
    (before rest : Nodes)
    → first_children (visit_all (join before nil)) ≡ none
    → flip_first (join before rest) ≡ join before (flip_first rest)
unfolding join flip_first
flip_first-join nil rest h = refl
flip_first-join (cons n before) rest h =
    let (later, here) =
      first_children-both (visit_all (join before nil)) (visit_all (cons n nil))
        (sym (ap first_children (visit_all-join before (cons n nil))) ∙ h) in
    let (here', _) = first_children-both (visit n) [] (unfold visit in here) in
    flip_first-join before (cons n rest) later ∙ rw (has_children-none n here') refl

flip_in_here : (n : Node) → is_children (elem_of n) ≡ true → flip_in n ≡ flip_node n
unfolding flip_in
flip_in_here (node e kids) h = rw h refl

has_children-false : (n : Node) → has_children n ≡ false → first_children (visit n) ≡ none
has_children-false n h = cases (first_children (visit n)) refl h
  where
    cases :
        (o : Option Elem)
        → first_children (visit n) ≡ o
        → is_some o ≡ false
        → first_children (visit n) ≡ none
    cases none e h = e
    cases (some a) e h = cc h

flip_first-siblings :
    (n : Node) (before after : Nodes)
    → has_children n ≡ true
    → first_children (visit_all (join before nil)) ≡ none
    → flip_first (join before (cons n after)) ≡ join before (cons (flip_in n) after)
flip_first-siblings n before after has h =
    flip_first-join before (cons n after) h ∙ ap (join before) (unfold flip_first in rw has refl)

-- The parent of such an element has what is looked for too.
has_children-above :
    (e : Elem) (n : Node) (before after : Nodes)
    → is_div e ≡ true
    → has_children n ≡ true
    → has_children (node e (join before (cons n after))) ≡ true
has_children-above e n before after d has =
    elim (Bool-cases (has_children (node e (join before (cons n after))))) [
      | inl above ↦ above
      | inr lacks ↦
          let all : first_children (e ∷ visit_all (join before (cons n after))) ≡ none =
            unfold visit in
            (rw d refl ∙ has_children-false (node e (join before (cons n after))) lacks) in
          let (_, below) = first_children-both (e ∷ []) _ all in
          let (_, later) =
            first_children-both (visit_all (join before nil)) (visit n ++ visit_all after) (
              unfold visit in
              sym (ap first_children (visit_all-join before (cons n after))) ∙ below) in
          let (here, _) = first_children-both (visit n) (visit_all after) later in
          absurd (cc (has, has_children-none n here))
    ]

flip_in_below :
    (e : Elem) (kids : Nodes)
    → is_div e ≡ true
    → first_children (e ∷ []) ≡ none
    → flip_in (node e kids) ≡ node e (flip_first kids)
unfolding flip_in
flip_in_below e kids d h = elim (Bool-cases (is_children e)) [
  | inl c ↦ absurd (ground arith)
  | inr c ↦ rw c (rw d refl)
]

flip_first-plug :
    (n : Node) (before after : Nodes) (ups : List Crumb)
    → DivUps ups
    → has_children n ≡ true
    → first_children (ahead before ups) ≡ none
    → flip_first (plug n before after ups) ≡ plug (flip_in n) before after ups
unfolding plug ahead ahead_of
flip_first-plug n before after [] d has h = flip_first-siblings n before after has h
flip_first-plug n before after (c ∷ ups) (e, d) has h =
    let (above, here) = first_children-both (ahead_of (c ∷ ups)) (visit_all (join before nil)) h in
    let level = visit_all (join c.before nil) in
    let (higher, own) =
      first_children-both (ahead_of ups ++ level) (c.elem ∷ [])
        (ap first_children (append_assoc (ahead_of ups) level (c.elem ∷ [])) ∙ above) in
    let m = node c.elem (join before (cons n after)) in
    flip_first-plug m c.before c.after ups d (has_children-above c.elem n before after e has) higher
    ∙ ap (λ k. plug k c.before c.after ups)
        (flip_in_below c.elem _ e own
          ∙ ap (node c.elem) (flip_first-siblings n before after has here))

toggled :
    (e : Elem) (n : Node) (ns : Nodes) (o : Option Place)
    → find_from (cons n ns) ≡ finished o
    → Option.map focus_elem o ≡ first_children (visit_all (cons n ns))
    → toggle_at e (cons n ns) o ≡ node e (flip_first (cons n ns))
unfolding toggle_at
toggled e n ns none h first = ap (node e) (sym (flip_first-none (cons n ns) (sym first)))
toggled e n ns (some q) h first =
    let f = find_from-IsFound n ns q h in
    let turned =
      flip_first-plug q.focus q.before q.after q.ups f.at.1 (has_children-here q.focus f.here)
        f.none_ahead in
    ap (node e) (
      ap (λ k. plug k q.before q.after q.ups) (sym (flip_in_here q.focus f.here))
      ∙ sym turned
      ∙ ap flip_first f.at.0)

-- Toggle ends, and leaves the whole row as it is but for one display: that of the first div of the
-- class SRChildren, in document order and below divs only, which goes from block to none or from
-- anything else to block. Where there is no such div it leaves the row as it is.
pub toggle-flip_first :
    (e : Elem) (kids : Nodes) → toggle (node e kids) ≡ finished (node e (flip_first kids))
unfolding toggle
toggle-flip_first e nil = unfold find_from flip_first in refl
toggle-flip_first e (cons n ns) =
    let (o, ends, first) = find_child_element-first (node e (cons n ns)) in
    let ends' : find_from (cons n ns) ≡ finished o = unfold find_child_element in ends in
    ap (Loops.map (toggle_at e (cons n ns))) ends'
    ∙ (unfold Loops.map in ap finished (toggled e n ns o ends' first))
