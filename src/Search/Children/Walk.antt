-- ===== src/Search/Children/Walk.antt =====
-- The walk of FindChildElement, search/search.js, in the order of the document.
use mathlib.Core.List.{append_assoc, append-nil}
use ta_ref.Prelude.{
  ℕ, zero, suc, ◌≤◌, ◌<◌, ◌≡◌, refl, sym, ap, ◌∙◌, Bool, true, false, List, [], ◌∷◌, ◌++◌, Option,
  none, some, if◌then◌else◌, length, arith, inl, inr, Bool-cases,
}
use mathlib.Core.Option
use ta_ref.Prelude.Loops.{Loop, finished}
use ta_ref.Search.Children.{
  find_child_element, visit_all, go_on, Nodes, sibling_or, first_or_next, Elem, Node, node, Nodes,
  nil, cons, elem_of, Crumb, Place, is_div, is_children, climb, Round, found, ended, goes_to,
  onward, next_or_up, round_at, round, find_loop, visit,
}

-- What the loop has still to look at behind the ancestors.
unfoldable pub behind : List Crumb → List Elem
behind [] = []
behind (c ∷ ups) = visit_all c.after ++ behind ups

unfoldable pub remaining : Place → List Elem
remaining p = visit p.focus ++ (visit_all p.after ++ behind p.ups)

remaining_next : Option Place → List Elem
remaining_next none = []
remaining_next (some p) = remaining p

remaining-sibling_or :
    (after : Nodes) (n : Node) (before : Nodes) (ups : List Crumb) (higher : Option Place)
    → remaining_next higher ≡ behind ups
    → remaining_next (sibling_or after n before ups higher) ≡ visit_all after ++ behind ups
unfolding sibling_or remaining_next remaining visit
remaining-sibling_or nil n before ups higher h = h
remaining-sibling_or (cons m rest) n before ups higher h =
    sym (append_assoc (visit m) (visit_all rest) (behind ups))

remaining-climb :
    (ups : List Crumb) (n : Node) (before after : Nodes)
    → remaining_next (climb n before after ups) ≡ behind ups
unfolding climb remaining_next behind
remaining-climb [] n before after = refl
remaining-climb (c ∷ ups) n before after =
    remaining-sibling_or c.after _ c.before ups _ (remaining-climb ups _ c.before c.after)

-- What a round leaves to look at.
unfoldable pub remaining_round : Round → List Elem
remaining_round found = []
remaining_round ended = []
remaining_round (goes_to p) = remaining p

remaining-onward : (o : Option Place) → remaining_round (onward o) ≡ remaining_next o
unfolding remaining_round remaining_next
remaining-onward none = refl
remaining-onward (some p) = refl

remaining-next_or_up :
    (n : Node) (before after : Nodes) (ups : List Crumb)
    → remaining_round (next_or_up n before after ups) ≡ visit_all after ++ behind ups
unfolding next_or_up
remaining-next_or_up n before after ups =
    remaining-onward _
    ∙ remaining-sibling_or after n before ups _ (remaining-climb ups n before after)

remaining-first_or_next :
    (e : Elem) (kids before after : Nodes) (ups : List Crumb)
    → remaining_round (first_or_next e kids before after ups)
      ≡ visit_all kids ++ (visit_all after ++ behind ups)
unfolding first_or_next remaining_round remaining behind visit
remaining-first_or_next e nil before after ups = remaining-next_or_up (node e nil) before after ups
remaining-first_or_next e (cons k rest) before after ups =
    sym (append_assoc (visit k) (visit_all rest) _)

abbrev pub focus_elem : Place → Elem
focus_elem p = elem_of p.focus

-- A round that does not find its element has looked at it alone.
pub remaining-round_at :
    (n : Node) (before after : Nodes) (ups : List Crumb)
    → is_children (elem_of n) ≡ false
    → elem_of n ∷ remaining_round (round_at n before after ups)
      ≡ visit n ++ (visit_all after ++ behind ups)
unfolding round_at visit
remaining-round_at (node e kids) before after ups h = elim (Bool-cases (is_div e)) [
  | inl d ↦ rw (h, d) (ap (λ t. e ∷ t) (remaining-first_or_next e kids before after ups))
  | inr d ↦ rw (h, d) (ap (λ t. e ∷ t) (remaining-next_or_up (node e kids) before after ups))
]

pub round_at_found :
    (n : Node) (before after : Nodes) (ups : List Crumb)
    → is_children (elem_of n) ≡ true
    → round_at n before after ups ≡ found
unfolding round_at
round_at_found (node e kids) before after ups h = rw h

abbrev pub is_found : Round → Bool
is_found found = true
is_found _ = false

onward_not_found : (o : Option Place) → is_found (onward o) ≡ false
onward_not_found none = refl
onward_not_found (some p) = refl

first_or_next_not_found :
    (e : Elem) (kids before after : Nodes) (ups : List Crumb)
    → is_found (first_or_next e kids before after ups) ≡ false
unfolding first_or_next
first_or_next_not_found e nil before after ups = onward_not_found _
first_or_next_not_found e (cons k rest) before after ups = refl

pub round_at_not_found :
    (n : Node) (before after : Nodes) (ups : List Crumb)
    → is_children (elem_of n) ≡ false
    → is_found (round_at n before after ups) ≡ false
unfolding round_at next_or_up
round_at_not_found (node e kids) before after ups h = elim (Bool-cases (is_div e)) [
  | inl d ↦ rw (h, d) (first_or_next_not_found e kids before after ups)
  | inr d ↦ rw (h, d) (onward_not_found _)
]

-- The first of the elements that is a div with class SRChildren.
abbrev pub first_children : List Elem → Option Elem
first_children [] = none
first_children (e ∷ es) = let rest = first_children es in if is_children e then some e else rest

-- The loop ends, with the first of these elements that is looked for.
abbrev Finds : List Elem → Loop (Option Place) → Type 0
Finds es result =
    (o : Option Place) × (result ≡ finished o) × (Option.map focus_elem o ≡ first_children es)

go_on_lem :
    (loop : Place → Loop (Option Place)) (p : Place) (r : Round)
    → is_found r ≡ false
    → ((q : Place) → r ≡ goes_to q → Finds (remaining q) (loop q))
    → Finds (remaining_round r) (go_on loop p r)
unfolding go_on remaining_round
go_on_lem loop p found h ih = cc
go_on_lem loop p ended h ih = (none, refl, refl)
go_on_lem loop p (goes_to q) h ih = ih q refl

first-visit_found :
    (n : Node) (es : List Elem)
    → is_children (elem_of n) ≡ true
    → first_children (visit n ++ es) ≡ some (elem_of n)
unfolding visit
first-visit_found (node e kids) es h = rw h

length-visit_pos : (n : Node) (es : List Elem) → 0 < length (visit n ++ es)
unfolding visit
length-visit_pos (node e kids) es = omega arith

first_children_skip :
    (e : Elem) (es : List Elem)
    → is_children e ≡ false
    → first_children es ≡ first_children (e ∷ es)
first_children_skip e es h = rw h

find_loop_lem :
    (fuel : ℕ) (p : Place) → length (remaining p) ≤ fuel → Finds (remaining p) (find_loop fuel p)
unfolding find_loop go_on round remaining remaining_round
find_loop_lem zero p h =
    absurd (omega (arith, length-visit_pos p.focus (visit_all p.after ++ behind p.ups)))
find_loop_lem (suc fuel) p h = elim (Bool-cases (is_children (elem_of p.focus))) [
  | inl c ↦ (
    some p,
    ap (go_on (find_loop fuel) p) (round_at_found p.focus p.before p.after p.ups c),
    sym (first-visit_found p.focus _ c),
  )
  | inr c ↦
      let left = remaining-round_at p.focus p.before p.after p.ups c in
      let shorter = ap length left in
      let (o, ends, first) =
        go_on_lem (find_loop fuel) p (round p) (round_at_not_found p.focus p.before p.after p.ups c)
          (λ q e.
            find_loop_lem fuel q
              (omega (arith, shorter, ap (λ r. length (remaining_round r)) e))) in
      (o, ends, first ∙ (first_children_skip (elem_of p.focus) _ c ∙ ap first_children left))
]

abbrev pub children_of : Node → Nodes
children_of (node e kids) = kids

-- FindChildElement ends within a round for each element that it can look at, and returns the first
-- of them in document order that is a div of the class SRChildren; nothing where there is none. It
-- looks below a div only.
pub find_child_element-first :
    (row : Node)
    → (result : Option Place) × (find_child_element row ≡ finished result)
      × (Option.map focus_elem result ≡ first_children (visit_all (children_of row)))
unfolding find_child_element visit remaining behind
find_child_element-first (node e nil) = (none, refl, refl)
find_child_element-first (node e (cons n ns)) =
    let p : Place = record { focus = n; before = nil; after = ns; ups = [] } in
    let same = append-nil (visit_all ns) in
    let (o, ends, first) =
      find_loop_lem (length (visit_all (cons n ns))) p
        (omega (arith, ap (λ t. length (visit n ++ t)) same)) in
    (o, ends, first ∙ ap (λ t. first_children (visit n ++ t)) same)
