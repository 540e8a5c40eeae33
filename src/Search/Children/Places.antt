-- ===== src/Search/Children/Places.antt =====
-- The places that the walk of FindChildElement, search/search.js, comes to.
use ta_ref.Prelude.{
  ◌≡◌, refl, true, false, List, [], ◌∷◌, Option, none, some, inl, inr, Bool-cases, All,
}
use ta_ref.Search.Children.{
  Node, node, Nodes, nil, cons, elem_of, Crumb, Place, join, is_div, is_children, sibling_or, climb,
  Round, goes_to, onward, next_or_up, first_or_next, round_at, plug,
}

abbrev pub DivUps : List Crumb → Type 0
DivUps = All (λ c. is_div c.elem ≡ true)

-- A place at which the children of the row read the same, below divs only.
abbrev pub IsAt : Nodes → Option Place → Type 0
IsAt t none = Unit
IsAt t (some p) = (plug p.focus p.before p.after p.ups ≡ t) × DivUps p.ups

abbrev pub LeadsTo : Nodes → Round → Type 0
LeadsTo t (goes_to p) = IsAt t (some p)
LeadsTo t _ = Unit

pub sibling_or-IsAt :
    (after : Nodes) (n : Node) (before : Nodes) (ups : List Crumb) (higher : Option Place)
    → DivUps ups
    → IsAt (plug n before after ups) higher
    → IsAt (plug n before after ups) (sibling_or after n before ups higher)
unfolding sibling_or
sibling_or-IsAt nil n before ups higher d h = h
sibling_or-IsAt (cons m rest) n before [] higher d h = (unfold plug join in refl, d)
sibling_or-IsAt (cons m rest) n before (c ∷ ups) higher d h = (unfold plug join in refl, d)

pub climb-IsAt :
    (ups : List Crumb) (n : Node) (before after : Nodes)
    → DivUps ups
    → IsAt (plug n before after ups) (climb n before after ups)
unfolding climb plug
climb-IsAt [] n before after d = tt
climb-IsAt (c ∷ ups) n before after (e, d) =
    sibling_or-IsAt c.after _ c.before ups _ d (climb-IsAt ups _ c.before c.after d)

pub onward-LeadsTo : (t : Nodes) (o : Option Place) → IsAt t o → LeadsTo t (onward o)
onward-LeadsTo t none h = tt
onward-LeadsTo t (some p) h = h

pub next_or_up-LeadsTo :
    (n : Node) (before after : Nodes) (ups : List Crumb)
    → DivUps ups
    → LeadsTo (plug n before after ups) (next_or_up n before after ups)
unfolding next_or_up
next_or_up-LeadsTo n before after ups d =
    onward-LeadsTo _ _ (sibling_or-IsAt after n before ups _ d (climb-IsAt ups n before after d))

pub round_at-LeadsTo :
    (n : Node) (before after : Nodes) (ups : List Crumb)
    → is_children (elem_of n) ≡ false
    → DivUps ups
    → LeadsTo (plug n before after ups) (round_at n before after ups)
unfolding round_at first_or_next
round_at-LeadsTo (node e nil) before after ups h d = elim (Bool-cases (is_div e)) [
  | inl k ↦ rw (h, k) (next_or_up-LeadsTo (node e nil) before after ups d)
  | inr k ↦ rw (h, k) (next_or_up-LeadsTo (node e nil) before after ups d)
]
round_at-LeadsTo (node e (cons k rest)) before after ups h d = elim (Bool-cases (is_div e)) [
  | inl v ↦ rw (h, v) (unfold plug join in refl, (v, d))
  | inr v ↦ rw (h, v) (next_or_up-LeadsTo (node e (cons k rest)) before after ups d)
]
