-- ===== src/Search/Children.antt =====
-- FindChildElement and Toggle of SearchResults, search/search.js: the walk over the elements below a
-- row. A place in the document is the element with its siblings and the ancestors below the row, so
-- that parentNode, firstChild and nextSibling are steps from it; `element!=parentElement` is that the
-- step does not leave the children of the row.
pub mod Walk
mod Places
mod Ahead
pub mod Effect
use ta_ref.Prelude.{
  ℕ, zero, suc, Bool, true, false, ◌&&◌, List, [], ◌∷◌, ◌++◌, Option, none, some, length,
  if◌then◌else◌,
}
use ta_ref.Prelude.Loops
use ta_ref.Prelude.Loops.{Loop, finished, unfinished}
use ta_ref.Text.{Str, codes, eq_str}
use ta_ref.Search.Results.{Display, unset, block, hidden}

-- `tag` is nodeName in lower case; a text node is an element with no children and another tag.
pub record Elem : Type 0 where
  pub tag : Str
  pub class_name : Str
  pub display : Display

mutual
  pub data Node : Type 0 where
    node : Elem → Nodes → Node

  pub data Nodes : Type 0 where
    nil : Nodes
    cons : Node → Nodes → Nodes

abbrev pub elem_of : Node → Elem
elem_of (node e kids) = e

-- An ancestor below the row, with its siblings; those before it stand in reverse.
pub record Crumb : Type 0 where
  pub elem : Elem
  pub before : Nodes
  pub after : Nodes

pub record Place : Type 0 where
  pub focus : Node
  pub before : Nodes
  pub after : Nodes
  pub ups : List Crumb

unfoldable pub join : Nodes → Nodes → Nodes
join nil rest = rest
join (cons n before) rest = join before (cons n rest)

abbrev pub is_div : Elem → Bool
is_div e = eq_str e.tag (codes "div")

abbrev pub is_children : Elem → Bool
is_children e = is_div e && eq_str e.class_name (codes "SRChildren")

-- The next sibling of an element where it has one, and `higher` where not.
pub sibling_or : Nodes → Node → Nodes → List Crumb → Option Place → Option Place
sibling_or nil n before ups higher = higher
sibling_or (cons m rest) n before ups higher =
    some (record { focus = m; before = cons n before; after = rest; ups = ups })

-- do element = element.parentNode while (element && element!=parentElement && !element.nextSibling),
-- and then its next sibling; none where the loop has come to parentElement
pub climb : Node → Nodes → Nodes → List Crumb → Option Place
unfolding sibling_or
climb n before after [] = none
climb n before after (c ∷ ups) =
    let up = node c.elem (join before (cons n after)) in
    sibling_or c.after up c.before ups (climb up c.before c.after ups)

-- One round of the loop: the element is the one looked for, or the loop goes on at another, or ends.
pub data Round : Type 0 where
  found : Round
  ended : Round
  goes_to : Place → Round

abbrev onward : Option Place → Round
onward none = ended
onward (some p) = goes_to p

-- The branch of an element that is not a div with children.
pub next_or_up : Node → Nodes → Nodes → List Crumb → Round
unfolding climb
next_or_up n before after ups = onward (sibling_or after n before ups (climb n before after ups))

-- The branch of a div that is not the one looked for.
first_or_next : Elem → Nodes → Nodes → Nodes → List Crumb → Round
unfolding next_or_up
first_or_next e nil before after ups = next_or_up (node e nil) before after ups
first_or_next e (cons k rest) before after ups =
    let crumb : Crumb = record { elem = e; before = before; after = after } in
    goes_to (record { focus = k; before = nil; after = rest; ups = crumb ∷ ups })

pub round_at : Node → Nodes → Nodes → List Crumb → Round
unfolding first_or_next
round_at (node e kids) before after ups =
    if is_children e
    then found
    else if is_div e
    then first_or_next e kids before after ups
    else next_or_up (node e kids) before after ups

round : Place → Round
unfolding round_at
round p = round_at p.focus p.before p.after p.ups

-- The elements in document order, with those below a div.
unfoldable mutual
  pub visit : Node → List Elem
  visit (node e kids) = e ∷ (if is_div e then visit_all kids else [])

  pub visit_all : Nodes → List Elem
  visit_all nil = []
  visit_all (cons n ns) = visit n ++ visit_all ns

go_on : (Place → Loop (Option Place)) → Place → Round → Loop (Option Place)
go_on loop p found = finished (some p)
go_on loop p ended = finished none
go_on loop p (goes_to q) = loop q

-- The while loop, with at most `fuel` rounds.
find_loop : ℕ → Place → Loop (Option Place)
unfolding round go_on
find_loop zero p = unfinished
find_loop (suc fuel) p = go_on (find_loop fuel) p (round p)

-- The walk begins at the first child. A round for each element is enough.
pub find_from : Nodes → Loop (Option Place)
unfolding find_loop visit
find_from nil = finished none
find_from (cons n ns) =
    find_loop (length (visit_all (cons n ns)))
      (record { focus = n; before = nil; after = ns; ups = [] })

unfoldable pub find_child_element : Node → Loop (Option Place)
unfolding find_from
find_child_element (node e kids) = find_from kids

-- The children of the row, read off a place among them.
pub plug : Node → Nodes → Nodes → List Crumb → Nodes
plug n before after [] = join before (cons n after)
plug n before after (c ∷ ups) = plug (node c.elem (join before (cons n after))) c.before c.after ups

abbrev pub flip : Display → Display
flip block = hidden
flip _ = block

abbrev pub flip_elem : Elem → Elem
flip_elem e = record e { display = flip e.display }

abbrev flip_node : Node → Node
flip_node (node e kids) = node (flip_elem e) kids

-- The write to element.style.display, where the walk has found an element.
toggle_at : Elem → Nodes → Option Place → Node
unfolding plug
toggle_at e kids none = node e kids
toggle_at e kids (some p) = node e (plug (flip_node p.focus) p.before p.after p.ups)

-- Toggle, on the row that has the id.
pub toggle : Node → Loop Node
unfolding toggle_at find_child_element Loops.map
toggle (node e kids) = Loops.map (toggle_at e kids) (find_from kids)
