-- ===== src/Search/Children/Ahead.antt =====
-- What the walk of FindChildElement, search/search.js, keeps on its way to a place.
use mathlib.Core.List.{append_cancel_right, append_assoc, append-nil}
use mathlib.Core.Path.{subst}
use ta_ref.Prelude.Loops.{Loop, finished}
use ta_ref.Prelude.{
  length, zero, suc, sym, ap, suc, ℕ, arith, ◌≡◌, refl, ◌∙◌, true, false, List, [], ◌∷◌, ◌++◌,
  Option, none, some, inl, inr, Bool-cases,
}
use ta_ref.Search.Children.{
  visit_all, find_from, found, ended, go_on, round, find_loop, Elem, Node, node, Nodes, nil, cons,
  elem_of, Crumb, Place, join, is_children, Round, goes_to, visit, visit_all, plug,
}
use ta_ref.Search.Children.Walk.{
  round_at_found, remaining-round_at, round_at_not_found, remaining_round, is_found, remaining,
  first_children, behind,
}
use ta_ref.Search.Children.Places.{DivUps, IsAt, LeadsTo, round_at-LeadsTo}

-- What stands ahead of a place in document order.
unfoldable pub ahead_of : List Crumb → List Elem
ahead_of [] = []
ahead_of (c ∷ ups) = ahead_of ups ++ (visit_all (join c.before nil) ++ c.elem ∷ [])

unfoldable pub ahead : Nodes → List Crumb → List Elem
ahead before ups = ahead_of ups ++ visit_all (join before nil)

pub visit_all-join :
    (before rest : Nodes)
    → visit_all (join before rest) ≡ visit_all (join before nil) ++ visit_all rest
unfolding visit join
visit_all-join nil rest = refl
visit_all-join (cons n before) rest =
    visit_all-join before (cons n rest)
    ∙ rw (visit_all-join before (cons n nil)) (unfold visit in simp (append-nil, append_assoc))

visit_all-plug :
    (n : Node) (before after : Nodes) (ups : List Crumb)
    → DivUps ups
    → visit_all (plug n before after ups)
      ≡ ahead before ups ++ (visit n ++ (visit_all after ++ behind ups))
unfolding plug ahead ahead_of behind
visit_all-plug n before after [] d =
    rw (visit_all-join before (cons n after)) (unfold visit in rw append-nil)
visit_all-plug n before after (c ∷ ups) (e, d) =
    visit_all-plug (node c.elem (join before (cons n after))) c.before c.after ups d
    ∙ (unfold visit in
        rw (e, visit_all-join before (cons n after)) (unfold visit in simp append_assoc))

first_children-append :
    (xs : List Elem) (e : Elem)
    → first_children xs ≡ none
    → is_children e ≡ false
    → first_children (xs ++ e ∷ []) ≡ none
first_children-append [] e h k = rw k
first_children-append (x ∷ xs) e h k = ground (arith, first_children-append xs e)

-- One round moves one element over to what stands ahead.
ahead-round :
    (t : Nodes) (p q : Place)
    → is_children (elem_of p.focus) ≡ false
    → round p ≡ goes_to q
    → IsAt t (some p)
    → IsAt t (some q)
    → ahead q.before q.ups ≡ ahead p.before p.ups ++ elem_of p.focus ∷ []
unfolding round remaining remaining_round
ahead-round t p q h r (tp, dp) (tq, dq) =
    let seen = ap remaining_round r in
    let left = remaining-round_at p.focus p.before p.after p.ups h in
    let all_p = visit_all-plug p.focus p.before p.after p.ups dp in
    let all_q = visit_all-plug q.focus q.before q.after q.ups dq in
    let both = sym all_q ∙ ap visit_all (tq ∙ sym tp) ∙ all_p in
    append_cancel_right (ahead q.before q.ups) (ahead p.before p.ups ++ elem_of p.focus ∷ [])
      (remaining q)
      (both
        ∙ ap (λ l. ahead p.before p.ups ++ l) (sym left ∙ ap (λ l. elem_of p.focus ∷ l) seen)
        ∙ sym (append_assoc (ahead p.before p.ups) (elem_of p.focus ∷ []) (remaining q)))

round-IsAt :
    (t : Nodes) (p q : Place)
    → is_children (elem_of p.focus) ≡ false
    → round p ≡ goes_to q
    → IsAt t (some p)
    → IsAt t (some q)
unfolding round
round-IsAt t p q h r (tp, dp) =
    subst (LeadsTo t) r
      (subst (λ u. LeadsTo u (round p)) tp (round_at-LeadsTo p.focus p.before p.after p.ups h dp))

-- What is kept on the way to the element that is found.
pub record IsFound (t : Nodes) (q : Place) : Type 0 where
  pub here : is_children (elem_of q.focus) ≡ true
  pub at : IsAt t (some q)
  pub none_ahead : first_children (ahead q.before q.ups) ≡ none

go_on-IsFound :
    (t : Nodes) (loop : Place → Loop (Option Place)) (p q : Place) (r : Round)
    → is_found r ≡ false
    → go_on loop p r ≡ finished (some q)
    → ((p' : Place) → r ≡ goes_to p' → loop p' ≡ finished (some q) → IsFound t q)
    → IsFound t q
unfolding go_on
go_on-IsFound t loop p q found n e ih = cc
go_on-IsFound t loop p q ended n e ih = cc
go_on-IsFound t loop p q (goes_to p') n e ih = ih p' refl e

find_loop-IsFound :
    (t : Nodes) (fuel : ℕ) (p q : Place)
    → find_loop fuel p ≡ finished (some q)
    → IsAt t (some p)
    → first_children (ahead p.before p.ups) ≡ none
    → IsFound t q
unfolding find_loop
find_loop-IsFound t zero p q e at none_before = cc
find_loop-IsFound t (suc fuel) p q e at none_before =
    elim (Bool-cases (is_children (elem_of p.focus))) [
      | inl c ↦
          let same : p ≡ q =
            cc (ap (go_on (find_loop fuel) p) (round_at_found p.focus p.before p.after p.ups c)) in
          subst (IsFound t) same (record { here = c; at = at; none_ahead = none_before })
      | inr c ↦
          go_on-IsFound t (find_loop fuel) p q (round p)
            (round_at_not_found p.focus p.before p.after p.ups c) e
            (λ p' r e'.
              let at' = round-IsAt t p p' c r at in
              find_loop-IsFound t fuel p' q e' at' (
                rw (ahead-round t p p' c r at at')
                  (first_children-append (ahead p.before p.ups) (elem_of p.focus) none_before c)))
    ]

pub find_from-IsFound :
    (n : Node) (ns : Nodes) (q : Place)
    → find_from (cons n ns) ≡ finished (some q)
    → IsFound (cons n ns) q
unfolding find_from
find_from-IsFound n ns q h =
    find_loop-IsFound (cons n ns) (length (visit_all (cons n ns))) _ q h
      (unfold plug join in refl, tt) (unfold ahead ahead_of join visit in refl)
