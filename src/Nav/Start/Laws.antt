-- ===== src/Nav/Start/Laws.antt =====
-- The first call of navTo of navtree.js on a page.
use ta_ref.Prelude.{
  ℕ, zero, suc, ◌≤◌, ◌≡◌, refl, sym, ap, ◌∙◌, Bool, true, false, not, List, [], ◌∷◌, ◌++◌, Option,
  none, some, ltb, arith, length, if_intro,
}
use mathlib.Core.List.{append_assoc, append-nil}
use ta_ref.Text.{Str}
use ta_ref.Nav.Path.{hash_url}
use ta_ref.Nav.Start.{
  Request, NavCall, first_call, later_call, Start, unstarted, call, call_stored, on_load,
  init_nav_tree, change_for, hash_change, Event, load, ready, hash_changed, animated, handle,
  handle_all,
}

-- The calls that begin the page.
unfoldable pub first_calls : List NavCall → List Request
first_calls [] = []
first_calls (first_call r ∷ cs) = r ∷ first_calls cs
first_calls (later_call r ∷ cs) = first_calls cs

unfoldable pub loads : List Event → ℕ
loads [] = 0
loads (load ∷ es) = suc (loads es)
loads (ready t r h ∷ es) = loads es
loads (hash_changed p h ∷ es) = loads es
loads (animated b ∷ es) = loads es

-- The requests of the calls of initNavTree.
unfoldable pub readies : List Event → List Request
readies [] = []
readies (load ∷ es) = readies es
readies (ready t r h ∷ es) = (record { toroot = t; root = hash_url h; relpath = r }) ∷ readies es
readies (hash_changed p h ∷ es) = readies es
readies (animated b ∷ es) = readies es

first_calls-append :
    (cs ds : List NavCall) → first_calls (cs ++ ds) ≡ first_calls cs ++ first_calls ds
unfolding first_calls
first_calls-append [] ds = refl
first_calls-append (first_call r ∷ cs) ds = ap (λ l. r ∷ l) (first_calls-append cs ds)
first_calls-append (later_call r ∷ cs) ds = first_calls-append cs ds

abbrev state : Bool → Bool → Option Request → Option Request → Bool → List NavCall → Start
state lt rt st bd an cs = record {
  load_triggered = lt;
  ready_triggered = rt;
  stored = st;
  bound = bd;
  animating = an;
  calls = cs;
}

-- A state that only has more calls of the handler of hashchange.
Follows : Start → Start → Type 0
Follows s t =
    (cs : List NavCall) × (t ≡ record s { calls = cs }) × (first_calls cs ≡ first_calls s.calls)

later-Follows : (r : Request) (s : Start) → Follows s (call (later_call r) s)
unfolding Follows call first_calls
later-Follows r s = (
  s.calls ++ later_call r ∷ [],
  refl,
  first_calls-append s.calls (later_call r ∷ []) ∙ append-nil (first_calls s.calls),
)

change_for-Follows :
    (b : Option Request) (path hash : Str) (s : Start) → Follows s (change_for b path hash s)
unfolding change_for Follows
change_for-Follows none path hash s = (s.calls, refl, refl)
change_for-Follows (some b) path hash s =
    if_intro (Follows s) (ltb 1 (length hash)) (later-Follows _ s)
      (if_intro (Follows s) (not s.animating) (later-Follows _ s) (s.calls, refl, refl))

after_change :
    (es : List Event) (bs : List Request) (s t : Start)
    → Follows s t
    → ((cs : List NavCall)
        → first_calls (handle_all es (record s { calls = cs })).calls ≡ first_calls cs ++ bs)
    → first_calls (handle_all es t).calls ≡ first_calls s.calls ++ bs
unfolding Follows
after_change es bs s t (cs, e, f) h =
    ap (λ t. first_calls (handle_all es t).calls) e ∙ h cs ∙ ap (λ l. l ++ bs) f

-- Once the page is loaded, initNavTree calls navTo at once.
after_load :
    (es : List Event) (rt : Bool) (st bd : Option Request) (an : Bool) (cs : List NavCall)
    → loads es ≡ 0
    → first_calls (handle_all es (state true rt st bd an cs)).calls ≡ first_calls cs ++ readies es
unfolding handle_all handle init_nav_tree hash_change call first_calls loads readies
after_load [] rt st bd an cs h = sym (append-nil (first_calls cs))
after_load (load ∷ es) rt st bd an cs h = absurd (omega (arith, h))
after_load (ready t r k ∷ es) rt st bd an cs h =
    after_load es rt st _ an (cs ++ first_call _ ∷ []) h
    ∙ ap (λ l. l ++ readies es) (first_calls-append cs (first_call _ ∷ []))
    ∙ append_assoc (first_calls cs) (_ ∷ []) (readies es)
after_load (hash_changed p k ∷ es) rt st bd an cs h =
    after_change es (readies es) (state true rt st bd an cs) _
      (change_for-Follows bd p k (state true rt st bd an cs)) (λ ds. after_load es rt st bd an ds h)
after_load (animated b ∷ es) rt st bd an cs h = after_load es rt st bd b cs h

-- The request that waits for the page to be loaded.
unfoldable pub once_loaded : ℕ → List Request → List Request
once_loaded zero rs = []
once_loaded (suc n) rs = rs

-- Once initNavTree has run, its request waits for the page.
after_ready :
    (es : List Event) (r : Request) (bd : Option Request) (an : Bool) (cs : List NavCall)
    → loads es ≤ 1
    → readies es ≡ []
    → first_calls (handle_all es (state false true (some r) bd an cs)).calls
      ≡ first_calls cs ++ once_loaded (loads es) (r ∷ [])
unfolding handle_all handle on_load call_stored hash_change call first_calls loads readies
    once_loaded
after_ready [] r bd an cs h k = sym (append-nil (first_calls cs))
after_ready (load ∷ es) r bd an cs h k =
    after_load es true (some r) bd an (cs ++ first_call r ∷ []) (omega (arith, h))
    ∙ ap (λ l. first_calls (cs ++ first_call r ∷ []) ++ l) k
    ∙ append-nil (first_calls (cs ++ first_call r ∷ []))
    ∙ first_calls-append cs (first_call r ∷ [])
after_ready (ready t q v ∷ es) r bd an cs h k = absurd (cc k)
after_ready (hash_changed p v ∷ es) r bd an cs h k =
    after_change es (once_loaded (loads es) (r ∷ [])) (state false true (some r) bd an cs) _
      (change_for-Follows bd p v (state false true (some r) bd an cs))
      (λ ds. after_ready es r bd an ds h k)
after_ready (animated b ∷ es) r bd an cs h k = after_ready es r bd b cs h k

empty_lem : (rs : List Request) → length rs ≡ 0 → rs ≡ []
empty_lem [] h = refl
empty_lem (r ∷ rs) h = absurd (omega (arith, h))

-- Before the page is loaded and before initNavTree has run.
before_load :
    (es : List Event) (bd : Option Request) (an : Bool) (cs : List NavCall)
    → loads es ≤ 1
    → length (readies es) ≤ 1
    → first_calls (handle_all es (state false false none bd an cs)).calls
      ≡ first_calls cs ++ once_loaded (loads es) (readies es)
unfolding handle_all handle on_load init_nav_tree hash_change first_calls loads readies once_loaded
before_load [] bd an cs h k = sym (append-nil (first_calls cs))
before_load (load ∷ es) bd an cs h k = after_load es false none bd an cs (omega (arith, h))
before_load (ready t q v ∷ es) bd an cs h k =
    let r : Request = record { toroot = t; root = hash_url v; relpath = q } in
    let e = empty_lem (readies es) (omega (arith, k)) in
    after_ready es r (some r) an cs h e
    ∙ ap (λ l. first_calls cs ++ once_loaded (loads es) (r ∷ l)) (sym e)
before_load (hash_changed p v ∷ es) bd an cs h k =
    after_change es (once_loaded (loads es) (readies es)) (state false false none bd an cs) _
      (change_for-Follows bd p v (state false false none bd an cs))
      (λ ds. before_load es bd an ds h k)
before_load (animated b ∷ es) bd an cs h k = before_load es bd b cs h k

-- On a page that is loaded at most once and that calls initNavTree at most once, in any order and
-- with any changes of the hash and of the animation before, between and after: the calls of navTo
-- that begin the page are none where the page is not loaded, and else one for the call of
-- initNavTree, with its arguments and the hash at its moment, and none without a call of it.
pub handle_all-first_calls :
    (es : List Event)
    → loads es ≤ 1
    → length (readies es) ≤ 1
    → first_calls (handle_all es unstarted).calls ≡ once_loaded (loads es) (readies es)
unfolding first_calls
handle_all-first_calls es h k = before_load es none false [] h k
