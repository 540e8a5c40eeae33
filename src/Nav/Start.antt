-- ===== src/Nav/Start.antt =====
-- How a page begins with its navigation tree: the handlers of load and hashchange and initNavTree of
-- navtree.js, as far as they decide about the call of navTo.
pub mod Laws
use ta_ref.Prelude.{
  ℕ, Bool, true, false, not, List, [], ◌∷◌, ◌++◌, Option, none, some, ltb, if◌then◌else◌, length,
}
use ta_ref.Text.{Str}
use ta_ref.Nav.Path.{path_name, strip_path2, hash_url}

-- The arguments of a call of navTo behind the tree.
pub record Request : Type 0 where
  pub toroot : Str
  pub root : Str
  pub relpath : Str

-- The calls of navTo that begin the page, and those of the handler of hashchange.
pub data NavCall : Type 0 where
  first_call : Request → NavCall
  later_call : Request → NavCall

-- loadTriggered, readyTriggered, and loadToRoot, loadUrl, loadRelPath where they are set; toroot and
-- relpath of the handler of hashchange, once it is bound (one, as a page calls initNavTree once);
-- animationInProgress; the calls so far.
pub record Start : Type 0 where
  pub load_triggered : Bool
  pub ready_triggered : Bool
  pub stored : Option Request
  pub bound : Option Request
  pub animating : Bool
  pub calls : List NavCall

abbrev pub unstarted : Start
unstarted = record {
  load_triggered = false;
  ready_triggered = false;
  stored = none;
  bound = none;
  animating = false;
  calls = [];
}

unfoldable pub call : NavCall → Start → Start
call c s = record s { calls = s.calls ++ c ∷ [] }

unfoldable pub call_stored : Option Request → Start → Start
unfolding call
call_stored none s = s
call_stored (some r) s = call (first_call r) s

-- $(window).on('load')
unfoldable pub on_load : Start → Start
unfolding call_stored
on_load s = record (if s.ready_triggered then call_stored s.stored s else s) {
  load_triggered = true;
}

-- initNavTree at a location with this hash
unfoldable pub init_nav_tree : Str → Str → Str → Start → Start
unfolding call hash_url
init_nav_tree toroot relpath hash s =
    let r : Request = record { toroot = toroot; root = hash_url hash; relpath = relpath } in
    record (if s.load_triggered
      then call (first_call r) s
      else record s { stored = some r; ready_triggered = true }) { bound = some r }

-- The handler of hashchange for the tree that it is bound for, at a path and a hash.
unfoldable pub change_for : Option Request → Str → Str → Start → Start
unfolding call hash_url strip_path2 path_name
change_for none path hash s = s
change_for (some b) path hash s =
    if ltb 1 (length hash)
    then call
        (later_call (record {
          toroot = strip_path2 (path_name path);
          root = hash_url hash;
          relpath = b.relpath;
        }))
        s
    else if not s.animating
    then call (later_call (record { toroot = b.toroot; root = hash_url hash; relpath = b.relpath }))
        s
    else s

unfoldable pub hash_change : Str → Str → Start → Start
unfolding change_for
hash_change path hash s = change_for s.bound path hash s

-- What happens to a page; the animation is that of gotoAnchor.
pub data Event : Type 0 where
  load : Event
  ready : (toroot relpath hash : Str) → Event
  hash_changed : (path hash : Str) → Event
  animated : Bool → Event

unfoldable pub handle : Event → Start → Start
unfolding on_load init_nav_tree hash_change
handle load s = on_load s
handle (ready toroot relpath hash) s = init_nav_tree toroot relpath hash s
handle (hash_changed path hash) s = hash_change path hash s
handle (animated b) s = record s { animating = b }

unfoldable pub handle_all : List Event → Start → Start
unfolding handle
handle_all [] s = s
handle_all (e ∷ es) s = handle_all es (handle e s)
