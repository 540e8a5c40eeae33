-- ===== src/Search/Build.antt =====
-- setKeyActions, setClassAttr, createResults and init_search of search/search.js: the elements that
-- they put in the page.
pub mod Laws
use ta_ref.Prelude.{
  ◌/◌, ◌%◌, ℕ, zero, suc, ◌+◌, ◌-◌, ◌≤◌, ◌<◌, ◌≡◌, ◌≢◌, refl, sym, ap, ◌∙◌, inl, inr, ◌⊎◌, Bool,
  true, false, not, ◌&&◌, ◌||◌, List, [], ◌∷◌, ◌++◌, Option, none, some, if◌then◌else◌, get_elem?,
  ◌==◌, ltb, leb, arith, length, take, drop, all, map, Bool-cases, Option-cases, if_intro,
}
use ta_ref.Text.{eq_str, Str, codes}
use ta_ref.Search.Results.{Display, unset, Div}
use ta_ref.Search.Children.{Elem, Node, node, Nodes, nil, cons}
use ta_ref.Search.Keys.{Row}

-- An element with the attributes that are set, and its text.
pub record Attributes : Type 0 where
  pub tag : Str
  pub id : Str
  pub class_name : Str
  pub href : Str
  pub target : Str
  pub on_click : Str
  pub on_key : Str
  pub inner_html : Str

mutual
  pub data Html : Type 0 where
    html : Attributes → Htmls → Html

  pub data Htmls : Type 0 where
    none_left : Htmls
    one : Html → Htmls → Htmls

-- document.createElement
abbrev pub element : Str → Attributes
element tag = record {
  tag = tag;
  id = [];
  class_name = [];
  href = [];
  target = [];
  on_click = [];
  on_key = [];
  inner_html = [];
}

-- The decimal digits of a number.
decimal_loop : ℕ → ℕ → Str → Str
decimal_loop zero n acc = acc
decimal_loop (suc f) n acc =
    let out = (48 + n % 10) ∷ acc in
    let rest = decimal_loop f (n / 10) out in if n / 10 == 0 then out else rest

unfoldable pub to_decimal : ℕ → Str
unfolding decimal_loop
to_decimal n = decimal_loop (suc n) n []

-- A result of searchData: the page, whether it opens in the parent, and the scope.
pub record Result : Type 0 where
  pub page : Str
  pub in_parent : Bool
  pub scope : Str

-- searchData[e]: the id, and the name with its results.
pub record Entry : Type 0 where
  pub id : Str
  pub name : Str
  pub results : List Result

abbrev parent_or_none : Bool → Str
parent_or_none in_parent = if in_parent then codes "_parent" else []

close_call : Str
close_call = codes "parent.searchBox.CloseResultsWindow()"

-- The link of a child, in the loop over the results of an entry with several.
unfoldable pub child_link : ℕ → ℕ → Result → Attributes
unfolding to_decimal close_call
child_link e c r = record (element (codes "a")) {
  id = codes "Item" ++ (to_decimal e ++ (codes "_c" ++ to_decimal c));
  class_name = codes "SRScope";
  href = r.page;
  target = parent_or_none r.in_parent;
  on_click = close_call;
  on_key =
      codes "return searchResults.NavChild(event,"
      ++ (to_decimal e ++ (b',' ∷ (to_decimal c ++ codes ")")));
  inner_html = r.scope;
}

child_links : ℕ → ℕ → List Result → Htmls
unfolding child_link
child_links e c [] = none_left
child_links e c (r ∷ rs) = one (html (child_link e c r) none_left) (child_links e (c + 1) rs)

-- srLink before its target is set
unfoldable pub item_link : ℕ → Entry → Attributes
unfolding to_decimal
item_link e entry = record (element (codes "a")) {
  id = codes "Item" ++ to_decimal e;
  class_name = codes "SRSymbol";
  on_key = codes "return searchResults.Nav(event," ++ (to_decimal e ++ codes ")");
  inner_html = entry.name;
}

-- The children of SREntry: the two branches of the test searchData[e][1].length==2.
entry_children : ℕ → Entry → List Result → Htmls
unfolding item_link child_links close_call
entry_children e entry (r ∷ []) =
    one
      (html
        (record (item_link e entry) {
          href = r.page;
          target = parent_or_none r.in_parent;
          on_click = close_call;
        })
        none_left)
      (one
        (html
          (record (element (codes "span")) { class_name = codes "SRScope"; inner_html = r.scope })
          none_left)
        none_left)
entry_children e entry rs =
    one
      (html
        (record (item_link e entry) {
          href = codes "javascript:searchResults.Toggle(\"SR_" ++ (entry.id ++ codes "\")");
        })
        none_left)
      (one
        (html (record (element (codes "div")) { class_name = codes "SRChildren" })
          (child_links e 0 rs))
        none_left)

-- srResult
unfoldable pub create_result : ℕ → Entry → Html
unfolding entry_children
create_result e entry =
    html
      (record (element (codes "div")) {
        id = codes "SR_" ++ entry.id;
        class_name = codes "SRResult";
      })
      (one
        (html (record (element (codes "div")) { class_name = codes "SREntry" })
          (entry_children e entry entry.results))
        none_left)

-- createResults, from the index e
unfoldable pub create_results : ℕ → List Entry → Htmls
unfolding create_result
create_results e [] = none_left
create_results e (entry ∷ entries) = one (create_result e entry) (create_results (e + 1) entries)

-- init_search: the links of the menu of sections, from the labels of the index.
unfoldable pub section_links : ℕ → List Str → List Attributes
unfolding to_decimal
section_links key [] = []
section_links key (label ∷ labels) =
    record (element (codes "a")) {
      class_name = codes "SelectItem";
      on_click = codes "searchBox.OnSelectItem(" ++ (to_decimal key ++ codes ")");
      href = codes "javascript:void(0)";
      inner_html = codes "<span class=\"SelectionMark\">&#160;</span>" ++ label;
    }
    ∷ section_links (key + 1) labels

-- The page as Search reads it: getElementsByTagName("div"), in document order.
unfoldable mutual
  pub divs : Html → List Div
  divs (html a kids) =
      let below = divs_all kids in
      if eq_str a.tag (codes "div")
      then record { class_name = a.class_name; id = a.id; display = unset } ∷ below
      else below

  pub divs_all : Htmls → List Div
  divs_all none_left = []
  divs_all (one h hs) = divs h ++ divs_all hs

-- The page as Toggle and FindChildElement read it.
unfoldable mutual
  pub node_of : Html → Node
  node_of (html a kids) =
      node (record { tag = a.tag; class_name = a.class_name; display = unset }) (nodes_of kids)

  pub nodes_of : Htmls → Nodes
  nodes_of none_left = nil
  nodes_of (one h hs) = cons (node_of h) (nodes_of hs)
