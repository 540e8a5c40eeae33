-- ===== src/Folders/Sections.antt =====
-- toggleVisibility and toggleInherit of dynsections.js: a section with a picture that says whether it
-- is open.
pub mod Laws
use ta_ref.Prelude.{
  ℕ, suc, ◌+◌, ◌-◌, Bool, true, false, not, ◌&&◌, ◌||◌, List, [], ◌∷◌, ◌++◌, Option, none, some,
  if◌then◌else◌, length, take,
}
use ta_ref.Text.{Str, codes}

-- The elements <base>-summary, <base>-content and <base>-trigger, and the class of the link.
pub record Section : Type 0 where
  pub summary : Bool
  pub content : Bool
  pub opened : Bool
  pub trigger_src : Str

-- src.substring(0,src.length-n); a negative end counts as 0
abbrev pub cut : ℕ → Str → Str
cut n src = take (length src - n) src

-- toggleVisibility
unfoldable pub toggle_visibility : Section → Section
toggle_visibility s =
    if s.content
    then record {
      summary = true;
      content = false;
      opened = false;
      trigger_src = cut 8 s.trigger_src ++ codes "closed.png";
    }
    else record {
      summary = false;
      content = true;
      opened = true;
      trigger_src = cut 10 s.trigger_src ++ codes "open.png";
    }

-- The rows tr.inherit.<id>, by their visibility, and the picture in the header.
pub record Inherit : Type 0 where
  pub rows : List Bool
  pub src : Str

abbrev first_shown : List Bool → Bool
first_shown [] = false
first_shown (row ∷ rows) = row

set_all : Bool → List Bool → List Bool
set_all b [] = []
set_all b (row ∷ rows) = b ∷ set_all b rows

-- toggleInherit
unfoldable pub toggle_inherit : Inherit → Inherit
unfolding set_all
toggle_inherit h =
    if first_shown h.rows
    then record { rows = set_all false h.rows; src = cut 8 h.src ++ codes "closed.png" }
    else record { rows = set_all true h.rows; src = cut 10 h.src ++ codes "open.png" }
