-- ===== src/Text.antt =====
-- The text functions of JavaScript that the scripts under docs/ use. A text is the list of its
-- UTF-16 code units.
pub mod Laws
pub mod Escape
use Prim.Native.Char.{code}
use Prim.Native.String
use Prim.Native.String.{String}
use ta_ref.Prelude.{
  ℕ, zero, suc, ◌+◌, ◌/◌, ◌%◌, ◌<◌, Bool, true, false, not, ◌&&◌, List, [], ◌∷◌, ◌++◌, Option, none,
  some, ltb, leb, ◌==◌, if◌then◌else◌, All,
}

abbrev pub Str : Type 0
Str = List ℕ

-- A literal whose characters are all ASCII.
abbrev pub codes : String → Str
codes String.[] = []
codes (String.◌∷◌ c s) = code c ∷ codes s

abbrev pub IsUnits : Str → Type 0
IsUnits = All (λ c. c < 65536)

-- a == b
unfoldable pub eq_str : Str → Str → Bool
eq_str [] [] = true
eq_str [] (d ∷ t) = false
eq_str (c ∷ s) [] = false
eq_str (c ∷ s) (d ∷ t) = c == d && eq_str s t

-- a <= b, code unit by code unit
unfoldable pub le_str : Str → Str → Bool
le_str [] t = true
le_str (c ∷ s) [] = false
le_str (c ∷ s) (d ∷ t) = if c == d then le_str s t else ltb c d

-- t.substr(0, s.length) == s, where s.length <= t.length
unfoldable pub is_prefix : Str → Str → Bool
is_prefix [] t = true
is_prefix (c ∷ s) [] = false
is_prefix (c ∷ s) (d ∷ t) = c == d && is_prefix s t

-- s.indexOf(c) and s.lastIndexOf(c) at one code unit; none is -1
unfoldable pub index_of : ℕ → Str → Option ℕ
index_of c [] = none
index_of c (d ∷ s) =
    if c == d then some 0 else elim (index_of c s) [ none ↦ none | some i ↦ some (suc i) ]

-- s.indexOf(t) for a text
unfoldable pub index_of_text : Str → Str → Option ℕ
unfolding is_prefix
index_of_text t [] = if is_prefix t [] then some 0 else none
index_of_text t (d ∷ s) =
    let later : Option ℕ = elim (index_of_text t s) [ none ↦ none | some i ↦ some (suc i) ] in
    if is_prefix t (d ∷ s) then some 0 else later

unfoldable pub last_index_of : ℕ → Str → Option ℕ
last_index_of c [] = none
last_index_of c (d ∷ s) = elim (last_index_of c s) [
  | some i ↦ some (suc i)
  | none ↦ if c == d then some 0 else none
]

-- The digit of toString(16).
abbrev pub hex_digit : ℕ → ℕ
hex_digit d = if ltb d 10 then 48 + d else 87 + d

hex_loop : ℕ → ℕ → Str → Str
hex_loop zero n acc = acc
hex_loop (suc f) n acc =
    let out = hex_digit (n % 16) ∷ acc in
    let rest = hex_loop f (n / 16) out in if n / 16 == 0 then out else rest

-- n.toString(16); n has fewer than n + 1 digits
unfoldable pub to_hex : ℕ → Str
unfolding hex_loop
to_hex n = hex_loop (suc n) n []

-- s.replace(/ +/g, "")
unfoldable pub strip_spaces : Str → Str
strip_spaces [] = []
strip_spaces (c ∷ s) = if c == 32 then strip_spaces s else c ∷ strip_spaces s

-- s.replace(/^ +/, "")
unfoldable pub strip_leading : Str → Str
strip_leading [] = []
strip_leading (c ∷ s) = if c == 32 then strip_leading s else c ∷ s

-- s.replace(/ +$/, "")
unfoldable pub strip_trailing : Str → Str
strip_trailing [] = []
strip_trailing (c ∷ s) = elim (strip_trailing s) [
  | [] ↦ if c == 32 then [] else c ∷ []
  | d ∷ t ↦ c ∷ d ∷ t
]
