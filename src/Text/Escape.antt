-- ===== src/Text/Escape.antt =====
-- The functions escape and unescape of JavaScript, by which the search panel hands a search text to
-- the results page in the query of its URL.
use ta_ref.Prelude.{
  ℕ, zero, suc, ◌+◌, ◌-◌, ◌*◌, ◌/◌, ◌%◌, ◌<◌, ◌≡◌, refl, ap, ◌∙◌, inl, inr, Bool, true, ◌&&◌, ◌||◌,
  [], ◌∷◌, ◌++◌, Option, none, some, ltb, leb, ◌==◌, if◌then◌else◌, arith, Bool-cases,
}
use ta_ref.Text.{Str, IsUnits}

-- The units that escape leaves as they are: letters, digits and @*_+-./
unfoldable pub is_unescaped : ℕ → Bool
is_unescaped c =
    (leb b'A' c && leb c b'Z')
    || (leb b'a' c && leb c b'z')
    || (leb b'0' c && leb c b'9')
    || c == b'@'
    || c == b'*'
    || c == b'_'
    || c == b'+'
    || c == b'-'
    || c == b'.'
    || c == b'/'

abbrev upper_hex : ℕ → ℕ
upper_hex d = if ltb d 10 then 48 + d else 55 + d

unfoldable pub escape_unit : ℕ → Str
unfolding is_unescaped
escape_unit c =
    if is_unescaped c
    then c ∷ []
    else if ltb c 256
    then b'%' ∷ upper_hex (c / 16) ∷ upper_hex (c % 16) ∷ []
    else b'%'
      ∷ b'u'
      ∷ upper_hex (c / 4096)
      ∷ upper_hex (c / 256 % 16)
      ∷ upper_hex (c / 16 % 16)
      ∷ upper_hex (c % 16)
      ∷ []

unfoldable pub escape : Str → Str
unfolding escape_unit
escape [] = []
escape (c ∷ s) = escape_unit c ++ escape s

hex_value : ℕ → Option ℕ
hex_value c =
    if leb b'0' c && leb c b'9'
    then some (c - 48)
    else if leb b'a' c && leb c b'f'
    then some (c - 87)
    else if leb b'A' c && leb c b'F'
    then some (c - 55)
    else none

infixl 5 ◌>>=◌
abbrev ◌>>=◌ : {A B : Type 0} → Option A → (A → Option B) → Option B
none >>= k = none
some a >>= k = k a

hex2 : Str → Option ℕ
hex2 (a ∷ b ∷ s) = do x ← hex_value a; y ← hex_value b; some (16 * x + y)
hex2 _ = none

hex4 : Str → Option ℕ
hex4 (a ∷ b ∷ c ∷ d ∷ s) = do
  x ← hex_value a
  y ← hex_value b
  z ← hex_value c
  w ← hex_value d
  some (4096 * x + 256 * y + 16 * z + w)
hex4 _ = none

-- What stands behind a `%`: the unit that it gives and how many units are used up.
behind_percent : Str → ℕ × ℕ
behind_percent [] = (b'%', 0)
behind_percent (u ∷ s) = elim (if u == b'u' then hex4 s else none) [
  | some v ↦ (v, 5)
  | none ↦ elim (hex2 (u ∷ s)) [ some v ↦ (v, 2) | none ↦ (b'%', 0) ]
]

decode_unit : ℕ → Str → ℕ × ℕ
decode_unit c s = if c == b'%' then behind_percent s else (c, 0)

-- `skip` units of an escape that has been read are passed over.
unescape_from : ℕ → Str → Str
unescape_from skip [] = []
unescape_from (suc skip) (c ∷ s) = unescape_from skip s
unescape_from zero (c ∷ s) = (decode_unit c s).0 ∷ unescape_from (decode_unit c s).1 s

unfoldable pub unescape : Str → Str
unfolding unescape_from decode_unit behind_percent hex4 hex2 hex_value
unescape s = unescape_from 0 s

hex_value-upper_hex : (d : ℕ) → d < 16 → hex_value (upper_hex d) ≡ some d
unfolding hex_value
hex_value-upper_hex d h = ground arith

hex4-digits :
    (x y z w : ℕ) (rest : Str)
    → x < 16
    → y < 16
    → z < 16
    → w < 16
    → hex4 (upper_hex x ∷ upper_hex y ∷ upper_hex z ∷ upper_hex w ∷ rest)
      ≡ some (4096 * x + 256 * y + 16 * z + w)
unfolding hex4
hex4-digits x y z w rest hx hy hz hw =
    rw (hex_value-upper_hex x hx, ◌>>=◌)
      (rw (hex_value-upper_hex y hy, ◌>>=◌)
        (rw (hex_value-upper_hex z hz, ◌>>=◌) (rw (hex_value-upper_hex w hw, ◌>>=◌))))

digits_lem : (c : ℕ) → 4096 * (c / 4096) + 256 * (c / 256 % 16) + 16 * (c / 16 % 16) + c % 16 ≡ c
digits_lem c = omega arith

module _ (c : ℕ) (rest : Str) where
  unescape_kept : is_unescaped c ≡ true → unescape_from 0 (c ∷ rest) ≡ c ∷ unescape_from 0 rest
  unfolding unescape_from decode_unit is_unescaped
  unescape_kept h = ground arith

  unescape_two :
      c < 256
      → unescape_from 0 (b'%' ∷ upper_hex (c / 16) ∷ upper_hex (c % 16) ∷ rest)
        ≡ c ∷ unescape_from 0 rest
  unfolding unescape_from decode_unit behind_percent hex2
  unescape_two h = ground (arith, hex_value-upper_hex (c / 16), hex_value-upper_hex (c % 16))

  unescape_four :
      c < 65536
      → unescape_from 0 (
          b'%'
          ∷ b'u'
          ∷ upper_hex (c / 4096)
          ∷ upper_hex (c / 256 % 16)
          ∷ upper_hex (c / 16 % 16)
          ∷ upper_hex (c % 16)
          ∷ rest)
        ≡ c ∷ unescape_from 0 rest
  unfolding unescape_from decode_unit behind_percent hex4
  unescape_four h =
      rw
        (
          hex4-digits (c / 4096) (c / 256 % 16) (c / 16 % 16) (c % 16) rest (omega arith)
              (omega arith) (omega arith) (omega arith),
          behind_percent,
        )
        (ap (λ v. v ∷ unescape_from 0 rest) (digits_lem c))

  unescape-escape_unit :
      c < 65536 → unescape_from 0 (escape_unit c ++ rest) ≡ c ∷ unescape_from 0 rest
  unfolding escape_unit
  unescape-escape_unit b = elim (Bool-cases (is_unescaped c)) [
    | inl k ↦ rw k (unescape_kept k)
    | inr k ↦ elim (Bool-cases (ltb c 256)) [
      | inl l ↦ rw (k, l) (unescape_two (ground arith))
      | inr l ↦ rw (k, l) (unescape_four b)
    ]
  ]

-- For a text of UTF-16 code units, unescape gives back what escape was given.
pub unescape-escape : (s : Str) → IsUnits s → unescape (escape s) ≡ s
unfolding unescape escape
unescape-escape [] h = refl
unescape-escape (c ∷ s) (b, h) =
    unescape-escape_unit c (escape s) b ∙ ap (λ t. c ∷ t) (unescape-escape s h)
