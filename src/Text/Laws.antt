-- ===== src/Text/Laws.antt =====
-- Laws of the text functions.
use ta_ref.Prelude.{all, ℕ, ◌≡◌, refl, true, [], ◌∷◌, ◌++◌, arith, ltb, ◌==◌}
use ta_ref.Text.{IsUnits, Str, eq_str, is_prefix, hex_digit}

pub eq_str_refl : (s : Str) → eq_str s s ≡ true
unfolding eq_str
eq_str_refl [] = refl
eq_str_refl (c ∷ s) = ground (arith, eq_str_refl s)

pub eq_str_sound : (s t : Str) → eq_str s t ≡ true → s ≡ t
unfolding eq_str
eq_str_sound [] [] h = refl
eq_str_sound [] (d ∷ t) h = cc
eq_str_sound (c ∷ s) [] h = cc
eq_str_sound (c ∷ s) (d ∷ t) h = ground (arith, eq_str_sound s t)

pub is_prefix-append : (s t : Str) → is_prefix s (s ++ t) ≡ true
unfolding is_prefix
is_prefix-append [] t = refl
is_prefix-append (c ∷ s) t = ground (arith, is_prefix-append s t)

-- A text that is a prefix can be completed.
pub is_prefix_sound : (s t : Str) → is_prefix s t ≡ true → (u : Str) × (t ≡ s ++ u)
unfolding is_prefix
is_prefix_sound [] t h = (t, refl)
is_prefix_sound (c ∷ s) [] h = cc
is_prefix_sound (c ∷ s) (d ∷ t) h =
    let (u, e) = is_prefix_sound s t (ground arith) in (u, ground arith)

pub hex_digit_injective : (a b : ℕ) → (hex_digit a == hex_digit b) ≡ (a == b)
hex_digit_injective a b = ground arith

-- A text whose units pass the test is a text of UTF-16 code units.
pub IsUnits-all : (s : Str) → all (λ c. ltb c 65536) s ≡ true → IsUnits s
IsUnits-all [] h = tt
IsUnits-all (c ∷ s) h = (ground arith, IsUnits-all s (ground arith))
