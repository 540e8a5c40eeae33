-- ===== src/Search/Id/Laws.antt =====
-- Prefixes and equality of the ids that convertToId of search/search.js makes.
use mathlib.Core.List.{append_assoc, append-nil}
use ta_ref.Prelude.{
  length, ◌≤◌, ℕ, ◌/◌, ◌%◌, ◌<◌, ◌≡◌, refl, sym, ◌∙◌, inl, inr, Bool, true, false, ◌&&◌, ◌||◌, [],
  ◌∷◌, ◌++◌, arith, ◌==◌, ap, Bool-cases, holds_below, holds_below_lem,
}
use ta_ref.Text.{Str, IsUnits, eq_str, is_prefix, hex_digit}
use ta_ref.Text.Laws.{eq_str_sound}
use ta_ref.Search.Id.{is_kept, encode_unit, convert_from, convert_to_id}

-- The loop with its accumulator is a plain concatenation.
concat : Str → Str
concat [] = []
concat (c ∷ s) = encode_unit c ++ concat s

convert_from_lem : (acc s : Str) → convert_from acc s ≡ acc ++ concat s
unfolding convert_from concat
convert_from_lem acc [] = sym (append-nil acc)
convert_from_lem acc (c ∷ s) =
    convert_from_lem (acc ++ encode_unit c) s ∙ append_assoc acc (encode_unit c) (concat s)

pub convert_to_id-nil : convert_to_id [] ≡ []
unfolding convert_to_id
convert_to_id-nil = refl

pub convert_to_id-cons :
    (c : ℕ) (s : Str) → convert_to_id (c ∷ s) ≡ encode_unit c ++ convert_to_id s
unfolding convert_to_id
convert_to_id-cons c s =
    convert_from_lem [] (c ∷ s)
    ∙ (unfold concat in ap (λ t. encode_unit c ++ t) (sym (convert_from_lem [] s)))

escaped : ℕ → Str
escaped c = b'_' ∷ hex_digit (c / 16) ∷ hex_digit (c % 16) ∷ []

escape_table : holds_below (λ c. is_kept c || eq_str (encode_unit c) (escaped c)) 128 ≡ true
unfolding holds_below is_kept encode_unit eq_str escaped
escape_table = refl

-- A code unit is kept as it is, or written as `_` and its two hexadecimal digits.
encode_unit_kept : (c : ℕ) → is_kept c ≡ true → encode_unit c ≡ c ∷ []
unfolding encode_unit
encode_unit_kept c h = rw h

unkept-lt : (c : ℕ) → c < 65536 → is_kept c ≡ false → c < 128
unfolding is_kept
unkept-lt c b h = ground arith

encode_unit-escaped : (c : ℕ) → c < 65536 → is_kept c ≡ false → encode_unit c ≡ escaped c
encode_unit-escaped c b h =
    eq_str_sound _ _ (ground (arith, holds_below_lem _ 128 (unkept-lt c b h) escape_table))

underscore_unkept : is_kept b'_' ≡ false
unfolding is_kept
underscore_unkept = refl

kept-ne-underscore : (c : ℕ) → is_kept c ≡ true → (c == b'_') ≡ false
kept-ne-underscore c h = ground (arith, underscore_unkept)

same_digits :
    (c d : ℕ) (b : Bool)
    → (hex_digit (c / 16) == hex_digit (d / 16) && (hex_digit (c % 16) == hex_digit (d % 16) && b))
      ≡ (c == d && b)
same_digits c d b = ground arith

module _ (c d : ℕ) (s t : Str) (bc : c < 65536) (bd : d < 65536) where
  prefix-encode_unit :
      is_prefix (encode_unit c ++ s) (encode_unit d ++ t) ≡ (c == d && is_prefix s t)
  unfolding is_prefix escaped
  prefix-encode_unit = elim (Bool-cases (is_kept c)) [
    | inl kc ↦ elim (Bool-cases (is_kept d)) [
      | inl kd ↦ rw (encode_unit_kept c kc, encode_unit_kept d kd)
      | inr kd ↦
          rw (encode_unit_kept c kc, encode_unit-escaped d bd kd)
            (ground (arith, kept-ne-underscore c kc))
    ]
    | inr kc ↦ elim (Bool-cases (is_kept d)) [
      | inl kd ↦
          rw (encode_unit-escaped c bc kc, encode_unit_kept d kd)
            (ground (arith, kept-ne-underscore d kd))
      | inr kd ↦
          rw (encode_unit-escaped c bc kc, encode_unit-escaped d bd kd)
            (same_digits c d (is_prefix s t))
    ]
  ]

prefix-encode_unit_nil : (c : ℕ) (s : Str) → c < 65536 → is_prefix (encode_unit c ++ s) [] ≡ false
unfolding is_prefix escaped
prefix-encode_unit_nil c s b = elim (Bool-cases (is_kept c)) [
  | inl k ↦ rw (encode_unit_kept c k)
  | inr k ↦ rw (encode_unit-escaped c b k)
]

-- For texts of UTF-16 code units, the id of one text is a prefix of the id of another exactly when
-- the first text is a prefix of the second.
pub prefix-convert_to_id :
    (q t : Str)
    → IsUnits q
    → IsUnits t
    → is_prefix (convert_to_id q) (convert_to_id t) ≡ is_prefix q t
unfolding is_prefix
prefix-convert_to_id [] t hq ht = rw convert_to_id-nil
prefix-convert_to_id (c ∷ q) [] (bc, hq) ht =
    rw (convert_to_id-nil, convert_to_id-cons) (prefix-encode_unit_nil c _ bc)
prefix-convert_to_id (c ∷ q) (d ∷ t) (bc, hq) (bd, ht) =
    rw (convert_to_id-cons c q, convert_to_id-cons d t)
      (prefix-encode_unit c d _ _ bc bd ∙ ap (λ b. c == d && b) (prefix-convert_to_id q t hq ht))

prefix_antisymm : (s t : Str) → is_prefix s t ≡ true → is_prefix t s ≡ true → s ≡ t
unfolding is_prefix
prefix_antisymm [] [] h k = refl
prefix_antisymm [] (d ∷ t) h k = cc
prefix_antisymm (c ∷ s) [] h k = cc
prefix_antisymm (c ∷ s) (d ∷ t) h k = ground (arith, prefix_antisymm s t)

prefix_refl : (s : Str) → is_prefix s s ≡ true
unfolding is_prefix
prefix_refl [] = refl
prefix_refl (c ∷ s) = ground (arith, prefix_refl s)

-- Two texts of UTF-16 code units that have the same id are the same text.
pub convert_to_id_injective :
    (s t : Str) → IsUnits s → IsUnits t → convert_to_id s ≡ convert_to_id t → s ≡ t
convert_to_id_injective s t hs ht e =
    prefix_antisymm s t (sym (prefix-convert_to_id s t hs ht) ∙ rw e (prefix_refl _))
      (sym (prefix-convert_to_id t s ht hs) ∙ rw e (prefix_refl _))

-- An id with anything behind it, against a text that is at least as long as the one looked for.
pub prefix-convert_to_id_append :
    (q t suffix : Str)
    → IsUnits q
    → IsUnits t
    → length q ≤ length t
    → is_prefix (convert_to_id q) (convert_to_id t ++ suffix) ≡ is_prefix q t
unfolding is_prefix
prefix-convert_to_id_append [] t suffix hq ht h = rw convert_to_id-nil
prefix-convert_to_id_append (c ∷ q) [] suffix hq ht h = absurd (omega arith)
prefix-convert_to_id_append (c ∷ q) (d ∷ t) suffix (bc, hq) (bd, ht) h =
    rw (convert_to_id-cons c q, convert_to_id-cons d t, append_assoc)
      (prefix-encode_unit c d _ _ bc bd
        ∙ ap (λ b. c == d && b) (prefix-convert_to_id_append q t suffix hq ht (omega arith)))

pub convert_to_id-append : (s t : Str) → convert_to_id (s ++ t) ≡ convert_to_id s ++ convert_to_id t
convert_to_id-append [] t = rw convert_to_id-nil
convert_to_id-append (c ∷ s) t =
    rw (convert_to_id-cons c (s ++ t), convert_to_id-cons c s, convert_to_id-append s t)
      (sym (append_assoc (encode_unit c) (convert_to_id s) (convert_to_id t)))

-- The id of one unit that is not kept.
pub convert_to_id_escaped :
    (c : ℕ)
    → c < 65536
    → is_kept c ≡ false
    → convert_to_id (c ∷ []) ≡ b'_' ∷ hex_digit (c / 16) ∷ hex_digit (c % 16) ∷ []
unfolding escaped
convert_to_id_escaped c b k =
    rw (convert_to_id-cons c [], convert_to_id-nil, append-nil) (encode_unit-escaped c b k)
