-- ===== src/Nav/Path/Laws.antt =====
-- What the paths and hashes of the navigation tree look like.
use ta_ref.Prelude.{
  ◌⊎◌, ℕ, suc, ◌≡◌, refl, ap, inl, inr, Bool, true, not, [], ◌∷◌, ◌++◌, some, ◌==◌, take, drop, all,
  arith, Bool-cases, Option-cases,
}
use ta_ref.Text.{Str, last_index_of}
use ta_ref.Nav.Path.{after_slash, strip_path, keep, is_hash_unit, hash_value, hash_url}

all-keep : (p : ℕ → Bool) (s : Str) → all p (keep p s) ≡ true
unfolding keep
all-keep p [] = refl
all-keep p (c ∷ s) = ground (arith, all-keep p s)

keep-all : (p : ℕ → Bool) (s : Str) → all p s ≡ true → keep p s ≡ s
unfolding keep
keep-all p [] h = refl
keep-all p (c ∷ s) h = ground (arith, keep-all p s)

-- A hash that has been cleaned holds letters, digits, `_` and `-` only, and cleaning it again as a hash
-- leaves it as it is.
pub hash_value_clean :
    (hash : Str)
    → (all is_hash_unit (hash_value hash) ≡ true) × (hash_value (hash_url hash) ≡ hash_value hash)
unfolding hash_value hash_url
hash_value_clean hash =
    let clean = all-keep is_hash_unit (drop 1 hash) in (clean, keep-all is_hash_unit _ clean)

drop_last_index :
    (c : ℕ) (s : Str) → all (λ d. not (c == d)) (drop (after_slash (last_index_of c s)) s) ≡ true
unfolding last_index_of
drop_last_index c [] = refl
drop_last_index c (d ∷ s) = elim (Option-cases (last_index_of c s)) [
  | inl e ↦
      let ih = rw e at (drop_last_index c s) in
      elim (Bool-cases (c == d)) [ inl k ↦ rw (e, k) ih | inr k ↦ rw (e, k) (rw k ih) ]
  | inr (i, e) ↦ rw e (rw e at (drop_last_index c s))
]

split_last_index :
    (c i : ℕ) (s : Str) → last_index_of c s ≡ some i → s ≡ take i s ++ c ∷ drop (suc i) s
unfolding last_index_of
split_last_index c i [] h = cc
split_last_index c i (d ∷ s) h = elim (Option-cases (last_index_of c s)) [
  | inl e ↦ elim (Bool-cases (c == d)) [
    | inl k ↦ let z : 0 ≡ i = ground arith in rw (← z) (ground arith)
    | inr k ↦ absurd (ground arith)
  ]
  | inr (j, e) ↦
      let z : suc j ≡ i = ground arith in rw (← z) (ap (λ t. d ∷ t) (split_last_index c j s e))
]

-- stripPath takes off what stands before and at the last `/`, and leaves a text with no `/`; a text with
-- no `/` it leaves as it is.
pub strip_path_lem :
    (uri : Str)
    → (all (λ d. not (b'/' == d)) (strip_path uri) ≡ true)
      × ((strip_path uri ≡ uri) ⊎ ((dir : Str) × (uri ≡ dir ++ b'/' ∷ strip_path uri)))
unfolding strip_path
strip_path_lem uri = (
  drop_last_index b'/' uri,
  elim (Option-cases (last_index_of b'/' uri)) [
    | inl e ↦ inl (rw e)
    | inr (i, e) ↦ inr (take i uri, rw e (split_last_index b'/' i uri e))
  ],
)
