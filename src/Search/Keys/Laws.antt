-- ===== src/Search/Keys/Laws.antt =====
-- What NavNext and NavPrev find, and how often a held key is acted on.
use native.Mathlib.Decide.{dec_lt}
use ta_ref.Prelude.{
  ◌≢◌, ◌-◌, ℕ, zero, suc, ◌+◌, ◌-◌, ◌≤◌, ◌<◌, ◌≡◌, refl, Bool, true, false, List, [], ◌∷◌, Option,
  none, some, length, get_elem?, arith, Bool-cases, inl, inr,
}
use ta_ref.Prelude.Loops.{Loop, finished}
use ta_ref.Search.Keys.{
  pick_next, nav_prev, Keys, KeyEvent, keyup, keydown, keypress, accepted, pick, keydown, keypress,
  keyup, KeyEvent, Keys, accepted, Row, is_block, nav_next_from, nav_next, nav_prev,
}

-- Whether there is an item with this index in a row that is shown.
abbrev pub is_visible : List Row → ℕ → Bool
is_visible rows i = elim (get_elem? rows i) [ none ↦ false | some row ↦ is_block row.display ]

-- What a search upwards from an index means: the first shown item there, or that there is none.
abbrev pub IsNext : List Row → ℕ → Option ℕ → Type 0
IsNext rows i none = (k : ℕ) → i ≤ k → is_visible rows k ≡ false
IsNext rows i (some j) =
    (i ≤ j) × (is_visible rows j ≡ true) × ((k : ℕ) → i ≤ k → k < j → is_visible rows k ≡ false)

-- And downwards, from the index before `i`.
abbrev pub IsPrevious : List Row → ℕ → Option ℕ → Type 0
IsPrevious rows i none = (k : ℕ) → k < i → is_visible rows k ≡ false
IsPrevious rows i (some j) =
    (j < i) × (is_visible rows j ≡ true) × ((k : ℕ) → j < k → k < i → is_visible rows k ≡ false)

is_visible_beyond : (rows : List Row) (k : ℕ) → length rows ≤ k → is_visible rows k ≡ false
is_visible_beyond [] k h = refl
is_visible_beyond (row ∷ rows) zero h = absurd (omega arith)
is_visible_beyond (row ∷ rows) (suc k) h = is_visible_beyond rows k (omega arith)

length-le_of_none {ℓ} : {A : Type ℓ} (xs : List A) (i : ℕ) → get_elem? xs i ≡ none → length xs ≤ i
length-le_of_none [] i h = omega arith
length-le_of_none (x ∷ xs) zero h = cc
length-le_of_none (x ∷ xs) (suc i) h = omega (arith, length-le_of_none xs i h)

-- Only the index itself stands between it and the next.
at_or_above :
    (rows : List Row) (i k : ℕ)
    → is_visible rows i ≡ false
    → i ≤ k
    → (i + 1 ≤ k → is_visible rows k ≡ false)
    → is_visible rows k ≡ false
at_or_above rows i k h l above = elim (dec_lt i k) [
  | yes p ↦ above (omega arith)
  | no p ↦ let e : k ≡ i = omega arith in rw e h
]

at_or_below :
    (rows : List Row) (i k : ℕ)
    → is_visible rows i ≡ false
    → k ≤ i
    → (k < i → is_visible rows k ≡ false)
    → is_visible rows k ≡ false
at_or_below rows i k h l below = elim (dec_lt k i) [
  | yes p ↦ below p
  | no p ↦ let e : k ≡ i = omega arith in rw e h
]

IsNext-hidden :
    (rows : List Row) (i : ℕ) (r : Option ℕ)
    → is_visible rows i ≡ false
    → IsNext rows (i + 1) r
    → IsNext rows i r
IsNext-hidden rows i none h n = λ k l. at_or_above rows i k h l (n k)
IsNext-hidden rows i (some j) h (l, v, n) =
    (omega arith, v, λ k l' l''. at_or_above rows i k h l' (λ m. n k m l''))

length-gt_of_some {ℓ} :
    {A : Type ℓ} (xs : List A) (i : ℕ) {x : A} → get_elem? xs i ≡ some x → i < length xs
length-gt_of_some [] i h = cc
length-gt_of_some (x ∷ xs) zero h = omega arith
length-gt_of_some (x ∷ xs) (suc i) h = omega (arith, length-gt_of_some xs i h)

-- The loop ends, at what a search upwards from the index means.
abbrev EndsAtNext : List Row → ℕ → Loop (Option ℕ) → Type 0
EndsAtNext rows i loop = (result : Option ℕ) × (loop ≡ finished result) × IsNext rows i result

pick-EndsAtNext :
    (rows : List Row) (i : ℕ) (o : Option Row) (rest : Loop (Option ℕ))
    → get_elem? rows i ≡ o
    → (i < length rows → EndsAtNext rows (i + 1) rest)
    → EndsAtNext rows i (pick_next o i rest)
pick-EndsAtNext rows i none rest e n =
    (none, refl, λ k l. is_visible_beyond rows k (omega (arith, length-le_of_none rows i e)))
pick-EndsAtNext rows i (some row) rest e n = elim (Bool-cases (is_block row.display)) [
  | inl b ↦ (some i, rw b refl, (omega arith, rw (e, is_visible) b, λ k l m. absurd (omega arith)))
  | inr b ↦
      let (result, ends, next) = n (length-gt_of_some rows i e) in
      (result, rw b ends, IsNext-hidden rows i result (rw (e, is_visible) b) next)
]

nav_next_from-EndsAtNext :
    (fuel : ℕ) (rows : List Row) (i : ℕ)
    → 0 < fuel
    → length rows < fuel + i
    → EndsAtNext rows i (nav_next_from fuel rows i)
unfolding nav_next_from
nav_next_from-EndsAtNext zero rows i some_round h = absurd (omega arith)
nav_next_from-EndsAtNext (suc fuel) rows i some_round h =
    pick-EndsAtNext rows i (get_elem? rows i) _ refl
      (λ l. nav_next_from-EndsAtNext fuel rows (i + 1) (omega arith) (omega arith))

-- NavNext ends within a round for each row and one more, and gives the first item at the index or
-- behind it whose row is shown; nothing exactly where there is none.
pub nav_next-IsNext :
    (rows : List Row) (i : ℕ)
    → (result : Option ℕ) × (nav_next rows i ≡ finished result) × IsNext rows i result
unfolding nav_next
nav_next-IsNext rows i =
    nav_next_from-EndsAtNext (length rows + 1) rows i (omega arith) (omega arith)

IsPrevious-hidden :
    (rows : List Row) (i : ℕ) (r : Option ℕ)
    → is_visible rows i ≡ false
    → IsPrevious rows i r
    → IsPrevious rows (suc i) r
IsPrevious-hidden rows i none h n = λ k l. at_or_below rows i k h (omega arith) (n k)
IsPrevious-hidden rows i (some j) h (l, v, n) =
    (omega arith, v, λ k m l'. at_or_below rows i k h (omega arith) (n k m))

pick-IsPrevious :
    (rows : List Row) (i : ℕ) (o : Option Row) (rest : Option ℕ)
    → get_elem? rows i ≡ o
    → i < length rows
    → IsPrevious rows i rest
    → IsPrevious rows (suc i) (pick o i rest)
pick-IsPrevious rows i none rest e l n = absurd (omega (arith, length-le_of_none rows i e))
pick-IsPrevious rows i (some row) rest e l n = elim (Bool-cases (is_block row.display)) [
  | inl b ↦ rw (b, IsPrevious) (omega arith, rw (e, is_visible) b, λ k l m. absurd (omega arith))
  | inr b ↦ rw (b, IsPrevious) (IsPrevious-hidden rows i rest (rw (e, is_visible) b) n)
]

-- NavPrev gives the last item before the item that it is called for, whose row is shown; nothing
-- exactly where there is none.
pub nav_prev-IsPrevious :
    (rows : List Row) (item_index : ℕ)
    → item_index ≤ length rows
    → IsPrevious rows item_index (nav_prev rows item_index)
unfolding nav_prev
nav_prev-IsPrevious rows zero h = λ k l. absurd (omega arith)
nav_prev-IsPrevious rows (suc i) h =
    pick-IsPrevious rows i (get_elem? rows i) _ refl h (nav_prev-IsPrevious rows i (omega arith))

abbrev pub count_true : List Bool → ℕ
count_true [] = 0
count_true (true ∷ bs) = suc (count_true bs)
count_true (false ∷ bs) = count_true bs

abbrev pub presses : ℕ → ℕ → List KeyEvent
presses zero code = record { type_ = keyup; key_code = code } ∷ []
presses (suc n) code = record { type_ = keypress; key_code = code } ∷ presses n code

repeats :
    (n code : ℕ) (k : Keys)
    → k.repeat_on ≡ true
    → k.last_key ≢ 0
    → count_true (accepted k (presses n code)) ≡ n
unfolding accepted
repeats zero code k r h = refl
repeats (suc n) code k r h = ground (arith, repeats n code k r h)

-- A key that goes down, repeats n times and comes up again is acted on once for going down and once
-- for each repetition but the first, in whatever state the keyboard was.
pub held_key-accepted :
    (n code : ℕ) (k : Keys)
    → code ≢ 0
    → count_true (accepted k (record { type_ = keydown; key_code = code } ∷ presses n code))
      ≡ 1 + (n - 1)
unfolding accepted
held_key-accepted zero code k h = ground arith
held_key-accepted (suc n) code k h =
    ground (arith, repeats n code (record { last_key = code; repeat_on = true }) refl h)
