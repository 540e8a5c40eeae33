-- ===== src/Prelude/Loops.antt =====
-- What a loop with a bound on its rounds comes to: its result, or that the rounds were not enough.

pub data Loop {ℓ} (A : Type ℓ) : Type ℓ where
  finished : A → Loop A
  unfinished : Loop A

unfoldable pub map {ℓ κ} : {A : Type ℓ} {B : Type κ} → (A → B) → Loop A → Loop B
map f (finished a) = finished (f a)
map f unfinished = unfinished
