-- ===== src/Prelude/Rows.antt =====
-- Flat sequences and their rows.
use Prim.Native.Nat.{◌+◌, ℕ, zero, suc, ◌*◌, ◌≤◌}
use mathlib.Core.List.{flatten, List, [], ◌∷◌, ◌++◌, append_assoc}
use mathlib.Core.Path.{◌≡◌, refl, ap, ◌∙◌}
use native.Mathlib.Omega.{arith}
use dbs.Prelude.Lists.{
  take-append-take-drop, length, take, drop, length-append, length-take, length-drop,
  take-append_of_length, drop-append_of_length,
}

module _ {ℓ} {A : Type ℓ} where
  -- `array.reshape(count, size)`, the rows of a flat sequence
  abbrev pub reshape : ℕ → ℕ → List A → List (List A)
  reshape zero size xs = []
  reshape (suc count) size xs = take size xs ∷ reshape count size (drop size xs)

  pub length-reshape : (count size : ℕ) (xs : List A) → length (reshape count size xs) ≡ count
  length-reshape zero size xs = refl
  length-reshape (suc count) size xs = ap suc (length-reshape count size (drop size xs))

  -- Every row of `rows` has `size` elements.
  abbrev pub AllOfSize : ℕ → List (List A) → Type 0
  AllOfSize size [] = Unit
  AllOfSize size (row ∷ rows) = (length row ≡ size) × AllOfSize size rows

  pub reshape-AllOfSize :
      (count size : ℕ) (xs : List A)
      → count * size ≤ length xs
      → AllOfSize size (reshape count size xs)
  reshape-AllOfSize zero size xs h = tt
  reshape-AllOfSize (suc count) size xs h = (
    omega (arith, length-take size xs),
    reshape-AllOfSize count size (drop size xs) (omega (arith, length-drop size xs)),
  )

  pub flatten-reshape :
      (count size : ℕ) (xs : List A) → flatten (reshape count size xs) ≡ take (count * size) xs
  unfolding flatten
  flatten-reshape zero size xs = let e : zero * size ≡ zero = omega arith in rw e
  flatten-reshape (suc count) size xs =
      ap (◌++◌ (take size xs)) (flatten-reshape count size (drop size xs))
      ∙ (let e : suc count * size ≡ size + count * size = omega arith in
          rw e (take-append-take-drop size (count * size) xs))

  -- Rows of one size are found again in their concatenation, whatever follows.
  pub reshape-flatten :
      (size : ℕ) (rows : List (List A)) (rest : List A)
      → AllOfSize size rows
      → reshape (length rows) size (flatten rows ++ rest) ≡ rows
  unfolding flatten
  reshape-flatten size [] rest h = refl
  reshape-flatten size (row ∷ rows) rest h = rw (
    append_assoc,
    take-append_of_length size row (flatten rows ++ rest) h.0,
    drop-append_of_length size row (flatten rows ++ rest) h.0,
    reshape-flatten size rows rest h.1,
  )

  pub length-flatten :
      (size : ℕ) (rows : List (List A))
      → AllOfSize size rows
      → length (flatten rows) ≡ length rows * size
  unfolding flatten
  length-flatten size [] h = omega arith
  length-flatten size (row ∷ rows) h =
      omega (arith, length-append row (flatten rows), length-flatten size rows h.1, h.0)
