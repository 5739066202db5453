-- ===== src/Container/Stream/Writer/Cut.antt =====
-- The chunks that a run of plaintext is cut into (`write` of dbs/container/stream.py): whole ones
-- while more than a chunk is left, and a rest that waits.
use mathlib.Core.List.{flatten}
use dbs.Prelude.{
  AllOfSize, Bool-cases, List, [], ap, append_assoc, arith, drop, drop_append_of_length-le,
  if◌then◌else◌, inl, inr, length, length-append, length-drop, length-take, ltb, ltb→lt, lt→ltb,
  refl, suc, take, take-append-drop, take_append_of_length-le, zero, ℕ, ◌++◌, ◌<◌, ◌∙◌, ◌∷◌, ◌≡◌,
  ◌≤◌,
}

-- With fuel for each chunk.
cut_rounds : ℕ → ℕ → List ℕ → List (List ℕ) × List ℕ
cut_rounds zero capacity xs = ([], xs)
cut_rounds (suc fuel) capacity xs =
    let others = cut_rounds fuel capacity (drop capacity xs) in
    if ltb capacity (length xs) then (take capacity xs ∷ others.0, others.1) else ([], xs)

unfoldable pub cut : ℕ → List ℕ → List (List ℕ) × List ℕ
unfolding cut_rounds
cut capacity xs = cut_rounds (length xs) capacity xs

cut_rounds-fuel :
    (f g capacity : ℕ) (xs : List ℕ)
    → 0 < capacity
    → length xs ≤ f
    → length xs ≤ g
    → cut_rounds f capacity xs ≡ cut_rounds g capacity xs
unfolding cut_rounds
cut_rounds-fuel zero zero capacity xs pos h k = refl
cut_rounds-fuel zero (suc g) capacity [] pos h k = ground arith
cut_rounds-fuel zero (suc g) capacity (x ∷ xs) pos h k = absurd (omega arith)
cut_rounds-fuel (suc f) zero capacity [] pos h k = ground arith
cut_rounds-fuel (suc f) zero capacity (x ∷ xs) pos h k = absurd (omega arith)
cut_rounds-fuel (suc f) (suc g) capacity xs pos h k = elim (Bool-cases (ltb capacity (length xs))) [
  | inl more ↦ rw more (
      ap (λ r. (take capacity xs ∷ r.0, r.1))
        (cut_rounds-fuel f g capacity (drop capacity xs) pos
          (ground (arith, length-drop capacity xs)) (ground (arith, length-drop capacity xs))))
  | inr rest ↦ rw rest
]

pub cut-more :
    (capacity : ℕ) (xs : List ℕ)
    → 0 < capacity
    → capacity < length xs
    → cut capacity xs ≡ (
      take capacity xs ∷ (cut capacity (drop capacity xs)).0,
      (cut capacity (drop capacity xs)).1,
    )
unfolding cut
cut-more capacity [] pos h = absurd (omega arith)
cut-more capacity (x ∷ xs) pos h =
    let rest = drop capacity (x ∷ xs) in
    rw (lt→ltb capacity (length (x ∷ xs)) h) (
      ap (λ r. (take capacity (x ∷ xs) ∷ r.0, r.1))
        (cut_rounds-fuel (length xs) (length rest) capacity rest pos
          (omega (arith, length-drop capacity (x ∷ xs))) (omega arith)))

pub cut-few : (capacity : ℕ) (xs : List ℕ) → length xs ≤ capacity → cut capacity xs ≡ ([], xs)
unfolding cut
cut-few capacity [] h = refl
cut-few capacity (x ∷ xs) h = ground arith

-- What holds of the chunks and the rest of any data.
pub record IsCut (capacity : ℕ) (xs : List ℕ) (found : List (List ℕ) × List ℕ) : Type 0 where
  pub whole : flatten found.0 ++ found.1 ≡ xs
  pub filled : AllOfSize capacity found.0
  pub short : length found.1 ≤ capacity
  pub waiting : 0 < length xs → 0 < length found.1

cut_rounds-IsCut :
    (fuel capacity : ℕ) (xs : List ℕ)
    → 0 < capacity
    → length xs ≤ fuel
    → IsCut capacity xs (cut_rounds fuel capacity xs)
unfolding cut_rounds flatten
cut_rounds-IsCut zero capacity [] pos h = record {
  whole = refl;
  filled = tt;
  short = omega arith;
  waiting = λ w. w;
}
cut_rounds-IsCut zero capacity (x ∷ xs) pos h = absurd (omega arith)
cut_rounds-IsCut (suc fuel) capacity xs pos h = elim (Bool-cases (ltb capacity (length xs))) [
  | inl more ↦
      let left = length-drop capacity xs in
      let ih = cut_rounds-IsCut fuel capacity (drop capacity xs) pos (ground (arith, left)) in
      rw more (record {
        whole =
            append_assoc (take capacity xs)
              (flatten (cut_rounds fuel capacity (drop capacity xs)).0) _
            ∙ ap (◌++◌ (take capacity xs)) ih.whole
            ∙ take-append-drop capacity xs;
        filled = (ground (arith, length-take capacity xs), ih.filled);
        short = ih.short;
        waiting = λ w. ih.waiting (ground (arith, left));
      })
  | inr rest ↦
      rw rest (record { whole = refl; filled = tt; short = ground arith; waiting = λ w. w })
]

-- The chunks and the rest together are the data, each chunk is full, and the rest is empty only if
-- there is no data.
pub cut-IsCut : (capacity : ℕ) (xs : List ℕ) → 0 < capacity → IsCut capacity xs (cut capacity xs)
unfolding cut
cut-IsCut capacity xs pos = cut_rounds-IsCut (length xs) capacity xs pos (omega arith)

cut_fuel-append :
    (fuel capacity : ℕ) (xs ys : List ℕ)
    → 0 < capacity
    → length xs ≤ fuel
    → cut capacity (xs ++ ys) ≡ (
      (cut capacity xs).0 ++ (cut capacity ((cut capacity xs).1 ++ ys)).0,
      (cut capacity ((cut capacity xs).1 ++ ys)).1,
    )
cut_fuel-append zero capacity [] ys pos h = rw (cut-few capacity [] (omega arith))
cut_fuel-append zero capacity (x ∷ xs) ys pos h = absurd (omega arith)
cut_fuel-append (suc fuel) capacity xs ys pos h = elim (Bool-cases (ltb capacity (length xs))) [
  | inl more ↦
      let big : capacity < length xs = ltb→lt capacity (length xs) more in
      let bigger : capacity < length (xs ++ ys) = omega (arith, length-append xs ys) in
      let ih =
        cut_fuel-append fuel capacity (drop capacity xs) ys pos
          (omega (arith, length-drop capacity xs)) in
      rw (
        cut-more capacity (xs ++ ys) pos bigger,
        cut-more capacity xs pos big,
        take_append_of_length-le capacity xs ys (omega arith),
        drop_append_of_length-le capacity xs ys (omega arith),
        ih,
      )
  | inr rest ↦ rw (cut-few capacity xs (ground arith))
]

-- Data that comes in two parts is cut where it is cut as a whole.
pub cut-append :
    (capacity : ℕ) (xs ys : List ℕ)
    → 0 < capacity
    → cut capacity (xs ++ ys) ≡ (
      (cut capacity xs).0 ++ (cut capacity ((cut capacity xs).1 ++ ys)).0,
      (cut capacity ((cut capacity xs).1 ++ ys)).1,
    )
cut-append capacity xs ys pos = cut_fuel-append (length xs) capacity xs ys pos (omega arith)
