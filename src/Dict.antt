-- ===== src/Dict.antt =====
-- Dictionaries from numbers, as association lists with one entry for each key.
use dbs.Prelude.{
  Bool-cases, List, Option, [], arith, if_false, if◌then◌else◌, inl, inr, none, some, sym, ℕ, ◌<◌,
  ◌==◌, ◌∙◌, ◌∷◌, ◌≡◌,
}

unfoldable pub find {ℓ} : {A : Type ℓ} → ℕ → List (ℕ × A) → Option A
find key [] = none
find key ((k, v) ∷ entries) = let rest = find key entries in if k == key then some v else rest

-- `entries.pop(key, None)` without its result
unfoldable pub erase {ℓ} : {A : Type ℓ} → ℕ → List (ℕ × A) → List (ℕ × A)
erase key [] = []
erase key ((k, v) ∷ entries) =
    let rest = erase key entries in if k == key then rest else (k, v) ∷ rest

-- `entries[key] = value`
unfoldable pub insert {ℓ} : {A : Type ℓ} → ℕ → A → List (ℕ × A) → List (ℕ × A)
unfolding erase
insert key value entries = (key, value) ∷ erase key entries

-- Every key is below a bound.
abbrev pub KeysBelow {ℓ} : {A : Type ℓ} → ℕ → List (ℕ × A) → Type 0
KeysBelow bound [] = Unit
KeysBelow bound ((k, v) ∷ entries) = (k < bound) × KeysBelow bound entries

pub erase-KeysBelow {ℓ} :
    {A : Type ℓ} (bound key : ℕ) (entries : List (ℕ × A))
    → KeysBelow bound entries
    → KeysBelow bound (erase key entries)
unfolding erase
erase-KeysBelow bound key [] h = tt
erase-KeysBelow bound key ((k, v) ∷ entries) (l, h) = elim (Bool-cases (k == key)) [
  | inl same ↦ rw same (erase-KeysBelow bound key entries h)
  | inr other ↦ rw other (l, erase-KeysBelow bound key entries h)
]

pub insert-KeysBelow {ℓ} :
    {A : Type ℓ} (bound key : ℕ) (value : A) (entries : List (ℕ × A))
    → key < bound
    → KeysBelow bound entries
    → KeysBelow bound (insert key value entries)
unfolding insert
insert-KeysBelow bound key value entries l h = (l, erase-KeysBelow bound key entries h)

pub find-KeysBelow {ℓ} :
    {A : Type ℓ} (bound key : ℕ) (entries : List (ℕ × A)) {value : A}
    → KeysBelow bound entries
    → find key entries ≡ some value
    → key < bound
unfolding find
find-KeysBelow bound key [] h e = cc
find-KeysBelow bound key ((k, v) ∷ entries) (l, h) e = elim (Bool-cases (k == key)) [
  | inl same ↦ ground (arith, l, same)
  | inr other ↦
      find-KeysBelow bound key entries h
        (sym (if_false (k == key) (some v) (find key entries) other) ∙ e)
]
