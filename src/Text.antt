-- ===== src/Text.antt =====
-- Texts as lists of code points: equality, the order by which Python sorts them, and membership.
use mathlib.Core.List.{reverse, reverse-append}
use dbs.Prelude.{
  Bool, Bool-cases, List, [], ap, ap₂, arith, false, if◌then◌else◌, inl, inr, ltb, refl, true, ℕ,
  ◌&&◌, ◌++◌, ◌==◌, ◌||◌, ◌∙◌, ◌∷◌, ◌≡◌,
}

abbrev pub Text : Type 0
Text = List ℕ

unfoldable pub text_eq : Text → Text → Bool
text_eq [] [] = true
text_eq (a ∷ s) (b ∷ t) = a == b && text_eq s t
text_eq _ _ = false

-- `s <= t`
unfoldable pub text_leb : Text → Text → Bool
text_leb [] t = true
text_leb (a ∷ s) [] = false
text_leb (a ∷ s) (b ∷ t) =
    let rest = text_leb s t in if ltb a b then true else if a == b then rest else false

-- `name in names`
unfoldable pub elem : Text → List Text → Bool
elem name [] = false
elem name (n ∷ names) = text_eq n name || elem name names

pub text_eq_refl : (s : Text) → text_eq s s ≡ true
unfolding text_eq
text_eq_refl [] = refl
text_eq_refl (a ∷ s) = rw (text_eq_refl s) (ground arith)

pub text_eq_sound : (s t : Text) → text_eq s t ≡ true → s ≡ t
unfolding text_eq
text_eq_sound [] [] h = refl
text_eq_sound [] (b ∷ t) h = cc
text_eq_sound (a ∷ s) [] h = cc
text_eq_sound (a ∷ s) (b ∷ t) h = ground (arith, text_eq_sound s t)

pub elem-append :
    (name : Text) (xs ys : List Text) → elem name (xs ++ ys) ≡ elem name xs || elem name ys
unfolding elem
elem-append name [] ys = refl
elem-append name (x ∷ xs) ys = ground (arith, elem-append name xs ys)

pub elem-reverse : (name : Text) (xs : List Text) → elem name (reverse xs) ≡ elem name xs
unfolding elem
elem-reverse name [] = refl
elem-reverse name (x ∷ xs) =
    rw (reverse-append (x ∷ []) xs)
      (ground (arith, elem-append name (reverse xs) (x ∷ []), elem-reverse name xs))

pub elem_self : (name : Text) (names : List Text) → elem name (name ∷ names) ≡ true
unfolding elem
elem_self name names = rw (text_eq_refl name)

-- A name that is not among some names differs from one that is.
pub elem_cons_of_ne :
    (name n : Text) (names others : List Text)
    → elem name others ≡ true
    → elem n others ≡ false
    → elem name (n ∷ names) ≡ elem name names
unfolding elem
elem_cons_of_ne name n names others h k = elim (Bool-cases (text_eq n name)) [
  | inl same ↦ cc (h, k, ap (λ x. elem x others) (text_eq_sound n name same))
  | inr other ↦ rw other
]

-- Two texts that equal a third one equal each other.
pub text_eq_euclidean :
    (s t u : Text) → text_eq s u ≡ true → text_eq t u ≡ true → text_eq s t ≡ true
text_eq_euclidean s t u h k =
    ap₂ text_eq (text_eq_sound s u h) (text_eq_sound t u k) ∙ text_eq_refl u
