-- ===== src/Container/Rs/Table.antt =====
-- The generator polynomial and the parity table that is read off it (dbs/container/rs.py).
use mathlib.Core.List.{reverse, reverse-append}
use dbs.Prelude.{
  List, [], ap, arith, bit_xor, drop, get_or, length, length-append, length-drop, length-map,
  length-replicate, length-set, map, refl, replicate, set, suc, zero, ℕ, ◌*◌, ◌++◌, ◌+◌, ◌-◌, ◌/◌,
  ◌∷◌, ◌≡◌, ◌≤◌,
}
use dbs.Container.Rs.Field.{exp_at, multiply}
use dbs.Container.Rs.Sizes.{codeword_size}

-- `product[index + 1] ^= _multiply(coefficient, root)` for each coefficient of `poly`
multiply_rounds : ℕ → List ℕ → ℕ → List ℕ → List ℕ
multiply_rounds root [] index product = product
multiply_rounds root (coefficient ∷ poly) index product =
    multiply_rounds root poly (index + 1)
      (set product (index + 1) (bit_xor (get_or product (index + 1) 0) (multiply coefficient root)))

generator_rounds : ℕ → ℕ → List ℕ → List ℕ
unfolding multiply_rounds
generator_rounds zero power poly = poly
generator_rounds (suc n) power poly =
    generator_rounds n (power + 1) (multiply_rounds (exp_at power) poly 0 (poly ++ 0 ∷ []))

unfoldable pub generator : ℕ → List ℕ
unfolding generator_rounds
generator nsym = generator_rounds nsym 0 (1 ∷ [])

-- the comprehension of `_position_remainders`, over a zip
unfoldable pub shift_row : ℕ → List ℕ → List ℕ → List ℕ
shift_row lead (shifted ∷ row) (coefficient ∷ tail) =
    bit_xor shifted (multiply lead coefficient) ∷ shift_row lead row tail
shift_row lead _ _ = []

unfoldable pub next_remainder : List ℕ → List ℕ → List ℕ
unfolding shift_row
next_remainder tail remainder = shift_row (get_or remainder 0 0) (drop 1 remainder ++ 0 ∷ []) tail

unfoldable pub remainder_rounds : ℕ → List ℕ → List ℕ → List (List ℕ)
unfolding next_remainder
remainder_rounds zero tail remainder = remainder ∷ []
remainder_rounds (suc n) tail remainder =
    remainder ∷ remainder_rounds n tail (next_remainder tail remainder)

unfoldable pub position_remainders : ℕ → List (List ℕ)
unfolding generator remainder_rounds
position_remainders nsym =
    let tail = drop 1 (generator nsym) in
    reverse (remainder_rounds (codeword_size - nsym - 1) tail tail)

-- The parity of each value at one message position, padded to whole 64-bit words.
abbrev pub Entry : Type 0
Entry = ℕ → List ℕ

unfoldable pub row_width : ℕ → ℕ
row_width nsym = (nsym + 7) / 8 * 8

unfoldable pub table_entry : ℕ → List ℕ → Entry
unfolding row_width
table_entry nsym remainder value =
    map (multiply value) remainder ++ replicate (row_width nsym - nsym) 0

unfoldable pub parity_table : ℕ → List Entry
unfolding position_remainders table_entry
parity_table nsym = map (table_entry nsym) (position_remainders nsym)

-- A list of rows of one length.
abbrev pub AllOfLength : ℕ → List (List ℕ) → Type 0
AllOfLength n [] = Unit
AllOfLength n (row ∷ rows) = (length row ≡ n) × AllOfLength n rows

-- A table all of whose rows have one width, whatever the value.
abbrev pub IsTable : ℕ → List Entry → Type 0
IsTable width [] = Unit
IsTable width (entry ∷ table) = ((value : ℕ) → length (entry value) ≡ width) × IsTable width table

length-multiply_rounds :
    (root : ℕ) (poly : List ℕ) (index : ℕ) (product : List ℕ)
    → length (multiply_rounds root poly index product) ≡ length product
unfolding multiply_rounds
length-multiply_rounds root [] index product = refl
length-multiply_rounds root (c ∷ poly) index product = omega (
  arith,
  length-multiply_rounds root poly (index + 1)
      (set product (index + 1) (bit_xor (get_or product (index + 1) 0) (multiply c root))),
  length-set product (index + 1) (bit_xor (get_or product (index + 1) 0) (multiply c root)),
)

length-generator_rounds :
    (n power : ℕ) (poly : List ℕ) → length (generator_rounds n power poly) ≡ n + length poly
unfolding generator_rounds
length-generator_rounds zero power poly = omega arith
length-generator_rounds (suc n) power poly = omega (
  arith,
  length-generator_rounds n (power + 1) (multiply_rounds (exp_at power) poly 0 (poly ++ 0 ∷ [])),
  length-multiply_rounds (exp_at power) poly 0 (poly ++ 0 ∷ []),
  length-append poly (0 ∷ []),
)

length-generator : (nsym : ℕ) → length (generator nsym) ≡ nsym + 1
unfolding generator
length-generator nsym = length-generator_rounds nsym 0 (1 ∷ [])

length-shift_row :
    (lead : ℕ) (row tail : List ℕ)
    → length row ≡ length tail
    → length (shift_row lead row tail) ≡ length tail
unfolding shift_row
length-shift_row lead [] [] h = refl
length-shift_row lead [] (c ∷ tail) h = absurd (omega arith)
length-shift_row lead (s ∷ row) [] h = absurd (omega arith)
length-shift_row lead (s ∷ row) (c ∷ tail) h = ap suc (length-shift_row lead row tail (omega arith))

length-next_remainder :
    (tail remainder : List ℕ)
    → 1 ≤ length tail
    → length remainder ≡ length tail
    → length (next_remainder tail remainder) ≡ length tail
unfolding next_remainder
length-next_remainder tail remainder pos e =
    length-shift_row _ (drop 1 remainder ++ 0 ∷ []) tail
      (omega (arith, length-append (drop 1 remainder) (0 ∷ []), length-drop 1 remainder))

AllOfLength-append :
    (n : ℕ) (xs ys : List (List ℕ)) → AllOfLength n xs → AllOfLength n ys → AllOfLength n (xs ++ ys)
AllOfLength-append n [] ys h k = k
AllOfLength-append n (x ∷ xs) ys h k = (h.0, AllOfLength-append n xs ys h.1 k)

AllOfLength-reverse : (n : ℕ) (xs : List (List ℕ)) → AllOfLength n xs → AllOfLength n (reverse xs)
AllOfLength-reverse n [] h = h
AllOfLength-reverse n (x ∷ xs) h =
    rw (reverse-append (x ∷ []) xs)
      (AllOfLength-append n (reverse xs) (x ∷ []) (AllOfLength-reverse n xs h.1) (h.0, tt))

AllOfLength-remainder_rounds :
    (n : ℕ) (tail remainder : List ℕ)
    → 1 ≤ length tail
    → length remainder ≡ length tail
    → AllOfLength (length tail) (remainder_rounds n tail remainder)
unfolding remainder_rounds
AllOfLength-remainder_rounds zero tail remainder pos e = (e, tt)
AllOfLength-remainder_rounds (suc n) tail remainder pos e = (
  e,
  AllOfLength-remainder_rounds n tail (next_remainder tail remainder) pos
      (length-next_remainder tail remainder pos e),
)

-- There is one remainder of `nsym` coefficients for each message position.
position_remainders-AllOfLength :
    (nsym : ℕ) → 1 ≤ nsym → AllOfLength nsym (position_remainders nsym)
unfolding position_remainders
position_remainders-AllOfLength nsym pos =
    let tail = drop 1 (generator nsym) in
    let e : length tail ≡ nsym =
      omega (arith, length-drop 1 (generator nsym), length-generator nsym) in
    rw e at (
      AllOfLength-reverse (length tail) (remainder_rounds (codeword_size - nsym - 1) tail tail)
        (AllOfLength-remainder_rounds (codeword_size - nsym - 1) tail tail (omega arith) refl))

table_entry-IsTable :
    (nsym : ℕ) (remainders : List (List ℕ))
    → AllOfLength nsym remainders
    → IsTable (row_width nsym) (map (table_entry nsym) remainders)
unfolding table_entry row_width
table_entry-IsTable nsym [] h = tt
table_entry-IsTable nsym (r ∷ remainders) h = (
  λ value. omega (
    arith,
    length-append (map (multiply value) r) (replicate ((nsym + 7) / 8 * 8 - nsym) 0),
    length-map r (multiply value),
    length-replicate ((nsym + 7) / 8 * 8 - nsym) (let z : ℕ = 0 in z),
    h.0,
  ),
  table_entry-IsTable nsym remainders h.1,
)

pub parity_table-IsTable : (nsym : ℕ) → 1 ≤ nsym → IsTable (row_width nsym) (parity_table nsym)
unfolding parity_table
parity_table-IsTable nsym pos =
    table_entry-IsTable nsym (position_remainders nsym) (position_remainders-AllOfLength nsym pos)
