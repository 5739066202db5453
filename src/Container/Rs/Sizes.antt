-- ===== src/Container/Rs/Sizes.antt =====
-- The sizes of messages, codewords and encoded blocks (dbs/container/rs.py).
use native.Mathlib.Nat.{mod-lt, div-add-mod'}
use dbs.Prelude.{
  Bool, arith, if◌then◌else◌, ltb, true, ℕ, ◌%◌, ◌*◌, ◌+◌, ◌-◌, ◌/◌, ◌<◌, ◌==◌, ◌||◌, ◌≡◌, ◌≤◌,
}

abbrev pub codeword_size : ℕ
codeword_size = 255

abbrev pub min_nsym : ℕ
min_nsym = 1

abbrev pub max_nsym : ℕ
max_nsym = 254

-- The range that `check_nsym` accepts.
abbrev pub IsNsym : ℕ → Type 0
IsNsym nsym = (min_nsym ≤ nsym) × (nsym ≤ max_nsym)

unfoldable pub message_length : ℕ → ℕ
message_length nsym = codeword_size - nsym

unfoldable pub encoded_length : ℕ → ℕ → ℕ
unfolding message_length
encoded_length data_len nsym =
    let full = data_len / message_length nsym in
    let rest = data_len % message_length nsym in
    full * codeword_size + (if rest == 0 then 0 else rest + nsym)

-- `-(-encoded_len // CODEWORD_SIZE)`, the quotient rounded up
unfoldable pub codeword_count : ℕ → ℕ
codeword_count encoded_len = (encoded_len + (codeword_size - 1)) / codeword_size

unfoldable pub is_well_formed : ℕ → ℕ → Bool
is_well_formed encoded_len nsym =
    let rest = encoded_len % codeword_size in rest == 0 || ltb nsym rest

-- An encoded block has a well-formed length, from which the numbers of whole codewords, of
-- codewords and of bytes after the last whole codeword are read back.
pub encoded_length_fields :
    (data_len nsym : ℕ)
    → IsNsym nsym
    → let m = codeword_size - nsym in
      (encoded_length data_len nsym / codeword_size ≡ data_len / m)
      × (encoded_length data_len nsym % codeword_size
          ≡ (if data_len % m == 0 then 0 else data_len % m + nsym))
unfolding encoded_length message_length
encoded_length_fields data_len nsym h =
    let m = codeword_size - nsym in
    let below : data_len % m < m = mod-lt data_len (omega arith) in ground arith

pub encoded_length-is_well_formed :
    (data_len nsym : ℕ) → IsNsym nsym → is_well_formed (encoded_length data_len nsym) nsym ≡ true
unfolding is_well_formed
encoded_length-is_well_formed data_len nsym h =
    ground (arith, encoded_length_fields data_len nsym h)

-- A block has as many codewords as it has messages, the last one perhaps shorter.
codeword_count-encoded_length :
    (data_len nsym : ℕ)
    → IsNsym nsym
    → let m = codeword_size - nsym in
      codeword_count (encoded_length data_len nsym)
      ≡ data_len / m + (if data_len % m == 0 then 0 else 1)
unfolding codeword_count encoded_length message_length
codeword_count-encoded_length data_len nsym h =
    let m = codeword_size - nsym in
    let below : data_len % m < m = mod-lt data_len (omega arith) in ground arith

-- The messages that the codewords hold reach the end of the block, and no whole message further.
pub codeword_count_bounds :
    (data_len nsym : ℕ)
    → IsNsym nsym
    → let count = codeword_count (encoded_length data_len nsym) in
      (data_len ≤ count * message_length nsym)
      × (count * message_length nsym < data_len + message_length nsym)
unfolding message_length
codeword_count_bounds data_len nsym h =
    let m = codeword_size - nsym in
    let below : data_len % m < m = mod-lt data_len (omega arith) in
    ground (
      arith,
      codeword_count-encoded_length data_len nsym h,
      div-add-mod' data_len m,
      mul-suc-le (data_len / m) m,
    )
  where
    mul-suc-le : (a b : ℕ) → (a + 1) * b ≡ a * b + b
    mul-suc-le a b = omega arith
