-- ===== src/Examples/Rs.antt =====
-- Concrete runs of the Reed-Solomon layer.
use dbs.Prelude.{
  AllOfSize, Bool, List, [], ap, arith, false, map, none, or_else, refl, some, true, ℕ, ◌<◌, ◌∷◌,
  ◌≡◌,
}
use dbs.Container.Rs.Decode.{Codec, decode, split, strip_parity}
use dbs.Container.Rs.Encode.{codewords_of, encode_many, encode_many-codewords_of, message_rows}
use dbs.Container.Rs.Parity.{Row, parity, parity-row_parity, row_parity}
use dbs.Container.Rs.Repair.{Repaired, masks_of, matches, repair_from_copies, first_consistent}
use dbs.Container.Rs.Restore.{repair_from_copies-restores, HasSource, message_at}
use dbs.Container.Rs.RoundTrip.{
  decode-codewords_of, equal_rows_refl, split-codewords_of, strip_parity-codewords_of,
  length-codewords_of,
}
use dbs.Container.Rs.Sizes.{codeword_count, encoded_length, message_length}
use dbs.Result.{ok}

-- a decoder that gives up on everything
abbrev no_codec : Codec
no_codec = λ nsym encoded erasures. none

abbrev one_block : List ℕ
one_block = 7 ∷ 8 ∷ []

decode-codewords_of_example : decode no_codec (codewords_of 2 one_block) 2 ≡ ok (some one_block)
decode-codewords_of_example = decode-codewords_of 2 one_block (omega arith, omega arith) no_codec

encode_many-codewords_of_example :
    encode_many (one_block ∷ [] ∷ []) 2 ≡ ok (codewords_of 2 one_block ∷ codewords_of 2 [] ∷ [])
encode_many-codewords_of_example =
    encode_many-codewords_of (one_block ∷ [] ∷ []) 2 (omega arith, omega arith)

parity-row_parity_example :
    parity (one_block ∷ (1 ∷ []) ∷ []) 2 ≡ ok (row_parity 2 one_block ∷ row_parity 2 (1 ∷ []) ∷ [])
parity-row_parity_example =
    parity-row_parity (one_block ∷ (1 ∷ []) ∷ []) 2 (omega arith, omega arith)

-- One copy is intact; the other one is of the same length.
abbrev other_copy : List ℕ
other_copy = 1 ∷ 2 ∷ 3 ∷ 4 ∷ []

matches_refl : (rows : List Row) → matches rows rows ≡ map (λ row. true) rows
unfolding matches
matches_refl [] = refl
matches_refl (row ∷ rows) = rw (equal_rows_refl row) (ap (λ ms. true ∷ ms) (matches_refl rows))

abbrev both_masks : List (List Bool)
both_masks =
    (true ∷ []) ∷ matches (map (row_parity 2) (split other_copy 2).0) (split other_copy 2).1 ∷ []

masks_of_both : masks_of (codewords_of 2 one_block ∷ other_copy ∷ []) 2 ≡ ok both_masks
unfolding masks_of message_rows message_length
masks_of_both =
    rw
      (
        split-codewords_of 2 one_block (omega arith, omega arith),
        parity-row_parity (message_rows one_block 2).0 2 (omega arith, omega arith),
        parity-row_parity (split other_copy 2).0 2 (omega arith, omega arith),
        matches_refl,
      )
      refl

both_sizes : AllOfSize (encoded_length 2 2) (codewords_of 2 one_block ∷ other_copy ∷ [])
unfolding encoded_length
both_sizes = (length-codewords_of 2 one_block (omega arith, omega arith), (refl, tt))

one_codeword : codeword_count (encoded_length 2 2) ≡ 1
unfolding codeword_count encoded_length
one_codeword = refl

both_sources :
    (i : ℕ)
    → i < codeword_count (encoded_length 2 2)
    → HasSource 2 one_block both_masks
        (map
          (λ copy. or_else (strip_parity copy 2) [])
          (codewords_of 2 one_block ∷ other_copy ∷ []))
        i
unfolding first_consistent
both_sources i l =
    let z : i ≡ 0 = omega (arith, l, one_codeword) in
    rw z (record {
      source = 0;
      is_first = refl;
      agrees =
          ap (λ s. message_at 2 0 (or_else s []))
            (strip_parity-codewords_of 2 one_block (omega arith, omega arith));
    })

repair_from_copies-restores_example :
    (r : Repaired) × (repair_from_copies no_codec (codewords_of 2 one_block ∷ other_copy ∷ []) 2
      ≡ ok r)
    × (r.block ≡ some one_block)
    × (r.decoded ≡ false)
repair_from_copies-restores_example =
    repair_from_copies-restores no_codec 2 one_block (codewords_of 2 one_block) (other_copy ∷ [])
      both_masks (omega arith, omega arith) both_sizes masks_of_both both_sources
