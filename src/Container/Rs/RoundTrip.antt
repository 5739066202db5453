-- ===== src/Container/Rs/RoundTrip.antt =====
-- What decoding makes of an encoded block that was not damaged (dbs/container/rs.py).
use mathlib.Core.List.{flatten, map-append}
use native.Mathlib.Nat.{mod-lt, div-add-mod'}
use dbs.Prelude.{
  AllOfSize, Bool-cases, List, [], ap, append-nil, ap₂, arith, drop, drop-append_of_length, false,
  flatten-reshape, if◌then◌else◌, inl, inr, length, length-append, length-drop, length-flatten,
  length-map, length-reshape, map, refl, replicate, reshape, reshape-AllOfSize, reshape-flatten,
  some, sym, take, take-append-drop, take-append_of_length, take_of_length-le, true, ℕ, ◌%◌, ◌*◌,
  ◌++◌, ◌+◌, ◌-◌, ◌/◌, ◌<◌, ◌==◌, ◌∙◌, ◌∷◌, ◌≡◌,
}
use dbs.Container.Rs.Decode.{
  split, tail_of, whole_codewords, strip_parity, Codec, damaged_codewords, decode, decode_rounds,
  equal_rows, flat_nonzero, mismatches,
}
use dbs.Container.Rs.Encode.{codewords_of, message_rows}
use dbs.Container.Rs.Parity.{Row, length-row_parity, row_parity, parity-row_parity}
use dbs.Container.Rs.Sizes.{
  IsNsym, codeword_size, encoded_length, message_length, encoded_length_fields,
  encoded_length-is_well_formed, is_well_formed,
}
use dbs.Result.{ok}

-- the rows and the tail of an encoded block
abbrev pub joined : ℕ → Row → Row
joined nsym row = row ++ row_parity nsym row

joined-AllOfSize :
    (nsym : ℕ) (rows : List Row)
    → IsNsym nsym
    → AllOfSize (codeword_size - nsym) rows
    → AllOfSize codeword_size (map (joined nsym) rows)
joined-AllOfSize nsym [] h all = tt
joined-AllOfSize nsym (row ∷ rows) h all = (
  omega (arith, length-append row (row_parity nsym row), length-row_parity nsym row h, all.0),
  joined-AllOfSize nsym rows h all.1,
)

take-joined :
    (nsym size : ℕ) (rows : List Row)
    → AllOfSize size rows
    → map (take size) (map (joined nsym) rows) ≡ rows
take-joined nsym size [] all = refl
take-joined nsym size (row ∷ rows) all =
    ap₂ ◌∷◌ (take-append_of_length size row (row_parity nsym row) all.0)
      (take-joined nsym size rows all.1)

drop-joined :
    (nsym size : ℕ) (rows : List Row)
    → AllOfSize size rows
    → map (drop size) (map (joined nsym) rows) ≡ map (row_parity nsym) rows
drop-joined nsym size [] all = refl
drop-joined nsym size (row ∷ rows) all =
    ap₂ ◌∷◌ (drop-append_of_length size row (row_parity nsym row) all.0)
      (drop-joined nsym size rows all.1)

pub equal_rows_refl : (row : Row) → equal_rows row row ≡ true
unfolding equal_rows
equal_rows_refl [] = refl
equal_rows_refl (x ∷ row) = rw (equal_rows_refl row) (ground arith)

-- The facts of one block, for the lemmas below.
module _ (nsym : ℕ) (block : List ℕ) (h : IsNsym nsym) where
  abbrev m : ℕ
  m = codeword_size - nsym

  abbrev full : ℕ
  full = length block / m

  abbrev rest : ℕ
  rest = length block % m

  abbrev rows : List Row
  rows = reshape full m block

  abbrev last : List ℕ
  last = drop (full * m) block

  abbrev filled : Row
  filled = replicate (m - rest) 0 ++ last

  abbrev tail : List ℕ
  tail = if rest == 0 then [] else last ++ row_parity nsym filled

  full-le : full * m + rest ≡ length block
  full-le = div-add-mod' (length block) m

  rest-lt : rest < m
  rest-lt = mod-lt (length block) (omega arith)

  rows-AllOfSize : AllOfSize m rows
  rows-AllOfSize = reshape-AllOfSize full m block (omega (arith, full-le))

  length-last : length last ≡ rest
  length-last = omega (arith, length-drop (full * m) block, full-le)

  length-tail : length tail ≡ (if rest == 0 then 0 else rest + nsym)
  length-tail = ground (
    arith,
    length-append last (row_parity nsym filled),
    length-last,
    length-row_parity nsym filled h,
  )

  codewords_of-tail : codewords_of nsym block ≡ flatten (map (joined nsym) rows) ++ tail
  unfolding codewords_of message_length
  codewords_of-tail = refl

  -- An encoded block has the length that `encoded_length` gives.
  pub length-codewords_of : length (codewords_of nsym block) ≡ encoded_length (length block) nsym
  unfolding encoded_length message_length
  length-codewords_of = rw codewords_of-tail (
      omega (
        arith,
        length-append (flatten (map (joined nsym) rows)) tail,
        length-flatten codeword_size (map (joined nsym) rows)
            (joined-AllOfSize nsym rows h rows-AllOfSize),
        length-map rows (joined nsym),
        length-reshape full m block,
        length-tail,
      ))

  encoded-fields :
      (length (codewords_of nsym block) / codeword_size ≡ full)
      × (length (codewords_of nsym block) % codeword_size ≡ (if rest == 0 then 0 else rest + nsym))
  encoded-fields = rw length-codewords_of (encoded_length_fields (length block) nsym h)

  length-codewords : length (map (joined nsym) rows) ≡ full
  length-codewords = length-map rows (joined nsym) ∙ length-reshape full m block

  whole_codewords-codewords_of : whole_codewords (codewords_of nsym block) ≡ map (joined nsym) rows
  unfolding whole_codewords
  whole_codewords-codewords_of =
      rw (encoded-fields.0, codewords_of-tail)
        (ap (λ n. reshape n codeword_size (flatten (map (joined nsym) rows) ++ tail))
            (sym length-codewords)
          ∙ reshape-flatten codeword_size (map (joined nsym) rows) tail
              (joined-AllOfSize nsym rows h rows-AllOfSize))

  length-flat : length (flatten (map (joined nsym) rows)) ≡ full * codeword_size
  length-flat =
      length-flatten codeword_size (map (joined nsym) rows)
        (joined-AllOfSize nsym rows h rows-AllOfSize)
      ∙ ap (λ n. n * codeword_size) length-codewords

  drop-codewords_of : drop (full * codeword_size) (codewords_of nsym block) ≡ tail
  drop-codewords_of = rw codewords_of-tail (
      drop-append_of_length (full * codeword_size) (flatten (map (joined nsym) rows)) tail
        length-flat)

  tail_of-codewords_of : tail_of (codewords_of nsym block) ≡ tail
  unfolding tail_of
  tail_of-codewords_of = rw encoded-fields.0 drop-codewords_of

  -- The message rows of an encoded block are those of the block, beside their own parity.
  pub split-codewords_of : split (codewords_of nsym block) nsym ≡ (
    (message_rows block nsym).0,
    map (row_parity nsym) (message_rows block nsym).0,
    (if rest == 0 then 0 else rest + nsym),
  )
  unfolding split message_rows message_length
  split-codewords_of = elim (Bool-cases (rest == 0)) [
    | inl z ↦
        let e : length (codewords_of nsym block) % codeword_size ≡ 0 = encoded-fields.1 ∙ rw z in
        simp (
          split,
          e,
          z,
          whole_codewords-codewords_of,
          take-joined nsym m rows rows-AllOfSize,
          drop-joined nsym m rows rows-AllOfSize,
          append-nil,
        )
    | inr z ↦
        let e : length (codewords_of nsym block) % codeword_size ≡ rest + nsym =
          encoded-fields.1 ∙ rw z in
        let t : tail_of (codewords_of nsym block) ≡ last ++ row_parity nsym filled =
          tail_of-codewords_of ∙ rw z in
        let z' : (rest + nsym == 0) ≡ false = ground arith in
        let d : rest + nsym - nsym ≡ rest = omega arith in
        simp (
          split,
          e,
          z,
          z',
          d,
          t,
          whole_codewords-codewords_of,
          take-joined nsym m rows rows-AllOfSize,
          drop-joined nsym m rows rows-AllOfSize,
          take-append_of_length rest last (row_parity nsym filled) length-last,
          drop-append_of_length rest last (row_parity nsym filled) length-last,
          map-append (row_parity nsym) rows (filled ∷ []),
        )
  ]

  well_formed : is_well_formed (length (codewords_of nsym block)) nsym ≡ true
  well_formed = rw length-codewords_of (encoded_length-is_well_formed (length block) nsym h)

  -- Stripping the parity of an encoded block gives the block back.
  pub strip_parity-codewords_of : strip_parity (codewords_of nsym block) nsym ≡ some block
  unfolding strip_parity message_length
  strip_parity-codewords_of = elim (Bool-cases (rest == 0)) [
    | inl z ↦
        let e : length (codewords_of nsym block) % codeword_size ≡ 0 = encoded-fields.1 ∙ rw z in
        let all : take (full * m) block ≡ block =
          take_of_length-le (full * m) block (ground (arith, full-le)) in
        simp (
          well_formed,
          e,
          whole_codewords-codewords_of,
          take-joined nsym m rows rows-AllOfSize,
          flatten-reshape full m block,
          append-nil,
          all,
        )
    | inr z ↦
        let e : length (codewords_of nsym block) % codeword_size ≡ rest + nsym =
          encoded-fields.1 ∙ rw z in
        let t : drop (full * codeword_size) (codewords_of nsym block)
            ≡ last ++ row_parity nsym filled =
          drop-codewords_of ∙ rw z in
        let z' : (rest + nsym == 0) ≡ false = ground arith in
        let n : length (codewords_of nsym block) - nsym - full * codeword_size ≡ rest =
          omega (arith, e, encoded-fields.0) in
        simp (
          well_formed,
          e,
          z',
          encoded-fields.0,
          n,
          t,
          whole_codewords-codewords_of,
          take-joined nsym m rows rows-AllOfSize,
          flatten-reshape full m block,
          take-append_of_length rest last (row_parity nsym filled) length-last,
          take-append-drop (full * m) block,
        )
  ]

  mismatches-map :
      (messages : List Row) (index : ℕ)
      → flat_nonzero index
          (mismatches (map (row_parity nsym) messages) (map (row_parity nsym) messages))
        ≡ []
  unfolding mismatches flat_nonzero
  mismatches-map [] index = refl
  mismatches-map (r ∷ messages) index =
      rw (equal_rows_refl (row_parity nsym r), mismatches-map messages (index + 1))

  -- No codeword of an encoded block is reported as damaged.
  damaged_codewords-codewords_of : damaged_codewords (codewords_of nsym block) nsym ≡ ok (some [])
  unfolding damaged_codewords
  damaged_codewords-codewords_of = rw (
    well_formed,
    split-codewords_of,
    parity-row_parity (message_rows block nsym).0 nsym h,
    mismatches-map (message_rows block nsym).0 0,
  )

  -- An encoded block decodes to the block, without a call of the decoder.
  pub decode-codewords_of :
      (codec : Codec) → decode codec (codewords_of nsym block) nsym ≡ ok (some block)
  unfolding decode decode_rounds
  decode-codewords_of codec = rw (damaged_codewords-codewords_of, strip_parity-codewords_of)
