-- ===== src/Container/Rs/Decode.antt =====
-- Taking codewords apart, finding the damaged ones and repairing them (dbs/container/rs.py). The
-- decoder of the `reedsolo` package is a parameter: `codec nsym codeword erasures` is the message
-- that it finds, and `none` its exceptions.
use mathlib.Core.List.{flatten}
use dbs.Prelude.{
  Bool, List, Option, [], drop, false, if◌then◌else◌, length, map, none, not, or_else, replicate,
  reshape, slice, some, splice, take, true, ℕ, ◌%◌, ◌&&◌, ◌*◌, ◌++◌, ◌+◌, ◌-◌, ◌/◌, ◌==◌, ◌∷◌,
}
use dbs.Container.Rs.Parity.{Row, parity}
use dbs.Container.Rs.Sizes.{codeword_size, is_well_formed, message_length}
use dbs.Result.{Result, ok, ◌>>=◌}

-- `view[: full * CODEWORD_SIZE].reshape(full, CODEWORD_SIZE)`
unfoldable pub whole_codewords : List ℕ → List Row
whole_codewords encoded = reshape (length encoded / codeword_size) codeword_size encoded

-- the bytes after the last whole codeword
unfoldable pub tail_of : List ℕ → List ℕ
tail_of encoded = drop (length encoded / codeword_size * codeword_size) encoded

unfoldable pub split : List ℕ → ℕ → List Row × List Row × ℕ
unfolding message_length whole_codewords tail_of
split encoded nsym =
    let message_len = message_length nsym in
    let rest = length encoded % codeword_size in
    let tail = tail_of encoded in
    (
      map (take message_len) (whole_codewords encoded)
          ++ (if rest == 0
              then []
              else (replicate (message_len - (rest - nsym)) 0 ++ take (rest - nsym) tail) ∷ []),
      map (drop message_len) (whole_codewords encoded)
          ++ (if rest == 0 then [] else drop (rest - nsym) tail ∷ []),
      rest,
    )

unfoldable pub strip_parity : List ℕ → ℕ → Option (List ℕ)
strip_parity encoded nsym =
    if is_well_formed (length encoded) nsym
    then some (
        flatten (map (take (message_length nsym)) (whole_codewords encoded))
        ++ (if length encoded % codeword_size == 0
            then []
            else slice (length encoded / codeword_size * codeword_size) (length encoded - nsym)
                encoded))
    else none

unfoldable pub equal_rows : Row → Row → Bool
equal_rows [] [] = true
equal_rows (x ∷ xs) (y ∷ ys) = x == y && equal_rows xs ys
equal_rows _ _ = false

-- `np.any(parity(messages, nsym) != stored, axis=1)`
unfoldable pub mismatches : List Row → List Row → List Bool
unfolding equal_rows
mismatches (p ∷ computed) (s ∷ stored) = not (equal_rows p s) ∷ mismatches computed stored
mismatches _ _ = []

unfoldable pub flat_nonzero : ℕ → List Bool → List ℕ
flat_nonzero index [] = []
flat_nonzero index (b ∷ mask) =
    let others = flat_nonzero (index + 1) mask in if b then index ∷ others else others

unfoldable pub damaged_codewords : List ℕ → ℕ → Result (Option (List ℕ))
damaged_codewords encoded nsym =
    if is_well_formed (length encoded) nsym
    then (do
      let (messages, stored, _) = split encoded nsym
      computed ← parity messages nsym
      ok (some (flat_nonzero 0 (mismatches computed stored))))
    else ok none

unfoldable pub codeword : List ℕ → ℕ → List ℕ
codeword encoded index = slice (index * codeword_size) ((index + 1) * codeword_size) encoded

abbrev pub Codec : Type 0
Codec = ℕ → List ℕ → List ℕ → Option (List ℕ)

module _ (codec : Codec) where
  -- `decode_whole`, and `decode_codeword` with no erasures
  unfoldable pub decode_codeword : List ℕ → ℕ → List ℕ → Option (List ℕ)
  decode_codeword codeword_bytes nsym erasures = codec nsym codeword_bytes erasures

  -- the loop of `decode` over the damaged codewords
  unfoldable pub decode_rounds : List ℕ → ℕ → List ℕ → List ℕ → Option (List ℕ)
  decode_rounds encoded nsym [] pieces = some pieces
  decode_rounds encoded nsym (index ∷ damaged) pieces =
      elim (decode_codeword (codeword encoded index) nsym []) [
        | none ↦ none
        | some repaired ↦
            decode_rounds encoded nsym damaged
              (splice (index * message_length nsym) repaired pieces)
      ]

  -- `data` is `none` only where `damaged` is, so the default is never read.
  unfoldable pub decode : List ℕ → ℕ → Result (Option (List ℕ))
  decode encoded nsym = do
    found ← damaged_codewords encoded nsym
    ok (elim found [
      | none ↦ decode_codeword encoded nsym []
      | some damaged ↦ decode_rounds encoded nsym damaged (or_else (strip_parity encoded nsym) [])
    ])
