-- ===== src/Container/Rs/Repair.antt =====
-- One block from several damaged copies, `repair_from_copies` (dbs/container/rs.py).
use dbs.Prelude.{
  Bool, List, Option, [], false, get_or, if◌then◌else◌, leb, length, ltb, map, none, or_else, slice,
  some, splice, suc, true, zero, ℕ, ◌&&◌, ◌*◌, ◌+◌, ◌==◌, ◌∷◌,
}
use dbs.Container.Rs.Decode.{Codec, codeword, decode_codeword, equal_rows, split, strip_parity}
use dbs.Container.Rs.Parity.{Row, parity}
use dbs.Container.Rs.Sizes.{codeword_count, is_well_formed, message_length}
use dbs.Result.{Result, ok, ◌>>=◌}

-- `np.all(parity(messages, nsym) == stored, axis=1)`
unfoldable pub matches : List Row → List Row → List Bool
matches (p ∷ computed) (s ∷ stored) = equal_rows p s ∷ matches computed stored
matches _ _ = []

unfoldable pub masks_of : List (List ℕ) → ℕ → Result (List (List Bool))
masks_of [] nsym = ok []
masks_of (copy ∷ copies) nsym = do
  let (messages, stored, _) = split copy nsym
  computed ← parity messages nsym
  masks ← masks_of copies nsym
  ok (matches computed stored ∷ masks)

-- `next(number for number, mask in enumerate(consistent) if mask[index])`
unfoldable pub first_consistent : ℕ → List (List Bool) → ℕ → Option ℕ
first_consistent number [] index = none
first_consistent number (mask ∷ masks) index =
    let others = first_consistent (number + 1) masks index in
    if get_or mask index false then some number else others

-- the positions at which two codewords differ
unfoldable pub differing : ℕ → List ℕ → List ℕ → List ℕ
differing position (a ∷ first) (b ∷ second) =
    let others = differing (position + 1) first second in
    if a == b then others else position ∷ others
differing position _ _ = []

unfoldable pub same_length : ℕ → List (List ℕ) → Bool
same_length n [] = true
same_length n (copy ∷ copies) = length copy == n && same_length n copies

-- the returned tuple: the block, the copies used, and whether the decoder was
pub record Repaired : Type 0 where
  pub block : Option (List ℕ)
  pub used : List ℕ
  pub decoded : Bool

abbrev pub unrepaired : Repaired
unrepaired = record { block = none; used = []; decoded = false }

unfoldable pub add_source : ℕ → List ℕ → List ℕ
add_source source [] = source ∷ []
add_source source (s ∷ used) = if s == source then s ∷ used else s ∷ add_source source used

module _ (codec : Codec) where
  -- the first codeword that the decoder accepts
  unfoldable pub first_decoded : ℕ → List (List ℕ) → ℕ → List ℕ → Option (ℕ × List ℕ)
  first_decoded source [] nsym erasures = none
  first_decoded source (candidate ∷ codewords) nsym erasures =
      elim (decode_codeword codec candidate nsym erasures) [
        | some piece ↦ some (source, piece)
        | none ↦ first_decoded (source + 1) codewords nsym erasures
      ]

  -- the second attempt of `_decode_any`: two codewords, with the places where they differ erased
  unfoldable pub decode_erased : List (List ℕ) → ℕ → Option (ℕ × List ℕ)
  unfolding first_decoded differing
  decode_erased (first ∷ second ∷ []) nsym =
      let places = differing 0 first second in
      if length first == length second && ltb 0 (length places) && leb (length places) nsym
      then first_decoded 0 (first ∷ second ∷ []) nsym places
      else none
  decode_erased _ nsym = none

  unfoldable pub decode_any : List (List ℕ) → ℕ → Option (ℕ × List ℕ)
  unfolding decode_erased
  decode_any codewords nsym = elim (first_decoded 0 codewords nsym []) [
    | some found ↦ some found
    | none ↦ decode_erased codewords nsym
  ]

  -- The loop over the codewords, with `n` of them left.
  unfoldable pub repair_rounds :
      ℕ → ℕ → ℕ → List (List ℕ) → List (List ℕ) → List (List Bool) → Repaired → List ℕ → Repaired
  repair_rounds zero index nsym copies stripped masks r repaired = record r {
    block = some repaired;
  }
  repair_rounds (suc n) index nsym copies stripped masks r repaired =
      let start = index * message_length nsym in
      elim (first_consistent 0 masks index) [
        | some source ↦
            let piece = slice start (start + message_length nsym) (get_or stripped source []) in
            repair_rounds n (index + 1) nsym copies stripped masks
              (record r { used = add_source source r.used }) (splice start piece repaired)
        | none ↦ elim (decode_any (map (λ copy. codeword copy index) copies) nsym) [
          | none ↦ r
          | some (source, piece) ↦
              repair_rounds n (index + 1) nsym copies stripped masks
                (record r { used = add_source source r.used; decoded = true })
                (splice start piece repaired)
        ]
      ]

  -- `strip_parity` is `none` only on the early return, so the default is never read.
  unfoldable pub repair_from_copies : List (List ℕ) → ℕ → Result Repaired
  repair_from_copies [] nsym = ok unrepaired
  repair_from_copies (first ∷ others) nsym =
      let size = length first in
      if same_length size (first ∷ others) && is_well_formed size nsym
      then (do
        masks ← masks_of (first ∷ others) nsym
        let stripped = map (λ copy. or_else (strip_parity copy nsym) []) (first ∷ others)
        ok (
            repair_rounds (codeword_count size) 0 nsym (first ∷ others) stripped masks unrepaired
              (get_or stripped 0 [])))
      else ok unrepaired
