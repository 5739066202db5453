-- ===== src/Container/Rs/Restore.antt =====
-- Repairing from copies that disagree (dbs/container/rs.py).
use mathlib.Core.List.{flatten}
use native.Mathlib.Nat.{div-add-mod'}
use dbs.Prelude.{
  AllOfSize, Bool, List, [], ap, append-nil, arith, drop, false, get_or, if◌then◌else◌, inl, inr,
  length, length-append, length-drop, length-flatten, length-map, length-reshape, length-take, map,
  min, or_else, refl, reshape-AllOfSize, slice, some, splice, suc, sym, take, take-append-take-drop,
  take-append_of_length, take_of_length-le, true, zero, ℕ, ◌%◌, ◌*◌, ◌++◌, ◌+◌, ◌-◌, ◌/◌, ◌<◌, ◌==◌,
  ◌∙◌, ◌∷◌, ◌≡◌, ◌≤◌, ◌⊎◌,
}
use dbs.Container.Rs.Decode.{Codec, strip_parity, whole_codewords}
use dbs.Container.Rs.Repair.{
  Repaired, add_source, first_consistent, repair_rounds, same_length, masks_of, repair_from_copies,
  unrepaired,
}
use dbs.Container.Rs.Sizes.{
  message_length, IsNsym, encoded_length, encoded_length-is_well_formed, codeword_count,
  codeword_count_bounds, codeword_size, encoded_length_fields,
}
use dbs.Result.{ok}

-- the bytes of one message of a block
abbrev pub message_at : ℕ → ℕ → List ℕ → List ℕ
message_at nsym index block =
    slice (index * message_length nsym) (index * message_length nsym + message_length nsym) block

take-append-take {ℓ} :
    {A : Type ℓ} (n : ℕ) (xs ys : List A)
    → (n ≤ length xs) ⊎ (length ys ≡ 0)
    → take n (take n xs ++ ys) ≡ take n xs
take-append-take n xs ys (inl h) =
    take-append_of_length n (take n xs) ys (omega (arith, length-take n xs))
take-append-take n xs [] (inr h) =
    rw append-nil (take_of_length-le n (take n xs) (omega (arith, length-take n xs)))
take-append-take n xs (y ∷ ys) (inr h) = absurd (omega arith)

-- One round writes one more message of the block.
splice-message :
    (start size : ℕ) (block repaired : List ℕ)
    → start ≤ length block
    → length repaired ≡ length block
    → take start repaired ≡ take start block
    → let written = splice start (slice start (start + size) block) repaired in
      (length written ≡ length block) × (take (start + size) written ≡ take (start + size) block)
unfolding splice
splice-message start size block repaired h e p = (
  omega (
    arith,
    length-append (take start repaired ++ piece) rest,
    length-append (take start repaired) piece,
    length-take start repaired,
    length-drop (start + length piece) repaired,
    length-piece,
  ),
  rw written (
      take-append-take (start + size) block rest
        (ground (arith, length-drop (start + length piece) repaired, length-piece))),
)
  where
    d : start + size - start ≡ size
    d = omega arith

    piece : List ℕ
    piece = slice start (start + size) block

    rest : List ℕ
    rest = drop (start + length piece) repaired

    length-piece : length piece ≡ min size (length block - start)
    length-piece =
        omega
          (arith, d, length-take (start + size - start) (drop start block), length-drop start block)

    written : (take start repaired ++ piece) ++ rest ≡ take (start + size) block ++ rest
    written = ap (λ xs. xs ++ rest) (rw (p, d) (take-append-take-drop start size block))

-- The first copy whose parity agrees with its message at each codeword holds the block's bytes.
module _ (nsym : ℕ) (block : List ℕ) (masks : List (List Bool)) (stripped : List (List ℕ)) where
  pub record HasSource (index : ℕ) : Type 0 where
    pub source : ℕ
    pub is_first : first_consistent 0 masks index ≡ some source
    pub agrees : message_at nsym index (get_or stripped source []) ≡ message_at nsym index block

module _ (codec : Codec) (nsym : ℕ) (block : List ℕ) (masks : List (List Bool))
    (copies stripped : List (List ℕ)) where
  repair_rounds-restores :
      (n index : ℕ) (r : Repaired) (repaired : List ℕ)
      → ((i : ℕ) → index ≤ i → i < index + n → HasSource nsym block masks stripped i)
      → (index + n) * message_length nsym < length block + message_length nsym
      → length block ≤ (index + n) * message_length nsym
      → length repaired ≡ length block
      → take (index * message_length nsym) repaired ≡ take (index * message_length nsym) block
      → let found = repair_rounds codec n index nsym copies stripped masks r repaired in
        (found.block ≡ some block) × (found.decoded ≡ r.decoded)
  unfolding repair_rounds
  repair_rounds-restores zero index r repaired sources upper lower e p =
      let z : (index + 0) ≡ index = omega arith in
      let whole : length block ≤ index * message_length nsym = rw z at lower in
      (
        ap some (
            sym (take_of_length-le (index * message_length nsym) repaired (omega arith))
            ∙ p
            ∙ take_of_length-le (index * message_length nsym) block whole),
        refl,
      )
  repair_rounds-restores (suc n) index r repaired sources upper lower e p =
      rw (here.is_first, repair_rounds, here.agrees)
        (repair_rounds-restores n (index + 1) (record r { used = add_source here.source r.used })
          (splice start piece repaired) (λ i lo hi. sources i (omega arith) (omega arith))
          (rw shift at upper) (rw shift at lower) step.0 (rw next step.1))
    where
      m : ℕ
      m = message_length nsym

      start : ℕ
      start = index * m

      piece : List ℕ
      piece = slice start (start + m) block

      here : HasSource nsym block masks stripped index
      here = sources index (omega arith) (omega arith)

      shift : index + suc n ≡ index + 1 + n
      shift = omega arith

      next : (index + 1) * m ≡ start + m
      next = omega arith

      step :
          (length (splice start piece repaired) ≡ length block)
          × (take (start + m) (splice start piece repaired) ≡ take (start + m) block)
      step = splice-message start m block repaired (grind arith) e p

same_length-AllOfSize :
    (size : ℕ) (copies : List (List ℕ)) → AllOfSize size copies → same_length size copies ≡ true
unfolding same_length
same_length-AllOfSize size [] h = refl
same_length-AllOfSize size (copy ∷ copies) h =
    rw (same_length-AllOfSize size copies h.1) (ground (arith, h.0))

AllOfSize-take :
    (size larger : ℕ) (rows : List (List ℕ))
    → size ≤ larger
    → AllOfSize larger rows
    → AllOfSize size (map (take size) rows)
AllOfSize-take size larger [] le h = tt
AllOfSize-take size larger (row ∷ rows) le h =
    (omega (arith, length-take size row, h.0), AllOfSize-take size larger rows le h.1)

-- The length of what is left without the parity depends on the length of the copy alone.
length-strip_parity :
    (nsym size : ℕ) (copy : List ℕ)
    → IsNsym nsym
    → length copy ≡ encoded_length size nsym
    → length (or_else (strip_parity copy nsym) []) ≡ size
unfolding strip_parity message_length
length-strip_parity nsym size copy h e =
    rw (e, encoded_length-is_well_formed size nsym h)
      (ground (
        arith,
        length-append messages (if count % codeword_size == 0 then [] else tail),
        length-messages,
        length-take (count - nsym - whole * codeword_size) (drop (whole * codeword_size) copy),
        length-drop (whole * codeword_size) copy,
        encoded_length_fields size nsym h,
        div-add-mod' size m,
        div-add-mod' count codeword_size,
      ))
  where
    m : ℕ
    m = codeword_size - nsym

    count : ℕ
    count = encoded_length size nsym

    whole : ℕ
    whole = count / codeword_size

    tail : List ℕ
    tail = slice (whole * codeword_size) (count - nsym) copy

    messages : List ℕ
    messages = flatten (map (take m) (whole_codewords copy))

    length-whole : length (whole_codewords copy) ≡ whole
    length-whole = unfold whole_codewords in rw e (length-reshape whole codeword_size copy)

    length-messages : length messages ≡ size / m * m
    length-messages =
        length-flatten m (map (take m) (whole_codewords copy)) (
          AllOfSize-take m codeword_size (whole_codewords copy) (omega arith) (
            unfold whole_codewords in
            reshape-AllOfSize (length copy / codeword_size) codeword_size copy
              (omega (arith, div-add-mod' (length copy) codeword_size))))
        ∙ ap (λ n. n * m)
            (length-map (whole_codewords copy) (take m)
              ∙ length-whole
              ∙ (encoded_length_fields size nsym h).0)

-- If at every codeword the first copy whose parity fits its message holds the message of the
-- block, the copies are repaired to the block and the decoder is not called, however much of them
-- is damaged elsewhere.
pub repair_from_copies-restores :
    (codec : Codec) (nsym : ℕ) (block first : List ℕ) (others : List (List ℕ))
    (masks : List (List Bool))
    → IsNsym nsym
    → AllOfSize (encoded_length (length block) nsym) (first ∷ others)
    → masks_of (first ∷ others) nsym ≡ ok masks
    → ((i : ℕ)
        → i < codeword_count (encoded_length (length block) nsym)
        → HasSource nsym block masks
            (map (λ copy. or_else (strip_parity copy nsym) []) (first ∷ others))
            i)
    → (r : Repaired) × (repair_from_copies codec (first ∷ others) nsym ≡ ok r)
      × (r.block ≡ some block)
      × (r.decoded ≡ false)
unfolding repair_from_copies
repair_from_copies-restores codec nsym block first others masks h sizes fits sources = (
  repair_rounds codec count 0 nsym (first ∷ others) stripped masks unrepaired start,
  rw (
    sizes.0,
    same_length-AllOfSize size (first ∷ others) sizes,
    encoded_length-is_well_formed (length block) nsym h,
    fits,
  ),
  restored.0,
  restored.1,
)
  where
    size : ℕ
    size = encoded_length (length block) nsym

    count : ℕ
    count = codeword_count size

    stripped : List (List ℕ)
    stripped = map (λ copy. or_else (strip_parity copy nsym) []) (first ∷ others)

    start : List ℕ
    start = or_else (strip_parity first nsym) []

    bounds :
        (length block ≤ count * message_length nsym)
        × (count * message_length nsym < length block + message_length nsym)
    bounds = codeword_count_bounds (length block) nsym h

    same : 0 + count ≡ count
    same = omega arith

    none_yet : 0 * message_length nsym ≡ 0
    none_yet = omega arith

    restored :
        let found =
          repair_rounds codec count 0 nsym (first ∷ others) stripped masks unrepaired start in
        (found.block ≡ some block) × (found.decoded ≡ false)
    restored =
        repair_rounds-restores codec nsym block masks (first ∷ others) stripped count 0 unrepaired
          start (λ i lo hi. sources i (omega arith)) (rw same bounds.1) (rw same bounds.0)
          (length-strip_parity nsym (length block) first h sizes.0) (rw none_yet)
