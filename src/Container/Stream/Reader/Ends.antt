-- ===== src/Container/Stream/Reader/Ends.antt =====
-- Finding the trailer and the number of blocks: `_locate_end`, `_read_trailers`,
-- `_scan_block_count` and `_first_descriptors` (dbs/container/stream.py).
use dbs.Prelude.{
  Bool, List, Option, [], false, get_or, if◌then◌else◌, leb, length, ltb, map, min, none, not,
  or_else, replicate, slice, some, suc, take, true, zero, ℕ, ◌&&◌, ◌*◌, ◌++◌, ◌+◌, ◌-◌, ◌==◌, ◌||◌,
  ◌∷◌,
}
use dbs.Bytes.{from_bytes}
use dbs.Container.Rs.Decode.{damaged_codewords, decode_codeword, equal_rows}
use dbs.Container.Rs.Sizes.{codeword_size}
use dbs.Container.Stream.Layout.{
  container_size, descriptor_size, header_size, slot_size, trailer_size,
}
use dbs.Container.Stream.Reader.{
  Checks, Metadata, Reader, both_trailers, is_empty, trailer_copy_1, trailer_copy_2,
}
use dbs.Container.Stream.Reader.Pass.{contains, read_at}
use dbs.Container.Stream.Schedule.{first_copy_position}
use dbs.Container.Stream.Trailer.{StreamTrailer, max_blocks, open_trailer}
use dbs.Result.{Result, corruption_error, err, ok, ◌>>=◌}

abbrev pub scan_batch_blocks : ℕ
scan_batch_blocks = 256

unfoldable pub same_trailer : StreamTrailer → StreamTrailer → Bool
same_trailer s t =
    equal_rows s.container_id t.container_id
    && s.blocks == t.blocks
    && s.plaintext_bytes == t.plaintext_bytes
    && s.final_chunk_len == t.final_chunk_len
    && equal_rows s.blocks_digest t.blocks_digest

-- `trailer if trailer is not None and consistent(trailer) else None`
unfoldable pub when_consistent :
    (StreamTrailer → Bool) → Option StreamTrailer → Option StreamTrailer
when_consistent consistent none = none
when_consistent consistent (some t) = if consistent t then some t else none

unfoldable pub differs_from : StreamTrailer → Option StreamTrailer → Bool
differs_from chosen none = true
differs_from chosen (some t) = not (same_trailer t chosen)

-- the first copy that was found, and the copies that differ from it
unfoldable pub choose_trailer :
    Option StreamTrailer → Option StreamTrailer → Option StreamTrailer × List Metadata
choose_trailer none none = (none, [])
choose_trailer none (some t) = (some t, trailer_copy_1 ∷ [])
choose_trailer (some t) second = (some t, if differs_from t second then trailer_copy_2 ∷ [] else [])

-- `_descriptor_of`: the index and whether the block is the last one
unfoldable pub descriptor_of : Option (List ℕ) → Option (ℕ × Bool)
descriptor_of none = none
descriptor_of (some message) =
    let flags = get_or message 12 0 in
    if ltb (length message) descriptor_size
    then none
    else if not (flags == 0 || flags == 1) || not (equal_rows (slice 13 16 message) (replicate 3 0))
    then none
    else some (from_bytes (slice 0 8 message), flags == 1)

-- What the scan makes of the descriptor `(found, final)` where the first copy of `candidate` would
-- stand.
unfoldable pub count_at : ℕ → ℕ → ℕ → ℕ → Bool → Option ℕ
count_at interleave candidate position found final =
    let count = position - found in
    if found == candidate && final
    then some (candidate + 1)
    else if ltb found candidate
        && (ltb 0 count
            && leb count candidate
            && (leb count (found + interleave) && ltb found count))
    then some count
    else none

-- a candidate: its number, its position, and its offset in the source
abbrev pub Candidate : Type 0
Candidate = ℕ × ℕ × ℕ

-- The batch of at most `n` candidates from `candidate` on.
unfoldable pub batch_from : ℕ → Reader → ℕ → List Candidate
batch_from zero r candidate = []
batch_from (suc n) r candidate =
    let position = first_copy_position candidate r.layout.interleave in
    let offset = header_size + position * slot_size r.layout in
    let others = batch_from n r (candidate + 1) in
    if leb (length r.source) offset then [] else (candidate, position, offset) ∷ others

-- The first count that a batch gives.
unfoldable pub find_count : ℕ → List Candidate → List (Option (ℕ × Bool)) → Option ℕ
find_count interleave ((candidate, position, offset) ∷ batch) (some (found, final) ∷ descriptors) =
    elim (count_at interleave candidate position found final) [
      | some count ↦ some count
      | none ↦ find_count interleave batch descriptors
    ]
find_count interleave ((candidate, position, offset) ∷ batch) (none ∷ descriptors) =
    find_count interleave batch descriptors
find_count interleave _ _ = none

-- `batch[-1][0] + 1`
unfoldable pub after_batch : ℕ → List Candidate → ℕ
after_batch index [] = index
after_batch index ((candidate, position, offset) ∷ batch) = after_batch (candidate + 1) batch

-- the codewords of full size, joined
unfoldable pub joined_codewords : List (List ℕ) → List ℕ
joined_codewords [] = []
joined_codewords (word ∷ words) =
    let others = joined_codewords words in
    if length word == codeword_size then word ++ others else others

module _ (c : Checks) (trailer_checksum : List ℕ → List ℕ) (container_id : List ℕ)
    (r : Reader) where
  -- The loop of `_first_descriptors`; `number` counts the codewords of full size.
  unfoldable pub descriptor_rounds : List ℕ → ℕ → List (List ℕ) → List (Option (ℕ × Bool))
  descriptor_rounds damaged number [] = []
  descriptor_rounds damaged number (word ∷ words) =
      let message =
        if contains number damaged
        then decode_codeword c.codec word r.layout.nsym []
        else some (take (codeword_size - r.layout.nsym) word) in
      let next = descriptor_rounds damaged (number + 1) words in
      let same = descriptor_rounds damaged number words in
      if length word == codeword_size then descriptor_of message ∷ next else none ∷ same

  unfoldable pub first_descriptors : List ℕ → Result (List (Option (ℕ × Bool)))
  unfolding descriptor_rounds joined_codewords
  first_descriptors offsets = do
    let words = map (λ offset. read_at r.source offset codeword_size) offsets
    let whole = joined_codewords words
    damaged ← if is_empty whole then ok none else damaged_codewords whole r.layout.nsym
    ok (descriptor_rounds (or_else damaged []) 0 words)

  -- The loop of `_scan_block_count` on fuel.
  unfoldable pub scan_rounds : ℕ → ℕ → Result ℕ
  unfolding first_descriptors
  scan_rounds zero index = err corruption_error
  scan_rounds (suc fuel) index =
      let batch = batch_from (min scan_batch_blocks (max_blocks - index)) r index in
      elim (is_empty batch) [
        | true ↦ err corruption_error
        | false ↦ do
          descriptors ← first_descriptors (map (λ candidate. candidate.2) batch)
          elim (find_count r.layout.interleave batch descriptors) [
            | some count ↦ ok count
            | none ↦ scan_rounds fuel (after_batch index batch)
          ]
      ]

  unfoldable pub scan_block_count : Result ℕ
  unfolding scan_rounds
  scan_block_count = scan_rounds (length r.source + 1) 0

  -- `read_trailers` from `start`, with the copies that `consistent` accepts
  unfoldable pub read_trailers : ℕ → (StreamTrailer → Bool) → Option StreamTrailer × List Metadata
  unfolding choose_trailer when_consistent
  read_trailers start consistent =
      let copy : ℕ → Option StreamTrailer = λ offset. when_consistent consistent (
        open_trailer trailer_checksum r.layout container_id
          (read_at r.source offset trailer_size)) in
      if ltb start header_size
      then (none, [])
      else choose_trailer (copy start) (copy (start + trailer_size))

  -- the trailer, the number of blocks, and what to add to the damaged metadata
  unfoldable pub locate_end : Result (Option StreamTrailer × ℕ × List Metadata)
  unfolding read_trailers scan_block_count
  locate_end =
      let size = length r.source in
      let (trailer, damaged) =
        read_trailers (size - header_size - 2 * trailer_size)
          (λ found. container_size r.layout found.blocks == size) in
      elim trailer [
        | some t ↦ ok (some t, t.blocks, damaged)
        | none ↦ do
          count ← scan_block_count
          let start = header_size + 2 * count * slot_size r.layout
          let (found, damaged') = read_trailers start (λ t. t.blocks == count)
          ok (found, count, elim found [ none ↦ both_trailers ∷ [] | some t ↦ damaged' ])
      ]
