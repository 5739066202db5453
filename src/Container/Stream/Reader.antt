-- ===== src/Container/Stream/Reader.antt =====
-- `StreamReader` behind its constructor: the checks on one slot, the repair of a block from its
-- two copies, and the pass over all slots (dbs/container/stream.py). The `reedsolo` decoder, the
-- cipher and the keyed hashes are parameters.
pub mod Pass
pub mod Order
pub mod Read
pub mod Total
pub mod Vouch
pub mod Ends
pub mod Scan
use dbs.Prelude.{
  Bool, List, Option, [], drop, false, get_or, if◌then◌else◌, leb, length, ltb, map, map_some, none,
  not, replicate, slice, some, take, true, ℕ, ◌&&◌, ◌++◌, ◌+◌, ◌-◌, ◌==◌, ◌||◌, ◌∷◌,
}
use dbs.Bytes.{from_bytes}
use dbs.Container.Rs.Decode.{Codec, equal_rows, strip_parity}
use dbs.Container.Rs.Encode.{encode}
use dbs.Container.Rs.Repair.{Repaired, repair_from_copies}
use dbs.Container.Stream.Layout.{
  StreamLayout, descriptor_size, encoded_size, max_chunk_len, slot_size, tag_length,
}
use dbs.Container.Stream.Trailer.{StreamTrailer}
use dbs.Result.{◌>>=◌, Result, ok}

-- The entries of `metadata_damaged`.
pub data Metadata : Type 0 where
  front_header back_header trailer_copy_1 trailer_copy_2 both_trailers : Metadata

-- The entries of `problems`.
pub data EndProblem : Type 0 where
  end_missing digest_differs : EndProblem

pub record StreamRepairReport : Type 0 where
  pub total_blocks : ℕ
  pub blocks_direct : ℕ
  pub blocks_rs_corrected : ℕ
  pub blocks_used_b : ℕ
  pub blocks_merged : ℕ
  pub copies_available : ℕ
  pub failed_blocks : List ℕ
  pub spares_damaged : List ℕ
  pub metadata_damaged : List Metadata
  pub unverified_blocks : List ℕ
  pub problems : List EndProblem

abbrev pub is_empty {ℓ} : {A : Type ℓ} → List A → Bool
is_empty [] = true
is_empty (x ∷ xs) = false

unfoldable pub is_ok : StreamRepairReport → Bool
is_ok report = is_empty report.failed_blocks && is_empty report.problems

unfoldable pub is_healed : StreamRepairReport → Bool
unfolding is_ok
is_healed report =
    is_ok report
    && (ltb 0 report.blocks_rs_corrected
        || ltb 0 report.blocks_used_b
        || ltb 0 report.blocks_merged
        || ltb report.copies_available 2
        || not (is_empty report.spares_damaged)
        || not (is_empty report.metadata_damaged))

pub record Block : Type 0 where
  pub data_bytes : List ℕ
  pub chunk_len : ℕ
  pub tag : List ℕ

-- `decrypt` is `ChunkCipher.open`, `none` where it raises `CorruptionError`.
pub record Checks : Type 0 where
  pub codec : Codec
  pub slot_tag : List ℕ → List ℕ
  pub digest : List (List ℕ) → List ℕ
  pub decrypt : ℕ → List ℕ → Bool → Option (List ℕ)

-- What a pass reads of a reader; `keyed` tells whether it has a cipher.
pub record Reader : Type 0 where
  pub source : List ℕ
  pub keyed : Bool
  pub layout : StreamLayout
  pub trailer : Option StreamTrailer
  pub blocks : ℕ
  pub metadata_damaged : List Metadata

unfoldable pub fresh_report : Reader → StreamRepairReport
fresh_report r = record {
  total_blocks = r.blocks;
  blocks_direct = 0;
  blocks_rs_corrected = 0;
  blocks_used_b = 0;
  blocks_merged = 0;
  copies_available = 2;
  failed_blocks = [];
  spares_damaged = [];
  metadata_damaged = r.metadata_damaged;
  unverified_blocks = [];
  problems = [];
}

-- `index == self.blocks - 1`
abbrev pub is_last : Reader → ℕ → Bool
is_last r index = index + 1 == r.blocks

-- `_chunk_len`: the length of the chunk in a block that is fit to be block `index`
unfoldable pub chunk_len_of : Reader → List ℕ → ℕ → Option ℕ
chunk_len_of r block index =
    let found = from_bytes (slice 0 8 block) in
    let chunk_len = from_bytes (slice 8 12 block) in
    let flags = get_or block 12 0 in
    let final = is_last r index in
    let stop = descriptor_size + chunk_len in
    if not (length block == r.layout.block_size)
    then none
    else if not (found == index) || not (flags == (if final then 1 else 0))
    then none
    else if not (equal_rows (slice 13 16 block) (replicate 3 0))
    then none
    else if not final
    then (if chunk_len == max_chunk_len r.layout then some chunk_len else none)
    else if not (leb tag_length chunk_len && leb chunk_len (max_chunk_len r.layout))
    then none
    else if (elim r.trailer [ none ↦ false | some t ↦ not (chunk_len == t.final_chunk_len) ])
    then none
    else if not (equal_rows (drop stop block) (replicate (r.layout.block_size - stop) 0))
    then none
    else some chunk_len

-- `{labels[number] for number in used}`, as whether it has "a" and whether it has "b"; a label is
-- true for "b".
unfoldable pub has_label : Bool → List Bool → List ℕ → Bool
has_label label labels [] = false
has_label label labels (number ∷ used) =
    (if get_or labels number false then label else not label) || has_label label labels used

unfoldable pub elem_bytes : List ℕ → List (List ℕ) → Bool
elem_bytes tag [] = false
elem_bytes tag (s ∷ stored) = equal_rows tag s || elem_bytes tag stored

-- the copies of a block that were read, with their labels
unfoldable pub copies_of : Option (List ℕ) → Option (List ℕ) → List (Bool × List ℕ)
copies_of (some a) (some b) = (false, a) ∷ (true, b) ∷ []
copies_of (some a) none = (false, a) ∷ []
copies_of none (some b) = (true, b) ∷ []
copies_of none none = []

-- `len(stored) == 2 and stored[0] == stored[1]`
unfoldable pub agree : List (List ℕ) → Bool
agree (s ∷ t ∷ []) = equal_rows s t
agree _ = false

-- what the report counts for a repaired block
unfoldable pub count_repair : Bool → Bool → Bool → StreamRepairReport → StreamRepairReport
count_repair from_a from_b decoded report =
    if from_a && from_b
    then record report { blocks_merged = report.blocks_merged + 1 }
    else if from_b
    then record report {
      blocks_used_b = report.blocks_used_b + 1;
      blocks_rs_corrected = report.blocks_rs_corrected + (if decoded then 1 else 0);
    }
    else record report { blocks_rs_corrected = report.blocks_rs_corrected + 1 }

module _ (c : Checks) where
  unfoldable pub clean : Reader → List ℕ → ℕ → Option Block
  clean r raw index =
      let encoded = take (encoded_size r.layout) raw in
      let tag = drop (encoded_size r.layout) raw in
      if not (length raw == slot_size r.layout)
      then none
      else if not (equal_rows (c.slot_tag encoded) tag)
      then none
      else elim (strip_parity encoded r.layout.nsym) [
        | none ↦ none
        | some block ↦
            map_some (λ chunk_len. record { data_bytes = block; chunk_len = chunk_len; tag = tag })
              (chunk_len_of r block index)
      ]

  -- `_repair` behind `rs.repair_from_copies`, for a block that was found and is fit
  unfoldable pub accept :
      ℕ
      → List (List ℕ)
      → List Bool
      → Repaired
      → Block
      → StreamRepairReport
      → Option Block × StreamRepairReport
  accept index stored labels repaired block report =
      let verified = elem_bytes block.tag stored in
      let noted =
        if verified
        then report
        else record report { unverified_blocks = report.unverified_blocks ++ index ∷ [] } in
      if not verified && (repaired.decoded || agree stored) then (none, report) else (
        some block,
        count_repair (has_label false labels repaired.used) (has_label true labels repaired.used)
            repaired.decoded noted,
      )

  -- `_repair` behind the check of the second copy
  unfoldable pub rebuild :
      Reader
      → ℕ
      → List (Bool × List ℕ)
      → StreamRepairReport
      → Result (Option Block × StreamRepairReport)
  rebuild r index [] report = ok (none, report)
  rebuild r index (copy ∷ copies) report = do
    let raws = map (λ labelled. labelled.1) (copy ∷ copies)
    let labels = map (λ labelled. labelled.0) (copy ∷ copies)
    repaired ← repair_from_copies c.codec (map (take (encoded_size r.layout)) raws) r.layout.nsym
    elim repaired.block [
      | none ↦ ok (none, report)
      | some block ↦ elim (chunk_len_of r block index) [
        | none ↦ ok (none, report)
        | some chunk_len ↦ do
          encoded ← encode block r.layout.nsym
          ok (
              accept index (map (drop (encoded_size r.layout)) raws) labels repaired
                (record { data_bytes = block; chunk_len = chunk_len; tag = c.slot_tag encoded })
                report)
      ]
    ]

  unfoldable pub repair :
      Reader
      → ℕ
      → Option (List ℕ)
      → Option (List ℕ)
      → StreamRepairReport
      → Result (Option Block × StreamRepairReport)
  repair r index first none report = rebuild r index (copies_of first none) report
  repair r index first (some second) report = elim (clean r second index) [
    | some block ↦ ok (some block, record report { blocks_used_b = report.blocks_used_b + 1 })
    | none ↦ rebuild r index (copies_of first (some second)) report
  ]
