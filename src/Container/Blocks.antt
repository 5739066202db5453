-- ===== src/Container/Blocks.antt =====
-- The blocks of a format version 1 container, `repair_copies` (dbs/container/blocks.py). The hash
-- and the `reedsolo` decoder are parameters; hashes are compared as bytes.
use mathlib.Core.List.{flatten}
use dbs.Prelude.{
  Bool, List, Option, [], drop, false, if◌then◌else◌, leb, length, ltb, map, map_some, none, not,
  slice, some, suc, take, true, zero, ℕ, ◌&&◌, ◌++◌, ◌+◌, ◌==◌, ◌||◌, ◌∷◌,
}
use dbs.Container.Rs.Decode.{Codec, decode, equal_rows, strip_parity}
use dbs.Container.Rs.Repair.{differing}
use dbs.Container.Rs.Sizes.{codeword_count, codeword_size, max_nsym, min_nsym}
use dbs.Container.Stream.Reader.Pass.{chunks}
use dbs.Container.Stream.Schedule.{indices}
use dbs.Result.{Result, ok, ◌>>=◌}
pub mod Verified

-- One entry of the three lists of a plan.
pub record PlanEntry : Type 0 where
  pub enc_len : ℕ
  pub enc_hash : List ℕ
  pub data_hash : List ℕ

pub record BlockPlan : Type 0 where
  pub nsym : ℕ
  pub ciphertext_len : ℕ
  pub enc_lens : List ℕ
  pub enc_hashes : List (List ℕ)
  pub data_hashes : List (List ℕ)

unfoldable pub copy_len : List ℕ → ℕ
copy_len [] = 0
copy_len (n ∷ enc_lens) = n + copy_len enc_lens

-- `zip(plan.enc_lens, plan.enc_hashes, plan.data_hashes)`
unfoldable pub entries_of : List ℕ → List (List ℕ) → List (List ℕ) → List PlanEntry
entries_of (n ∷ ns) (e ∷ es) (d ∷ ds) =
    record { enc_len = n; enc_hash = e; data_hash = d } ∷ entries_of ns es ds
entries_of _ _ _ = []

pub record RepairReport : Type 0 where
  pub total_blocks : ℕ
  pub blocks_direct : ℕ
  pub blocks_rs_corrected : ℕ
  pub blocks_used_b : ℕ
  pub blocks_merged : ℕ
  pub copies_available : ℕ
  pub failed_blocks : List ℕ

abbrev pub no_failure : List ℕ → Bool
no_failure [] = true
no_failure (index ∷ indices) = false

unfoldable pub report_ok : RepairReport → Bool
report_ok report = no_failure report.failed_blocks

unfoldable pub report_healed : RepairReport → Bool
unfolding report_ok
report_healed report =
    report_ok report
    && (ltb 0 report.blocks_rs_corrected
        || ltb 0 report.blocks_used_b
        || ltb 0 report.blocks_merged
        || ltb report.copies_available 2)

-- `[(label, source) for ... if source is not None]`; a label is true for "b".
unfoldable pub sources_of : Option (List ℕ) → Option (List ℕ) → List (Bool × List ℕ)
sources_of (some a) (some b) = (false, a) ∷ (true, b) ∷ []
sources_of (some a) none = (false, a) ∷ []
sources_of none (some b) = (true, b) ∷ []
sources_of none none = []

-- the block that was chosen, whether it came from the second copy, and whether it was corrected
pub record Chosen : Type 0 where
  pub block : List ℕ
  pub used_b : Bool
  pub needed_rs : Bool

module _ (hash : List ℕ → List ℕ) (codec : Codec) where
  -- `data if data is not None and _hash(data) == data_hash else None`
  unfoldable pub when_hash : List ℕ → Option (List ℕ) → Option (List ℕ)
  when_hash data_hash none = none
  when_hash data_hash (some block) = if equal_rows (hash block) data_hash then some block else none

  unfoldable pub decode_either : ℕ → List ℕ → List ℕ → List ℕ → Option (List ℕ)
  decode_either nsym erasures first second = elim (codec nsym first erasures) [
    | some block ↦ some block
    | none ↦ codec nsym second erasures
  ]

  unfoldable pub rebuild_codeword : ℕ → List ℕ → List ℕ → Option (List ℕ)
  unfolding decode_either
  rebuild_codeword nsym first second =
      let places = differing 0 first second in
      elim (decode_either nsym [] first second) [
        | some block ↦ some block
        | none ↦
            if length places == 0 || ltb nsym (length places)
            then none
            else decode_either nsym places first second
      ]

  -- The loop of `_rebuild_from_both`, with `n` codewords left.
  unfoldable pub rebuild_rounds : ℕ → ℕ → List ℕ → List ℕ → Option (List ℕ)
  rebuild_rounds zero nsym first second = some []
  rebuild_rounds (suc n) nsym first second =
      elim (rebuild_codeword nsym (take codeword_size first) (take codeword_size second)) [
        | none ↦ none
        | some piece ↦
            map_some (λ others. piece ++ others)
              (rebuild_rounds n nsym (drop codeword_size first) (drop codeword_size second))
      ]

  unfoldable pub rebuild_from_both : ℕ → List (List ℕ) → List ℕ → Option (List ℕ)
  unfolding rebuild_rounds when_hash
  rebuild_from_both nsym (first ∷ second ∷ []) data_hash =
      if length first == length second
      then when_hash data_hash (rebuild_rounds (codeword_count (length first)) nsym first second)
      else none
  rebuild_from_both nsym _ data_hash = none

  unfoldable pub decode_block : ℕ → List ℕ → List ℕ → Result (Option (List ℕ))
  unfolding when_hash
  decode_block nsym encoded data_hash =
      if not (leb min_nsym nsym && leb nsym max_nsym)
      then ok (when_hash data_hash (codec nsym encoded []))
      else elim (when_hash data_hash (strip_parity encoded nsym)) [
        | some stripped ↦ ok (some stripped)
        | none ↦ do block ← decode codec encoded nsym; ok (when_hash data_hash block)
      ]

  -- The inner loop of `repair_copies`: the first copy of a block that decodes.
  unfoldable pub first_intact : ℕ → PlanEntry → List (Bool × List ℕ) → Result (Option Chosen)
  first_intact nsym e [] = ok none
  first_intact nsym e ((label, encoded) ∷ copies) = do
    found ← decode_block nsym encoded e.data_hash
    elim found [
      | none ↦ first_intact nsym e copies
      | some block ↦ ok (
          some (record {
            block = block;
            used_b = label;
            needed_rs = not (equal_rows (hash encoded) e.enc_hash);
          }))
    ]

  -- `source[offset : offset + enc_len]` of each source
  unfoldable pub cut_copies : ℕ → ℕ → List (Bool × List ℕ) → List (Bool × List ℕ)
  cut_copies offset size [] = []
  cut_copies offset size ((label, source) ∷ sources) =
      (label, slice offset (offset + size) source) ∷ cut_copies offset size sources

  -- What the body of the loop adds to the report and to the chunks.
  unfoldable pub note_block :
      ℕ → Option Chosen → Option (List ℕ) → RepairReport → List ℕ × RepairReport
  note_block index (some chosen) merged report =
      let used = record report {
        blocks_used_b = report.blocks_used_b + (if chosen.used_b then 1 else 0);
      } in
      (
        chosen.block,
        if chosen.needed_rs
            then record used { blocks_rs_corrected = used.blocks_rs_corrected + 1 }
            else record used { blocks_direct = used.blocks_direct + 1 },
      )
  note_block index none (some block) report =
      (block, record report { blocks_merged = report.blocks_merged + 1 })
  note_block index none none report =
      ([], record report { failed_blocks = report.failed_blocks ++ index ∷ [] })

  -- The loop of `repair_copies`, from block `index` at `offset` on.
  unfoldable pub repair_entries :
      ℕ
      → List (Bool × List ℕ)
      → ℕ
      → ℕ
      → List PlanEntry
      → RepairReport
      → Result (List (List ℕ) × RepairReport)
  unfolding first_intact rebuild_from_both cut_copies note_block
  repair_entries nsym sources index offset [] report = ok ([], report)
  repair_entries nsym sources index offset (e ∷ entries) report = do
    let copies = cut_copies offset e.enc_len sources
    chosen ← first_intact nsym e copies
    let merged = rebuild_from_both nsym (map (λ copy. copy.1) copies) e.data_hash
    let (chunk, noted) = note_block index chosen merged report
    (chunks, report') ← repair_entries nsym sources (index + 1) (offset + e.enc_len) entries noted
    ok (chunk ∷ chunks, report')

  unfoldable pub repair_copies :
      Option (List ℕ) → Option (List ℕ) → BlockPlan → Result (Option (List ℕ) × RepairReport)
  unfolding repair_entries entries_of sources_of
  repair_copies copy_a copy_b plan = do
    let sources = sources_of copy_a copy_b
    (chunks, report) ←
        repair_entries plan.nsym sources 0 0
          (entries_of plan.enc_lens plan.enc_hashes plan.data_hashes)
          (record {
            total_blocks = length plan.enc_lens;
            blocks_direct = 0;
            blocks_rs_corrected = 0;
            blocks_used_b = 0;
            blocks_merged = 0;
            copies_available = length sources;
            failed_blocks = [];
          })
    ok (
      (if report_ok report then some (take plan.ciphertext_len (flatten chunks)) else none),
      report,
    )
