-- ===== src/Container/Stream/Reader/Pass.antt =====
-- One pass over the slots of a container: `_slots`, `_resolved`, `_pass`, `chunks` and `verify`
-- (dbs/container/stream.py). A consumer of the generators is a function that a pass calls for each
-- pair it yields; what it raises ends the pass.

use dbs.Prelude.{
  Bool, List, Option, [], drop, false, if◌then◌else◌, leb, length, ltb, min, none, not, reshape,
  slice, some, suc, take, true, zero, ℕ, ◌&&◌, ◌*◌, ◌++◌, ◌+◌, ◌-◌, ◌==◌, ◌||◌, ◌∷◌,
}
use dbs.Container.Rs.Decode.{equal_rows}
use dbs.Container.Stream.Layout.{descriptor_size, encoded_size, header_size, slot_size}
use dbs.Container.Stream.Reader.{
  Block, Checks, Reader, StreamRepairReport, clean, digest_differs, fresh_report, is_empty, is_last,
  is_ok, repair,
}
use dbs.Container.Stream.Schedule.{Placed, schedule}
use dbs.Dict.{erase, find, insert}
use dbs.Result.{Result, container_error, corruption_error, err, ok, ◌>>=◌}

abbrev pub read_batch_slots : ℕ
read_batch_slots = 16

-- `source.read_at(offset, length)`
unfoldable pub read_at : List ℕ → ℕ → ℕ → List ℕ
read_at source offset count =
    if count == 0 || leb (length source) offset then [] else slice offset (offset + count) source

-- `_slots` from `start` on, in batches; `fuel` bounds the number of batches.
unfoldable pub slots_from : ℕ → Reader → ℕ → List (List ℕ)
unfolding read_at
slots_from zero r start = []
slots_from (suc fuel) r start =
    let size = slot_size r.layout in
    let count = min read_batch_slots (2 * r.blocks - start) in
    let raw = read_at r.source (header_size + start * size) (count * size) in
    let others = slots_from fuel r (start + read_batch_slots) in
    if ltb start (2 * r.blocks) then reshape count size raw ++ others else []

unfoldable pub slots : Reader → List (List ℕ)
unfolding slots_from
slots r = slots_from (2 * r.blocks) r 0

-- The dictionaries of `_resolved` and the next index to yield.
pub record Resolving : Type 0 where
  pub waiting : List (ℕ × Option (List ℕ))
  pub ready : List (ℕ × Option Block)
  pub first_tags : List (ℕ × List ℕ)
  pub next_index : ℕ

abbrev pub nothing_resolved : Resolving
nothing_resolved = record { waiting = []; ready = []; first_tags = []; next_index = 0 }

-- The report, the tags fed to the digest, the indices yielded and the plaintext so far.
pub record Progress : Type 0 where
  pub report : StreamRepairReport
  pub tags : List (List ℕ)
  pub yielded : List ℕ
  pub plaintext : List ℕ

abbrev pub start_of : Reader → Progress
start_of r = record { report = fresh_report r; tags = []; yielded = []; plaintext = [] }

abbrev pub Consumer : Type 0
Consumer = ℕ → Option Block → Progress → Result Progress

unfoldable pub contains : ℕ → List ℕ → Bool
contains n [] = false
contains n (k ∷ ks) = k == n || contains n ks

-- `list.remove(index)`, when it is there
unfoldable pub remove_first : ℕ → List ℕ → List ℕ
remove_first index [] = []
remove_first index (k ∷ ks) =
    let rest = remove_first index ks in if k == index then ks else k ∷ rest

unfoldable pub discard_unverified : ℕ → StreamRepairReport → StreamRepairReport
unfolding remove_first
discard_unverified index report = record report {
  unverified_blocks = remove_first index report.unverified_blocks;
}

unfoldable pub fail_block : ℕ → StreamRepairReport → StreamRepairReport
fail_block index report = record report { failed_blocks = report.failed_blocks ++ index ∷ [] }

-- The digest is fed, then the pair goes to the consumer.
unfoldable pub deliver : Consumer → Consumer
deliver consume index block p =
    let tags : List (List ℕ) = elim block [ none ↦ p.tags | some b ↦ p.tags ++ b.tag ∷ [] ] in
    consume index block (record p { tags = tags; yielded = p.yielded ++ index ∷ [] })

-- `while next_index in ready`, on fuel
unfoldable pub advance : Consumer → ℕ → Resolving → Progress → Result (Resolving × Progress)
advance consume zero res p = ok (res, p)
advance consume (suc fuel) res p = elim (find res.next_index res.ready) [
  | none ↦ ok (res, p)
  | some block ↦ do
    p' ← deliver consume res.next_index block p
    advance consume fuel
        (record res { ready = erase res.next_index res.ready; next_index = res.next_index + 1 }) p'
]

-- The last loop of `_resolved`, with `n` indices left.
unfoldable pub give_up : Consumer → ℕ → ℕ → Progress → Result Progress
unfolding deliver
give_up consume zero index p = ok p
give_up consume (suc n) index p = do
  let report = if contains index p.report.failed_blocks then p.report else fail_block index p.report
  p' ← deliver consume index none (record p { report = report })
  give_up consume n (index + 1) p'

module _ (c : Checks) (r : Reader) where
  unfoldable pub spare_intact : List ℕ → Option (List ℕ) → Bool
  spare_intact raw none = false
  spare_intact raw (some tag) =
      length raw == slot_size r.layout
      && equal_rows (drop (encoded_size r.layout) raw) tag
      && equal_rows (c.slot_tag (take (encoded_size r.layout) raw)) tag

  -- A slot that holds a first copy.
  unfoldable pub first_slot :
      Bool
      → ℕ
      → Bool
      → List ℕ
      → Resolving
      → StreamRepairReport
      → Result (Resolving × StreamRepairReport)
  first_slot check_spares index complete raw res report =
      elim (if complete then clean c r raw index else none) [
        | some block ↦ ok (
          record res {
            ready = insert index (some block) res.ready;
            first_tags =
                if check_spares then insert index block.tag res.first_tags else res.first_tags;
          },
          record report { blocks_direct = report.blocks_direct + 1 },
        )
        | none ↦ ok (
          record res { waiting = insert index (if complete then some raw else none) res.waiting },
          report,
        )
      ]

  -- A slot that holds a second copy.
  unfoldable pub second_slot :
      Bool
      → ℕ
      → Bool
      → List ℕ
      → Resolving
      → StreamRepairReport
      → Result (Resolving × StreamRepairReport)
  second_slot check_spares index complete raw res report = elim (find index res.waiting) [
    | some first ↦ do
      (block, repaired) ← repair c r index first (if complete then some raw else none) report
      ok (
        record res { waiting = erase index res.waiting; ready = insert index block res.ready },
        elim block [ none ↦ fail_block index repaired | some b ↦ repaired ],
      )
    | none ↦
        let intact = spare_intact raw (find index res.first_tags) in
        ok (
          record res {
            first_tags = if check_spares then erase index res.first_tags else res.first_tags;
          },
          if check_spares && not intact
              then record report { spares_damaged = report.spares_damaged ++ index ∷ [] }
              else report,
        )
  ]

  -- the body of the loop of `_resolved` before it yields
  unfoldable pub settle :
      Bool
      → Placed
      → List ℕ
      → Resolving
      → StreamRepairReport
      → Result (Resolving × StreamRepairReport)
  settle check_spares e raw res report =
      let complete = length raw == slot_size r.layout in
      let noted = if complete then report else record report { copies_available = 1 } in
      if e.first
      then first_slot check_spares e.index complete raw res noted
      else second_slot check_spares e.index complete raw res noted

  unfoldable pub resolve_rounds :
      Bool
      → Consumer
      → List Placed
      → List (List ℕ)
      → Resolving
      → Progress
      → Result (Resolving × Progress)
  unfolding advance
  resolve_rounds check_spares consume (e ∷ entries) (raw ∷ raws) res p = do
    (settled, report) ← settle check_spares e raw res p.report
    (res', p') ← advance consume (length settled.ready) settled (record p { report = report })
    resolve_rounds check_spares consume entries raws res' p'
  resolve_rounds check_spares consume _ _ res p = ok (res, p)

  unfoldable pub resolved : Bool → Consumer → Progress → Result Progress
  unfolding resolve_rounds give_up slots
  resolved check_spares consume p = do
    (res, p') ←
        resolve_rounds check_spares consume (schedule r.blocks r.layout.interleave) (slots r)
          nothing_resolved p
    give_up consume (r.blocks - res.next_index) res.next_index p'

  -- what `_pass` makes of its report behind the last block
  unfoldable pub final_check : Progress → StreamRepairReport
  final_check p = elim r.trailer [
    | none ↦ p.report
    | some trailer ↦
        if not (is_empty p.report.failed_blocks)
        then p.report
        else if equal_rows (c.digest p.tags) trailer.blocks_digest
        then record p.report { unverified_blocks = [] }
        else if not (is_empty p.report.unverified_blocks)
        then record p.report {
          failed_blocks = p.report.failed_blocks ++ p.report.unverified_blocks;
          unverified_blocks = [];
        }
        else record p.report { problems = p.report.problems ++ digest_differs ∷ [] }
  ]

  unfoldable pub run_pass : Bool → Consumer → Result Progress
  unfolding resolved final_check
  run_pass check_spares consume = do
    p ← resolved check_spares consume (start_of r)
    ok (record p { report = final_check p })

  -- the ciphertext of a block
  unfoldable pub ciphertext_of : Block → List ℕ
  ciphertext_of block = slice descriptor_size (descriptor_size + block.chunk_len) block.data_bytes

  -- the body of the loop of `chunks`
  unfoldable pub take_chunk : Consumer
  take_chunk index none p = err corruption_error
  take_chunk index (some block) p = elim (c.decrypt index (ciphertext_of block) (is_last r index)) [
    | none ↦ err corruption_error
    | some plaintext ↦ ok (record p {
      report = discard_unverified index p.report;
      plaintext = p.plaintext ++ plaintext;
    })
  ]

  -- the chunks joined, with the report
  unfoldable pub chunks : Bool → Result (List ℕ × StreamRepairReport)
  unfolding run_pass take_chunk
  chunks check_spares = if not r.keyed then err container_error else (do
    p ← run_pass check_spares take_chunk
    if is_ok p.report then ok (p.plaintext, p.report) else err corruption_error)

  -- the body of the loop of `verify`
  unfoldable pub check_chunk : Consumer
  check_chunk index none p = ok p
  check_chunk index (some block) p =
      if not r.keyed then ok p else elim (c.decrypt index (ciphertext_of block) (is_last r index)) [
        | none ↦ ok (record p { report = fail_block index p.report })
        | some plaintext ↦ ok (record p { report = discard_unverified index p.report })
      ]

  unfoldable pub verify : Result StreamRepairReport
  unfolding run_pass check_chunk
  verify = do p ← run_pass true check_chunk; ok p.report
