-- ===== src/Examples/Readers.antt =====
-- Concrete runs of the reader of the streamed container, and of the repair of version 1 blocks.
use mathlib.Core.List.{flatten}
use dbs.Prelude.{
  splice, List, [], arith, drop, false, length, none, refl, replicate, some, take, true, ℕ, ◌++◌,
  ◌+◌, ◌==◌, ◌∷◌, ◌≡◌, ◌⊎◌,
}
use dbs.Bytes.{from_bytes}
use dbs.Container.Blocks.{
  BlockPlan, RepairReport, cut_copies, decode_block, entries_of, first_intact, note_block,
  rebuild_from_both, repair_copies, repair_entries, report_ok, sources_of, when_hash,
}
use dbs.Container.Blocks.Verified.{AllMatch, plan_entries, repair_copies-AllMatch}
use dbs.Container.Rs.Decode.{
  codeword, decode_codeword, split, tail_of, equal_rows, strip_parity, whole_codewords,
}
use dbs.Container.Rs.Repair.{
  repair_from_copies, same_length, masks_of, repair_rounds, add_source, decode_any, decode_erased,
  differing, first_consistent, first_decoded, matches,
}
use dbs.Container.Rs.Parity.{
  parity, check_nsym, column, parity_batches, parity_rounds, parity_rows, xor_row, xor_rows,
}
use dbs.Container.Rs.Encode.{
  all_rows, encode, encode_block, encode_many, encode_rounds, join_rows, message_rows,
}
use dbs.Container.Rs.Field.{exp_at, field_tables, log_at, multiply}
use dbs.Container.Rs.Table.{
  generator, next_remainder, parity_table, position_remainders, remainder_rounds, row_width,
  shift_row, table_entry,
}
use dbs.Container.Rs.Sizes.{codeword_count, encoded_length, is_well_formed, message_length}
use dbs.Container.Stream.Layout.{StreamLayout, encoded_size, header_size, max_chunk_len, slot_size}
use dbs.Container.Stream.Reader.{
  rebuild, copies_of, accept, agree, count_repair, has_label, Block, Checks, Reader,
  StreamRepairReport, chunk_len_of, clean, elem_bytes, fresh_report, is_ok, repair,
}
use dbs.Container.Stream.Reader.Ends.{count_at}
use dbs.Container.Stream.Reader.Pass.{
  Progress, advance, check_chunk, chunks, ciphertext_of, contains, deliver, discard_unverified,
  final_check, first_slot, give_up, read_at, remove_first, resolve_rounds, resolved, run_pass,
  second_slot, settle, slots, slots_from, spare_intact, take_chunk, verify,
}
use dbs.Container.Stream.Reader.Read.{AllOpened, chunks-AllOpened}
use dbs.Container.Stream.Reader.Scan.{count_at-IsPlaced}
use dbs.Container.Stream.Reader.Total.{upto, verify-upto}
use dbs.Container.Stream.Reader.Vouch.{IsTagged, repair-Vouched, stored_tags}
use dbs.Container.Stream.Schedule.{Placed, first_copy_position, schedule, schedule_rounds}
use dbs.Dict.{erase, find, insert}
use dbs.Result.{ok}

abbrev tiny_layout : StreamLayout
tiny_layout = record { block_size = 40; nsym = 2; interleave = 2 }

abbrev zero_tag : List ℕ → List ℕ
zero_tag = λ encoded. replicate 16 0

-- A cipher that gives the first four bytes, and a decoder that gives up.
abbrev plain_checks : Checks
plain_checks = record {
  codec = λ nsym encoded erasures. none;
  slot_tag = zero_tag;
  digest = λ tags. replicate 32 0;
  decrypt = λ index ciphertext final. some (take 4 ciphertext);
}

-- The only block: number 0, a chunk of 20 bytes, the final flag.
abbrev only_slot : List ℕ
only_slot = replicate 11 0 ++ (20 ∷ 1 ∷ replicate 45 0)

abbrev only_reader : Reader
only_reader = record {
  source = replicate header_size 0 ++ (only_slot ++ only_slot);
  keyed = true;
  layout = tiny_layout;
  trailer = none;
  blocks = 1;
  metadata_damaged = [];
}

abbrev direct_report : StreamRepairReport
direct_report = record {
  total_blocks = 1;
  blocks_direct = 1;
  blocks_rs_corrected = 0;
  blocks_used_b = 0;
  blocks_merged = 0;
  copies_available = 2;
  failed_blocks = [];
  spares_damaged = [];
  metadata_damaged = [];
  unverified_blocks = [];
  problems = [];
}

only_chunks : chunks plain_checks only_reader true ≡ ok (replicate 4 0, direct_report)
unfolding chunks run_pass resolved resolve_rounds settle first_slot second_slot spare_intact clean
    chunk_len_of strip_parity is_well_formed whole_codewords encoded_size encoded_length slot_size
    max_chunk_len codeword_count message_length slots slots_from read_at schedule schedule_rounds
    insert find erase advance deliver give_up take_chunk ciphertext_of discard_unverified
    remove_first final_check fresh_report is_ok from_bytes equal_rows flatten
only_chunks = refl

chunks-AllOpened_example :
    ((pieces : List (List ℕ)) × (length pieces ≡ 1)
      × (replicate 4 0 ≡ flatten pieces)
      × AllOpened plain_checks only_reader 0 pieces)
    × (is_ok direct_report ≡ true)
chunks-AllOpened_example =
    chunks-AllOpened plain_checks only_reader true (replicate 4 0) direct_report only_chunks

verify-upto_example :
    (p : Progress) × (run_pass plain_checks only_reader true (check_chunk plain_checks only_reader)
      ≡ ok p)
    × (verify plain_checks only_reader ≡ ok p.report)
    × (p.yielded ≡ upto 1)
verify-upto_example = verify-upto plain_checks only_reader (omega arith, omega arith)

abbrev only_block : Block
only_block = record {
  data_bytes = replicate 11 0 ++ (20 ∷ 1 ∷ replicate 27 0);
  chunk_len = 20;
  tag = 20 ∷ 1 ∷ replicate 14 0;
}

-- A tag that shows a part of what it vouches for.
abbrev tagged_checks : Checks
tagged_checks = record plain_checks { slot_tag = λ encoded. take 16 (drop 11 encoded) }

-- The first copy of a block with its parity and tag, and the second copy with a byte that changed.
abbrev first_copy : List ℕ
first_copy = only_block.data_bytes ++ (82 ∷ 71 ∷ only_block.tag)

abbrev second_copy : List ℕ
second_copy = 9 ∷ drop 1 first_copy

abbrev corrected_report : StreamRepairReport
corrected_report = record direct_report { blocks_direct = 0; blocks_rs_corrected = 1 }

only_repair :
    repair tagged_checks only_reader 0
      (some first_copy)
      (some second_copy)
      (record direct_report { blocks_direct = 0 })
    ≡ ok (some only_block, corrected_report)
unfolding repair clean slot_size encoded_length equal_rows strip_parity is_well_formed chunk_len_of
    flatten whole_codewords from_bytes rebuild copies_of repair_from_copies same_length masks_of
    parity repair_rounds codeword decode_codeword split tail_of all_rows encode encode_block
    encode_many encode_rounds join_rows message_rows exp_at field_tables log_at multiply check_nsym
    column parity_batches parity_rounds parity_rows xor_row xor_rows add_source decode_any
    decode_erased differing first_consistent first_decoded matches codeword_count message_length
    generator next_remainder parity_table position_remainders remainder_rounds row_width shift_row
    table_entry encoded_size max_chunk_len accept agree count_repair elem_bytes has_label splice
only_repair = refl

repair-Vouched_example :
    (chunk_len_of only_reader only_block.data_bytes 0 ≡ some 20)
    × IsTagged tagged_checks only_reader only_block
    × ((elem_bytes only_block.tag (stored_tags only_reader (some first_copy) (some second_copy))
          ≡ true)
        ⊎ (contains 0 [] ≡ true))
repair-Vouched_example =
    repair-Vouched tagged_checks only_reader 0 (some first_copy) (some second_copy)
      (record direct_report { blocks_direct = 0 }) corrected_report only_block only_repair

-- Past the end of five blocks, the place of the sixth holds the second copy of the fourth.
abbrev late_copy : Placed
late_copy = record { position = 8; index = 3; first = false }

late_place : late_copy.position ≡ first_copy_position 5 2
unfolding first_copy_position
late_place = refl

count_at-IsPlaced_example : count_at 2 5 8 3 (3 + 1 == 5) ≡ some 5
count_at-IsPlaced_example =
    count_at-IsPlaced 5 2 5 late_copy (omega arith) (omega arith, refl) late_place

-- One block of two bytes, with a hash that is the bytes themselves.
abbrev one_plan : BlockPlan
one_plan = record {
  nsym = 2;
  ciphertext_len = 2;
  enc_lens = 4 ∷ [];
  enc_hashes = (7 ∷ 8 ∷ 1 ∷ 1 ∷ []) ∷ [];
  data_hashes = (7 ∷ 8 ∷ []) ∷ [];
}

abbrev same_bytes : List ℕ → List ℕ
same_bytes = λ bytes. bytes

abbrev one_report : RepairReport
one_report = record {
  total_blocks = 1;
  blocks_direct = 1;
  blocks_rs_corrected = 0;
  blocks_used_b = 0;
  blocks_merged = 0;
  copies_available = 1;
  failed_blocks = [];
}

one_repair :
    repair_copies same_bytes (plain_checks.codec) (some (7 ∷ 8 ∷ 1 ∷ 1 ∷ [])) none one_plan
    ≡ ok (some (7 ∷ 8 ∷ []), one_report)
unfolding repair_copies repair_entries entries_of sources_of cut_copies first_intact decode_block
    when_hash strip_parity is_well_formed whole_codewords message_length note_block report_ok
    equal_rows flatten rebuild_from_both
one_repair = refl

repair_copies-AllMatch_example :
    (blocks : List (List ℕ)) × (7 ∷ 8 ∷ [] ≡ take 2 (flatten blocks))
    × AllMatch same_bytes plain_checks.codec (plan_entries one_plan) blocks
repair_copies-AllMatch_example =
    repair_copies-AllMatch same_bytes plain_checks.codec (some (7 ∷ 8 ∷ 1 ∷ 1 ∷ [])) none one_plan
      (7 ∷ 8 ∷ []) one_report one_repair
