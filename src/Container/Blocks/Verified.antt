-- ===== src/Container/Blocks/Verified.antt =====
-- What `repair_copies` gives back, and what it counts (dbs/container/blocks.py).
use mathlib.Core.List.{flatten}
use mathlib.Core.Path.{subst}
use dbs.Prelude.{
  Bool, Bool-cases, List, Option, Option-cases, [], arith, false, inl, inr, leb, length,
  length-append, map, none, not, refl, some, take, true, ℕ, ◌&&◌, ◌++◌, ◌+◌, ◌==◌, ◌∷◌, ◌≡◌,
}
use dbs.Container.Blocks.{
  Chosen, PlanEntry, RepairReport, decode_block, first_intact, no_failure, note_block,
  rebuild_from_both, when_hash, BlockPlan, cut_copies, entries_of, repair_copies, repair_entries,
  report_ok, sources_of,
}
use dbs.Container.Rs.Decode.{Codec, decode, equal_rows, strip_parity}
use dbs.Container.Rs.Sizes.{max_nsym, min_nsym}
use dbs.Container.Stream.Reader.Pass.{chunks}
use dbs.Result.{Ensures, Ensures-trivial, Result, bind-Ensures, if-Ensures, ok, Ensures-ok}

module _ (hash : List ℕ → List ℕ) (codec : Codec) where
  abbrev Matches : List ℕ → Option (List ℕ) → Type 0
  Matches data_hash none = Unit
  Matches data_hash (some block) = equal_rows (hash block) data_hash ≡ true

  abbrev ChosenMatches : List ℕ → Option Chosen → Type 0
  ChosenMatches data_hash none = Unit
  ChosenMatches data_hash (some chosen) = equal_rows (hash chosen.block) data_hash ≡ true

  when_hash-Matches :
      (data_hash : List ℕ) (found : Option (List ℕ))
      → Matches data_hash (when_hash hash codec data_hash found)
  unfolding when_hash
  when_hash-Matches data_hash none = tt
  when_hash-Matches data_hash (some block) = elim (Bool-cases (equal_rows (hash block) data_hash)) [
    | inl same ↦ rw same same
    | inr other ↦ rw other tt
  ]

  decode_block-Matches :
      (nsym : ℕ) (encoded data_hash : List ℕ)
      → Ensures (Unit {0}) (Matches data_hash) (decode_block hash codec nsym encoded data_hash)
  unfolding decode_block
  decode_block-Matches nsym encoded data_hash =
      if-Ensures {A = Option (List ℕ)} (Unit {0}) (Matches data_hash)
        (not (leb min_nsym nsym && leb nsym max_nsym)) _ _
        (when_hash-Matches data_hash (codec nsym encoded []))
        (elim (Option-cases (when_hash hash codec data_hash (strip_parity encoded nsym))) [
          | inl torn ↦
              rw (torn, decode_block)
                (bind-Ensures (Unit {0}) (λ block. Unit {0}) (Matches data_hash)
                  (decode codec encoded nsym) _ (Ensures-trivial (decode codec encoded nsym))
                  (λ block u. when_hash-Matches data_hash block))
          | inr (block, whole) ↦
              rw (whole, decode_block)
                (subst (Matches data_hash) whole
                  (when_hash-Matches data_hash (strip_parity encoded nsym)))
        ])

  first_intact-Matches :
      (nsym : ℕ) (e : PlanEntry) (copies : List (Bool × List ℕ))
      → Ensures (Unit {0}) (ChosenMatches e.data_hash) (first_intact hash codec nsym e copies)
  unfolding first_intact
  first_intact-Matches nsym e [] = tt
  first_intact-Matches nsym e ((label, encoded) ∷ copies) =
      bind-Ensures (Unit {0}) (Matches e.data_hash) (ChosenMatches e.data_hash)
        (decode_block hash codec nsym encoded e.data_hash) _
        (decode_block-Matches nsym encoded e.data_hash)
        (λ found m.
          elim found
              as (λ found.
                Matches e.data_hash found
                → Ensures (Unit {0}) (ChosenMatches e.data_hash)
                    (elim found as (λ x. Result (Option Chosen)) [
                      | none ↦ first_intact hash codec nsym e copies
                      | some block ↦ ok (
                          some (record {
                            block = block;
                            used_b = label;
                            needed_rs = not (equal_rows (hash encoded) e.enc_hash);
                          }))
                    ])) [
                      | none ↦ λ u. first_intact-Matches nsym e copies
                      | some block ↦ λ same. same
                    ]
            m)

  rebuild_from_both-Matches :
      (nsym : ℕ) (encoded : List (List ℕ)) (data_hash : List ℕ)
      → Matches data_hash (rebuild_from_both hash codec nsym encoded data_hash)
  unfolding rebuild_from_both
  rebuild_from_both-Matches nsym [] data_hash = tt
  rebuild_from_both-Matches nsym (first ∷ []) data_hash = tt
  rebuild_from_both-Matches nsym (first ∷ second ∷ third ∷ encoded) data_hash = tt
  rebuild_from_both-Matches nsym (first ∷ second ∷ []) data_hash =
      elim (Bool-cases (length first == length second)) [
        | inl even ↦ rw even (when_hash-Matches data_hash _)
        | inr odd ↦ rw odd tt
      ]

  -- Each chunk has the hash that the plan records for it.
  abbrev pub AllMatch : List PlanEntry → List (List ℕ) → Type 0
  AllMatch [] chunks = chunks ≡ []
  AllMatch (e ∷ entries) [] = ⊥
  AllMatch (e ∷ entries) (chunk ∷ chunks) =
      (equal_rows (hash chunk) e.data_hash ≡ true) × AllMatch entries chunks

  -- the blocks that a report accounts for
  abbrev pub tally : RepairReport → ℕ
  tally report =
      report.blocks_direct
      + report.blocks_rs_corrected
      + report.blocks_merged
      + length report.failed_blocks

  -- What one block does to the report.
  abbrev Noted : List ℕ → RepairReport → List ℕ × RepairReport → Type 0
  Noted data_hash report (chunk, noted) =
      (tally noted ≡ tally report + 1)
      × (no_failure noted.failed_blocks ≡ true
          → (equal_rows (hash chunk) data_hash ≡ true) × (no_failure report.failed_blocks ≡ true))

  no_failure-append_one :
      (indices : List ℕ) (index : ℕ) → no_failure (indices ++ index ∷ []) ≡ false
  no_failure-append_one [] index = refl
  no_failure-append_one (i ∷ indices) index = refl

  note_block-Noted :
      (index : ℕ) (data_hash : List ℕ) (chosen : Option Chosen) (merged : Option (List ℕ))
      (report : RepairReport)
      → ChosenMatches data_hash chosen
      → Matches data_hash merged
      → Noted data_hash report (note_block hash codec index chosen merged report)
  unfolding note_block
  note_block-Noted index data_hash (some chosen) merged report h k =
      elim (Bool-cases chosen.needed_rs) [
        | inl corrected ↦ rw (corrected, note_block) (omega arith, λ fine. (h, fine))
        | inr direct ↦ rw (direct, note_block) (omega arith, λ fine. (h, fine))
      ]
  note_block-Noted index data_hash none (some block) report h k = (omega arith, λ fine. (k, fine))
  note_block-Noted index data_hash none none report h k = (
    omega (arith, length-append report.failed_blocks (index ∷ [])),
    λ fine. absurd (cc (fine, no_failure-append_one report.failed_blocks index)),
  )

  -- What the loop over the entries does.
  abbrev Repaired : List PlanEntry → RepairReport → List (List ℕ) × RepairReport → Type 0
  Repaired entries report (chunks, after) =
      (tally after ≡ tally report + length entries)
      × (no_failure after.failed_blocks ≡ true
          → AllMatch entries chunks × (no_failure report.failed_blocks ≡ true))

  repair_entries-Repaired :
      (nsym : ℕ) (sources : List (Bool × List ℕ)) (index offset : ℕ) (entries : List PlanEntry)
      (report : RepairReport)
      → Ensures
          (Unit {0})
          (Repaired entries report)
          (repair_entries hash codec nsym sources index offset entries report)
  unfolding repair_entries
  repair_entries-Repaired nsym sources index offset [] report = (omega arith, λ fine. (refl, fine))
  repair_entries-Repaired nsym sources index offset (e ∷ entries) report =
      let copies = cut_copies hash codec offset e.enc_len sources in
      let merged = rebuild_from_both hash codec nsym (map (λ copy. copy.1) copies) e.data_hash in
      bind-Ensures (Unit {0}) (ChosenMatches e.data_hash) (Repaired (e ∷ entries) report)
        (first_intact hash codec nsym e copies) _ (first_intact-Matches nsym e copies)
        (λ chosen h.
          let noted = note_block hash codec index chosen merged report in
          let n : Noted e.data_hash report noted =
            note_block-Noted index e.data_hash chosen merged report h
              (rebuild_from_both-Matches nsym (map (λ copy. copy.1) copies) e.data_hash) in
          bind-Ensures (Unit {0}) (Repaired entries noted.1) (Repaired (e ∷ entries) report)
            (repair_entries hash codec nsym sources (index + 1) (offset + e.enc_len) entries
              noted.1)
            _
            (repair_entries-Repaired nsym sources (index + 1) (offset + e.enc_len) entries noted.1)
            (λ (chunks, after) (t, m). (
              omega (arith, n.0, t),
              λ fine.
                  let (found, earlier) = m fine in
                  let (same, before) = n.1 earlier in ((same, found), before),
            )))

-- The entries of a plan.
abbrev pub plan_entries : BlockPlan → List PlanEntry
plan_entries plan = entries_of plan.enc_lens plan.enc_hashes plan.data_hashes

abbrev Outcome : (List ℕ → List ℕ) → Codec → BlockPlan → Option (List ℕ) × RepairReport → Type 0
Outcome hash codec plan (none, report) =
    (tally hash codec report ≡ length (plan_entries plan)) × Unit {0}
Outcome hash codec plan (some ciphertext, report) =
    (tally hash codec report ≡ length (plan_entries plan))
    × ((chunks : List (List ℕ)) × (ciphertext ≡ take plan.ciphertext_len (flatten chunks))
        × AllMatch hash codec (plan_entries plan) chunks)

repair_copies-Outcome :
    (hash : List ℕ → List ℕ) (codec : Codec) (copy_a copy_b : Option (List ℕ)) (plan : BlockPlan)
    → Ensures (Unit {0}) (Outcome hash codec plan) (repair_copies hash codec copy_a copy_b plan)
unfolding repair_copies report_ok
repair_copies-Outcome hash codec copy_a copy_b plan =
    let fresh : RepairReport = record {
      total_blocks = length plan.enc_lens;
      blocks_direct = 0;
      blocks_rs_corrected = 0;
      blocks_used_b = 0;
      blocks_merged = 0;
      copies_available = length (sources_of copy_a copy_b);
      failed_blocks = [];
    } in
    bind-Ensures (Unit {0}) (Repaired hash codec (plan_entries plan) fresh)
      (Outcome hash codec plan)
      (repair_entries hash codec plan.nsym (sources_of copy_a copy_b) 0 0 (plan_entries plan) fresh)
      _
      (repair_entries-Repaired hash codec plan.nsym (sources_of copy_a copy_b) 0 0
        (plan_entries plan) fresh)
      (λ (chunks, report) (t, m). elim (Bool-cases (no_failure report.failed_blocks)) [
        | inl fine ↦ rw fine (omega (arith, t), (chunks, refl, (m fine).0))
        | inr bad ↦ rw bad (omega (arith, t), tt)
      ])

-- What `repair_copies` returns as the ciphertext is the beginning, up to the recorded length, of
-- one chunk for each entry of the plan, and each chunk has the hash that its entry records.
pub repair_copies-AllMatch :
    (hash : List ℕ → List ℕ) (codec : Codec) (copy_a copy_b : Option (List ℕ)) (plan : BlockPlan)
    (ciphertext : List ℕ) (report : RepairReport)
    → repair_copies hash codec copy_a copy_b plan ≡ ok (some ciphertext, report)
    → (chunks : List (List ℕ)) × (ciphertext ≡ take plan.ciphertext_len (flatten chunks))
      × AllMatch hash codec (plan_entries plan) chunks
repair_copies-AllMatch hash codec copy_a copy_b plan ciphertext report e =
    (Ensures-ok (Unit {0}) (Outcome hash codec plan) (repair_copies hash codec copy_a copy_b plan)
      (repair_copies-Outcome hash codec copy_a copy_b plan) e).1

-- The report of `repair_copies` accounts for each block of the plan once: as intact, as corrected,
-- as merged or as failed.
tally-repair_copies :
    (hash : List ℕ → List ℕ) (codec : Codec) (copy_a copy_b : Option (List ℕ)) (plan : BlockPlan)
    (ciphertext : Option (List ℕ)) (report : RepairReport)
    → repair_copies hash codec copy_a copy_b plan ≡ ok (ciphertext, report)
    → report.blocks_direct
        + report.blocks_rs_corrected
        + report.blocks_merged
        + length report.failed_blocks
      ≡ length (plan_entries plan)
tally-repair_copies hash codec copy_a copy_b plan ciphertext report e = counted ciphertext (
    Ensures-ok (Unit {0}) (Outcome hash codec plan) (repair_copies hash codec copy_a copy_b plan)
      (repair_copies-Outcome hash codec copy_a copy_b plan) e)
  where
    counted :
        (found : Option (List ℕ))
        → Outcome hash codec plan (found, report)
        → tally hash codec report ≡ length (plan_entries plan)
    counted none o = o.0
    counted (some text) o = o.0
