-- ===== src/Container/Stream/Reader/Vouch.antt =====
-- What stands behind a repaired block (`_clean` and `_repair`, dbs/container/stream.py).
use mathlib.Core.Path.{subst}
use dbs.Prelude.{
  Bool, Bool-cases, List, Option, Option-cases, [], arith, drop, false, inl, inr, length, map, none,
  refl, some, sym, take, true, ℕ, ◌++◌, ◌+◌, ◌==◌, ◌||◌, ◌∷◌, ◌≡◌, ◌⊎◌,
}
use dbs.Container.Rs.Decode.{equal_rows, strip_parity}
use dbs.Container.Rs.Encode.{encode}
use dbs.Container.Rs.Repair.{Repaired, repair_from_copies}
use dbs.Container.Rs.RoundTrip.{equal_rows_refl}
use dbs.Container.Stream.Layout.{encoded_size, slot_size}
use dbs.Container.Stream.Reader.{
  Block, Checks, Reader, StreamRepairReport, accept, agree, chunk_len_of, clean, copies_of,
  count_repair, elem_bytes, has_label, rebuild, repair,
}
use dbs.Container.Stream.Reader.Pass.{contains}
use dbs.Result.{Ensures, Ensures-ok, Ensures-trivial, Result, bind-Ensures, err, ok}

-- the stored tags of the copies of a block that were read
abbrev pub stored_tags : Reader → Option (List ℕ) → Option (List ℕ) → List (List ℕ)
stored_tags r first second =
    map (drop (encoded_size r.layout)) (map (λ labelled. labelled.1) (copies_of first second))

-- The block's tag is that of an encoding of its data.
abbrev pub IsTagged : Checks → Reader → Block → Type 0
IsTagged c r block =
    (encoded : List ℕ) × (equal_rows (c.slot_tag encoded) block.tag ≡ true)
    × ((strip_parity encoded r.layout.nsym ≡ some block.data_bytes)
        ⊎ (encode block.data_bytes r.layout.nsym ≡ ok encoded))

-- The block is fit to be block `index`, its tag is that of its data, and its tag is among the stored ones or else the report
-- counts the block as unverified.
abbrev pub Vouched :
    Checks → Reader → ℕ → List (List ℕ) → Option Block × StreamRepairReport → Type 0
Vouched c r index stored (none, report) = Unit
Vouched c r index stored (some block, report) =
    (chunk_len_of r block.data_bytes index ≡ some block.chunk_len)
    × IsTagged c r block
    × ((elem_bytes block.tag stored ≡ true) ⊎ (contains index report.unverified_blocks ≡ true))

contains-append_one : (index : ℕ) (ks : List ℕ) → contains index (ks ++ index ∷ []) ≡ true
unfolding contains
contains-append_one index [] = ground arith
contains-append_one index (k ∷ ks) = ground (arith, contains-append_one index ks)

Ensures-self {ℓ} : {A : Type ℓ} (m : Result A) → Ensures (Unit {ℓ}) (λ a. m ≡ ok a) m
Ensures-self (ok a) = refl
Ensures-self (err e) = tt

module _ (c : Checks) (r : Reader) (index : ℕ) where
  unverified-count_repair :
      (from_a from_b decoded : Bool) (report : StreamRepairReport)
      → (count_repair from_a from_b decoded report).unverified_blocks ≡ report.unverified_blocks
  unfolding count_repair
  unverified-count_repair true true decoded report = refl
  unverified-count_repair true false decoded report = refl
  unverified-count_repair false true decoded report = refl
  unverified-count_repair false false decoded report = refl

  accept-Vouched :
      (stored : List (List ℕ)) (labels : List Bool) (repaired : Repaired) (block : Block)
      (report : StreamRepairReport)
      → chunk_len_of r block.data_bytes index ≡ some block.chunk_len
      → IsTagged c r block
      → Vouched c r index stored (accept c index stored labels repaired block report)
  unfolding accept
  accept-Vouched stored labels repaired block report fit tagged =
      elim (Bool-cases (elem_bytes block.tag stored)) [
        | inl verified ↦ rw verified (fit, tagged, inl verified)
        | inr missing ↦ elim (Bool-cases (repaired.decoded || agree stored)) [
          | inl doubtful ↦ rw (missing, doubtful) tt
          | inr plausible ↦
              rw (missing, plausible)
                (
                  fit,
                  tagged,
                  inr (
                      rw
                        (unverified-count_repair (has_label false labels repaired.used)
                          (has_label true labels repaired.used) repaired.decoded _)
                        (contains-append_one index report.unverified_blocks)),
                )
        ]
      ]

  Clean : List ℕ → Option Block → Type 0
  Clean raw none = Unit
  Clean raw (some block) =
      (chunk_len_of r block.data_bytes index ≡ some block.chunk_len)
      × (block.tag ≡ drop (encoded_size r.layout) raw)
      × IsTagged c r block

  clean-Clean : (raw : List ℕ) → Clean raw (clean c r raw index)
  unfolding clean Clean
  clean-Clean raw = elim (Bool-cases (length raw == slot_size r.layout)) [
    | inr short ↦ rw short tt
    | inl whole ↦ elim (Bool-cases (equal_rows (c.slot_tag encoded) tag)) [
      | inr other ↦ rw (whole, other) tt
      | inl same ↦ elim (Option-cases (strip_parity encoded r.layout.nsym)) [
        | inl torn ↦ rw (whole, same, torn, clean) tt
        | inr (block, stripped) ↦ elim (Option-cases (chunk_len_of r block index)) [
          | inl unfit ↦ rw (whole, same, stripped, clean, unfit) tt
          | inr (chunk_len, fit) ↦
              rw (whole, same, stripped, clean, fit) (fit, refl, (encoded, same, inl stripped))
        ]
      ]
    ]
  ]
    where
      encoded : List ℕ
      encoded = take (encoded_size r.layout) raw

      tag : List ℕ
      tag = drop (encoded_size r.layout) raw

  elem_bytes_last :
      (tag : List ℕ) (stored : List (List ℕ)) → elem_bytes tag (stored ++ tag ∷ []) ≡ true
  unfolding elem_bytes
  elem_bytes_last tag [] = rw (equal_rows_refl tag) refl
  elem_bytes_last tag (s ∷ stored) = ground (arith, elem_bytes_last tag stored)

  rebuild-Vouched :
      (copies : List (Bool × List ℕ)) (report : StreamRepairReport)
      → Ensures
          (Unit {0})
          (Vouched c r index
            (map (drop (encoded_size r.layout)) (map (λ labelled. labelled.1) copies)))
          (rebuild c r index copies report)
  unfolding rebuild
  rebuild-Vouched [] report = tt
  rebuild-Vouched (copy ∷ copies) report =
      let stored =
        map (drop (encoded_size r.layout)) (map (λ labelled. labelled.1) (copy ∷ copies)) in
      let P : Option Block × StreamRepairReport → Type 0 = Vouched c r index stored in
      bind-Ensures (Unit {0}) (λ repaired. Unit {0}) P
        (repair_from_copies c.codec
          (map (take (encoded_size r.layout)) (map (λ labelled. labelled.1) (copy ∷ copies)))
          r.layout.nsym)
        _ (Ensures-trivial _)
        (λ repaired u. elim (Option-cases repaired.block) [
          | inl absent ↦ rw (absent, rebuild) tt
          | inr (block, found) ↦ elim (Option-cases (chunk_len_of r block index)) [
            | inl unfit ↦ rw (found, unfit, rebuild) tt
            | inr (chunk_len, fit) ↦
                rw (found, fit, rebuild)
                  (bind-Ensures (Unit {0}) (λ encoded. encode block r.layout.nsym ≡ ok encoded) P
                    (encode block r.layout.nsym) _ (Ensures-self (encode block r.layout.nsym))
                    (λ encoded made.
                      accept-Vouched stored _ _ _ report fit
                        (encoded, equal_rows_refl (c.slot_tag encoded), inr made)))
          ]
        ])

  clean-Vouched :
      (first : Option (List ℕ)) (second : List ℕ) (block : Block) (report : StreamRepairReport)
      → clean c r second index ≡ some block
      → Vouched c r index (stored_tags r first (some second)) (some block, report)
  unfolding copies_of Clean
  clean-Vouched first second block report e =
      let found = subst (Clean second) e (clean-Clean second) in
      (
        found.0,
        found.2,
        inl (
            subst (λ t. elem_bytes t (stored_tags r first (some second)) ≡ true) (sym found.1)
              (last first)),
      )
    where
      last :
          (first : Option (List ℕ))
          → elem_bytes (drop (encoded_size r.layout) second) (stored_tags r first (some second))
            ≡ true
      last none = elem_bytes_last (drop (encoded_size r.layout) second) []
      last (some a) =
          elem_bytes_last (drop (encoded_size r.layout) second)
            (drop (encoded_size r.layout) a ∷ [])

  repair-Ensures :
      (first second : Option (List ℕ)) (report : StreamRepairReport)
      → Ensures
          (Unit {0})
          (Vouched c r index (stored_tags r first second))
          (repair c r index first second report)
  unfolding repair
  repair-Ensures first none report = rebuild-Vouched (copies_of first none) report
  repair-Ensures first (some second) report = elim (Option-cases (clean c r second index)) [
    | inl bad ↦ rw (bad, repair) (rebuild-Vouched (copies_of first (some second)) report)
    | inr (block, good) ↦
        rw (good, repair)
          (clean-Vouched first second block
            (record report { blocks_used_b = report.blocks_used_b + 1 }) good)
  ]

-- A block that `_repair` gives back is fit to be the block of that number; its tag is the keyed tag
-- of an encoding of its data, from which the data is stripped or which `encode` makes of it; and
-- that tag is stored with one of the block's copies, or else the report counts the block as
-- unverified.
pub repair-Vouched :
    (c : Checks) (r : Reader) (index : ℕ) (first second : Option (List ℕ))
    (report report' : StreamRepairReport) (block : Block)
    → repair c r index first second report ≡ ok (some block, report')
    → (chunk_len_of r block.data_bytes index ≡ some block.chunk_len)
      × IsTagged c r block
      × ((elem_bytes block.tag (stored_tags r first second) ≡ true)
          ⊎ (contains index report'.unverified_blocks ≡ true))
repair-Vouched c r index first second report report' block e =
    Ensures-ok (Unit {0}) (Vouched c r index (stored_tags r first second))
      (repair c r index first second report) (repair-Ensures c r index first second report) e
