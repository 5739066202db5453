-- ===== src/Container/Stream/Reader/Scan.antt =====
-- What the scan for the number of blocks finds (`_scan_block_count`, dbs/container/stream.py).
use native.Mathlib.Nat.{mul-le-mul_left}
use dbs.Prelude.{
  Bool, Bool-cases, List, Option, [], ap, ap₂, arith, false, if◌then◌else◌, inl, inr, leb, length,
  map, min, none, not, refl, some, suc, sym, true, zero, ℕ, ◌&&◌, ◌*◌, ◌+◌, ◌-◌, ◌<◌, ◌==◌, ◌∙◌,
  ◌∷◌, ◌≡◌, ◌≤◌, ◌⊎◌,
}
use dbs.Container.Stream.Layout.{header_size, slot_size}
use dbs.Container.Stream.Reader.{Checks, Reader, is_empty}
use dbs.Container.Stream.Reader.Ends.{
  Candidate, count_at, after_batch, batch_from, find_count, first_descriptors, scan_batch_blocks,
  scan_rounds, scan_block_count,
}
use dbs.Container.Stream.Schedule.{IsPlaced, Placed, first_copy_position, second_copy_position}
use dbs.Container.Stream.Trailer.{max_blocks}
use dbs.Result.{◌>>=◌, Result, Ensures, bind-Ensures, Ensures-ok, ok}

first_copy_position-injective :
    (i j interleave : ℕ)
    → first_copy_position i interleave ≡ first_copy_position j interleave
    → i ≡ j
unfolding first_copy_position
first_copy_position-injective i j interleave e = ground (arith, e)

-- A second copy that stands where a first copy would is past the last block, by less than the
-- interleave.
second_copy_past_end :
    (blocks i j interleave : ℕ)
    → i < blocks
    → second_copy_position blocks i interleave ≡ first_copy_position j interleave
    → (blocks ≤ j) × (blocks ≤ i + interleave)
unfolding first_copy_position
second_copy_past_end blocks i j interleave l e = (ground (arith, e), ground (arith, e))

count_at-first :
    (blocks interleave candidate position index : ℕ)
    → index ≡ candidate
    → count_at interleave candidate position index (index + 1 == blocks)
      ≡ (if not (index + 1 == blocks) then none else some blocks)
unfolding count_at
count_at-first blocks interleave candidate position index same = ground (arith, same)

count_at-second :
    (blocks interleave candidate position found : ℕ) (final : Bool)
    → found < blocks
    → blocks ≤ candidate
    → blocks ≤ found + interleave
    → position ≡ blocks + found
    → count_at interleave candidate position found final ≡ some blocks
unfolding count_at
count_at-second blocks interleave candidate position found final l c f p =
    let z : position - found ≡ blocks = omega (arith, p) in rw z (ground arith)

-- Wherever the first copy of a candidate would stand, a container of `blocks` blocks has the first
-- copy of that block, which gives the count if it is the last one, or past the last block a
-- second copy, whose number gives the count.
pub count_at-IsPlaced :
    (blocks interleave candidate : ℕ) (e : Placed)
    → 1 ≤ interleave
    → IsPlaced blocks interleave e
    → e.position ≡ first_copy_position candidate interleave
    → count_at interleave candidate e.position e.index (e.index + 1 == blocks)
      ≡ (if e.first && not (e.index + 1 == blocks) then none else some blocks)
unfolding count_at first_copy_position
count_at-IsPlaced blocks interleave candidate e h (l, at) p = elim (Bool-cases e.first) [
  | inl first ↦
      let same : e.index ≡ candidate =
        first_copy_position-injective e.index candidate interleave (sym (rw first at at) ∙ p) in
      rw first (count_at-first blocks interleave candidate e.position e.index same)
  | inr second ↦
      let spot : e.position ≡ second_copy_position blocks e.index interleave = rw second at at in
      let past = second_copy_past_end blocks e.index candidate interleave l (sym spot ∙ p) in
      rw second (
        count_at-second blocks interleave candidate e.position e.index (e.index + 1 == blocks) l
          past.0 past.1 (omega (arith, spot, past.1)))
]

-- Each descriptor that was read is that of a slot of a container of `blocks` blocks.
abbrev pub Truthful : ℕ → ℕ → List Candidate → List (Option (ℕ × Bool)) → Type 0
Truthful blocks interleave ((candidate, position, offset) ∷ batch) (none ∷ descriptors) =
    Truthful blocks interleave batch descriptors
Truthful blocks interleave ((candidate, position, offset) ∷ batch)
      (some (found, final) ∷ descriptors) =
    ((e : Placed) × IsPlaced blocks interleave e
      × (e.position ≡ position)
      × (e.index ≡ found)
      × ((e.index + 1 == blocks) ≡ final))
    × Truthful blocks interleave batch descriptors
Truthful blocks interleave _ _ = Unit

abbrev AtFirst : ℕ → List Candidate → Type 0
AtFirst interleave [] = Unit
AtFirst interleave ((candidate, position, offset) ∷ batch) =
    (position ≡ first_copy_position candidate interleave) × AtFirst interleave batch

count_at_truthful :
    (blocks interleave candidate position found : ℕ) (final : Bool) (e : Placed)
    → 1 ≤ interleave
    → position ≡ first_copy_position candidate interleave
    → IsPlaced blocks interleave e
    → e.position ≡ position
    → e.index ≡ found
    → (e.index + 1 == blocks) ≡ final
    → (count_at interleave candidate position found final ≡ none)
      ⊎ (count_at interleave candidate position found final ≡ some blocks)
count_at_truthful blocks interleave candidate position found final e h at placed p i f =
    elim (Bool-cases (e.first && not (e.index + 1 == blocks))) [
      | inl more ↦ inl (here ∙ rw more refl)
      | inr counted ↦ inr (here ∙ rw counted refl)
    ]
  where
    here :
        count_at interleave candidate position found final
        ≡ (if e.first && not (e.index + 1 == blocks) then none else some blocks)
    here =
        ap₂ (λ q k. count_at interleave candidate q k final) (sym p) (sym i)
        ∙ ap (count_at interleave candidate e.position e.index) (sym f)
        ∙ count_at-IsPlaced blocks interleave candidate e h placed (p ∙ at)

find_count-Truthful :
    (blocks interleave : ℕ) (batch : List Candidate) (descriptors : List (Option (ℕ × Bool)))
    → 1 ≤ interleave
    → AtFirst interleave batch
    → Truthful blocks interleave batch descriptors
    → (find_count interleave batch descriptors ≡ none)
      ⊎ (find_count interleave batch descriptors ≡ some blocks)
unfolding find_count
find_count-Truthful blocks interleave [] descriptors h at t = inl refl
find_count-Truthful blocks interleave ((candidate, position, offset) ∷ batch) [] h at t = inl refl
find_count-Truthful blocks interleave ((candidate, position, offset) ∷ batch) (none ∷ descriptors) h
      at t =
    find_count-Truthful blocks interleave batch descriptors h at.1 t
find_count-Truthful blocks interleave ((candidate, position, offset) ∷ batch)
      (some (found, final) ∷ descriptors) h at ((e, placed, p, i, f), t) =
    elim (count_at_truthful blocks interleave candidate position found final e h at.0 placed p i
      f) [
        | inl misses ↦
            rw (misses, find_count)
              (find_count-Truthful blocks interleave batch descriptors h at.1 t)
        | inr hits ↦ inr (rw (hits, find_count) refl)
      ]

batch_from-AtFirst :
    (n : ℕ) (r : Reader) (candidate : ℕ) → AtFirst r.layout.interleave (batch_from n r candidate)
unfolding batch_from
batch_from-AtFirst zero r candidate = tt
batch_from-AtFirst (suc n) r candidate =
    elim (Bool-cases (
      leb (length r.source)
        (header_size + first_copy_position candidate r.layout.interleave * slot_size r.layout))) [
          | inl past ↦ rw past tt
          | inr here ↦ rw here (refl, batch_from-AtFirst n r (candidate + 1))
        ]

module _ (c : Checks) (trailer_checksum : List ℕ → List ℕ) (container_id : List ℕ) (r : Reader)
    (blocks : ℕ) (spread : 1 ≤ r.layout.interleave)
    (truthful : (n index : ℕ)
      → let batch = batch_from n r index in
        Ensures (Unit {0}) (Truthful blocks r.layout.interleave batch) (
          first_descriptors c trailer_checksum container_id r
            (map (λ candidate. candidate.2) batch))) where
  scan_rounds-blocks :
      (fuel index : ℕ)
      → Ensures
          (Unit {0})
          (λ count. count ≡ blocks)
          (scan_rounds c trailer_checksum container_id r fuel index)
  unfolding scan_rounds
  scan_rounds-blocks zero index = tt
  scan_rounds-blocks (suc fuel) index =
      let batch = batch_from (min scan_batch_blocks (max_blocks - index)) r index in
      elim (Bool-cases (is_empty batch)) [
        | inl done ↦ rw (done, scan_rounds) tt
        | inr more ↦
            rw (more, scan_rounds)
              (bind-Ensures (Unit {0}) (Truthful blocks r.layout.interleave batch)
                (λ count. count ≡ blocks) _ _
                (truthful (min scan_batch_blocks (max_blocks - index)) index)
                (λ descriptors t.
                  elim (find_count-Truthful blocks r.layout.interleave batch descriptors spread
                    (batch_from-AtFirst (min scan_batch_blocks (max_blocks - index)) r index) t) [
                      | inl misses ↦
                          rw (misses, scan_rounds)
                            (scan_rounds-blocks fuel (after_batch index batch))
                      | inr hits ↦ rw (hits, scan_rounds) refl
                    ]))
      ]

  -- The scan never gives a wrong count: if each descriptor that it can read is that of a slot of a
  -- container of `blocks` blocks, then the count that it returns, if it returns one, is `blocks`.
  scan_block_count-Truthful :
      (count : ℕ) → scan_block_count c trailer_checksum container_id r ≡ ok count → count ≡ blocks
  unfolding scan_block_count
  scan_block_count-Truthful count e =
      Ensures-ok (Unit {0}) (λ k. k ≡ blocks) _ (scan_rounds-blocks (length r.source + 1) 0) e

batch_from_past :
    (n : ℕ) (r : Reader) (index : ℕ) → length r.source < index → batch_from n r index ≡ []
unfolding batch_from first_copy_position slot_size
batch_from_past zero r index h = refl
batch_from_past (suc n) r index h =
    let q = first_copy_position index r.layout.interleave in
    let at_least : index ≤ q = ground arith in
    let wide : q * 1 ≤ q * slot_size r.layout = mul-le-mul_left q (omega arith) in
    let far : leb (length r.source) (header_size + q * slot_size r.layout) ≡ true =
      ground (arith, wide, at_least) in
    rw far refl

after_batch-le :
    (n : ℕ) (r : Reader) (candidate : ℕ)
    → candidate ≤ after_batch candidate (batch_from n r candidate)
unfolding batch_from after_batch
after_batch-le zero r candidate = omega arith
after_batch-le (suc n) r candidate =
    elim (Bool-cases (
      leb (length r.source)
        (header_size + first_copy_position candidate r.layout.interleave * slot_size r.layout))) [
          | inl past ↦ rw past (omega arith)
          | inr here ↦ rw here (omega (arith, after_batch-le n r (candidate + 1)))
        ]

after_batch-lt :
    (n : ℕ) (r : Reader) (index : ℕ)
    → is_empty (batch_from n r index) ≡ false
    → index < after_batch index (batch_from n r index)
unfolding batch_from after_batch
after_batch-lt zero r index h = cc
after_batch-lt (suc n) r index h =
    elim (Bool-cases (
      leb (length r.source)
        (header_size + first_copy_position index r.layout.interleave * slot_size r.layout))) [
          | inl past ↦ absurd (let e = rw past at h in cc e)
          | inr here ↦ rw here (omega (arith, after_batch-le n r (index + 1)))
        ]

-- Fuel beyond the length of the source makes no difference to the scan.
scan_rounds_enough :
    (c : Checks) (trailer_checksum : List ℕ → List ℕ) (container_id : List ℕ) (r : Reader)
    (fuel index : ℕ)
    → length r.source < index + fuel
    → scan_rounds c trailer_checksum container_id r (suc fuel) index
      ≡ scan_rounds c trailer_checksum container_id r fuel index
unfolding scan_rounds
scan_rounds_enough c trailer_checksum container_id r zero index h =
    rw
      (
        batch_from_past (min scan_batch_blocks (max_blocks - index)) r index (omega arith),
        scan_rounds,
      )
      refl
scan_rounds_enough c trailer_checksum container_id r (suc fuel) index h =
    let n = min scan_batch_blocks (max_blocks - index) in
    let batch = batch_from n r index in
    elim (Bool-cases (is_empty batch)) [
      | inl done ↦ rw (done, scan_rounds) refl
      | inr more ↦
          rw (more, scan_rounds)
            (ap
              (λ rest.
                first_descriptors c trailer_checksum container_id r
                  (map (λ candidate. candidate.2) batch)
                >>= λ descriptors.
                    elim (find_count r.layout.interleave batch descriptors) as (λ x. Result ℕ) [
                      | some count ↦ ok count
                      | none ↦ rest
                    ])
              (scan_rounds_enough c trailer_checksum container_id r fuel (after_batch index batch)
                (omega (arith, after_batch-lt n r index more))))
    ]
