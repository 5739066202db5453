-- ===== src/Container/Stream/Schedule.antt =====
-- Where the two copies of each block stand, `schedule` and `first_copy_position`
-- (dbs/container/stream.py).
use dbs.Prelude.{
  Bool, Bool-cases, List, [], ap, arith, false, if◌then◌else◌, inl, inr, leb, ltb, min, suc, true,
  zero, ℕ, ◌*◌, ◌++◌, ◌+◌, ◌-◌, ◌<◌, ◌∙◌, ◌∷◌, ◌≡◌,
}

unfoldable pub first_copy_position : ℕ → ℕ → ℕ
first_copy_position index interleave =
    if ltb index interleave then index else 2 * index - interleave

-- a yielded tuple: the position, the block, and whether it is the first copy
pub record Placed : Type 0 where
  pub position : ℕ
  pub index : ℕ
  pub first : Bool

abbrev first_copy : ℕ → ℕ → Placed
first_copy position step = record { position = position; index = step; first = true }

abbrev second_copy : ℕ → ℕ → Placed
second_copy position step = record { position = position; index = step; first = false }

-- The loop of `schedule`, with `n` steps left.
unfoldable pub schedule_rounds : ℕ → ℕ → ℕ → ℕ → ℕ → List Placed
schedule_rounds zero blocks interleave step position = []
schedule_rounds (suc n) blocks interleave step position =
    let after = if ltb step blocks then position + 1 else position in
    let next = if leb interleave step then after + 1 else after in
    let others = schedule_rounds n blocks interleave (step + 1) next in
    (if ltb step blocks then first_copy position step ∷ [] else [])
    ++ ((if leb interleave step then second_copy after (step - interleave) ∷ [] else []) ++ others)

unfoldable pub schedule : ℕ → ℕ → List Placed
unfolding schedule_rounds
schedule blocks interleave = schedule_rounds (blocks + interleave) blocks interleave 0 0

-- the position of the second copy
abbrev pub second_copy_position : ℕ → ℕ → ℕ → ℕ
second_copy_position blocks index interleave = min (index + interleave + 1) blocks + index

abbrev pub IsPlaced : ℕ → ℕ → Placed → Type 0
IsPlaced blocks interleave e =
    (e.index < blocks)
    × (e.position ≡ (
        if e.first
        then first_copy_position e.index interleave
        else second_copy_position blocks e.index interleave))

abbrev pub All {ℓ κ} : {A : Type ℓ} → (A → Type κ) → List A → Type κ
All P [] = Unit
All P (x ∷ xs) = P x × All P xs

-- The position that the loop has reached before a step.
abbrev reached : ℕ → ℕ → ℕ → ℕ
reached blocks interleave step = min step blocks + (step - interleave)

schedule_rounds-IsPlaced :
    (n blocks interleave step position : ℕ)
    → step + n ≡ blocks + interleave
    → position ≡ reached blocks interleave step
    → All (IsPlaced blocks interleave) (schedule_rounds n blocks interleave step position)
unfolding schedule_rounds first_copy_position
schedule_rounds-IsPlaced zero blocks interleave step position e p = tt
schedule_rounds-IsPlaced (suc n) blocks interleave step position e p = ground (
  arith,
  schedule_rounds-IsPlaced n blocks interleave (step + 1)
      (if leb interleave step
        then (if ltb step blocks then position + 1 else position) + 1
        else (if ltb step blocks then position + 1 else position))
      (omega arith) (ground arith),
)

-- The first copy of a block stands at `first_copy_position`, and the second one at the position
-- that `second_copy_position` gives.
pub schedule-IsPlaced :
    (blocks interleave : ℕ) → All (IsPlaced blocks interleave) (schedule blocks interleave)
unfolding schedule
schedule-IsPlaced blocks interleave =
    schedule_rounds-IsPlaced (blocks + interleave) blocks interleave 0 0 (omega arith) (omega arith)

-- The positions are `position`, `position + 1` and so on, up to `stop`.
abbrev pub IsConsecutive : ℕ → ℕ → List Placed → Type 0
IsConsecutive position stop [] = position ≡ stop
IsConsecutive position stop (e ∷ entries) =
    (e.position ≡ position) × IsConsecutive (position + 1) stop entries

schedule_rounds-IsConsecutive :
    (n blocks interleave step position : ℕ)
    → step + n ≡ blocks + interleave
    → position ≡ reached blocks interleave step
    → IsConsecutive position (2 * blocks) (schedule_rounds n blocks interleave step position)
unfolding schedule_rounds
schedule_rounds-IsConsecutive zero blocks interleave step position e p = omega arith
schedule_rounds-IsConsecutive (suc n) blocks interleave step position e p = ground (
  arith,
  schedule_rounds-IsConsecutive n blocks interleave (step + 1)
      (if leb interleave step
        then (if ltb step blocks then position + 1 else position) + 1
        else (if ltb step blocks then position + 1 else position))
      (omega arith) (ground arith),
)

-- The schedule names each of the positions from 0 to twice the number of blocks once, in order.
schedule-IsConsecutive :
    (blocks interleave : ℕ) → IsConsecutive 0 (2 * blocks) (schedule blocks interleave)
unfolding schedule
schedule-IsConsecutive blocks interleave =
    schedule_rounds-IsConsecutive (blocks + interleave) blocks interleave 0 0 (omega arith)
      (omega arith)

abbrev pub range : ℕ → ℕ → List ℕ
range start zero = []
range start (suc n) = start ∷ range (start + 1) n

-- the blocks whose first copy, or whose second copy, is named, in order
abbrev pub indices : Bool → List Placed → List ℕ
indices first [] = []
indices true (e ∷ entries) =
    let others = indices true entries in if e.first then e.index ∷ others else others
indices false (e ∷ entries) =
    let others = indices false entries in if e.first then others else e.index ∷ others

-- The first copies that a step and those after it name.
firsts-schedule_rounds :
    (n blocks interleave step position : ℕ)
    → step + n ≡ blocks + interleave
    → indices true (schedule_rounds n blocks interleave step position) ≡ range step (blocks - step)
unfolding schedule_rounds
firsts-schedule_rounds zero blocks interleave step position e =
    let z : blocks - step ≡ 0 = omega arith in rw z
firsts-schedule_rounds (suc n) blocks interleave step position e =
    let next =
      if leb interleave step
      then (if ltb step blocks then position + 1 else position) + 1
      else (if ltb step blocks then position + 1 else position) in
    let ih = firsts-schedule_rounds n blocks interleave (step + 1) next (omega arith) in
    elim (Bool-cases (ltb step blocks)) [
      | inl early ↦
          let left : blocks - step ≡ suc (blocks - (step + 1)) = ground arith in
          rw left (ground (arith, ih))
      | inr late ↦
          let z : blocks - step ≡ 0 = ground arith in
          let z' : blocks - (step + 1) ≡ 0 = ground arith in
          rw z (ground (arith, ih ∙ ap (range (step + 1)) z'))
    ]

-- The second copies that a step and those after it name.
seconds-schedule_rounds :
    (n blocks interleave step position : ℕ)
    → step + n ≡ blocks + interleave
    → indices false (schedule_rounds n blocks interleave step position)
      ≡ range (step - interleave) (blocks - (step - interleave))
unfolding schedule_rounds
seconds-schedule_rounds zero blocks interleave step position e =
    let z : blocks - (step - interleave) ≡ 0 = omega arith in rw z
seconds-schedule_rounds (suc n) blocks interleave step position e =
    let next =
      if leb interleave step
      then (if ltb step blocks then position + 1 else position) + 1
      else (if ltb step blocks then position + 1 else position) in
    let ih = seconds-schedule_rounds n blocks interleave (step + 1) next (omega arith) in
    elim (Bool-cases (leb interleave step)) [
      | inl late ↦
          let left : blocks - (step - interleave) ≡ suc (blocks - (step + 1 - interleave)) =
            ground arith in
          let shift : step - interleave + 1 ≡ step + 1 - interleave = ground arith in
          rw (left, shift) (ground (arith, ih))
      | inr early ↦
          let z : step - interleave ≡ 0 = ground arith in
          let z' : step + 1 - interleave ≡ 0 = ground arith in
          rw z (ground (arith, ih ∙ ap (λ k. range k (blocks - k)) z'))
    ]

-- Every block has one first and one second copy in the schedule, and both follow the order of the
-- blocks.
indices-schedule :
    (blocks interleave : ℕ)
    → (indices true (schedule blocks interleave) ≡ range 0 blocks)
      × (indices false (schedule blocks interleave) ≡ range 0 blocks)
unfolding schedule
indices-schedule blocks interleave =
    let all : blocks - 0 ≡ blocks = omega arith in
    let z : 0 - interleave ≡ 0 = omega arith in
    (
      firsts-schedule_rounds (blocks + interleave) blocks interleave 0 0 (omega arith)
          ∙ ap (range 0) all,
      seconds-schedule_rounds (blocks + interleave) blocks interleave 0 0 (omega arith)
          ∙ ap (λ k. range k (blocks - k)) z
          ∙ ap (range 0) all,
    )
