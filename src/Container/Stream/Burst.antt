-- ===== src/Container/Stream/Burst.antt =====
-- How long a run of destroyed bytes may be (`burst_tolerance` of dbs/container/stream.py).
use native.Mathlib.Nat.{mul-le-mul_right}
use dbs.Prelude.{arith, ℕ, ◌*◌, ◌+◌, ◌<◌, ◌≤◌}
use dbs.Container.Stream.Layout.{StreamLayout, burst_distance, burst_tolerance, slot_size}
use dbs.Container.Stream.Schedule.{first_copy_position, second_copy_position}

-- The bytes of a slot, counted from the first slot of the container.
abbrev pub Touches : ℕ → ℕ → ℕ → ℕ → Type 0
Touches start stop position size = (start < (position + 1) * size) × (position * size < stop)

copies_apart :
    (blocks interleave index : ℕ)
    → index < blocks
    → first_copy_position index interleave + burst_distance interleave blocks
      < second_copy_position blocks index interleave
unfolding first_copy_position burst_distance
copies_apart blocks interleave index h = ground arith

-- No run of at most `burst_tolerance` bytes, wherever it starts, reaches both copies of a block.
pub burst_tolerance_lem :
    (layout : StreamLayout) (blocks index start stop : ℕ)
    → index < blocks
    → stop ≤ start + burst_tolerance layout blocks
    → ¬ (
        Touches start stop (first_copy_position index layout.interleave) (slot_size layout)
        × Touches start stop
            (second_copy_position blocks index layout.interleave)
            (slot_size layout))
unfolding burst_tolerance
burst_tolerance_lem layout blocks index start stop h short =
    let size = slot_size layout in
    let first = first_copy_position index layout.interleave in
    let second = second_copy_position blocks index layout.interleave in
    let distance = burst_distance layout.interleave blocks in
    let apart : (first + 1 + distance) * size ≤ second * size =
      mul-le-mul_right size (omega (arith, copies_apart blocks layout.interleave index h)) in
    λ both. omega (arith, both.0.0, both.1.1, short, apart)
