-- ===== src/Container/Stream/Layout.antt =====
-- The layout of a streamed container and the checks on it (dbs/container/stream.py).
use dbs.Prelude.{
  Bool, Option, arith, if◌then◌else◌, leb, ltb, none, not, some, ℕ, ◌&&◌, ◌*◌, ◌+◌, ◌-◌, ◌<◌, ◌≡◌,
  ◌≤◌,
}
use dbs.Container.Rs.Sizes.{IsNsym, encoded_length}

abbrev pub min_block_size : ℕ
min_block_size = 512

abbrev pub max_block_size : ℕ
max_block_size = 16 * 1024 * 1024

abbrev pub min_stream_nsym : ℕ
min_stream_nsym = 2

abbrev pub max_stream_nsym : ℕ
max_stream_nsym = 128

abbrev pub max_interleave : ℕ
max_interleave = 4096

abbrev pub max_window_bytes : ℕ
max_window_bytes = 64 * 1024 * 1024

abbrev pub slot_tag_size : ℕ
slot_tag_size = 16

abbrev pub tag_length : ℕ
tag_length = 16

-- `struct.Struct(">QIB3x").size`
abbrev pub descriptor_size : ℕ
descriptor_size = 16

abbrev pub chunk_overhead : ℕ
chunk_overhead = descriptor_size + tag_length

-- The prefix, the body `>HHIIIIHH16s16s7sx12s48s` and the checksum of a sealed header.
abbrev pub header_size : ℕ
header_size = 12 + 124 + 16

-- The body `>8sHH16sQQI4x32s` and the checksum of a trailer.
abbrev pub trailer_size : ℕ
trailer_size = 84 + 16

pub data Problem : Type 0 where
  block_size_outside : Problem
  nsym_outside : Problem
  interleave_outside : Problem
  window_too_large : Problem

pub record StreamLayout : Type 0 where
  pub block_size : ℕ
  pub nsym : ℕ
  pub interleave : ℕ

unfoldable pub encoded_size : StreamLayout → ℕ
encoded_size layout = encoded_length layout.block_size layout.nsym

unfoldable pub slot_size : StreamLayout → ℕ
unfolding encoded_size
slot_size layout = encoded_size layout + slot_tag_size

unfoldable pub chunk_capacity : StreamLayout → ℕ
chunk_capacity layout = layout.block_size - chunk_overhead

unfoldable pub max_chunk_len : StreamLayout → ℕ
max_chunk_len layout = layout.block_size - descriptor_size

unfoldable pub container_size : StreamLayout → ℕ → ℕ
container_size layout blocks = 2 * header_size + 2 * trailer_size + 2 * blocks * slot_size layout

-- `max(distance, 0)`, with the subtraction of `blocks - 1` already cut off at 0
unfoldable pub burst_distance : ℕ → ℕ → ℕ
burst_distance interleave blocks = if ltb interleave blocks then interleave else blocks - 1

unfoldable pub burst_tolerance : StreamLayout → ℕ → ℕ
unfolding burst_distance
burst_tolerance layout blocks = burst_distance layout.interleave blocks * slot_size layout

abbrev within : ℕ → ℕ → ℕ → Bool
within low high value = leb low value && leb value high

-- The tests that the three values are integers have no counterpart here.
unfoldable pub layout_problem : StreamLayout → Option Problem
unfolding slot_size
layout_problem layout =
    if not (within min_block_size max_block_size layout.block_size)
    then some block_size_outside
    else if not (within min_stream_nsym max_stream_nsym layout.nsym)
    then some nsym_outside
    else if not (within 1 max_interleave layout.interleave)
    then some interleave_outside
    else if ltb max_window_bytes
        (layout.interleave * (encoded_length layout.block_size layout.nsym + slot_tag_size))
    then some window_too_large
    else none

-- What an accepted layout guarantees: the limits on each value, and with them room for data in
-- each block, a parity length that the Reed-Solomon layer accepts, and a bounded window of slots.
pub record IsUsable (layout : StreamLayout) : Type 0 where
  pub sized : (512 ≤ layout.block_size) × (layout.block_size ≤ 16777216)
  pub parity_sized : (2 ≤ layout.nsym) × (layout.nsym ≤ 128)
  pub spread : (1 ≤ layout.interleave) × (layout.interleave ≤ 4096)
  pub bounded : layout.interleave * slot_size layout ≤ 67108864
  pub codable : IsNsym layout.nsym
  pub roomy : chunk_overhead < layout.block_size

pub layout_problem-IsUsable :
    (layout : StreamLayout) → layout_problem layout ≡ none → IsUsable layout
unfolding layout_problem slot_size
layout_problem-IsUsable layout e = record {
  sized = ground arith;
  parity_sized = ground arith;
  spread = ground arith;
  bounded = ground arith;
  codable = ground arith;
  roomy = ground arith;
}
