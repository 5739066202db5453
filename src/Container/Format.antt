-- ===== src/Container/Format.antt =====
-- Headers of both container versions and the search for one that verifies
-- (dbs/container/format.py). The hashes of a sealed header and of a manifest, and the parse of a
-- manifest, are parameters.
pub mod Sealed
pub mod Tail
use dbs.Prelude.{
  Bool, List, Option, [], drop, false, if◌then◌else◌, leb, length, ltb, map_some, min, none, not,
  slice, some, suc, take, true, zero, ℕ, ◌&&◌, ◌*◌, ◌++◌, ◌+◌, ◌-◌, ◌==◌, ◌||◌, ◌∷◌,
}
use dbs.Bytes.{from_bytes, to_bytes}
use dbs.Container.Blocks.{copy_len}
use dbs.Container.Rs.Decode.{equal_rows}
use dbs.Container.Stream.Reader.Pass.{read_at}
use dbs.Result.{Result, container_error, err, ok, value_error}

-- "DBSCON01"
abbrev pub magic : List ℕ
magic = 0x44 ∷ 0x42 ∷ 0x53 ∷ 0x43 ∷ 0x4f ∷ 0x4e ∷ 0x30 ∷ 0x31 ∷ []

-- `struct.Struct(">8sHHIQQQ16s8x").size`
abbrev pub v1_header_size : ℕ
v1_header_size = 64

abbrev pub v1_format_version : ℕ
v1_format_version = 1

-- `struct.Struct(">8sHH").size`
abbrev pub sealed_prefix_size : ℕ
sealed_prefix_size = 12

abbrev pub sealed_checksum_size : ℕ
sealed_checksum_size = 16

abbrev pub sealed_min_size : ℕ
sealed_min_size = sealed_prefix_size + sealed_checksum_size

abbrev pub sealed_max_size : ℕ
sealed_max_size = 4096

unfoldable pub seal_header : (List ℕ → List ℕ) → ℕ → List ℕ → Result (List ℕ)
seal_header sealed_checksum version body =
    let size = sealed_prefix_size + length body + sealed_checksum_size in
    let unsealed = magic ++ (to_bytes 2 version ++ (to_bytes 2 size ++ body)) in
    if leb version v1_format_version || not (leb sealed_min_size size && leb size sealed_max_size)
    then err value_error
    else ok (unsealed ++ sealed_checksum unsealed)

unfoldable pub open_sealed_header : (List ℕ → List ℕ) → List ℕ → Option (ℕ × List ℕ)
open_sealed_header sealed_checksum raw =
    let version = from_bytes (slice 8 10 raw) in
    let size = from_bytes (slice 10 12 raw) in
    let unsealed = take (size - sealed_checksum_size) raw in
    if ltb (length raw) sealed_min_size
    then none
    else if not (equal_rows (slice 0 8 raw) magic) || leb version v1_format_version
    then none
    else if not (leb sealed_min_size size && leb size (min (length raw) sealed_max_size))
    then none
    else if not
        (equal_rows (sealed_checksum unsealed) (slice (size - sealed_checksum_size) size raw))
    then none
    else some (version, drop sealed_prefix_size unsealed)

pub record V1Header : Type 0 where
  pub version : ℕ
  pub flags : ℕ
  pub block_size : ℕ
  pub manifest_offset : ℕ
  pub manifest_len : ℕ
  pub manifest_dup_offset : ℕ
  pub manifest_hash : List ℕ

unfoldable pub parse_header : List ℕ → Option V1Header
parse_header raw =
    if ltb (length raw) v1_header_size
    then none
    else if not (equal_rows (slice 0 8 raw) magic)
    then none
    else some (record {
      version = from_bytes (slice 8 10 raw);
      flags = from_bytes (slice 10 12 raw);
      block_size = from_bytes (slice 12 16 raw);
      manifest_offset = from_bytes (slice 16 24 raw);
      manifest_len = from_bytes (slice 24 32 raw);
      manifest_dup_offset = from_bytes (slice 32 40 raw);
      manifest_hash = slice 40 56 raw;
    })

unfoldable pub v1_layout : List ℕ → ℕ → Option V1Header
unfolding parse_header
v1_layout raw size = elim (parse_header raw) [
  | none ↦ none
  | some header ↦
      if not (header.version == v1_format_version)
        || not (header.manifest_offset == v1_header_size)
        || not (header.manifest_dup_offset == v1_header_size + header.manifest_len)
        || ltb size (v1_header_size + header.manifest_len)
      then none
      else some header
]

-- A `VerifiedHeader`; the manifest stands as its bytes.
pub record VerifiedHeader : Type 0 where
  pub version : ℕ
  pub offset : ℕ
  pub raw : List ℕ
  pub body : List ℕ
  pub header : Option V1Header
  pub manifest : List ℕ

-- the last of the positions below `n` at which the magic bytes stand
unfoldable pub last_magic : ℕ → List ℕ → Option ℕ
last_magic zero tail = none
last_magic (suc n) tail =
    let earlier = last_magic n tail in
    if equal_rows (slice n (n + 8) tail) magic then some n else earlier

-- `tail.rfind(MAGIC, 0, stop)`: a match ends at `stop` or before
unfoldable pub rfind_magic : ℕ → List ℕ → Option ℕ
unfolding last_magic
rfind_magic stop tail = last_magic (stop - 7) tail

-- `manifest_hash`, `is_manifest` (whether the bytes decode to an object) and `sealed_checksum`
pub record FormatChecks : Type 0 where
  pub manifest_hash : List ℕ → List ℕ
  pub is_manifest : List ℕ → Bool
  pub sealed_checksum : List ℕ → List ℕ

module _ (c : FormatChecks) (source : List ℕ) where
  -- the body of the loop of `_verified_v1`: whether the manifest at an offset verifies
  unfoldable pub manifest_at : V1Header → ℕ → Option (List ℕ)
  manifest_at header offset =
      let candidate = read_at source offset header.manifest_len in
      if not (length candidate == header.manifest_len)
        || not (equal_rows (c.manifest_hash candidate) header.manifest_hash)
        || not (c.is_manifest candidate)
      then none
      else some candidate

  unfoldable pub verified_v1 : ℕ → Option VerifiedHeader
  unfolding manifest_at v1_layout
  verified_v1 offset =
      let raw = read_at source offset v1_header_size in
      elim (v1_layout raw (length source)) [
        | none ↦ none
        | some header ↦
            let found : List ℕ → VerifiedHeader = λ manifest. record {
              version = v1_format_version;
              offset = offset;
              raw = raw;
              body = [];
              header = some header;
              manifest = manifest;
            } in
            elim (manifest_at header v1_header_size) [
              | some manifest ↦ some (found manifest)
              | none ↦ map_some found (manifest_at header (v1_header_size + header.manifest_len))
            ]
      ]

  sealed : ℕ → ℕ → List ℕ → List ℕ → VerifiedHeader
  sealed version offset raw body = record {
    version = version;
    offset = offset;
    raw = raw;
    body = body;
    header = none;
    manifest = [];
  }

  unfoldable pub verified_sealed_front : Option VerifiedHeader
  unfolding sealed
  verified_sealed_front =
      let raw = read_at source 0 sealed_max_size in
      map_some
        (λ (version, body).
          sealed version 0 (take (sealed_prefix_size + length body + sealed_checksum_size) raw)
            body)
        (open_sealed_header c.sealed_checksum raw)

  -- The loop of `_verified_sealed_tail`, on the positions below `stop`; `fuel` bounds the number of
  -- them that hold the magic bytes.
  unfoldable pub tail_rounds : ℕ → ℕ → List ℕ → ℕ → Option VerifiedHeader
  unfolding sealed
  tail_rounds zero start tail stop = none
  tail_rounds (suc fuel) start tail stop = elim (rfind_magic stop tail) [
    | none ↦ none
    | some position ↦
        let rest = drop position tail in
        elim (open_sealed_header c.sealed_checksum rest) [
          | none ↦ tail_rounds fuel start tail position
          | some (version, body) ↦
              elim (sealed_prefix_size + length body + sealed_checksum_size == length rest) [
                | true ↦ some (sealed version (start + position) rest body)
                | false ↦ tail_rounds fuel start tail position
              ]
        ]
  ]

  unfoldable pub verified_sealed_tail : Option VerifiedHeader
  unfolding tail_rounds
  verified_sealed_tail =
      let span = min (length source) sealed_max_size in
      let start = length source - span in
      let tail = read_at source start span in tail_rounds (length tail) start tail (length tail)

  unfoldable pub or_next : Option VerifiedHeader → Option VerifiedHeader → Option VerifiedHeader
  or_next none next = next
  or_next (some found) next = some found

  -- the first of `verified_headers`
  unfoldable pub first_verified_header : Option VerifiedHeader
  unfolding or_next verified_v1 verified_sealed_front verified_sealed_tail
  first_verified_header = or_next (verified_v1 0) (
      or_next verified_sealed_front (
        or_next
          (if leb (2 * v1_header_size) (length source)
            then verified_v1 (length source - v1_header_size)
            else none)
          (elim verified_sealed_tail [
            | none ↦ none
            | some found ↦ if ltb 0 found.offset then some found else none
          ])))

  -- `copy_offsets` and `read_container` behind `_resolve_v1`, for a header and a payload length
  unfoldable pub complete_copy : ℕ → ℕ → Option (List ℕ)
  complete_copy offset copy_len =
      let candidate = slice offset (offset + copy_len) source in
      if length candidate == copy_len then some candidate else none

  unfoldable pub read_copies : V1Header → ℕ → Result (Option (List ℕ) × Option (List ℕ))
  unfolding complete_copy
  read_copies header copy_len =
      let first = v1_header_size + 2 * header.manifest_len in
      let copy_a = complete_copy first copy_len in
      let copy_b = complete_copy (first + copy_len) copy_len in
      elim copy_a [
        | some a ↦ ok (some a, copy_b)
        | none ↦ elim copy_b [ some b ↦ ok (none, some b) | none ↦ err container_error ]
      ]

  -- `_resolve_v1`, for the format version of the header that was found
  unfoldable pub resolve_v1 : Result VerifiedHeader
  unfolding first_verified_header
  resolve_v1 = elim first_verified_header [
    | none ↦ err container_error
    | some found ↦ if found.version == v1_format_version then ok found else err container_error
  ]
