-- ===== src/Engine/Frames.antt =====
-- The frames of a payload (dbs/engine/frames.py): `frame`, `frame_parts` and `FrameReader`.
pub mod Refine
pub mod Trip
use dbs.Engine.Kind
use dbs.Prelude.{
  Bool, List, Option, [], drop, get_or, if◌then◌else◌, leb, length, ltb, none, not, slice, some,
  true, ℕ, ◌++◌, ◌+◌, ◌-◌, ◌==◌, ◌||◌, ◌∷◌,
}
use dbs.Bytes.{from_bytes, to_bytes}
use dbs.Container.Format.{magic}
use dbs.Result.{◌>>=◌, Result, container_error, err, ok, value_error}
use dbs.Text.{text_eq}

-- PAYLOAD_MAGIC, b"DBSPAY02"
abbrev pub payload_magic : List ℕ
payload_magic = b'D' ∷ b'B' ∷ b'S' ∷ b'P' ∷ b'A' ∷ b'Y' ∷ b'0' ∷ b'2' ∷ []

-- MAX_FILES
abbrev pub max_files : ℕ
max_files = 4294967295

abbrev pub max_frame_bytes : ℕ
max_frame_bytes = 268435456

abbrev pub small_piece_bytes : ℕ
small_piece_bytes = 1048576

abbrev pub compact_bytes : ℕ
compact_bytes = 4194304

-- `kind in KIND_NAMES`
unfoldable pub is_known : ℕ → Bool
is_known kind =
    kind == Kind.header
    || kind == Kind.manifest
    || kind == Kind.file_data
    || kind == Kind.file_end
    || kind == Kind.records
    || kind == Kind.trailer

-- `FRAME_PREFIX.pack`
unfoldable pub frame_prefix : ℕ → ℕ → List ℕ
unfolding to_bytes
frame_prefix kind size = kind ∷ to_bytes 4 size

unfoldable pub frame : ℕ → List ℕ → Result (List ℕ)
unfolding frame_prefix
frame kind body =
    if ltb max_frame_bytes (length body)
    then err value_error
    else ok (frame_prefix kind (length body) ++ body)

unfoldable pub total_length : List (List ℕ) → ℕ
total_length [] = 0
total_length (piece ∷ pieces) = length piece + total_length pieces

-- the pieces with the prefix, joined to a first piece that is small
unfoldable pub with_prefix : List ℕ → List (List ℕ) → List (List ℕ)
with_prefix prefix [] = prefix ∷ []
with_prefix prefix (piece ∷ pieces) =
    if leb (length piece) small_piece_bytes
    then (prefix ++ piece) ∷ pieces
    else prefix ∷ piece ∷ pieces

unfoldable pub frame_parts : ℕ → List (List ℕ) → Result (List (List ℕ))
unfolding total_length with_prefix frame_prefix
frame_parts kind pieces =
    if ltb max_frame_bytes (total_length pieces)
    then err value_error
    else ok (with_prefix (frame_prefix kind (total_length pieces)) pieces)

pub record FrameReader : Type 0 where
  pub pieces : List (List ℕ)
  pub buffer : List ℕ
  pub start : ℕ

-- `_available`
abbrev pub available : FrameReader → ℕ
available r = length r.buffer - r.start

-- `_fill`: a loop over the pieces that are left
unfoldable pub fill_rounds : ℕ → List (List ℕ) → List ℕ → ℕ → FrameReader × Bool
fill_rounds size [] buffer start =
    (record { pieces = []; buffer = buffer; start = start }, leb size (length buffer - start))
fill_rounds size (piece ∷ pieces) buffer start =
    let rest = fill_rounds size pieces (drop start buffer ++ piece) 0 in
    if leb size (length buffer - start)
    then (record { pieces = piece ∷ pieces; buffer = buffer; start = start }, true)
    else rest

unfoldable pub fill : ℕ → FrameReader → FrameReader × Bool
unfolding fill_rounds
fill size r = fill_rounds size r.pieces r.buffer r.start

-- the buffer without what was read, once that is much
unfoldable pub compacted : FrameReader → FrameReader
compacted r =
    if leb compact_bytes r.start then record r { buffer = drop r.start r.buffer; start = 0 } else r

unfoldable pub take_bytes : ℕ → FrameReader → Result (List ℕ × FrameReader)
unfolding fill compacted
take_bytes size r =
    let (r', full) = fill size r in
    if full
    then ok (
      slice r'.start (r'.start + size) r'.buffer,
      compacted (record r' { start = r'.start + size }),
    )
    else err container_error

-- `FrameReader.__init__`
unfoldable pub new_reader : List (List ℕ) → Result FrameReader
unfolding take_bytes text_eq
new_reader pieces =
    take_bytes 8 (record { pieces = pieces; buffer = []; start = 0 }) >>= λ (magic, r).
    if text_eq magic payload_magic then ok r else err container_error

abbrev pub Frame : Type 0
Frame = ℕ × List ℕ

-- the body of a frame whose prefix is read
unfoldable pub read_body : ℕ → ℕ → FrameReader → Result (Option Frame × FrameReader)
unfolding is_known take_bytes
read_body kind size r =
    if not (is_known kind)
    then err container_error
    else if ltb max_frame_bytes size
    then err container_error
    else (take_bytes size (record r { start = r.start + 5 }) >>= λ (body, r').
        ok (some (kind, body), r'))

unfoldable pub next_frame : FrameReader → Result (Option Frame × FrameReader)
unfolding fill read_body from_bytes
next_frame r =
    let (r', full) = fill 5 r in
    if full
    then read_body (get_or r'.buffer r'.start 0)
        (from_bytes (slice (r'.start + 1) (r'.start + 5) r'.buffer)) r'
    else if available r' == 0
    then ok (none, r')
    else err container_error
