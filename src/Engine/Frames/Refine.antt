-- ===== src/Engine/Frames/Refine.antt =====
-- `FrameReader` (dbs/engine/frames.py) reads the bytes of its pieces, wherever they are divided.
use mathlib.Core.List.{flatten}
use dbs.Prelude.{
  Bool-cases, List, Option, [], ap, append-nil, append_assoc, arith, drop, drop-drop,
  drop_append_of_length-le, false, get_or, if◌then◌else◌, inl, inr, leb, length, length-append,
  length-drop, ltb, none, not, refl, slice, some, suc, sym, take, take_append_of_length-le, true,
  zero, ℕ, ◌++◌, ◌+◌, ◌-◌, ◌<◌, ◌==◌, ◌∙◌, ◌∷◌, ◌≡◌, ◌≤◌,
}
use dbs.Bytes.{from_bytes}
use dbs.Engine.Frames.{
  Frame, FrameReader, available, fill_rounds, is_known, max_frame_bytes, compacted, fill,
  take_bytes, compact_bytes, next_frame, read_body,
}
use dbs.Result.{◌>>=◌, Result, container_error, err, ok}

-- What is left to read.
abbrev pub rest_of : FrameReader → List ℕ
rest_of r = drop r.start r.buffer ++ flatten r.pieces

abbrev pub IsReader : FrameReader → Type 0
IsReader r = r.start ≤ length r.buffer

-- The specification: reading from the bytes.
unfoldable pub take_spec : ℕ → List ℕ → Result (List ℕ × List ℕ)
take_spec size bytes =
    if leb size (length bytes) then ok (take size bytes, drop size bytes) else err container_error

unfoldable pub frame_spec : List ℕ → Result (Option Frame × List ℕ)
unfolding take_spec
frame_spec bytes =
    if leb 5 (length bytes)
    then (let kind = get_or bytes 0 0 in
        let size = from_bytes (slice 1 5 bytes) in
        if not (is_known kind)
        then err container_error
        else if ltb max_frame_bytes size
        then err container_error
        else take_spec size (drop 5 bytes) >>= λ (body, rest). ok (some (kind, body), rest))
    else if length bytes == 0
    then ok (none, bytes)
    else err container_error

-- A reader and what it read agree with the bytes and what was read of them.
abbrev pub Agrees : {A : Type 0} → Result (A × FrameReader) → Result (A × List ℕ) → Type 0
Agrees (ok (a, r)) (ok (b, bytes)) = (a ≡ b) × (rest_of r ≡ bytes) × IsReader r
Agrees (err e) (err f) = e ≡ f
Agrees _ _ = ⊥

fill_rounds_lem :
    (size : ℕ) (pieces : List (List ℕ)) (buffer : List ℕ) (start : ℕ)
    → start ≤ length buffer
    → let (r, full) = fill_rounds size pieces buffer start in
      let bytes = drop start buffer ++ flatten pieces in
      IsReader r
      × (rest_of r ≡ bytes)
      × (full ≡ leb size (length bytes))
      × (full ≡ true → size ≤ available r)
      × (full ≡ false → available r ≡ length bytes)
unfolding fill_rounds flatten
fill_rounds_lem size [] buffer start h =
    let n : length (drop start buffer ++ []) ≡ length buffer - start =
      ap length (append-nil (drop start buffer)) ∙ length-drop start buffer in
    (h, refl, rw n, (λ full. ground arith), (λ full. sym n))
fill_rounds_lem size (piece ∷ pieces) buffer start h =
    let left = drop start buffer in
    let n =
      length-append left (piece ++ flatten pieces)
      ∙ ap (λ k. k + length (piece ++ flatten pieces)) (length-drop start buffer) in
    elim (Bool-cases (leb size (length buffer - start))) [
      | inl enough ↦
          rw enough (h, refl, ground (arith, n), (λ full. ground arith), (λ full. absurd (cc)))
      | inr more ↦
          let joined = append_assoc left piece (flatten pieces) in
          let (valid, rest, filled, enough, empty) =
            fill_rounds_lem size pieces (left ++ piece) 0 (omega arith) in
          rw more (
            valid,
            rest ∙ joined,
            filled ∙ ap (λ (b : List ℕ). leb size (length b)) joined,
            enough,
            (λ full. empty full ∙ ap length joined),
          )
    ]

compacted-rest_of :
    (r : FrameReader) → IsReader r → (rest_of (compacted r) ≡ rest_of r) × IsReader (compacted r)
unfolding compacted
compacted-rest_of r h = elim (Bool-cases (leb compact_bytes r.start)) [
  | inl much ↦ rw much (refl, omega arith)
  | inr little ↦ rw little (refl, h)
]

-- Reading what the buffer holds.
read_buffer :
    (size : ℕ) (r : FrameReader)
    → IsReader r
    → size ≤ available r
    → let r' = compacted (record r { start = r.start + size }) in
      (slice r.start (r.start + size) r.buffer ≡ take size (rest_of r))
      × (rest_of r' ≡ drop size (rest_of r))
      × IsReader r'
read_buffer size r h l =
    let left = drop r.start r.buffer in
    let fits : size ≤ length left = omega (arith, length-drop r.start r.buffer) in
    let width : r.start + size - r.start ≡ size = omega arith in
    let read = record r { start = r.start + size } in
    let (same, valid) = compacted-rest_of read (omega arith) in
    (
      rw width (sym (take_append_of_length-le size left (flatten r.pieces) fits)),
      same
          ∙ ap (λ (b : List ℕ). b ++ flatten r.pieces) (sym (drop-drop r.start size r.buffer))
          ∙ sym (drop_append_of_length-le size left (flatten r.pieces) fits),
      valid,
    )

fill_lem :
    (size : ℕ) (r : FrameReader)
    → IsReader r
    → let (r', full) = fill size r in
      IsReader r'
      × (rest_of r' ≡ rest_of r)
      × (full ≡ leb size (length (rest_of r)))
      × (full ≡ true → size ≤ available r')
      × (full ≡ false → available r' ≡ length (rest_of r))
unfolding fill
fill_lem size r = fill_rounds_lem size r.pieces r.buffer r.start

pub take_bytes-take_spec :
    (size : ℕ) (r : FrameReader)
    → IsReader r
    → Agrees (take_bytes size r) (take_spec size (rest_of r))
unfolding take_bytes take_spec
take_bytes-take_spec size r h =
    let (valid, rest, filled, enough, empty) = fill_lem size r h in
    elim (Bool-cases (fill size r).1) [
      | inl full ↦
          let (taken, left, reader) = read_buffer size (fill size r).0 valid (enough full) in
          rw (full, sym filled ∙ full)
            (taken ∙ ap (take size) rest, left ∙ ap (drop size) rest, reader)
      | inr short ↦ rw (short, sym filled ∙ short) refl
    ]

Agrees-bind :
    (kind : ℕ) (m : Result (List ℕ × FrameReader)) (n : Result (List ℕ × List ℕ))
    → Agrees m n
    → Agrees {A = Option Frame}
        (m >>= λ (body, r). ok (some (kind, body), r))
        (n >>= λ (body, rest). ok (some (kind, body), rest))
Agrees-bind kind (ok (a, r)) (ok (b, bytes)) (e, rest, valid) =
    (ap (λ (body : List ℕ). some (kind, body)) e, rest, valid)
Agrees-bind kind (ok (a, r)) (err e) h = h
Agrees-bind kind (err e) (ok (b, bytes)) h = h
Agrees-bind kind (err e) (err f) h = h

rest_of_skip :
    (n : ℕ) (r : FrameReader)
    → n ≤ available r
    → rest_of (record r { start = r.start + n }) ≡ drop n (rest_of r)
rest_of_skip n r l =
    let left = drop r.start r.buffer in
    let fits : n ≤ length left = omega (arith, length-drop r.start r.buffer) in
    ap (λ (b : List ℕ). b ++ flatten r.pieces) (sym (drop-drop r.start n r.buffer))
    ∙ sym (drop_append_of_length-le n left (flatten r.pieces) fits)

-- After the prefix: its fields, and what they say of the body.
read_body-frame_spec :
    (kind size : ℕ) (r : FrameReader)
    → IsReader r
    → 5 ≤ available r
    → Agrees (read_body kind size r) (
        if not (is_known kind)
        then err container_error
        else if ltb max_frame_bytes size
        then err container_error
        else take_spec size (drop 5 (rest_of r)) >>= λ (body, rest). ok (some (kind, body), rest))
unfolding read_body
read_body-frame_spec kind size r h l = elim (Bool-cases (is_known kind)) [
  | inr unknown ↦ rw unknown refl
  | inl known ↦ elim (Bool-cases (ltb max_frame_bytes size)) [
    | inl long ↦ rw (known, long) refl
    | inr fits ↦
        let r' = record r { start = r.start + 5 } in
        rw (known, fits, sym (rest_of_skip 5 r l))
          (Agrees-bind kind (take_bytes size r') (take_spec size (rest_of r'))
            (take_bytes-take_spec size r' (omega arith)))
  ]
]

get_or-drop :
    (n : ℕ) (xs ys : List ℕ) → n < length xs → get_or (drop n xs ++ ys) 0 0 ≡ get_or xs n 0
get_or-drop n [] ys h = absurd (omega arith)
get_or-drop zero (x ∷ xs) ys h = refl
get_or-drop (suc n) (x ∷ xs) ys h = get_or-drop n xs ys (omega arith)

slice-rest_of :
    (r : FrameReader)
    → 5 ≤ available r
    → slice (r.start + 1) (r.start + 5) r.buffer ≡ slice 1 5 (rest_of r)
slice-rest_of r l =
    let left = drop r.start r.buffer in
    let n = length-drop r.start r.buffer in
    let width : r.start + 5 - (r.start + 1) ≡ 4 = omega arith in
    let one = drop-drop r.start 1 r.buffer in
    rw (width, sym one, drop_append_of_length-le 1 left (flatten r.pieces) (omega (arith, n)))
      (sym (
        take_append_of_length-le 4 (drop 1 left) (flatten r.pieces)
          (omega (arith, n, length-drop 1 left))))

-- Whatever the pieces, `next_frame` gives the frame, the end or the error that the bytes give, and
-- leaves the bytes after it.
pub next_frame-frame_spec :
    (r : FrameReader) → IsReader r → Agrees (next_frame r) (frame_spec (rest_of r))
unfolding next_frame frame_spec
next_frame-frame_spec r h =
    let (valid, rest, filled, enough, empty) = fill_lem 5 r h in
    let r' = (fill 5 r).0 in
    elim (Bool-cases (fill 5 r).1) [
      | inl full ↦
          let l = enough full in
          let kind =
            sym (get_or-drop r'.start r'.buffer (flatten r'.pieces) (omega arith))
            ∙ ap (λ (b : List ℕ). get_or b 0 0) rest in
          let size = slice-rest_of r' l ∙ ap (slice 1 5) rest in
          rw (full, sym filled ∙ full, kind, size, sym rest)
            (read_body-frame_spec (get_or (rest_of r') 0 0) (from_bytes (slice 1 5 (rest_of r'))) r'
              valid l)
      | inr short ↦
          let n = empty short in
          elim (Bool-cases (length (rest_of r) == 0)) [
            | inl none_left ↦ rw (short, sym filled ∙ short, n, none_left) (refl, rest, valid)
            | inr some_left ↦ rw (short, sym filled ∙ short, n, some_left) refl
          ]
    ]
