-- ===== src/Engine/Frames/Trip.antt =====
-- Frames that were written (dbs/engine/frames.py) are read back from any division of the bytes.
use mathlib.Core.List.{flatten}
use dbs.Prelude.{
  Bool-cases, List, [], ap, append_assoc, arith, drop-append, drop-append_of_length, false, inl,
  inr, leb, length, length-append, ltb, none, refl, some, suc, sym, take-append,
  take-append_of_length, true, zero, ℕ, ◌++◌, ◌+◌, ◌-◌, ◌<◌, ◌∙◌, ◌∷◌, ◌≡◌,
}
use dbs.Bytes.{from_bytes-to_bytes, length-to_bytes, to_bytes}
use dbs.Engine.Frames.{
  Frame, FrameReader, frame, frame_parts, frame_prefix, is_known, max_frame_bytes, next_frame,
  small_piece_bytes, total_length, with_prefix, new_reader, payload_magic, take_bytes,
}
use dbs.Engine.Frames.Refine.{
  frame_spec, IsReader, rest_of, take_spec, Agrees, next_frame-frame_spec, take_bytes-take_spec,
}
use dbs.Result.{Result, err, ok, ◌>>=◌, bind-eq-ok, out_of_fuel}
use dbs.Text.{text_eq}

-- The frames' bytes one after another, as the engine emits them.
unfoldable pub written : List Frame → Result (List ℕ)
unfolding frame
written [] = ok []
written ((kind, body) ∷ frames) =
    frame kind body >>= λ first. written frames >>= λ rest. ok (first ++ rest)

-- The frames that calls of `next_frame` give up to the end; more than `fuel` of them are an error.
unfoldable pub read_frames : ℕ → FrameReader → Result (List Frame)
unfolding next_frame
read_frames zero r = err out_of_fuel
read_frames (suc fuel) r = next_frame r >>= λ (found, r'). elim found [
  | none ↦ ok []
  | some first ↦ read_frames fuel r' >>= λ frames. ok (first ∷ frames)
]

abbrev pub AllKnown : List Frame → Type 0
AllKnown [] = Unit {0}
AllKnown ((kind, body) ∷ frames) = (is_known kind ≡ true) × AllKnown frames

ok-injective : {A : Type 0} {a b : A} → ok a ≡ ok b → a ≡ b
ok-injective e = cc

-- A prefix gives its fields, and what follows is read by them.
frame_spec-prefix :
    (kind n : ℕ) (tail : List ℕ)
    → is_known kind ≡ true
    → ltb max_frame_bytes n ≡ false
    → frame_spec (kind ∷ (to_bytes 4 n ++ tail))
      ≡ (take_spec n tail >>= λ (body, rest). ok (some (kind, body), rest))
unfolding frame_spec
frame_spec-prefix kind n tail known fits =
    let four = length-to_bytes 4 n in
    let long : leb 5 (suc (length (to_bytes 4 n ++ tail))) ≡ true =
      ground (arith, length-append (to_bytes 4 n) tail) in
    let width : 5 - 1 ≡ 4 = omega arith in
    let size = from_bytes-to_bytes 4 n (ground arith) in
    rw (
      long,
      known,
      width,
      take-append_of_length 4 (to_bytes 4 n) tail four,
      size,
      fits,
      drop-append_of_length 4 (to_bytes 4 n) tail four,
    )

take_spec-append : (xs ys : List ℕ) → take_spec (length xs) (xs ++ ys) ≡ ok (xs, ys)
unfolding take_spec
take_spec-append xs ys =
    let enough : leb (length xs) (length (xs ++ ys)) ≡ true = ground (arith, length-append xs ys) in
    rw (enough, take-append xs ys, drop-append xs ys)

-- The bytes of a frame give the frame.
frame_spec-frame :
    (kind : ℕ) (body bytes rest : List ℕ)
    → is_known kind ≡ true
    → frame kind body ≡ ok bytes
    → frame_spec (bytes ++ rest) ≡ ok (some (kind, body), rest)
unfolding frame frame_prefix
frame_spec-frame kind body bytes rest known e =
    elim (Bool-cases (ltb max_frame_bytes (length body))) [
      | inl long ↦ absurd (let k = rw long at e in cc k)
      | inr fits ↦
          let k : ok ((kind ∷ to_bytes 4 (length body)) ++ body) ≡ ok bytes = rw fits at e in
          rw (sym (ok-injective k), append_assoc (to_bytes 4 (length body)) body rest)
            (frame_spec-prefix kind (length body) (body ++ rest) known fits
              ∙ rw (take_spec-append body rest))
    ]

frame_parts-frame_prefix :
    (prefix : List ℕ) (pieces : List (List ℕ))
    → flatten (with_prefix prefix pieces) ≡ prefix ++ flatten pieces
unfolding with_prefix flatten
frame_parts-frame_prefix prefix [] = refl
frame_parts-frame_prefix prefix (piece ∷ pieces) =
    elim (Bool-cases (leb (length piece) small_piece_bytes)) [
      | inl small ↦ rw small (append_assoc prefix piece (flatten pieces))
      | inr large ↦ rw large
    ]

length-flatten : (pieces : List (List ℕ)) → length (flatten pieces) ≡ total_length pieces
unfolding flatten total_length
length-flatten [] = refl
length-flatten (piece ∷ pieces) =
    length-append piece (flatten pieces) ∙ ap (λ n. length piece + n) (length-flatten pieces)

-- A frame in parts has the bytes of the frame, or is refused with it.
frame_parts-frame :
    (kind : ℕ) (pieces : List (List ℕ))
    → (frame_parts kind pieces >>= λ parts. ok (flatten parts)) ≡ frame kind (flatten pieces)
unfolding frame_parts frame
frame_parts-frame kind pieces =
    let n = length-flatten pieces in
    elim (Bool-cases (ltb max_frame_bytes (total_length pieces))) [
      | inl long ↦ rw (n, long)
      | inr fits ↦
          rw (n, fits)
            (ap ok (frame_parts-frame_prefix (frame_prefix kind (total_length pieces)) pieces))
    ]

Agrees-ok :
    {A : Type 0} (m : Result (A × FrameReader)) (a : A) (bytes : List ℕ)
    → Agrees m (ok (a, bytes))
    → (r : FrameReader) × (m ≡ ok (a, r)) × (rest_of r ≡ bytes) × IsReader r
Agrees-ok (ok (b, r)) a bytes (e, rest, valid) = (r, ap (λ (x : _). ok (x, r)) e, rest, valid)
Agrees-ok (err e) a bytes h = absurd h

-- A reader whose bytes are those of the frames.
read_frames-written :
    (frames : List Frame) (bytes : List ℕ) (fuel : ℕ) (r : FrameReader)
    → AllKnown frames
    → written frames ≡ ok bytes
    → IsReader r
    → rest_of r ≡ bytes
    → length frames < fuel
    → read_frames fuel r ≡ ok frames
unfolding written read_frames frame_spec
read_frames-written frames bytes zero r known e valid rest l = absurd (omega arith)
read_frames-written [] bytes (suc fuel) r known e valid rest l =
    let empty = rest ∙ sym (ok-injective e) in
    let (r', found, left, valid') =
      Agrees-ok (next_frame r) none [] (rw empty at (next_frame-frame_spec r valid)) in
    rw found
read_frames-written ((kind, body) ∷ frames) bytes (suc fuel) r (k, known) e valid rest l =
    let (first, others, framed) =
      bind-eq-ok (frame kind body) (λ first. written frames >>= λ rest. ok (first ++ rest)) e in
    let (after, joined, wrote) = bind-eq-ok (written frames) (λ rest. ok (first ++ rest)) others in
    let spec = frame_spec-frame kind body first after k framed in
    let start = rest ∙ sym (ok-injective joined) in
    let (r', found, left, valid') =
      Agrees-ok (next_frame r) (some (kind, body)) after
        (rw (start, spec) at (next_frame-frame_spec r valid)) in
    rw found (rw (read_frames-written frames after fuel r' known wrote valid' left (omega arith)))

-- Frames of known kinds that `frame` accepts are read back, whatever pieces their bytes come in
-- after the payload's magic, and then the end is found.
pub read_frames-new_reader :
    (frames : List Frame) (bytes : List ℕ) (pieces : List (List ℕ)) (fuel : ℕ)
    → AllKnown frames
    → written frames ≡ ok bytes
    → flatten pieces ≡ payload_magic ++ bytes
    → length frames < fuel
    → (new_reader pieces >>= read_frames fuel) ≡ ok frames
unfolding new_reader text_eq
read_frames-new_reader frames bytes pieces fuel known e whole l =
    let r : FrameReader = record { pieces = pieces; buffer = []; start = 0 } in
    let read = take_bytes-take_spec 8 r (omega arith) in
    let (r', found, left, valid) =
      Agrees-ok (take_bytes 8 r) payload_magic bytes
        (rw (whole, take_spec-append payload_magic bytes) at read) in
    rw found (read_frames-written frames bytes fuel r' known e valid left l)
