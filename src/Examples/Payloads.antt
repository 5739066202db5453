-- ===== src/Examples/Payloads.antt =====
-- A small payload of the engine: its frames, and what its reader makes of them.
use Prim.Native.String.{String}
use mathlib.Core.List.{flatten}
use dbs.Prelude.{
  Bool, List, Option, [], arith, false, if◌then◌else◌, none, refl, some, true, ℕ, ◌==◌, ◌∷◌, ◌≡◌,
  ◌≢◌,
}
use dbs.Engine.Frames.{frame, is_known, Frame, FrameReader, next_frame, new_reader, payload_magic}
use dbs.Engine.Frames.Refine.{Agrees, frame_spec, next_frame-frame_spec}
use dbs.Engine.Frames.Trip.{read_frames, read_frames-new_reader, written}
use dbs.Engine.Json.{Json, array, cons, count, end, field, nil, object, string, null}
use dbs.Engine.Payload.{FileEntry}
use dbs.Engine.Payload.Ended.{read_through-returns}
use dbs.Engine.Payload.Ordered.{Ranked, record_batches-Ranked}
use dbs.Engine.Payload.Reader.{FileStream, Parsers, PayloadReader, Phase, record_batches}
use dbs.Engine.Payload.Through.{Contents, read_through}
use dbs.Result.{Result, ok, err, out_of_fuel, ◌>>=◌}

abbrev frame_bytes : List ℕ
frame_bytes = b'E' ∷ 0 ∷ 0 ∷ 0 ∷ 1 ∷ 9 ∷ b'R' ∷ 0 ∷ 0 ∷ 0 ∷ 2 ∷ 4 ∷ 5 ∷ []

abbrev two_frames : List Frame
two_frames = (b'E', 9 ∷ []) ∷ (b'R', 4 ∷ 5 ∷ []) ∷ []

-- The first piece ends within the magic and the second one within a prefix.
abbrev three_pieces : List (List ℕ)
three_pieces =
    (b'D' ∷ b'B' ∷ b'S' ∷ b'P' ∷ [])
    ∷ (b'A' ∷ b'Y' ∷ b'0' ∷ b'2' ∷ b'E' ∷ 0 ∷ 0 ∷ [])
    ∷ (0 ∷ 1 ∷ 9 ∷ b'R' ∷ 0 ∷ 0 ∷ 0 ∷ 2 ∷ 4 ∷ 5 ∷ [])
    ∷ []

read_frames-new_reader_example : (new_reader three_pieces >>= read_frames 3) ≡ ok two_frames
unfolding written frame flatten is_known
read_frames-new_reader_example =
    read_frames-new_reader two_frames frame_bytes three_pieces 3 (refl, (refl, tt)) refl refl
      (omega arith)

abbrev halfway : FrameReader
halfway = record {
  pieces = (0 ∷ 1 ∷ 9 ∷ b'R' ∷ []) ∷ [];
  buffer = b'2' ∷ b'E' ∷ 0 ∷ 0 ∷ [];
  start = 1;
}

next_frame-frame_spec_example :
    Agrees (next_frame halfway) (frame_spec (b'E' ∷ 0 ∷ 0 ∷ 0 ∷ 1 ∷ 9 ∷ b'R' ∷ []))
unfolding flatten
next_frame-frame_spec_example = next_frame-frame_spec halfway (omega arith)

abbrev labelled : String → Json
labelled label =
    object (field "model" (string label) (field "pk" (count 1) (field "fields" (object end) end)))

abbrev file_end_fields : Json
file_end_fields =
    object (field "index" (count 0) (field "size" (count 3) (field "sha256" (string "d") end)))

abbrev header_fields : Json
header_fields = object (
    field "version" (count 2)
      (field "order" (array (cons (string "users") (cons (string "groups") nil))) end))

abbrev entry_fields : Json
entry_fields =
    object
      (field "kind" (string "field") (field "name" (string "a.txt") (field "size" (count 3) end)))

abbrev model_count : String → Json
model_count label = object (field "model" (string label) (field "count" (count 1) end))

abbrev trailer_fields : Json
trailer_fields = object (
    field "stats"
      (object (
        field "models" (array (cons (model_count "users") (cons (model_count "groups") nil))) (
          field "records" (count 2)
            (field "files" (count 1) (field "skipped_files" (array nil) end)))))
      end)

-- Bytes stand for the value that they are parsed to.
abbrev loads : List ℕ → Option Json
loads [] = none
loads (b ∷ bytes) =
    if b == 1
    then some header_fields
    else if b == 2
    then some (array (cons entry_fields nil))
    else if b == 3
    then some file_end_fields
    else if b == 6
    then some trailer_fields
    else none

abbrev decode_utf8 : List ℕ → Option String
decode_utf8 [] = none
decode_utf8 (b ∷ bytes) = if b == 4 then some "users" else some "groups"

abbrev loads_text : String → Option Json
loads_text text = some (array (cons (labelled text) nil))

abbrev parsers : Parsers
parsers = record {
  loads = loads;
  decode_utf8 = decode_utf8;
  loads_text = loads_text;
  hexdigest = λ bytes. "d";
}

abbrev reader_of : List ℕ → Phase → List FileEntry → ℕ → PayloadReader
reader_of bytes phase entries position = record {
  frames = record { pieces = []; buffer = bytes; start = 0 };
  pending = none;
  header = null;
  entries = entries;
  trailer = null;
  rank = ("groups", 1) ∷ ("users", 0) ∷ [];
  position = position;
  phase = phase;
}

-- Two batches and the frame of the trailer.
abbrev batches_left : PayloadReader
batches_left =
    reader_of (b'R' ∷ 0 ∷ 0 ∷ 0 ∷ 1 ∷ 4 ∷ b'R' ∷ 0 ∷ 0 ∷ 0 ∷ 1 ∷ 5 ∷ b'T' ∷ 0 ∷ 0 ∷ 0 ∷ 1 ∷ 6 ∷ [])
      Phase.records [] 0

abbrev after_batches : PayloadReader
after_batches = record batches_left {
  frames = record batches_left.frames { start = 18 };
  pending = some (b'T', 6 ∷ []);
  position = 1;
  phase = Phase.trailer;
}

record_batches-Ranked_example :
    Ranked batches_left.rank 0 (labelled "users" ∷ labelled "groups" ∷ []) 1
unfolding record_batches flatten
record_batches-Ranked_example =
    record_batches-Ranked parsers 3 batches_left after_batches
      ((labelled "users" ∷ []) ∷ (labelled "groups" ∷ []) ∷ []) refl

abbrev one_entry : FileEntry
one_entry = record {
  kind = "field";
  size = 3;
  sha256 = "";
  model = none;
  pk = count 1;
  field_name = none;
  name = "a.txt";
  root = none;
}

-- A file in two chunks.
abbrev file_left : PayloadReader
file_left =
    reader_of
      (b'D' ∷ 0 ∷ 0 ∷ 0 ∷ 6 ∷ 0 ∷ 0 ∷ 0 ∷ 0 ∷ 7 ∷ 8 ∷ b'D' ∷ 0 ∷ 0 ∷ 0 ∷ 5 ∷ 0 ∷ 0 ∷ 0 ∷ 0 ∷ 9
        ∷ b'E' ∷ 0 ∷ 0 ∷ 0 ∷ 1 ∷ 3 ∷ [])
      Phase.files (one_entry ∷ []) 0

abbrev read_stream : FileStream
read_stream = record {
  index = 0;
  entry = record one_entry { sha256 = "d" };
  size = 3;
  sha256 = "d";
  skipped = "";
  is_done = true;
}

abbrev after_files : PayloadReader
after_files = record file_left {
  frames = record file_left.frames { start = 27 };
  entries = record one_entry { sha256 = "d" } ∷ [];
  phase = Phase.records;
}

-- A whole payload: its header, its manifest, a file, two batches and the trailer.
abbrev whole_payload : List (List ℕ)
whole_payload =
    payload_magic
    ∷ (b'H' ∷ 0 ∷ 0 ∷ 0 ∷ 1 ∷ 1 ∷ b'M' ∷ 0 ∷ 0 ∷ 0 ∷ 1 ∷ 2 ∷ [])
    ∷ file_left.frames.buffer
    ∷ batches_left.frames.buffer
    ∷ []

abbrev is_read : Result Contents → Bool
is_read (ok contents) = true
is_read (err e) = false

whole_payload_read : is_read (read_through parsers 70 whole_payload) ≡ true
unfolding read_through flatten
whole_payload_read = refl

read_through-returns_example : read_through parsers 70 whole_payload ≢ err out_of_fuel
unfolding flatten
read_through-returns_example = read_through-returns parsers 70 whole_payload (omega arith)
