-- ===== src/Engine/Payload/Reader.antt =====
-- `PayloadReader` and `FileStream` (dbs/engine/frames.py). A consumer of `files` reads a file's
-- chunks to their end, or leaves the file to the generator, which then does. The state of a reader
-- holds the frames not yet read.
use dbs.Engine.Kind
use Prim.Native.String.{String}
use mathlib.Core.List.{flatten}
use text.Mathlib.Text.{◌==◌ as str_eq}
use dbs.Prelude.{
  Bool, List, Option, [], drop, false, if◌then◌else◌, leb, length, map, none, not, some, suc, take,
  true, zero, ℕ, ◌&&◌, ◌++◌, ◌+◌, ◌==◌, ◌∷◌,
}
use dbs.Bytes.{from_bytes}
use dbs.Engine.Frames.{Frame, FrameReader, max_files, new_reader, next_frame}
use dbs.Engine.Json.{
  Json, count_of, equals_count, fields_of, get, is_count, is_object, is_text, items_of, labels_of,
  null, text_of,
}
use dbs.Engine.Payload.{
  FileEntry, Rank, checked_entries, checked_header, checked_records, checked_trailer, is_list,
  rank_from,
}
use dbs.Result.{
  Result, container_error, corruption_error, err, guard, ok, runtime_error, ◌>>=◌, ◌>>◌,
  out_of_fuel,
}

-- `json.loads` of bytes, `bytes.decode("utf-8")`, `json.loads` of a text, where they do not raise,
-- and the hexadecimal SHA-256 digest
pub record Parsers : Type 0 where
  pub loads : List ℕ → Option Json
  pub decode_utf8 : List ℕ → Option String
  pub loads_text : String → Option Json
  pub hexdigest : List ℕ → String

pub data Phase : Type 0 where
  header manifest files records trailer end done : Phase

pub record PayloadReader : Type 0 where
  pub frames : FrameReader
  pub pending : Option Frame
  pub header : Json
  pub entries : List FileEntry
  pub trailer : Json
  pub rank : Rank
  pub position : ℕ
  pub phase : Phase

pub record FileStream : Type 0 where
  pub index : ℕ
  pub entry : FileEntry
  pub size : ℕ
  pub sha256 : String
  pub skipped : String
  pub is_done : Bool

unfoldable pub phase_index : Phase → ℕ
phase_index Phase.header = 0
phase_index Phase.manifest = 1
phase_index Phase.files = 2
phase_index Phase.records = 3
phase_index Phase.trailer = 4
phase_index Phase.end = 5
phase_index Phase.done = 6

-- `PayloadReader.__init__`
unfoldable pub new_payload : List (List ℕ) → Result PayloadReader
unfolding new_reader
new_payload pieces = new_reader pieces >>= λ frames. ok (record {
  frames = frames;
  pending = none;
  header = null;
  entries = [];
  trailer = null;
  rank = [];
  position = 0;
  phase = Phase.header;
})

-- `_peek`
unfoldable pub peek : PayloadReader → Result (Frame × PayloadReader)
unfolding next_frame
peek r = elim r.pending [
  | some found ↦ ok (found, r)
  | none ↦ next_frame r.frames >>= λ (found, frames). elim found [
    | none ↦ err container_error
    | some first ↦ ok (first, record r { frames = frames; pending = some first })
  ]
]

-- `_frame`
unfoldable pub take_frame : PayloadReader → Result (Frame × PayloadReader)
unfolding peek
take_frame r = peek r >>= λ (found, r'). ok (found, record r' { pending = none })

-- `_expect`
unfoldable pub expect : Phase → PayloadReader → Result (Unit {0})
unfolding phase_index
expect phase r = guard (phase_index r.phase == phase_index phase) runtime_error

unfoldable pub parsed : Option Json → Result Json
parsed none = err container_error
parsed (some value) = ok value

-- a stream when `_finish` has accepted its end
unfoldable pub finish_stream : Json → ℕ → String → FileStream → Result FileStream
unfolding is_object get fields_of equals_count is_text text_of is_count count_of
finish_stream value size digest stream = do
  let fields = fields_of value
  let skipped = get "skipped" fields
  let reason =
      guard (is_text skipped && not (str_eq (text_of skipped) "")) container_error
      >> ok (record stream { is_done = true; skipped = text_of skipped })
  let whole =
      guard (is_count (get "size" fields) && is_text (get "sha256" fields)) container_error
      >> (guard
            (size == count_of (get "size" fields) && str_eq digest (text_of (get "sha256" fields)))
            corruption_error
          >> ok (record stream {
            is_done = true;
            size = size;
            sha256 = digest;
            entry = record stream.entry { sha256 = digest };
          }))
  guard (is_object value && equals_count (get "index" fields) stream.index) container_error
  elim skipped [ null ↦ whole | _ ↦ reason ]

module _ (parsers : Parsers) where
  open parsers use {loads, decode_utf8, loads_text, hexdigest}

  unfoldable pub read_header : PayloadReader → Result PayloadReader
  unfolding expect take_frame parsed checked_header rank_from labels_of get fields_of
  read_header r =
      expect Phase.header r
      >> (take_frame r >>= λ ((kind, body), r').
          guard (kind == Kind.header) container_error
          >> (parsed (loads body) >>= λ value. checked_header value >>= λ checked. ok (record r' {
            header = checked;
            rank = rank_from 0 (labels_of (get "order" (fields_of checked))) [];
            phase = Phase.manifest;
          })))

  -- the body of one manifest frame
  unfoldable pub add_entries : List ℕ → PayloadReader → Result PayloadReader
  unfolding parsed is_list items_of checked_entries
  add_entries body r = parsed (loads body) >>= λ value.
      guard (is_list value) container_error
      >> (checked_entries (items_of value) >>= λ entries.
          guard (leb (length (r.entries ++ entries)) max_files) container_error
          >> ok (record r { entries = r.entries ++ entries }))

  unfoldable pub manifest_rounds : ℕ → PayloadReader → Result PayloadReader
  unfolding peek take_frame add_entries
  manifest_rounds zero r = err out_of_fuel
  manifest_rounds (suc fuel) r = peek r >>= λ ((kind, body), r').
      let next =
        take_frame r' >>= λ (found, after). add_entries body after >>= manifest_rounds fuel in
      if kind == Kind.manifest then next else ok r'

  unfoldable pub read_manifest : ℕ → PayloadReader → Result PayloadReader
  unfolding expect manifest_rounds
  read_manifest fuel r =
      expect Phase.manifest r
      >> (manifest_rounds fuel r >>= λ r'. ok (record r' { phase = Phase.files }))

  -- The loop of `chunks`, with the chunks that it has yielded: the stream, its chunks, the reader.
  unfoldable pub chunk_rounds :
      ℕ
      → FileStream
      → ℕ
      → List (List ℕ)
      → PayloadReader
      → Result (FileStream × List (List ℕ) × PayloadReader)
  unfolding take_frame parsed finish_stream
  chunk_rounds zero stream size chunks r = err out_of_fuel
  chunk_rounds (suc fuel) stream size chunks r = take_frame r >>= λ ((kind, body), r').
      let chunk = drop 4 body in
      let next =
        guard (leb 4 (length body) && from_bytes (take 4 body) == stream.index) container_error
        >> chunk_rounds fuel stream (size + length chunk) (chunks ++ chunk ∷ []) r' in
      let last =
        guard (kind == Kind.file_end) container_error
        >> (parsed (loads body) >>= λ value.
            finish_stream value size (hexdigest (flatten chunks)) stream >>= λ finished.
            ok (finished, chunks, r')) in
      if kind == Kind.file_data then next else last

  unfoldable pub file_rounds :
      ℕ
      → ℕ
      → List FileEntry
      → PayloadReader
      → Result (List (FileStream × List (List ℕ)) × PayloadReader)
  unfolding chunk_rounds
  file_rounds fuel index [] r = ok ([], r)
  file_rounds fuel index (entry ∷ entries) r =
      let stream : FileStream = record {
        index = index;
        entry = entry;
        size = 0;
        sha256 = "";
        skipped = "";
        is_done = false;
      } in
      chunk_rounds fuel stream 0 [] r >>= λ (finished, chunks, r').
      file_rounds fuel (index + 1) entries r' >>= λ (streams, after).
      ok ((finished, chunks) ∷ streams, after)

  -- `files`; the streams' entries are those of the reader
  unfoldable pub read_files :
      ℕ → PayloadReader → Result (List (FileStream × List (List ℕ)) × PayloadReader)
  unfolding expect file_rounds
  read_files fuel r =
      expect Phase.files r
      >> (file_rounds fuel 0 r.entries r >>= λ (streams, r'). ok (
        streams,
        record r' {
          phase = Phase.records;
          entries = map (λ (stream, chunks). stream.entry) streams;
        },
      ))

  -- one parsed batch
  unfoldable pub add_batch : List ℕ → PayloadReader → Result (List Json × PayloadReader)
  unfolding parsed checked_records
  add_batch body r = elim (decode_utf8 body) [
    | none ↦ err container_error
    | some decoded ↦ parsed (loads_text decoded) >>= λ value.
        checked_records value r.rank r.position >>= λ (entries, position).
        ok (entries, record r { position = position })
  ]

  -- The loop of `record_batches`; a batch that is not parsed is given as the empty one.
  unfoldable pub batch_rounds : ℕ → Bool → PayloadReader → Result (List (List Json) × PayloadReader)
  unfolding peek take_frame add_batch
  batch_rounds zero parse r = err out_of_fuel
  batch_rounds (suc fuel) parse r = peek r >>= λ ((kind, body), r').
      let next = take_frame r' >>= λ (found, after).
      (if parse then add_batch body after else ok ([], after)) >>= λ (batch, added).
      batch_rounds fuel parse added >>= λ (batches, last). ok (batch ∷ batches, last) in
      if kind == Kind.records then next else ok ([], r')

  unfoldable pub record_batches :
      ℕ → Bool → PayloadReader → Result (List (List Json) × PayloadReader)
  unfolding expect batch_rounds
  record_batches fuel parse r =
      expect Phase.records r
      >> (batch_rounds fuel parse r >>= λ (batches, r').
          ok (batches, record r' { phase = Phase.trailer }))

  unfoldable pub read_trailer : PayloadReader → Result PayloadReader
  unfolding expect take_frame parsed checked_trailer
  read_trailer r =
      expect Phase.trailer r
      >> (take_frame r >>= λ ((kind, body), r').
          guard (kind == Kind.trailer) container_error
          >> (parsed (loads body) >>= λ value. checked_trailer value >>= λ checked.
              ok (record r' { trailer = checked; phase = Phase.end })))

  unfoldable pub finish_payload : PayloadReader → Result PayloadReader
  unfolding expect next_frame
  finish_payload r =
      expect Phase.end r
      >> (next_frame r.frames >>= λ (found, frames). elim found [
        | some first ↦ err container_error
        | none ↦ ok (record r { frames = frames; phase = Phase.done })
      ])
