-- ===== src/Container/Stream/Writer.antt =====
-- `StreamWriter`: chunks, batches and slots (dbs/container/stream.py). The cipher, the keyed hash
-- of a slot and those of the digest and the trailer are parameters. A thread pool maps the groups
-- of a batch in their order, so the number of workers shows only in the size of a batch.
pub mod Cut
pub mod Write
use dbs.Prelude.{
  Bool, List, Option, [], drop, false, if◌then◌else◌, leb, length, ltb, map, min, none, not,
  replicate, some, suc, take, true, zero, ℕ, ◌&&◌, ◌*◌, ◌++◌, ◌+◌, ◌-◌, ◌/◌, ◌==◌, ◌∷◌,
}
use dbs.Bytes.{to_bytes}
use dbs.Container.Rs.Encode.{encode_many}
use dbs.Container.Stream.Layout.{
  StreamLayout, burst_tolerance, chunk_capacity, slot_size, tag_length,
}
use dbs.Container.Stream.Place.{Output, Slot, drain, emit, place_all}
use dbs.Container.Stream.Trailer.{StreamTrailer, max_blocks, seal_trailer}
use dbs.Result.{Result, ok, err, value_error, container_error, ◌>>=◌}

pub record Primitives : Type 0 where
  pub seal : ℕ → List ℕ → Bool → List ℕ
  pub slot_tag : List ℕ → List ℕ
  pub digest : List (List ℕ) → List ℕ
  pub trailer_checksum : List ℕ → List ℕ
  pub container_id : List ℕ

abbrev pub batch_blocks : ℕ
batch_blocks = 16

-- What `_queue` and `_flush` touch of a writer.
pub record Encoder : Type 0 where
  pub layout : StreamLayout
  pub workers : ℕ
  pub batch : List (List ℕ)
  pub next_index : ℕ
  pub output : Output

pub record Summary : Type 0 where
  pub container_bytes : ℕ
  pub plaintext_bytes : ℕ
  pub blocks : ℕ
  pub slot_bytes : ℕ
  pub correctable_bytes_per_codeword : ℕ
  pub burst_tolerance_bytes : ℕ

pub record Writer : Type 0 where
  pub encoder : Encoder
  pub sealed_header : List ℕ
  pub pending : List ℕ
  pub plaintext_bytes : ℕ
  pub final_chunk_len : ℕ
  pub summary : Option Summary
  pub closed : Bool

-- `index == final_index`, where there is a final index
unfoldable pub is_final : ℕ → Option ℕ → Bool
is_final index none = false
is_final index (some final_index) = index == final_index

-- `jobs[start : start + BATCH_BLOCKS]` for each start; `fuel` bounds the number of groups.
unfoldable pub groups_of : ℕ → List (ℕ × List ℕ) → List (List (ℕ × List ℕ))
groups_of zero jobs = []
groups_of (suc fuel) [] = []
groups_of (suc fuel) (job ∷ jobs) =
    take batch_blocks (job ∷ jobs) ∷ groups_of fuel (drop batch_blocks (job ∷ jobs))

-- the jobs of a batch: each chunk with its block number
unfoldable pub numbered : ℕ → List (List ℕ) → List (ℕ × List ℕ)
numbered first [] = []
numbered first (chunk ∷ chunks) = (first, chunk) ∷ numbered (first + 1) chunks

module _ (p : Primitives) where
  -- a block: the packed descriptor `>QIB3x`, the sealed chunk, and zeros up to the block size
  unfoldable pub block_of : ℕ → Option ℕ → ℕ × List ℕ → List ℕ
  unfolding is_final
  block_of block_size final_index (index, chunk) =
      let final = is_final index final_index in
      let sealed = p.seal index chunk final in
      let block =
        to_bytes 8 index
        ++ (to_bytes 4 (length sealed) ++ ((if final then 1 else 0) ∷ replicate 3 0 ++ sealed)) in
      block ++ replicate (block_size - length block) 0

  unfoldable pub encode_group : StreamLayout → Option ℕ → List (ℕ × List ℕ) → Result (List Slot)
  encode_group layout final_index jobs = do
    encoded ← encode_many (map (block_of layout.block_size final_index) jobs) layout.nsym
    ok (map (λ e. e ++ p.slot_tag e) encoded)

  unfoldable pub encode_groups :
      StreamLayout → Option ℕ → List (List (ℕ × List ℕ)) → Result (List Slot)
  encode_groups layout final_index [] = ok []
  encode_groups layout final_index (group ∷ groups) = do
    slots ← encode_group layout final_index group
    others ← encode_groups layout final_index groups
    ok (slots ++ others)

  unfoldable pub flush : Bool → Encoder → Result Encoder
  flush final enc =
      let count = length enc.batch in
      let first = enc.next_index in
      let final_index = if final then some (first + count - 1) else none in
      if count == 0
      then ok enc
      else if ltb max_blocks (first + count)
      then err container_error
      else (do
        slots ← encode_groups enc.layout final_index (groups_of count (numbered first enc.batch))
        ok (record enc {
          batch = [];
          next_index = first + count;
          output = place_all enc.layout.interleave slots enc.output;
        }))

  unfoldable pub queue : List ℕ → Encoder → Result Encoder
  queue chunk enc =
      let queued = record enc { batch = enc.batch ++ chunk ∷ [] } in
      if leb (batch_blocks * enc.workers) (length queued.batch)
      then flush false queued
      else ok queued

  -- The first `if` of `write`: what is pending is filled up. The results are the encoder, the new
  -- pending bytes and the rest of the data.
  unfoldable pub fill : List ℕ → List ℕ → Encoder → Result (Encoder × List ℕ × List ℕ)
  fill pending view enc =
      let room = chunk_capacity enc.layout - length pending in
      let filled = pending ++ take room view in
      let offset = min room (length view) in
      if not (length pending == 0) && not (length view == 0)
      then (if ltb offset (length view)
          then (do enc' ← queue filled enc; ok (enc', [], drop offset view))
          else ok (enc, filled, drop offset view))
      else ok (enc, pending, view)

  -- `while size - offset > capacity`, on fuel
  unfoldable pub queue_while : ℕ → ℕ → List ℕ → Encoder → Result (Encoder × List ℕ)
  queue_while zero capacity view enc = ok (enc, view)
  queue_while (suc fuel) capacity view enc = elim (ltb capacity (length view)) [
    | true ↦ do
      enc' ← queue (take capacity view) enc
      queue_while fuel capacity (drop capacity view) enc'
    | false ↦ ok (enc, view)
  ]

  unfoldable pub write : List ℕ → Writer → Result (Writer × ℕ)
  write view w = if w.closed then err value_error else (do
    (enc, pending, rest) ← fill w.pending view w.encoder
    (enc', left) ← queue_while (length rest) (chunk_capacity w.encoder.layout) rest enc
    ok (
      record w {
        encoder = enc';
        pending = pending ++ left;
        plaintext_bytes = w.plaintext_bytes + length view;
      },
      length view,
    ))

  -- the summary of a container whose bytes have all been emitted
  summary_of : Encoder → ℕ → Summary
  summary_of enc plaintext_bytes = record {
    container_bytes = enc.output.container_bytes;
    plaintext_bytes = plaintext_bytes;
    blocks = enc.next_index;
    slot_bytes = slot_size enc.layout;
    correctable_bytes_per_codeword = enc.layout.nsym / 2;
    burst_tolerance_bytes = burst_tolerance enc.layout enc.next_index;
  }

  unfoldable pub trailer_of : Writer → Encoder → StreamTrailer
  trailer_of w enc = record {
    container_id = p.container_id;
    blocks = enc.next_index;
    plaintext_bytes = w.plaintext_bytes;
    final_chunk_len = length w.pending + tag_length;
    blocks_digest = p.digest enc.output.tags;
  }

  -- `close`, for a sink that takes all it is given
  unfoldable pub close : Writer → Result (Writer × Summary)
  unfolding summary_of
  close w = elim w.summary [
    | some summary ↦ ok (w, summary)
    | none ↦ if w.closed then err value_error else (do
      enc ← flush true (record w.encoder { batch = w.encoder.batch ++ w.pending ∷ [] })
      let trailer = seal_trailer p.trailer_checksum (trailer_of w enc)
      let output = emit w.sealed_header (emit trailer (emit trailer (drain enc.output)))
      let done = record enc { output = output }
      let summary = summary_of done w.plaintext_bytes
      ok (
        record w {
          encoder = done;
          pending = [];
          final_chunk_len = length w.pending + tag_length;
          summary = some summary;
          closed = true;
        },
        summary,
      ))
  ]

  unfoldable pub abort : Writer → Writer
  abort w = record w {
    encoder = record w.encoder { batch = []; output = record w.encoder.output { window = [] } };
    pending = [];
    closed = true;
  }
