-- ===== src/Container/Stream/Trailer.antt =====
-- The trailer of a streamed container, `StreamTrailer` (dbs/container/stream.py). The keyed
-- BLAKE2b hash of its body is a parameter.
use dbs.Prelude.{
  Bool, List, Option, [], drop, if◌then◌else◌, leb, length, none, replicate, slice, some, take, ℕ,
  ◌&&◌, ◌*◌, ◌++◌, ◌+◌, ◌-◌, ◌==◌, ◌^◌, ◌∷◌,
}
use dbs.Bytes.{from_bytes, to_bytes}
use dbs.Container.Rs.Decode.{equal_rows}
use dbs.Container.Stream.Layout.{
  StreamLayout, chunk_capacity, max_chunk_len, tag_length, trailer_size,
}

-- "DBSEND02"
abbrev pub trailer_marker : List ℕ
trailer_marker = 0x44 ∷ 0x42 ∷ 0x53 ∷ 0x45 ∷ 0x4e ∷ 0x44 ∷ 0x30 ∷ 0x32 ∷ []

abbrev pub format_version : ℕ
format_version = 2

-- `MAX_CHUNKS - 1`
abbrev pub max_blocks : ℕ
max_blocks = 2 ^ 32 - 1

pub record StreamTrailer : Type 0 where
  pub container_id : List ℕ
  pub blocks : ℕ
  pub plaintext_bytes : ℕ
  pub final_chunk_len : ℕ
  pub blocks_digest : List ℕ

-- `TRAILER_BODY.pack`, under the format `>8sHH16sQQI4x32s`
unfoldable pub trailer_body : StreamTrailer → List ℕ
trailer_body t =
    trailer_marker
    ++ (to_bytes 2 format_version
        ++ (to_bytes 2 trailer_size
            ++ (t.container_id
                ++ (to_bytes 8 t.blocks
                    ++ (to_bytes 8 t.plaintext_bytes
                        ++ (to_bytes 4 t.final_chunk_len ++ (replicate 4 0 ++ t.blocks_digest)))))))

-- `TRAILER_BODY.unpack`
unfoldable pub unpack_trailer : List ℕ → StreamTrailer
unpack_trailer body = record {
  container_id = slice 12 28 body;
  blocks = from_bytes (slice 28 36 body);
  plaintext_bytes = from_bytes (slice 36 44 body);
  final_chunk_len = from_bytes (slice 44 48 body);
  blocks_digest = slice 52 84 body;
}

-- The guards of `StreamTrailer.open` behind the length and the checksum.
unfoldable pub trailer_fits : StreamLayout → List ℕ → List ℕ → Bool
trailer_fits layout container_id body =
    let t = unpack_trailer body in
    equal_rows (slice 0 8 body) trailer_marker
    && from_bytes (slice 8 10 body) == format_version
    && from_bytes (slice 10 12 body) == trailer_size
    && equal_rows t.container_id container_id
    && equal_rows (slice 48 52 body) (replicate 4 0)
    && leb 1 t.blocks
    && leb t.blocks max_blocks
    && leb tag_length t.final_chunk_len
    && leb t.final_chunk_len (max_chunk_len layout)
    && t.plaintext_bytes == (t.blocks - 1) * chunk_capacity layout + t.final_chunk_len - tag_length

module _ (trailer_checksum : List ℕ → List ℕ) where
  unfoldable pub seal_trailer : StreamTrailer → List ℕ
  unfolding trailer_body
  seal_trailer t = trailer_body t ++ trailer_checksum (trailer_body t)

  unfoldable pub open_trailer : StreamLayout → List ℕ → List ℕ → Option StreamTrailer
  open_trailer layout container_id raw =
      let body = take (trailer_size - 16) raw in
      if length raw == trailer_size
      then (if equal_rows (trailer_checksum body) (drop (trailer_size - 16) raw)
          then (if trailer_fits layout container_id body then some (unpack_trailer body) else none)
          else none)
      else none
