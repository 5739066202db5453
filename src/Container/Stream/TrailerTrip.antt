-- ===== src/Container/Stream/TrailerTrip.antt =====
-- A sealed trailer is opened again (`StreamTrailer` of dbs/container/stream.py).
use native.Mathlib.Nat.{mul-le-mul_left}
use dbs.Prelude.{
  List, [], ap, append-nil, append_assoc, arith, drop-append_of_length, length, length-append, refl,
  replicate, slice, slice_field, some, take-append_of_length, true, ℕ, ◌*◌, ◌++◌, ◌+◌, ◌-◌, ◌<◌,
  ◌==◌, ◌^◌, ◌∙◌, ◌≡◌, ◌≤◌,
}
use dbs.Bytes.{length-to_bytes, to_bytes, from_bytes, from_bytes-to_bytes}
use dbs.Container.Rs.RoundTrip.{equal_rows_refl}
use dbs.Container.Stream.Layout.{
  StreamLayout, chunk_capacity, max_block_size, max_chunk_len, tag_length, trailer_size,
}
use dbs.Container.Stream.Trailer.{
  StreamTrailer, format_version, max_blocks, trailer_body, trailer_marker, unpack_trailer,
  seal_trailer, trailer_fits, open_trailer,
}

-- The ranges in which a writer fills in a trailer.
pub record IsTrailer (layout : StreamLayout) (t : StreamTrailer) : Type 0 where
  pub id_length : length t.container_id ≡ 16
  pub digest_length : length t.blocks_digest ≡ 32
  pub some_blocks : 1 ≤ t.blocks
  pub not_too_many : t.blocks ≤ max_blocks
  pub tagged : tag_length ≤ t.final_chunk_len
  pub fits_block : t.final_chunk_len ≤ max_chunk_len layout
  pub small_block : layout.block_size ≤ max_block_size
  pub counted :
      t.plaintext_bytes ≡ (t.blocks - 1) * chunk_capacity layout + t.final_chunk_len - tag_length

module _ (layout : StreamLayout) (t : StreamTrailer) (h : IsTrailer layout t) where
  abbrev version_field : List ℕ
  version_field = to_bytes 2 format_version

  abbrev length_field : List ℕ
  length_field = to_bytes 2 trailer_size

  abbrev blocks_field : List ℕ
  blocks_field = to_bytes 8 t.blocks

  abbrev plaintext_field : List ℕ
  plaintext_field = to_bytes 8 t.plaintext_bytes

  abbrev final_field : List ℕ
  final_field = to_bytes 4 t.final_chunk_len

  abbrev padding : List ℕ
  padding = replicate 4 0

  abbrev to_id : List ℕ
  to_id = trailer_marker ++ (version_field ++ length_field)

  abbrev to_blocks : List ℕ
  to_blocks = to_id ++ t.container_id

  abbrev to_plaintext : List ℕ
  to_plaintext = to_blocks ++ blocks_field

  abbrev to_final : List ℕ
  to_final = to_plaintext ++ plaintext_field

  abbrev to_padding : List ℕ
  to_padding = to_final ++ final_field

  abbrev to_digest : List ℕ
  to_digest = to_padding ++ padding

  length-to_id : length to_id ≡ 12
  length-to_id = omega (
    arith,
    length-append version_field length_field,
    length-to_bytes 2 format_version,
    length-to_bytes 2 trailer_size,
  )

  length-to_blocks : length to_blocks ≡ 28
  length-to_blocks = omega (arith, length-append to_id t.container_id, length-to_id, h.id_length)

  length-to_plaintext : length to_plaintext ≡ 36
  length-to_plaintext =
      omega
        (arith, length-append to_blocks blocks_field, length-to_blocks, length-to_bytes 8 t.blocks)

  length-to_final : length to_final ≡ 44
  length-to_final = omega (
    arith,
    length-append to_plaintext plaintext_field,
    length-to_plaintext,
    length-to_bytes 8 t.plaintext_bytes,
  )

  length-to_padding : length to_padding ≡ 48
  length-to_padding = omega (
    arith,
    length-append to_final final_field,
    length-to_final,
    length-to_bytes 4 t.final_chunk_len,
  )

  length-to_digest : length to_digest ≡ 52
  length-to_digest = omega (arith, length-append to_padding padding, length-to_padding)

  id_read : slice 12 28 (trailer_body t) ≡ t.container_id
  unfolding trailer_body
  id_read = simp append_assoc at (
      slice_field 12 28 to_id t.container_id
        (blocks_field ++ (plaintext_field ++ (final_field ++ (padding ++ t.blocks_digest))))
        length-to_id h.id_length)

  blocks_read : slice 28 36 (trailer_body t) ≡ blocks_field
  unfolding trailer_body
  blocks_read = simp append_assoc at (
      slice_field 28 36 to_blocks blocks_field
        (plaintext_field ++ (final_field ++ (padding ++ t.blocks_digest))) length-to_blocks
        (length-to_bytes 8 t.blocks))

  plaintext_read : slice 36 44 (trailer_body t) ≡ plaintext_field
  unfolding trailer_body
  plaintext_read = simp append_assoc at (
      slice_field 36 44 to_plaintext plaintext_field (final_field ++ (padding ++ t.blocks_digest))
        length-to_plaintext (length-to_bytes 8 t.plaintext_bytes))

  final_read : slice 44 48 (trailer_body t) ≡ final_field
  unfolding trailer_body
  final_read = simp append_assoc at (
      slice_field 44 48 to_final final_field (padding ++ t.blocks_digest) length-to_final
        (length-to_bytes 4 t.final_chunk_len))

  padding_read : slice 48 52 (trailer_body t) ≡ padding
  unfolding trailer_body
  padding_read =
      simp append_assoc at
        (slice_field 48 52 to_padding padding t.blocks_digest length-to_padding refl)

  digest_read : slice 52 84 (trailer_body t) ≡ t.blocks_digest
  unfolding trailer_body
  digest_read =
      simp (append_assoc, append-nil) at
        (slice_field 52 84 to_digest t.blocks_digest [] length-to_digest h.digest_length)

  small_capacity : chunk_capacity layout ≤ max_block_size
  unfolding chunk_capacity
  small_capacity = omega (arith, h.small_block)

  small_chunk : max_chunk_len layout ≤ max_block_size
  unfolding max_chunk_len
  small_chunk = omega (arith, h.small_block)

  plaintext_small : t.plaintext_bytes < 256 ^ 8
  plaintext_small = omega (
    arith,
    h.counted,
    h.not_too_many,
    h.fits_block,
    small_chunk,
    mul-le-mul_left (t.blocks - 1) small_capacity,
    small_capacity,
  )

  -- Every field that was packed is read back.
  unpack-trailer_body : unpack_trailer (trailer_body t) ≡ t
  unfolding unpack_trailer
  unpack-trailer_body = λ i. record {
    container_id = id_read i;
    blocks = blocks_back i;
    plaintext_bytes = plaintext_back i;
    final_chunk_len = final_back i;
    blocks_digest = digest_read i;
  }
    where
      blocks_back : from_bytes (slice 28 36 (trailer_body t)) ≡ t.blocks
      blocks_back =
          ap from_bytes blocks_read ∙ from_bytes-to_bytes 8 t.blocks (omega (arith, h.not_too_many))

      plaintext_back : from_bytes (slice 36 44 (trailer_body t)) ≡ t.plaintext_bytes
      plaintext_back =
          ap from_bytes plaintext_read ∙ from_bytes-to_bytes 8 t.plaintext_bytes plaintext_small

      final_back : from_bytes (slice 44 48 (trailer_body t)) ≡ t.final_chunk_len
      final_back =
          ap from_bytes final_read
          ∙ from_bytes-to_bytes 4 t.final_chunk_len (omega (arith, h.fits_block, small_chunk))

  length-trailer_body : length (trailer_body t) ≡ 84
  unfolding trailer_body
  length-trailer_body =
      ap length same
      ∙ omega (arith, length-append to_digest t.blocks_digest, length-to_digest, h.digest_length)
    where
      same : trailer_body t ≡ to_digest ++ t.blocks_digest
      same = simp append_assoc

  head_read :
      (slice 0 8 (trailer_body t) ≡ trailer_marker)
      × (slice 8 10 (trailer_body t) ≡ version_field)
      × (slice 10 12 (trailer_body t) ≡ length_field)
  unfolding trailer_body to_bytes
  head_read = (refl, refl, refl)

  trailer_fits-body : trailer_fits layout t.container_id (trailer_body t) ≡ true
  unfolding trailer_fits
  trailer_fits-body =
      simp
        (
          unpack-trailer_body,
          head_read.0,
          head_read.1,
          head_read.2,
          padding_read,
          equal_rows_refl,
          from_bytes-to_bytes 2 format_version (omega arith),
          from_bytes-to_bytes 2 trailer_size (omega arith),
        )
        (ground (arith, h.some_blocks, h.not_too_many, h.tagged, h.fits_block, h.counted))

  -- A trailer that a writer sealed is opened, under the same header, with the same fields.
  pub open_trailer-seal_trailer :
      (trailer_checksum : List ℕ → List ℕ)
      → ((body : List ℕ) → length (trailer_checksum body) ≡ 16)
      → open_trailer trailer_checksum layout t.container_id (seal_trailer trailer_checksum t)
        ≡ some t
  unfolding open_trailer seal_trailer
  open_trailer-seal_trailer trailer_checksum size =
      let body = trailer_body t in
      let sum = trailer_checksum body in
      let n : (length (body ++ sum) == trailer_size) ≡ true =
        ground (arith, length-append body sum, length-trailer_body, size body) in
      simp (
        n,
        take-append_of_length 84 body sum length-trailer_body,
        drop-append_of_length 84 body sum length-trailer_body,
        equal_rows_refl,
        trailer_fits-body,
        unpack-trailer_body,
      )
