-- ===== src/Container/Stream/Header.antt =====
-- The header of a streamed container and the search for its copies: `StreamHeader`, `_locate_header`
-- and the checks of a new writer (dbs/container/stream.py).
pub mod Safe
use dbs.Prelude.{
  Bool, List, Option, [], false, get_or, if◌then◌else◌, leb, length, none, not, slice, some, take,
  true, ℕ, ◌&&◌, ◌*◌, ◌++◌, ◌-◌, ◌==◌, ◌∷◌,
}
use dbs.Bytes.{from_bytes, to_bytes}
use dbs.Container.Format.{open_sealed_header, seal_header}
use dbs.Container.Rs.Decode.{equal_rows}
use dbs.Container.Stream.Layout.{StreamLayout, header_size, layout_problem}
use dbs.Container.Stream.Place.{emit}
use dbs.Container.Stream.Reader.{Metadata, back_header, front_header}
use dbs.Container.Stream.Reader.Pass.{read_at}
use dbs.Container.Stream.Trailer.{format_version}
use dbs.Container.Stream.Writer.{Writer}
use dbs.Crypto.Limits.{KdfParams, validate_untrusted}
use dbs.Result.{◌>>◌, Result, container_error, err, guard, ok, value_error, ◌>>=◌}

pub record StreamHeader : Type 0 where
  pub flags : ℕ
  pub layout : StreamLayout
  pub kdf_params : KdfParams
  pub salt : List ℕ
  pub container_id : List ℕ
  pub nonce_prefix : List ℕ
  pub wrap_nonce : List ℕ
  pub wrapped_key : List ℕ

-- `struct.Struct(">HHIIIIHH16s16s7sx12s48s").size`
abbrev pub header_body_size : ℕ
header_body_size = 124

-- without the wrapped key and its nonce
abbrev pub key_binding_size : ℕ
key_binding_size = header_body_size - 12 - 48

-- `HEADER_BODY.pack`, with the reserved field 0 and one byte of padding
unfoldable pub pack_body : StreamHeader → List ℕ
pack_body h =
    to_bytes 2 h.flags
    ++ (to_bytes 2 h.layout.nsym
        ++ (to_bytes 4 h.layout.block_size
            ++ (to_bytes 4 h.layout.interleave
                ++ (to_bytes 4 h.kdf_params.time_cost
                    ++ (to_bytes 4 h.kdf_params.memory_cost
                        ++ (to_bytes 2 h.kdf_params.parallelism
                            ++ (to_bytes 2 0
                                ++ (h.salt
                                    ++ (h.container_id
                                        ++ (h.nonce_prefix
                                            ++ (0 ∷ (h.wrap_nonce ++ h.wrapped_key))))))))))))

unfoldable pub key_binding : StreamHeader → List ℕ
unfolding pack_body
key_binding h = take key_binding_size (pack_body h)

unfoldable pub seal_stream_header : (List ℕ → List ℕ) → StreamHeader → Result (List ℕ)
unfolding pack_body
seal_stream_header sealed_checksum h = seal_header sealed_checksum format_version (pack_body h)

-- `HEADER_BODY.unpack`; the length of the key has its default.
unfoldable pub unpack_header : List ℕ → StreamHeader
unpack_header body = record {
  flags = from_bytes (slice 0 2 body);
  layout = record {
    block_size = from_bytes (slice 4 8 body);
    nsym = from_bytes (slice 2 4 body);
    interleave = from_bytes (slice 8 12 body);
  };
  kdf_params = record {
    time_cost = from_bytes (slice 12 16 body);
    memory_cost = from_bytes (slice 16 20 body);
    parallelism = from_bytes (slice 20 22 body);
    key_length = 32;
  };
  salt = slice 24 40 body;
  container_id = slice 40 56 body;
  nonce_prefix = slice 56 63 body;
  wrap_nonce = slice 64 76 body;
  wrapped_key = slice 76 124 body;
}

abbrev pub is_none {ℓ} : {A : Type ℓ} → Option A → Bool
is_none none = true
is_none (some a) = false

-- `CryptoError` is raised again as a `ContainerError`.
unfoldable pub as_container_error : Result (Unit {0}) → Result (Unit {0})
as_container_error (ok u) = ok u
as_container_error (err e) = err container_error

unfoldable pub parse_stream_header : List ℕ → Result StreamHeader
unfolding unpack_header as_container_error
parse_stream_header body = do
  guard (length body == header_body_size) container_error
  guard (from_bytes (slice 22 24 body) == 0 && get_or body 63 0 == 0) container_error
  let h = unpack_header body
  guard (is_none (layout_problem h.layout)) container_error
  as_container_error (validate_untrusted h.kdf_params)
  ok h

-- A copy of the header that opens, of this format version.
unfoldable pub header_copy : (List ℕ → List ℕ) → List ℕ → ℕ → Option (List ℕ × List ℕ)
header_copy sealed_checksum source offset =
    let raw = read_at source offset header_size in
    elim (open_sealed_header sealed_checksum raw) [
      | none ↦ none
      | some (version, body) ↦ if version == format_version then some (raw, body) else none
    ]

-- `raw != chosen`
unfoldable pub copy_differs : List ℕ → Option (List ℕ × List ℕ) → Bool
copy_differs chosen none = true
copy_differs chosen (some (raw, body)) = not (equal_rows raw chosen)

-- The header and the names of the damaged copies; the errors for other format versions are one.
unfoldable pub locate_header : (List ℕ → List ℕ) → List ℕ → Result (StreamHeader × List Metadata)
unfolding header_copy copy_differs parse_stream_header
locate_header sealed_checksum source = do
  let size = length source
  let front = header_copy sealed_checksum source 0
  let back =
      if leb (2 * header_size) size
      then header_copy sealed_checksum source (size - header_size)
      else none
  elim (if is_none front then back else front) [
    | none ↦ err container_error
    | some (chosen, body) ↦ do
      header ← parse_stream_header body
      ok (
        header,
        (if copy_differs chosen front then front_header ∷ [] else [])
            ++ (if copy_differs chosen back then back_header ∷ [] else []),
      )
  ]

-- The checks of `StreamWriter.__init__` on its arguments, in their order.
unfoldable pub check_arguments : StreamLayout → ℕ → ℕ → KdfParams → Result (Unit {0})
check_arguments layout flags workers params = do
  guard (is_none (layout_problem layout)) value_error
  guard (leb flags 0xFFFF) value_error
  guard (leb 1 workers) value_error
  validate_untrusted params

-- A new writer, whose header and its sealed form are given: the header is emitted at once.
unfoldable pub new_writer : StreamLayout → ℕ → ℕ → KdfParams → List ℕ → Result Writer
unfolding check_arguments
new_writer layout flags workers params sealed_header = do
  check_arguments layout flags workers params
  ok (record {
    encoder = record {
      layout = layout;
      workers = workers;
      batch = [];
      next_index = 0;
      output =
          emit sealed_header (record { sink = []; container_bytes = 0; tags = []; window = [] });
    };
    sealed_header = sealed_header;
    pending = [];
    plaintext_bytes = 0;
    final_chunk_len = 0;
    summary = none;
    closed = false;
  })
