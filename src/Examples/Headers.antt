-- ===== src/Examples/Headers.antt =====
-- Concrete runs of the search for a header and of the making of a writer.
use dbs.Prelude.{List, [], drop, false, none, refl, replicate, take, ℕ, ◌++◌, ◌∷◌, ◌≡◌}
use dbs.Bytes.{from_bytes}
use dbs.Container.Format.{magic, open_sealed_header}
use dbs.Container.Rs.Decode.{equal_rows}
use dbs.Container.Rs.Sizes.{encoded_length}
use dbs.Container.Stream.Header.{
  StreamHeader, header_body_size, as_container_error, check_arguments, copy_differs, header_copy,
  locate_header, new_writer, parse_stream_header, unpack_header,
}
use dbs.Container.Stream.Header.Safe.{IsFresh, locate_header-IsSafe, new_writer-IsOpen}
use dbs.Container.Stream.Layout.{IsUsable, StreamLayout, layout_problem}
use dbs.Container.Stream.Place.{emit}
use dbs.Container.Stream.Reader.{back_header}
use dbs.Container.Stream.Reader.Pass.{read_at}
use dbs.Container.Stream.Writer.{Primitives, Writer}
use dbs.Container.Stream.Writer.Write.{IsOpen}
use dbs.Crypto.Limits.{IsAffordable, KdfParams, validate, validate_untrusted}
use dbs.Result.{ok}

abbrev no_checksum : List ℕ → List ℕ
no_checksum = λ bytes. replicate 16 0

abbrev plain_layout : StreamLayout
plain_layout = record { block_size = 512; nsym = 2; interleave = 2 }

abbrev plain_params : KdfParams
plain_params = record { time_cost = 3; memory_cost = 64; parallelism = 4; key_length = 32 }

abbrev plain_header : StreamHeader
plain_header = record {
  flags = 1;
  layout = plain_layout;
  kdf_params = plain_params;
  salt = replicate 16 1;
  container_id = replicate 16 2;
  nonce_prefix = replicate 7 3;
  wrap_nonce = replicate 12 4;
  wrapped_key = replicate 48 5;
}

-- A source that ends behind its first header.
abbrev header_only : List ℕ
header_only =
    magic
    ++ (0
        ∷ 2
        ∷ 0
        ∷ 152
        ∷ (0
            ∷ 1
            ∷ 0
            ∷ 2
            ∷ 0
            ∷ 0
            ∷ 2
            ∷ 0
            ∷ 0
            ∷ 0
            ∷ 0
            ∷ 2
            ∷ (0
                ∷ 0
                ∷ 0
                ∷ 3
                ∷ 0
                ∷ 0
                ∷ 0
                ∷ 64
                ∷ 0
                ∷ 4
                ∷ 0
                ∷ 0
                ∷ (replicate 16 1
                    ++ (replicate 16 2
                        ++ (replicate 7 3
                            ++ (0 ∷ (replicate 12 4 ++ (replicate 48 5 ++ replicate 16 0)))))))))

only_header : locate_header no_checksum header_only ≡ ok (plain_header, back_header ∷ [])
unfolding locate_header header_copy copy_differs parse_stream_header unpack_header
    as_container_error open_sealed_header read_at equal_rows from_bytes layout_problem
    encoded_length validate_untrusted validate
only_header = refl

locate_header-IsSafe_example : IsUsable plain_layout × IsAffordable plain_params
locate_header-IsSafe_example =
    locate_header-IsSafe no_checksum header_only plain_header (back_header ∷ []) only_header

abbrev plain_writer : Writer
plain_writer = record {
  encoder = record {
    layout = plain_layout;
    workers = 1;
    batch = [];
    next_index = 0;
    output = record { sink = (7 ∷ []) ∷ []; container_bytes = 1; tags = []; window = [] };
  };
  sealed_header = 7 ∷ [];
  pending = [];
  plaintext_bytes = 0;
  final_chunk_len = 0;
  summary = none;
  closed = false;
}

plain_made : new_writer plain_layout 0 1 plain_params (7 ∷ []) ≡ ok plain_writer
unfolding new_writer check_arguments layout_problem encoded_length validate_untrusted validate emit
plain_made = refl

abbrev zero_primitives : Primitives
zero_primitives = record {
  seal = λ index chunk final. chunk ++ replicate 16 index;
  slot_tag = no_checksum;
  digest = λ tags. replicate 32 0;
  trailer_checksum = no_checksum;
  container_id = replicate 16 2;
}

abbrev plain_body : List ℕ
plain_body = take header_body_size (drop 12 header_only)

plain_unpacked : unpack_header plain_body ≡ plain_header
unfolding unpack_header from_bytes
plain_unpacked = refl

new_writer-IsOpen_example :
    (parse_stream_header plain_body ≡ ok plain_header)
    × IsOpen zero_primitives plain_writer
    × IsFresh plain_layout (7 ∷ []) plain_writer
unfolding from_bytes
new_writer-IsOpen_example =
    new_writer-IsOpen zero_primitives 0 1 (7 ∷ []) plain_body plain_header plain_writer plain_made
      plain_unpacked (refl, refl, refl)
