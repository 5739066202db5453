-- ===== src/Examples/Streams.antt =====
-- Concrete runs of the streamed container and of the headers.
use dbs.Prelude.{List, [], arith, false, none, refl, replicate, some, ℕ, ◌++◌, ◌+◌, ◌∷◌, ◌≡◌}
use dbs.Container.Format.{open_sealed_header, seal_header}
use dbs.Container.Format.Sealed.{open_sealed_header-seal_header}
use dbs.Container.Rs.Sizes.{encoded_length}
use dbs.Container.Stream.Burst.{Touches, burst_tolerance_lem}
use dbs.Container.Stream.Layout.{
  StreamLayout, burst_tolerance, chunk_capacity, layout_problem, max_chunk_len, slot_size,
}
use dbs.Container.Stream.Place.{Output, Slot, drain, named, place_all, place_all-schedule}
use dbs.Container.Stream.Schedule.{first_copy_position, schedule, second_copy_position}
use dbs.Container.Stream.Trailer.{StreamTrailer, open_trailer, seal_trailer}
use dbs.Container.Stream.TrailerTrip.{IsTrailer, open_trailer-seal_trailer}
use dbs.Container.Stream.Writer.{Primitives, Writer, write}
use dbs.Container.Stream.Writer.Write.{IsOpen, write-append}
use dbs.Result.{ok, ◌>>=◌}

abbrev small_layout : StreamLayout
small_layout = record { block_size = 512; nsym = 2; interleave = 2 }

no_problem : layout_problem small_layout ≡ none
unfolding layout_problem encoded_length
no_problem = refl

burst_tolerance_lem_example : ¬ (
    Touches 100
      (100 + burst_tolerance small_layout 5)
      (first_copy_position 1 2)
      (slot_size small_layout)
    × Touches 100
        (100 + burst_tolerance small_layout 5)
        (second_copy_position 5 1 2)
        (slot_size small_layout))
burst_tolerance_lem_example =
    burst_tolerance_lem small_layout 5 1 100 (100 + burst_tolerance small_layout 5) (omega arith)
      (omega arith)

abbrev no_output : Output
no_output = record { sink = []; container_bytes = 0; tags = []; window = [] }

abbrev three_slots : List Slot
three_slots = (1 ∷ []) ∷ (2 ∷ []) ∷ (3 ∷ []) ∷ []

place_all-schedule_example :
    (drain (place_all 2 three_slots no_output)).sink ≡ [] ++ named three_slots (schedule 3 2)
place_all-schedule_example = place_all-schedule 2 three_slots no_output refl

-- Primitives of the right sizes.
abbrev zero_checksum : List ℕ → List ℕ
zero_checksum = λ bytes. replicate 16 0

abbrev plain_primitives : Primitives
plain_primitives = record {
  seal = λ index chunk final. chunk ++ replicate 16 index;
  slot_tag = zero_checksum;
  digest = λ tags. replicate 32 0;
  trailer_checksum = zero_checksum;
  container_id = replicate 16 9;
}

abbrev new_writer : Writer
new_writer = record {
  encoder = record {
    layout = small_layout;
    workers = 1;
    batch = [];
    next_index = 0;
    output = no_output;
  };
  sealed_header = [];
  pending = [];
  plaintext_bytes = 0;
  final_chunk_len = 0;
  summary = none;
  closed = false;
}

new_writer-IsOpen : IsOpen plain_primitives new_writer
unfolding chunk_capacity
new_writer-IsOpen = record { not_closed = refl; roomy = omega arith; short = omega arith }

write-append_example :
    (do
      (w', n) ← write plain_primitives (1 ∷ 2 ∷ []) new_writer
      (w'', m) ← write plain_primitives (3 ∷ []) w'
      ok (w'', n + m))
    ≡ write plain_primitives (1 ∷ 2 ∷ 3 ∷ []) new_writer
write-append_example =
    write-append plain_primitives (1 ∷ 2 ∷ []) (3 ∷ []) new_writer new_writer-IsOpen

abbrev small_trailer : StreamTrailer
small_trailer = record {
  container_id = replicate 16 9;
  blocks = 2;
  plaintext_bytes = 484;
  final_chunk_len = 20;
  blocks_digest = replicate 32 0;
}

small_trailer-IsTrailer : IsTrailer small_layout small_trailer
unfolding chunk_capacity max_chunk_len
small_trailer-IsTrailer = record {
  id_length = refl;
  digest_length = refl;
  some_blocks = omega arith;
  not_too_many = omega arith;
  tagged = omega arith;
  fits_block = omega arith;
  small_block = omega arith;
  counted = refl;
}

open_trailer-seal_trailer_example :
    open_trailer zero_checksum small_layout
      (replicate 16 9)
      (seal_trailer zero_checksum small_trailer)
    ≡ some small_trailer
open_trailer-seal_trailer_example =
    open_trailer-seal_trailer small_layout small_trailer small_trailer-IsTrailer zero_checksum
      (λ body. refl)

open_sealed_header-seal_header_example :
    (raw : List ℕ) × (seal_header zero_checksum 2 (5 ∷ 6 ∷ []) ≡ ok raw)
    × (open_sealed_header zero_checksum (raw ++ (7 ∷ [])) ≡ some (2, 5 ∷ 6 ∷ []))
open_sealed_header-seal_header_example =
    open_sealed_header-seal_header zero_checksum (λ bytes. refl) 2 (5 ∷ 6 ∷ []) (7 ∷ [])
      (record { is_later = omega arith; packs = omega arith; fits = omega arith })
