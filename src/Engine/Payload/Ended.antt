-- ===== src/Engine/Payload/Ended.antt =====
-- `_read_through` (dbs/engine/validate.py) comes to an end on any payload.
use dbs.Engine.Kind
use mathlib.Core.List.{flatten}
use dbs.Prelude.{
  Bool, List, Option, [], arith, false, length, none, some, true, ℕ, ◌&&◌, ◌+◌, ◌<◌, ◌==◌, ◌≢◌, ◌≤◌,
}
use dbs.Engine.Frames.{Frame, FrameReader, new_reader, next_frame, payload_magic, take_bytes}
use dbs.Engine.Frames.Refine.{IsReader, rest_of, take_bytes-take_spec, take_spec}
use dbs.Engine.Json.{
  Json, equals_count, fields_of, get, is_count, is_list_of, is_object, is_text, optional_text,
  Fields, count_of, items_of,
}
use dbs.Engine.Payload.{checked_header, checked_trailer, is_model_count, migrations_fit}
use dbs.Engine.Payload.Reader.{
  Parsers, PayloadReader, Phase, batch_rounds, expect, file_rounds, finish_payload, manifest_rounds,
  new_payload, parsed, phase_index, read_files, read_header, read_manifest, read_trailer,
  record_batches, take_frame, FileStream,
}
use dbs.Engine.Payload.Returns.{batch_rounds-Holds, file_rounds-Holds}
use dbs.Engine.Payload.Through.{
  Contents, checked_stats, read_through, count_files, count_records, recorded_counts, same_counts,
  total_of,
}
use dbs.Engine.Payload.Total.{
  Agrees-Holds, Left, Less, Raised, container_error_lem, guards-Holds, manifest_rounds-Holds,
  next_frame-Holds, parsed-Holds, runtime_error_lem, take_frame-Holds, take_spec-Holds, waiting,
}
use dbs.Result.{
  Holds, Result, bind-Holds, container_error, err, guard, guard-Holds, if-Holds, ok, out_of_fuel,
  runtime_error, ◌>>◌, ◌>>=◌,
}
use dbs.Text.{text_eq}

checked_header-Holds : (value : Json) → Holds Raised (λ v. Unit {0}) (checked_header value)
unfolding checked_header
checked_header-Holds value =
    let fields = fields_of value in
    let C = container_error in
    let m4 = guard (optional_text (get "django_version" fields)) C >> ok value in
    let m3 = guard (optional_text (get "created" fields)) C >> m4 in
    let m2 = guard (migrations_fit (get "migrations" fields)) C >> m3 in
    let m1 = guard (is_list_of is_text (get "order" fields)) C >> m2 in
    guards-Holds (is_object value && equals_count (get "version" fields) 2) m1 (
      guards-Holds (is_list_of is_text (get "order" fields)) m2 (
        guards-Holds (migrations_fit (get "migrations" fields)) m3 (
          guards-Holds (optional_text (get "created" fields)) m4
            (guards-Holds (optional_text (get "django_version" fields)) (ok value) tt))))

checked_trailer-Holds : (value : Json) → Holds Raised (λ v. Unit {0}) (checked_trailer value)
unfolding checked_trailer
checked_trailer-Holds value =
    let stats = get "stats" (fields_of value) in
    let fields = fields_of stats in
    let C = container_error in
    let m3 = guard (is_list_of is_text (get "skipped_files" fields)) C >> ok value in
    let counted = is_count (get "records" fields) && is_count (get "files" fields) in
    let m2 = guard counted C >> m3 in
    let m1 = guard (is_list_of is_model_count (get "models" fields)) C >> m2 in
    guards-Holds (is_object stats) m1 (
      guards-Holds (is_list_of is_model_count (get "models" fields)) m2 (
        guards-Holds counted m3
          (guards-Holds (is_list_of is_text (get "skipped_files" fields)) (ok value) tt)))

expect-Holds :
    {A : Type 0} (P : A → Type 0) (phase : Phase) (r : PayloadReader) (m : Result A)
    → Holds Raised P m
    → Holds Raised P (expect phase r >> m)
unfolding expect
expect-Holds P phase r m h =
    guard-Holds Raised P (phase_index r.phase == phase_index phase) runtime_error m
      runtime_error_lem h

new_reader-Holds :
    (pieces : List (List ℕ))
    → Holds Raised
        (λ r. IsReader r × (length (rest_of r) ≤ length (flatten pieces)))
        (new_reader pieces)
unfolding new_reader
new_reader-Holds pieces =
    let r : FrameReader = record { pieces = pieces; buffer = []; start = 0 } in
    let Fine : FrameReader → Type 0 =
      λ r'. IsReader r' × (length (rest_of r') ≤ length (flatten pieces)) in
    bind-Holds Raised (λ (magic, r'). (length (rest_of r') ≤ length (flatten pieces)) × IsReader r')
      Fine (take_bytes 8 r) _
      (Agrees-Holds (λ (magic, rest). length rest ≤ length (flatten pieces)) (take_bytes 8 r)
        (take_spec 8 (flatten pieces)) (take_bytes-take_spec 8 r (omega arith))
        (take_spec-Holds 8 (flatten pieces)))
      (λ (magic, r') (l, valid).
        if-Holds Raised Fine (text_eq magic payload_magic) (ok r') (err container_error) (valid, l)
          container_error_lem)

finished :
    (n : ℕ) (r : PayloadReader) (frames : FrameReader) (found : Option Frame)
    → Holds Raised
        (λ r'. Unit {0})
        (elim found [
          | some first ↦ err container_error
          | none ↦ ok (record r { frames = frames; phase = Phase.done })
        ])
finished n r frames none = tt
finished n r frames (some first) = container_error_lem

guard_only : (b : Bool) → Holds Raised (λ u. Unit {0}) (guard b container_error)
guard_only true = tt
guard_only false = container_error_lem

Holds-ne : {A : Type 0} (m : Result A) → Holds Raised (λ a. Unit {0}) m → m ≢ err out_of_fuel
Holds-ne (ok a) h = λ e. cc
Holds-ne (err raised) h = λ e. h (cc e)

module _ (parsers : Parsers) where
  finish_payload-Holds :
      (n : ℕ) (r : PayloadReader)
      → Left n r
      → Holds Raised (λ r'. Unit {0}) (finish_payload parsers r)
  unfolding finish_payload
  finish_payload-Holds n r (valid, l) =
      expect-Holds (λ r'. Unit {0}) Phase.end r _
        (bind-Holds Raised
          (λ (found, r').
            (length (rest_of r') + waiting found ≤ length (rest_of r.frames)) × IsReader r')
          (λ r'. Unit {0}) (next_frame r.frames) _ (next_frame-Holds r.frames valid)
          (λ (found, frames) h. finished n r frames found))

  read_header-Holds :
      (n : ℕ) (r : PayloadReader) → Left n r → Holds Raised (Left n) (read_header parsers r)
  unfolding read_header
  read_header-Holds n r h = expect-Holds (Left n) Phase.header r _ (
      bind-Holds Raised (λ (first, r'). Less n r') (Left n) (take_frame r) _
        (take_frame-Holds n r h)
        (λ ((kind, body), r') (valid, k).
          guard-Holds Raised (Left n) (kind == Kind.header) container_error _ container_error_lem (
            bind-Holds Raised (λ value. Unit {0}) (Left n) (parsed (parsers.loads body)) _
              (parsed-Holds (parsers.loads body))
              (λ value u.
                bind-Holds Raised (λ v. Unit {0}) (Left n) (checked_header value) _
                  (checked_header-Holds value) (λ checked v. (valid, omega arith))))))

  read_trailer-Holds :
      (n : ℕ) (r : PayloadReader) → Left n r → Holds Raised (Left n) (read_trailer parsers r)
  unfolding read_trailer
  read_trailer-Holds n r h = expect-Holds (Left n) Phase.trailer r _ (
      bind-Holds Raised (λ (first, r'). Less n r') (Left n) (take_frame r) _
        (take_frame-Holds n r h)
        (λ ((kind, body), r') (valid, k).
          guard-Holds Raised (Left n) (kind == Kind.trailer) container_error _ container_error_lem (
            bind-Holds Raised (λ value. Unit {0}) (Left n) (parsed (parsers.loads body)) _
              (parsed-Holds (parsers.loads body))
              (λ value u.
                bind-Holds Raised (λ v. Unit {0}) (Left n) (checked_trailer value) _
                  (checked_trailer-Holds value) (λ checked v. (valid, omega arith))))))

  -- the loops, each in its phase
  read_manifest-Holds :
      (fuel n : ℕ) (r : PayloadReader)
      → n < fuel
      → Left n r
      → Holds Raised (Left n) (read_manifest parsers fuel r)
  unfolding read_manifest
  read_manifest-Holds fuel n r l h = expect-Holds (Left n) Phase.manifest r _ (
      bind-Holds Raised (Left n) (Left n) (manifest_rounds parsers fuel r) _
        (manifest_rounds-Holds parsers fuel n r l h) (λ r' h'. h'))

  read_files-Holds :
      (fuel n : ℕ) (r : PayloadReader)
      → n < fuel
      → Left n r
      → Holds Raised (λ (streams, r'). Left n r') (read_files parsers fuel r)
  unfolding read_files
  read_files-Holds fuel n r l h =
      expect-Holds (λ (streams, r'). Left n r') Phase.files r _
        (bind-Holds Raised (λ (streams, r'). Left n r') (λ (streams, r'). Left n r')
          (file_rounds parsers fuel 0 r.entries r) _
          (file_rounds-Holds parsers fuel n 0 r.entries r l h) (λ (streams, r') h'. h'))

  record_batches-Holds :
      (fuel n : ℕ) (parse : Bool) (r : PayloadReader)
      → n < fuel
      → Left n r
      → Holds Raised (λ (batches, r'). Left n r') (record_batches parsers fuel parse r)
  unfolding record_batches
  record_batches-Holds fuel n parse r l h =
      expect-Holds (λ (batches, r'). Left n r') Phase.records r _
        (bind-Holds Raised (λ (batches, r'). Left n r') (λ (batches, r'). Left n r')
          (batch_rounds parsers fuel parse r) _ (batch_rounds-Holds parsers fuel n parse r l h)
          (λ (batches, r') h'. h'))

  new_payload-Holds :
      (pieces : List (List ℕ)) → Holds Raised (Left (length (flatten pieces))) (new_payload pieces)
  unfolding new_payload
  new_payload-Holds pieces =
      bind-Holds Raised (λ r. IsReader r × (length (rest_of r) ≤ length (flatten pieces)))
        (Left (length (flatten pieces))) (new_reader pieces) _ (new_reader-Holds pieces)
        (λ frames (valid, l). (valid, omega arith))

  -- the comparisons at the end
  counts_checked :
      (stats : Fields) (streams : List (FileStream × List (List ℕ))) (batches : List (List Json))
      → Holds {A = Contents} Raised
          (λ c. Unit {0})
          (checked_stats stats (count_records (flatten batches) []) (count_files streams)
            >>= λ checked. ok (record { streams = streams; batches = batches; stats = stats }))
  unfolding checked_stats
  counts_checked stats streams batches =
      let counts = count_records (flatten batches) [] in
      let same =
        same_counts (recorded_counts (items_of (get "models" stats)) []) counts
        && count_of (get "records" stats) == total_of counts in
      bind-Holds Raised (λ checked. Unit {0}) (λ c. Unit {0})
        (checked_stats stats counts (count_files streams)) _
        (guard-Holds Raised (λ checked. Unit {0}) same container_error
          (guard (count_of (get "files" stats) == count_files streams) container_error)
          container_error_lem (guard_only (count_of (get "files" stats) == count_files streams)))
        (λ checked u. tt)

  -- Fuel above the number of the payload's bytes is enough: the payload is read to its end or an
  -- exception is raised.
  pub read_through-returns :
      (fuel : ℕ) (pieces : List (List ℕ))
      → length (flatten pieces) < fuel
      → read_through parsers fuel pieces ≢ err out_of_fuel
  unfolding read_through checked_stats
  read_through-returns fuel pieces l =
      let n = length (flatten pieces) in
      let End : Contents → Type 0 = λ c. Unit {0} in
      Holds-ne (read_through parsers fuel pieces) (
        bind-Holds Raised (Left n) End (new_payload pieces) _ (new_payload-Holds pieces) (λ r0 h0.
          bind-Holds Raised (Left n) End (read_header parsers r0) _ (read_header-Holds n r0 h0)
            (λ r1 h1.
              bind-Holds Raised (Left n) End (read_manifest parsers fuel r1) _
                (read_manifest-Holds fuel n r1 l h1)
                (λ r2 h2.
                  bind-Holds Raised (λ (s, r'). Left n r') End (read_files parsers fuel r2) _
                    (read_files-Holds fuel n r2 l h2)
                    (λ (streams, r3) h3.
                      bind-Holds Raised (λ (b, r'). Left n r') End
                        (record_batches parsers fuel true r3) _
                        (record_batches-Holds fuel n true r3 l h3)
                        (λ (batches, r4) h4.
                          bind-Holds Raised (Left n) End (read_trailer parsers r4) _
                            (read_trailer-Holds n r4 h4)
                            (λ r5 h5.
                              bind-Holds Raised (λ r. Unit {0}) End (finish_payload parsers r5) _
                                (finish_payload-Holds n r5 h5)
                                (λ r6 u.
                                  counts_checked (fields_of (get "stats" (fields_of r6.trailer)))
                                    streams batches))))))))
