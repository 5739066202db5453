-- ===== src/Engine/Payload/Returns.antt =====
-- Reading a whole payload (dbs/engine/frames.py, dbs/engine/validate.py) comes to an end.
use dbs.Engine.Kind
use Prim.Native.String.{String}
use mathlib.Core.List.{flatten}
use text.Mathlib.Text.{◌==◌ as str_eq}
use dbs.Prelude.{
  Bool, List, Option, [], arith, drop, false, if◌then◌else◌, leb, length, none, not, some, suc,
  take, true, zero, ℕ, ◌&&◌, ◌++◌, ◌+◌, ◌<◌, ◌==◌, ◌∷◌, ◌≡◌,
}
use dbs.Bytes.{from_bytes}
use dbs.Engine.Json.{
  Json, array, bool, count, count_of, equals_count, fields_of, get, is_count, is_object, is_text,
  negative, null, object, real, special, string, text_of,
}
use dbs.Engine.Payload.{FileEntry, checked_records}
use dbs.Engine.Payload.Reader.{
  FileStream, Parsers, PayloadReader, add_batch, batch_rounds, chunk_rounds, file_rounds,
  finish_stream, parsed, peek, take_frame,
}
use dbs.Engine.Payload.Total.{
  Left, Less, Raised, checked_records-Holds, container_error_lem, corruption_error_lem,
  guards-Holds, left_in, parsed-Holds, peek-Holds, take_frame-Holds, waiting,
}
use dbs.Result.{
  Holds, Result, bind-Holds, container_error, corruption_error, err, guard, guard-Holds, if-Holds,
  ok, weaken-Holds, ◌>>=◌, ◌>>◌,
}

finish_reason :
    (b : Bool) (stream : FileStream)
    → Holds Raised (λ s. Unit {0}) (guard b container_error >> ok stream)
finish_reason b stream = guards-Holds b (ok stream) tt

finish_whole :
    (a b : Bool) (stream : FileStream)
    → Holds Raised
        (λ s. Unit {0})
        (guard a container_error >> (guard b corruption_error >> ok stream))
finish_whole a b stream =
    guards-Holds a (guard b corruption_error >> ok stream)
      (guard-Holds Raised (λ s. Unit {0}) b corruption_error (ok stream) corruption_error_lem tt)

null_or :
    {A : Type 0} (value : Json) (x y : Result A)
    → Holds Raised (λ a. Unit {0}) x
    → Holds Raised (λ a. Unit {0}) y
    → Holds Raised (λ a. Unit {0}) (elim value [ null ↦ x | _ ↦ y ])
null_or null x y h k = h
null_or special x y h k = k
null_or (bool b) x y h k = k
null_or (count n) x y h k = k
null_or (negative n) x y h k = k
null_or (real s n d) x y h k = k
null_or (string s) x y h k = k
null_or (array items) x y h k = k
null_or (object fields) x y h k = k

finish_stream-Holds :
    (value : Json) (size : ℕ) (digest : String) (stream : FileStream)
    → Holds Raised (λ s. Unit {0}) (finish_stream value size digest stream)
unfolding finish_stream
finish_stream-Holds value size digest stream =
    let fields = fields_of value in
    let skipped = get "skipped" fields in
    guards-Holds (is_object value && equals_count (get "index" fields) stream.index) _ (
      null_or skipped _ _
        (finish_whole (is_count (get "size" fields) && is_text (get "sha256" fields))
          (size == count_of (get "size" fields) && str_eq digest (text_of (get "sha256" fields)))
          (record stream {
            is_done = true;
            size = size;
            sha256 = digest;
            entry = record stream.entry { sha256 = digest };
          }))
        (finish_reason (is_text skipped && not (str_eq (text_of skipped) ""))
          (record stream { is_done = true; skipped = text_of skipped })))

module _ (parsers : Parsers) where
  chunk_rounds-Holds :
      (fuel n : ℕ) (stream : FileStream) (size : ℕ) (chunks : List (List ℕ)) (r : PayloadReader)
      → n < fuel
      → Left n r
      → Holds Raised (λ (s, c, r'). Left n r') (chunk_rounds parsers fuel stream size chunks r)
  unfolding chunk_rounds
  chunk_rounds-Holds zero n stream size chunks r l h = absurd (omega arith)
  chunk_rounds-Holds (suc fuel) n stream size chunks r l h =
      let Rest : FileStream × List (List ℕ) × PayloadReader → Type 0 = λ (s, c, r'). Left n r' in
      bind-Holds Raised (λ (first, r'). Less n r') Rest (take_frame r) _ (take_frame-Holds n r h)
        (λ ((kind, body), r1) (valid, k).
          let chunk = drop 4 body in
          let next =
            chunk_rounds parsers fuel stream (size + length chunk) (chunks ++ chunk ∷ []) r1 in
          if-Holds Raised Rest (kind == Kind.file_data) _ _
            (guard-Holds Raised Rest
              (leb 4 (length body) && from_bytes (take 4 body) == stream.index) container_error next
              container_error_lem
              (weaken-Holds Raised (λ (s, c, r'). Left (left_in r1) r') Rest next
                (chunk_rounds-Holds fuel (left_in r1) stream (size + length chunk)
                  (chunks ++ chunk ∷ []) r1 (omega arith) (valid, omega arith))
                (λ (s, c, r') (v, m). (v, omega arith))))
            (guard-Holds Raised Rest (kind == Kind.file_end) container_error _ container_error_lem (
              bind-Holds Raised (λ value. Unit {0}) Rest (parsed (parsers.loads body)) _
                (parsed-Holds (parsers.loads body))
                (λ value u.
                  bind-Holds Raised (λ s. Unit {0}) Rest
                    (finish_stream value size (parsers.hexdigest (flatten chunks)) stream) _
                    (finish_stream-Holds value size (parsers.hexdigest (flatten chunks)) stream)
                    (λ finished v. (valid, omega arith))))))

  pub file_rounds-Holds :
      (fuel n index : ℕ) (entries : List FileEntry) (r : PayloadReader)
      → n < fuel
      → Left n r
      → Holds Raised (λ (streams, r'). Left n r') (file_rounds parsers fuel index entries r)
  unfolding file_rounds
  file_rounds-Holds fuel n index [] r l h = h
  file_rounds-Holds fuel n index (entry ∷ entries) r l h =
      let stream : FileStream = record {
        index = index;
        entry = entry;
        size = 0;
        sha256 = "";
        skipped = "";
        is_done = false;
      } in
      bind-Holds Raised (λ (s, c, r'). Left n r') (λ (streams, r'). Left n r')
        (chunk_rounds parsers fuel stream 0 [] r) _ (chunk_rounds-Holds fuel n stream 0 [] r l h)
        (λ (finished, chunks, r') h'.
          bind-Holds Raised (λ (streams, r'). Left n r') (λ (streams, r'). Left n r')
            (file_rounds parsers fuel (index + 1) entries r') _
            (file_rounds-Holds fuel n (index + 1) entries r' l h') (λ (streams, after) h''. h''))

  decoded-Holds :
      (n : ℕ) (r : PayloadReader) (decoded : Option String)
      → Less n r
      → Holds Raised
          (λ (entries, r'). Less n r')
          (elim decoded [
            | none ↦ err container_error
            | some s ↦ parsed (parsers.loads_text s) >>= λ value.
                checked_records value r.rank r.position >>= λ (entries, position).
                ok (entries, record r { position = position })
          ])
  decoded-Holds n r none h = container_error_lem
  decoded-Holds n r (some s) h =
      bind-Holds Raised (λ value. Unit {0}) (λ (entries, r'). Less n r')
        (parsed (parsers.loads_text s)) _ (parsed-Holds (parsers.loads_text s))
        (λ value u.
          bind-Holds Raised (λ found. Unit {0}) (λ (entries, r'). Less n r')
            (checked_records value r.rank r.position) _
            (checked_records-Holds value r.rank r.position) (λ (entries, position) v. h))

  -- one batch, parsed or not
  batch-Holds :
      (n : ℕ) (parse : Bool) (body : List ℕ) (r : PayloadReader)
      → Less n r
      → Holds Raised
          (λ (entries, r'). Less n r')
          (if parse then add_batch parsers body r else ok ([], r))
  unfolding add_batch
  batch-Holds n true body r h = decoded-Holds n r (parsers.decode_utf8 body) h
  batch-Holds n false body r h = h

  pub batch_rounds-Holds :
      (fuel n : ℕ) (parse : Bool) (r : PayloadReader)
      → n < fuel
      → Left n r
      → Holds Raised (λ (batches, r'). Left n r') (batch_rounds parsers fuel parse r)
  unfolding batch_rounds
  batch_rounds-Holds zero n parse r l h = absurd (omega arith)
  batch_rounds-Holds (suc fuel) n parse r l h =
      let Rest : List (List Json) × PayloadReader → Type 0 = λ (batches, r'). Left n r' in
      bind-Holds Raised (λ (first, r'). Left n r' × (waiting r'.pending ≡ 1)) Rest (peek r) _
        (peek-Holds n r h)
        (λ ((kind, body), r1) (h1, w).
          if-Holds Raised Rest (kind == Kind.records) _ _
            (bind-Holds Raised (λ (first, r'). Less n r') Rest (take_frame r1) _
              (take_frame-Holds n r1 h1)
              (λ (first, r2) h2.
                bind-Holds Raised (λ (entries, r'). Less n r') Rest
                  (if parse then add_batch parsers body r2 else ok ([], r2)) _
                  (batch-Holds n parse body r2 h2)
                  (λ (batch, r3) (valid, k).
                    bind-Holds Raised (λ (batches, r'). Left (left_in r3) r') Rest
                      (batch_rounds parsers fuel parse r3) _
                      (batch_rounds-Holds fuel (left_in r3) parse r3 (omega arith)
                        (valid, omega arith))
                      (λ (batches, r4) (v, m). (v, omega arith)))))
            h1)
