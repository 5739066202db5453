-- ===== src/Engine/Payload/Total.antt =====
-- The loops of a payload's reader (dbs/engine/frames.py) come to an end: each frame takes bytes.
use dbs.Engine.Kind
use mathlib.Core.Path.{subst}
use dbs.Prelude.{
  Bool, Bool-cases, List, Option, Option-cases, [], ap, arith, drop, get_or, if◌then◌else◌, inl,
  inr, leb, length, length-drop, ltb, none, not, refl, slice, some, suc, sym, zero, ℕ, ◌&&◌, ◌++◌,
  ◌+◌, ◌<◌, ◌==◌, ◌∷◌, ◌≡◌, ◌≢◌, ◌≤◌,
}
use dbs.Bytes.{from_bytes}
use dbs.Engine.Frames.{Frame, FrameReader, is_known, max_frame_bytes, next_frame, max_files}
use dbs.Engine.Frames.Refine.{
  Agrees, IsReader, frame_spec, next_frame-frame_spec, rest_of, take_spec,
}
use dbs.Engine.Json.{
  Json, array, bool, count, fields_of, is_object, is_scalar, items_of, negative, null, object, real,
  special, string, is_count, is_text, optional_text, get,
}
use dbs.Engine.Payload.{
  Rank, checked_entries, checked_entry, checked_record, checked_records, checked_rounds, is_list,
  rank_get, entry_of,
}
use dbs.Engine.Payload.Reader.{
  PayloadReader, peek, take_frame, Parsers, add_entries, manifest_rounds, parsed,
}
use dbs.Result.{
  Error, Holds, Result, bind-Holds, container_error, corruption_error, err, if-Holds, ok,
  out_of_fuel, runtime_error, type_error, guard, guard-Holds, ◌>>◌, weaken-Holds,
}

-- A loop of this library was not cut short.
abbrev pub Raised : Error → Type 0
Raised e = e ≢ out_of_fuel

pub container_error_lem : Raised container_error
container_error_lem e = cc

pub corruption_error_lem : Raised corruption_error
corruption_error_lem e = cc

pub runtime_error_lem : Raised runtime_error
runtime_error_lem e = cc

type_error_lem : Raised type_error
type_error_lem e = cc

abbrev pub waiting {ℓ} : {A : Type ℓ} → Option A → ℕ
waiting none = 0
waiting (some a) = 1

-- The bytes that are left, and one for a frame that waits.
abbrev pub left_in : PayloadReader → ℕ
left_in r = length (rest_of r.frames) + waiting r.pending

-- At most `n` is left.
abbrev pub Left : ℕ → PayloadReader → Type 0
Left n r = IsReader r.frames × (left_in r ≤ n)

pub take_spec-Holds :
    (size : ℕ) (bytes : List ℕ)
    → Holds Raised (λ (body, rest). length rest ≤ length bytes) (take_spec size bytes)
unfolding take_spec
take_spec-Holds size bytes =
    if-Holds Raised (λ (body, rest). length rest ≤ length bytes) (leb size (length bytes)) _ _
      (omega (arith, length-drop size bytes)) container_error_lem

frame_spec-Holds :
    (bytes : List ℕ)
    → Holds Raised (λ (found, rest). length rest + waiting found ≤ length bytes) (frame_spec bytes)
unfolding frame_spec
frame_spec-Holds bytes =
    let Shorter : Option Frame × List ℕ → Type 0 =
      λ (found, rest). length rest + waiting found ≤ length bytes in
    let size = from_bytes (slice 1 5 bytes) in
    elim (Bool-cases (leb 5 (length bytes))) [
      | inr short ↦
          rw short
            (if-Holds Raised Shorter (length bytes == 0) _ _ (omega arith) container_error_lem)
      | inl long ↦ rw long (
          if-Holds Raised Shorter (not (is_known (get_or bytes 0 0))) _ _ container_error_lem (
            if-Holds Raised Shorter (ltb max_frame_bytes size) _ _ container_error_lem (
              bind-Holds Raised (λ (body, rest). length rest ≤ length (drop 5 bytes)) Shorter
                (take_spec size (drop 5 bytes)) _ (take_spec-Holds size (drop 5 bytes))
                (λ (body, rest) l. ground (arith, l, long, length-drop 5 bytes)))))
    ]

pub Agrees-Holds :
    {A : Type 0} (P : A × List ℕ → Type 0) (m : Result (A × FrameReader)) (n : Result (A × List ℕ))
    → Agrees m n
    → Holds Raised P n
    → Holds Raised (λ (a, r). P (a, rest_of r) × IsReader r) m
Agrees-Holds P (ok (a, r)) (ok (b, bytes)) (e, rest, valid) h =
    (subst (λ x. P (x, rest_of r)) (sym e) (subst (λ bs. P (b, bs)) (sym rest) h), valid)
Agrees-Holds P (ok (a, r)) (err e) h k = absurd h
Agrees-Holds P (err e) (ok (b, bytes)) h k = absurd h
Agrees-Holds P (err e) (err f) h k = subst Raised (sym h) k

pub next_frame-Holds :
    (r : FrameReader)
    → IsReader r
    → Holds Raised
        (λ (found, r'). (length (rest_of r') + waiting found ≤ length (rest_of r)) × IsReader r')
        (next_frame r)
next_frame-Holds r valid =
    Agrees-Holds (λ (found, rest). length rest + waiting found ≤ length (rest_of r)) (next_frame r)
      (frame_spec (rest_of r)) (next_frame-frame_spec r valid) (frame_spec-Holds (rest_of r))

peeked :
    (n : ℕ) (r : PayloadReader) (frames : FrameReader) (found : Option Frame)
    → length (rest_of frames) + waiting found ≤ n
    → IsReader frames
    → Holds Raised
        (λ (first, r'). Left n r' × (waiting r'.pending ≡ 1))
        (elim found [
          | none ↦ err container_error
          | some first ↦ ok (first, record r { frames = frames; pending = some first })
        ])
peeked n r frames none l valid = container_error_lem
peeked n r frames (some first) l valid = ((valid, l), refl)

pub peek-Holds :
    (n : ℕ) (r : PayloadReader)
    → Left n r
    → Holds Raised (λ (first, r'). Left n r' × (waiting r'.pending ≡ 1)) (peek r)
unfolding peek
peek-Holds n r (valid, l) =
    let Peeked : Frame × PayloadReader → Type 0 =
      λ (first, r'). Left n r' × (waiting r'.pending ≡ 1) in
    elim (Option-cases r.pending) [
      | inr (first, there) ↦ rw there ((valid, omega (arith, ap waiting there)), refl)
      | inl none_waits ↦ rw none_waits (
          bind-Holds Raised
            (λ (found, r').
              (length (rest_of r') + waiting found ≤ length (rest_of r.frames)) × IsReader r')
            Peeked (next_frame r.frames) _ (next_frame-Holds r.frames valid)
            (λ (found, frames) (k, fine). peeked n r frames found (omega arith) fine))
    ]

-- Less than `n` is left.
abbrev pub Less : ℕ → PayloadReader → Type 0
Less n r = IsReader r.frames × (left_in r < n)

-- A frame that is taken leaves less.
pub take_frame-Holds :
    (n : ℕ) (r : PayloadReader) → Left n r → Holds Raised (λ (first, r'). Less n r') (take_frame r)
unfolding take_frame
take_frame-Holds n r h =
    bind-Holds Raised (λ (first, r'). Left n r' × (waiting r'.pending ≡ 1))
      (λ (first, r'). Less n r') (peek r) _ (peek-Holds n r h)
      (λ (first, r') ((valid, l), w). (valid, omega arith))

pub parsed-Holds : (o : Option Json) → Holds Raised (λ value. Unit {0}) (parsed o)
unfolding parsed
parsed-Holds none = container_error_lem
parsed-Holds (some value) = tt

pub guards-Holds :
    {A : Type 0} (b : Bool) (m : Result A)
    → Holds Raised (λ a. Unit {0}) m
    → Holds Raised (λ a. Unit {0}) (guard b container_error >> m)
guards-Holds b m h = guard-Holds Raised (λ a. Unit {0}) b container_error m container_error_lem h

-- what is checked of an entry
checked_entry-Holds : (value : Json) → Holds Raised (λ entry. Unit {0}) (checked_entry value)
unfolding checked_entry
checked_entry-Holds value =
    let fields = fields_of value in
    let C = container_error in
    let m6 = guard (is_scalar (get "pk" fields)) C >> ok (entry_of fields) in
    let m5 = guard (optional_text (get "root" fields)) C >> m6 in
    let m4 = guard (optional_text (get "field" fields)) C >> m5 in
    let m3 = guard (optional_text (get "model" fields)) C >> m4 in
    let m2 = guard (is_count (get "size" fields)) C >> m3 in
    let m1 = guard (is_text (get "kind" fields) && is_text (get "name" fields)) C >> m2 in
    guards-Holds (is_object value) m1 (
      guards-Holds (is_text (get "kind" fields) && is_text (get "name" fields)) m2 (
        guards-Holds (is_count (get "size" fields)) m3 (
          guards-Holds (optional_text (get "model" fields)) m4 (
            guards-Holds (optional_text (get "field" fields)) m5 (
              guards-Holds (optional_text (get "root" fields)) m6
                (guards-Holds (is_scalar (get "pk" fields)) (ok (entry_of fields)) tt))))))

checked_entries-Holds :
    (items : List Json) → Holds Raised (λ entries. Unit {0}) (checked_entries items)
unfolding checked_entries
checked_entries-Holds [] = tt
checked_entries-Holds (item ∷ items) =
    bind-Holds Raised (λ entry. Unit {0}) (λ entries. Unit {0}) (checked_entry item) _
      (checked_entry-Holds item)
      (λ entry u.
        bind-Holds Raised (λ entries. Unit {0}) (λ entries. Unit {0}) (checked_entries items) _
          (checked_entries-Holds items) (λ entries v. tt))

rank_get-Holds :
    (value : Json) (rank : Rank) → Holds Raised (λ found. Unit {0}) (rank_get value rank)
unfolding rank_get
rank_get-Holds (array items) rank = type_error_lem
rank_get-Holds (object fields) rank = type_error_lem
rank_get-Holds null rank = tt
rank_get-Holds special rank = tt
rank_get-Holds (bool b) rank = tt
rank_get-Holds (count n) rank = tt
rank_get-Holds (negative n) rank = tt
rank_get-Holds (real s n d) rank = tt
rank_get-Holds (string s) rank = tt

placed :
    (entry : Json) (current : ℕ) (found : Option ℕ)
    → Holds Raised
        (λ position. Unit {0})
        (elim found [
          | none ↦ err container_error
          | some position ↦
              if ltb position current
              then err container_error
              else guard (is_scalar (get "pk" (fields_of entry))) container_error >> ok position
        ])
placed entry current none = container_error_lem
placed entry current (some position) =
    if-Holds Raised (λ p. Unit {0}) (ltb position current) _ _ container_error_lem
      (guard-Holds Raised (λ p. Unit {0}) (is_scalar (get "pk" (fields_of entry))) container_error
        (ok position) container_error_lem tt)

checked_rounds-Holds :
    (entries : List Json) (rank : Rank) (current : ℕ)
    → Holds Raised (λ position. Unit {0}) (checked_rounds entries rank current)
unfolding checked_rounds checked_record
checked_rounds-Holds [] rank current = tt
checked_rounds-Holds (entry ∷ entries) rank current =
    bind-Holds Raised (λ position. Unit {0}) (λ position. Unit {0})
      (checked_record entry rank current) _
      (guard-Holds Raised (λ position. Unit {0})
        (is_object entry && is_object (get "fields" (fields_of entry))) container_error _
        container_error_lem
        (bind-Holds Raised (λ found. Unit {0}) (λ position. Unit {0})
          (rank_get (get "model" (fields_of entry)) rank) _
          (rank_get-Holds (get "model" (fields_of entry)) rank)
          (λ found u. placed entry current found)))
      (λ position u. checked_rounds-Holds entries rank position)

pub checked_records-Holds :
    (value : Json) (rank : Rank) (current : ℕ)
    → Holds Raised (λ found. Unit {0}) (checked_records value rank current)
unfolding checked_records
checked_records-Holds value rank current =
    guard-Holds Raised (λ found. Unit {0}) (is_list value) container_error _ container_error_lem
      (bind-Holds Raised (λ position. Unit {0}) (λ found. Unit {0})
        (checked_rounds (items_of value) rank current) _
        (checked_rounds-Holds (items_of value) rank current) (λ position u. tt))

module _ (parsers : Parsers) where
  add_entries-Holds :
      (n : ℕ) (body : List ℕ) (r : PayloadReader)
      → Less n r
      → Holds Raised (Less n) (add_entries parsers body r)
  unfolding add_entries
  add_entries-Holds n body r h =
      bind-Holds Raised (λ value. Unit {0}) (Less n) (parsed (parsers.loads body)) _
        (parsed-Holds (parsers.loads body))
        (λ value u.
          guard-Holds Raised (Less n) (is_list value) container_error _ container_error_lem (
            bind-Holds Raised (λ entries. Unit {0}) (Less n) (checked_entries (items_of value)) _
              (checked_entries-Holds (items_of value))
              (λ entries v.
                guard-Holds Raised (Less n) (leb (length (r.entries ++ entries)) max_files)
                  container_error (ok (record r { entries = r.entries ++ entries }))
                  container_error_lem h)))

  pub manifest_rounds-Holds :
      (fuel n : ℕ) (r : PayloadReader)
      → n < fuel
      → Left n r
      → Holds Raised (Left n) (manifest_rounds parsers fuel r)
  unfolding manifest_rounds
  manifest_rounds-Holds zero n r l h = absurd (omega arith)
  manifest_rounds-Holds (suc fuel) n r l h =
      bind-Holds Raised (λ (first, r'). Left n r' × (waiting r'.pending ≡ 1)) (Left n) (peek r) _
        (peek-Holds n r h)
        (λ ((kind, body), r1) (h1, w).
          if-Holds Raised (Left n) (kind == Kind.manifest) _ _
            (bind-Holds Raised (λ (first, r'). Less n r') (Left n) (take_frame r1) _
              (take_frame-Holds n r1 h1)
              (λ (first, r2) h2.
                bind-Holds Raised (Less n) (Left n) (add_entries parsers body r2) _
                  (add_entries-Holds n body r2 h2)
                  (λ r3 (valid, k).
                    weaken-Holds Raised (Left (left_in r3)) (Left n)
                      (manifest_rounds parsers fuel r3)
                      (manifest_rounds-Holds fuel (left_in r3) r3 (omega arith)
                        (valid, omega arith))
                      (λ r4 (valid4, k4). (valid4, omega arith)))))
            h1)
