-- ===== src/Engine/Payload/Ordered.antt =====
-- The records that a payload's reader gives (dbs/engine/frames.py) stand in the model order.
use dbs.Engine.Kind
use Prim.Native.String.{String}
use mathlib.Core.List.{flatten}
use mathlib.Core.Path.{subst}
use dbs.Prelude.{
  Bool-cases, List, Option, Option-cases, [], arith, if◌then◌else◌, inl, inr, ltb, none, refl, some,
  suc, sym, true, zero, ℕ, ◌&&◌, ◌++◌, ◌==◌, ◌∙◌, ◌∷◌, ◌≡◌, ◌≤◌,
}
use dbs.Engine.Frames.{Frame, FrameReader, frame, next_frame}
use dbs.Engine.Json.{
  Json, array, bool, count, fields_of, get, is_object, negative, null, object, real, special,
  string, is_scalar, items_of,
}
use dbs.Engine.Payload.{
  Rank, checked_record, position_of, rank_get, checked_records, checked_rounds, is_list,
}
use dbs.Engine.Payload.Reader.{
  Parsers, PayloadReader, add_batch, parsed, peek, take_frame, batch_rounds, Phase, phase_index,
  record_batches,
}
use dbs.Result.{
  Result, Ensures, bind-Ensures, container_error, guard-Ensures, Ensures-trivial, err, guard, ok,
  ◌>>◌, if-Ensures, ◌>>=◌, Ensures-ok, runtime_error,
}

-- Each record names a model of the order, none before the model of the record ahead of it; `last`
-- is the position of the last model.
abbrev pub Ranked : Rank → ℕ → List Json → ℕ → Type 0
Ranked rank current [] last = current ≡ last
Ranked rank current (entry ∷ entries) last =
    (label : String) × (position : ℕ) × (get "model" (fields_of entry) ≡ string label)
    × (position_of label rank ≡ some position)
    × (current ≤ position)
    × Ranked rank position entries last

Ranked-append :
    (rank : Rank) (xs ys : List Json) (current middle last : ℕ)
    → Ranked rank current xs middle
    → Ranked rank middle ys last
    → Ranked rank current (xs ++ ys) last
Ranked-append rank [] ys current middle last h k = rw h k
Ranked-append rank (x ∷ xs) ys current middle last (label, position, m, p, l, h) k =
    (label, position, m, p, l, Ranked-append rank xs ys position middle last h k)

-- what `rank.get(model)` finds, by the kind of value
rank_get-Ensures :
    (value : Json) (rank : Rank)
    → Ensures
        (Unit {0})
        (λ found.
          (position : ℕ)
          → found ≡ some position
          → (label : String) × (value ≡ string label) × (position_of label rank ≡ some position))
        (rank_get value rank)
unfolding rank_get
rank_get-Ensures (string label) rank = λ position e. (label, refl, e)
rank_get-Ensures (array items) rank = tt
rank_get-Ensures (object fields) rank = tt
rank_get-Ensures null rank = λ position e. absurd (cc)
rank_get-Ensures special rank = λ position e. absurd (cc)
rank_get-Ensures (bool b) rank = λ position e. absurd (cc)
rank_get-Ensures (count n) rank = λ position e. absurd (cc)
rank_get-Ensures (negative n) rank = λ position e. absurd (cc)
rank_get-Ensures (real s n d) rank = λ position e. absurd (cc)

after_found :
    (entry : Json) (rank : Rank) (current : ℕ) (found : Option ℕ)
    → ((position : ℕ)
        → found ≡ some position
        → (label : String) × (get "model" (fields_of entry) ≡ string label)
          × (position_of label rank ≡ some position))
    → Ensures
        (Unit {0})
        (λ position.
          (label : String) × (get "model" (fields_of entry) ≡ string label)
          × (position_of label rank ≡ some position)
          × (current ≤ position))
        (elim found [
          | none ↦ err container_error
          | some position ↦
              if ltb position current
              then err container_error
              else guard (is_scalar (get "pk" (fields_of entry))) container_error >> ok position
        ])
after_found entry rank current none q = tt
after_found entry rank current (some position) q =
    let (label, m, p) = q position refl in
    elim (Bool-cases (ltb position current)) [
      | inl back ↦ rw back tt
      | inr forth ↦ rw forth (
          guard-Ensures (Unit {0}) _ (is_scalar (get "pk" (fields_of entry))) container_error
            (ok position) tt (λ scalar. (label, m, p, ground arith)))
    ]

checked_record-Ensures :
    (entry : Json) (rank : Rank) (current : ℕ)
    → Ensures
        (Unit {0})
        (λ position.
          (label : String) × (get "model" (fields_of entry) ≡ string label)
          × (position_of label rank ≡ some position)
          × (current ≤ position))
        (checked_record entry rank current)
unfolding checked_record
checked_record-Ensures entry rank current =
    guard-Ensures (Unit {0}) _ (is_object entry && is_object (get "fields" (fields_of entry)))
      container_error _ tt
      (λ checked.
        bind-Ensures (Unit {0})
          (λ found.
            (position : ℕ)
            → found ≡ some position
            → (label : String) × (get "model" (fields_of entry) ≡ string label)
              × (position_of label rank ≡ some position))
          _ (rank_get (get "model" (fields_of entry)) rank) _
          (rank_get-Ensures (get "model" (fields_of entry)) rank) (after_found entry rank current))

Ranked-cons :
    (entry : Json) (entries : List Json) (rank : Rank) (current position : ℕ) (label : String)
    → get "model" (fields_of entry) ≡ string label
    → position_of label rank ≡ some position
    → current ≤ position
    → (m : Result ℕ) → Ensures (Unit {0}) (Ranked rank position entries) m
    → Ensures (Unit {0}) (Ranked rank current (entry ∷ entries)) m
Ranked-cons entry entries rank current position label m p l (ok last) h =
    (label, position, m, p, l, h)
Ranked-cons entry entries rank current position label m p l (err e) h = tt

checked_rounds-Ensures :
    (entries : List Json) (rank : Rank) (current : ℕ)
    → Ensures (Unit {0}) (Ranked rank current entries) (checked_rounds entries rank current)
unfolding checked_rounds
checked_rounds-Ensures [] rank current = refl
checked_rounds-Ensures (entry ∷ entries) rank current =
    bind-Ensures (Unit {0})
      (λ position.
        (label : String) × (get "model" (fields_of entry) ≡ string label)
        × (position_of label rank ≡ some position)
        × (current ≤ position))
      (Ranked rank current (entry ∷ entries)) (checked_record entry rank current)
      (checked_rounds entries rank) (checked_record-Ensures entry rank current)
      (λ position (label, m, p, l).
        Ranked-cons entry entries rank current position label m p l
          (checked_rounds entries rank position) (checked_rounds-Ensures entries rank position))

checked_records-Ensures :
    (value : Json) (rank : Rank) (current : ℕ)
    → Ensures
        (Unit {0})
        (λ (entries, position). Ranked rank current entries position)
        (checked_records value rank current)
unfolding checked_records
checked_records-Ensures value rank current =
    guard-Ensures (Unit {0}) _ (is_list value) container_error _ tt (λ checked.
      bind-Ensures (Unit {0}) (Ranked rank current (items_of value)) _
        (checked_rounds (items_of value) rank current) _
        (checked_rounds-Ensures (items_of value) rank current) (λ position h. h))

-- What reading a frame leaves alone.
abbrev Same : PayloadReader → PayloadReader → Type 0
Same r r' = (r'.rank ≡ r.rank) × (r'.position ≡ r.position)

with_frame :
    (r : PayloadReader) (frames : FrameReader) (found : Option Frame)
    → Ensures
        (Unit {0})
        (λ (found, r'). Same r r')
        (elim found [
          | none ↦ err container_error
          | some first ↦ ok (first, record r { frames = frames; pending = some first })
        ])
with_frame r frames none = tt
with_frame r frames (some first) = (refl, refl)

peek-Same : (r : PayloadReader) → Ensures (Unit {0}) (λ (found, r'). Same r r') (peek r)
unfolding peek
peek-Same r = elim (Option-cases r.pending) [
  | inr (frame, waits) ↦ rw waits (refl, refl)
  | inl none_waits ↦ rw none_waits (
      bind-Ensures (Unit {0}) (λ found. Unit {0}) (λ (found, r'). Same r r') (next_frame r.frames) _
        (Ensures-trivial (next_frame r.frames)) (λ (found, frames) u. with_frame r frames found))
]

take_frame-Same : (r : PayloadReader) → Ensures (Unit {0}) (λ (found, r'). Same r r') (take_frame r)
unfolding take_frame
take_frame-Same r =
    bind-Ensures (Unit {0}) (λ (found, r'). Same r r') (λ (found, r'). Same r r') (peek r) _
      (peek-Same r) (λ (found, r') h. h)

module _ (parsers : Parsers) where
  -- A batch or some batches that continue the order from `r` on, and the reader after them.
  abbrev Continues : PayloadReader → List Json → PayloadReader → Type 0
  Continues r entries r' = (r'.rank ≡ r.rank) × Ranked r.rank r.position entries r'.position

  Same-Continues :
      (a b : PayloadReader) (entries : List Json) (c : PayloadReader)
      → Same a b
      → Continues b entries c
      → Continues a entries c
  Same-Continues a b entries c (r, p) (s, h) = (
    s ∙ r,
    subst (λ rank. Ranked rank a.position entries c.position) r
        (subst (λ position. Ranked b.rank position entries c.position) p h),
  )

  Continues-append :
      (a b c : PayloadReader) (xs ys : List Json)
      → Continues a xs b
      → Continues b ys c
      → Continues a (xs ++ ys) c
  Continues-append a b c xs ys (r, h) (s, k) = (
    s ∙ r,
    Ranked-append a.rank xs ys a.position b.position c.position h
        (subst (λ rank. Ranked rank b.position ys c.position) r k),
  )

  decoded-Continues :
      (r : PayloadReader) (decoded : Option String)
      → Ensures
          (Unit {0})
          (λ (entries, r'). Continues r entries r')
          (elim decoded [
            | none ↦ err container_error
            | some s ↦ parsed (parsers.loads_text s) >>= λ value.
                checked_records value r.rank r.position >>= λ (entries, position).
                ok (entries, record r { position = position })
          ])
  decoded-Continues r none = tt
  decoded-Continues r (some s) =
      bind-Ensures (Unit {0}) (λ value. Unit {0}) (λ (entries, r'). Continues r entries r')
        (parsed (parsers.loads_text s)) _ (Ensures-trivial (parsed (parsers.loads_text s)))
        (λ value u.
          bind-Ensures (Unit {0}) (λ (entries, position). Ranked r.rank r.position entries position)
            (λ (entries, r'). Continues r entries r') (checked_records value r.rank r.position) _
            (checked_records-Ensures value r.rank r.position) (λ (entries, position) h. (refl, h)))

  add_batch-Continues :
      (body : List ℕ) (r : PayloadReader)
      → Ensures (Unit {0}) (λ (entries, r'). Continues r entries r') (add_batch parsers body r)
  unfolding add_batch
  add_batch-Continues body r = decoded-Continues r (parsers.decode_utf8 body)

  -- The loop, whose batches follow one another.
  batch_rounds-Continues :
      (fuel : ℕ) (r : PayloadReader)
      → Ensures
          (Unit {0})
          (λ (batches, r'). Continues r (flatten batches) r')
          (batch_rounds parsers fuel true r)
  unfolding batch_rounds flatten
  batch_rounds-Continues zero r = tt
  batch_rounds-Continues (suc fuel) r =
      bind-Ensures (Unit {0}) (λ (found, r'). Same r r')
        (λ (batches, r'). Continues r (flatten batches) r') (peek r) _ (peek-Same r)
        (λ ((kind, body), r1) (a1, b1).
          if-Ensures (Unit {0}) (λ (batches, r'). Continues r (flatten batches) r')
            (kind == Kind.records) _ _
            (bind-Ensures (Unit {0}) (λ (found, r'). Same r1 r')
              (λ (batches, r'). Continues r (flatten batches) r') (take_frame r1) _
              (take_frame-Same r1)
              (λ (found, r2) (a2, b2).
                bind-Ensures (Unit {0}) (λ (entries, r'). Continues r2 entries r')
                  (λ (batches, r'). Continues r (flatten batches) r') (add_batch parsers body r2) _
                  (add_batch-Continues body r2)
                  (λ (batch, r3) (a3, b3).
                    bind-Ensures (Unit {0}) (λ (batches, r'). Continues r3 (flatten batches) r')
                      (λ (batches, r'). Continues r (flatten batches) r')
                      (batch_rounds parsers fuel true r3) _ (batch_rounds-Continues fuel r3)
                      (λ (batches, r4) after.
                        Same-Continues r r1 (batch ++ flatten batches) r4 (a1, b1)
                          (Same-Continues r1 r2 (batch ++ flatten batches) r4 (a2, b2)
                            (Continues-append r2 r3 r4 batch (flatten batches) (a3, b3) after))))))
            (a1, sym b1))

  -- If `record_batches` returns, then the records of all its batches, one after another, belong to
  -- models of the order that the header gave, in that order.
  pub record_batches-Ranked :
      (fuel : ℕ) (r r' : PayloadReader) (batches : List (List Json))
      → record_batches parsers fuel true r ≡ ok (batches, r')
      → Ranked r.rank r.position (flatten batches) r'.position
  unfolding record_batches
  record_batches-Ranked fuel r r' batches e =
      (Ensures-ok (Unit {0}) (λ (batches, r'). Continues r (flatten batches) r')
        (record_batches parsers fuel true r)
        (guard-Ensures (Unit {0}) (λ (batches, r'). Continues r (flatten batches) r')
          (phase_index r.phase == phase_index Phase.records) runtime_error _ tt
          (λ expected.
            bind-Ensures (Unit {0}) (λ (batches, r'). Continues r (flatten batches) r')
              (λ (batches, r'). Continues r (flatten batches) r') (batch_rounds parsers fuel true r)
              _ (batch_rounds-Continues fuel r) (λ (batches, r') h. h)))
        e).1
