-- ===== src/Engine/Payload/Whole.antt =====
-- The files that a payload's reader gives (dbs/engine/frames.py) have the size and the digest that
-- their ends record.
use dbs.Engine.Kind
use Prim.Native.String.{String}
use mathlib.Core.List.{flatten}
use text.Mathlib.Text.{◌==◌ as str_eq}
use dbs.Prelude.{List, [], false, length, some, ℕ, ◌+◌, ◌==◌, ◌∷◌, ◌≡◌, ◌⊎◌}
use dbs.Engine.Json.{Json, count, fields_of, get, string}
use dbs.Engine.Payload.{FileEntry}
use dbs.Engine.Payload.Reader.{FileStream, Parsers}
use dbs.Result.{Result}

-- A stream after its end: skipped for a reason, or as the end records it.
abbrev Accepted : Json → ℕ → String → FileStream → FileStream → Type 0
Accepted value size digest stream finished =
    (finished.index ≡ stream.index)
    × (((str_eq finished.skipped "" ≡ false) × (finished.entry ≡ stream.entry))
        ⊎ ((get "size" (fields_of value) ≡ count size)
            × (get "sha256" (fields_of value) ≡ string digest)
            × (finished.size ≡ size)
            × (finished.entry ≡ record stream.entry { sha256 = digest })))

module _ (parsers : Parsers) where
  -- A file was skipped for a reason, or its chunks together have the size and the digest that the
  -- file's end records, and the digest is noted in its entry.
  abbrev pub IsWhole : ℕ → FileEntry → FileStream → List (List ℕ) → Type 0
  IsWhole index entry stream chunks =
      let content = flatten chunks in
      (stream.index ≡ index)
      × (((str_eq stream.skipped "" ≡ false) × (stream.entry ≡ entry))
          ⊎ ((body : List ℕ) × (value : Json) × (parsers.loads body ≡ some value)
              × (get "size" (fields_of value) ≡ count (length content))
              × (get "sha256" (fields_of value) ≡ string (parsers.hexdigest content))
              × (stream.size ≡ length content)
              × (stream.entry ≡ record entry { sha256 = parsers.hexdigest content })))

  abbrev pub AllWhole : ℕ → List FileEntry → List (FileStream × List (List ℕ)) → Type 0
  AllWhole index [] [] = Unit {0}
  AllWhole index (entry ∷ entries) ((stream, chunks) ∷ streams) =
      IsWhole index entry stream chunks × AllWhole (index + 1) entries streams
  AllWhole _ _ _ = ⊥
